-- ===== src/Opa/Filter.antt =====
-- `filter_by_policy` of mcp-server/server.py, over `check_opa_policy`. `gather` runs the checks of the
-- hits at once; here they run one after the other, each at its own time and with what the engine
-- replies then, and an exception of one is the exception of all.
pub mod Allowed
use Prim.Native.String.{◌++◌}
use powerbrain.Base.{ℕ, String, Bool, Option, none, some, List, [], ◌∷◌, if◌then◌else◌}
use powerbrain.Base.Json.{Json, Fields, member}
use powerbrain.Opa.{Engine, Cache, Access, Decision, decided, raised, check_opa_policy}

-- A hit of the vector store.
pub record Hit : Type 0 where
  pub id : String
  pub score : ℕ
  pub payload : Fields

-- Who asks, and for each hit the times of the two attempts and the engine as it replies then.
pub record Asking : Type 0 where
  pub agent_id : String
  pub agent_role : String
  pub resource_prefix : String
  pub cache_enabled : Bool
  pub now : Hit → ℕ
  pub engine : Hit → Engine
  pub later : Hit → ℕ
  pub engine_later : Hit → Engine

-- `payload.get("classification", "internal")`; one that is no text is none of the levels, and a text
-- that is none of them either stands for it.
abbrev pub class_of : Json → String
class_of (Json.str s) = s
class_of _ = "no text"

abbrev pub or_internal : Option Json → String
or_internal none = "internal"
or_internal (some v) = class_of v

pub access_of : Asking → Hit → Access
unfolding member
access_of q h = record {
  agent_id = q.agent_id;
  agent_role = q.agent_role;
  resource = q.resource_prefix ++ ("/" ++ h.id);
  classification = or_internal (member "classification" h.payload);
  action = "read";
}

abbrev pub kept_of : Hit → Decision → Option (List Hit) → Option (List Hit)
kept_of h raised rest = none
kept_of h (decided b) none = none
kept_of h (decided b) (some kept) = some (if b then h ∷ kept else kept)

module _ (cache : Cache Bool) where
  pub check_hit : Asking → Hit → cache.Store → cache.Store × Decision
  unfolding check_opa_policy access_of
  check_hit q h c =
      check_opa_policy cache q.cache_enabled (q.now h) (q.engine h) (q.later h) (q.engine_later h)
        (access_of q h) c

  unfoldable pub filter_by_policy :
      Asking → List Hit → cache.Store → cache.Store × Option (List Hit)
  unfolding check_hit
  filter_by_policy q [] c = (c, some [])
  filter_by_policy q (h ∷ hs) c =
      let (c', d) = check_hit q h c in
      let (c'', rest) = filter_by_policy q hs c' in (c'', kept_of h d rest)
