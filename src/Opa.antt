-- ===== src/Opa.antt =====
-- The queries to the policy engine: shared/opa_client.py, and the gates of mcp-server/server.py
-- that rest on it: `check_opa_policy` with its cache and its retry (`filter_by_policy`
-- over it in Filter), `check_opa_vault_access` and `check_opa_summarization_policy`.
-- The engine is an argument: what it replies to a path and an input.
mod Startup
pub mod Keys
pub mod Filter
pub mod Replies
pub mod Gates
pub mod Caching
mod Examples
use Prim.Native.String.{char_at, ◌++◌}
use powerbrain.Base.{
  ℕ, ◌≡◌, ◌⊎◌, String, Bool, true, false, Option, none, some, List, [], ◌∷◌, nat_beq, str_eq,
  if◌then◌else◌,
}
use powerbrain.Base.Json.{Json, Items, Fields, truth, member}
use powerbrain.Base.Text.{strip_by, replace_char}

-- What the HTTP client brings back: a transport error, a refusal of `raise_for_status`, a body
-- that is no JSON, or an object (the engine answers with no other JSON).
pub data Reply : Type 0 where
  connect_error timeout http_error bad_body : Reply
  body : Fields → Reply

abbrev pub Engine : Type 0
Engine = String → Json → Reply

-- What `opa_query` returns or raises.
pub data OpaResult : Type 0 where
  result : Json → OpaResult
  missing : String → OpaResult
  unreachable failed : OpaResult

-- `package_path.strip("/").replace(".", "/")`
pub normal_path : String → String
unfolding strip_by replace_char
normal_path p = replace_char b'.' (char_at "/" 0) (strip_by (λ c. nat_beq c b'/') p)

pub read_reply : String → Reply → OpaResult
unfolding member
read_reply path connect_error = unreachable
read_reply path timeout = unreachable
read_reply path http_error = failed
read_reply path bad_body = failed
read_reply path (body fs) = elim (member "result" fs) [ none ↦ missing path | some v ↦ result v ]

unfoldable pub opa_query : Engine → String → Json → OpaResult
unfolding normal_path read_reply
opa_query engine p input = let path = normal_path p in read_reply path (engine path input)

-- The lines of `missing`: a path that is not loaded, or one whose probe raised.
pub data Failure : Type 0 where
  not_loaded probe_error : String → Failure

abbrev pub probe : String → OpaResult → List Failure → List Failure
probe p (result v) rest = rest
probe p (missing q) rest = not_loaded q ∷ rest
probe p unreachable rest = probe_error p ∷ rest
probe p failed rest = probe_error p ∷ rest

-- `verify_required_policies` raises unless the list is empty.
pub verify_required_policies : Engine → List String → List Failure
unfolding opa_query
verify_required_policies engine [] = []
verify_required_policies engine (p ∷ ps) =
    probe p (opa_query engine p (Json.obj Fields.end)) (verify_required_policies engine ps)

-- cachetools' TTLCache: a key holds what was last put there, until it expires or is evicted.
pub record Cache (V : Type 0) : Type 1 where
  pub Store : Type 0
  pub get : ℕ → String → Store → Option V
  pub put : ℕ → String → V → Store → Store
  pub get-put :
      (now then' : ℕ) (j k : String) (v x : V) (c : Store)
      → get now j (put then' k v c) ≡ some x
      → ((j ≡ k) × (x ≡ v)) ⊎ (get now j c ≡ some x)

-- The decision of a check, or the transport error that is raised to the retry.
pub data Decision : Type 0 where
  decided : Bool → Decision
  raised : Decision

abbrev pub decision : OpaResult → Decision
decision (result v) = decided (truth v)
decision (missing p) = decided false
decision unreachable = raised
decision failed = decided false

-- The input of the access gate.
abbrev pub access_input : String → String → String → String → String → Json
access_input agent_id agent_role resource classification action = Json.obj (
    Fields.field "agent_id" (Json.str agent_id) (
      Fields.field "agent_role" (Json.str agent_role) (
        Fields.field "resource" (Json.str resource) (
          Fields.field "classification" (Json.str classification)
            (Fields.field "action" (Json.str action) Fields.end)))))

-- `f"{agent_role}:{classification}:{action}"`
unfoldable pub cache_key : String → String → String → String
cache_key agent_role classification action =
    agent_role ++ (":" ++ (classification ++ (":" ++ action)))

pub record Access : Type 0 where
  pub agent_id : String
  pub agent_role : String
  pub resource : String
  pub classification : String
  pub action : String

abbrev pub key_of : Access → String
key_of a = cache_key a.agent_role a.classification a.action

module _ (cache : Cache Bool) where
  open cache use {Store, get, put}

  -- After the query: the decision is stored, unless the query raised to the retry.
  abbrev pub remember : Bool → ℕ → String → Decision → Store → Store × Decision
  remember enabled now key raised c = (c, raised)
  remember true now key (decided b) c = (put now key b c, decided b)
  remember false now key (decided b) c = (c, decided b)

  abbrev pub cached : Bool → ℕ → String → Store → Option Bool
  cached true now key c = get now key c
  cached false now key c = none

  -- One attempt, at a time and with what the engine replies then.
  pub check_attempt : Bool → ℕ → Engine → Access → Store → Store × Decision
  unfolding opa_query
  check_attempt enabled now engine a c = elim (cached enabled now (key_of a) c) [
    | some b ↦ (c, decided b)
    | none ↦
        remember enabled now (key_of a)
          (decision (
            opa_query engine "pb/access/allow"
              (access_input a.agent_id a.agent_role a.resource a.classification a.action)))
          c
  ]

  -- `stop_after_attempt(2)`: a transport error is tried once more, and raised the second time.
  abbrev pub again : Bool → ℕ → Engine → Access → Store × Decision → Store × Decision
  again enabled now engine a (c, decided b) = (c, decided b)
  again enabled now engine a (c, raised) = check_attempt enabled now engine a c

  pub check_opa_policy : Bool → ℕ → Engine → ℕ → Engine → Access → Store → Store × Decision
  unfolding check_attempt
  check_opa_policy enabled now engine now' engine' a c =
      again enabled now' engine' a (check_attempt enabled now engine a c)

-- `check_opa_vault_access`: what is allowed, and the fields to redact.
pub record VaultPolicy : Type 0 where
  pub allowed : Bool
  pub fields_to_redact : List Json

abbrev deny : VaultPolicy
deny = record { allowed = false; fields_to_redact = [] }

abbrev items : Items → List Json
items Items.nil = []
items (Items.cons v vs) = v ∷ items vs

abbrev as_list : Json → List Json
as_list (Json.arr vs) = items vs
as_list _ = []

abbrev pub vault_policy : OpaResult → OpaResult → VaultPolicy
vault_policy (result a) (result f) = record { allowed = truth a; fields_to_redact = as_list f }
vault_policy _ _ = deny

unfoldable pub check_opa_vault_access : Engine → Json → VaultPolicy
unfolding opa_query
check_opa_vault_access engine input =
    vault_policy (opa_query engine "pb/privacy/vault_access_allowed" input)
      (opa_query engine "pb/privacy/vault_fields_to_redact" input)

-- `check_opa_summarization_policy`
pub record SummarizationPolicy : Type 0 where
  pub summarize_allowed : Bool
  pub required : Bool
  pub detail : String

abbrev as_detail : Json → String
as_detail (Json.str s) = s
as_detail _ = "standard"

abbrev pub summarization_policy : OpaResult → OpaResult → OpaResult → SummarizationPolicy
summarization_policy (result a) (result r) (result d) = record {
  summarize_allowed = truth a;
  required = truth r;
  detail = as_detail d;
}
summarization_policy _ _ _ = record {
  summarize_allowed = false;
  required = false;
  detail = "standard";
}

pub check_opa_summarization_policy : Engine → Json → SummarizationPolicy
unfolding opa_query
check_opa_summarization_policy engine input =
    summarization_policy (opa_query engine "pb/summarization/summarize_allowed" input)
      (opa_query engine "pb/summarization/summarize_required" input)
      (opa_query engine "pb/summarization/summarize_detail" input)
