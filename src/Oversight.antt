-- ===== src/Oversight.antt =====
-- Human oversight in mcp-server/server.py: the kill switch with its five-second cache, the approval
-- queue, and the gates that `_dispatch` passes before it comes to a tool. What the tool itself does
-- is not modelled here: a call that passes the gates is `through`.
-- `db` says whether the database answers; times are in microseconds.
mod Switch
mod Classified
mod Demands
mod Gate
mod Kill
mod Examples
use powerbrain.Base.{
  ℕ, ◌+◌, ◌-◌, ◌*◌, String, Bool, true, false, ◌&&◌, ◌||◌, not, Option, none, some, List, [], ◌∷◌,
  ◌++◌, ltb, nat_beq, str_eq, truthy, contains, min, max, if◌then◌else◌,
}
use powerbrain.Base.Json.{Json, Items, Fields, truth, member}
use powerbrain.Opa.{Reply, body}

-- The row of pb_circuit_breaker_state, as `_get_circuit_breaker_state` returns it.
pub record Breaker : Type 0 where
  pub active : Bool
  pub reason : Option String
  pub set_by : Option String
  pub set_at : Option ℕ

abbrev pub inactive : Breaker
inactive = record { active = false; reason = none; set_by = none; set_at = none }

-- A row of pending_reviews, and a line of agent_access_log.
pub record Review : Type 0 where
  pub id : String
  pub agent_id : String
  pub tool : String
  pub classification : Json
  pub reason : Json
  pub expires_at : ℕ

pub record LogLine : Type 0 where
  pub agent_id : String
  pub resource_id : String
  pub tool : String
  pub policy_result : String

-- The cache of the process, and the tables.
pub record Oversight : Type 0 where
  pub state : Option Breaker
  pub fetched_at : ℕ
  pub row : Option Breaker
  pub reviews : List Review
  pub log : List LogLine

-- CIRCUIT_BREAKER_CACHE_TTL
abbrev pub cache_ttl : ℕ
cache_ttl = 5000000

-- The answer of the database; a missing row and a failure count as inactive.
pub fetch : Bool → Option Breaker → Breaker
fetch false row = inactive
fetch true none = inactive
fetch true (some b) = b

pub refetch : Bool → ℕ → Oversight → Oversight × Breaker
unfolding fetch
refetch db now s = (record s { state = some (fetch db s.row); fetched_at = now }, fetch db s.row)

pub cached_or_fetch : Bool → ℕ → Option Breaker → Oversight → Oversight × Breaker
unfolding refetch
cached_or_fetch db now none s = refetch db now s
cached_or_fetch db now (some b) s =
    if ltb (now - s.fetched_at) cache_ttl then (s, b) else refetch db now s

pub get_circuit_breaker_state : Bool → ℕ → Oversight → Oversight × Breaker
unfolding cached_or_fetch
get_circuit_breaker_state db now s = cached_or_fetch db now s.state s

invalidate_circuit_breaker_cache : Oversight → Oversight
invalidate_circuit_breaker_cache s = record s { state = none; fetched_at = 0 }

-- UPDATE … WHERE id = 1: without the row it changes nothing.
update_row : Breaker → Option Breaker → Option Breaker
update_row b none = none
update_row b (some _) = some b

-- `_set_circuit_breaker`; `none` if the database raises.
pub set_circuit_breaker :
    Bool → ℕ → Bool → Option String → String → Oversight → Option (Oversight × Breaker)
unfolding update_row invalidate_circuit_breaker_cache get_circuit_breaker_state
set_circuit_breaker false now active reason set_by s = none
set_circuit_breaker true now active reason set_by s = some (
    get_circuit_breaker_state true now (
      invalidate_circuit_breaker_cache (record s {
        row =
            update_row
              (record { active = active; reason = reason; set_by = some set_by; set_at = some now })
              s.row;
      })))

pub record Approval : Type 0 where
  pub required : Bool
  pub reason : Json
  pub timeout_minutes : ℕ

-- `d.get("result", default)` of a reply that has passed `raise_for_status`.
abbrev pub result_or : Json → Reply → Option Json
result_or d (body fs) = elim (member "result" fs) [ none ↦ some d | some v ↦ some v ]
result_or d _ = none

-- `int(v or 60)`; the second argument reads a text as Python's `int` does.
pub minutes_of : (String → Option ℕ) → Json → Option ℕ
minutes_of int_of Json.null = some 60
minutes_of int_of (Json.bool b) = some (if b then 1 else 60)
minutes_of int_of (Json.num n) = some (if nat_beq n 0 then 60 else n)
minutes_of int_of (Json.str s) = if truthy s then int_of s else some 60
minutes_of int_of (Json.arr Items.nil) = some 60
minutes_of int_of (Json.arr (Items.cons _ _)) = none
minutes_of int_of (Json.obj Fields.end) = some 60
minutes_of int_of (Json.obj (Fields.field _ _ _)) = none

abbrev clamp : ℕ → ℕ
clamp m = max 1 (min 1440 m)

abbrev fail_open : Approval
fail_open = record { required = false; reason = Json.str ""; timeout_minutes = 60 }

pub approval : Option Json → Option Json → Option ℕ → Approval
approval (some r) (some why) (some m) = record {
  required = truth r;
  reason = if truth why then why else Json.str "";
  timeout_minutes = clamp m;
}
approval _ _ _ = fail_open

abbrev pub bind_minutes : (String → Option ℕ) → Option Json → Option ℕ
bind_minutes int_of none = none
bind_minutes int_of (some v) = minutes_of int_of v

-- The engine's replies to the three queries of `_check_oversight_approval`.
pub record Replies : Type 0 where
  pub requires_approval : Reply
  pub approval_reason : Reply
  pub timeout_minutes : Reply

pub check_oversight_approval : (String → Option ℕ) → Replies → Approval
unfolding approval
check_oversight_approval int_of r =
    approval (result_or (Json.bool false) r.requires_approval)
      (result_or (Json.str "") r.approval_reason)
      (bind_minutes int_of (result_or (Json.num 60) r.timeout_minutes))

-- _OVERSIGHT_DATA_TOOLS
abbrev data_tools : List String
data_tools = "search_knowledge" ∷ "query_data" ∷ "get_code_context" ∷ "get_document" ∷ []

pub is_data_tool : String → Bool
is_data_tool name = contains name data_tools

-- What `_dispatch` has done before it comes to the tools. `error` is an exception, which
-- `call_tool` turns into an error payload.
pub data Outcome : Type 0 where
  through error : Outcome
  circuit_breaker_active : Breaker → Outcome
  pending : String → Json → ℕ → Outcome

pub record Call : Type 0 where
  pub name : String
  pub arguments : Fields
  pub agent_id : String
  pub agent_role : String

-- `(arguments.get("filters") or {}).get("classification")`; `none` if filters is no object.
abbrev pub filter_hint : Option Json → Option (Option Json)
filter_hint none = some none
filter_hint (some (Json.obj fs)) = some (member "classification" fs)
filter_hint (some v) = if truth v then none else some none

abbrev pub json_or : Option Json → Json → Json
json_or none d = d
json_or (some v) d = if truth v then v else d

pub classification_of : Fields → Option Json
unfolding member
classification_of args = elim (filter_hint (member "filters" args)) [
  | none ↦ none
  | some hint ↦ some (json_or hint (json_or (member "classification" args) (Json.str "internal")))
]

-- `log_access` with the database's answer.
abbrev pub logged : Bool → LogLine → Oversight → Outcome → Oversight × Outcome
logged db line s o = if db then (record s { log = s.log ++ line ∷ [] }, o) else (s, error)

pub block : Bool → Call → Breaker → Oversight → Oversight × Outcome
block db c b s =
    logged db
      (record {
        agent_id = c.agent_id;
        resource_id = "circuit_breaker";
        tool = c.name;
        policy_result = "deny";
      })
      s (circuit_breaker_active b)

-- `_create_pending_review` and what follows it.
queue : Bool → ℕ → String → Call → Json → Approval → Oversight → Oversight × Outcome
queue db now id c classification a s =
    if db
    then logged db
        (record {
          agent_id = c.agent_id;
          resource_id = "pending";
          tool = c.name;
          policy_result = "allow";
        })
        (record s {
          reviews =
              s.reviews
              ++ record {
                id = id;
                agent_id = c.agent_id;
                tool = c.name;
                classification = classification;
                reason = a.reason;
                expires_at = now + a.timeout_minutes * 60000000;
              }
                ∷ [];
        })
        (pending id a.reason a.timeout_minutes)
    else (s, error)

pub ask : Bool → ℕ → String → Call → Option Json → Approval → Oversight → Oversight × Outcome
unfolding queue
ask db now id c none a s = (s, error)
ask db now id c (some classification) a s =
    if a.required then queue db now id c classification a s else (s, through)

-- The engine's replies may depend on the classification that it is asked about.
pub approve :
    (String → Option ℕ)
    → (Json → Replies)
    → Bool
    → ℕ
    → String
    → Call
    → Oversight
    → Oversight × Outcome
unfolding ask check_oversight_approval classification_of
approve int_of engine db now id c s =
    if str_eq c.agent_role "admin"
    then (s, through)
    else ask db now id c (classification_of c.arguments)
        (check_oversight_approval int_of
          (engine (json_or (classification_of c.arguments) Json.null)))
        s

-- The two gates at the head of `_dispatch`.
pub dispatch :
    (String → Option ℕ)
    → (Json → Replies)
    → Bool
    → ℕ
    → String
    → Call
    → Oversight
    → Oversight × Outcome
unfolding get_circuit_breaker_state block approve is_data_tool
dispatch int_of engine db now id c s =
    if is_data_tool c.name
    then (let (s', b) = get_circuit_breaker_state db now s in
        if b.active then block db c b s' else approve int_of engine db now id c s')
    else (s, through)
