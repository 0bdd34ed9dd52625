-- ===== src/AgentLoop.antt =====
-- pb-proxy/agent_loop.py: the loop between the model and the tools. The model, the sessions with
-- the servers, the services and Python's `json` are fields of the setup; they may answer by the
-- transcript, which grows with every call.
mod Transcript
mod Counts
mod Returns
mod Examples
use Prim.Native.String.{◌++◌}
use powerbrain.Base.{
  ℕ, zero, suc, ◌+◌, String, Bool, true, false, ◌&&◌, Option, none, some, List, [], ◌∷◌, and_then,
  if◌then◌else◌,
}
use powerbrain.Base.Dict.{Dict}
use powerbrain.Base.Json.{Json, Items, Fields}
use powerbrain.Tools.{ToolEntry, needs_pii_scan}
use powerbrain.Pii.{
  Service, Stats, no_stats, Resolved, depseudonymize_tool_arguments, pseudonymize_tool_result,
  vault_resolve_tool_result,
}

pub record ToolCall : Type 0 where
  pub id : String
  pub name : String
  pub arguments : String

-- The first choice of a reply of the model.
pub record Response : Type 0 where
  pub content : Json
  pub tool_calls : List ToolCall

-- The messages: those of the request, and those that the loop appends.
pub data Turn : Type 0 where
  given : Json → Turn
  assistant : Json → List ToolCall → Turn
  tool : String → String → Turn

-- What a call of a tool comes to.
pub data CallReply : Type 0 where
  answered : String → CallReply
  timed_out : CallReply
  raised : String → CallReply

-- `vault` is `none` unless the resolution is enabled, `scan` unless there are a client and a salt.
pub record Setup : Type 0 where
  pub llm : List Turn → Option Response
  pub resolve_tool : String → Option ToolEntry
  pub call_tool : List Turn → ToolEntry → Json → CallReply
  pub scan : Option Service
  pub vault : Option (String → Option Resolved)
  pub loads : String → Option Json
  pub dumps : Json → String
  pub timeout : String
  pub available_tools : String

-- AgentLoopResult's counters, the messages and the reverse map.
pub record Loop : Type 0 where
  pub turns : List Turn
  pub reverse_map : Dict String
  pub iterations : ℕ
  pub tool_calls_executed : ℕ
  pub tools_used : List String
  pub vault_resolutions : Stats

pub record LoopResult : Type 0 where
  pub response : Response
  pub max_iterations_reached : Bool
  pub loop : Loop

-- `json.loads`, {} if it fails.
abbrev pub parsed : Setup → ToolCall → Json
parsed su tc = elim (su.loads tc.arguments) [ none ↦ Json.obj Fields.end | some v ↦ v ]

-- With a map, arguments that are no object raise AttributeError.
pub restored : Dict String → Json → Option Json
unfolding depseudonymize_tool_arguments
restored [] v = some v
restored (e ∷ m) (Json.obj fs) = some (Json.obj (depseudonymize_tool_arguments fs (e ∷ m)))
restored (e ∷ m) _ = none

abbrev error_json : Setup → String → String
error_json su s = su.dumps (Json.obj (Fields.field "error" (Json.str s) Fields.end))

abbrev pub named : ToolEntry → String
named e = "Tool '" ++ (e.original_name ++ ("' on server '" ++ (e.server_name ++ "'")))

abbrev pub used : List String → String → List String
used [] n = n ∷ []
used (m ∷ ms) n = m ∷ used ms n

-- The result of a call that has been routed to an entry.
pub routed : Setup → ToolEntry → CallReply → Loop → Loop × String
routed su e (answered s) l = (
  record l {
    tool_calls_executed = l.tool_calls_executed + 1;
    tools_used = used l.tools_used e.original_name;
  },
  s,
)
routed su e timed_out l =
    (l, error_json su (named e ++ (" timed out after " ++ (su.timeout ++ "s"))))
routed su e (raised why) l = (l, error_json su (named e ++ (" failed: " ++ why)))

abbrev pub scan_with : Option Service → Loop × String → Loop × String
scan_with none r = r
scan_with (some service) (l, s) =
    let (s', m) = pseudonymize_tool_result service s l.reverse_map in
    (record l { reverse_map = m }, s')

pub scanned : Setup → ToolEntry → Loop × String → Loop × String
unfolding needs_pii_scan pseudonymize_tool_result
scanned su e r = if needs_pii_scan e then scan_with su.scan r else r

pub dispatch_tool : Setup → ToolCall → Option ToolEntry → Json → Loop → Loop × String
unfolding routed scanned
dispatch_tool su tc none args l = (
  l,
  error_json su ("Unknown tool '" ++ (tc.name ++ ("'. Available tools: " ++ su.available_tools))),
)
dispatch_tool su tc (some e) args l = scanned su e (routed su e (su.call_tool l.turns e args) l)

abbrev add_stats : Stats → Stats → Stats
add_stats a b = record {
  total = a.total + b.total;
  resolved = a.resolved + b.resolved;
  skipped = a.skipped + b.skipped;
}

pub resolve_vault : Option (String → Option Resolved) → Loop × String → Loop × String
unfolding vault_resolve_tool_result
resolve_vault none r = r
resolve_vault (some vault) (l, s) =
    let (s', stats) = vault_resolve_tool_result vault s in
    (record l { vault_resolutions = add_stats l.vault_resolutions stats }, s')

abbrev pub append_turn : List Turn → Turn → List Turn
append_turn [] t = t ∷ []
append_turn (u ∷ us) t = u ∷ append_turn us t

abbrev pub answer_call : ToolCall → Loop × String → Loop
answer_call tc (l, s) = record l { turns = append_turn l.turns (tool tc.id s) }

-- One tool call of a reply.
pub execute : Setup → ToolCall → Loop → Option Loop
unfolding restored dispatch_tool resolve_vault
execute su tc l = and_then (restored l.reverse_map (parsed su tc)) (λ args. some (
    answer_call tc (resolve_vault su.vault (dispatch_tool su tc (su.resolve_tool tc.name) args l))))

pub execute_all : Setup → List ToolCall → Loop → Option Loop
unfolding execute
execute_all su [] l = some l
execute_all su (tc ∷ tcs) l = and_then (execute su tc l) (execute_all su tcs)

-- After the last iteration: `response` is unbound if there was none.
pub finish : Option Response → Loop → Option LoopResult
finish none l = none
finish (some r) l = some (record { response = r; max_iterations_reached = true; loop = l })

-- A reply without tool calls is the last one; else they are executed, and the loop goes on.
pub after_reply :
    Setup → (Loop → Option LoopResult) → Response → List ToolCall → Loop → Option LoopResult
unfolding execute_all
after_reply su next r [] l = some (record {
  response = r;
  max_iterations_reached = false;
  loop = record l { iterations = l.iterations + 1 };
})
after_reply su next r (tc ∷ tcs) l =
    and_then
      (execute_all su (tc ∷ tcs) (record l {
        iterations = l.iterations + 1;
        turns = append_turn l.turns (assistant r.content (tc ∷ tcs));
      }))
      next

-- The iterations that are left; `none` is an exception.
pub iterate : Setup → ℕ → Option Response → Loop → Option LoopResult
unfolding after_reply finish
iterate su zero last l = finish last l
iterate su (suc n) last l =
    and_then (su.llm l.turns) (λ r. after_reply su (iterate su n (some r)) r r.tool_calls l)

abbrev pub initial : List Turn → Dict String → Loop
initial turns reverse_map = record {
  turns = turns;
  reverse_map = reverse_map;
  iterations = 0;
  tool_calls_executed = 0;
  tools_used = [];
  vault_resolutions = no_stats;
}

pub run : Setup → ℕ → List Turn → Dict String → Option LoopResult
unfolding iterate
run su max_iterations turns reverse_map = iterate su max_iterations none (initial turns reverse_map)

-- `pii_reverse_map or {}`: the map of the caller is the one that the loop extends, unless it is
-- empty; then the loop has one of its own.
pub visible_map : Dict String → LoopResult → Dict String
visible_map [] r = []
visible_map (e ∷ m) r = r.loop.reverse_map
