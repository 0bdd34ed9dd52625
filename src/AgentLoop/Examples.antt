-- ===== src/AgentLoop/Examples.antt =====
-- A run of the loop of pb-proxy/agent_loop.py: the model asks for one tool that knows a person and
-- for one that does not exist, and then replies. Then the theorems there.
use powerbrain.Base.{
  ◌≡◌, refl, subst, some_injective, All, String, true, false, Option, none, some, List, [], ◌∷◌,
  str_eq, if◌then◌else◌,
}
use powerbrain.Base.Dict.{insert}
use powerbrain.Base.Json.{Json, Fields}
use powerbrain.Base.Text.{strip}
use powerbrain.Tools.{ToolEntry, needs_pii_scan}
use powerbrain.Pii.{Service, pseudonymize_tool_result}
use powerbrain.AgentLoop.{
  ToolCall, Response, Turn, assistant, tool, answered, Setup, LoopResult, parsed, run, visible_map,
}
use powerbrain.AgentLoop.Transcript.{IsTranscript, run-IsTranscript}
use powerbrain.AgentLoop.Counts.{IsBounded, run-IsBounded}
use powerbrain.AgentLoop.Returns.{Cooperates, run-returns}

abbrev crm : ToolEntry
crm = record {
  server_name = "crm";
  original_name = "customer";
  schema = Json.null;
  server_config = record {
    name = "crm";
    url = "http://crm";
    auth = "none";
    auth_token_env = none;
    prefix = some "crm";
    required = false;
    tool_whitelist = [];
    forward_headers = [];
    pii_status = "unscanned";
    pii_scanned_tools = [];
  };
}

abbrev call : String → String → ToolCall
call id name = record { id = id; name = name; arguments = "{}" }

abbrev calls : List ToolCall
calls = call "c1" "crm_customer" ∷ call "c2" "none" ∷ []

-- The model replies in the end if the last turn is a result.
abbrev llm : List Turn → Option Response
llm (Turn.given v ∷ []) = some (record { content = Json.null; tool_calls = calls })
llm _ = some (record { content = Json.str "done"; tool_calls = [] })

abbrev service : Service
service s =
    if str_eq s "Ann"
    then some
        (record { contains_pii = true; text = "[PERSON:1]"; mapping = ("Ann", "[PERSON:1]") ∷ [] })
    else none

abbrev setup : Setup
setup = record {
  llm = llm;
  resolve_tool = λ n. if str_eq n "crm_customer" then some crm else none;
  call_tool = λ turns e args. answered "Ann";
  scan = some service;
  vault = none;
  loads = λ s. some (if str_eq s "{}" then Json.obj Fields.end else Json.num 1);
  dumps = λ v. "error";
  timeout = "30";
  available_tools = "['crm_customer']";
}

abbrev request : List Turn
request = Turn.given (Json.str "who?") ∷ []

abbrev outcome : LoopResult
outcome = record {
  response = record { content = Json.str "done"; tool_calls = [] };
  max_iterations_reached = false;
  loop = record {
    turns =
        Turn.given (Json.str "who?")
        ∷ assistant Json.null calls
        ∷ tool "c1" "[PERSON:1]"
        ∷ tool "c2" "error"
        ∷ [];
    reverse_map = ("[PERSON:1]", "Ann") ∷ [];
    iterations = 2;
    tool_calls_executed = 1;
    tools_used = "customer" ∷ [];
    vault_resolutions = record { total = 0; resolved = 0; skipped = 0 };
  };
}

runs : run setup 5 request [] ≡ some outcome
unfolding run needs_pii_scan pseudonymize_tool_result strip insert
runs = refl

-- The caller's empty map stays empty, though the transcript has a pseudonym.
map_lost : visible_map [] outcome ≡ []
unfolding visible_map
map_lost = refl

-- Without an iteration there is no response to return.
no_iterations : run setup 0 request [] ≡ none
unfolding run
no_iterations = refl

run-IsTranscript_example : IsTranscript request outcome.loop.turns
run-IsTranscript_example = run-IsTranscript setup 5 request [] outcome runs

run-IsBounded_example : IsBounded 5 request outcome
run-IsBounded_example = run-IsBounded setup 5 request [] outcome runs

llm-replies : (turns : List Turn) → (r : Response) × (llm turns ≡ some r)
llm-replies [] = (_, refl)
llm-replies (Turn.given v ∷ []) = (_, refl)
llm-replies (Turn.given v ∷ t ∷ ts) = (_, refl)
llm-replies (assistant v cs ∷ ts) = (_, refl)
llm-replies (tool i s ∷ ts) = (_, refl)

-- An argument of a call is "{}"; another text need be no object.
abbrev AllObjects : Response → Type 0
AllObjects r = All (λ tc. (fs : Fields) × (parsed setup tc ≡ Json.obj fs)) r.tool_calls

llm-AllObjects : (turns : List Turn) (r : Response) → llm turns ≡ some r → AllObjects r
llm-AllObjects (Turn.given v ∷ []) r e =
    subst AllObjects (some_injective _ r e) ((Fields.end, refl), ((Fields.end, refl), tt))
llm-AllObjects [] r e = subst AllObjects (some_injective _ r e) tt
llm-AllObjects (Turn.given v ∷ t ∷ ts) r e = subst AllObjects (some_injective _ r e) tt
llm-AllObjects (assistant v cs ∷ ts) r e = subst AllObjects (some_injective _ r e) tt
llm-AllObjects (tool i s ∷ ts) r e = subst AllObjects (some_injective _ r e) tt

setup-Cooperates : Cooperates setup
setup-Cooperates = record { replies = llm-replies; objects = llm-AllObjects }

run-returns_example : (result : LoopResult) × (run setup 5 request [] ≡ some result)
run-returns_example = run-returns setup setup-Cooperates 4 request []
