-- ===== src/Oversight/Examples.antt =====
-- The oversight gates of mcp-server/server.py at a concrete engine and concrete tables, and the
-- theorems there.
use powerbrain.Base.{
  ℕ, List, [], ◌∷◌, ◌≡◌, ◌↔◌, ◌⊎◌, refl, String, true, false, Option, none, some, str_eq,
}
use powerbrain.Base.Json.{Json, Fields}
use powerbrain.Opa.{Reply}
use powerbrain.Oversight.{
  Oversight, Breaker, inactive, through, pending, Call, Replies, set_circuit_breaker, dispatch,
  is_data_tool, minutes_of,
}
use powerbrain.Oversight.Kill.{AllDenied, dispatch-after_kill}
use powerbrain.Oversight.Gate.{met, IsUndemanded, dispatch-through_iff}

-- An engine that requires approval of what is confidential, within ten days.
abbrev replies : Json → Replies
replies (Json.str c) = record {
  requires_approval =
      Reply.body (Fields.field "result" (Json.bool (str_eq c "confidential")) Fields.end);
  approval_reason = Reply.body Fields.end;
  timeout_minutes = Reply.body (Fields.field "result" (Json.num 14400) Fields.end);
}
replies _ = record {
  requires_approval = Reply.timeout;
  approval_reason = Reply.timeout;
  timeout_minutes = Reply.timeout;
}

abbrev no_texts : String → Option ℕ
no_texts s = none

abbrev search : String → Call
search classification = record {
  name = "search_knowledge";
  arguments = Fields.field "classification" (Json.str classification) Fields.end;
  agent_id = "alice";
  agent_role = "analyst";
}

abbrev running : Oversight
running = record { state = none; fetched_at = 0; row = some inactive; reviews = []; log = [] }

abbrev stopped : Breaker
stopped = record { active = true; reason = some "incident"; set_by = some "root"; set_at = some 7 }

abbrev thrown : Oversight
thrown = record { state = some stopped; fetched_at = 7; row = some stopped; reviews = []; log = [] }

held_back :
    (dispatch no_texts replies true 7 "r1" (search "confidential") running).1
    ≡ pending "r1" (Json.str "") 1440
unfolding dispatch minutes_of
held_back = refl

passes : (dispatch no_texts replies true 7 "r1" (search "internal") running).1 ≡ through
unfolding dispatch minutes_of
passes = refl

throws : set_circuit_breaker true 7 true (some "incident") "root" running ≡ some (thrown, stopped)
unfolding set_circuit_breaker
throws = refl

-- Two searches with another tool between them, the second long after the cache is stale.
abbrev later_calls : List (ℕ × String × Call)
later_calls =
    (8, "r1", search "internal")
    ∷ (9, "r2", record (search "internal") { name = "get_review_status" })
    ∷ (9000000, "r3", record (search "internal") { agent_role = "admin" })
    ∷ []

dispatch-after_kill_example : AllDenied no_texts replies stopped refl later_calls thrown
dispatch-after_kill_example =
    dispatch-after_kill no_texts replies 7 (some "incident") "root" inactive stopped running thrown
      later_calls refl throws

dispatch-through_iff_example :
    ((dispatch no_texts replies true 7 "r1" (search "internal") running).1 ≡ through) ↔ (
      (is_data_tool "search_knowledge" ≡ false)
      ⊎ (((met true 7 running).active ≡ false)
          × ((str_eq "analyst" "admin" ≡ true)
              ⊎ IsUndemanded no_texts replies true 7 "r1" (search "internal"))))
dispatch-through_iff_example =
    dispatch-through_iff no_texts replies true 7 "r1" (search "internal") running
