-- ===== src/AgentLoop/Transcript.antt =====
-- The transcript that the loop of pb-proxy/agent_loop.py hands to the model.
use powerbrain.Base.{
  ℕ, zero, suc, ◌+◌, ◌≡◌, refl, ◌∙◌, sym, ap, String, Option, none, some, List, [], ◌∷◌, ◌++◌,
  append-nil, append_assoc, and_then-some, Bool-cases, inl, inr,
}
use powerbrain.Base.Dict.{Dict}
use powerbrain.Base.Json.{Json}
use powerbrain.Tools.{ToolEntry, needs_pii_scan}
use powerbrain.Pii.{Service, Resolved}
use powerbrain.AgentLoop.{
  ToolCall, Response, Turn, assistant, tool, CallReply, answered, timed_out, raised, Setup, Loop,
  LoopResult, restored, parsed, routed, scan_with, scanned, dispatch_tool, resolve_vault,
  append_turn, answer_call, execute, execute_all, after_reply, finish, iterate, initial, run,
}

-- Tool turns that answer some calls, one each and in their order.
abbrev pub Answers : List ToolCall → List Turn → Type 0
Answers [] [] = Unit
Answers (tc ∷ tcs) (tool id s ∷ ts) = (id ≡ tc.id) × Answers tcs ts
Answers _ _ = ⊥

-- What the loop appends: rounds of an assistant turn with tool calls and the answers to them.
pub data Rounds : List Turn → Type 0 where
  none_yet : Rounds []
  one_more :
      (ts : List Turn) (content : Json) (tc : ToolCall) (tcs : List ToolCall) (answers : List Turn)
      → Rounds ts
      → Answers (tc ∷ tcs) answers
      → Rounds (ts ++ assistant content (tc ∷ tcs) ∷ answers)

append_turn_lem : (ts : List Turn) (t : Turn) → append_turn ts t ≡ ts ++ t ∷ []
append_turn_lem [] t = refl
append_turn_lem (u ∷ us) t = ap (λ x. u ∷ x) (append_turn_lem us t)

-- Nothing that happens before the answer is appended touches the turns.
turns-routed :
    (su : Setup) (e : ToolEntry) (c : CallReply) (l : Loop) → (routed su e c l).0.turns ≡ l.turns
unfolding routed
turns-routed su e (answered s) l = refl
turns-routed su e timed_out l = refl
turns-routed su e (raised why) l = refl

turns-scan_with : (o : Option Service) (r : Loop × String) → (scan_with o r).0.turns ≡ r.0.turns
turns-scan_with none r = refl
turns-scan_with (some service) (l, s) = refl

turns-scanned :
    (su : Setup) (e : ToolEntry) (r : Loop × String) → (scanned su e r).0.turns ≡ r.0.turns
unfolding scanned
turns-scanned su e r = elim (Bool-cases (needs_pii_scan e)) [
  | inl y ↦ rw y (turns-scan_with su.scan r)
  | inr y ↦ rw y refl
]

turns-dispatch_tool :
    (su : Setup) (tc : ToolCall) (o : Option ToolEntry) (args : Json) (l : Loop)
    → (dispatch_tool su tc o args l).0.turns ≡ l.turns
unfolding dispatch_tool
turns-dispatch_tool su tc none args l = refl
turns-dispatch_tool su tc (some e) args l =
    turns-scanned su e (routed su e (su.call_tool l.turns e args) l)
    ∙ turns-routed su e (su.call_tool l.turns e args) l

turns-resolve_vault :
    (o : Option (String → Option Resolved)) (r : Loop × String)
    → (resolve_vault o r).0.turns ≡ r.0.turns
unfolding resolve_vault
turns-resolve_vault none r = refl
turns-resolve_vault (some vault) (l, s) = refl

turns_of : (l m : Loop) → Option.some m ≡ some l → l.turns ≡ m.turns
turns_of l m h = cc

-- One call is answered by one turn with its id.
turns-execute :
    (su : Setup) (tc : ToolCall) (l l' : Loop)
    → execute su tc l ≡ some l'
    → (s : String) × (l'.turns ≡ l.turns ++ tool tc.id s ∷ [])
unfolding execute
turns-execute su tc l l' h =
    let (args, e, f) =
      and_then-some (restored l.reverse_map (parsed su tc))
        (λ args. some (
          answer_call tc
            (resolve_vault su.vault (dispatch_tool su tc (su.resolve_tool tc.name) args l))))
        h in
    let r = resolve_vault su.vault (dispatch_tool su tc (su.resolve_tool tc.name) args l) in
    let kept : r.0.turns ≡ l.turns =
      turns-resolve_vault su.vault (dispatch_tool su tc (su.resolve_tool tc.name) args l)
      ∙ turns-dispatch_tool su tc (su.resolve_tool tc.name) args l in
    (
      r.1,
      turns_of l' (answer_call tc r) f
          ∙ append_turn_lem r.0.turns (tool tc.id r.1)
          ∙ ap (λ ts. ts ++ tool tc.id r.1 ∷ []) kept,
    )

turns-execute_all :
    (su : Setup) (tcs : List ToolCall) (l l' : Loop)
    → execute_all su tcs l ≡ some l'
    → (ts : List Turn) × (l'.turns ≡ l.turns ++ ts) × Answers tcs ts
unfolding execute_all
turns-execute_all su [] l l' h = ([], turns_of l' l h ∙ sym (append-nil l.turns), tt)
turns-execute_all su (tc ∷ tcs) l l' h =
    let (m, e, f) = and_then-some (execute su tc l) (execute_all su tcs) h in
    let (s, one) = turns-execute su tc l m e in
    let (ts, more, answers) = turns-execute_all su tcs m l' f in
    (
      tool tc.id s ∷ ts,
      more ∙ ap (λ us. us ++ ts) one ∙ append_assoc l.turns (tool tc.id s ∷ []) ts,
      (refl, answers),
    )

-- After the turns of the request stand rounds only.
abbrev pub IsTranscript : List Turn → List Turn → Type 0
IsTranscript request turns = (ts : List Turn) × (turns ≡ request ++ ts) × Rounds ts

module _ (su : Setup) (request : List Turn) (result : LoopResult) where
  -- A round is appended before the loop goes on.
  turns-after_reply :
      (next : Loop → Option LoopResult) (r : Response) (tcs : List ToolCall) (l : Loop)
      → ((m : Loop)
          → IsTranscript request m.turns
          → next m ≡ some result
          → IsTranscript request result.loop.turns)
      → IsTranscript request l.turns
      → after_reply su next r tcs l ≡ some result
      → IsTranscript request result.loop.turns
  unfolding after_reply
  turns-after_reply next r [] l go t h = let same : result.loop.turns ≡ l.turns = cc in rw same t
  turns-after_reply next r (tc ∷ tcs) l go (ts, e, rounds) h =
      let start = record l {
        iterations = l.iterations + 1;
        turns = append_turn l.turns (assistant r.content (tc ∷ tcs));
      } in
      let (m, f, g) = and_then-some (execute_all su (tc ∷ tcs) start) next h in
      let (answers, k, a) = turns-execute_all su (tc ∷ tcs) start m f in
      go m
        (
          ts ++ assistant r.content (tc ∷ tcs) ∷ answers,
          (k
              ∙ ap (λ us. us ++ answers) (append_turn_lem l.turns (assistant r.content (tc ∷ tcs)))
              ∙ append_assoc l.turns (assistant r.content (tc ∷ tcs) ∷ []) answers
              ∙ ap (λ us. us ++ assistant r.content (tc ∷ tcs) ∷ answers) e
              ∙ append_assoc request ts (assistant r.content (tc ∷ tcs) ∷ answers)),
          Rounds.one_more ts r.content tc tcs answers rounds a,
        )
        g

  turns-finish :
      (last : Option Response) (l : Loop)
      → finish last l ≡ some result
      → result.loop.turns ≡ l.turns
  unfolding finish
  turns-finish none l h = cc
  turns-finish (some r) l h = cc

  turns-iterate :
      (n : ℕ) (last : Option Response) (l : Loop)
      → IsTranscript request l.turns
      → iterate su n last l ≡ some result
      → IsTranscript request result.loop.turns
  unfolding iterate
  turns-iterate zero last l t h = rw (turns-finish last l h) t
  turns-iterate (suc n) last l t h =
      let (r, e, f) =
        and_then-some (su.llm l.turns)
          (λ r. after_reply su (iterate su n (some r)) r r.tool_calls l) h in
      turns-after_reply (iterate su n (some r)) r r.tool_calls l (turns-iterate n (some r)) t f

-- Whatever the model and the tools answer, what the loop appends to the request are rounds: a turn
-- of the assistant with at least one tool call, and one answer to each of its calls, with the
-- call's id and in the order of the calls.
pub run-IsTranscript :
    (su : Setup) (max_iterations : ℕ) (request : List Turn) (reverse_map : Dict String)
    (result : LoopResult)
    → run su max_iterations request reverse_map ≡ some result
    → IsTranscript request result.loop.turns
unfolding run
run-IsTranscript su max_iterations request reverse_map result h =
    turns-iterate su request result max_iterations none (initial request reverse_map)
      ([], sym (append-nil request), Rounds.none_yet) h
