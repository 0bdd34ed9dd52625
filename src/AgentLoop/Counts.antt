-- ===== src/AgentLoop/Counts.antt =====
-- The counters of the loop of pb-proxy/agent_loop.py.
use powerbrain.Base.{
  ℕ, zero, suc, ◌+◌, ◌≤◌, ◌<◌, ◌≡◌, ◌⊎◌, inl, inr, refl, ap, ◌∙◌, subst, some_injective, String,
  true, false, Option, none, some, List, [], ◌∷◌, and_then-some, arith, Bool-cases,
}
use powerbrain.Base.Dict.{Dict}
use powerbrain.Base.Json.{Json}
use powerbrain.Tools.{ToolEntry, needs_pii_scan}
use powerbrain.Pii.{Service, Resolved}
use powerbrain.AgentLoop.{
  ToolCall, Response, Turn, given, assistant, tool, CallReply, answered, timed_out, raised, Setup,
  Loop, LoopResult, restored, parsed, routed, scan_with, scanned, dispatch_tool, resolve_vault,
  append_turn, answer_call, execute, execute_all, after_reply, finish, iterate, initial, run,
}

-- The turns of the assistant in a transcript.
abbrev pub assistants : List Turn → ℕ
assistants [] = 0
assistants (assistant content tcs ∷ ts) = 1 + assistants ts
assistants (given m ∷ ts) = assistants ts
assistants (tool id s ∷ ts) = assistants ts

append-assistant :
    (ts : List Turn) (content : Json) (tcs : List ToolCall)
    → assistants (append_turn ts (assistant content tcs)) ≡ assistants ts + 1
append-assistant [] content tcs = omega arith
append-assistant (assistant c us ∷ ts) content tcs = omega (arith, append-assistant ts content tcs)
append-assistant (given m ∷ ts) content tcs = append-assistant ts content tcs
append-assistant (tool id s ∷ ts) content tcs = append-assistant ts content tcs

append-tool :
    (ts : List Turn) (id s : String) → assistants (append_turn ts (tool id s)) ≡ assistants ts
append-tool [] id s = refl
append-tool (assistant c us ∷ ts) id s = omega (arith, append-tool ts id s)
append-tool (given m ∷ ts) id s = append-tool ts id s
append-tool (tool i t ∷ ts) id s = append-tool ts id s

-- Some iterations are done, and the transcript has as many turns of the assistant more than before.
abbrev After : ℕ → ℕ → Loop → Type 0
After base k l = (l.iterations ≡ k) × (assistants l.turns ≡ base + k)

routed-After :
    (base k : ℕ) (su : Setup) (e : ToolEntry) (c : CallReply) (l : Loop)
    → After base k l
    → After base k (routed su e c l).0
unfolding routed
routed-After base k su e (answered s) l (i, h) = (i, h)
routed-After base k su e timed_out l h = h
routed-After base k su e (raised why) l h = h

scan_with-After :
    (base k : ℕ) (o : Option Service) (r : Loop × String)
    → After base k r.0
    → After base k (scan_with o r).0
scan_with-After base k none r h = h
scan_with-After base k (some service) (l, s) h = h

scanned-After :
    (base k : ℕ) (su : Setup) (e : ToolEntry) (r : Loop × String)
    → After base k r.0
    → After base k (scanned su e r).0
unfolding scanned
scanned-After base k su e r h = elim (Bool-cases (needs_pii_scan e)) [
  | inl y ↦ rw y (scan_with-After base k su.scan r h)
  | inr y ↦ rw y h
]

dispatch_tool-After :
    (base k : ℕ) (su : Setup) (tc : ToolCall) (o : Option ToolEntry) (args : Json) (l : Loop)
    → After base k l
    → After base k (dispatch_tool su tc o args l).0
unfolding dispatch_tool
dispatch_tool-After base k su tc none args l h = h
dispatch_tool-After base k su tc (some e) args l h =
    scanned-After base k su e (routed su e (su.call_tool l.turns e args) l)
      (routed-After base k su e (su.call_tool l.turns e args) l h)

resolve_vault-After :
    (base k : ℕ) (o : Option (String → Option Resolved)) (r : Loop × String)
    → After base k r.0
    → After base k (resolve_vault o r).0
unfolding resolve_vault
resolve_vault-After base k none r h = h
resolve_vault-After base k (some vault) (l, s) h = h

answer_call-After :
    (base k : ℕ) (tc : ToolCall) (r : Loop × String)
    → After base k r.0
    → After base k (answer_call tc r)
answer_call-After base k tc (l, s) (i, h) = (i, append-tool l.turns tc.id s ∙ h)

execute-After :
    (base k : ℕ) (su : Setup) (tc : ToolCall) (l l' : Loop)
    → execute su tc l ≡ some l'
    → After base k l
    → After base k l'
unfolding execute
execute-After base k su tc l l' h a =
    let (args, e, f) =
      and_then-some (restored l.reverse_map (parsed su tc))
        (λ args. some (
          answer_call tc
            (resolve_vault su.vault (dispatch_tool su tc (su.resolve_tool tc.name) args l))))
        h in
    let d = dispatch_tool su tc (su.resolve_tool tc.name) args l in
    let b =
      resolve_vault-After base k su.vault d
        (dispatch_tool-After base k su tc (su.resolve_tool tc.name) args l a) in
    subst (After base k) (some_injective (answer_call tc (resolve_vault su.vault d)) l' f)
      (answer_call-After base k tc (resolve_vault su.vault d) b)

execute_all-After :
    (base k : ℕ) (su : Setup) (tcs : List ToolCall) (l l' : Loop)
    → execute_all su tcs l ≡ some l'
    → After base k l
    → After base k l'
unfolding execute_all
execute_all-After base k su [] l l' h a = subst (After base k) (some_injective l l' h) a
execute_all-After base k su (tc ∷ tcs) l l' h a =
    let (m, e, f) = and_then-some (execute su tc l) (execute_all su tcs) h in
    execute_all-After base k su tcs m l' f (execute-After base k su tc l m e a)

-- A result after at most some number of iterations, over a request with some turns of the assistant:
-- each iteration has added one, but for the reply that ends the loop.
abbrev pub IsBounded : ℕ → List Turn → LoopResult → Type 0
IsBounded max_iterations request result =
    (result.loop.iterations ≤ max_iterations)
    × (((result.max_iterations_reached ≡ true)
          × (result.loop.iterations ≡ max_iterations)
          × (assistants result.loop.turns ≡ assistants request + max_iterations))
        ⊎ ((result.max_iterations_reached ≡ false)
            × (result.response.tool_calls ≡ [])
            × (assistants result.loop.turns + 1 ≡ assistants request + result.loop.iterations)))

module _ (su : Setup) (max_iterations : ℕ) (request : List Turn) (result : LoopResult) where
  abbrev Started : ℕ → Loop → Type 0
  Started k l = After (assistants request) k l

  finish-IsBounded :
      (last : Option Response) (l : Loop)
      → Started max_iterations l
      → finish last l ≡ some result
      → IsBounded max_iterations request result
  unfolding finish
  finish-IsBounded none l a h = cc
  finish-IsBounded (some r) l (i, c) h =
      let turned : result.max_iterations_reached ≡ true = cc in
      let same : result.loop ≡ l = cc in rw same (omega (arith, i), inl (turned, i, c))

  after_reply-IsBounded :
      (k : ℕ) (next : Loop → Option LoopResult) (r : Response) (tcs : List ToolCall) (l : Loop)
      → tcs ≡ r.tool_calls
      → k < max_iterations
      → ((m : Loop)
          → Started (k + 1) m
          → next m ≡ some result
          → IsBounded max_iterations request result)
      → Started k l
      → after_reply su next r tcs l ≡ some result
      → IsBounded max_iterations request result
  unfolding after_reply
  after_reply-IsBounded k next r [] l e lt go (i, c) h =
      let steps : result.loop.iterations ≡ l.iterations + 1 = cc in
      let turns : result.loop.turns ≡ l.turns = cc in
      let turned : result.max_iterations_reached ≡ false = cc in
      let last : result.response.tool_calls ≡ [] = cc in
      (omega (arith, steps, i), inr (turned, last, omega (arith, ap assistants turns, c, steps, i)))
  after_reply-IsBounded k next r (tc ∷ tcs) l e lt go (i, c) h =
      let start = record l {
        iterations = l.iterations + 1;
        turns = append_turn l.turns (assistant r.content (tc ∷ tcs));
      } in
      let (m, f, g) = and_then-some (execute_all su (tc ∷ tcs) start) next h in
      go m
        (execute_all-After (assistants request) (k + 1) su (tc ∷ tcs) start m f
          (ap (λ n. n + 1) i, omega (arith, append-assistant l.turns r.content (tc ∷ tcs), c)))
        g

  iterate-IsBounded :
      (n k : ℕ) (last : Option Response) (l : Loop)
      → k + n ≡ max_iterations
      → Started k l
      → iterate su n last l ≡ some result
      → IsBounded max_iterations request result
  unfolding iterate
  iterate-IsBounded zero k last l sum (i, c) h =
      finish-IsBounded last l (omega (arith, i, sum), omega (arith, c, sum)) h
  iterate-IsBounded (suc n) k last l sum a h =
      let (r, e, f) =
        and_then-some (su.llm l.turns)
          (λ r. after_reply su (iterate su n (some r)) r r.tool_calls l) h in
      after_reply-IsBounded k (iterate su n (some r)) r r.tool_calls l refl (omega (arith, sum))
        (λ m b. iterate-IsBounded n (k + 1) (some r) m (omega (arith, sum)) b) a f

-- The loop calls the model at most as often as it is allowed. It ends after exactly the allowed
-- number of calls of the model, each of which has added one turn of the assistant to the request, or
-- with a reply without tool calls, before which each call has added one; and the flag of the result
-- tells which.
pub run-IsBounded :
    (su : Setup) (max_iterations : ℕ) (request : List Turn) (reverse_map : Dict String)
    (result : LoopResult)
    → run su max_iterations request reverse_map ≡ some result
    → IsBounded max_iterations request result
unfolding run
run-IsBounded su max_iterations request reverse_map result h =
    iterate-IsBounded su max_iterations request result max_iterations 0 none
      (initial request reverse_map) (omega arith) (refl, omega arith) h
