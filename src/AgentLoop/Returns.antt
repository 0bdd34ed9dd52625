-- ===== src/AgentLoop/Returns.antt =====
-- When the loop of pb-proxy/agent_loop.py comes to a result.
use powerbrain.Base.{ℕ, zero, suc, ◌+◌, ◌≡◌, refl, String, Option, some, List, [], ◌∷◌, All}
use powerbrain.Base.Dict.{Dict}
use powerbrain.Base.Json.{Json, Fields}
use powerbrain.Pii.{depseudonymize_tool_arguments}
use powerbrain.AgentLoop.{
  ToolCall, Response, Turn, assistant, Setup, Loop, LoopResult, restored, parsed, dispatch_tool,
  resolve_vault, append_turn, answer_call, execute, execute_all, after_reply, finish, iterate,
  initial, run,
}

-- The model replies to every transcript, and the arguments of the calls in its replies are objects
-- whenever they can be parsed.
pub record Cooperates (su : Setup) : Type 0 where
  pub replies : (turns : List Turn) → (r : Response) × (su.llm turns ≡ some r)
  pub objects :
      (turns : List Turn) (r : Response)
      → su.llm turns ≡ some r
      → All (λ tc. (fs : Fields) × (parsed su tc ≡ Json.obj fs)) r.tool_calls

restored-returns :
    (m : Dict String) (v : Json) (fs : Fields)
    → v ≡ Json.obj fs
    → (args : Json) × (restored m v ≡ some args)
unfolding restored
restored-returns [] v fs e = (v, refl)
restored-returns (x ∷ m) v fs e = rw e (Json.obj (depseudonymize_tool_arguments fs (x ∷ m)), refl)

module _ (su : Setup) (good : Cooperates su) where
  execute_all-returns :
      (tcs : List ToolCall) (l : Loop)
      → All (λ tc. (fs : Fields) × (parsed su tc ≡ Json.obj fs)) tcs
      → (l' : Loop) × (execute_all su tcs l ≡ some l')
  unfolding execute_all execute
  execute_all-returns [] l o = (l, refl)
  execute_all-returns (tc ∷ tcs) l ((fs, o), os) =
      let (args, e) = restored-returns l.reverse_map (parsed su tc) fs o in
      let next =
        answer_call tc
          (resolve_vault su.vault (dispatch_tool su tc (su.resolve_tool tc.name) args l)) in
      let (l', f) = execute_all-returns tcs next os in (l', rw e f)

  after_reply-returns :
      (next : Loop → Option LoopResult) (r : Response) (tcs : List ToolCall) (l : Loop)
      → All (λ tc. (fs : Fields) × (parsed su tc ≡ Json.obj fs)) tcs
      → ((m : Loop) → (result : LoopResult) × (next m ≡ some result))
      → (result : LoopResult) × (after_reply su next r tcs l ≡ some result)
  unfolding after_reply
  after_reply-returns next r [] l o go = (_, refl)
  after_reply-returns next r (tc ∷ tcs) l o go =
      let (m, e) =
        execute_all-returns (tc ∷ tcs)
          (record l {
            iterations = l.iterations + 1;
            turns = append_turn l.turns (assistant r.content (tc ∷ tcs));
          })
          o in
      let (result, f) = go m in (result, rw e f)

  iterate-returns :
      (n : ℕ) (r : Response) (l : Loop)
      → (result : LoopResult) × (iterate su n (some r) l ≡ some result)
  unfolding iterate finish
  iterate-returns zero r l = (_, refl)
  iterate-returns (suc n) r l =
      let (q, e) = good.replies l.turns in
      let (result, f) =
        after_reply-returns (iterate su n (some q)) q q.tool_calls l (good.objects l.turns q e)
          (iterate-returns n q) in
      (result, rw e f)

  -- With a model that replies to every transcript, with arguments in its calls that are objects
  -- whenever they can be parsed, a loop that may call the model at least once returns a result, whatever the
  -- tools and the other services answer.
  pub run-returns :
      (n : ℕ) (request : List Turn) (reverse_map : Dict String)
      → (result : LoopResult) × (run su (suc n) request reverse_map ≡ some result)
  unfolding run iterate
  run-returns n request reverse_map =
      let l = initial request reverse_map in
      let (r, e) = good.replies request in
      let (result, f) =
        after_reply-returns (iterate su n (some r)) r r.tool_calls l (good.objects request r e)
          (iterate-returns n r) in
      (result, rw e f)
