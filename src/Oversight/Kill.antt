-- ===== src/Oversight/Kill.antt =====
-- What follows on the kill switch of mcp-server/server.py in the process that has thrown it.
use powerbrain.Base.{
  ℕ, ◌-◌, ◌≡◌, refl, sym, subst, ap, ◌∙◌, String, true, Option, some, List, [], ◌∷◌, ◌++◌, ltb,
  Bool-cases, inl, inr,
}
use powerbrain.Base.Json.{Json}
use powerbrain.Oversight.{
  Oversight, Breaker, LogLine, Outcome, circuit_breaker_active, Call, Replies,
  get_circuit_breaker_state, set_circuit_breaker, cached_or_fetch, refetch, fetch, cache_ttl,
  dispatch, is_data_tool, block,
}
use powerbrain.Oversight.Switch.{set_circuit_breaker-effect}

-- A breaker stands in the cache and in the row.
abbrev pub Holds : Breaker → Oversight → Type 0
Holds b s = (s.state ≡ some b) × (s.row ≡ some b)

-- It is met, still stands in both, and no log is written.
abbrev Met : Breaker → Oversight → Oversight × Breaker → Type 0
Met b s (t, c) = (c ≡ b) × Holds b t × (t.log ≡ s.log)

cached-Met :
    (now : ℕ) (b : Breaker) (s : Oversight)
    → Holds b s
    → fetch true s.row ≡ b
    → Met b s (cached_or_fetch true now (some b) s)
unfolding cached_or_fetch refetch
cached-Met now b s h f = elim (Bool-cases (ltb (now - s.fetched_at) cache_ttl)) [
  | inl y ↦ rw y (refl, h, refl)
  | inr n ↦ rw n (f, (ap (λ x. some x) f, h.1), refl)
]

get-Met :
    (now : ℕ) (b : Breaker) (s : Oversight)
    → Holds b s
    → Met b s (get_circuit_breaker_state true now s)
unfolding get_circuit_breaker_state
get-Met now b s h =
    subst (λ o. Met b s (cached_or_fetch true now o s)) (sym h.0)
      (cached-Met now b s h (unfold fetch in rw h.1 refl))

abbrev denial : Call → LogLine
denial c = record {
  agent_id = c.agent_id;
  resource_id = "circuit_breaker";
  tool = c.name;
  policy_result = "deny";
}

-- A call is answered with the breaker, and the denial is logged.
abbrev Denied : Breaker → Call → Oversight → Oversight × Outcome → Type 0
Denied b c s (t, o) = (o ≡ circuit_breaker_active b) × (t.log ≡ s.log ++ denial c ∷ [])

block-Denied :
    (b d : Breaker) (c : Call) (s t : Oversight)
    → Met b s (t, d)
    → Denied b c s (block true c d t) × Holds b (block true c d t).0
unfolding block
block-Denied b d c s t (e, h, l) =
    ((ap circuit_breaker_active e, ap (λ x. x ++ denial c ∷ []) l), h)

module _ (int_of : String → Option ℕ) (engine : Json → Replies) (b : Breaker)
    (active : b.active ≡ true) where
  dispatch-Denied :
      (now : ℕ) (id : String) (c : Call) (s : Oversight)
      → Holds b s
      → (is_data_tool c.name ≡ true → Denied b c s (dispatch int_of engine true now id c s))
        × Holds b (dispatch int_of engine true now id c s).0
  unfolding dispatch
  dispatch-Denied now id c s h = elim (Bool-cases (is_data_tool c.name)) [
    | inr n ↦ rw n (λ e. absurd cc, h)
    | inl d ↦
        let m = get-Met now b s h in
        let r = get_circuit_breaker_state true now s in
        let on : r.1.active ≡ true = ap (λ (x : Breaker). x.active) m.0 ∙ active in
        rw (d, on) (λ e. (block-Denied b r.1 c s r.0 m).0, (block-Denied b r.1 c s r.0 m).1)
  ]

  -- Every call of a data tool in a sequence is denied; other tools may be called in between.
  abbrev pub AllDenied : List (ℕ × String × Call) → Oversight → Type 0
  AllDenied [] s = Unit
  AllDenied ((now, id, c) ∷ cs) s =
      (is_data_tool c.name ≡ true → Denied b c s (dispatch int_of engine true now id c s))
      × AllDenied cs (dispatch int_of engine true now id c s).0

  dispatch-AllDenied : (cs : List (ℕ × String × Call)) (s : Oversight) → Holds b s → AllDenied cs s
  dispatch-AllDenied [] s h = tt
  dispatch-AllDenied ((now, id, c) ∷ cs) s h =
      let (one, rest) = dispatch-Denied now id c s h in
      (one, dispatch-AllDenied cs (dispatch int_of engine true now id c s).0 rest)

abbrev pub stop : ℕ → Option String → String → Breaker
stop set_time reason set_by = record {
  active = true;
  reason = reason;
  set_by = some set_by;
  set_at = some set_time;
}

-- Once a process has thrown the switch over the row of the table, every call of a data tool in any
-- sequence of calls that this process then dispatches, at any times and with any roles, while the
-- database answers and nobody writes the row again, is answered with the active breaker and logged
-- as denied.
pub dispatch-after_kill :
    (int_of : String → Option ℕ) (engine : Json → Replies) (set_time : ℕ) (reason : Option String)
    (set_by : String) (old b : Breaker) (s t : Oversight) (cs : List (ℕ × String × Call))
    → s.row ≡ some old
    → set_circuit_breaker true set_time true reason set_by s ≡ some (t, b)
    → AllDenied int_of engine (stop set_time reason set_by) refl cs t
dispatch-after_kill int_of engine set_time reason set_by old b s t cs stored thrown =
    let eff = set_circuit_breaker-effect set_time true reason set_by old s t b stored thrown in
    dispatch-AllDenied int_of engine (stop set_time reason set_by) refl cs t (eff.0, eff.1 ∙ eff.0)
