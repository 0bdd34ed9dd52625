-- ===== src/Oversight/Gate.antt =====
-- The gates at the head of `_dispatch` in mcp-server/server.py.
use powerbrain.Base.{
  ℕ, ◌≤◌, ◌≡◌, ◌≢◌, ◌↔◌, ◌⊎◌, refl, String, Bool, true, false, Option, none, some, arith,
  Bool-cases, Option-cases, inl, inr, str_eq, sym, ap, ◌∙◌, if◌then◌else◌,
}
use powerbrain.Base.Json.{Json}
use powerbrain.Oversight.Classified.{
  IsClassified, classification_of_iff, IsClassified-truth, no_value,
}
use powerbrain.Oversight.Demands.{IsDemanded, required_iff}
use powerbrain.Oversight.{
  Oversight, Breaker, through, Call, Replies, Approval, get_circuit_breaker_state, dispatch,
  is_data_tool, block, approve, ask, classification_of, check_oversight_approval, approval, json_or,
  bind_minutes, result_or,
}

-- The breaker that a call meets.
abbrev pub met : Bool → ℕ → Oversight → Breaker
met db now s = (get_circuit_breaker_state db now s).1

module _ (int_of : String → Option ℕ) (engine : Json → Replies) (db : Bool) (now : ℕ)
    (id : String) where
  -- What the engine says of a call's classification.
  abbrev pub asked : Call → Approval
  asked c =
      check_oversight_approval int_of (engine (json_or (classification_of c.arguments) Json.null))

  block-ne-through : (c : Call) (b : Breaker) (s : Oversight) → (block db c b s).1 ≢ through
  unfolding block
  block-ne-through c b s e = ground arith

  ask-through :
      (c : Call) (o : Option Json) (a : Approval) (s : Oversight)
      → ((ask db now id c o a s).1 ≡ through) ↔ ((o ≢ none) × (a.required ≡ false))
  unfolding ask
  ask-through c none a s = (λ e. cc, λ h. absurd (h.0 refl))
  ask-through c (some v) a s = elim (Bool-cases a.required) [
    | inl r ↦ rw r (λ e. ground arith, λ h. cc)
    | inr r ↦ rw r (λ e. (λ n. cc, refl), λ h. refl)
  ]

  approve-through :
      (c : Call) (s : Oversight)
      → ((approve int_of engine db now id c s).1 ≡ through) ↔ (
          (str_eq c.agent_role "admin" ≡ true)
          ⊎ ((classification_of c.arguments ≢ none) × ((asked c).required ≡ false)))
  unfolding approve
  approve-through c s = elim (Bool-cases (str_eq c.agent_role "admin")) [
    | inl a ↦ rw a (λ e. inl refl, λ h. refl)
    | inr a ↦
        rw a
          (λ e. inr ((ask-through c (classification_of c.arguments) (asked c) s).0 e), λ h. from h)
  ]
    where
      from :
          (false ≡ true) ⊎ ((classification_of c.arguments ≢ none) × ((asked c).required ≡ false))
          → (ask db now id c (classification_of c.arguments) (asked c) s).1 ≡ through
      from (inl e) = cc
      from (inr h) = (ask-through c (classification_of c.arguments) (asked c) s).1 h

  -- In terms of what the gates compute.
  dispatch-gates :
      (c : Call) (s : Oversight)
      → ((dispatch int_of engine db now id c s).1 ≡ through) ↔ (
          (is_data_tool c.name ≡ false)
          ⊎ (((met db now s).active ≡ false)
              × ((str_eq c.agent_role "admin" ≡ true)
                  ⊎ ((classification_of c.arguments ≢ none) × ((asked c).required ≡ false)))))
  unfolding dispatch
  dispatch-gates c s = elim (Bool-cases (is_data_tool c.name)) [
    | inr n ↦ rw n (λ e. inl refl, λ h. refl)
    | inl d ↦ elim (Bool-cases (met db now s).active) [
      | inl a ↦
          rw (d, a) (λ e. absurd (block-ne-through c (met db now s) t e), λ h. absurd (blocked h))
      | inr a ↦ rw (d, a) (λ e. inr (refl, (approve-through c t).0 e), λ h. opened h)
    ]
  ]
    where
      t : Oversight
      t = (get_circuit_breaker_state db now s).0

      Rest : Type 0
      Rest =
          (str_eq c.agent_role "admin" ≡ true)
          ⊎ ((classification_of c.arguments ≢ none) × ((asked c).required ≡ false))

      blocked : (true ≡ false) ⊎ ((true ≡ false) × Rest) → ⊥
      blocked (inl e) = cc
      blocked (inr h) = let e = h.0 in cc

      opened :
          (true ≡ false) ⊎ ((false ≡ false) × Rest)
          → (approve int_of engine db now id c t).1 ≡ through
      opened (inl e) = cc
      opened (inr h) = (approve-through c t).1 (h.1)

  -- A call's classification, about which the engine demands no approval.
  abbrev pub IsUndemanded : Call → Type 0
  IsUndemanded c = (v : Json) × IsClassified c.arguments v × (IsDemanded int_of (engine v) → ⊥)

  required-cases :
      (r : Replies)
      → ((check_oversight_approval int_of r).required ≡ false) ↔ (IsDemanded int_of r → ⊥)
  required-cases r = (
    λ e d. let t = (required_iff int_of r).1 d in absurd cc,
    λ n. elim (Bool-cases (check_oversight_approval int_of r).required) [
      | inl t ↦ absurd (n ((required_iff int_of r).0 t))
      | inr f ↦ f
    ],
  )

  -- The engine is asked about the classification itself.
  asked-of :
      (c : Call) (v : Json)
      → IsClassified c.arguments v
      → asked c ≡ check_oversight_approval int_of (engine v)
  asked-of c v k =
      let e = (classification_of_iff c.arguments v).1 k in
      ap (λ o. check_oversight_approval int_of (engine (json_or o Json.null))) e
      ∙ ap (λ b. check_oversight_approval int_of (engine (if b then v else Json.null)))
          (IsClassified-truth c.arguments v k)

  asked-IsUndemanded :
      (c : Call)
      → ((classification_of c.arguments ≢ none) × ((asked c).required ≡ false)) ↔ IsUndemanded c
  asked-IsUndemanded c = (
    λ h. elim (Option-cases (classification_of c.arguments)) [
      | inl e ↦ absurd (h.0 e)
      | inr (v, e) ↦
          let k = (classification_of_iff c.arguments v).0 e in
          (
            v,
            k,
            (required-cases (engine v)).0
                (sym (ap (λ (a : Approval). a.required) (asked-of c v k)) ∙ h.1),
          )
    ],
    λ (v, k, n). (
      λ e. absurd (no_value v (sym e ∙ (classification_of_iff c.arguments v).1 k)),
      ap (λ (a : Approval). a.required) (asked-of c v k) ∙ (required-cases (engine v)).1 n,
    ),
  )

  -- A call comes through to its tool exactly if the tool is no data tool, or if the breaker that
  -- it meets is inactive and either the agent is an admin, or the call has a classification (that of
  -- its filters, else that of its arguments, else "internal") about which the engine demands no
  -- approval: its reply about the approval is not true, or any of its three replies cannot be had or
  -- read. So the gate opens when the engine fails.
  pub dispatch-through_iff :
      (c : Call) (s : Oversight)
      → ((dispatch int_of engine db now id c s).1 ≡ through) ↔ (
          (is_data_tool c.name ≡ false)
          ⊎ (((met db now s).active ≡ false)
              × ((str_eq c.agent_role "admin" ≡ true) ⊎ IsUndemanded c)))
  dispatch-through_iff c s =
      let old = dispatch-gates c s in (λ e. into (old.0 e), λ h. old.1 (back h))
    where
      into :
          (is_data_tool c.name ≡ false)
            ⊎ (((met db now s).active ≡ false)
                × ((str_eq c.agent_role "admin" ≡ true)
                    ⊎ ((classification_of c.arguments ≢ none) × ((asked c).required ≡ false))))
          → (is_data_tool c.name ≡ false)
            ⊎ (((met db now s).active ≡ false)
                × ((str_eq c.agent_role "admin" ≡ true) ⊎ IsUndemanded c))
      into (inl n) = inl n
      into (inr (m, inl a)) = inr (m, inl a)
      into (inr (m, inr h)) = inr (m, inr ((asked-IsUndemanded c).0 h))

      back :
          (is_data_tool c.name ≡ false)
            ⊎ (((met db now s).active ≡ false)
                × ((str_eq c.agent_role "admin" ≡ true) ⊎ IsUndemanded c))
          → (is_data_tool c.name ≡ false)
            ⊎ (((met db now s).active ≡ false)
                × ((str_eq c.agent_role "admin" ≡ true)
                    ⊎ ((classification_of c.arguments ≢ none) × ((asked c).required ≡ false))))
      back (inl n) = inl n
      back (inr (m, inl a)) = inr (m, inl a)
      back (inr (m, inr h)) = inr (m, inr ((asked-IsUndemanded c).1 h))

  -- An approval is due within one minute to one day, whatever the engine replies.
  pub check_oversight_approval-bounds :
      (r : Replies)
      → let m = (check_oversight_approval int_of r).timeout_minutes in (1 ≤ m) × (m ≤ 1440)
  unfolding check_oversight_approval
  check_oversight_approval-bounds r =
      bounds (result_or (Json.bool false) r.requires_approval)
        (result_or (Json.str "") r.approval_reason)
        (bind_minutes int_of (result_or (Json.num 60) r.timeout_minutes))
    where
      bounds :
          (a b : Option Json) (m : Option ℕ)
          → (1 ≤ (approval a b m).timeout_minutes) × ((approval a b m).timeout_minutes ≤ 1440)
      bounds (some a) (some b) (some m) = omega arith
      bounds (some a) (some b) none = omega arith
      bounds (some a) none m = omega arith
      bounds none b m = omega arith
