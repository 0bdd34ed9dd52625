-- ===== src/Oversight/Demands.antt =====
-- When the replies of the engine to `_check_oversight_approval` in mcp-server/server.py demand an
-- approval.
use powerbrain.Base.{
  ℕ, ◌≡◌, ◌≢◌, ◌↔◌, refl, sym, subst, String, true, false, Option, none, some, some_injective,
  get_or,
}
use powerbrain.Base.Json.{Json, truth, member}
use powerbrain.Opa.{Reply, connect_error, timeout, http_error, bad_body, body}
use powerbrain.Opa.Replies.{answer}
use powerbrain.Opa.Gates.{IsTrue}
use powerbrain.Oversight.{
  Replies, approval, check_oversight_approval, result_or, bind_minutes, minutes_of,
}
use powerbrain.Oversight.Classified.{no_value}

-- A reply that is there, also without a value; and one whose minutes can be read.
abbrev pub IsBody : Reply → Type 0
IsBody (body fs) = Unit
IsBody _ = ⊥

abbrev pub HasMinutes : (String → Option ℕ) → Reply → Type 0
HasMinutes int_of (body fs) = minutes_of int_of (get_or (member "result" fs) (Json.num 60)) ≢ none
HasMinutes int_of _ = ⊥

-- The engine demands an approval: its first reply has a true value, and the two others can be read.
abbrev pub IsDemanded : (String → Option ℕ) → Replies → Type 0
IsDemanded int_of r =
    IsTrue (answer r.requires_approval)
    × IsBody r.approval_reason
    × HasMinutes int_of r.timeout_minutes

-- The same of what has been read of the replies.
abbrev Read : Option Json → Option Json → Option ℕ → Type 0
Read a b m = ((v : Json) × (a ≡ some v) × (truth v ≡ true)) × (b ≢ none) × (m ≢ none)

approval-Read : (a b : Option Json) (m : Option ℕ) → ((approval a b m).required ≡ true) ↔ Read a b m
unfolding approval
approval-Read (some v) (some w) (some n) = (
  λ e. ((v, refl, e), λ h. cc, λ h. cc),
  λ ((x, s, t), h, k). subst (λ y. truth y ≡ true) (some_injective x v (sym s)) t,
)
approval-Read (some v) (some w) none = (λ e. cc, λ h. absurd (h.2 refl))
approval-Read (some v) none m = (λ e. cc, λ h. absurd (h.1 refl))
approval-Read none b m = (λ e. cc, λ h. absurd (no_value h.0.0 h.0.1))

first-Read :
    (r : Reply)
    → ((v : Json) × (result_or (Json.bool false) r ≡ some v) × (truth v ≡ true)) ↔ IsTrue (answer r)
first-Read connect_error = (λ (v, e, t). no_value v e, λ h. absurd h)
first-Read timeout = (λ (v, e, t). no_value v e, λ h. absurd h)
first-Read http_error = (λ (v, e, t). no_value v e, λ h. absurd h)
first-Read bad_body = (λ (v, e, t). no_value v e, λ h. absurd h)
first-Read (body fs) = by_member (member "result" fs)
  where
    by_member :
        (o : Option Json)
        → ((v : Json) × ((elim o [ none ↦ some (Json.bool false) | some w ↦ some w ]) ≡ some v)
            × (truth v ≡ true))
          ↔ IsTrue o
    by_member none = (
      λ (v, e, t).
          let f : false ≡ true = subst (λ x. truth x ≡ true) (some_injective _ _ (sym e)) t in
          absurd cc,
      λ h. absurd h,
    )
    by_member (some w) =
        (λ (v, e, t). subst (λ x. truth x ≡ true) (some_injective v w (sym e)) t, λ h. (w, refl, h))

second-Read : (r : Reply) → (result_or (Json.str "") r ≢ none) ↔ IsBody r
second-Read connect_error = (λ h. h refl, λ h. absurd h)
second-Read timeout = (λ h. h refl, λ h. absurd h)
second-Read http_error = (λ h. h refl, λ h. absurd h)
second-Read bad_body = (λ h. h refl, λ h. absurd h)
second-Read (body fs) = (λ h. tt, λ h. by_member (member "result" fs))
  where
    by_member :
        (o : Option Json)
        → (elim o as (λ _. Option Json) [ none ↦ some (Json.str "") | some w ↦ some w ]) ≢ none
    by_member none e = cc
    by_member (some w) e = cc

third-Read :
    (int_of : String → Option ℕ) (r : Reply)
    → (bind_minutes int_of (result_or (Json.num 60) r) ≢ none) ↔ HasMinutes int_of r
third-Read int_of connect_error = (λ h. h refl, λ h. absurd h)
third-Read int_of timeout = (λ h. h refl, λ h. absurd h)
third-Read int_of http_error = (λ h. h refl, λ h. absurd h)
third-Read int_of bad_body = (λ h. h refl, λ h. absurd h)
third-Read int_of (body fs) = by_member (member "result" fs)
  where
    by_member :
        (o : Option Json)
        → (bind_minutes int_of
              (elim o as (λ _. Option Json) [ none ↦ some (Json.num 60) | some w ↦ some w ])
            ≢ none)
          ↔ (minutes_of int_of (get_or o (Json.num 60)) ≢ none)
    by_member none = (λ h. h, λ h. h)
    by_member (some w) = (λ h. h, λ h. h)

pub required_iff :
    (int_of : String → Option ℕ) (r : Replies)
    → ((check_oversight_approval int_of r).required ≡ true) ↔ IsDemanded int_of r
unfolding check_oversight_approval
required_iff int_of r =
    let a = first-Read r.requires_approval in
    let b = second-Read r.approval_reason in
    let m = third-Read int_of r.timeout_minutes in
    let whole =
      approval-Read (result_or (Json.bool false) r.requires_approval)
        (result_or (Json.str "") r.approval_reason)
        (bind_minutes int_of (result_or (Json.num 60) r.timeout_minutes)) in
    (
      λ e. let h = whole.0 e in (a.0 (h.0), b.0 (h.1), m.0 (h.2)),
      λ h. whole.1 (a.1 (h.0), b.1 (h.1), m.1 (h.2)),
    )
