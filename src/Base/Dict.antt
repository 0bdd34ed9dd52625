-- ===== src/Base/Dict.antt =====
-- Python's dict with text keys, in insertion order.
use Prim.Native.String.{String}
use mathlib.Core.Path.{◌≡◌, refl}
use mathlib.Core.Bool.{Bool}
use mathlib.Core.List.{List, [], ◌∷◌}
use mathlib.Core.Option.{Option, none, some}
use native.Mathlib.Omega.{arith}
use text.Mathlib.TextEquality.{eq_iff}
use powerbrain.Base.Tests.{if◌then◌else◌, str_eq, is_some, Bool-cases}
use mathlib.Core.Logic.{inl, inr}

abbrev pub Dict {ℓ} : Type ℓ → Type ℓ
Dict V = List (String × V)

module _ {ℓ} {V : Type ℓ} where
  -- `d.get(k)`
  unfoldable pub lookup : String → Dict V → Option V
  lookup k [] = none
  lookup k ((j, v) ∷ d) = if str_eq j k then some v else lookup k d

  -- `d[k] = v`
  unfoldable pub insert : String → V → Dict V → Dict V
  insert k v [] = (k, v) ∷ []
  insert k v ((j, w) ∷ d) = if str_eq j k then (j, v) ∷ d else (j, w) ∷ insert k v d

  -- `d.pop(k, None)`, `del d[k]`
  unfoldable pub erase : String → Dict V → Dict V
  erase k [] = []
  erase k ((j, w) ∷ d) = if str_eq j k then erase k d else (j, w) ∷ erase k d

  -- `k in d`
  abbrev pub has_key : String → Dict V → Bool
  has_key k d = is_some (lookup k d)

  -- `{k: v for k, v in d.items() if p(v)}`
  unfoldable pub retain : (V → Bool) → Dict V → Dict V
  retain p [] = []
  retain p ((j, w) ∷ d) = if p w then (j, w) ∷ retain p d else retain p d

  -- Every value passes a predicate.
  abbrev pub Values {κ} : (V → Type κ) → Dict V → Type κ
  Values P [] = Unit
  Values P ((_, v) ∷ d) = P v × Values P d

  pub lookup-insert :
      (k j : String) (v : V) (d : Dict V)
      → lookup j (insert k v d) ≡ (if str_eq k j then some v else lookup j d)
  unfolding lookup insert
  lookup-insert k j v [] = refl
  lookup-insert k j v ((i, w) ∷ d) =
      ground (arith, eq_iff k j, eq_iff i k, eq_iff i j, lookup-insert k j v d)

  pub lookup-erase :
      (k j : String) (d : Dict V) → lookup j (erase k d) ≡ (if str_eq k j then none else lookup j d)
  unfolding lookup erase
  lookup-erase k j [] = ground arith
  lookup-erase k j ((i, w) ∷ d) =
      ground (arith, eq_iff k j, eq_iff i k, eq_iff i j, lookup-erase k j d)

  module _ {κ} (P : V → Type κ) where
    pub Values-insert :
        (k : String) (v : V) (d : Dict V) → P v → Values P d → Values P (insert k v d)
    unfolding insert
    Values-insert k v [] p h = (p, tt)
    Values-insert k v ((j, w) ∷ d) p h = elim (Bool-cases (str_eq j k)) [
      | inl e ↦ rw e (p, h.1)
      | inr e ↦ rw e (h.0, Values-insert k v d p h.1)
    ]

    pub Values-erase : (k : String) (d : Dict V) → Values P d → Values P (erase k d)
    unfolding erase
    Values-erase k [] h = tt
    Values-erase k ((j, w) ∷ d) h = elim (Bool-cases (str_eq j k)) [
      | inl e ↦ rw e (Values-erase k d h.1)
      | inr e ↦ rw e (h.0, Values-erase k d h.1)
    ]

    pub Values-retain : (p : V → Bool) (d : Dict V) → Values P d → Values P (retain p d)
    unfolding retain
    Values-retain p [] h = tt
    Values-retain p ((j, w) ∷ d) h = elim (Bool-cases (p w)) [
      | inl e ↦ rw e (h.0, Values-retain p d h.1)
      | inr e ↦ rw e (Values-retain p d h.1)
    ]

    pub Values-lookup : (k : String) {v : V} (d : Dict V) → Values P d → lookup k d ≡ some v → P v
    unfolding lookup
    Values-lookup k [] h e = cc
    Values-lookup k ((j, w) ∷ d) h e = elim (Bool-cases (str_eq j k)) [
      | inl t ↦ ground (arith, h.0)
      | inr t ↦ Values-lookup k d h.1 (ground arith)
    ]

pub ruleset dict_laws = (lookup-insert, lookup-erase)
