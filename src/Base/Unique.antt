-- ===== src/Base/Unique.antt =====
-- Dicts in which no key stands twice, as Python's: what a filter over the values leaves of them.
use Prim.Native.String.{String}
use mathlib.Core.Path.{◌≡◌, refl}
use mathlib.Core.Bool.{Bool}
use mathlib.Core.List.{[], ◌∷◌}
use mathlib.Core.Option.{Option, none, some}
use native.Mathlib.Omega.{arith}
use text.Mathlib.TextEquality.{eq_iff}
use powerbrain.Base.Tests.{if◌then◌else◌}
use powerbrain.Base.Dict.{Dict, lookup, insert, erase, retain, lookup-insert, lookup-erase}

module _ {ℓ} {V : Type ℓ} where
  abbrev pub Unique : Dict V → Type ℓ
  Unique [] = Unit
  Unique ((k, _) ∷ d) = (lookup k d ≡ none) × Unique d

  -- What a filter leaves of one entry.
  abbrev pub filtered : (V → Bool) → Option V → Option V
  filtered p none = none
  filtered p (some v) = if p v then some v else none

  none-retain :
      (p : V → Bool) (k : String) (d : Dict V) → lookup k d ≡ none → lookup k (retain p d) ≡ none
  unfolding lookup retain
  none-retain p k [] h = refl
  none-retain p k ((j, w) ∷ d) h = ground (arith, eq_iff j k, none-retain p k d)

  pub lookup-retain :
      (p : V → Bool) (k : String) (d : Dict V)
      → Unique d
      → lookup k (retain p d) ≡ filtered p (lookup k d)
  unfolding lookup retain
  lookup-retain p k [] u = refl
  lookup-retain p k ((j, w) ∷ d) u =
      ground (arith, eq_iff j k, lookup-retain p k d, none-retain p k d)

  pub Unique-insert : (k : String) (v : V) (d : Dict V) → Unique d → Unique (insert k v d)
  unfolding insert
  Unique-insert k v [] u = (unfold lookup in refl, tt)
  Unique-insert k v ((j, w) ∷ d) u =
      ground (arith, eq_iff j k, eq_iff k j, Unique-insert k v d, lookup-insert k j v d)

  Unique-erase : (k : String) (d : Dict V) → Unique d → Unique (erase k d)
  unfolding erase
  Unique-erase k [] u = tt
  Unique-erase k ((j, w) ∷ d) u =
      ground (arith, eq_iff j k, eq_iff k j, Unique-erase k d, lookup-erase k j d)

  pub Unique-retain : (p : V → Bool) (d : Dict V) → Unique d → Unique (retain p d)
  unfolding retain
  Unique-retain p [] u = tt
  Unique-retain p ((j, w) ∷ d) u = ground (arith, Unique-retain p d, none-retain p j d)
