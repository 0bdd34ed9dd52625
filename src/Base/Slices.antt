-- ===== src/Base/Slices.antt =====
-- Laws of Python's slices on sequences.
use Prim.Native.Nat.{ℕ, zero, suc, ◌-◌, ◌≤◌}
use mathlib.Core.Path.{◌≡◌, refl, sym, ap, ◌∙◌}
use mathlib.Core.List.{List, [], ◌∷◌, ◌++◌}
use native.Mathlib.Omega.{arith}
use powerbrain.Base.Lists.{length, take, drop, take-append-drop}

module _ {ℓ} {A : Type ℓ} where
  pub take-append : (n : ℕ) (xs ys : List A) → n ≤ length xs → take n (xs ++ ys) ≡ take n xs
  take-append zero xs ys h = refl
  take-append (suc n) [] ys h = absurd (omega arith)
  take-append (suc n) (x ∷ xs) ys h = ap (λ t. x ∷ t) (take-append n xs ys (omega arith))

  pub drop-append : (n : ℕ) (xs ys : List A) → length xs ≡ n → drop n (xs ++ ys) ≡ ys
  drop-append zero [] ys h = refl
  drop-append zero (x ∷ xs) ys h = absurd (omega arith)
  drop-append (suc n) [] ys h = absurd (omega arith)
  drop-append (suc n) (x ∷ xs) ys h = drop-append n xs ys (omega arith)

  pub take-take : (m n : ℕ) (xs : List A) → m ≤ n → take m (take n xs) ≡ take m xs
  take-take zero n xs h = refl
  take-take (suc m) zero xs h = absurd (omega arith)
  take-take (suc m) (suc n) [] h = refl
  take-take (suc m) (suc n) (x ∷ xs) h = ap (λ t. x ∷ t) (take-take m n xs (omega arith))

  pub take-drop-append :
      (p q : ℕ) (xs : List A) → p ≤ q → take p xs ++ take (q - p) (drop p xs) ≡ take q xs
  take-drop-append zero q xs h = ap (λ n. take n xs) (omega arith)
  take-drop-append (suc p) zero xs h = absurd (omega arith)
  take-drop-append (suc p) (suc q) [] h = take-none (suc q - suc p)
    where
      take-none : (n : ℕ) → ◌≡◌ {A = List A} (take n []) []
      take-none zero = refl
      take-none (suc n) = refl
  take-drop-append (suc p) (suc q) (x ∷ xs) h =
      ap (λ t. x ∷ t)
        (ap (λ n. take p xs ++ take n (drop p xs)) (omega arith)
          ∙ take-drop-append p q xs (omega arith))

  pub slice-drop :
      (p q : ℕ) (xs : List A) → p ≤ q → take (q - p) (drop p xs) ++ drop q xs ≡ drop p xs
  slice-drop zero q xs h = ap (λ n. take n xs ++ drop q xs) (omega arith) ∙ take-append-drop q xs
  slice-drop (suc p) zero xs h = absurd (omega arith)
  slice-drop (suc p) (suc q) [] h = take-none (suc q - suc p)
    where
      take-none : (n : ℕ) → ◌≡◌ {A = List A} (take n [] ++ []) []
      take-none zero = refl
      take-none (suc n) = refl
  slice-drop (suc p) (suc q) (x ∷ xs) h =
      ap (λ n. take n (drop p xs) ++ drop q xs) (omega arith) ∙ slice-drop p q xs (omega arith)

module _ {ℓ} {A : Type ℓ} where
  drop-drop : (p q : ℕ) (xs : List A) → p ≤ q → drop (q - p) (drop p xs) ≡ drop q xs
  drop-drop zero q xs h = ap (λ n. drop n xs) (omega arith)
  drop-drop (suc p) zero xs h = absurd (omega arith)
  drop-drop (suc p) (suc q) [] h = drop-none (suc q - suc p)
    where
      drop-none : (n : ℕ) → ◌≡◌ {A = List A} (drop n []) []
      drop-none zero = refl
      drop-none (suc n) = refl
  drop-drop (suc p) (suc q) (x ∷ xs) h =
      ap (λ n. drop n (drop p xs)) (omega arith) ∙ drop-drop p q xs (omega arith)

  -- Two slices that meet.
  pub slice-append :
      (p q r : ℕ) (xs : List A)
      → p ≤ q
      → q ≤ r
      → take (q - p) (drop p xs) ++ take (r - q) (drop q xs) ≡ take (r - p) (drop p xs)
  slice-append p q r xs h k =
      ap (λ ys. take (q - p) (drop p xs) ++ take (r - q) ys) (sym (drop-drop p q xs h))
      ∙ ap (λ n. take (q - p) (drop p xs) ++ take n (drop (q - p) (drop p xs))) (omega arith)
      ∙ take-drop-append (q - p) (r - p) (drop p xs) (omega arith)
