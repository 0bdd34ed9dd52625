-- ===== src/Ingest/Embedding/Sorting.antt =====
-- Sorting by index: what `embed_batch` of shared/llm_provider.py rests on when the server's answer
-- comes in another order.
use mathlib.Core.List.{Permᴰ}
use powerbrain.Base.{ℕ, ◌≡◌, ◌≢◌, ◌<◌, refl, sym, ap, subst, ◌∙◌, List, [], ◌∷◌, All, arith, ◌+◌}
use powerbrain.Ingest.Embedding.{insert_index, sort_index, vectors}

module _ {A : Type 0} where
  abbrev pub enumerate : ℕ → List A → List (ℕ × A)
  enumerate n [] = []
  enumerate n (x ∷ xs) = (n, x) ∷ enumerate (n + 1) xs

  abbrev Apart : ℕ → List (ℕ × A) → Type 0
  Apart n ps = All (λ q. n ≢ q.0) ps

  -- No index stands twice.
  abbrev Distinct : List (ℕ × A) → Type 0
  Distinct [] = Unit
  Distinct (p ∷ ps) = Apart p.0 ps × Distinct ps

  Apart-perm : (n : ℕ) {xs ys : List (ℕ × A)} → Permᴰ xs ys → Apart n xs → Apart n ys
  Apart-perm n Permᴰ.nil h = tt
  Apart-perm n (Permᴰ.cons e p) h = (subst (λ q. n ≢ q.0) e h.0, Apart-perm n p h.1)
  Apart-perm n (Permᴰ.swap e f) h =
      (subst (λ q. n ≢ q.0) f h.1.0, (subst (λ q. n ≢ q.0) e h.0, h.1.1))
  Apart-perm n (Permᴰ.trans p q) h = Apart-perm n q (Apart-perm n p h)

  Distinct-perm : {xs ys : List (ℕ × A)} → Permᴰ xs ys → Distinct xs → Distinct ys
  Distinct-perm Permᴰ.nil h = tt
  Distinct-perm (Permᴰ.cons {b = b} {l₁ = l₁} {l₂ = l₂} e p) h =
      (subst (λ q. Apart q.0 l₂) e (Apart-perm _ p h.0), Distinct-perm p h.1)
  Distinct-perm (Permᴰ.swap {a = a} {b = b} {a' = a'} {b' = b'} {l = l} e f) h = (
    (λ same. h.0.0 (apart same), subst (λ q. Apart q.0 l) f h.1.0),
    (subst (λ q. Apart q.0 l) e h.0.1, h.1.1),
  )
    where
      apart : a'.0 ≡ b'.0 → a.0 ≡ b.0
      apart same = ap (λ q. q.0) e ∙ sym same ∙ sym (ap (λ q. q.0) f)
  Distinct-perm (Permᴰ.trans p q) h = Distinct-perm q (Distinct-perm p h)

  insert_index_comm :
      (p q : ℕ × A) (ps : List (ℕ × A))
      → p.0 ≢ q.0
      → insert_index p (insert_index q ps) ≡ insert_index q (insert_index p ps)
  unfolding insert_index
  insert_index_comm p q [] ne = ground arith
  insert_index_comm p q (r ∷ rs) ne = ground (arith, insert_index_comm p q rs ne)

  sort_index-perm :
      {xs ys : List (ℕ × A)} → Permᴰ xs ys → Distinct xs → sort_index xs ≡ sort_index ys
  unfolding sort_index
  sort_index-perm Permᴰ.nil h = refl
  sort_index-perm (Permᴰ.cons e p) h = rw (e, sort_index-perm p h.1) refl
  sort_index-perm (Permᴰ.swap {a = a} {b = b} {a' = a'} {b' = b'} {l = l} e f) h =
      insert_index_comm a b (sort_index l) h.0.0
      ∙ ap (λ q. insert_index q (insert_index a (sort_index l))) f
      ∙ ap (λ q. insert_index a' (insert_index q (sort_index l))) e
  sort_index-perm (Permᴰ.trans p q) h = sort_index-perm p h ∙ sort_index-perm q (Distinct-perm p h)

  enumerate-Apart : (m n : ℕ) (xs : List A) → m < n → Apart m (enumerate n xs)
  enumerate-Apart m n [] h = tt
  enumerate-Apart m n (x ∷ xs) h = (omega arith, enumerate-Apart m (n + 1) xs (omega arith))

  enumerate-Distinct : (n : ℕ) (xs : List A) → Distinct (enumerate n xs)
  enumerate-Distinct n [] = tt
  enumerate-Distinct n (x ∷ xs) =
      (enumerate-Apart n (n + 1) xs (omega arith), enumerate-Distinct (n + 1) xs)

  sort_index-enumerate : (n : ℕ) (xs : List A) → sort_index (enumerate n xs) ≡ enumerate n xs
  unfolding sort_index insert_index
  sort_index-enumerate n [] = refl
  sort_index-enumerate n (x ∷ xs) =
      ap (insert_index (n, x)) (sort_index-enumerate (n + 1) xs) ∙ first xs
    where
      first :
          (xs : List A) → insert_index (n, x) (enumerate (n + 1) xs) ≡ (n, x) ∷ enumerate (n + 1) xs
      first [] = refl
      first (y ∷ ys) = ground arith

  vectors-enumerate : (n : ℕ) (xs : List A) → vectors (enumerate n xs) ≡ xs
  vectors-enumerate n [] = refl
  vectors-enumerate n (x ∷ xs) = ap (λ t. x ∷ t) (vectors-enumerate (n + 1) xs)

  -- An answer that has each vector under its own index, in any order, is put in order.
  pub vectors-sort_index :
      (xs : List A) (answer : List (ℕ × A))
      → Permᴰ (enumerate 0 xs) answer
      → vectors (sort_index answer) ≡ xs
  vectors-sort_index xs answer p =
      ap vectors (sym (sort_index-perm p (enumerate-Distinct 0 xs)) ∙ sort_index-enumerate 0 xs)
      ∙ vectors-enumerate 0 xs
