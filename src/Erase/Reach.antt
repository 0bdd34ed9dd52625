-- ===== src/Erase/Reach.antt =====
-- What the tool `delete_documents` of mcp-server/server.py reaches, and what it leaves.
use powerbrain.Base.{
  ℕ, ◌≡◌, ◌≢◌, refl, sym, ap, subst, ◌∙◌, String, Bool, true, false, ◌&&◌, not, List, [], ◌∷◌,
  length, keep, any, str_eq, eq_refl, eq_iff, Bool-cases, inl, inr, contains, arith, if◌then◌else◌,
}
use powerbrain.Base.Dict.{lookup-insert}
use powerbrain.Store.{DocumentRow, Store, points_of, delete_documents_where}
use powerbrain.Erase.{
  Condition, DeleteRequest, build_delete_filter, matches_point, matches_row, collections, delete_in,
  delete_points, is_empty, delete_rows, DeleteAnswer, not_confirmed, no_filter, denied, deleted,
  vault_count, given, delete_documents,
}

any-keep :
    {A : Type 0} (q r : A → Bool) (xs : List A)
    → ((x : A) → q x ≡ true → r x ≡ false)
    → any q (keep r xs) ≡ false
any-keep q r [] h = refl
any-keep q r (x ∷ xs) h = ground (arith, h x, any-keep q r xs h)

keep-none :
    {A : Type 0} (q : A → Bool) (xs : List A) → is_empty (keep q xs) ≡ true → any q xs ≡ false
keep-none q [] h = refl
keep-none q (x ∷ xs) h = ground (arith, keep-none q xs)

any-keep_le :
    {A : Type 0} (q r : A → Bool) (xs : List A) → any q xs ≡ false → any q (keep r xs) ≡ false
any-keep_le q r [] h = refl
any-keep_le q r (x ∷ xs) h = ground (arith, any-keep_le q r xs)

delete_in-rows :
    (b : Bool) (cs : List Condition) (c : String) (s : Store)
    → ((delete_in b cs c s).documents ≡ s.documents) × ((delete_in b cs c s).vault ≡ s.vault)
unfolding delete_in
delete_in-rows false cs c s = (refl, refl)
delete_in-rows true cs c s = (refl, refl)

pub delete_points-rows :
    (works : String → Bool) (cs : List Condition) (names : List String) (s : Store)
    → ((delete_points works cs names s).documents ≡ s.documents)
      × ((delete_points works cs names s).vault ≡ s.vault)
unfolding delete_points
delete_points-rows works cs [] s = (refl, refl)
delete_points-rows works cs (c ∷ names) s =
    let (d, v) = delete_points-rows works cs names (delete_in (works c) cs c s) in
    let (d', v') = delete_in-rows (works c) cs c s in (d ∙ d', v ∙ v')

-- No point of a collection matches.
abbrev IsClean : List Condition → String → Store → Type 0
IsClean cs c s = any (matches_point cs) (points_of c s) ≡ false

delete_in-points :
    (cs : List Condition) (c j : String) (s : Store)
    → points_of j (delete_in true cs c s)
      ≡ (if str_eq c j then keep (λ p. not (matches_point cs p)) (points_of c s) else points_of j s)
unfolding delete_in points_of
delete_in-points cs c j s = elim (Bool-cases (str_eq c j)) [
  | inl e ↦
      rw (lookup-insert c j (keep (λ p. not (matches_point cs p)) (points_of c s)) s.collections, e)
        refl
  | inr e ↦
      rw (lookup-insert c j (keep (λ p. not (matches_point cs p)) (points_of c s)) s.collections, e)
        refl
]

delete_in-IsClean :
    (b : Bool) (cs : List Condition) (c j : String) (s : Store)
    → IsClean cs j s
    → IsClean cs j (delete_in b cs c s)
unfolding delete_in
delete_in-IsClean false cs c j s h = h
delete_in-IsClean true cs c j s h = elim (Bool-cases (str_eq c j)) [
  | inl e ↦
      ap (any (matches_point cs)) (
        delete_in-points cs c j s
        ∙ ap
            (λ b. if b then keep (λ p. not (matches_point cs p)) (points_of c s) else points_of j s)
            e)
      ∙ any-keep (matches_point cs) (λ p. not (matches_point cs p)) (points_of c s)
          (λ p m. ap not m)
  | inr e ↦
      ap (any (matches_point cs)) (
        delete_in-points cs c j s
        ∙ ap
            (λ b. if b then keep (λ p. not (matches_point cs p)) (points_of c s) else points_of j s)
            e)
      ∙ h
]

delete_in-cleans :
    (cs : List Condition) (c : String) (s : Store) → IsClean cs c (delete_in true cs c s)
delete_in-cleans cs c s =
    ap (any (matches_point cs)) (
      delete_in-points cs c c s
      ∙ ap (λ b. if b then keep (λ p. not (matches_point cs p)) (points_of c s) else points_of c s)
          (eq_refl c))
    ∙ any-keep (matches_point cs) (λ p. not (matches_point cs p)) (points_of c s) (λ p m. ap not m)

delete_points-IsClean :
    (works : String → Bool) (cs : List Condition) (names : List String) (j : String) (s : Store)
    → IsClean cs j s
    → IsClean cs j (delete_points works cs names s)
unfolding delete_points
delete_points-IsClean works cs [] j s h = h
delete_points-IsClean works cs (c ∷ names) j s h =
    delete_points-IsClean works cs names j (delete_in (works c) cs c s)
      (delete_in-IsClean (works c) cs c j s h)

delete_points-cleans :
    (works : String → Bool) (cs : List Condition) (names : List String) (j : String) (s : Store)
    → contains j names ≡ true
    → works j ≡ true
    → IsClean cs j (delete_points works cs names s)
unfolding delete_points
delete_points-cleans works cs [] j s h w = absurd cc
delete_points-cleans works cs (c ∷ names) j s h w = elim (Bool-cases (str_eq c j)) [
  | inl e ↦ delete_points-IsClean works cs names j (delete_in (works c) cs c s) (
      subst (λ b. IsClean cs j (delete_in b cs c s)) (sym (ap works ((eq_iff c j).0 e) ∙ w))
        (subst (λ k. IsClean cs j (delete_in true cs k s)) (sym ((eq_iff c j).0 e))
          (delete_in-cleans cs j s)))
  | inr e ↦ delete_points-cleans works cs names j (delete_in (works c) cs c s) (rw e at h) w
]

-- What is gone: the rows that match, and the originals of their documents.
abbrev AreGone : List Condition → List DocumentRow → Store → Type 0
AreGone cs rows s =
    (any (matches_row cs) s.documents ≡ false)
    × (any (λ v. any (λ d. matches_row cs d && str_eq d.id v.document_id) rows) s.vault ≡ false)

no_owner :
    (cs : List Condition) (rows : List DocumentRow) (i : String)
    → any (matches_row cs) rows ≡ false
    → any (λ d. matches_row cs d && str_eq d.id i) rows ≡ false
no_owner cs [] i h = refl
no_owner cs (d ∷ rows) i h = ground (arith, no_owner cs rows i)

none_of : {A : Type 0} (q : A → Bool) (xs : List A) → ((x : A) → q x ≡ false) → any q xs ≡ false
none_of q [] h = refl
none_of q (x ∷ xs) h = ground (arith, h x, none_of q xs h)

delete_rows-AreGone : (cs : List Condition) (s : Store) → AreGone cs s.documents (delete_rows cs s)
unfolding delete_rows delete_documents_where
delete_rows-AreGone cs s = elim (Bool-cases (is_empty (keep (matches_row cs) s.documents))) [
  | inl e ↦
      rw (delete_rows, e)
        (
          keep-none (matches_row cs) s.documents e,
          none_of _ s.vault (λ v.
              no_owner cs s.documents v.document_id (keep-none (matches_row cs) s.documents e)),
        )
  | inr e ↦
      rw (delete_rows, e)
        (any-keep _ _ s.documents (λ d m. ap not m), any-keep _ _ s.vault (λ v m. ap not m))
]

delete_rows-IsClean :
    (cs : List Condition) (c : String) (s : Store)
    → IsClean cs c s
    → IsClean cs c (delete_rows cs s)
unfolding delete_rows delete_documents_where points_of
delete_rows-IsClean cs c s h = elim (Bool-cases (is_empty (keep (matches_row cs) s.documents))) [
  | inl e ↦ rw (delete_rows, e) h
  | inr e ↦ rw (delete_rows, e) h
]

-- What a deletion leaves of the store that it found: no point that matches in a collection that
-- can be deleted from, no row that matches, and no original of such a row's document.
abbrev pub Erased : (String → Bool) → DeleteRequest → Store → Store → Type 0
Erased works r s s' =
    ((c : String)
      → contains c collections ≡ true
      → works c ≡ true
      → IsClean (build_delete_filter r.source_type r.project r.delete_all) c s')
    × AreGone (build_delete_filter r.source_type r.project r.delete_all) s.documents s'

abbrev Answers : (String → Bool) → DeleteRequest → Store → Store × DeleteAnswer → Type 0
Answers works r s (s', deleted n m) = Erased works r s s'
Answers works r s (s', a) = s' ≡ s

erases :
    (works : String → Bool) (r : DeleteRequest) (cs : List Condition) (s : Store)
    → ((c : String)
        → contains c collections ≡ true
        → works c ≡ true
        → IsClean cs c (delete_rows cs (delete_points works cs collections s)))
      × AreGone cs s.documents (delete_rows cs (delete_points works cs collections s))
erases works r cs s = (
  λ c h w.
      delete_rows-IsClean cs c (delete_points works cs collections s)
        (delete_points-cleans works cs collections c s h w),
  subst (λ rows. AreGone cs rows (delete_rows cs (delete_points works cs collections s)))
      (delete_points-rows works cs collections s).0
      (delete_rows-AreGone cs (delete_points works cs collections s)),
)

delete_documents-Answers :
    (allowed : Bool) (works : String → Bool) (r : DeleteRequest) (s : Store)
    → Answers works r s (delete_documents allowed works r s)
unfolding delete_documents
delete_documents-Answers allowed works r s =
    by_guards (not r.confirm)
      (not r.delete_all && (not (given r.source_type) && not (given r.project))) (not allowed)
  where
    cs : List Condition
    cs = build_delete_filter r.source_type r.project r.delete_all

    n : ℕ
    n = length (keep (matches_row cs) s.documents)

    by_guards :
        (a b c : Bool)
        → Answers works r s (
            if a
            then (s, not_confirmed)
            else if b
            then (s, no_filter)
            else if c
            then (s, denied)
            else (
              delete_rows cs (delete_points works cs collections s),
              deleted n (vault_count cs s),
            ))
    by_guards true b c = refl
    by_guards false true c = refl
    by_guards false false true = refl
    by_guards false false false = erases works r cs s

-- A deletion that answers with its counts leaves no point that matches the filter in a collection
-- that can be deleted from, no row of a document that matches, and no original of such a document.
pub delete_documents-erases :
    (allowed : Bool) (works : String → Bool) (r : DeleteRequest) (s s' : Store) (n m : ℕ)
    → delete_documents allowed works r s ≡ (s', deleted n m)
    → Erased works r s s'
delete_documents-erases allowed works r s s' n m h =
    subst (Answers works r s) h (delete_documents-Answers allowed works r s)

-- A deletion that is not confirmed, has no filter, or is denied changes nothing.
pub delete_documents-refused :
    (allowed : Bool) (works : String → Bool) (r : DeleteRequest) (s : Store)
    → ((n m : ℕ) → (delete_documents allowed works r s).1 ≢ deleted n m)
    → (delete_documents allowed works r s).0 ≡ s
delete_documents-refused allowed works r s f =
    go (delete_documents allowed works r s) (delete_documents-Answers allowed works r s) f
  where
    go :
        (x : Store × DeleteAnswer) → Answers works r s x → ((n m : ℕ) → x.1 ≢ deleted n m) → x.0 ≡ s
    go (t, deleted n m) h g = absurd (g n m refl)
    go (t, not_confirmed) h g = h
    go (t, no_filter) h g = h
    go (t, denied) h g = h
