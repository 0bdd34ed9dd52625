-- ===== src/PiiVerify/Verdicts.antt =====
-- The reply of the model and the filtered scan in shared/pii_verify_provider.py.
use powerbrain.Base.{
  ℕ, zero, suc, ◌+◌, ◌≡◌, ◌↔◌, refl, ◌∙◌, ap, subst, String, Bool, false, not, Option, some, List,
  [], ◌∷◌, length, and_then, and_then-some, some_injective, get_or, arith, eq_iff, Option-cases,
  inl, inr,
}
use powerbrain.Base.Dict.{Dict, lookup, insert, lookup-insert}
use powerbrain.Base.Json.{Json, Fields, truth}
use powerbrain.PiiVerify.{
  Location, Scan, count_types, is_empty, scan_of, filter_locations, apply_verdicts_to_scan_result,
  set_at, set_verdicts, replicate_true, first_object, verdicts_of, parse_verdicts,
}
use powerbrain.PiiVerify.Recall.{count_kind}

count_types-count_kind :
    (t : String) (ls : List Location) (d : Dict ℕ)
    → get_or (lookup t (count_types ls d)) 0 ≡ get_or (lookup t d) 0 + count_kind t ls
unfolding count_types
count_types-count_kind t [] d = omega arith
count_types-count_kind t (l ∷ ls) d =
    count_types-count_kind t ls (insert l.kind (get_or (lookup l.kind d) 0 + 1) d)
    ∙ rw (lookup-insert l.kind t (get_or (lookup l.kind d) 0 + 1) d)
        (ground (arith, eq_iff l.kind t))

-- In the scan that the verdicts leave, each type has the number of its locations, and PII is
-- reported exactly if a location is left.
pub apply_verdicts-counts :
    (ls : List Location) (ks : List Bool) (scan : Scan) (t : String)
    → apply_verdicts_to_scan_result ls ks ≡ some scan
    → (get_or (lookup t scan.entity_counts) 0 ≡ count_kind t scan.entity_locations)
      × ((scan.contains_pii ≡ false) ↔ (scan.entity_locations ≡ []))
unfolding apply_verdicts_to_scan_result
apply_verdicts-counts ls ks scan t h =
    let (kept, e, f) = and_then-some (filter_locations ks ls) (λ kept. some (scan_of kept)) h in
    subst
      (λ (s : Scan).
        (get_or (lookup t s.entity_counts) 0 ≡ count_kind t s.entity_locations)
        × ((s.contains_pii ≡ false) ↔ (s.entity_locations ≡ [])))
      (some_injective (scan_of kept) scan f) (of_kept kept)
  where
    empty : (kept : List Location) → (not (is_empty kept) ≡ false) ↔ (kept ≡ [])
    empty [] = (λ h. refl, λ h. refl)
    empty (l ∷ ls) = (λ h. cc, λ h. cc)

    of_kept :
        (kept : List Location)
        → (get_or (lookup t (scan_of kept).entity_counts) 0
            ≡ count_kind t (scan_of kept).entity_locations)
          × (((scan_of kept).contains_pii ≡ false) ↔ ((scan_of kept).entity_locations ≡ []))
    of_kept kept =
        unfold scan_of in
        (count_types-count_kind t kept [] ∙ unfold lookup in omega arith, empty kept)

length-set_at : {A : Type 0} (n : ℕ) (a : A) (xs : List A) → length (set_at n a xs) ≡ length xs
length-set_at n a [] = refl
length-set_at zero a (x ∷ xs) = refl
length-set_at (suc n) a (x ∷ xs) = ap suc (length-set_at n a xs)

length-set_verdicts :
    (int_of : String → Option ℕ) (fs : Fields) (vs : List Bool)
    → length (set_verdicts int_of fs vs) ≡ length vs
unfolding set_verdicts
length-set_verdicts int_of Fields.end vs = refl
length-set_verdicts int_of (Fields.field k v fs) vs = elim (Option-cases (int_of k)) [
  | inl e ↦ rw e (length-set_verdicts int_of fs vs)
  | inr (i, e) ↦
      rw e (length-set_verdicts int_of fs (set_at i (truth v) vs) ∙ length-set_at i (truth v) vs)
]

length-replicate_true : (n : ℕ) → length (replicate_true n) ≡ n
length-replicate_true zero = refl
length-replicate_true (suc n) = ap suc (length-replicate_true n)

length-verdicts_of :
    (int_of : String → Option ℕ) (n : ℕ) (v : Json) (vs : List Bool)
    → verdicts_of int_of n v ≡ some vs
    → length vs ≡ n
unfolding verdicts_of
length-verdicts_of int_of n (Json.obj fs) vs h =
    subst (λ us. length us ≡ n) (some_injective (set_verdicts int_of fs (replicate_true n)) vs h)
      (length-set_verdicts int_of fs (replicate_true n) ∙ length-replicate_true n)
length-verdicts_of int_of n Json.null vs h = cc
length-verdicts_of int_of n (Json.bool b) vs h = cc
length-verdicts_of int_of n (Json.num m) vs h = cc
length-verdicts_of int_of n (Json.str s) vs h = cc
length-verdicts_of int_of n (Json.arr us) vs h = cc

-- A reply that can be parsed gives exactly one verdict for each of the hits that were asked about,
-- whatever keys it has.
pub length-parse_verdicts :
    (loads : String → Option Json) (int_of : String → Option ℕ) (content : String) (n : ℕ)
    (vs : List Bool)
    → parse_verdicts loads int_of content n ≡ some vs
    → length vs ≡ n
unfolding parse_verdicts
length-parse_verdicts loads int_of content n vs h =
    let (t, e, f) =
      and_then-some (first_object content) (λ t. and_then (loads t) (verdicts_of int_of n)) h in
    let (v, g, k) = and_then-some (loads t) (verdicts_of int_of n) f in
    length-verdicts_of int_of n v vs k
