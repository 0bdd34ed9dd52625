-- ===== src/PiiVerify/Recall.antt =====
-- What the verifier of shared/pii_verify_provider.py keeps, and what it counts.
use powerbrain.Base.{
  ℕ, ◌+◌, ◌-◌, ◌≡◌, refl, String, Bool, true, false, Option, none, some, List, [], ◌∷◌, length,
  contains, str_eq, and_then-some, some_injective, subst, arith, eq_iff, if◌then◌else◌, Bool-cases,
  inl, inr,
}
use powerbrain.PiiVerify.{
  Location, Candidate, pattern_types, is_pattern, build_candidate, build_candidates_from_locations,
  VerifyStats, ambiguous, place_verdicts, all_true, count_true, final_stats, no_ambiguous,
  failed_review, after_review, review, verify, Scan, filter_locations, scan_of,
  apply_verdicts_to_scan_result,
}

-- Each candidate has its own verdict, and a candidate of a pattern type is kept.
abbrev Recalls : List Candidate → List Bool → Type 0
Recalls [] [] = Unit
Recalls (c ∷ cs) (k ∷ ks) = (is_pattern c ≡ true → k ≡ true) × Recalls cs ks
Recalls _ _ = ⊥

Recalls-all_true : (cs : List Candidate) → Recalls cs (all_true cs)
Recalls-all_true [] = tt
Recalls-all_true (c ∷ cs) = (λ h. refl, Recalls-all_true cs)

place_verdicts-Recalls :
    (cs : List Candidate) (vs ks : List Bool) → place_verdicts cs vs ≡ some ks → Recalls cs ks
unfolding place_verdicts
place_verdicts-Recalls [] vs ks h = subst (Recalls []) (some_injective [] ks h) tt
place_verdicts-Recalls (c ∷ cs) [] ks h = elim (Bool-cases (is_pattern c)) [
  | inl p ↦
      let (rest, e, f) = and_then-some (place_verdicts cs []) (λ r. some (true ∷ r)) (rw p at h) in
      subst (Recalls (c ∷ cs)) (some_injective (true ∷ rest) ks f)
        (λ q. refl, place_verdicts-Recalls cs [] rest e)
  | inr p ↦ absurd (let stuck = rw p at h in cc)
]
place_verdicts-Recalls (c ∷ cs) (v ∷ vs) ks h =
    let (rest, e, f) =
      and_then-some (place_verdicts cs (if is_pattern c then v ∷ vs else vs))
        (λ r. some ((if is_pattern c then true else v) ∷ r)) h in
    subst (Recalls (c ∷ cs)) (some_injective ((if is_pattern c then true else v) ∷ rest) ks f)
      (λ p. rw p refl, place_verdicts-Recalls cs (if is_pattern c then v ∷ vs else vs) rest e)

abbrev pub count_false : List Bool → ℕ
count_false [] = 0
count_false (b ∷ bs) = (if b then 0 else 1) + count_false bs

Recalls-counts :
    (cs : List Candidate) (ks : List Bool)
    → Recalls cs ks
    → count_true ks + count_false ks ≡ length cs
Recalls-counts [] [] h = refl
Recalls-counts (c ∷ cs) (k ∷ ks) h = ground (arith, Recalls-counts cs ks h.1)
Recalls-counts [] (k ∷ ks) h = elim h [ ]
Recalls-counts (c ∷ cs) [] h = elim h [ ]

none_false : (cs : List Candidate) → count_false (all_true cs) ≡ 0
none_false [] = refl
none_false (c ∷ cs) = omega (arith, none_false cs)

-- What holds of every call that returns: the verdicts recall, and the number that is reported as
-- reverted is off by the forwarded ones.
abbrev IsReviewed : List Candidate → List Bool → VerifyStats → Type 0
IsReviewed cs ks st = Recalls cs ks × (st.reverted ≡ count_false ks - st.forwarded)

after_review-IsReviewed :
    (cs : List Candidate) (o : Option (List Bool)) (r : List Bool × VerifyStats)
    → after_review cs o ≡ some r
    → IsReviewed cs r.0 r.1
unfolding after_review
after_review-IsReviewed cs none r h =
    subst (λ r. IsReviewed cs r.0 r.1) (some_injective (failed_review cs) r h)
      (unfold failed_review in (Recalls-all_true cs, omega (arith, none_false cs)))
after_review-IsReviewed cs (some vs) r h =
    let (ks, e, f) =
      and_then-some (place_verdicts cs vs) (λ ks. some (ks, final_stats cs vs ks)) h in
    let recalls = place_verdicts-Recalls cs vs ks e in
    subst (λ r. IsReviewed cs r.0 r.1) (some_injective (ks, final_stats cs vs ks) r f)
      (unfold final_stats in (recalls, omega (arith, Recalls-counts cs ks recalls)))

review-IsReviewed :
    (verify_ambiguous : List Candidate → Option (List Bool)) (cs asked : List Candidate)
    (r : List Bool × VerifyStats)
    → review verify_ambiguous cs asked ≡ some r
    → IsReviewed cs r.0 r.1
unfolding review
review-IsReviewed verify_ambiguous cs [] r h =
    subst (λ r. IsReviewed cs r.0 r.1) (some_injective (no_ambiguous cs) r h)
      (unfold no_ambiguous in (Recalls-all_true cs, omega (arith, none_false cs)))
review-IsReviewed verify_ambiguous cs (a ∷ rest) r h =
    after_review-IsReviewed cs (verify_ambiguous (a ∷ rest)) r h

-- In every call that returns, whatever the backend answers, the number that the statistics report
-- as reverted is the number of the candidates that are dropped less the number of the forwarded
-- ones, where a difference below zero counts as zero.
pub verify-reverted :
    (verify_ambiguous : List Candidate → Option (List Bool)) (cs : List Candidate) (ks : List Bool)
    (st : VerifyStats)
    → verify verify_ambiguous cs ≡ some (ks, st)
    → st.reverted ≡ count_false ks - st.forwarded
unfolding verify
verify-reverted verify_ambiguous cs ks st h =
    (review-IsReviewed verify_ambiguous cs (ambiguous cs) (ks, st) h).1

-- How many locations have a type.
abbrev pub count_kind : String → List Location → ℕ
count_kind t [] = 0
count_kind t (l ∷ ls) = (if str_eq l.kind t then 1 else 0) + count_kind t ls

filter-count_kind :
    (text t : String) (ls kept : List Location) (ks : List Bool)
    → contains t pattern_types ≡ true
    → Recalls (build_candidates_from_locations text ls) ks
    → filter_locations ks ls ≡ some kept
    → count_kind t kept ≡ count_kind t ls
unfolding filter_locations build_candidates_from_locations
filter-count_kind text t [] kept [] p r h =
    subst (λ x. count_kind t x ≡ 0) (some_injective [] kept h) refl
filter-count_kind text t (l ∷ ls) kept (k ∷ ks) p r h =
    let (rest, e, f) =
      and_then-some (filter_locations ks ls) (λ x. some (if k then l ∷ x else x)) h in
    subst (λ x. count_kind t x ≡ count_kind t (l ∷ ls))
      (some_injective (if k then l ∷ rest else rest) kept f)
      (step k rest (filter-count_kind text t ls rest ks p r.1 e) r.0)
  where
    step :
        (b : Bool) (rest : List Location)
        → count_kind t rest ≡ count_kind t ls
        → (is_pattern (build_candidate text l) ≡ true → b ≡ true)
        → count_kind t (if b then l ∷ rest else rest) ≡ count_kind t (l ∷ ls)
    step true rest e q = omega (arith, e)
    step false rest e q = elim (Bool-cases (str_eq l.kind t)) [
      | inl y ↦
          let named : l.kind ≡ t = (eq_iff l.kind t).0 y in
          absurd (
            let clash : false ≡ true =
              q (unfold is_pattern in unfold build_candidate in rw named p) in
            cc)
      | inr y ↦ rw y (omega (arith, e))
    ]
filter-count_kind text t [] kept (k ∷ ks) p r h = elim r [ ]
filter-count_kind text t (l ∷ ls) kept [] p r h = elim r [ ]

-- From the hits of the scanner to the filtered scan, no hit of a pattern type is lost, whatever the
-- backend answers: of each such type as many are left as there were.
pub verify-keeps_patterns :
    (verify_ambiguous : List Candidate → Option (List Bool)) (text t : String) (ls : List Location)
    (ks : List Bool) (st : VerifyStats) (scan : Scan)
    → contains t pattern_types ≡ true
    → verify verify_ambiguous (build_candidates_from_locations text ls) ≡ some (ks, st)
    → apply_verdicts_to_scan_result ls ks ≡ some scan
    → count_kind t scan.entity_locations ≡ count_kind t ls
unfolding verify apply_verdicts_to_scan_result
verify-keeps_patterns verify_ambiguous text t ls ks st scan p h g =
    let (kept, e, f) = and_then-some (filter_locations ks ls) (λ kept. some (scan_of kept)) g in
    subst (λ (s : Scan). count_kind t s.entity_locations ≡ count_kind t ls)
      (some_injective (scan_of kept) scan f)
      (filter-count_kind text t ls kept ks p
        (review-IsReviewed verify_ambiguous (build_candidates_from_locations text ls)
          (ambiguous (build_candidates_from_locations text ls)) (ks, st) h).0
        e)
