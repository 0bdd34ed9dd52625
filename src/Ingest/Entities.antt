-- ===== src/Ingest/Entities.antt =====
-- ingestion/ingestion_api.py: the entities that the loop of `ingest_text_chunks` counts.
use powerbrain.Base.{
  ℕ, ◌+◌, ◌≡◌, refl, subst, String, Bool, true, false, ◌&&◌, ◌||◌, Option, none, some, List, [],
  ◌∷◌, str_eq, Option-cases, inl, inr, arith, if◌then◌else◌,
}
use powerbrain.PiiVerify.{Scan}
use powerbrain.Store.{Store}
use powerbrain.Ingest.{
  Services, Document, Progress, Step, next, blocked, raised, PrivacyPolicy, sum_counts,
  get_or_create_project_salt, vaulted, pseudonymized, dual_store, mask, obey, policy_for, noted,
  clean_out, put_out, process_scan, verified_scan, process_chunk, process_chunks, log_pii_scan,
}
use powerbrain.Ingest.Pipeline.{rest_of, process_chunks-rest}

module _ (sv : Services) (doc : Document) where
  abbrev in_scan : Option Scan → ℕ
  in_scan none = 0
  in_scan (some scan) = if scan.contains_pii then sum_counts scan.entity_counts else 0

  -- The entities of all chunks, of those after the verifier that have PII.
  unfoldable pub entities_in : List String → ℕ
  entities_in [] = 0
  entities_in (c ∷ cs) = in_scan (verified_scan sv c) + entities_in cs

  -- What a step that goes on has counted.
  abbrev Counts : ℕ → Step → Type 0
  Counts n (next p) = p.pii_entities ≡ n
  Counts n (blocked s) = Unit
  Counts n (raised s) = Unit

  if-Counts :
      (n : ℕ) (b : Bool) (x y : Step) → Counts n x → Counts n y → Counts n (if b then x else y)
  if-Counts n true x y h k = h
  if-Counts n false x y h k = k

  added :
      (n m : ℕ) (b : Bool) (x y : Step)
      → Counts (n + m) x
      → Counts n y
      → Counts (n + (if b then m else 0)) (if b then x else y)
  added n m true x y h k = h
  added n m false x y h k = subst (λ k. Counts k y) (omega arith) k

  pseudonymized-Counts :
      (i : ℕ) (scan : Scan) (text : String) (p : Progress) (s : Store)
      (r : Option (Store × Option String))
      → Counts p.pii_entities (pseudonymized sv doc i scan text p s r)
  pseudonymized-Counts i scan text p s none = tt
  pseudonymized-Counts i scan text p s (some (s', v)) = refl

  dual_store-Counts :
      (i : ℕ) (c : String) (scan : Scan) (policy : PrivacyPolicy) (p : Progress)
      → Counts p.pii_entities (dual_store sv doc i c scan policy p)
  unfolding dual_store
  dual_store-Counts i c scan policy p =
      elim (Option-cases
        (get_or_create_project_salt sv.pool doc.project (sv.fresh_salt i) p.store.salts)) [
          | inl e ↦ rw (dual_store, e) tt
          | inr ((salts, salt), e) ↦
              rw (dual_store, e)
                (pseudonymized-Counts i scan (sv.pseudonymize_text c salt).0 p
                  (record p.store { salts = salts })
                  (vaulted sv.pool sv doc i c scan (sv.pseudonymize_text c salt).1 salt
                    policy.retention_days (record p.store { salts = salts })))
        ]

  mask-Counts :
      (i : ℕ) (c : String) (scan : Scan) (p : Progress)
      → Counts p.pii_entities (mask sv doc i c scan p)
  unfolding mask
  mask-Counts i c scan p = refl

  obey-Counts :
      (i : ℕ) (c : String) (scan : Scan) (policy : PrivacyPolicy) (p : Progress)
      → Counts p.pii_entities (obey sv doc i c scan policy p)
  unfolding obey
  obey-Counts i c scan policy p =
      if-Counts p.pii_entities (str_eq policy.pii_action "block")
        (blocked (log_pii_scan sv.pool doc scan "block" p.store)) _ tt
        (if-Counts p.pii_entities
          ((str_eq policy.pii_action "pseudonymize" || str_eq policy.pii_action "encrypt_and_store")
            && policy.dual_storage)
          (dual_store sv doc i c scan policy p) (mask sv doc i c scan p)
          (dual_store-Counts i c scan policy p) (mask-Counts i c scan p))

  process_scan-Counts :
      (i : ℕ) (c : String) (p : Progress) (scan : Scan)
      → Counts (p.pii_entities + in_scan (some scan)) (process_scan sv doc i c p scan)
  unfolding process_scan
  process_scan-Counts i c p scan =
      added p.pii_entities (sum_counts scan.entity_counts) scan.contains_pii
        (obey sv doc i c scan (policy_for sv doc p.policy) (noted sv doc scan p))
        (next (put_out (clean_out i c) p))
        (obey-Counts i c scan (policy_for sv doc p.policy) (noted sv doc scan p)) refl

  process_chunk-Counts :
      (i : ℕ) (c : String) (p : Progress)
      → Counts (p.pii_entities + in_scan (verified_scan sv c)) (process_chunk sv doc i c p)
  unfolding process_chunk
  process_chunk-Counts i c p = elim (Option-cases (verified_scan sv c)) [
    | inl e ↦ rw (process_chunk, e) tt
    | inr (scan, e) ↦ rw (process_chunk, e) (process_scan-Counts i c p scan)
  ]

  rest_of-Counts :
      (i : ℕ) (cs : List String) (n m : ℕ) (t : Step)
      → ((q : Progress) → Counts (q.pii_entities + entities_in cs) (process_chunks sv doc i cs q))
      → Counts (n + m) t
      → Counts (n + (m + entities_in cs)) (rest_of sv doc i cs t)
  rest_of-Counts i cs n m (next q) rest h =
      subst (λ k. Counts k (process_chunks sv doc i cs q)) (omega (arith, h)) (rest q)
  rest_of-Counts i cs n m (blocked s) rest h = tt
  rest_of-Counts i cs n m (raised s) rest h = tt

  loop-Counts :
      (i : ℕ) (cs : List String) (p : Progress)
      → Counts (p.pii_entities + entities_in cs) (process_chunks sv doc i cs p)
  unfolding process_chunks entities_in
  loop-Counts i [] p = omega arith
  loop-Counts i (c ∷ cs) p = rw (process_chunks-rest sv doc i c cs p) (
      rest_of-Counts (i + 1) cs p.pii_entities (in_scan (verified_scan sv c))
        (process_chunk sv doc i c p) (loop-Counts (i + 1) cs) (process_chunk-Counts i c p))

  -- A loop that goes through has counted the entities of all chunks.
  pub process_chunks-entities :
      (cs : List String) (p p' : Progress)
      → process_chunks sv doc 0 cs p ≡ next p'
      → p'.pii_entities ≡ p.pii_entities + entities_in cs
  process_chunks-entities cs p p' h =
      subst (Counts (p.pii_entities + entities_in cs)) h (loop-Counts 0 cs p)
