-- ===== src/Ingest/Pipeline.antt =====
-- ingestion/ingestion_api.py: what the loop of `ingest_text_chunks` makes of all chunks.
use powerbrain.Base.{
  ℕ, ◌+◌, ◌≡◌, ◌≢◌, refl, sym, ap, subst, ◌∙◌, inl, inr, String, Bool, true, false, Option, none,
  some, List, [], ◌∷◌, ◌++◌, append-nil, append_assoc, any, All, str_eq, Option-cases, Bool-cases,
  if◌then◌else◌,
}
use powerbrain.PiiVerify.{Scan}
use powerbrain.Store.{Store}
use powerbrain.Ingest.{
  Services, Document, ChunkOut, Progress, Step, next, blocked, raised, PrivacyPolicy, log_pii_scan,
  obey, policy_for, noted, clean_out, put_out, process_scan, verified_scan, process_chunk,
  process_chunks,
}
use powerbrain.Ingest.Privacy.{
  Guarded, Grows, Grows-refl, Grows-trans, any-Grows, is_original, store_of, Good,
  process_chunk-Good,
}

module _ (sv : Services) (doc : Document) where
  -- Each chunk has its own place, in order.
  abbrev pub AllGuarded : ℕ → List String → Store → List ChunkOut → Type 0
  AllGuarded i [] s [] = Unit
  AllGuarded i (c ∷ cs) s (o ∷ os) = Guarded sv doc i c s o × AllGuarded (i + 1) cs s os
  AllGuarded i _ s _ = ⊥

  Guarded-Grows :
      (i : ℕ) (c : String) (s s' : Store) (o : ChunkOut)
      → Grows s s'
      → Guarded sv doc i c s o
      → Guarded sv doc i c s' o
  Guarded-Grows i c s s' o g (e, shown, kept) =
      (e, shown, λ id h. any-Grows (is_original doc i c id) s s' g (kept id h))

  abbrev AddsAll : ℕ → List String → List ChunkOut → Step → Type 0
  AddsAll i cs outs (next p) =
      (new : List ChunkOut) × (p.outs ≡ outs ++ new) × AllGuarded i cs p.store new
  AddsAll i cs outs (blocked s) = Unit
  AddsAll i cs outs (raised s) = Unit

  abbrev Run : ℕ → List String → Store → List ChunkOut → Step → Type 0
  Run i cs s outs step = Grows s (store_of step) × AddsAll i cs outs step

  -- One chunk before the others.
  first-Run :
      (i : ℕ) (c : String) (cs : List String) (s s' : Store) (outs : List ChunkOut) (o : ChunkOut)
      (step : Step)
      → Grows s s'
      → Guarded sv doc i c s' o
      → Run (i + 1) cs s' (outs ++ (o ∷ [])) step
      → Run i (c ∷ cs) s outs step
  first-Run i c cs s s' outs o (next p) g h (g', (new, e, all)) = (
    Grows-trans s s' p.store g g',
    (o ∷ new, e ∙ append_assoc outs (o ∷ []) new, (Guarded-Grows i c s' p.store o g' h, all)),
  )
  first-Run i c cs s s' outs o (blocked t) g h (g', u) = (Grows-trans s s' t g g', tt)
  first-Run i c cs s s' outs o (raised t) g h (g', u) = (Grows-trans s s' t g g', tt)

  abbrev pub rest_of : ℕ → List String → Step → Step
  rest_of i cs (next p) = process_chunks sv doc i cs p
  rest_of i cs (blocked s) = blocked s
  rest_of i cs (raised s) = raised s

  pub process_chunks-rest :
      (i : ℕ) (c : String) (cs : List String) (p : Progress)
      → process_chunks sv doc i (c ∷ cs) p ≡ rest_of (i + 1) cs (process_chunk sv doc i c p)
  unfolding process_chunks
  process_chunks-rest i c cs p = by_step (process_chunk sv doc i c p)
    where
      by_step :
          (t : Step)
          → ◌≡◌ {A = Step}
              (elim t [
                | next p' ↦ process_chunks sv doc (i + 1) cs p'
                | blocked s ↦ blocked s
                | raised s ↦ raised s
              ])
              (rest_of (i + 1) cs t)
      by_step (next p') = refl
      by_step (blocked s) = refl
      by_step (raised s) = refl

  rest-Run :
      (i : ℕ) (c : String) (cs : List String) (s : Store) (outs : List ChunkOut) (t : Step)
      → ((p : Progress) → Run (i + 1) cs p.store p.outs (process_chunks sv doc (i + 1) cs p))
      → Good sv doc i c s outs t
      → Run i (c ∷ cs) s outs (rest_of (i + 1) cs t)
  rest-Run i c cs s outs (next p) run (g, (o, e, h)) =
      first-Run i c cs s p.store outs o (process_chunks sv doc (i + 1) cs p) g h
        (subst (λ os. Run (i + 1) cs p.store os (process_chunks sv doc (i + 1) cs p)) e (run p))
  rest-Run i c cs s outs (blocked t) run (g, u) = (g, tt)
  rest-Run i c cs s outs (raised t) run (g, u) = (g, tt)

  process_chunks-Run :
      (i : ℕ) (cs : List String) (p : Progress)
      → Run i cs p.store p.outs (process_chunks sv doc i cs p)
  unfolding process_chunks
  process_chunks-Run i [] p = (Grows-refl p.store, ([], sym (append-nil p.outs), tt))
  process_chunks-Run i (c ∷ cs) p =
      subst (Run i (c ∷ cs) p.store p.outs) (sym (process_chunks-rest i c cs p)) (
        rest-Run i c cs p.store p.outs (process_chunk sv doc i c p)
          (λ p'. process_chunks-Run (i + 1) cs p') (process_chunk-Good sv doc i c p))

  -- If the loop goes through, each chunk has one successor, at its own place and in order: the chunk
  -- itself, if its scan (after the verifier) has found no PII, or what the scanner's mask or its
  -- pseudonyms leave of it; and a vault reference is that of a row that holds the chunk under its
  -- document and its place.
  pub process_chunks-guarded :
      (cs : List String) (p p' : Progress)
      → process_chunks sv doc 0 cs p ≡ next p'
      → (new : List ChunkOut) × (p'.outs ≡ p.outs ++ new) × AllGuarded 0 cs p'.store new
  process_chunks-guarded cs p p' h =
      (subst (Run 0 cs p.store p.outs) h (process_chunks-Run 0 cs p)).1

  -- Whatever becomes of the chunks, the loop leaves the collections and the rows of the documents as
  -- they were, and takes no row from the vault.
  pub process_chunks-Grows :
      (cs : List String) (p : Progress) → Grows p.store (store_of (process_chunks sv doc 0 cs p))
  process_chunks-Grows cs p = (process_chunks-Run 0 cs p).0

  abbrev has_pii : Option Scan → Bool
  has_pii none = false
  has_pii (some scan) = scan.contains_pii

  unfoldable pub finds_pii : String → Bool
  finds_pii c = has_pii (verified_scan sv c)

  abbrev Blocks : Progress → Type 0
  Blocks p = str_eq (policy_for sv doc p.policy).pii_action "block" ≡ true

  obey-blocks :
      (i : ℕ) (c : String) (scan : Scan) (policy : PrivacyPolicy) (p : Progress)
      → str_eq policy.pii_action "block" ≡ true
      → obey sv doc i c scan policy p ≡ blocked (log_pii_scan sv.pool doc scan "block" p.store)
  unfolding obey
  obey-blocks i c scan policy p e = rw e refl

  process_scan-if :
      (i : ℕ) (c : String) (p : Progress) (scan : Scan) (b : Bool)
      → scan.contains_pii ≡ b
      → process_scan sv doc i c p scan ≡ (
          if b
          then obey sv doc i c scan (policy_for sv doc p.policy) (noted sv doc scan p)
          else next (put_out (clean_out i c) p))
  unfolding process_scan
  process_scan-if i c p scan b e =
      ap
        (λ b.
          if b
          then obey sv doc i c scan (policy_for sv doc p.policy) (noted sv doc scan p)
          else next (put_out (clean_out i c) p))
        e

  process_chunk-scan :
      (i : ℕ) (c : String) (p : Progress) (scan : Scan)
      → verified_scan sv c ≡ some scan
      → process_chunk sv doc i c p ≡ process_scan sv doc i c p scan
  unfolding process_chunk
  process_chunk-scan i c p scan e = rw (process_chunk, e) refl

  -- If the policy blocks, the first chunk with PII ends the loop.
  pub process_chunks-Blocks :
      (i : ℕ) (cs : List String) (p : Progress)
      → Blocks p
      → All (λ c. verified_scan sv c ≢ none) cs
      → any finds_pii cs ≡ true
      → (s : Store) × (process_chunks sv doc i cs p ≡ blocked s)
  unfolding process_chunks finds_pii
  process_chunks-Blocks i [] p blocks scans found = absurd cc
  process_chunks-Blocks i (c ∷ cs) p blocks scans found = elim (Option-cases (verified_scan sv c)) [
    | inl e ↦ absurd (scans.0 e)
    | inr (scan, e) ↦ elim (Bool-cases scan.contains_pii) [
      | inl pii ↦ (
        _,
        process_chunks-rest i c cs p
            ∙ ap (rest_of (i + 1) cs) (
                process_chunk-scan i c p scan e
                ∙ process_scan-if i c p scan true pii
                ∙ obey-blocks i c scan (policy_for sv doc p.policy) (noted sv doc scan p) blocks),
      )
      | inr clean ↦
          let (s, h) =
            process_chunks-Blocks (i + 1) cs (put_out (clean_out i c) p) blocks scans.1
              (rw (ap has_pii e, clean) at found) in
          (
            s,
            process_chunks-rest i c cs p
                ∙ ap (rest_of (i + 1) cs)
                    (process_chunk-scan i c p scan e ∙ process_scan-if i c p scan false clean)
                ∙ h,
          )
    ]
  ]
