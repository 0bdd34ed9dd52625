-- ===== src/Ingest/Publish/Refusal.antt =====
-- What a refusal of the quality gate leaves of a document in `ingest_text_chunks` of
-- ingestion/ingestion_api.py.
use powerbrain.Base.{
  ℕ, ◌≡◌, refl, ap, subst, ◌∙◌, String, Bool, true, false, ◌&&◌, not, Option, none, some, List, [],
  ◌∷◌, ◌++◌, get_or, any, keep, str_eq, eq_refl, eq_iff, arith, if◌then◌else◌,
}
use powerbrain.Opa.{Cache}
use powerbrain.Store.{Point, DocumentRow, Store, delete_documents_where, upsert}
use powerbrain.Ingest.{
  Pool, absent, working, failing, Services, Document, Progress, Step, next, blocked, raised,
  process_chunks,
}
use powerbrain.Ingest.Privacy.{store_of}
use powerbrain.Ingest.Pipeline.{process_chunks-Grows}
use powerbrain.Ingest.Embedding.{Vector, embed_texts}
use powerbrain.Ingest.Points.{Publisher, build_points, join_blank}
use powerbrain.Ingest.Publish.{
  Gate, check_opa_quality_gate, reject, on_document, Outcome, raised_error, rejected, out_texts,
  World, store_points, finish, embedded, publish, gated, after_chunks, pre_create,
  ingest_text_chunks,
}

any-keep :
    {A : Type 0} (q r : A → Bool) (xs : List A)
    → ((x : A) → q x ≡ true → r x ≡ false)
    → any q (keep r xs) ≡ false
any-keep q r [] h = refl
any-keep q r (x ∷ xs) h = ground (arith, h x, any-keep q r xs h)

any-snoc :
    {A : Type 0} (q : A → Bool) (xs : List A) (x : A) → q x ≡ true → any q (xs ++ (x ∷ [])) ≡ true
any-snoc q [] x h = ground arith
any-snoc q (y ∷ ys) x h = ground (arith, any-snoc q ys x h)

-- Neither a row of the document nor an original of it is left.
abbrev pub IsGone : Document → Store → Type 0
IsGone doc s =
    (any (λ d. str_eq d.id doc.doc_id) s.documents ≡ false)
    × (any (λ v. str_eq v.document_id doc.doc_id) s.vault ≡ false)
    × (any (λ m. str_eq m.document_id doc.doc_id) s.mappings ≡ false)

module _ (doc : Document) (old : List DocumentRow) (row : DocumentRow)
    (own : row.id ≡ doc.doc_id) where
  -- Whatever refers to the document finds its row among those that go.
  finds_row :
      (ds : List DocumentRow) (i : String)
      → ds ≡ old ++ (row ∷ [])
      → str_eq i doc.doc_id ≡ true
      → not (any (λ d. str_eq d.id doc.doc_id && str_eq d.id i) ds) ≡ false
  finds_row ds i e h =
      ap (λ ds. not (any (λ d. str_eq d.id doc.doc_id && str_eq d.id i) ds)) e
      ∙ ap not (
          any-snoc (λ d. str_eq d.id doc.doc_id && str_eq d.id i) old row
            (rw (own, (eq_iff i doc.doc_id).0 h) (ground (arith, eq_refl doc.doc_id))))

  reject-IsGone :
      (score : ℕ) (reason : String) (s : Store)
      → s.documents ≡ old ++ (row ∷ [])
      → IsGone doc (reject working doc score (some reason) s)
  unfolding reject delete_documents_where
  reject-IsGone score reason s e = (
    any-keep _ _ s.documents (λ d h. ap not h),
    any-keep _ _ s.vault (λ v h. finds_row s.documents v.document_id e h),
    any-keep _ _ s.mappings (λ m h. finds_row s.documents m.document_id e h),
  )

module _ (cache : Cache Vector) (sv : Services) (pb : Publisher) (doc : Document) where
  abbrev Cleaned : World cache × Outcome → Type 0
  Cleaned (w, rejected b) = IsGone doc w.store
  Cleaned (w, o) = Unit

  store_points-Cleaned :
      (p : Progress) (points : List Point) (c : cache.Store) (s : Store)
      → Cleaned (store_points cache sv pb doc p points c s)
  unfolding store_points finish
  store_points-Cleaned p [] c s = tt
  store_points-Cleaned p (x ∷ xs) c s = by_store (pb.takes "L2")
    where
      by_store :
          (b : Bool)
          → Cleaned (
              if b
              then finish cache sv pb doc p (x ∷ xs) c (upsert doc.collection (x ∷ xs) s)
              else (record { cached = c; store = s }, raised_error))
      by_store true = tt
      by_store false = tt

  embedded-Cleaned :
      (p : Progress) (s : Store) (r : cache.Store × Option (List Vector))
      → Cleaned (embedded cache sv pb doc p s r)
  unfolding embedded
  embedded-Cleaned p s (c, none) = tt
  embedded-Cleaned p s (c, some vs) = store_points-Cleaned p (build_points pb doc 0 p.outs vs) c s

  publish-Cleaned :
      (p : Progress) (score : ℕ) (gate : Gate) (c : cache.Store)
      → IsGone doc (reject sv.pool doc score gate.reason p.store)
      → Cleaned (publish cache sv pb doc p score gate c)
  unfolding publish
  publish-Cleaned p score gate c gone =
      by_gate gate.allowed (embed_texts cache pb.setup pb.provider pb.now (out_texts p.outs) c)
    where
      s : Store
      s = on_document sv.pool doc (λ d. record d { quality_score = some score }) p.store

      by_gate :
          (b : Bool) (r : cache.Store × Option (List Vector))
          → Cleaned (
              if b then embedded cache sv pb doc p s r else (
                record { cached = c; store = reject sv.pool doc score gate.reason p.store },
                rejected p.pii_detected,
              ))
      by_gate true r = embedded-Cleaned p s r
      by_gate false r = gone

  -- The row that is created beforehand is the last one.
  created :
      (pool : Pool) (s : Store)
      → pool ≡ working
      → (row : DocumentRow) × (row.id ≡ doc.doc_id)
        × ((pre_create pool doc s).documents ≡ s.documents ++ (row ∷ []))
  unfolding pre_create
  created working s e = (_, refl, refl)
  created absent s e = absurd cc
  created failing s e = absurd cc

  refusal-IsGone :
      (score : ℕ) (reason : Option String) (s old : Store)
      → sv.pool ≡ working
      → ((r : String) × (reason ≡ some r))
      → s.documents ≡ (pre_create sv.pool doc old).documents
      → IsGone doc (reject sv.pool doc score reason s)
  refusal-IsGone score reason s old working' (r, given) same =
      let (row, own, e) = created sv.pool old working' in
      rw (working', given) (reject-IsGone doc old.documents row own score r s (same ∙ e))

  abbrev Reasoned : Type 0
  Reasoned =
      (score : ℕ) (gate : Gate)
      → check_opa_quality_gate sv.float_reads sv.engine doc.source_type score ≡ some gate
      → (r : String) × (gate.reason ≡ some r)

  gated-Cleaned :
      (p : Progress) (score : ℕ) (o : Option Gate) (c : cache.Store)
      → ((gate : Gate) → o ≡ some gate → IsGone doc (reject sv.pool doc score gate.reason p.store))
      → Cleaned (gated cache sv pb doc p score o c)
  unfolding gated
  gated-Cleaned p score none c f = tt
  gated-Cleaned p score (some gate) c f = publish-Cleaned p score gate c (f gate refl)

  after_chunks-Cleaned :
      (quality : Document → String → ℕ → Option ℕ) (c : cache.Store) (old : Store) (t : Step)
      → sv.pool ≡ working
      → Reasoned
      → (store_of t).documents ≡ (pre_create sv.pool doc old).documents
      → Cleaned (after_chunks cache sv pb quality doc c t)
  unfolding after_chunks
  after_chunks-Cleaned quality c old (blocked s) w reasoned e = tt
  after_chunks-Cleaned quality c old (raised s) w reasoned e = tt
  after_chunks-Cleaned quality c old (next p) w reasoned e =
      let score = get_or (quality doc (join_blank (out_texts p.outs)) p.pii_entities) 0 in
      gated-Cleaned p score (check_opa_quality_gate sv.float_reads sv.engine doc.source_type score)
        c (λ gate h. refusal-IsGone score gate.reason p.store old w (reasoned score gate h) e)

  ingest_text_chunks-Cleaned :
      (quality : Document → String → ℕ → Option ℕ) (w : World cache)
      → sv.pool ≡ working
      → Reasoned
      → Cleaned (ingest_text_chunks cache sv pb quality doc w)
  unfolding ingest_text_chunks
  ingest_text_chunks-Cleaned quality w works reasoned =
      after_chunks-Cleaned quality w.cached w.store
        (process_chunks sv doc 0 doc.chunks (record {
          policy = none;
          pii_detected = false;
          pii_entities = 0;
          outs = [];
          store = pre_create sv.pool doc w.store;
        }))
        works reasoned (process_chunks-Grows sv doc doc.chunks _).2

  -- If the database works and the gate's reason is a text (or none), a document that the gate
  -- rejects leaves no row of it, no original in the vault and no pseudonym.
  pub ingest_text_chunks-rejected :
      (quality : Document → String → ℕ → Option ℕ) (w w' : World cache) (b : Bool)
      → sv.pool ≡ working
      → ((score : ℕ) (gate : Gate)
          → check_opa_quality_gate sv.float_reads sv.engine doc.source_type score ≡ some gate
          → (r : String) × (gate.reason ≡ some r))
      → ingest_text_chunks cache sv pb quality doc w ≡ (w', rejected b)
      → IsGone doc w'.store
  ingest_text_chunks-rejected quality w w' b works reasoned h =
      subst Cleaned h (ingest_text_chunks-Cleaned quality w works reasoned)
