-- ===== src/Ingest/Publish/Blocking.antt =====
-- `ingest_text_chunks` of ingestion/ingestion_api.py from end to end: what is published, and when
-- nothing is.
use powerbrain.Base.{
  ℕ, ◌+◌, ◌≡◌, ◌≢◌, refl, sym, ap, subst, ◌∙◌, String, Bool, true, false, Option, none, some, List,
  [], ◌∷◌, ◌++◌, get_or, All, any, arith, if◌then◌else◌,
}
use powerbrain.Base.Dict.{lookup}
use powerbrain.Opa.{Cache}
use powerbrain.Opa.Replies.{answer}
use powerbrain.Store.{Point, DocumentRow, Store, points_of}
use powerbrain.Ingest.{
  Pool, absent, working, failing, Services, Document, ChunkOut, Progress, Step, next, blocked,
  raised, verified_scan, process_chunks,
}
use powerbrain.Ingest.Privacy.{is_original, store_of}
use powerbrain.Ingest.Pipeline.{
  AllGuarded, process_chunks-guarded, process_chunks-Grows, process_chunks-Blocks, finds_pii,
}
use powerbrain.Ingest.Entities.{entities_in, process_chunks-entities}
use powerbrain.Ingest.Closed.{Blocks, privacy_input, check_opa_privacy-Blocks}
use powerbrain.Ingest.Embedding.{Vector, embed_texts}
use powerbrain.Ingest.Points.{Publisher, build_points, join_blank}
use powerbrain.Ingest.Publish.{
  Gate, check_opa_quality_gate, reject, on_document, Summary, Outcome, ok, pii_blocked,
  raised_error, rejected, out_texts, World, layer_texts, embedded, publish, gated, after_chunks,
  pre_create, ingest_text_chunks,
}
use powerbrain.Ingest.Publish.Contents.{IsLayer, Reports, embedded-Reports, reject-collections}

module _ (cache : Cache Vector) (sv : Services) (pb : Publisher) (doc : Document) where
  on_document-Reports :
      (pool : Pool) (f : DocumentRow → DocumentRow) (p : Progress) (s : Store)
      (given : Option (List Vector)) (out : World cache × Outcome)
      → Reports cache sv pb doc p (on_document pool doc f s) given out
      → Reports cache sv pb doc p s given out
  unfolding on_document points_of
  on_document-Reports absent f p s given out h = h
  on_document-Reports working f p s given (w, ok r) h = h
  on_document-Reports working f p s given (w, pii_blocked) h = h
  on_document-Reports working f p s given (w, raised_error) h = h
  on_document-Reports working f p s given (w, rejected b) h = h
  on_document-Reports failing f p s given out h = h

  -- What is published was let through by the gate.
  abbrev Passes : Gate → Progress → Store → Option (List Vector) → World cache × Outcome → Type 0
  Passes gate p s given (w, ok r) =
      (gate.allowed ≡ true) × Reports cache sv pb doc p s given (w, ok r)
  Passes gate p s given (w, o) = w.store.collections ≡ s.collections

  Reports-Passes :
      (gate : Gate) (p : Progress) (s : Store) (given : Option (List Vector))
      (out : World cache × Outcome)
      → gate.allowed ≡ true
      → Reports cache sv pb doc p s given out
      → Passes gate p s given out
  Reports-Passes gate p s given (w, ok r) e h = (e, h)
  Reports-Passes gate p s given (w, pii_blocked) e h = h
  Reports-Passes gate p s given (w, raised_error) e h = h
  Reports-Passes gate p s given (w, rejected b) e h = h

  decided-Passes :
      (b : Bool) (p : Progress) (score : ℕ) (gate : Gate) (c : cache.Store)
      (r : cache.Store × Option (List Vector))
      → gate.allowed ≡ b
      → Passes gate p p.store r.1 (
          if b
          then embedded cache sv pb doc p
              (on_document sv.pool doc (λ d. record d { quality_score = some score }) p.store)
              r
          else (
            record { cached = c; store = reject sv.pool doc score gate.reason p.store },
            rejected p.pii_detected,
          ))
  decided-Passes true p score gate c r e =
      let scored : DocumentRow → DocumentRow = λ d. record d { quality_score = some score } in
      Reports-Passes gate p p.store r.1
        (embedded cache sv pb doc p (on_document sv.pool doc scored p.store) r) e
        (on_document-Reports sv.pool scored p p.store r.1
          (embedded cache sv pb doc p (on_document sv.pool doc scored p.store) r)
          (embedded-Reports cache sv pb doc p (on_document sv.pool doc scored p.store) r))
  decided-Passes false p score gate c r e =
      reject-collections cache sv pb doc sv.pool score gate.reason p.store

  publish-Passes :
      (p : Progress) (score : ℕ) (gate : Gate) (c : cache.Store)
      → Passes gate p p.store
          (embed_texts cache pb.setup pb.provider pb.now (out_texts p.outs) c).1
          (publish cache sv pb doc p score gate c)
  unfolding publish
  publish-Passes p score gate c =
      decided-Passes gate.allowed p score gate c
        (embed_texts cache pb.setup pb.provider pb.now (out_texts p.outs) c) refl

  -- The same of a gate that may raise.
  abbrev Gated :
      Option Gate → Progress → Store → Option (List Vector) → World cache × Outcome → Type 0
  Gated o p s given (w, ok r) =
      (gate : Gate) × (o ≡ some gate)
      × (gate.allowed ≡ true)
      × Reports cache sv pb doc p s given (w, ok r)
  Gated o p s given (w, _) = w.store.collections ≡ s.collections

  Passes-Gated :
      (gate : Gate) (p : Progress) (s : Store) (given : Option (List Vector))
      (out : World cache × Outcome)
      → Passes gate p s given out
      → Gated (some gate) p s given out
  Passes-Gated gate p s given (w, ok r) (e, h) = (gate, refl, e, h)
  Passes-Gated gate p s given (w, pii_blocked) h = h
  Passes-Gated gate p s given (w, raised_error) h = h
  Passes-Gated gate p s given (w, rejected b) h = h

  -- What the engine's gate answers.
  abbrev gate_for : ℕ → Option Gate
  gate_for score = check_opa_quality_gate sv.float_reads sv.engine doc.source_type score

  -- What `quality` makes of the texts that are to be stored and of the entities in all chunks.
  abbrev score_of : (Document → String → ℕ → Option ℕ) → List ChunkOut → ℕ
  score_of quality outs =
      get_or (quality doc (join_blank (out_texts outs)) (entities_in sv doc doc.chunks)) 0

  gated-Passes :
      (p : Progress) (score : ℕ) (o : Option Gate) (c : cache.Store)
      → Gated o p p.store
          (embed_texts cache pb.setup pb.provider pb.now (out_texts p.outs) c).1
          (gated cache sv pb doc p score o c)
  unfolding gated
  gated-Passes p score none c = refl
  gated-Passes p score (some gate) c =
      Passes-Gated gate p p.store
        (embed_texts cache pb.setup pb.provider pb.now (out_texts p.outs) c).1
        (publish cache sv pb doc p score gate c) (publish-Passes p score gate c)

  -- What a document that is let through leaves, over the store and the cache before it.
  abbrev pub IsIngested : (Document → String → ℕ → Option ℕ) → World cache → Store → Type 0
  IsIngested quality w s =
      (outs : List ChunkOut) × (vs : List Vector) × (l0 : List Point) × (l1 : List Point)
      × AllGuarded sv doc 0 doc.chunks s outs
      × ((embed_texts cache pb.setup pb.provider pb.now (out_texts outs) w.cached).1 ≡ some vs)
      × IsLayer cache sv pb doc "L0" (layer_texts cache pb doc "L0" (build_points pb doc 0 outs vs))
          l0
      × IsLayer cache sv pb doc "L1" (layer_texts cache pb doc "L1" (build_points pb doc 0 outs vs))
          l1
      × (points_of doc.collection s
          ≡ points_of doc.collection w.store ++ (build_points pb doc 0 outs vs ++ (l0 ++ l1)))
      × ((gate : Gate) × (gate_for (score_of quality outs) ≡ some gate) × (gate.allowed ≡ true))

  abbrev Final : (Document → String → ℕ → Option ℕ) → World cache → World cache × Outcome → Type 0
  Final quality w (w', ok r) = IsIngested quality w w'.store
  Final quality w (w', o) = w'.store.collections ≡ w.store.collections

  AllGuarded-vault :
      (i : ℕ) (cs : List String) (s s' : Store) (outs : List ChunkOut)
      → s'.vault ≡ s.vault
      → AllGuarded sv doc i cs s outs
      → AllGuarded sv doc i cs s' outs
  AllGuarded-vault i [] s s' [] e h = h
  AllGuarded-vault i (c ∷ cs) s s' (o ∷ os) e ((at, shown, kept), h) = (
    (at, shown, λ id r. ap (any (is_original doc i c id)) e ∙ kept id r),
    AllGuarded-vault (i + 1) cs s s' os e h,
  )
  AllGuarded-vault i [] s s' (o ∷ os) e h = h
  AllGuarded-vault i (c ∷ cs) s s' [] e h = h

  abbrev started : World cache → Progress
  started w = record {
    policy = none;
    pii_detected = false;
    pii_entities = 0;
    outs = [];
    store = pre_create sv.pool doc w.store;
  }

  pre_create-collections :
      (pool : Pool) (s : Store) → (pre_create pool doc s).collections ≡ s.collections
  unfolding pre_create
  pre_create-collections absent s = refl
  pre_create-collections working s = refl
  pre_create-collections failing s = refl

  Gated-Final :
      (quality : Document → String → ℕ → Option ℕ) (w : World cache) (p : Progress)
      (out : World cache × Outcome)
      → p.store.collections ≡ w.store.collections
      → AllGuarded sv doc 0 doc.chunks p.store p.outs
      → Gated
          (gate_for (score_of quality p.outs))
          p
          p.store
          (embed_texts cache pb.setup pb.provider pb.now (out_texts p.outs) w.cached).1
          out
      → Final quality w out
  unfolding points_of
  Gated-Final quality w p (w', ok r) e all
        (gate, answer, passed, (vs, given, (l0, l1, i, j, (grown, vault)))) =
      (
        p.outs,
        vs,
        l0,
        l1,
        AllGuarded-vault 0 doc.chunks p.store w'.store p.outs vault all,
        given,
        i,
        j,
        grown
            ∙ ap
                (λ cs.
                  get_or (lookup doc.collection cs) []
                  ++ (build_points pb doc 0 p.outs vs ++ (l0 ++ l1)))
                e,
        (gate, answer, passed),
      )
  Gated-Final quality w p (w', pii_blocked) e all h = h ∙ e
  Gated-Final quality w p (w', raised_error) e all h = h ∙ e
  Gated-Final quality w p (w', rejected b) e all h = h ∙ e

  -- The score is of the entities that the loop has counted.
  scored-Gated :
      (quality : Document → String → ℕ → Option ℕ) (w : World cache) (p : Progress)
      → p.pii_entities ≡ entities_in sv doc doc.chunks
      → Gated
          (gate_for (score_of quality p.outs))
          p
          p.store
          (embed_texts cache pb.setup pb.provider pb.now (out_texts p.outs) w.cached).1
          (let score = get_or (quality doc (join_blank (out_texts p.outs)) p.pii_entities) 0 in
            gated cache sv pb doc p score (gate_for score) w.cached)
  scored-Gated quality w p e =
      subst
        (λ n.
          let score = get_or (quality doc (join_blank (out_texts p.outs)) n) 0 in
          Gated (gate_for (score_of quality p.outs)) p p.store
            (embed_texts cache pb.setup pb.provider pb.now (out_texts p.outs) w.cached).1
            (gated cache sv pb doc p score (gate_for score) w.cached))
        (sym e)
        (gated-Passes p (score_of quality p.outs) (gate_for (score_of quality p.outs)) w.cached)

  after_chunks-Final :
      (quality : Document → String → ℕ → Option ℕ) (w : World cache) (t : Step)
      → process_chunks sv doc 0 doc.chunks (started w) ≡ t
      → (store_of t).collections ≡ w.store.collections
      → Final quality w (after_chunks cache sv pb quality doc w.cached t)
  unfolding after_chunks
  after_chunks-Final quality w (blocked s) h e = e
  after_chunks-Final quality w (raised s) h e = e
  after_chunks-Final quality w (next p) h e =
      let score = get_or (quality doc (join_blank (out_texts p.outs)) p.pii_entities) 0 in
      let (new, outs, all) = process_chunks-guarded sv doc doc.chunks (started w) p h in
      Gated-Final quality w p (gated cache sv pb doc p score (gate_for score) w.cached) e
        (subst (AllGuarded sv doc 0 doc.chunks p.store) (sym outs) all)
        (scored-Gated quality w p
          (omega (arith, process_chunks-entities sv doc doc.chunks (started w) p h)))

  ingest_text_chunks-Final :
      (quality : Document → String → ℕ → Option ℕ) (w : World cache)
      → Final quality w (ingest_text_chunks cache sv pb quality doc w)
  unfolding ingest_text_chunks
  ingest_text_chunks-Final quality w =
      after_chunks-Final quality w (process_chunks sv doc 0 doc.chunks (started w)) refl (
        (process_chunks-Grows sv doc doc.chunks (started w)).1
        ∙ pre_create-collections sv.pool w.store)

  -- A document that is blocked, rejected, or ends in an exception leaves every collection as it was.
  pub ingest_text_chunks-nothing :
      (quality : Document → String → ℕ → Option ℕ) (w : World cache)
      → ((r : Summary) → (ingest_text_chunks cache sv pb quality doc w).1 ≢ ok r)
      → (ingest_text_chunks cache sv pb quality doc w).0.store.collections ≡ w.store.collections
  ingest_text_chunks-nothing quality w not_ok =
      go (ingest_text_chunks cache sv pb quality doc w) (ingest_text_chunks-Final quality w) not_ok
    where
      go :
          (out : World cache × Outcome)
          → Final quality w out
          → ((r : Summary) → out.1 ≢ ok r)
          → out.0.store.collections ≡ w.store.collections
      go (w', ok r) h f = absurd (f r refl)
      go (w', pii_blocked) h f = h
      go (w', raised_error) h f = h
      go (w', rejected b) h f = h

  -- If what the engine replies about the document's classification and its legal basis says to block,
  -- names no action or is no such reply at all, as when the engine cannot be asked or has no rule,
  -- the scans go through and one finds PII, then the document is blocked.
  pub ingest_text_chunks-blocked :
      (quality : Document → String → ℕ → Option ℕ) (w : World cache)
      → Blocks (answer (sv.engine "pb/privacy" (privacy_input doc)))
      → All (λ c. verified_scan sv c ≢ none) doc.chunks
      → any (finds_pii sv doc) doc.chunks ≡ true
      → (ingest_text_chunks cache sv pb quality doc w).1 ≡ pii_blocked
  unfolding ingest_text_chunks after_chunks
  ingest_text_chunks-blocked quality w blocks scans found =
      let closed = check_opa_privacy-Blocks sv.engine doc blocks in
      let (s, e) = process_chunks-Blocks sv doc 0 doc.chunks (started w) closed scans found in
      ap (λ t. (after_chunks cache sv pb quality doc w.cached t).1) e ∙ blocked_answer quality w s
    where
      blocked_answer :
          (quality : Document → String → ℕ → Option ℕ) (w : World cache) (s : Store)
          → (after_chunks cache sv pb quality doc w.cached (blocked s)).1 ≡ pii_blocked
      blocked_answer quality w s = refl
