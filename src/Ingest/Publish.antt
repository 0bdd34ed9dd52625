-- ===== src/Ingest/Publish.antt =====
-- ingestion/ingestion_api.py, `ingest_text_chunks`: the row of the document, the quality gate over the
-- processed chunks, the vectors, the points and the layers. The score of ingestion/quality.py, a
-- float there, is an argument that gives it in units of its own.
mod Contents
mod Refusal
mod Blocking
mod Examples
use powerbrain.Base.{
  ℕ, zero, suc, ◌+◌, String, Bool, true, false, ◌&&◌, Option, none, some, List, [], ◌∷◌, ◌++◌,
  length, any, is_some, keep, str_eq, truthy, get_or, map, if◌then◌else◌,
}
use powerbrain.Base.Json.{Json, Items, Fields, truth, member, set_field}
use powerbrain.Opa.{Engine, OpaResult, result, missing, unreachable, failed, opa_query, Cache}
use powerbrain.Store.{
  Point, DocumentRow, Rejection, Store, upsert, update_document, delete_documents_where,
}
use powerbrain.Ingest.{
  Pool, working, failing, absent, Services, Document, ChunkOut, Progress, Step, next, blocked,
  raised, is_float, process_chunks,
}
use powerbrain.Ingest.Embedding.{Vector, embed_texts}
use powerbrain.Ingest.Points.{
  Publisher, build_points, join_blank, texts_of, generate, Layered, upsert_layer,
}

-- The row that is there before the chunks are looked at. A failure is logged.
pub pre_create : Pool → Document → Store → Store
pre_create working doc s = record s {
  documents =
      s.documents
      ++ record {
        id = doc.doc_id;
        source = doc.source;
        source_type = none;
        project = none;
        collection = doc.collection;
        classification = doc.classification;
        chunk_count = 0;
        contains_pii = false;
        quality_score = none;
        metadata = doc.metadata;
        l0_point_id = none;
        l1_point_id = none;
      }
        ∷ [];
}
pre_create _ doc s = s

-- What the gate returns, less the required score, which is reported only. A reason that is true but
-- no text is `none`: the statement that is to store it raises.
pub record Gate : Type 0 where
  pub allowed : Bool
  pub reason : Option String

abbrev reason_of : Option Json → Option String
reason_of none = some ""
reason_of (some (Json.str s)) = some s
reason_of (some v) = if truth v then none else some ""

-- The text of the exception is left out of the reason.
abbrev refusal : String → Option Gate
refusal why = some (record { allowed = false; reason = some why })

-- `none` is the exception of `float(result.get("min_score", 0.0))`.
abbrev gate_of : (String → Bool) → OpaResult → Option Gate
gate_of reads (result (Json.obj fs)) =
    if is_float reads (member "min_score" fs)
    then some (record {
      allowed = truth (get_or (member "allowed" fs) (Json.bool false));
      reason = reason_of (member "reason" fs);
    })
    else none
gate_of reads (result _) = refusal "opa_unexpected_shape"
gate_of reads (missing p) = refusal "opa_policy_missing"
gate_of reads unreachable = refusal "opa_unreachable"
gate_of reads failed = refusal "opa_unreachable"

abbrev or_default : String → String
or_default s = if truthy s then s else "default"

pub check_opa_quality_gate : (String → Bool) → Engine → String → ℕ → Option Gate
unfolding opa_query member
check_opa_quality_gate reads engine source_type score = gate_of reads (
    opa_query engine "pb/ingestion/quality_gate" (
      Json.obj (
        Fields.field "source_type" (Json.str (or_default source_type))
          (Fields.field "quality_score" (Json.num score) Fields.end))))

-- `gate["reason"] or "quality_gate_denied"`
abbrev or_denied : String → String
or_denied s = if truthy s then s else "quality_gate_denied"

pub reject : Pool → Document → ℕ → Option String → Store → Store
unfolding delete_documents_where
reject working doc score (some reason) s =
    delete_documents_where (λ d. str_eq d.id doc.doc_id)
      (record s {
        rejections =
            s.rejections
            ++ record {
              source_type = doc.source_type;
              project = doc.project;
              classification = doc.classification;
              quality_score = score;
              reason = or_denied reason;
            }
              ∷ [];
      })
reject _ doc score reason s = s

pub on_document : Pool → Document → (DocumentRow → DocumentRow) → Store → Store
unfolding update_document
on_document working doc f s = record s { documents = update_document doc.doc_id f s.documents }
on_document _ doc f s = s

pub record Summary : Type 0 where
  pub chunks_ingested : ℕ
  pub pii_detected : Bool
  pub dual_storage : Bool
  pub l0_point_id : Option String
  pub l1_point_id : Option String

pub data Outcome : Type 0 where
  ok : Summary → Outcome
  pii_blocked raised_error : Outcome
  rejected : Bool → Outcome

abbrev pub out_texts : List ChunkOut → List String
out_texts [] = []
out_texts (o ∷ os) = o.text ∷ out_texts os

-- `[v for v in vault_refs if v]`, as JSON.
vault_refs : List ChunkOut → Items
vault_refs [] = Items.nil
vault_refs (o ∷ os) = elim o.vault_ref [
  | none ↦ vault_refs os
  | some v ↦ if truthy v then Items.cons (Json.str v) (vault_refs os) else vault_refs os
]

pub final_row : Document → Progress → ℕ → Option String → Option String → DocumentRow → DocumentRow
unfolding set_field vault_refs
final_row doc p n l0 l1 d = record d {
  chunk_count = n;
  contains_pii = p.pii_detected;
  metadata =
      set_field "vault_refs" (Json.arr (vault_refs p.outs))
        (set_field "pii_detected" (Json.bool p.pii_detected) doc.metadata);
  l0_point_id = l0;
  l1_point_id = l1;
}

module _ (cache : Cache Vector) where
  pub record World : Type 0 where
    pub cached : cache.Store
    pub store : Store

  -- Steps 6 and 7, which a document without points has no layers in.
  pub layer_texts : Publisher → Document → String → List Point → Option String
  unfolding generate texts_of
  layer_texts pb doc layer [] = none
  layer_texts pb doc layer (p ∷ ps) = generate pb doc layer (texts_of (p ∷ ps))

  pub finish :
      Services
      → Publisher
      → Document
      → Progress
      → List Point
      → cache.Store
      → Store
      → World × Outcome
  unfolding layer_texts upsert_layer on_document final_row
  finish sv pb doc p points c s =
      let l0 = upsert_layer cache pb doc "L0" (layer_texts pb doc "L0" points) c s in
      let l1 = upsert_layer cache pb doc "L1" (layer_texts pb doc "L1" points) l0.cached l0.store in
      (
        record {
          cached = l1.cached;
          store =
              on_document sv.pool doc (final_row doc p (length points) l0.point_id l1.point_id)
                l1.store;
        },
        ok (record {
          chunks_ingested = length points;
          pii_detected = p.pii_detected;
          dual_storage = any (λ o. is_some o.vault_ref) p.outs;
          l0_point_id = l0.point_id;
          l1_point_id = l1.point_id;
        }),
      )

  -- Step 5; a failure of the vector store is raised.
  pub store_points :
      Services
      → Publisher
      → Document
      → Progress
      → List Point
      → cache.Store
      → Store
      → World × Outcome
  unfolding finish upsert
  store_points sv pb doc p [] c s = finish sv pb doc p [] c s
  store_points sv pb doc p (x ∷ xs) c s =
      if pb.takes "L2"
      then finish sv pb doc p (x ∷ xs) c (upsert doc.collection (x ∷ xs) s)
      else (record { cached = c; store = s }, raised_error)

  pub embedded :
      Services
      → Publisher
      → Document
      → Progress
      → Store
      → cache.Store × Option (List Vector)
      → World × Outcome
  unfolding build_points store_points
  embedded sv pb doc p s (c, none) = (record { cached = c; store = s }, raised_error)
  embedded sv pb doc p s (c, some vs) =
      store_points sv pb doc p (build_points pb doc 0 p.outs vs) c s

  -- After the gate: it is refused, or the score is kept and the chunks are published.
  pub publish :
      Services → Publisher → Document → Progress → ℕ → Gate → cache.Store → World × Outcome
  unfolding reject embed_texts embedded on_document
  publish sv pb doc p score gate c =
      if gate.allowed
      then embedded sv pb doc p
          (on_document sv.pool doc (λ d. record d { quality_score = some score }) p.store)
          (embed_texts cache pb.setup pb.provider pb.now (out_texts p.outs) c)
      else (
        record { cached = c; store = reject sv.pool doc score gate.reason p.store },
        rejected p.pii_detected,
      )

  -- An exception of the gate leaves all that is there by then.
  pub gated :
      Services → Publisher → Document → Progress → ℕ → Option Gate → cache.Store → World × Outcome
  unfolding publish
  gated sv pb doc p score none c = (record { cached = c; store = p.store }, raised_error)
  gated sv pb doc p score (some gate) c = publish sv pb doc p score gate c

  pub after_chunks :
      Services
      → Publisher
      → (Document → String → ℕ → Option ℕ)
      → Document
      → cache.Store
      → Step
      → World × Outcome
  unfolding check_opa_quality_gate join_blank gated
  after_chunks sv pb quality doc c (blocked s) = (record { cached = c; store = s }, pii_blocked)
  after_chunks sv pb quality doc c (raised s) = (record { cached = c; store = s }, raised_error)
  after_chunks sv pb quality doc c (next p) =
      let score = get_or (quality doc (join_blank (out_texts p.outs)) p.pii_entities) 0 in
      gated sv pb doc p score
        (check_opa_quality_gate sv.float_reads sv.engine doc.source_type score) c

  pub ingest_text_chunks :
      Services → Publisher → (Document → String → ℕ → Option ℕ) → Document → World → World × Outcome
  unfolding pre_create process_chunks after_chunks
  ingest_text_chunks sv pb quality doc w = after_chunks sv pb quality doc w.cached (
      process_chunks sv doc 0 doc.chunks (record {
        policy = none;
        pii_detected = false;
        pii_entities = 0;
        outs = [];
        store = pre_create sv.pool doc w.store;
      }))
