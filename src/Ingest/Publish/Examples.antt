-- ===== src/Ingest/Publish/Examples.antt =====
-- Runs of `ingest_text_chunks` of ingestion/ingestion_api.py over concrete services, and the theorems
-- there.
use Prim.Native.String.{◌++◌}
use powerbrain.Base.{
  ℕ, ◌≡◌, ◌≢◌, refl, subst, some_injective, inr, String, Bool, true, false, Option, none, some, [],
  ◌∷◌, str_eq, any, if◌then◌else◌,
}
use powerbrain.Base.Dict.{lookup, insert}
use powerbrain.Base.Json.{Json, Fields, member}
use powerbrain.Base.Text.{starts_with}
use powerbrain.Opa.{Engine, Reply, Cache}
use powerbrain.PiiVerify.{Scan}
use powerbrain.Ingest.{Pool, Services, Document, verified_scan}
use powerbrain.Ingest.Pipeline.{finds_pii}
use powerbrain.Ingest.Embedding.{Vector}
use powerbrain.Ingest.Points.{Publisher, payload}
use powerbrain.Ingest.Publish.{
  Gate, check_opa_quality_gate, Outcome, ok, pii_blocked, rejected, Summary, World,
  ingest_text_chunks,
}
use powerbrain.Ingest.Publish.Blocking.{ingest_text_chunks-nothing, ingest_text_chunks-blocked}
use powerbrain.Ingest.Publish.Refusal.{IsGone, ingest_text_chunks-rejected}

no_answer : (x : Vector) → ◌≡◌ {A = Option Vector} none (some x) → ⊥
no_answer x e = cc

-- A cache that forgets.
abbrev forgets : Cache Vector
forgets = record {
  Store = Unit;
  get = λ now j c. none;
  put = λ now k v c. c;
  get-put = λ now then' j k v x c e. absurd (no_answer x e);
}

name_scan : String → Scan
unfolding starts_with
name_scan t =
    if starts_with "Anna" t
    then record {
      contains_pii = true;
      entity_counts = ("PERSON", 1) ∷ [];
      entity_locations = record { kind = "PERSON"; start = 0; stop = 4 } ∷ [];
    }
    else record { contains_pii = false; entity_counts = []; entity_locations = [] }

abbrev result_with : String → Json → Fields
result_with k v = Fields.field "result" (Json.obj (Fields.field k v Fields.end)) Fields.end

abbrev engine : String → Bool → Engine
engine action allowed path input =
    if str_eq path "pb/privacy"
    then Reply.body (
        Fields.field "result"
          (Json.obj (
            Fields.field "pii_action" (Json.str action)
              (Fields.field "dual_storage_enabled" (Json.bool true) Fields.end)))
          Fields.end)
    else if str_eq path "pb/ingestion/quality_gate"
    then Reply.body (result_with "allowed" (Json.bool allowed))
    else Reply.body Fields.end

abbrev services : String → Bool → Services
services action allowed = record {
  scan = name_scan;
  mask_text = λ t. "***";
  pseudonymize_text = λ t salt. (salt ++ " calls", ("Anna", salt) ∷ []);
  engine = engine action allowed;
  float_reads = λ s. false;
  verifier_enabled_default = false;
  verifier_backend_default = "noop";
  verifier_url = "";
  verifier_model = "";
  llm_review = λ cs. none;
  pool = Pool.working;
  fresh_salt = λ i. "s1";
  fresh_vault_id = λ i. "v1";
}

abbrev publisher : Publisher
publisher = record {
  setup = record { enabled = true; sha256 = λ s. s; model = "m" };
  provider = record {
    single = λ t. some (1 ∷ []);
    batch = λ ts. some ((1, 20 ∷ []) ∷ (0, 10 ∷ []) ∷ []);
  };
  now = 0;
  now_iso = "2026";
  show = λ n. "n";
  takes = λ layer. true;
  new_id = λ layer n. layer;
  layers_enabled = true;
  complete = λ layer prompt. if str_eq layer "L0" then some "about calls" else none;
}

abbrev note : Document
note = record {
  doc_id = "d1";
  chunks = "Anna calls" ∷ "no name" ∷ [];
  collection = "pb_general";
  source = "notes";
  classification = "internal";
  project = some "p";
  metadata = Fields.field "classification" (Json.str "public") Fields.end;
  source_type = "text";
}

abbrev nothing : World forgets
nothing = record {
  cached = tt;
  store = record {
    collections = [];
    documents = [];
    vault = [];
    mappings = [];
    rejections = [];
    scans = [];
    salts = [];
  };
}

abbrev quality : Document → String → ℕ → Option ℕ
quality doc text n = some 7

abbrev ingest : String → Bool → World forgets × Outcome
ingest action allowed =
    ingest_text_chunks forgets (services action allowed) publisher quality note nothing

abbrev summary : Summary
summary = record {
  chunks_ingested = 2;
  pii_detected = true;
  dual_storage = true;
  l0_point_id = some "L0";
  l1_point_id = none;
}

summary_run : (ingest "pseudonymize" true).1 ≡ ok summary
unfolding ingest_text_chunks name_scan
summary_run = refl

-- What the collection holds: pseudonyms, under the class that the metadata claims.
points_run :
    lookup "pb_general" (ingest "pseudonymize" true).0.store.collections
    ≡ some (
        record {
          id = "L2";
          vector = 10 ∷ [];
          payload = payload publisher note "s1 calls" 0 true (some "v1") "L2";
        }
        ∷ record {
          id = "L2";
          vector = 20 ∷ [];
          payload = payload publisher note "no name" 1 false none "L2";
        }
        ∷ record {
          id = "L0";
          vector = 1 ∷ [];
          payload = payload publisher note "about calls" 0 false none "L0";
        }
        ∷ [])
unfolding ingest_text_chunks name_scan lookup insert
points_run = refl

blocked_run : (ingest "block" true).1 ≡ pii_blocked
unfolding ingest_text_chunks name_scan
blocked_run = refl

ingest_text_chunks-nothing_example :
    (ingest "block" true).0.store.collections ≡ nothing.store.collections
ingest_text_chunks-nothing_example =
    ingest_text_chunks-nothing forgets (services "block" true) publisher note quality nothing
      (λ r e. let e' = rw blocked_run at e in cc)

scan_run : verified_scan (services "block" true) "Anna calls" ≡ some (name_scan "Anna calls")
unfolding verified_scan name_scan
scan_run = refl

no_scan_run : verified_scan (services "block" true) "no name" ≡ some (name_scan "no name")
unfolding verified_scan name_scan
no_scan_run = refl

scanned : (o : Option Scan) (scan : Scan) → o ≡ some scan → o ≢ none
scanned o scan e n = cc

found_run : any (finds_pii (services "block" true) note) note.chunks ≡ true
unfolding finds_pii verified_scan name_scan
found_run = refl

ingest_text_chunks-blocked_example : (ingest "block" true).1 ≡ pii_blocked
unfolding member
ingest_text_chunks-blocked_example =
    ingest_text_chunks-blocked forgets (services "block" true) publisher note quality nothing
      (inr refl)
      (
        scanned _ (name_scan "Anna calls") scan_run,
        (scanned _ (name_scan "no name") no_scan_run, tt),
      )
      found_run

rejected_run : (ingest "mask" false).1 ≡ rejected true
unfolding ingest_text_chunks name_scan
rejected_run = refl

-- This engine names no reason.
no_reason :
    (score : ℕ) (gate : Gate)
    → check_opa_quality_gate (λ s. false) (engine "mask" false) note.source_type score ≡ some gate
    → (r : String) × (gate.reason ≡ some r)
unfolding check_opa_quality_gate
no_reason score gate e =
    subst (λ (g : Gate). (r : String) × (g.reason ≡ some r)) (some_injective _ gate e) ("", refl)

ingest_text_chunks-rejected_example : IsGone note (ingest "mask" false).0.store
unfolding ingest_text_chunks name_scan
ingest_text_chunks-rejected_example =
    ingest_text_chunks-rejected forgets (services "mask" false) publisher note quality nothing
      (ingest "mask" false).0 true refl no_reason refl

-- The class that the pipeline was given is not the one that is stored.
classification_run :
    member "classification" (payload publisher note "s1 calls" 0 true (some "v1") "L2")
    ≡ some (Json.str "public")
unfolding payload member
classification_run = refl
