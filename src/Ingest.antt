-- ===== src/Ingest.antt =====
-- ingestion/ingestion_api.py: from the chunks of a document to the privacy decision on each of them
-- (this file), and from there to the collections (Publish). The scanner of ingestion/pii_scanner.py,
-- the model behind the verifier, the policy engine and what is drawn at random are fields of the
-- services. Metrics and log lines are left out.
pub mod Chunks
pub mod Embedding
pub mod Points
pub mod Publish
mod Privacy
mod Pipeline
mod Entities
mod Closed
mod Examples
use powerbrain.Base.{
  ℕ, zero, suc, ◌+◌, ◌-◌, String, Bool, true, false, ◌&&◌, ◌||◌, not, Option, none, some, List, [],
  ◌∷◌, ◌++◌, map, str_eq, truthy, and_then, get_or, if◌then◌else◌,
}
use powerbrain.Base.Dict.{Dict, lookup, insert}
use powerbrain.Base.Json.{Json, Fields, truth, member}
use powerbrain.Base.Text.{text_slice}
use powerbrain.Opa.{Engine, OpaResult, result, missing, unreachable, failed, opa_query}
use powerbrain.PiiVerify.{
  Location, Candidate, Scan, is_empty, build_candidates_from_locations, create_pii_verify_provider,
  verify, apply_verdicts_to_scan_result,
}
use powerbrain.Store.{DocumentRow, VaultEntity, VaultRow, MappingRow, ScanLine, Store}

-- `pg_pool`: none, one whose statements succeed, or one whose statements raise.
pub data Pool : Type 0 where
  absent working failing : Pool

pub record Services : Type 0 where
  pub scan : String → Scan
  pub mask_text : String → String
  pub pseudonymize_text : String → String → String × Dict String
  pub engine : Engine
  pub float_reads : String → Bool
  pub verifier_enabled_default : Bool
  pub verifier_backend_default : String
  pub verifier_url : String
  pub verifier_model : String
  pub llm_review : List Candidate → Option (List Bool)
  pub pool : Pool
  pub fresh_salt : ℕ → String
  pub fresh_vault_id : ℕ → String

pub record Document : Type 0 where
  pub doc_id : String
  pub chunks : List String
  pub collection : String
  pub source : String
  pub classification : String
  pub project : Option String
  pub metadata : Fields
  pub source_type : String

-- `str(v)`; what is no text is the name of no backend.
abbrev backend_of : Json → String
backend_of (Json.str s) = s
backend_of _ = "unknown"

pub record VerifierPolicy : Type 0 where
  pub enabled : Bool
  pub backend : String

abbrev json_bool : Option Json → Bool → Bool
json_bool none d = d
json_bool (some v) d = truth v

abbrev json_backend : Option Json → String → String
json_backend none d = d
json_backend (some v) d = backend_of v

-- Whether `float` takes a value, which it raises on else; the services know which texts it reads.
abbrev pub is_float : (String → Bool) → Option Json → Bool
is_float reads none = true
is_float reads (some (Json.bool b)) = true
is_float reads (some (Json.num n)) = true
is_float reads (some (Json.str s)) = reads s
is_float reads (some _) = false

-- `none` is the exception of `float(data.get("min_confidence_keep", …))`.
abbrev verifier_policy : (String → Bool) → Bool → String → OpaResult → Option VerifierPolicy
verifier_policy reads enabled backend (result (Json.obj fs)) =
    if is_float reads (member "min_confidence_keep" fs)
    then some (record {
      enabled = json_bool (member "enabled" fs) enabled;
      backend = json_backend (member "backend" fs) backend;
    })
    else none
verifier_policy reads enabled backend _ = some (record { enabled = enabled; backend = backend })

check_opa_pii_verifier : Services → Option VerifierPolicy
unfolding opa_query member
check_opa_pii_verifier sv =
    verifier_policy sv.float_reads sv.verifier_enabled_default sv.verifier_backend_default
      (opa_query sv.engine "pb/config/ingestion/pii_verifier" (Json.obj Fields.end))

-- An exception of the provider leaves the scan as it was; one of the reducer is raised.
abbrev pub filtered : Scan → Option (List Bool) → Option Scan
filtered scan none = some scan
filtered scan (some ks) = apply_verdicts_to_scan_result scan.entity_locations ks

abbrev pub verdicts : {A : Type 0} → Option (List Bool × A) → Option (List Bool)
verdicts none = none
verdicts (some (ks, _)) = some ks

verified_by : Services → String → Scan → VerifierPolicy → Option Scan
unfolding create_pii_verify_provider verify apply_verdicts_to_scan_result
verified_by sv text scan policy =
    if not policy.enabled || (str_eq policy.backend "noop" || is_empty scan.entity_locations)
    then some scan
    else filtered scan (
        verdicts (
          verify
            (create_pii_verify_provider policy.backend sv.verifier_url sv.verifier_model
              sv.llm_review)
            (build_candidates_from_locations text scan.entity_locations)))

apply_pii_verifier : Services → String → Scan → Option Scan
unfolding check_opa_pii_verifier verified_by
apply_pii_verifier sv text scan = and_then (check_opa_pii_verifier sv) (verified_by sv text scan)

-- What `check_opa_privacy` returns. A retention that is no number makes the vault raise.
pub record PrivacyPolicy : Type 0 where
  pub pii_action : String
  pub dual_storage : Bool
  pub retention_days : Option ℕ

abbrev block_all : PrivacyPolicy
block_all = record { pii_action = "block"; dual_storage = false; retention_days = some 365 }

-- An action that is no text is none of the actions that are compared with.
abbrev action_of : Option Json → String
action_of none = "block"
action_of (some (Json.str s)) = s
action_of (some _) = ""

abbrev days_of : Option Json → Option ℕ
days_of none = some 365
days_of (some (Json.num n)) = some n
days_of (some _) = none

abbrev pub privacy_policy : OpaResult → PrivacyPolicy
privacy_policy (result (Json.obj fs)) = record {
  pii_action = action_of (member "pii_action" fs);
  dual_storage = json_bool (member "dual_storage_enabled" fs) false;
  retention_days = days_of (member "retention_days" fs);
}
privacy_policy _ = block_all

-- `legal_basis or ""`
abbrev pub legal_basis_of : Option Json → Json
legal_basis_of none = Json.str ""
legal_basis_of (some v) = if truth v then v else Json.str ""

pub check_opa_privacy : Engine → String → Fields → PrivacyPolicy
unfolding opa_query member
check_opa_privacy engine classification metadata = privacy_policy (
    opa_query engine "pb/privacy" (
      Json.obj (
        Fields.field "classification" (Json.str classification) (
          Fields.field "contains_pii" (Json.bool true) (
            Fields.field "legal_basis" (legal_basis_of (member "legal_basis" metadata))
              Fields.end)))))

-- `get_or_create_project_salt`: the table keeps the first salt; `none` is an exception.
abbrev salt_in : String → String → Dict String → Dict String × String
salt_in project fresh salts = elim (lookup project salts) [
  | none ↦ (insert project fresh salts, fresh)
  | some salt ↦ (salts, salt)
]

project_salt : Pool → String → String → Dict String → Option (Dict String × String)
unfolding lookup insert
project_salt absent project fresh salts = some (salts, fresh)
project_salt working project fresh salts = some (salt_in project fresh salts)
project_salt failing project fresh salts = none

pub get_or_create_project_salt :
    Pool → Option String → String → Dict String → Option (Dict String × String)
unfolding project_salt
get_or_create_project_salt pool none fresh salts = some (salts, fresh)
get_or_create_project_salt pool (some project) fresh salts =
    if truthy project then project_salt pool project fresh salts else some (salts, fresh)

-- The entities with their texts, and the type that a mapping row gets.
pub vault_entity : String → Location → VaultEntity
unfolding text_slice
vault_entity chunk l = record {
  kind = l.kind;
  text = text_slice l.start l.stop chunk;
  start = l.start;
  stop = l.stop;
}

type_of : String → List VaultEntity → String
type_of original [] = "UNKNOWN"
type_of original (e ∷ es) = if str_eq e.text original then e.kind else type_of original es

mapping_rows : String → ℕ → String → List VaultEntity → Dict String → List MappingRow
unfolding type_of
mapping_rows doc_id i salt es [] = []
mapping_rows doc_id i salt es ((original, pseudonym) ∷ m) =
    record {
      document_id = doc_id;
      chunk_index = i;
      pseudonym = pseudonym;
      entity_type = type_of original es;
      salt = salt;
    }
    ∷ mapping_rows doc_id i salt es m

pub vault_row : Document → ℕ → String → String → List VaultEntity → ℕ → VaultRow
unfolding member
vault_row doc i vault_id chunk es days = record {
  id = vault_id;
  document_id = doc.doc_id;
  chunk_index = i;
  original_text = chunk;
  pii_entities = es;
  retention_days = days;
  data_category = member "data_category" doc.metadata;
}

-- `store_in_vault` in its transaction.
pub store_in_vault :
    Document → ℕ → String → String → List VaultEntity → Dict String → String → ℕ → Store → Store
unfolding mapping_rows vault_row
store_in_vault doc i vault_id chunk es mapping salt days s = record s {
  vault = s.vault ++ vault_row doc i vault_id chunk es days ∷ [];
  mappings = s.mappings ++ mapping_rows doc.doc_id i salt es mapping;
}

-- `log_pii_scan` logs its own failure.
pub log_pii_scan : Pool → Document → Scan → String → Store → Store
log_pii_scan working doc scan action s = record s {
  scans =
      s.scans
      ++ record {
        source = doc.source;
        entities_found = scan.entity_counts;
        action_taken = action;
        classification = doc.classification;
      }
        ∷ [];
}
log_pii_scan _ doc scan action s = s

-- A chunk that has been processed, with its place, and the state of the loop over the chunks.
pub record ChunkOut : Type 0 where
  pub text : String
  pub vault_ref : Option String
  pub contains_pii : Bool
  pub chunk_index : ℕ

pub record Progress : Type 0 where
  pub policy : Option PrivacyPolicy
  pub pii_detected : Bool
  pub pii_entities : ℕ
  pub outs : List ChunkOut
  pub store : Store

pub data Step : Type 0 where
  next : Progress → Step
  blocked raised : Store → Step

abbrev pub sum_counts : Dict ℕ → ℕ
sum_counts [] = 0
sum_counts ((_, n) ∷ d) = n + sum_counts d

abbrev pub put_out : ChunkOut → Progress → Progress
put_out o p = record p { outs = p.outs ++ o ∷ [] }

-- The vault's part of dual storage; `none` is an exception, after which the salt stays created.
pub vaulted :
    Pool
    → Services
    → Document
    → ℕ
    → String
    → Scan
    → Dict String
    → String
    → Option ℕ
    → Store
    → Option (Store × Option String)
unfolding store_in_vault vault_entity
vaulted absent sv doc i chunk scan mapping salt days s = some (s, none)
vaulted failing sv doc i chunk scan mapping salt days s = none
vaulted working sv doc i chunk scan mapping salt days s = and_then days (λ d. some (
  store_in_vault doc i (sv.fresh_vault_id i) chunk (map (vault_entity chunk) scan.entity_locations)
      mapping salt d s,
  some (sv.fresh_vault_id i),
))

abbrev pub pseudonymized :
    Services
    → Document
    → ℕ
    → Scan
    → String
    → Progress
    → Store
    → Option (Store × Option String)
    → Step
pseudonymized sv doc i scan text p s none = raised s
pseudonymized sv doc i scan text p s (some (s', vault_ref)) = next (
    put_out (record { text = text; vault_ref = vault_ref; contains_pii = true; chunk_index = i })
      (record p { store = log_pii_scan sv.pool doc scan "pseudonymize" s' }))

pub dual_store : Services → Document → ℕ → String → Scan → PrivacyPolicy → Progress → Step
unfolding get_or_create_project_salt vaulted log_pii_scan
dual_store sv doc i chunk scan policy p =
    elim (get_or_create_project_salt sv.pool doc.project (sv.fresh_salt i) p.store.salts) [
      | none ↦ raised p.store
      | some (salts, salt) ↦
          let s = record p.store { salts = salts } in
          let (text, mapping) = sv.pseudonymize_text chunk salt in
          pseudonymized sv doc i scan text p s
            (vaulted sv.pool sv doc i chunk scan mapping salt policy.retention_days s)
    ]

pub mask : Services → Document → ℕ → String → Scan → Progress → Step
unfolding log_pii_scan
mask sv doc i chunk scan p = next (
    put_out
      (record { text = sv.mask_text chunk; vault_ref = none; contains_pii = true; chunk_index = i })
      (record p { store = log_pii_scan sv.pool doc scan "mask" p.store }))

-- What the policy makes of a chunk with PII.
pub obey : Services → Document → ℕ → String → Scan → PrivacyPolicy → Progress → Step
unfolding dual_store mask log_pii_scan
obey sv doc i chunk scan policy p =
    if str_eq policy.pii_action "block"
    then blocked (log_pii_scan sv.pool doc scan "block" p.store)
    else if (str_eq policy.pii_action "pseudonymize"
          || str_eq policy.pii_action "encrypt_and_store")
        && policy.dual_storage
    then dual_store sv doc i chunk scan policy p
    else mask sv doc i chunk scan p

-- The engine is asked at the first chunk with PII only.
abbrev pub policy_for : Services → Document → Option PrivacyPolicy → PrivacyPolicy
policy_for sv doc none = check_opa_privacy sv.engine doc.classification doc.metadata
policy_for sv doc (some policy) = policy

abbrev pub noted : Services → Document → Scan → Progress → Progress
noted sv doc scan p = record p {
  policy = some (policy_for sv doc p.policy);
  pii_detected = true;
  pii_entities = p.pii_entities + sum_counts scan.entity_counts;
}

abbrev pub clean_out : ℕ → String → ChunkOut
clean_out i chunk = record { text = chunk; vault_ref = none; contains_pii = false; chunk_index = i }

pub process_scan : Services → Document → ℕ → String → Progress → Scan → Step
unfolding obey check_opa_privacy
process_scan sv doc i chunk p scan =
    if scan.contains_pii
    then obey sv doc i chunk scan (policy_for sv doc p.policy) (noted sv doc scan p)
    else next (put_out (clean_out i chunk) p)

-- The scan that counts: the verifier goes over one with PII.
pub verified_scan : Services → String → Option Scan
unfolding apply_pii_verifier
verified_scan sv chunk =
    let scan = sv.scan chunk in
    if scan.contains_pii then apply_pii_verifier sv chunk scan else some scan

pub process_chunk : Services → Document → ℕ → String → Progress → Step
unfolding verified_scan process_scan
process_chunk sv doc i chunk p = elim (verified_scan sv chunk) [
  | none ↦ raised p.store
  | some scan ↦ process_scan sv doc i chunk p scan
]

pub process_chunks : Services → Document → ℕ → List String → Progress → Step
unfolding process_chunk
process_chunks sv doc i [] p = next p
process_chunks sv doc i (c ∷ cs) p = elim (process_chunk sv doc i c p) [
  | next p' ↦ process_chunks sv doc (i + 1) cs p'
  | blocked s ↦ blocked s
  | raised s ↦ raised s
]
