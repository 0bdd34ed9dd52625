-- ===== src/Store.antt =====
-- What the services share: the collections of Qdrant and the tables of PostgreSQL that hold
-- documents, as far as ingestion (ingestion/ingestion_api.py) and deletion (mcp-server/server.py)
-- write them. init-db/ declares the tables; the vault's rows go with their document's row.
use powerbrain.Base.{
  ℕ, String, Bool, ◌&&◌, not, Option, List, [], ◌∷◌, ◌++◌, keep, any, str_eq, get_or, if◌then◌else◌,
}
use powerbrain.Base.Dict.{Dict, lookup, insert}
use powerbrain.Base.Json.{Json, Fields}

pub record Point : Type 0 where
  pub id : String
  pub vector : List ℕ
  pub payload : Fields

-- documents_meta
pub record DocumentRow : Type 0 where
  pub id : String
  pub source : String
  pub source_type : Option String
  pub project : Option String
  pub collection : String
  pub classification : String
  pub chunk_count : ℕ
  pub contains_pii : Bool
  pub quality_score : Option ℕ
  pub metadata : Fields
  pub l0_point_id : Option String
  pub l1_point_id : Option String

pub record VaultEntity : Type 0 where
  pub kind : String
  pub text : String
  pub start : ℕ
  pub stop : ℕ

-- pii_vault.original_content
pub record VaultRow : Type 0 where
  pub id : String
  pub document_id : String
  pub chunk_index : ℕ
  pub original_text : String
  pub pii_entities : List VaultEntity
  pub retention_days : ℕ
  pub data_category : Option Json

-- pii_vault.pseudonym_mapping
pub record MappingRow : Type 0 where
  pub document_id : String
  pub chunk_index : ℕ
  pub pseudonym : String
  pub entity_type : String
  pub salt : String

-- ingestion_rejections and pii_scan_log, the columns that tell one row from another.
pub record Rejection : Type 0 where
  pub source_type : String
  pub project : Option String
  pub classification : String
  pub quality_score : ℕ
  pub reason : String

pub record ScanLine : Type 0 where
  pub source : String
  pub entities_found : Dict ℕ
  pub action_taken : String
  pub classification : String

pub record Store : Type 0 where
  pub collections : Dict (List Point)
  pub documents : List DocumentRow
  pub vault : List VaultRow
  pub mappings : List MappingRow
  pub rejections : List Rejection
  pub scans : List ScanLine
  pub salts : Dict String

unfoldable pub points_of : String → Store → List Point
unfolding lookup
points_of c s = get_or (lookup c s.collections) []

-- `qdrant.upsert` of points with new ids.
unfoldable pub upsert : String → List Point → Store → Store
unfolding points_of insert
upsert c ps s = record s { collections = insert c (points_of c s ++ ps) s.collections }

-- `UPDATE documents_meta … WHERE id = …`
unfoldable pub update_document :
    String → (DocumentRow → DocumentRow) → List DocumentRow → List DocumentRow
update_document i f [] = []
update_document i f (d ∷ ds) = (if str_eq d.id i then f d else d) ∷ update_document i f ds

-- `DELETE FROM documents_meta` of some rows; the vault references them ON DELETE CASCADE.
unfoldable pub delete_documents_where : (DocumentRow → Bool) → Store → Store
delete_documents_where p s = record s {
  documents = keep (λ d. not (p d)) s.documents;
  vault = keep (λ v. not (any (λ d. p d && str_eq d.id v.document_id) s.documents)) s.vault;
  mappings = keep (λ m. not (any (λ d. p d && str_eq d.id m.document_id) s.documents)) s.mappings;
}
