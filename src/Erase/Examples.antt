-- ===== src/Erase/Examples.antt =====
-- The tool `delete_documents` of mcp-server/server.py on a concrete store, and the theorems there.
use powerbrain.Base.{◌≡◌, refl, String, Bool, true, false, Option, none, some, [], ◌∷◌}
use powerbrain.Base.Dict.{lookup, insert}
use powerbrain.Base.Json.{Json, Fields, member}
use powerbrain.Store.{Point, DocumentRow, VaultRow, Store, points_of}
use powerbrain.Erase.{DeleteRequest, DeleteAnswer, delete_documents}
use powerbrain.Erase.Reach.{Erased, delete_documents-erases}
use powerbrain.Erase.Gaps.{delete_documents-misses}

abbrev row : Option String → DocumentRow
row project = record {
  id = "d1";
  source = "notes";
  source_type = none;
  project = project;
  collection = "pb_general";
  classification = "internal";
  chunk_count = 1;
  contains_pii = true;
  quality_score = none;
  metadata = Fields.end;
  l0_point_id = none;
  l1_point_id = none;
}

abbrev original : VaultRow
original = record {
  id = "v1";
  document_id = "d1";
  chunk_index = 0;
  original_text = "Anna";
  pii_entities = [];
  retention_days = 365;
  data_category = none;
}

abbrev point : Point
point = record { id = "x"; vector = []; payload = Fields.field "project" (Json.str "p") Fields.end }

abbrev store : Option String → Store
store project = record {
  collections = ("pb_general", point ∷ []) ∷ [];
  documents = row project ∷ [];
  vault = original ∷ [];
  mappings = [];
  rejections = [];
  scans = [];
  salts = [];
}

abbrev by_project : DeleteRequest
by_project = record { confirm = true; source_type = none; project = some "p"; delete_all = false }

abbrev all_work : String → Bool
all_work c = true

erased_run :
    (delete_documents true all_work by_project (store (some "p"))).1 ≡ DeleteAnswer.deleted 1 1
unfolding delete_documents lookup insert member
erased_run = refl

-- The point goes; the row, which has no project, and the original stay.
missed_run : delete_documents true all_work by_project (store none) ≡ (
  record (store none) {
    collections = ("pb_general", []) ∷ ("pb_code", []) ∷ ("pb_rules", []) ∷ [];
  },
  DeleteAnswer.deleted 0 0,
)
unfolding delete_documents lookup insert member points_of
missed_run = refl

delete_documents-erases_example :
    Erased all_work by_project
      (store (some "p"))
      (delete_documents true all_work by_project (store (some "p"))).0
unfolding delete_documents
delete_documents-erases_example =
    delete_documents-erases true all_work by_project (store (some "p"))
      (delete_documents true all_work by_project (store (some "p"))).0 1 1 refl

refused_run : (delete_documents false all_work by_project (store none)).1 ≡ DeleteAnswer.denied
unfolding delete_documents
refused_run = refl

delete_documents-misses_example :
    ((delete_documents true all_work by_project (store none)).0.documents ≡ (store none).documents)
    × ((delete_documents true all_work by_project (store none)).0.vault ≡ (store none).vault)
delete_documents-misses_example =
    delete_documents-misses true all_work by_project (store none) ((refl, refl), tt) refl
