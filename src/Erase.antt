-- ===== src/Erase.antt =====
-- mcp-server/server.py, the tool `delete_documents` of `_dispatch`, with `_build_delete_filter`. The
-- decision of the access policy and which collections the vector store can delete from are arguments;
-- the nodes of the graph and the lines of the access log are left out.
mod Reach
mod Gaps
mod Examples
use powerbrain.Base.{
  ℕ, String, Bool, true, false, ◌&&◌, ◌||◌, not, Option, none, some, List, [], ◌∷◌, length, keep,
  any, str_eq, truthy, if◌then◌else◌,
}
use powerbrain.Base.Dict.{Dict, lookup, insert}
use powerbrain.Base.Json.{Json, Fields, member}
use powerbrain.Store.{Point, DocumentRow, VaultRow, Store, points_of, delete_documents_where}

-- The conditions of a filter; no conditions match everything.
abbrev pub Condition : Type 0
Condition = String × String

pub record DeleteRequest : Type 0 where
  pub confirm : Bool
  pub source_type : Option String
  pub project : Option String
  pub delete_all : Bool

abbrev pub condition : String → Option String → List Condition → List Condition
condition k none cs = cs
condition k (some v) cs = if truthy v then (k, v) ∷ cs else cs

-- `_build_delete_filter`: the same conditions for both stores.
pub build_delete_filter : Option String → Option String → Bool → List Condition
build_delete_filter source_type project true = []
build_delete_filter source_type project false =
    condition "source_type" source_type (condition "project" project [])

-- A keyword match on a field of the payload.
abbrev is_text : Option Json → String → Bool
is_text (some (Json.str s)) v = str_eq s v
is_text _ v = false

pub matches_point : List Condition → Point → Bool
unfolding member
matches_point [] p = true
matches_point ((k, v) ∷ cs) p = is_text (member k p.payload) v && matches_point cs p

-- `column = $n`, which a column that is null fails.
abbrev equals : Option String → String → Bool
equals none v = false
equals (some s) v = str_eq s v

abbrev pub column : String → DocumentRow → Option String
column k d = if str_eq k "source_type" then d.source_type else d.project

pub matches_row : List Condition → DocumentRow → Bool
matches_row [] d = true
matches_row ((k, v) ∷ cs) d = equals (column k d) v && matches_row cs d

abbrev pub collections : List String
collections = "pb_general" ∷ "pb_code" ∷ "pb_rules" ∷ []

-- The loop over the collections; a failure is noted and passed over.
pub delete_in : Bool → List Condition → String → Store → Store
unfolding points_of insert matches_point
delete_in false cs c s = s
delete_in true cs c s = record s {
  collections = insert c (keep (λ p. not (matches_point cs p)) (points_of c s)) s.collections;
}

pub delete_points : (String → Bool) → List Condition → List String → Store → Store
unfolding delete_in
delete_points works cs [] s = s
delete_points works cs (c ∷ rest) s = delete_points works cs rest (delete_in (works c) cs c s)

abbrev pub is_empty : {A : Type 0} → List A → Bool
is_empty [] = true
is_empty (x ∷ xs) = false

pub delete_rows : List Condition → Store → Store
unfolding matches_row delete_documents_where
delete_rows cs s =
    if is_empty (keep (matches_row cs) s.documents)
    then s
    else delete_documents_where (matches_row cs) s

-- The answers, with how many documents and originals of the vault are counted.
pub data DeleteAnswer : Type 0 where
  not_confirmed no_filter denied : DeleteAnswer
  deleted : ℕ → ℕ → DeleteAnswer

pub vault_count : List Condition → Store → ℕ
unfolding matches_row
vault_count cs s =
    length
      (keep (λ v. any (λ d. matches_row cs d && str_eq d.id v.document_id) s.documents) s.vault)

abbrev pub given : Option String → Bool
given none = false
given (some v) = truthy v

pub delete_documents : Bool → (String → Bool) → DeleteRequest → Store → Store × DeleteAnswer
unfolding build_delete_filter delete_points delete_rows vault_count matches_row
delete_documents allowed works r s =
    if not r.confirm
    then (s, not_confirmed)
    else if not r.delete_all && (not (given r.source_type) && not (given r.project))
    then (s, no_filter)
    else if not allowed
    then (s, denied)
    else (
      delete_rows (build_delete_filter r.source_type r.project r.delete_all) (
          delete_points works (build_delete_filter r.source_type r.project r.delete_all) collections
            s),
      deleted
          (length (
            keep (matches_row (build_delete_filter r.source_type r.project r.delete_all))
              s.documents))
          (vault_count (build_delete_filter r.source_type r.project r.delete_all) s),
    )
