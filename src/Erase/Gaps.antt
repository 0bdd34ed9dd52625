-- ===== src/Erase/Gaps.antt =====
-- What the tool `delete_documents` of mcp-server/server.py does not reach: rows of documents without the
-- columns that it selects by.
use powerbrain.Base.{
  ℕ, ◌≡◌, refl, sym, ap, subst, ◌∙◌, String, Bool, true, false, ◌&&◌, not, Option, none, some, List,
  [], ◌∷◌, length, keep, All, str_eq, truthy, Bool-cases, inl, inr, if◌then◌else◌,
}
use powerbrain.Store.{DocumentRow, Store}
use powerbrain.Erase.{
  Condition, DeleteRequest, condition, build_delete_filter, column, matches_row, collections,
  delete_points, is_empty, delete_rows, DeleteAnswer, not_confirmed, no_filter, denied, deleted,
  vault_count, given, delete_documents,
}
use powerbrain.Erase.Reach.{delete_points-rows}

-- A row as ingestion writes it: neither the project nor the source type is set.
abbrev IsBlank : DocumentRow → Type 0
IsBlank d = (d.project ≡ none) × (d.source_type ≡ none)

column-none : (k : String) (d : DocumentRow) → IsBlank d → column k d ≡ none
column-none k d (p, t) = elim (Bool-cases (str_eq k "source_type")) [
  | inl e ↦ rw e t
  | inr e ↦ rw e p
]

blank-matches :
    (k v : String) (cs : List Condition) (d : DocumentRow)
    → IsBlank d
    → matches_row ((k, v) ∷ cs) d ≡ false
unfolding matches_row
blank-matches k v cs d h = rw (column-none k d h) refl

blank-keep :
    (k v : String) (cs : List Condition) (ds : List DocumentRow)
    → All IsBlank ds
    → is_empty (keep (matches_row ((k, v) ∷ cs)) ds) ≡ true
blank-keep k v cs [] h = refl
blank-keep k v cs (d ∷ ds) h = rw (blank-matches k v cs d h.0) (blank-keep k v cs ds h.1)

delete_rows-blank :
    (c : Condition) (cs : List Condition) (s : Store)
    → All IsBlank s.documents
    → delete_rows (c ∷ cs) s ≡ s
unfolding delete_rows
delete_rows-blank (k, v) cs s h = rw (delete_rows, blank-keep k v cs s.documents h) refl

project-some :
    (p : Option String)
    → not (given p) ≡ false
    → (c : Condition) × (cs : List Condition) × (condition "project" p [] ≡ c ∷ cs)
project-some none h = absurd cc
project-some (some p) h = elim (Bool-cases (truthy p)) [
  | inl e ↦ (("project", p), [], rw e refl)
  | inr e ↦ absurd (let h' = rw e at h in cc)
]

filter-some :
    (st p : Option String)
    → (not (given st) && not (given p)) ≡ false
    → (c : Condition) × (cs : List Condition) × (build_delete_filter st p false ≡ c ∷ cs)
unfolding build_delete_filter
filter-some none p h = project-some p h
filter-some (some st) p h = elim (Bool-cases (truthy st)) [
  | inl e ↦ (("source_type", st), condition "project" p [], rw e refl)
  | inr e ↦ rw e (project-some p (rw e at h))
]

abbrev KeepsRows : Store → Store × DeleteAnswer → Type 0
KeepsRows s x = (x.0.documents ≡ s.documents) × (x.0.vault ≡ s.vault)

-- While the rows are as ingestion writes them, a deletion by project or source type leaves every row
-- of a document and every original in the vault, whatever its answer is.
pub delete_documents-misses :
    (allowed : Bool) (works : String → Bool) (r : DeleteRequest) (s : Store)
    → All IsBlank s.documents
    → r.delete_all ≡ false
    → ((delete_documents allowed works r s).0.documents ≡ s.documents)
      × ((delete_documents allowed works r s).0.vault ≡ s.vault)
unfolding delete_documents
delete_documents-misses allowed works r s blank some_rows = rw some_rows (
    by_guards (not r.confirm) (not (given r.source_type) && not (given r.project)) (not allowed)
      refl)
  where
    cs : List Condition
    cs = build_delete_filter r.source_type r.project false

    n : ℕ
    n = length (keep (matches_row cs) s.documents)

    unchanged :
        (not (given r.source_type) && not (given r.project)) ≡ false
        → ((delete_rows cs (delete_points works cs collections s)).documents ≡ s.documents)
          × ((delete_rows cs (delete_points works cs collections s)).vault ≡ s.vault)
    unchanged e =
        let (c, rest, shape) = filter-some r.source_type r.project e in
        let (d, v) = delete_points-rows works cs collections s in
        let same : delete_rows cs (delete_points works cs collections s)
            ≡ delete_points works cs collections s =
          ap (λ q. delete_rows q (delete_points works cs collections s)) shape
          ∙ delete_rows-blank c rest (delete_points works cs collections s)
              (subst (All IsBlank) (sym d) blank) in
        (ap (λ t. t.documents) same ∙ d, ap (λ t. t.vault) same ∙ v)

    by_guards :
        (a b c : Bool)
        → (not (given r.source_type) && not (given r.project)) ≡ b
        → KeepsRows s (
            if a
            then (s, not_confirmed)
            else if b
            then (s, no_filter)
            else if c
            then (s, denied)
            else (
              delete_rows cs (delete_points works cs collections s),
              deleted n (vault_count cs s),
            ))
    by_guards true b c e = (refl, refl)
    by_guards false true c e = (refl, refl)
    by_guards false false true e = (refl, refl)
    by_guards false false false e = unchanged e
