-- ===== src/VaultResolve/Policy.antt =====
-- `vault_resolve_pseudonyms` of mcp-server/server.py lets out what the policy allows, and logs it.
use mathlib.Core.List.{Memᴰ}
use powerbrain.Base.{
  ℕ, ◌≡◌, ◌≤◌, refl, sym, ap, subst, ◌∙◌, inl, inr, String, Bool, true, false, ◌&&◌, ◌||◌, Option,
  none, some, List, [], ◌∷◌, length, any, str_eq, eq_refl, eq_iff, some_injective, and_then,
  and_then-some, Bool-cases, arith, if◌then◌else◌,
}
use powerbrain.Base.Dict.{Dict, lookup, insert, has_key}
use powerbrain.Opa.{Engine, check_opa_vault_access}
use powerbrain.Redact.{entity_type_in_redact_set}
use powerbrain.Store.{VaultEntity, Store}
use powerbrain.VaultResolve.{
  Joined, Caller, vault_input, texts, target_hash, recover, permitted, Line, is_line, Resolved,
  audit, accept, resolve_row, resolve_rows, resolution, find_from, distinct, mapping_join,
  vault_resolve_pseudonyms,
}
use powerbrain.Base.Text.{with_colon}
use powerbrain.VaultResolve.AuditLog.{audit-line, audit-keeps, count_line, audit-once}
use powerbrain.Pii.{sort_long, replace_all}

resolution-text :
    (text : String) (ps : List String) (d : Dict String)
    → (resolution text ps d).text ≡ replace_all (sort_long d) text
unfolding resolution replace_all sort_long
resolution-text text ps [] = refl
resolution-text text ps (e ∷ es) = refl

resolution-resolved :
    (text : String) (ps : List String) (d : Dict String)
    → (resolution text ps d).resolved ≡ length d
unfolding resolution
resolution-resolved text ps [] = refl
resolution-resolved text ps (e ∷ es) = refl

first_or :
    (a b : Bool) (x o : String) (rest : Option String) (r : Bool)
    → (if a && b then some x else rest) ≡ some o
    → (rest ≡ some o → r ≡ true)
    → ((a && (b && str_eq x o)) || r) ≡ true
first_or true true x o rest r h f = rw (some_injective x o h, eq_refl o) refl
first_or true false x o rest r h f = f h
first_or false b x o rest r h f = f h

if-some :
    (b : Bool) (o : Option String) (f : String → Option String) {x : String}
    → (if b then and_then o f else none) ≡ some x
    → (b ≡ true) × ((y : String) × (o ≡ some y) × (f y ≡ some x))
if-some true o f h = (refl, and_then-some o f h)
if-some false o f h = absurd cc

unless-some :
    (b : Bool) (y x : String) → (if b then none else some y) ≡ some x → (b ≡ false) × (y ≡ x)
unless-some true y x h = absurd cc
unless-some false y x h = (refl, some_injective y x h)

module _ (engine : Engine) (digest : String → String) (who : Caller) where
  -- The entity that stands behind a pseudonym.
  abbrev is_entity : Joined → String → VaultEntity → Bool
  is_entity row original e =
      str_eq e.kind row.entity_type
      && (str_eq (digest (with_colon row.salt e.text)) (target_hash row.pseudonym)
          && str_eq e.text original)

  -- The policy allows the row, does not redact its type, and the original is an entity of its chunk
  -- with the hash that the pseudonym has.
  abbrev Released : Joined → String → Type 0
  Released row original =
      ((check_opa_vault_access engine (vault_input who row)).allowed ≡ true)
      × (entity_type_in_redact_set row.entity_type
            (texts (check_opa_vault_access engine (vault_input who row)).fields_to_redact)
          ≡ false)
      × (any (is_entity row original) row.pii_entities ≡ true)

  recover-entity :
      (row : Joined) (es : List VaultEntity) (original : String)
      → recover digest row es ≡ some original
      → any (is_entity row original) es ≡ true
  unfolding recover
  recover-entity row [] original h = absurd cc
  recover-entity row (e ∷ es) original h =
      first_or (str_eq e.kind row.entity_type)
        (str_eq (digest (with_colon row.salt e.text)) (target_hash row.pseudonym)) e.text original
        (recover digest row es) _ h (recover-entity row es original)

  permitted-Released :
      (row : Joined) (original : String)
      → permitted engine digest who row ≡ some original
      → Released row original
  unfolding permitted
  permitted-Released row original h =
      let (allowed, (o, e, out)) =
        if-some (check_opa_vault_access engine (vault_input who row)).allowed _ _ h in
      let (kept, same) =
        unless-some
          (entity_type_in_redact_set row.entity_type
            (texts (check_opa_vault_access engine (vault_input who row)).fields_to_redact))
          o original out in
      (allowed, kept, recover-entity row row.pii_entities original (e ∙ ap some same))

  -- What stands behind an original that is let out: its row, one of the join, and its line in the log.
  abbrev Accounted : List Joined → List Line → String → String → Type 0
  Accounted rows log pseudonym original =
      (row : Joined) × Memᴰ row rows
      × (row.pseudonym ≡ pseudonym)
      × Released row original
      × (any (is_line row.document_id row.chunk_index) log ≡ true)

  abbrev pub AllAccounted : List Joined → List Line → Dict String → Type 0
  AllAccounted rows log [] = Unit
  AllAccounted rows log ((k, o) ∷ d) = Accounted rows log k o × AllAccounted rows log d

  AllAccounted-insert :
      (rows : List Joined) (log : List Line) (k o : String) (d : Dict String)
      → Accounted rows log k o
      → AllAccounted rows log d
      → AllAccounted rows log (insert k o d)
  unfolding insert
  AllAccounted-insert rows log k o [] h t = (h, tt)
  AllAccounted-insert rows log k o ((j, p) ∷ d) h t = elim (Bool-cases (str_eq j k)) [
    | inl e ↦ rw e (subst (λ k. Accounted rows log k o) (sym ((eq_iff j k).0 e)) h, t.1)
    | inr e ↦ rw e (t.0, AllAccounted-insert rows log k o d h t.1)
  ]

  AllAccounted-log :
      (rows : List Joined) (log log' : List Line) (d : Dict String)
      → ((p : String) (i : ℕ) → any (is_line p i) log ≡ true → any (is_line p i) log' ≡ true)
      → AllAccounted rows log d
      → AllAccounted rows log' d
  AllAccounted-log rows log log' [] f t = tt
  AllAccounted-log rows log log' ((k, o) ∷ d) f ((row, at, own, out, line), t) = (
    (row, at, own, out, f row.document_id row.chunk_index line),
    AllAccounted-log rows log log' d f t,
  )

  accept-Accounted :
      (rows : List Joined) (row : Joined) (o : Option String) (st : Resolved)
      → Memᴰ row rows
      → permitted engine digest who row ≡ o
      → AllAccounted rows st.log st.originals
      → AllAccounted rows (accept row o st).log (accept row o st).originals
  unfolding accept
  accept-Accounted rows row none st at e t = t
  accept-Accounted rows row (some original) st at e t =
      AllAccounted-insert rows (audit row.document_id row.chunk_index st.log) row.pseudonym original
        st.originals
        (
          row,
          at,
          refl,
          permitted-Released row original e,
          audit-line row.document_id row.chunk_index st.log,
        )
        (AllAccounted-log rows st.log (audit row.document_id row.chunk_index st.log) st.originals
          (λ p i. audit-keeps p i row.document_id row.chunk_index st.log) t)

  resolve_row-Accounted :
      (rows : List Joined) (row : Joined) (st : Resolved)
      → Memᴰ row rows
      → AllAccounted rows st.log st.originals
      → AllAccounted rows
          (resolve_row engine digest who row st).log
          (resolve_row engine digest who row st).originals
  unfolding resolve_row
  resolve_row-Accounted rows row st at t = by_key (has_key row.pseudonym st.originals)
    where
      by_key :
          (b : Bool)
          → AllAccounted rows
              (if b then st else accept row (permitted engine digest who row) st).log
              (if b then st else accept row (permitted engine digest who row) st).originals
      by_key true = t
      by_key false = accept-Accounted rows row (permitted engine digest who row) st at refl t

  resolve_rows-Accounted :
      (rows rest : List Joined) (st : Resolved)
      → ((row : Joined) → Memᴰ row rest → Memᴰ row rows)
      → AllAccounted rows st.log st.originals
      → AllAccounted rows
          (resolve_rows engine digest who rest st).log
          (resolve_rows engine digest who rest st).originals
  unfolding resolve_rows
  resolve_rows-Accounted rows [] st f t = t
  resolve_rows-Accounted rows (row ∷ rest) st f t =
      resolve_rows-Accounted rows rest (resolve_row engine digest who row st)
        (λ r at. f r (Memᴰ.tail at)) (resolve_row-Accounted rows row st (f row (Memᴰ.head refl)) t)

  -- Every original that is put into the text stands in an entity of a row of the join with the hash
  -- of its pseudonym; the policy allows this row to the caller and does not redact its type; and the
  -- log has a line for its document and its chunk. The number that is reported is theirs.
  pub vault_resolve_pseudonyms-accounted :
      (arrange : List Joined → List Joined) (s : Store) (text : String)
      → (d : Dict String) × AllAccounted
          (arrange (mapping_join (distinct (find_from 0 text)) s.mappings s.vault s.documents))
          (vault_resolve_pseudonyms engine digest arrange who s text).1
          d
        × ((vault_resolve_pseudonyms engine digest arrange who s text).0.text
            ≡ replace_all (sort_long d) text)
        × ((vault_resolve_pseudonyms engine digest arrange who s text).0.resolved ≡ length d)
  unfolding vault_resolve_pseudonyms
  vault_resolve_pseudonyms-accounted arrange s text =
      let rows =
        arrange (mapping_join (distinct (find_from 0 text)) s.mappings s.vault s.documents) in
      let st = resolve_rows engine digest who rows (record { originals = []; log = [] }) in
      (
        st.originals,
        resolve_rows-Accounted rows rows (record { originals = []; log = [] }) (λ r at. at) tt,
        resolution-text text (distinct (find_from 0 text)) st.originals,
        resolution-resolved text (distinct (find_from 0 text)) st.originals,
      )

  resolve_row-once :
      (row : Joined) (st : Resolved)
      → ((d : String) (i : ℕ) → count_line d i st.log ≤ 1)
      → (d : String) (i : ℕ) → count_line d i (resolve_row engine digest who row st).log ≤ 1
  unfolding resolve_row accept
  resolve_row-once row st h =
      by_key (has_key row.pseudonym st.originals) (permitted engine digest who row)
    where
      by_key :
          (b : Bool) (o : Option String) (d : String) (i : ℕ)
          → count_line d i (if b then st else accept row o st).log ≤ 1
      by_key true o d i = h d i
      by_key false none d i = h d i
      by_key false (some original) d i = audit-once row.document_id row.chunk_index st.log h d i

  resolve_rows-once :
      (rows : List Joined) (st : Resolved)
      → ((d : String) (i : ℕ) → count_line d i st.log ≤ 1)
      → (d : String) (i : ℕ) → count_line d i (resolve_rows engine digest who rows st).log ≤ 1
  unfolding resolve_rows
  resolve_rows-once [] st h = h
  resolve_rows-once (row ∷ rows) st h =
      resolve_rows-once rows (resolve_row engine digest who row st) (resolve_row-once row st h)

  -- However many pseudonyms of a chunk are resolved, the log gets at most one line for it.
  pub vault_resolve_pseudonyms-once :
      (arrange : List Joined → List Joined) (s : Store) (text d : String) (i : ℕ)
      → count_line d i (vault_resolve_pseudonyms engine digest arrange who s text).1 ≤ 1
  unfolding vault_resolve_pseudonyms
  vault_resolve_pseudonyms-once arrange s text d i =
      resolve_rows-once
        (arrange (mapping_join (distinct (find_from 0 text)) s.mappings s.vault s.documents))
        (record { originals = []; log = [] }) (λ d i. omega arith) d i

  abbrev Denies : Type 0
  Denies = (row : Joined) → (check_opa_vault_access engine (vault_input who row)).allowed ≡ false

  resolve_rows-denied :
      (rows : List Joined)
      → Denies
      → resolve_rows engine digest who rows (record { originals = []; log = [] })
        ≡ record { originals = []; log = [] }
  unfolding resolve_rows resolve_row permitted accept lookup
  resolve_rows-denied [] h = refl
  resolve_rows-denied (row ∷ rows) h = rw (h row) (resolve_rows-denied rows h)

  -- A caller to whom the policy allows no row gets the text as it is, and leaves no line in the log.
  pub vault_resolve_pseudonyms-denied :
      (arrange : List Joined → List Joined) (s : Store) (text : String)
      → ((row : Joined) → (check_opa_vault_access engine (vault_input who row)).allowed ≡ false)
      → vault_resolve_pseudonyms engine digest arrange who s text ≡ (
        record {
          text = text;
          resolved = 0;
          total = length (distinct (find_from 0 text));
          skipped = length (distinct (find_from 0 text));
        },
        [],
      )
  unfolding vault_resolve_pseudonyms resolution
  vault_resolve_pseudonyms-denied arrange s text h =
      rw
        (resolve_rows-denied
          (arrange (mapping_join (distinct (find_from 0 text)) s.mappings s.vault s.documents)) h)
        refl
