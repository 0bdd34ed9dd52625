-- ===== src/VaultResolve.antt =====
-- mcp-server/server.py, `vault_resolve_pseudonyms`: the pseudonyms in a text, the rows of the vault
-- behind them, and the originals that the policy lets out. The hash and the order in which the
-- database returns the rows are arguments; its statements are taken to succeed, and the policy's
-- fields to be texts.
mod AuditLog
mod Policy
mod Examples
use Prim.Native.Char.{code}
use powerbrain.Base.{
  ℕ, zero, suc, ◌+◌, ◌-◌, String, Bool, true, false, ◌&&◌, ◌||◌, not, Option, none, some, List, [],
  ◌∷◌, ◌++◌, length, keep, any, contains, leb, nat_beq, str_eq, truthy, get_or, and_then,
  if◌then◌else◌,
}
use powerbrain.Base.Dict.{Dict, lookup, insert, has_key}
use powerbrain.Base.Json.{Json, Fields, member}
use powerbrain.Base.Text.{text_drop, text_take, rstrip_by, with_colon}
use powerbrain.Opa.{Engine, check_opa_vault_access}
use powerbrain.Redact.{entity_type_in_redact_set}
use powerbrain.Pii.{sort_long, replace_all}
use powerbrain.Store.{DocumentRow, VaultEntity, VaultRow, MappingRow, Store}

-- `_VAULT_PSEUDONYM_RE`, \[([A-Z_]+):([a-f0-9]{8})\]: the length of a match at the start of a text.
abbrev is_kind : ℕ → Bool
is_kind c = (leb 65 c && leb c 90) || nat_beq c b'_'

abbrev is_hex : ℕ → Bool
is_hex c = (leb 97 c && leb c 102) || (leb 48 c && leb c 57)

kind_run : String → ℕ
kind_run String.[] = 0
kind_run (String.◌∷◌ c s) = let n = kind_run s in if is_kind (code c) then suc n else 0

closes : ℕ → String → Bool
closes n String.[] = false
closes zero (String.◌∷◌ c s) = nat_beq (code c) b']'
closes (suc n) (String.◌∷◌ c s) = is_hex (code c) && closes n s

hash_follows : String → Bool
unfolding closes
hash_follows String.[] = false
hash_follows (String.◌∷◌ c s) = nat_beq (code c) b':' && closes 8 s

match_length : String → Option ℕ
unfolding kind_run hash_follows text_drop
match_length String.[] = none
match_length (String.◌∷◌ c s) =
    if nat_beq (code c) b'['
      && (not (nat_beq (kind_run s) 0) && hash_follows (text_drop (kind_run s) s))
    then some (kind_run s + 11)
    else none

-- The matches, one behind the other; the number counts the characters of one that are passed over.
pub find_from : ℕ → String → List String
unfolding match_length text_take
find_from skip String.[] = []
find_from (suc skip) (String.◌∷◌ c s) = find_from skip s
find_from zero (String.◌∷◌ c s) =
    let rest = find_from 0 s in
    elim (match_length (String.◌∷◌ c s)) [
      | none ↦ rest
      | some n ↦ text_take n (String.◌∷◌ c s) ∷ find_from (n - 1) s
    ]

pub distinct : List String → List String
distinct [] = []
distinct (x ∷ xs) = let rest = distinct xs in if contains x rest then rest else x ∷ rest

-- A row of the join.
pub record Joined : Type 0 where
  pub pseudonym : String
  pub document_id : String
  pub chunk_index : ℕ
  pub entity_type : String
  pub salt : String
  pub pii_entities : List VaultEntity
  pub classification : String
  pub metadata : Fields

abbrev pub joined : MappingRow → VaultRow → DocumentRow → Joined
joined m v d = record {
  pseudonym = m.pseudonym;
  document_id = m.document_id;
  chunk_index = m.chunk_index;
  entity_type = m.entity_type;
  salt = m.salt;
  pii_entities = v.pii_entities;
  classification = d.classification;
  metadata = d.metadata;
}

abbrev with_documents : MappingRow → VaultRow → List DocumentRow → List Joined
with_documents m v [] = []
with_documents m v (d ∷ ds) =
    let rest = with_documents m v ds in
    if str_eq d.id m.document_id then joined m v d ∷ rest else rest

abbrev with_vault : MappingRow → List VaultRow → List DocumentRow → List Joined
with_vault m [] ds = []
with_vault m (v ∷ vs) ds =
    let rest = with_vault m vs ds in
    if str_eq m.document_id v.document_id && nat_beq m.chunk_index v.chunk_index
    then with_documents m v ds ++ rest
    else rest

pub mapping_join : List String → List MappingRow → List VaultRow → List DocumentRow → List Joined
mapping_join ps [] vs ds = []
mapping_join ps (m ∷ ms) vs ds =
    let rest = mapping_join ps ms vs ds in
    if contains m.pseudonym ps then with_vault m vs ds ++ rest else rest

-- Who asks, and for what.
pub record Caller : Type 0 where
  pub purpose : String
  pub agent_role : String
  pub agent_id : String
  pub token_hash : String

pub vault_input : Caller → Joined → Json
unfolding member
vault_input who row = Json.obj (
    Fields.field "agent_role" (Json.str who.agent_role) (
      Fields.field "purpose" (Json.str who.purpose) (
        Fields.field "classification"
          (Json.str (if truthy row.classification then row.classification else "internal"))
          (Fields.field "data_category" (get_or (member "data_category" row.metadata) (Json.str ""))
            (Fields.field "token_valid" (Json.bool true)
              (Fields.field "token_expired" (Json.bool false) Fields.end))))))

abbrev pub texts : List Json → List String
texts [] = []
texts (Json.str s ∷ vs) = s ∷ texts vs
texts (_ ∷ vs) = texts vs

-- `pseudonym.rsplit(":", 1)[-1].rstrip("]")`; `none` where there is no colon.
last_part : String → Option String
last_part String.[] = none
last_part (String.◌∷◌ c s) =
    let later = last_part s in
    elim later [ some t ↦ some t | none ↦ if nat_beq (code c) b':' then some s else none ]

pub target_hash : String → String
unfolding last_part rstrip_by
target_hash p = rstrip_by (λ c. nat_beq c b']') (get_or (last_part p) p)

-- The entity of the wanted type whose hash is the pseudonym's; the first one counts.
pub recover : (String → String) → Joined → List VaultEntity → Option String
unfolding target_hash
recover digest row [] = none
recover digest row (e ∷ es) =
    let later = recover digest row es in
    if str_eq e.kind row.entity_type
      && str_eq (digest (with_colon row.salt e.text)) (target_hash row.pseudonym)
    then some e.text
    else later

-- What the policy lets out of a row.
pub permitted : Engine → (String → String) → Caller → Joined → Option String
unfolding recover vault_input check_opa_vault_access entity_type_in_redact_set
permitted engine digest who row =
    let policy = check_opa_vault_access engine (vault_input who row) in
    if policy.allowed
    then and_then (recover digest row row.pii_entities) (λ original.
      if entity_type_in_redact_set row.entity_type (texts policy.fields_to_redact)
      then none
      else some original)
    else none

-- A line of `log_vault_access`, by what tells one of a call from another.
abbrev pub Line : Type 0
Line = String × ℕ

abbrev pub is_line : String → ℕ → Line → Bool
is_line d i l = str_eq l.0 d && nat_beq l.1 i

pub record Resolved : Type 0 where
  pub originals : Dict String
  pub log : List Line

abbrev pub audit : String → ℕ → List Line → List Line
audit d i log = if any (is_line d i) log then log else log ++ (d, i) ∷ []

pub accept : Joined → Option String → Resolved → Resolved
unfolding insert
accept row none st = st
accept row (some original) st = record {
  originals = insert row.pseudonym original st.originals;
  log = audit row.document_id row.chunk_index st.log;
}

pub resolve_row : Engine → (String → String) → Caller → Joined → Resolved → Resolved
unfolding permitted lookup accept
resolve_row engine digest who row st =
    if has_key row.pseudonym st.originals
    then st
    else accept row (permitted engine digest who row) st

pub resolve_rows : Engine → (String → String) → Caller → List Joined → Resolved → Resolved
unfolding resolve_row
resolve_rows engine digest who [] st = st
resolve_rows engine digest who (row ∷ rows) st =
    resolve_rows engine digest who rows (resolve_row engine digest who row st)

pub record Resolution : Type 0 where
  pub text : String
  pub resolved : ℕ
  pub total : ℕ
  pub skipped : ℕ

pub resolution : String → List String → Dict String → Resolution
unfolding replace_all sort_long
resolution text ps [] = record { text = text; resolved = 0; total = length ps; skipped = length ps }
resolution text ps (e ∷ es) = record {
  text = replace_all (sort_long (e ∷ es)) text;
  resolved = length (e ∷ es);
  total = length ps;
  skipped = length ps - length (e ∷ es);
}

-- The result, with the lines of the log. A text without pseudonyms asks nobody.
pub vault_resolve_pseudonyms :
    Engine
    → (String → String)
    → (List Joined → List Joined)
    → Caller
    → Store
    → String
    → Resolution × List Line
unfolding find_from distinct mapping_join resolve_rows resolution
vault_resolve_pseudonyms engine digest arrange who s text =
    let ps = distinct (find_from 0 text) in
    let st =
      resolve_rows engine digest who (arrange (mapping_join ps s.mappings s.vault s.documents))
        (record { originals = []; log = [] }) in
    (resolution text ps st.originals, st.log)
