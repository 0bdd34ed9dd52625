-- ===== src/VaultResolve/Examples.antt =====
-- `vault_resolve_pseudonyms` of mcp-server/server.py on a concrete vault, and the theorems there.
use powerbrain.Base.{
  ◌≡◌, ◌≤◌, refl, String, Bool, true, none, [], ◌∷◌, length, str_eq, if◌then◌else◌,
}
use powerbrain.Base.Dict.{Dict}
use powerbrain.Base.Json.{Json, Items, Fields}
use powerbrain.Opa.{Engine, Reply}
use powerbrain.Pii.{sort_long, replace_all}
use powerbrain.Store.{Store}
use powerbrain.VaultResolve.{Caller, find_from, distinct, mapping_join, vault_resolve_pseudonyms}
use powerbrain.VaultResolve.AuditLog.{count_line}
use powerbrain.VaultResolve.Policy.{
  AllAccounted, vault_resolve_pseudonyms-accounted, vault_resolve_pseudonyms-once,
}

abbrev engine : Bool → Engine
engine allowed path input =
    if str_eq path "pb/privacy/vault_access_allowed"
    then Reply.body (Fields.field "result" (Json.bool allowed) Fields.end)
    else Reply.body
        (Fields.field "result" (Json.arr (Items.cons (Json.str "iban") Items.nil)) Fields.end)

-- A hash of two names.
abbrev digest : String → String
digest t = if str_eq t "s1:Anna" then "0a1b2c3d" else "ffffffff"

abbrev who : Caller
who = record { purpose = "support"; agent_role = "analyst"; agent_id = "a1"; token_hash = "t" }

abbrev vault : Store
vault = record {
  collections = [];
  documents =
      record {
        id = "d1";
        source = "notes";
        source_type = none;
        project = none;
        collection = "c";
        classification = "internal";
        chunk_count = 1;
        contains_pii = true;
        quality_score = none;
        metadata = Fields.end;
        l0_point_id = none;
        l1_point_id = none;
      }
      ∷ [];
  vault =
      record {
        id = "v1";
        document_id = "d1";
        chunk_index = 0;
        original_text = "Anna pays DE12";
        pii_entities =
            record { kind = "PERSON"; text = "Anna"; start = 0; stop = 4 }
            ∷ record { kind = "IBAN_CODE"; text = "DE12"; start = 10; stop = 14 }
            ∷ [];
        retention_days = 365;
        data_category = none;
      }
      ∷ [];
  mappings =
      record {
        document_id = "d1";
        chunk_index = 0;
        pseudonym = "[PERSON:0a1b2c3d]";
        entity_type = "PERSON";
        salt = "s1";
      }
      ∷ record {
        document_id = "d1";
        chunk_index = 0;
        pseudonym = "[IBAN_CODE:ffffffff]";
        entity_type = "IBAN_CODE";
        salt = "s1";
      }
      ∷ [];
  rejections = [];
  scans = [];
  salts = [];
}

abbrev text : String
text = "[PERSON:0a1b2c3d] pays [IBAN_CODE:ffffffff], [x]"

found_run : find_from 0 text ≡ "[PERSON:0a1b2c3d]" ∷ "[IBAN_CODE:ffffffff]" ∷ []
unfolding find_from
found_run = refl

-- The account number stays a pseudonym.
resolve_run : vault_resolve_pseudonyms (engine true) digest (λ rows. rows) who vault text ≡ (
  record { text = "Anna pays [IBAN_CODE:ffffffff], [x]"; resolved = 1; total = 2; skipped = 1 },
  ("d1", 0) ∷ [],
)
unfolding vault_resolve_pseudonyms
resolve_run = refl

vault_resolve_pseudonyms-accounted_example :
    (d : Dict String) × AllAccounted
      (engine true)
      digest
      who
      (mapping_join (distinct (find_from 0 text)) vault.mappings vault.vault vault.documents)
      (vault_resolve_pseudonyms (engine true) digest (λ rows. rows) who vault text).1
      d
    × ((vault_resolve_pseudonyms (engine true) digest (λ rows. rows) who vault text).0.text
        ≡ replace_all (sort_long d) text)
    × ((vault_resolve_pseudonyms (engine true) digest (λ rows. rows) who vault text).0.resolved
        ≡ length d)
vault_resolve_pseudonyms-accounted_example =
    vault_resolve_pseudonyms-accounted (engine true) digest who (λ rows. rows) vault text

vault_resolve_pseudonyms-once_example :
    count_line "d1" 0
      (vault_resolve_pseudonyms (engine true) digest (λ rows. rows) who vault text).1
    ≤ 1
vault_resolve_pseudonyms-once_example =
    vault_resolve_pseudonyms-once (engine true) digest who (λ rows. rows) vault text "d1" 0
