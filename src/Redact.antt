-- ===== src/Redact.antt =====
-- mcp-server/server.py, the purpose-bound redaction of PII: `redact_fields`, `_mask_walk`,
-- `_entity_type_in_redact_set`, `_redact_metadata_pii`, `validate_pii_access_token`.
-- A text that is cut and joined is the list of its code points; entity types and field names are
-- only compared, and are native texts.
mod Fields
mod Spans
pub mod Mask
mod Examples
use Prim.Native.Char.{code}
use powerbrain.Base.{
  ℕ, ◌+◌, ◌≤◌, ◌<◌, String, Bool, true, false, ◌&&◌, List, [], ◌∷◌, ◌++◌, Option, none, some,
  length, take, drop, contains, ltb, leb, str_eq, if◌then◌else◌, truthy,
}
use powerbrain.Base.Dict.{Dict, lookup, insert}

-- The code points of a native text.
abbrev pub codes : String → List ℕ
codes String.[] = []
codes (String.◌∷◌ c s) = code c ∷ codes s

-- An entry of `pii_entities`; a position that is missing is 0.
pub record Entity : Type 0 where
  pub kind : String
  pub start : ℕ
  pub stop : ℕ

-- `field_to_entities`
pub field_entities : String → List String
field_entities f =
    if str_eq f "email"
    then "EMAIL_ADDRESS" ∷ []
    else if str_eq f "phone"
    then "PHONE_NUMBER" ∷ []
    else if str_eq f "iban"
    then "IBAN_CODE" ∷ []
    else if str_eq f "birthdate"
    then "DATE_OF_BIRTH" ∷ "DE_DATE_OF_BIRTH" ∷ []
    else if str_eq f "address"
    then "LOCATION" ∷ []
    else if str_eq f "person"
    then "PERSON" ∷ []
    else []

pub entities_to_redact : List String → List String
unfolding field_entities
entities_to_redact [] = []
entities_to_redact (f ∷ fs) = field_entities f ++ entities_to_redact fs

-- `sorted(…, key=start, reverse=True)`, which keeps the order of equals.
pub insert_desc : Entity → List Entity → List Entity
insert_desc e [] = e ∷ []
insert_desc e (x ∷ xs) = if leb x.start e.start then e ∷ x ∷ xs else x ∷ insert_desc e xs

pub sort_desc : List Entity → List Entity
unfolding insert_desc
sort_desc [] = []
sort_desc (e ∷ es) = insert_desc e (sort_desc es)

-- `f"<{entity['type']}>"`
abbrev pub tag : String → List ℕ
tag kind = b'<' ∷ codes kind ++ b'>' ∷ []

-- One round of the loop.
pub redact_one : List String → Entity → List ℕ → List ℕ
redact_one kinds e text =
    if contains e.kind kinds && (ltb e.start e.stop && leb e.stop (length text))
    then take e.start text ++ (tag e.kind ++ drop e.stop text)
    else text

pub redact_loop : List String → List Entity → List ℕ → List ℕ
unfolding redact_one
redact_loop kinds [] text = text
redact_loop kinds (e ∷ es) text = redact_loop kinds es (redact_one kinds e text)

pub redact_kinds : List String → List Entity → List ℕ → List ℕ
unfolding redact_loop sort_desc
redact_kinds [] entities text = text
redact_kinds (k ∷ ks) entities text = redact_loop (k ∷ ks) (sort_desc entities) text

pub redact_fields : List ℕ → List Entity → List String → List ℕ
unfolding redact_kinds entities_to_redact
redact_fields text entities fields = redact_kinds (entities_to_redact fields) entities text

-- `entity_to_field.get`
unfoldable pub entity_field : String → Option String
entity_field k =
    if str_eq k "EMAIL_ADDRESS"
    then some "email"
    else if str_eq k "PHONE_NUMBER"
    then some "phone"
    else if str_eq k "IBAN_CODE"
    then some "iban"
    else if str_eq k "DATE_OF_BIRTH"
    then some "birthdate"
    else if str_eq k "DE_DATE_OF_BIRTH"
    then some "birthdate"
    else if str_eq k "LOCATION"
    then some "address"
    else if str_eq k "PERSON"
    then some "person"
    else none

-- `_entity_type_in_redact_set`
unfoldable pub entity_type_in_redact_set : String → List String → Bool
unfolding entity_field
entity_type_in_redact_set k [] = false
entity_type_in_redact_set k (f ∷ fs) = elim (entity_field k) [
  | none ↦ false
  | some g ↦ contains g (f ∷ fs)
]

-- `_redact_metadata_pii`, with PII_METADATA_FIELDS and the fields that the policy redacts. Values
-- are texts here; an empty one is left.
pub redact_metadata : Dict String → List String → Dict String → Dict String
unfolding lookup
redact_metadata fields redacted [] = []
redact_metadata fields redacted ((k, v) ∷ m) =
    let rest = redact_metadata fields redacted m in
    elim (lookup k fields) [
      | none ↦ (k, v) ∷ rest
      | some c ↦
          if truthy c && (contains c redacted && truthy v)
          then (k, "<REDACTED>") ∷ rest
          else (k, v) ∷ rest
    ]

-- `validate_pii_access_token`: the HMAC of the payload and the ISO parser are arguments; the time
-- that the parser returns is counted as the clock is.
pub record PiiToken (Payload : Type 0) : Type 0 where
  pub signature : String
  pub payload : Payload
  pub expires_at : String

pub data TokenVerdict : Type 0 where
  valid bad_signature token_expired bad_format : TokenVerdict

pub validate_pii_access_token :
    {Payload : Type 0}
    → (Payload → String)
    → (String → Option ℕ)
    → ℕ
    → PiiToken Payload
    → TokenVerdict
validate_pii_access_token sign parse now t =
    if str_eq t.signature (sign t.payload)
    then elim (parse t.expires_at) [
      | none ↦ bad_format
      | some e ↦ if ltb e now then token_expired else valid
    ]
    else bad_signature
