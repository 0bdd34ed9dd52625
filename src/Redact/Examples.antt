-- ===== src/Redact/Examples.antt =====
-- Redactions of mcp-server/server.py at concrete inputs, and the theorems there.
use powerbrain.Base.{
  ℕ, ◌≡◌, refl, String, List, [], ◌∷◌, Option, none, some, arith, keep, if◌then◌else◌, str_eq,
}
use powerbrain.Base.Dict.{Dict}
use powerbrain.Base.Json.{Json, Fields}
use powerbrain.Redact.{
  codes, Entity, redact_fields, entities_to_redact, redact_metadata, PiiToken, token_expired,
  bad_format, bad_signature, validate_pii_access_token,
}
use powerbrain.Redact.Spans.{assemble, redactable, redact_fields-assemble}
use powerbrain.Redact.Mask.{mask_walk, IsMasked, mask_walk-IsMasked}

abbrev letter : List ℕ
letter = codes "Ann, ann@x.de, Bonn"

abbrev ann : Entity
ann = record { kind = "PERSON"; start = 0; stop = 3 }

abbrev mail : Entity
mail = record { kind = "EMAIL_ADDRESS"; start = 5; stop = 13 }

abbrev bonn : Entity
bonn = record { kind = "LOCATION"; start = 15; stop = 19 }

redact_run :
    redact_fields letter (bonn ∷ ann ∷ mail ∷ []) ("email" ∷ "person" ∷ [])
    ≡ codes "<PERSON>, <EMAIL_ADDRESS>, Bonn"
unfolding redact_fields
redact_run = refl

-- Overlapping spans: the inner tag moves what the outer span still covers, and its end is left
redact_overlap :
    redact_fields
      (codes "Dr Li Smith")
      (record { kind = "PERSON"; start = 0; stop = 11 }
        ∷ record { kind = "LOCATION"; start = 3; stop = 5 }
        ∷ [])
      ("person" ∷ "address" ∷ [])
    ≡ codes "<PERSON>N> Smith"
unfolding redact_fields
redact_overlap = refl

redact_fields-assemble_example :
    redact_fields letter (ann ∷ mail ∷ bonn ∷ []) ("email" ∷ "person" ∷ [])
    ≡ assemble letter 0
        (keep (redactable (entities_to_redact ("email" ∷ "person" ∷ []))) (ann ∷ mail ∷ bonn ∷ []))
redact_fields-assemble_example =
    redact_fields-assemble letter (ann ∷ mail ∷ bonn ∷ []) ("email" ∷ "person" ∷ []) (omega arith)

metadata_run :
    redact_metadata
      (("userName", "person") ∷ [])
      ("person" ∷ [])
      (("project", "x") ∷ ("userName", "ann") ∷ [])
    ≡ ("project", "x") ∷ ("userName", "<REDACTED>") ∷ []
unfolding redact_metadata
metadata_run = refl

abbrev sign : String → String
sign p = p

abbrev parse : String → Option ℕ
parse s = if str_eq s "noon" then some 12 else none

abbrev pass : PiiToken String
pass = record { signature = "hr"; payload = "hr"; expires_at = "noon" }

verdicts :
    (validate_pii_access_token sign parse 13 pass ≡ token_expired)
    × (validate_pii_access_token sign parse 3 (record pass { expires_at = "soon" }) ≡ bad_format)
    × (validate_pii_access_token sign parse 3 (record pass { payload = "it" }) ≡ bad_signature)
unfolding validate_pii_access_token
verdicts = (refl, refl, refl)

abbrev keys : Dict String
keys = ("email", "EMAIL_ADDRESS") ∷ []

abbrev node : Json
node =
    Json.obj (Fields.field "Email" (Json.str "a@b.c") (Fields.field "id" (Json.num 7) Fields.end))

mask_run :
    mask_walk keys node
    ≡ Json.obj (
        Fields.field "Email"
          (Json.str "<EMAIL_ADDRESS>")
          (Fields.field "id" (Json.num 7) Fields.end))
unfolding mask_walk
mask_run = refl

mask_walk-IsMasked_example : IsMasked keys (mask_walk keys node)
mask_walk-IsMasked_example = mask_walk-IsMasked keys node
