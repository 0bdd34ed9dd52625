-- ===== src/Ingest/Closed.antt =====
-- ingestion/ingestion_api.py: `check_opa_privacy` blocks whenever it has not been told otherwise.
use powerbrain.Base.{◌≡◌, ◌⊎◌, refl, inl, inr, true, Option, none, some, str_eq, eq_refl}
use powerbrain.Base.Json.{Json, Fields, member}
use powerbrain.Opa.{Engine, OpaResult, result, missing, unreachable, failed, opa_query}
use powerbrain.Opa.Replies.{answer, Reads, opa_query-Reads, privacy_path}
use powerbrain.Ingest.{Document, PrivacyPolicy, privacy_policy, legal_basis_of, check_opa_privacy}

-- The engine is told the classification, that there is PII, and the legal basis of the metadata.
abbrev pub privacy_input : Document → Json
unfolding member
privacy_input doc = Json.obj (
    Fields.field "classification" (Json.str doc.classification) (
      Fields.field "contains_pii" (Json.bool true) (
        Fields.field "legal_basis" (legal_basis_of (member "legal_basis" doc.metadata))
          Fields.end)))

-- No value, one that is no object, or an object whose action is missing or to block.
abbrev pub Blocks : Option Json → Type 0
Blocks none = Unit
Blocks (some (Json.obj fs)) =
    (member "pii_action" fs ≡ none) ⊎ (member "pii_action" fs ≡ some (Json.str "block"))
Blocks (some _) = Unit

abbrev IsClosed : PrivacyPolicy → Type 0
IsClosed p = str_eq p.pii_action "block" ≡ true

value-IsClosed : (v : Json) → Blocks (some v) → IsClosed (privacy_policy (result v))
value-IsClosed Json.null b = eq_refl "block"
value-IsClosed (Json.bool x) b = eq_refl "block"
value-IsClosed (Json.num n) b = eq_refl "block"
value-IsClosed (Json.str s) b = eq_refl "block"
value-IsClosed (Json.arr vs) b = eq_refl "block"
value-IsClosed (Json.obj fs) (inl e) = rw e (eq_refl "block")
value-IsClosed (Json.obj fs) (inr e) = rw e (eq_refl "block")

policy-IsClosed :
    (o : Option Json) (r : OpaResult) → Reads o r → Blocks o → IsClosed (privacy_policy r)
policy-IsClosed none (result v) h b = absurd (h v refl)
policy-IsClosed none (missing p) h b = eq_refl "block"
policy-IsClosed none unreachable h b = eq_refl "block"
policy-IsClosed none failed h b = eq_refl "block"
policy-IsClosed (some v) r h b = rw h (value-IsClosed v b)

pub check_opa_privacy-Blocks :
    (engine : Engine) (doc : Document)
    → Blocks (answer (engine "pb/privacy" (privacy_input doc)))
    → str_eq (check_opa_privacy engine doc.classification doc.metadata).pii_action "block" ≡ true
unfolding check_opa_privacy
check_opa_privacy-Blocks engine doc b =
    policy-IsClosed (answer (engine "pb/privacy" (privacy_input doc)))
      (opa_query engine "pb/privacy" (privacy_input doc))
      (opa_query-Reads engine "pb/privacy" (privacy_input doc) privacy_path) b
