-- ===== src/Redact/Fields.antt =====
-- The two tables of mcp-server/server.py between field names and entity types say the same.
use powerbrain.Base.{
  ℕ, ◌≤◌, ◌≡◌, refl, ◌↔◌, ◌∙◌, String, Bool, true, false, ◌||◌, List, [], ◌∷◌, ◌++◌, Option, none,
  some, contains, arith, eq_iff, str_eq, str_eq_comm, str_eq_apart, sym, Bool-cases, inl, inr,
}
use powerbrain.Redact.{
  field_entities, entities_to_redact, entity_field, entity_type_in_redact_set, PiiToken, valid,
  validate_pii_access_token,
}

contains-append :
    (k : String) (xs ys : List String) → contains k (xs ++ ys) ≡ (contains k xs || contains k ys)
contains-append k [] ys = refl
contains-append k (x ∷ xs) ys = ground (arith, contains-append k xs ys)

abbrev pub NotPast : ℕ → Option ℕ → Type 0
NotPast now none = ⊥
NotPast now (some e) = now ≤ e

-- A field covers an entity type in the one table exactly if the other leads back to it.
abbrev leads_to : Option String → String → Bool
leads_to none f = false
leads_to (some g) f = str_eq f g

-- The entity types of the two tables, each compared both ways round.
abbrev AtField : String → String → Type 0
AtField k f = contains k (field_entities f) ≡ leads_to (entity_field k) f

module _ (k : String) where
  email_field : AtField k "email"
  unfolding field_entities entity_field
  email_field = ground (arith, str_eq_comm k "EMAIL_ADDRESS")

  phone_field : AtField k "phone"
  unfolding field_entities entity_field
  phone_field =
      ground
        (arith, str_eq_comm k "PHONE_NUMBER", str_eq_apart k "PHONE_NUMBER" "EMAIL_ADDRESS" refl)

  iban_field : AtField k "iban"
  unfolding field_entities entity_field
  iban_field = ground (
    arith,
    str_eq_comm k "IBAN_CODE",
    str_eq_apart k "IBAN_CODE" "EMAIL_ADDRESS" refl,
    str_eq_apart k "IBAN_CODE" "PHONE_NUMBER" refl,
  )

  birthdate_field : AtField k "birthdate"
  unfolding field_entities entity_field
  birthdate_field = ground (
    arith,
    str_eq_comm k "DATE_OF_BIRTH",
    str_eq_apart k "DATE_OF_BIRTH" "EMAIL_ADDRESS" refl,
    str_eq_apart k "DATE_OF_BIRTH" "PHONE_NUMBER" refl,
    str_eq_apart k "DATE_OF_BIRTH" "IBAN_CODE" refl,
    str_eq_comm k "DE_DATE_OF_BIRTH",
    str_eq_apart k "DE_DATE_OF_BIRTH" "EMAIL_ADDRESS" refl,
    str_eq_apart k "DE_DATE_OF_BIRTH" "PHONE_NUMBER" refl,
    str_eq_apart k "DE_DATE_OF_BIRTH" "IBAN_CODE" refl,
  )

  address_field : AtField k "address"
  unfolding field_entities entity_field
  address_field = ground (
    arith,
    str_eq_comm k "LOCATION",
    str_eq_apart k "LOCATION" "EMAIL_ADDRESS" refl,
    str_eq_apart k "LOCATION" "PHONE_NUMBER" refl,
    str_eq_apart k "LOCATION" "IBAN_CODE" refl,
    str_eq_apart k "LOCATION" "DATE_OF_BIRTH" refl,
    str_eq_apart k "LOCATION" "DE_DATE_OF_BIRTH" refl,
  )

  person_field : AtField k "person"
  unfolding field_entities entity_field
  person_field = ground (
    arith,
    str_eq_comm k "PERSON",
    str_eq_apart k "PERSON" "EMAIL_ADDRESS" refl,
    str_eq_apart k "PERSON" "PHONE_NUMBER" refl,
    str_eq_apart k "PERSON" "IBAN_CODE" refl,
    str_eq_apart k "PERSON" "DATE_OF_BIRTH" refl,
    str_eq_apart k "PERSON" "DE_DATE_OF_BIRTH" refl,
    str_eq_apart k "PERSON" "LOCATION" refl,
  )

  -- A field that the first table does not know is in the second for no entity type.
  other_field :
      (f : String)
      → str_eq f "email" ≡ false
      → str_eq f "phone" ≡ false
      → str_eq f "iban" ≡ false
      → str_eq f "birthdate" ≡ false
      → str_eq f "address" ≡ false
      → str_eq f "person" ≡ false
      → AtField k f
  unfolding field_entities entity_field
  other_field f e p i b a n = rw (e, p, i, b, a, n) (ground arith)

  known_field : (f g : String) → AtField k g → (str_eq f g ≡ true) → AtField k f
  known_field f g h e = rw ((eq_iff f g).0 e) h

  one_field : (f : String) → AtField k f
  one_field f = elim (Bool-cases (str_eq f "email")) [
    | inl e ↦ known_field f "email" email_field e
    | inr e ↦ elim (Bool-cases (str_eq f "phone")) [
      | inl p ↦ known_field f "phone" phone_field p
      | inr p ↦ elim (Bool-cases (str_eq f "iban")) [
        | inl i ↦ known_field f "iban" iban_field i
        | inr i ↦ elim (Bool-cases (str_eq f "birthdate")) [
          | inl b ↦ known_field f "birthdate" birthdate_field b
          | inr b ↦ elim (Bool-cases (str_eq f "address")) [
            | inl a ↦ known_field f "address" address_field a
            | inr a ↦ elim (Bool-cases (str_eq f "person")) [
              | inl n ↦ known_field f "person" person_field n
              | inr n ↦ other_field f e p i b a n
            ]
          ]
        ]
      ]
    ]
  ]

  abbrev any_leads : List String → Bool
  any_leads [] = false
  any_leads (f ∷ fs) = leads_to (entity_field k) f || any_leads fs

  redacted-leads : (fs : List String) → contains k (entities_to_redact fs) ≡ any_leads fs
  unfolding entities_to_redact
  redacted-leads [] = refl
  redacted-leads (f ∷ fs) =
      contains-append k (field_entities f) (entities_to_redact fs)
      ∙ rw (one_field f, redacted-leads fs)

  found-leads :
      (fs : List String) (o : Option String)
      → entity_field k ≡ o
      → (elim o [ none ↦ false | some g ↦ contains g fs ]) ≡ any_leads fs
  found-leads [] none e = refl
  found-leads [] (some g) e = refl
  found-leads (f ∷ fs) none e = rw e (found-leads fs none e)
  found-leads (f ∷ fs) (some g) e = rw e (rw (found-leads fs (some g) e))

-- `redact_fields` and the vault's resolution read the policy alike: for any entity type and any
-- fields, the type is among those that the one redacts exactly if the other keeps the pseudonym.
pub entity_type_in_redact_set-agrees :
    (k : String) (fields : List String)
    → entity_type_in_redact_set k fields ≡ contains k (entities_to_redact fields)
unfolding entity_type_in_redact_set
entity_type_in_redact_set-agrees k [] = unfold entities_to_redact in refl
entity_type_in_redact_set-agrees k (f ∷ fs) =
    found-leads k (f ∷ fs) (entity_field k) refl ∙ sym (redacted-leads k (f ∷ fs))

-- A vault token is accepted exactly if its signature is that of its payload and its end, as the
-- parser reads it, has not passed.
pub validate_pii_access_token_iff :
    {Payload : Type 0} (sign : Payload → String) (parse : String → Option ℕ) (now : ℕ)
    (t : PiiToken Payload)
    → (validate_pii_access_token sign parse now t ≡ valid)
      ↔ ((t.signature ≡ sign t.payload) × NotPast now (parse t.expires_at))
unfolding validate_pii_access_token
validate_pii_access_token_iff sign parse now t = ground (arith, eq_iff t.signature (sign t.payload))
