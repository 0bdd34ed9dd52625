-- ===== src/Opa/Gates.antt =====
-- The gates of mcp-server/server.py fail closed.
use powerbrain.Base.{◌≡◌, ◌↔◌, refl, true, none, some, Option}
use powerbrain.Base.Json.{Json, truth}
use powerbrain.Opa.Replies.{answer, Reads, opa_query-Reads, vault_access_path, vault_fields_path}
use powerbrain.Opa.{
  Engine, OpaResult, result, missing, unreachable, failed, opa_query, vault_policy,
  check_opa_vault_access, summarization_policy, check_opa_summarization_policy,
}

-- The engine evaluated the rule to something true.
abbrev pub Grants : OpaResult → Type 0
Grants (result v) = truth v ≡ true
Grants _ = ⊥

abbrev pub Answers : OpaResult → Type 0
Answers (result v) = Unit
Answers _ = ⊥

vault_policy-allowed :
    (a f : OpaResult) → ((vault_policy a f).allowed ≡ true) ↔ (Grants a × Answers f)
vault_policy-allowed (result a) (result f) = (λ e. (e, tt), λ h. h.0)
vault_policy-allowed (result a) (missing p) = (λ e. cc, λ h. absurd (h.1))
vault_policy-allowed (result a) unreachable = (λ e. cc, λ h. absurd (h.1))
vault_policy-allowed (result a) failed = (λ e. cc, λ h. absurd (h.1))
vault_policy-allowed (missing p) f = (λ e. cc, λ h. absurd (h.0))
vault_policy-allowed unreachable f = (λ e. cc, λ h. absurd (h.0))
vault_policy-allowed failed f = (λ e. cc, λ h. absurd (h.0))

-- A reply's value grants if it is true.
abbrev pub IsTrue : Option Json → Type 0
IsTrue none = ⊥
IsTrue (some v) = truth v ≡ true

abbrev pub IsThere : Option Json → Type 0
IsThere none = ⊥
IsThere (some v) = Unit

Grants-IsTrue : (o : Option Json) (r : OpaResult) → Reads o r → Grants r ↔ IsTrue o
Grants-IsTrue (some v) r h = rw h (λ g. g, λ g. g)
Grants-IsTrue none (result v) h = absurd (h v refl)
Grants-IsTrue none (missing p) h = (λ g. g, λ g. g)
Grants-IsTrue none unreachable h = (λ g. g, λ g. g)
Grants-IsTrue none failed h = (λ g. g, λ g. g)

Answers-IsThere : (o : Option Json) (r : OpaResult) → Reads o r → Answers r ↔ IsThere o
Answers-IsThere (some v) r h = rw h (λ g. g, λ g. g)
Answers-IsThere none (result v) h = absurd (h v refl)
Answers-IsThere none (missing p) h = (λ g. g, λ g. g)
Answers-IsThere none unreachable h = (λ g. g, λ g. g)
Answers-IsThere none failed h = (λ g. g, λ g. g)

-- The vault is opened exactly if the engine's reply about the access has a true value and its reply
-- about the fields to redact has a value; a rule that is not loaded, a transport error, a refusal or
-- a body that cannot be read, in either reply, keeps it shut.
pub check_opa_vault_access_iff :
    (engine : Engine) (input : Json)
    → ((check_opa_vault_access engine input).allowed ≡ true) ↔ (
        IsTrue (answer (engine "pb/privacy/vault_access_allowed" input))
        × IsThere (answer (engine "pb/privacy/vault_fields_to_redact" input)))
unfolding check_opa_vault_access
check_opa_vault_access_iff engine input =
    let a = opa_query engine "pb/privacy/vault_access_allowed" input in
    let f = opa_query engine "pb/privacy/vault_fields_to_redact" input in
    let allowed = vault_policy-allowed a f in
    let grants =
      Grants-IsTrue (answer (engine "pb/privacy/vault_access_allowed" input)) a
        (opa_query-Reads engine "pb/privacy/vault_access_allowed" input vault_access_path) in
    let answers =
      Answers-IsThere (answer (engine "pb/privacy/vault_fields_to_redact" input)) f
        (opa_query-Reads engine "pb/privacy/vault_fields_to_redact" input vault_fields_path) in
    (
      λ e. let h = allowed.0 e in (grants.0 (h.0), answers.0 (h.1)),
      λ h. allowed.1 (grants.1 (h.0), answers.1 (h.1)),
    )

summarization_policy-allowed :
    (a r d : OpaResult)
    → ((summarization_policy a r d).summarize_allowed ≡ true) ↔ (Grants a × Answers r × Answers d)
summarization_policy-allowed (result a) (result r) (result d) = (λ e. (e, tt, tt), λ h. h.0)
summarization_policy-allowed (result a) (result r) (missing p) = (λ e. cc, λ h. absurd (h.2))
summarization_policy-allowed (result a) (result r) unreachable = (λ e. cc, λ h. absurd (h.2))
summarization_policy-allowed (result a) (result r) failed = (λ e. cc, λ h. absurd (h.2))
summarization_policy-allowed (result a) (missing p) d = (λ e. cc, λ h. absurd (h.1))
summarization_policy-allowed (result a) unreachable d = (λ e. cc, λ h. absurd (h.1))
summarization_policy-allowed (result a) failed d = (λ e. cc, λ h. absurd (h.1))
summarization_policy-allowed (missing p) r d = (λ e. cc, λ h. absurd (h.0))
summarization_policy-allowed unreachable r d = (λ e. cc, λ h. absurd (h.0))
summarization_policy-allowed failed r d = (λ e. cc, λ h. absurd (h.0))

-- Summaries are allowed exactly if the engine grants them and answers the two other queries.
pub check_opa_summarization_policy_iff :
    (engine : Engine) (input : Json)
    → ((check_opa_summarization_policy engine input).summarize_allowed ≡ true) ↔ (
        Grants (opa_query engine "pb/summarization/summarize_allowed" input)
        × Answers (opa_query engine "pb/summarization/summarize_required" input)
        × Answers (opa_query engine "pb/summarization/summarize_detail" input))
unfolding check_opa_summarization_policy
check_opa_summarization_policy_iff engine input =
    summarization_policy-allowed (opa_query engine "pb/summarization/summarize_allowed" input)
      (opa_query engine "pb/summarization/summarize_required" input)
      (opa_query engine "pb/summarization/summarize_detail" input)
