-- ===== src/Opa/Replies.antt =====
-- shared/opa_client.py: what `opa_query` makes of a reply of the engine.
use powerbrain.Base.{◌≡◌, ◌≢◌, refl, String, Option, none, some}
use powerbrain.Base.Json.{Json, member}
use powerbrain.Opa.{
  Engine, Reply, connect_error, timeout, http_error, bad_body, body, OpaResult, result, missing,
  unreachable, failed, normal_path, read_reply, opa_query,
}

-- The value of a reply: a body has one if its rule is loaded; a failure has none.
abbrev pub answer : Reply → Option Json
answer (body fs) = member "result" fs
answer _ = none

-- The query has that value, or no value at all.
abbrev pub Reads : Option Json → OpaResult → Type 0
Reads (some v) r = r ≡ result v
Reads none r = (v : Json) → r ≢ result v

no_result : (p : String) → Reads none (missing p) × Reads none unreachable × Reads none failed
no_result p = (λ v e. cc, λ v e. cc, λ v e. cc)

read_reply-Reads : (p : String) (r : Reply) → Reads (answer r) (read_reply p r)
unfolding read_reply
read_reply-Reads p connect_error = (no_result p).1
read_reply-Reads p timeout = (no_result p).1
read_reply-Reads p http_error = (no_result p).2
read_reply-Reads p bad_body = (no_result p).2
read_reply-Reads p (body fs) = by_member (member "result" fs)
  where
    by_member : (o : Option Json) → Reads o (elim o [ none ↦ missing p | some v ↦ result v ])
    by_member none = (no_result p).0
    by_member (some v) = refl

-- With a path that is as the engine has it, the query reads the engine's reply to it.
pub opa_query-Reads :
    (engine : Engine) (p : String) (input : Json)
    → normal_path p ≡ p
    → Reads (answer (engine p input)) (opa_query engine p input)
unfolding opa_query
opa_query-Reads engine p input e = rw e (read_reply-Reads p (engine p input))

-- The paths that the gates ask for are such.
pub privacy_path : normal_path "pb/privacy" ≡ "pb/privacy"
unfolding normal_path
privacy_path = refl

pub vault_access_path :
    normal_path "pb/privacy/vault_access_allowed" ≡ "pb/privacy/vault_access_allowed"
unfolding normal_path
vault_access_path = refl

pub vault_fields_path :
    normal_path "pb/privacy/vault_fields_to_redact" ≡ "pb/privacy/vault_fields_to_redact"
unfolding normal_path
vault_fields_path = refl
