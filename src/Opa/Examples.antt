-- ===== src/Opa/Examples.antt =====
-- Policy queries of shared/opa_client.py and the gates of mcp-server/server.py at concrete
-- engines, and the theorems there.
use powerbrain.Base.{
  ◌≡◌, ◌↔◌, ◌⊎◌, refl, String, Bool, true, some, [], ◌∷◌, arith, eq_iff, str_eq, if◌then◌else◌,
}
use powerbrain.Base.Dict.{Dict, lookup, insert, lookup-insert}
use powerbrain.Base.Json.{Json, Items, Fields}
use powerbrain.Opa.{
  Engine, Reply, opa_query, verify_required_policies, not_loaded, probe_error, Cache, Access,
  cache_key, decided, check_opa_policy, check_opa_vault_access,
}
use powerbrain.Opa.Replies.{answer}
use powerbrain.Opa.Keys.{no_colon, Plain}
use powerbrain.Opa.Gates.{IsTrue, IsThere, check_opa_vault_access_iff}
use powerbrain.Opa.Caching.{IsSound, Agrees, check_opa_policy-IsSound}

-- An engine that grants access, has an empty list of fields, and knows nothing else.
abbrev engine : Engine
engine path input =
    if str_eq path "pb/access/allow"
    then Reply.body (Fields.field "result" (Json.bool true) Fields.end)
    else if str_eq path "pb/privacy/vault_access_allowed"
    then Reply.body (Fields.field "result" (Json.bool true) Fields.end)
    else if str_eq path "pb/privacy/vault_fields_to_redact"
    then Reply.body (Fields.field "result" (Json.arr Items.nil) Fields.end)
    else if str_eq path "pb/slow"
    then Reply.timeout
    else Reply.body Fields.end

startup_run :
    verify_required_policies engine ("pb.access.allow" ∷ "/pb/none/" ∷ "pb/slow" ∷ [])
    ≡ not_loaded "pb/none" ∷ probe_error "pb/slow" ∷ []
unfolding verify_required_policies
startup_run = refl

check_opa_vault_access_iff_example : ((check_opa_vault_access engine Json.null).allowed ≡ true) ↔ (
    IsTrue (answer (engine "pb/privacy/vault_access_allowed" Json.null))
    × IsThere (answer (engine "pb/privacy/vault_fields_to_redact" Json.null)))
check_opa_vault_access_iff_example = check_opa_vault_access_iff engine Json.null

-- A cache that never forgets.
keeps_law :
    (j k : String) (v x : Bool) (c : Dict Bool)
    → lookup j (insert k v c) ≡ some x
    → ((j ≡ k) × (x ≡ v)) ⊎ (lookup j c ≡ some x)
keeps_law j k v x c e = ground (arith, lookup-insert k j v c, eq_iff k j)

abbrev keeps : Cache Bool
keeps = record {
  Store = Dict Bool;
  get = λ now j c. lookup j c;
  put = λ now k v c. insert k v c;
  get-put = λ now then' j k v x c e. keeps_law j k v x c e;
}

abbrev request : Access
request = record {
  agent_id = "alice";
  agent_role = "analyst";
  resource = "docs/1";
  classification = "internal";
  action = "read";
}

-- The first attempt times out, the second is granted, and the grant is kept.
retry_run :
    check_opa_policy keeps true 0 (λ p i. Reply.timeout) 1 engine request []
    ≡ (("analyst:internal:read", true) ∷ [], decided true)
unfolding check_opa_policy insert lookup cache_key
retry_run = refl

-- The role of an analyst may read what is internal.
abbrev MayRead : String → String → String → Bool → Type 0
MayRead role class action b = (role ≡ "analyst") → (class ≡ "internal") → b ≡ true

request-Plain : Plain request.agent_role request.classification
unfolding no_colon
request-Plain = (refl, refl)

check_opa_policy-IsSound_example :
    let (c', d) = check_opa_policy keeps true 0 (λ p i. Reply.timeout) 1 engine request [] in
    IsSound keeps MayRead c' × Agrees keeps MayRead request d
unfolding opa_query
check_opa_policy-IsSound_example =
    check_opa_policy-IsSound keeps MayRead true 0 1 (λ p i. Reply.timeout) engine request []
      request-Plain tt (λ r c. refl)
      (record { at = λ now r k n x p e. unfold lookup in absurd (cc) })
