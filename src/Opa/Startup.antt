-- ===== src/Opa/Startup.antt =====
-- `verify_required_policies` of shared/opa_client.py.
use powerbrain.Base.{◌≡◌, ◌↔◌, refl, String, List, [], ◌∷◌, All}
use powerbrain.Base.Json.{Json, Fields}
use powerbrain.Opa.{
  Engine, OpaResult, result, missing, unreachable, failed, opa_query, Failure, probe,
  verify_required_policies,
}

abbrev pub HasResult : OpaResult → Type 0
HasResult (result v) = Unit
HasResult _ = ⊥

-- A service starts exactly if the engine's reply to the empty input of every required path has a
-- result, whatever it is; every other reply to one of them stops it.
pub verify_required_policies_iff :
    (engine : Engine) (paths : List String)
    → (verify_required_policies engine paths ≡ [])
      ↔ All (λ p. HasResult (opa_query engine p (Json.obj Fields.end))) paths
unfolding verify_required_policies
verify_required_policies_iff engine [] = (λ _. tt, λ _. refl)
verify_required_policies_iff engine (p ∷ ps) =
    one (opa_query engine p (Json.obj Fields.end)) (verify_required_policies engine ps)
      (verify_required_policies_iff engine ps)
  where
    one :
        {Rest : Type 0} (r : OpaResult) (fs : List Failure)
        → ((fs ≡ []) ↔ Rest)
        → (probe p r fs ≡ []) ↔ (HasResult r × Rest)
    one (result v) fs ih = (λ e. (tt, ih.0 e), λ h. ih.1 (h.1))
    one (missing q) fs ih = (λ e. cc, λ h. absurd (h.0))
    one unreachable fs ih = (λ e. cc, λ h. absurd (h.0))
    one failed fs ih = (λ e. cc, λ h. absurd (h.0))
