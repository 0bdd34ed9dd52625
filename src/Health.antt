-- ===== src/Health.antt =====
-- The risk indicators of mcp-server/server.py: `_worst_severity`, the severity that each check
-- reports, and `_build_risk_health_payload`, which combines them.
mod Worst
mod Examples
use powerbrain.Base.{
  ℕ, zero, suc, ◌*◌, String, Bool, true, false, Option, none, some, List, [], ◌∷◌, ltb, str_eq, max,
  if◌then◌else◌, get_or,
}
use powerbrain.Oversight.{Breaker}

-- `_RISK_SEVERITY_ORDER.index(a)`, or 0 for what is not in the list.
pub severity_index : String → ℕ
severity_index a =
    if str_eq a "critical"
    then 5
    else if str_eq a "high"
    then 4
    else if str_eq a "medium"
    then 3
    else if str_eq a "warning"
    then 2
    else if str_eq a "info"
    then 1
    else 0

-- `_RISK_SEVERITY_ORDER[n]`
pub severity_at : ℕ → String
severity_at zero = "ok"
severity_at (suc zero) = "info"
severity_at (suc (suc zero)) = "warning"
severity_at (suc (suc (suc zero))) = "medium"
severity_at (suc (suc (suc (suc zero)))) = "high"
severity_at _ = "critical"

pub worst_severity : String → String → String
unfolding severity_index severity_at
worst_severity a b = severity_at (max (severity_index a) (severity_index b))

-- What the probe of a service brought back: an exception, or the value that is read from it.
pub data Probe (A : Type 0) : Type 0 where
  failed : Probe A
  got : A → Probe A

opa_reachable : Probe Unit → String
opa_reachable failed = "critical"
opa_reachable (got _) = "ok"

-- `body.get("pii_scanner_enabled", True)`
pub pii_scanner : Probe (Option Bool) → String
pii_scanner failed = "high"
pii_scanner (got enabled) = if get_or enabled true then "ok" else "high"

pub reranker_available : Bool → Probe Unit → String
reranker_available false p = "info"
reranker_available true failed = "medium"
reranker_available true (got _) = "ok"

-- The row of pb_verify_audit_chain_tail, of which `valid` is read.
audit_chain : Probe (Option Bool) → String
audit_chain failed = "warning"
audit_chain (got none) = "warning"
audit_chain (got (some valid)) = if valid then "ok" else "critical"

-- AVG(rating) as a sum over a count: below 2.5 if twice the sum is below five times the count.
pub feedback_score : Probe (Option (ℕ × ℕ)) → String
feedback_score failed = "info"
feedback_score (got none) = "ok"
feedback_score (got (some (sum, count))) = if ltb (2 * sum) (5 * count) then "warning" else "ok"

circuit_breaker_indicator : Probe Breaker → String
circuit_breaker_indicator failed = "warning"
circuit_breaker_indicator (got b) = if b.active then "critical" else "info"

-- `gather(return_exceptions=True)`: an indicator that raised reports a warning.
pub safe_severity : Probe String → String
safe_severity failed = "warning"
safe_severity (got s) = s

pub combine : String → List (Probe String) → String
unfolding worst_severity safe_severity
combine acc [] = acc
combine acc (p ∷ ps) = combine (worst_severity acc (safe_severity p)) ps

-- The status of the payload.
pub build_risk_health_payload : List (Probe String) → String
unfolding combine
build_risk_health_payload indicators = combine "ok" indicators
