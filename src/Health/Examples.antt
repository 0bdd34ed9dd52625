-- ===== src/Health/Examples.antt =====
-- The risk indicators of mcp-server/server.py at concrete probes, and the theorem there.
use powerbrain.Base.{◌≡◌, refl, String, false, some, List, [], ◌∷◌}
use powerbrain.Health.{
  Probe, failed, got, build_risk_health_payload, pii_scanner, reranker_available, feedback_score,
}

-- The engine answers, the scanner is off, no reranker is configured, one check raised.
abbrev probes : List (Probe String)
probes =
    got "ok"
    ∷ got (pii_scanner (got (some false)))
    ∷ got (reranker_available false failed)
    ∷ failed
    ∷ got (feedback_score (got (some (9, 4))))
    ∷ []

probes_status : build_risk_health_payload probes ≡ "high"
unfolding build_risk_health_payload pii_scanner reranker_available feedback_score
probes_status = refl
