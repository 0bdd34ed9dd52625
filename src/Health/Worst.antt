-- ===== src/Health/Worst.antt =====
-- The combined severity of mcp-server/server.py is the worst of its indicators.
use powerbrain.Base.{
  ℕ, zero, suc, ◌≤◌, ◌≡◌, ◌⊎◌, refl, ◌∙◌, ap, String, List, [], ◌∷◌, arith, max, All, inl, inr,
}
use powerbrain.Health.{
  severity_index, severity_at, worst_severity, Probe, safe_severity, combine,
  build_risk_health_payload,
}

severity_index-le : (a : String) → severity_index a ≤ 5
unfolding severity_index
severity_index-le a = ground arith

index-severity_at : (n : ℕ) → n ≤ 5 → severity_index (severity_at n) ≡ n
unfolding severity_index severity_at
index-severity_at zero h = refl
index-severity_at (suc zero) h = refl
index-severity_at (suc (suc zero)) h = refl
index-severity_at (suc (suc (suc zero))) h = refl
index-severity_at (suc (suc (suc (suc zero)))) h = refl
index-severity_at (suc (suc (suc (suc (suc n))))) h =
    ap (λ k. suc (suc (suc (suc (suc k))))) (omega arith)

index-worst_severity :
    (a b : String) → severity_index (worst_severity a b) ≡ max (severity_index a) (severity_index b)
unfolding worst_severity
index-worst_severity a b =
    index-severity_at (max (severity_index a) (severity_index b))
      (omega (arith, severity_index-le a, severity_index-le b))

-- The worst index among some indicators.
abbrev worst_of : ℕ → List (Probe String) → ℕ
worst_of n [] = n
worst_of n (p ∷ ps) = worst_of (max n (severity_index (safe_severity p))) ps

combine-worst :
    (acc : String) (ps : List (Probe String))
    → severity_index (combine acc ps) ≡ worst_of (severity_index acc) ps
unfolding combine
combine-worst acc [] = refl
combine-worst acc (p ∷ ps) =
    combine-worst (worst_severity acc (safe_severity p)) ps
    ∙ ap (λ n. worst_of n ps) (index-worst_severity acc (safe_severity p))

le-worst_of : (n : ℕ) (ps : List (Probe String)) → n ≤ worst_of n ps
le-worst_of n [] = omega arith
le-worst_of n (p ∷ ps) = omega (arith, le-worst_of (max n (severity_index (safe_severity p))) ps)

All-le-worst_of :
    (n : ℕ) (ps : List (Probe String))
    → All (λ p. severity_index (safe_severity p) ≤ worst_of n ps) ps
All-le-worst_of n [] = tt
All-le-worst_of n (p ∷ ps) = (
  omega (arith, le-worst_of (max n (severity_index (safe_severity p))) ps),
  All-le-worst_of (max n (severity_index (safe_severity p))) ps,
)

-- Some indicator has the index.
abbrev pub Attained : ℕ → List (Probe String) → Type 0
Attained n [] = ⊥
Attained n (p ∷ ps) = (severity_index (safe_severity p) ≡ n) ⊎ Attained n ps

worst_of-Attained :
    (n : ℕ) (ps : List (Probe String)) → (worst_of n ps ≡ n) ⊎ Attained (worst_of n ps) ps
worst_of-Attained n [] = inl refl
worst_of-Attained n (p ∷ ps) = step (worst_of-Attained (max n k) ps)
  where
    k : ℕ
    k = severity_index (safe_severity p)

    step :
        (worst_of (max n k) ps ≡ max n k) ⊎ Attained (worst_of (max n k) ps) ps
        → (worst_of (max n k) ps ≡ n) ⊎ Attained (worst_of (max n k) ps) (p ∷ ps)
    step (inl e) = grind arith
    step (inr a) = inr (inr a)

-- No indicator is more severe than the status of the payload, and the status is "ok" or as severe
-- as one of the indicators; an indicator that raised counts as a warning.
pub build_risk_health_payload-worst :
    (ps : List (Probe String))
    → let worst = severity_index (build_risk_health_payload ps) in
      All (λ p. severity_index (safe_severity p) ≤ worst) ps × ((worst ≡ 0) ⊎ Attained worst ps)
unfolding build_risk_health_payload
build_risk_health_payload-worst ps =
    rw (combine-worst "ok" ps)
      (unfold severity_index in (All-le-worst_of 0 ps, worst_of-Attained 0 ps))
