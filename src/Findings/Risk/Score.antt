-- ===== src/Findings/Risk/Score.antt =====
-- The score as one saturated sum.
use compliance_engine.Common.{ℕ, ◌+◌, ◌≤◌, ◌≡◌, min, String, Bool, not, ◌&&◌, if◌then◌else◌, arith}
use compliance_engine.Findings.Repository.{Finding}
use compliance_engine.Findings.Risk.{
  risk_base, internet_exposed, publicly_accessible, identity_exposure, data_sensitive, risk_score,
  raise_if,
}

abbrev pub points : Bool → ℕ → ℕ
points test n = if test then n else 0

risk_base-le : (severity : String) → risk_base severity ≤ 92
risk_base-le severity = ground arith

raise_if-min : (test : Bool) (n s : ℕ) → s ≤ 100 → raise_if test n s ≡ min 100 (s + points test n)
raise_if-min test n s h = ground arith

-- Saturation at each step is saturation at the end.
four_steps :
    (a b c d : Bool) (s : ℕ)
    → s ≤ 100
    → raise_if d 5 (raise_if c 6 (raise_if b 8 (raise_if a 12 s)))
      ≡ min 100 (s + points a 12 + points b 8 + points c 6 + points d 5)
four_steps a b c d s h = omega (
  arith,
  raise_if-min a 12 s h,
  raise_if-min b 8 (raise_if a 12 s),
  raise_if-min c 6 (raise_if b 8 (raise_if a 12 s)),
  raise_if-min d 5 (raise_if c 6 (raise_if b 8 (raise_if a 12 s))),
)

-- The risk score of a finding is the base of its severity, 12 more where it is exposed to the
-- internet, 8 more for sensitive data, 6 more where it is public but not exposed and 5 more
-- for an identity, all capped at 100 once: capping at each step makes no difference.
pub risk_score-sum :
    (f : Finding)
    → risk_score f
      ≡ min 100 (
          risk_base f.severity
          + points (internet_exposed f) 12
          + points (data_sensitive f) 8
          + points (publicly_accessible f && not (internet_exposed f)) 6
          + points (identity_exposure f) 5)
unfolding risk_score
risk_score-sum f =
    four_steps (internet_exposed f) (data_sensitive f)
      (publicly_accessible f && not (internet_exposed f)) (identity_exposure f)
      (risk_base f.severity) (omega (arith, risk_base-le f.severity))
