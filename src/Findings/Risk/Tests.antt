-- ===== src/Findings/Risk/Tests.antt =====
-- The signals of a public bucket.
use compliance_engine.Common.{false, ◌+◌, ◌≡◌, min, refl, none, [], ◌∷◌, ◌&&◌, not}
use compliance_engine.Json.{field, end, bool, obj}
use compliance_engine.Findings.Repository.{Finding, fail, open_finding}
use compliance_engine.Findings.Risk.{
  risk_score, why_badges, risk_base, internet_exposed, data_sensitive, publicly_accessible,
  identity_exposure, internet_badge, sensitive_data, public_resource,
}
use compliance_engine.Findings.Risk.Score.{points, risk_score-sum}

abbrev public_bucket : Finding
public_bucket = record {
  id = 1;
  tenant_id = 1;
  scan_id = 1;
  policy_id = "AWS_S3_007";
  resource_id = "b-1";
  resource_type = "storage.bucket";
  result = fail;
  status = open_finding;
  severity = "medium";
  title = "Public bucket";
  description = none;
  evidence = field "properties" (obj (field "block_public_acls" (bool false) end)) end;
}

scored : risk_score public_bucket ≡ 68
unfolding risk_score
scored = refl

badges : why_badges public_bucket ≡ internet_badge ∷ sensitive_data ∷ public_resource ∷ []
unfolding why_badges
badges = refl

risk_score-sum_example :
    risk_score public_bucket
    ≡ min 100 (
        risk_base "medium"
        + points (internet_exposed public_bucket) 12
        + points (data_sensitive public_bucket) 8
        + points (publicly_accessible public_bucket && not (internet_exposed public_bucket)) 6
        + points (identity_exposure public_bucket) 5)
risk_score-sum_example = risk_score-sum public_bucket
