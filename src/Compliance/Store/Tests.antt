-- ===== src/Compliance/Store/Tests.antt =====
-- Mapping a small scan.
use compliance_engine.Compliance.Store.Primary.{summary_of, map_scan-result}
use compliance_engine.Common.{
  none, some, [], ◌∷◌, ◌≡◌, refl, true, false, inl, inr, if◌then◌else◌, is_some, ok, err,
}
use compliance_engine.Common.Rows.{find_by}
use compliance_engine.Json.{end}
use compliance_engine.Findings.Repository.{Finding, fail, open_finding}
use compliance_engine.Compliance.Mapper.{Control}
use compliance_engine.Compliance.Store.{
  Framework, Db, get_framework, map_scan, customer_primary_framework, framework_not_found,
}
use compliance_engine.Compliance.Store.Scan.{is_score, score_of, score_row, map_scan-scores}

abbrev soc2 : Framework
soc2 = record {
  framework_id = "soc2_aws";
  title = "SOC 2";
  display_title = none;
  provider = "aws";
  version_label = "2017";
  requires_license = false;
  enabled = true;
  customer_visible = false;
}

abbrev control : Control
control = record {
  framework_id = "soc2_aws";
  control_id = "CC6.1";
  title = "Access";
  display_title = none;
  domain = none;
  severity = "high";
  assessment_type = "automated";
  mapped_policy_ids = "p-1" ∷ [];
}

abbrev failing : Finding
failing = record {
  id = 1;
  tenant_id = 1;
  scan_id = 2;
  policy_id = "p-1";
  resource_id = "b-1";
  resource_type = "storage.bucket";
  result = fail;
  status = open_finding;
  severity = "high";
  title = "Open";
  description = none;
  evidence = end;
}

abbrev db : Db
db = record {
  frameworks = soc2 ∷ [];
  controls = control ∷ [];
  findings = failing ∷ [];
  control_results = [];
  scan_scores = [];
}

soc2_enabled : get_framework false "soc2_aws" db ≡ some soc2
unfolding get_framework
soc2_enabled = refl

map_scan-scores_example :
    find_by (is_score 1 2 "soc2_aws") (map_scan 1 2 none db).1.scan_scores
    ≡ some (score_row 1 2 "soc2_aws" (score_of 1 2 "soc2_aws" db))
map_scan-scores_example =
    map_scan-scores 1 2 db "soc2_aws" soc2 (inr (inr (inr (inr (inl refl))))) soc2_enabled

map_scan-result_example : (map_scan 1 2 none db).0 ≡ (
    if is_some (get_framework false customer_primary_framework db)
    then ok (summary_of 1 2 customer_primary_framework (score_of 1 2 customer_primary_framework db))
    else err (framework_not_found customer_primary_framework))
map_scan-result_example = map_scan-result 1 2 db
