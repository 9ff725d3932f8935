-- ===== src/Compliance/Report/Tests.antt =====
-- The report of a mapped scan, and the theorem at it.
use compliance_engine.Common.{
  ℕ, ◌+◌, true, false, some, none, ◌≡◌, refl, [], ◌∷◌, List, String, inl, inr, length,
}
use compliance_engine.Json.{end}
use compliance_engine.Findings.Repository.{Finding, fail, open_finding}
use compliance_engine.Compliance.Mapper.{Control}
use compliance_engine.Compliance.Store.{Framework, Db, get_framework, map_scan, list_controls}
use compliance_engine.Compliance.Store.Scan.{score_of}
use compliance_engine.Compliance.Report.{ComplianceReport, get_scan_compliance}
use compliance_engine.Compliance.Report.Mapped.{get_scan_compliance-map_scan}

abbrev nist : Framework
nist = record {
  framework_id = "nist_800_53_rev5_aws";
  title = "NIST";
  display_title = some "NIST 800-53";
  provider = "aws";
  version_label = "5";
  requires_license = false;
  enabled = true;
  customer_visible = true;
}

abbrev control : String → List String → Control
control id policies = record {
  framework_id = "nist_800_53_rev5_aws";
  control_id = id;
  title = "Access";
  display_title = none;
  domain = none;
  severity = "high";
  assessment_type = "automated";
  mapped_policy_ids = policies;
}

abbrev failing : Finding
failing = record {
  id = 1;
  tenant_id = 1;
  scan_id = 2;
  policy_id = "p-1";
  resource_id = "b-1";
  resource_type = "storage.bucket";
  result = fail;
  status = open_finding;
  severity = "high";
  title = "Open";
  description = none;
  evidence = end;
}

abbrev db : Db
db = record {
  frameworks = nist ∷ [];
  controls = control "AC-2" ("p-1" ∷ []) ∷ control "AC-1" [] ∷ [];
  findings = failing ∷ [];
  control_results = [];
  scan_scores = [];
}

abbrev rate : ℕ → ℕ → ℕ
rate passes assessed = 0

enabled : get_framework false "nist_800_53_rev5_aws" db ≡ some nist
unfolding get_framework
enabled = refl

shown : get_framework true "nist_800_53_rev5_aws" db ≡ some nist
unfolding get_framework
shown = refl

not_mapped : get_scan_compliance rate 1 2 "nist_800_53_rev5_aws" true db ≡ none
unfolding get_scan_compliance
not_mapped = refl

get_scan_compliance-map_scan_example :
    (r : ComplianceReport) × (get_scan_compliance rate 1 2 "nist_800_53_rev5_aws" true
        (map_scan 1 2 none db).1
      ≡ some r)
    × (r.score ≡ (score_of 1 2 "nist_800_53_rev5_aws" db).0)
    × (r.summary ≡ (score_of 1 2 "nist_800_53_rev5_aws" db).1)
    × (r.coverage.assessed + r.coverage.not_assessed + r.coverage.manual ≡ r.coverage.total_checks)
    × (r.coverage.total_checks ≡ length (list_controls "nist_800_53_rev5_aws" db))
get_scan_compliance-map_scan_example =
    get_scan_compliance-map_scan rate 1 2 true db "nist_800_53_rev5_aws" nist nist
      (inr (inr (inl refl))) enabled shown
