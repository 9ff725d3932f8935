-- ===== src/Scans/Integrations/Tests.antt =====
-- An Azure integration at work.
use compliance_engine.Common.{
  str_eq, if◌then◌else◌, String, Option, none, some, [], ◌∷◌, ◌≡◌, refl, Result, ok,
}
use compliance_engine.Json.{arr, obj, end, items, str, PyError}
use compliance_engine.Scans.AuthErrors.{verify_failure_is_auth}
use compliance_engine.Scans.Rows.{Integration, World}
use compliance_engine.Scans.Integrations.{verify_failure_is_auth, Access, granted, refused}
use compliance_engine.Scans.Integrations.Secrets.{status_after}

abbrev integration : Integration
integration = record {
  id = 1;
  tenant_id = 9;
  provider = "azure";
  account_id = "sub-1";
  role_arn = none;
  external_id = none;
  regions = arr (items (str "westeurope" ∷ []));
  azure_tenant_id = some "tenant";
  azure_client_id = some "client";
  azure_client_secret = some "old";
  status = "active";
}

abbrev world : World
world = record {
  fresh = 2;
  integrations = integration ∷ [];
  scans = [];
  runs = [];
  events = [];
  resources = [];
  relationships = [];
  evaluation_runs = [];
  compliance = record {
    frameworks = [];
    controls = [];
    findings = [];
    control_results = [];
    scan_scores = [];
  };
  aws_queue = [];
  azure_queue = [];
  policy_queue = [];
}

abbrev cipher : String → Result PyError String
cipher s = ok s

-- Azure knows the secret "new" only.
abbrev verify : Option String → Option String → String → String → Access
verify tenant client secret subscription =
    if str_eq secret "new"
    then granted (obj end)
    else refused (record { message = "Unauthorized"; status_code = some 401 })

refused_is_invalid : status_after (verify none none "old" "sub-1") "active" ≡ "invalid"
unfolding verify_failure_is_auth
refused_is_invalid = refl
