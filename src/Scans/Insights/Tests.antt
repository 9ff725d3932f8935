-- ===== src/Scans/Insights/Tests.antt =====
-- The insights of a scan with two resources and three findings, and the theorems at them.
use compliance_engine.Common.{
  ℕ, ◌-◌, String, ◌≡◌, refl, none, List, [], ◌∷◌, ◌&&◌, count, keep, length,
}
use compliance_engine.Json.{end, null}
use compliance_engine.Compliance.Mapper.{percent_hundredths}
use compliance_engine.Findings.Repository.{Finding, Verdict, fail, pass, open_finding}
use compliance_engine.Scans.Rows.{World, Resource}
use compliance_engine.Scans.Inventory.{count_resources}
use compliance_engine.Scans.Insights.{inventory_completeness, policy_coverage, policy_is}
use compliance_engine.Scans.Insights.Coverage.{find_result, find_count}
use compliance_engine.Scans.Insights.Completeness.{inventory_completeness-Lacks, lacks}
use compliance_engine.Scans.Insights.Counts.{policy_coverage-Counts, with_verdict, given_count}

abbrev resource : String → String → Resource
resource resource_id resource_type = record {
  tenant_id = 1;
  scan_id = 2;
  resource_id = resource_id;
  resource_type = resource_type;
  provider = "aws";
  provider_type = "aws.any";
  integration_id = 3;
  account_id = "1";
  region = none;
  properties = null;
  tags = null;
}

abbrev finding : ℕ → String → String → Verdict → Finding
finding id policy_id resource_id result = record {
  id = id;
  tenant_id = 1;
  scan_id = 2;
  policy_id = policy_id;
  resource_id = resource_id;
  resource_type = "storage.bucket";
  result = result;
  status = open_finding;
  severity = "low";
  title = policy_id;
  description = none;
  evidence = end;
}

abbrev rows : List Finding
rows = finding 1 "P_B" "b-1" fail ∷ finding 2 "P_A" "b-1" pass ∷ finding 3 "P_B" "b-2" fail ∷ []

abbrev world : World
world = record {
  fresh = 9;
  integrations = [];
  scans = [];
  runs = [];
  events = [];
  resources =
      resource "b-1" "storage.bucket" ∷ resource "b-2" "storage.bucket" ∷ resource "l" "log" ∷ [];
  relationships = [];
  evaluation_runs = [];
  compliance = record {
    frameworks = [];
    controls = [];
    findings = rows;
    control_results = [];
    scan_scores = [];
  };
  aws_queue = [];
  azure_queue = [];
  policy_queue = [];
}

a_third : (inventory_completeness 1 2 world).completeness_score ≡ 3333
unfolding inventory_completeness
a_third = refl

types : (inventory_completeness 1 2 world).resource_types ≡ ("log", 1) ∷ ("storage.bucket", 2) ∷ []
unfolding inventory_completeness
types = refl

missing :
    (inventory_completeness 1 2 world).missing_types ≡ "compute.instance" ∷ "identity.user" ∷ []
unfolding inventory_completeness
missing = refl

by_policy :
    (policy_coverage 1 2 world).by_policy ≡ ("P_A", (pass, 1) ∷ []) ∷ ("P_B", (fail, 2) ∷ []) ∷ []
unfolding policy_coverage
by_policy = refl

not_evaluated : (policy_coverage 1 2 world).evaluation_status ≡ none
unfolding policy_coverage
not_evaluated = refl

inventory_completeness-Lacks_example :
    let c = inventory_completeness 1 2 world in
    (c.resource_count ≡ count_resources 1 2 world)
    × (c.missing_types ≡ keep (lacks 1 2 world) c.expected_types)
    × (c.completeness_score ≡ percent_hundredths (3 - length c.missing_types) 3)
inventory_completeness-Lacks_example = inventory_completeness-Lacks 1 2 world

policy_coverage-Counts_example :
    let c = policy_coverage 1 2 world in
    (find_count "P_B" fail c.by_policy
      ≡ given_count (count (λ f. policy_is "P_B" f && with_verdict 1 2 fail f) rows))
    × (find_result fail c.by_result ≡ given_count (count (with_verdict 1 2 fail) rows))
policy_coverage-Counts_example = policy_coverage-Counts 1 2 world "P_B" fail
