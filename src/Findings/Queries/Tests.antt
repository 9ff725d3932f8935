-- ===== src/Findings/Queries/Tests.antt =====
-- Queries over five findings of two scans, and the theorem at them.
use compliance_engine.Common.{
  ℕ, arith, String, ◌&&◌, ◌≡◌, refl, none, List, [], ◌∷◌, map, str_eq, count,
}
use compliance_engine.Json.{Json, end}
use compliance_engine.Findings.Repository.{Finding, Verdict, fail, pass, open_finding}
use compliance_engine.Findings.Queries.{
  list_findings, list_failures, list_by_resource, list_by_policy, get_finding, count_by_result,
  get_risk_summary, any_result,
}
use compliance_engine.Findings.Queries.Complete.{get_risk_summary-Complete, fails_in}

abbrev finding : ℕ → ℕ → String → String → String → Verdict → Finding
finding id scan_id policy_id resource_id severity result = record {
  id = id;
  tenant_id = 1;
  scan_id = scan_id;
  policy_id = policy_id;
  resource_id = resource_id;
  resource_type = "compute.instance";
  result = result;
  status = open_finding;
  severity = severity;
  title = policy_id;
  description = none;
  evidence = end;
}

abbrev table : List Finding
table =
    finding 1 1 "P_A" "r2" "low" fail
    ∷ finding 2 1 "P_B" "r1" "critical" fail
    ∷ finding 3 2 "P_A" "r2" "high" fail
    ∷ finding 4 1 "P_A" "r1" "medium" pass
    ∷ finding 5 1 "P_A" "r1" "low" fail
    ∷ []

abbrev ids_of : List Finding → List ℕ
ids_of = map (λ (f : Finding). f.id)

-- A text's order, not the severity's.
all_of_scan : ids_of (list_findings 1 1 any_result 10 0 table) ≡ 2 ∷ 5 ∷ 1 ∷ 4 ∷ []
unfolding list_findings
all_of_scan = refl

second_page : ids_of (list_findings 1 1 any_result 2 2 table) ≡ 1 ∷ 4 ∷ []
unfolding list_findings
second_page = refl

failures : ids_of (list_failures 1 1 10 table) ≡ 2 ∷ 5 ∷ 1 ∷ []
unfolding list_failures
failures = refl

of_resource : ids_of (list_by_resource 1 1 "r1" none 10 table) ≡ 2 ∷ 5 ∷ 4 ∷ []
unfolding list_by_resource
of_resource = refl

of_policy : ids_of (list_by_policy 1 1 "P_A" "fail" 10 table) ≡ 5 ∷ 1 ∷ []
unfolding list_by_policy
of_policy = refl

of_other_scan : get_finding 1 1 3 table ≡ none
unfolding get_finding
of_other_scan = refl

groups : count_by_result 1 1 table ≡ (fail, 3) ∷ (pass, 1) ∷ []
unfolding count_by_result
groups = refl

abbrev shown : Json → String
shown v = "?"

get_risk_summary-Complete_example :
    let s = get_risk_summary shown [] 1 1 none 5 2 table in
    (s.total_findings ≡ count (fails_in 1 1) table)
    × (s.critical ≡ count (λ (f : Finding). fails_in 1 1 f && str_eq f.severity "critical") table)
    × (s.high ≡ count (λ (f : Finding). fails_in 1 1 f && str_eq f.severity "high") table)
    × (s.medium ≡ count (λ (f : Finding). fails_in 1 1 f && str_eq f.severity "medium") table)
    × (s.low ≡ count (λ (f : Finding). fails_in 1 1 f && str_eq f.severity "low") table)
    × (s.info ≡ count (λ (f : Finding). fails_in 1 1 f && str_eq f.severity "info") table)
get_risk_summary-Complete_example =
    get_risk_summary-Complete shown [] 1 1 none 5 2 table (omega arith)
