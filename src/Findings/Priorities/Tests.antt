-- ===== src/Findings/Priorities/Tests.antt =====
-- The summary of five findings, and the theorems at them.
use compliance_engine.Common.{ℕ, arith, String, ◌≡◌, refl, none, List, [], ◌∷◌, map, take, All}
use compliance_engine.Json.{Json, end}
use compliance_engine.Findings.Repository.{Finding, Verdict, fail, pass, open_finding}
use compliance_engine.Findings.Priorities.{
  TopRisk, build_fix_priorities, build_risk_summary, build_resource_inventory_stats, ranked_fails,
  top_risk,
}
use compliance_engine.Findings.Priorities.Ranked.{finding_ids}
use compliance_engine.Findings.Priorities.TopRisks.{
  build_risk_summary-TopRisks, firsts, DistinctPolicies, Represented,
}

abbrev finding : ℕ → String → String → String → Verdict → Finding
finding id policy_id resource_id severity result = record {
  id = id;
  tenant_id = 1;
  scan_id = 1;
  policy_id = policy_id;
  resource_id = resource_id;
  resource_type = "compute.instance";
  result = result;
  status = open_finding;
  severity = severity;
  title = policy_id;
  description = none;
  evidence = end;
}

abbrev shown : Json → String
shown v = "?"

abbrev five : List Finding
five =
    finding 1 "P_A" "r1" "low" fail
    ∷ finding 2 "P_B" "r1" "critical" fail
    ∷ finding 3 "P_A" "r2" "high" fail
    ∷ finding 4 "P_C" "r3" "critical" pass
    ∷ finding 5 "P_B" "r2" "critical" fail
    ∷ []

-- Findings of one priority stay in their order.
priorities : finding_ids (build_fix_priorities shown [] five 3) ≡ 2 ∷ 5 ∷ 3 ∷ []
unfolding build_fix_priorities
priorities = refl

worst :
    map (λ (r : TopRisk). r.finding_id) (build_risk_summary shown [] five none 5 none).top_risks
    ≡ 2 ∷ 3 ∷ []
unfolding build_risk_summary
worst = refl

-- One risk is named even where none is asked for.
worst_of_none :
    map (λ (r : TopRisk). r.finding_id) (build_risk_summary shown [] five none 0 none).top_risks
    ≡ 2 ∷ []
unfolding build_risk_summary
worst_of_none = refl

inventory : (build_resource_inventory_stats five 3).resources_protected ≡ 1
unfolding build_resource_inventory_stats
inventory = refl

build_risk_summary-TopRisks_example :
    ((build_risk_summary shown [] five none 5 none).top_risks
      ≡ map (top_risk shown []) (take 5 (firsts [] (ranked_fails shown [] five))))
    × DistinctPolicies (firsts [] (ranked_fails shown [] five))
    × All
        (λ f. Represented shown [] f (firsts [] (ranked_fails shown [] five)))
        (ranked_fails shown [] five)
build_risk_summary-TopRisks_example =
    build_risk_summary-TopRisks shown [] five none 5 none (omega arith)
