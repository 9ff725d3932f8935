-- ===== src/Findings/Resources/Tests.antt =====
-- The neighbours and the risk of a resource, and the theorems at them.
use compliance_engine.Common.{false, ℕ, String, ◌≡◌, refl, none, List, [], ◌∷◌, All, length, Option}
use compliance_engine.Common.Keyed.{DistinctBy}
use compliance_engine.Json.{Json, end, obj}
use compliance_engine.Scans.Rows.{Relationship, Resource}
use compliance_engine.Findings.Repository.{Finding, Verdict, fail, pass, open_finding}
use compliance_engine.Findings.Resources.{
  RelatedResource, build_related_resources, build_resource_risk, fails_at, is_skipped,
}
use compliance_engine.Findings.Resources.Related.{
  build_related_resources-Distinct, ids, ArePeers, IsListed,
}
use compliance_engine.Findings.Resources.Level.{build_resource_risk-IsLevel, IsLevel}

abbrev finding : ℕ → String → String → String → Verdict → Finding
finding id policy_id resource_id severity result = record {
  id = id;
  tenant_id = 1;
  scan_id = 1;
  policy_id = policy_id;
  resource_id = resource_id;
  resource_type = "compute.instance";
  result = result;
  status = open_finding;
  severity = severity;
  title = policy_id;
  description = none;
  evidence = end;
}

abbrev shown : Json → String
shown v = "?"

abbrev edge : String → String → Relationship
edge source target = record {
  tenant_id = 1;
  scan_id = 1;
  from_resource_id = source;
  to_resource_id = target;
  relationship_type = "";
  properties = obj end;
}

abbrev edges : List Relationship
edges = edge "a" "b" ∷ edge "c" "a" ∷ edge "a" "a" ∷ edge "b" "a" ∷ edge "a" "x/d" ∷ []

abbrev no_asset : String → Option Resource
no_asset id = none

neighbours : ids (build_related_resources shown "a" no_asset edges) ≡ "b" ∷ "c" ∷ "x/d" ∷ []
unfolding build_related_resources
neighbours = refl

build_related_resources-Distinct_example :
    DistinctBy
      (λ (r : RelatedResource). r.resource_id)
      (build_related_resources shown "a" no_asset edges)
    × All
        (λ (r : RelatedResource). is_skipped "a" r.resource_id ≡ false)
        (build_related_resources shown "a" no_asset edges)
    × ArePeers "a" shown no_asset edges (build_related_resources shown "a" no_asset edges)
    × All (IsListed "a" shown no_asset (build_related_resources shown "a" no_asset edges)) edges
build_related_resources-Distinct_example = build_related_resources-Distinct "a" shown no_asset edges

abbrev three : List Finding
three =
    finding 1 "P" "r1" "medium" fail
    ∷ finding 2 "Q" "r1" "high" fail
    ∷ finding 3 "R" "r1" "critical" pass
    ∷ []

level_high : (build_resource_risk shown [] three "r1").risk_level ≡ "high"
unfolding build_resource_risk
level_high = refl

build_resource_risk-IsLevel_example :
    IsLevel (build_resource_risk shown [] three "r1").risk_level (fails_at "r1" three)
    × ((build_resource_risk shown [] three "r1").finding_count ≡ length (fails_at "r1" three))
build_resource_risk-IsLevel_example = build_resource_risk-IsLevel shown [] three "r1"
