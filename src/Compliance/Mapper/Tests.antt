-- ===== src/Compliance/Mapper/Tests.antt =====
-- Controls and scores of a small framework.
use compliance_engine.Common.{◌+◌, ◌<◌, ◌≡◌, ◌≢◌, none, List, [], ◌∷◌, refl, arith}
use compliance_engine.Json.{end}
use compliance_engine.Findings.Repository.{fail, pass}
use compliance_engine.Compliance.Mapper.{
  PolicyFinding, ByPolicy, Control, ControlAggregate, aggregate_control, passed, failed, errored,
  count_status, compute_score,
}
use compliance_engine.Compliance.Mapper.Status.{IsJudged, aggregate_control-IsJudged}

abbrev failing : PolicyFinding
failing = record {
  id = 7;
  resource_id = "b-1";
  result = fail;
  severity = "high";
  title = "No public bucket";
  evidence = end;
}

abbrev grouped : ByPolicy
grouped = ("p-1", failing ∷ record failing { id = 8; result = pass } ∷ []) ∷ []

abbrev control : Control
control = record {
  framework_id = "cis_aws_v6";
  control_id = "2.1";
  title = "Buckets";
  display_title = none;
  domain = none;
  severity = "high";
  assessment_type = "automated";
  mapped_policy_ids = "p-1" ∷ "p-2" ∷ [];
}

one_failed : (aggregate_control control grouped).finding_ids ≡ 7 ∷ []
unfolding aggregate_control
one_failed = refl

automated : control.assessment_type ≢ "manual"
automated e = cc

aggregate_control-IsJudged_example : IsJudged (aggregate_control control grouped)
aggregate_control-IsJudged_example = aggregate_control-IsJudged control grouped automated

abbrev with_pass : ControlAggregate
with_pass = record (aggregate_control control []) { status = passed }

abbrev with_fail : ControlAggregate
with_fail = record (aggregate_control control []) { status = failed }

abbrev three : List ControlAggregate
three = with_pass ∷ with_pass ∷ with_fail ∷ []

two_thirds : (compute_score three).0 ≡ 6667
unfolding compute_score
two_thirds = refl

three_assessed :
    0 < count_status passed three + count_status failed three + count_status errored three
unfolding count_status
three_assessed = omega arith
