-- ===== src/Compliance/Mapper.antt =====
-- src/platform_backend/compliance/mapper.py: the status of each control of a framework from the
-- findings of its policies, and the score of the framework.
pub mod Status
pub mod Score
mod Tests
use compliance_engine.Common.{
  ℕ, ◌+◌, ◌*◌, ◌/◌, String, Bool, true, false, ◌||◌, Option, none, some, List, [], ◌∷◌, ◌++◌, map,
  str_eq, if◌then◌else◌, ◌==◌, ltb, keep, count, length, any,
}
use compliance_engine.Json.{Fields}
use compliance_engine.Policy.Catalog.{given}
use compliance_engine.Findings.Repository.{Verdict, fail, pass, error, is_fail}

-- The finding dict of `get_findings_by_policy`.
pub record PolicyFinding : Type 0 where
  pub id : ℕ
  pub resource_id : String
  pub result : Verdict
  pub severity : String
  pub title : String
  pub evidence : Fields

-- `findings_by_policy`
abbrev pub ByPolicy : Type 0
ByPolicy = List (String × List PolicyFinding)

-- `findings_by_policy.get(policy_id, [])`
unfoldable pub findings_of : String → ByPolicy → List PolicyFinding
findings_of k [] = []
findings_of k ((j, fs) ∷ m) = if str_eq j k then fs else findings_of k m

-- A row of `list_controls`.
pub record Control : Type 0 where
  pub framework_id : String
  pub control_id : String
  pub title : String
  pub display_title : Option String
  pub domain : Option String
  pub severity : String
  pub assessment_type : String
  pub mapped_policy_ids : List String

-- The texts "pass", "fail", "error", "not_assessed" and "manual" of a control's status.
pub data ControlStatus : Type 0 where
  passed failed errored not_assessed manual : ControlStatus

pub record PolicyEvidence : Type 0 where
  pub fails : ℕ
  pub passes : ℕ
  pub errors : ℕ
  pub findings : List PolicyFinding

-- The dicts `{"assessment": "manual"}`, `{"reason": "no_policy_mapping"}` and `{"policies": …}`.
pub data ControlEvidence : Type 0 where
  by_hand no_policy_mapping : ControlEvidence
  policies : List (String × PolicyEvidence) → ControlEvidence

pub record ControlAggregate : Type 0 where
  pub framework_id : String
  pub control_id : String
  pub title : String
  pub domain : Option String
  pub severity : String
  pub assessment_type : String
  pub mapped_policy_ids : List String
  pub status : ControlStatus
  pub fail_count : ℕ
  pub pass_count : ℕ
  pub finding_ids : List ℕ
  pub evidence : ControlEvidence

abbrev pub is_pass : Verdict → Bool
is_pass pass = true
is_pass _ = false

abbrev pub is_error : Verdict → Bool
is_error error = true
is_error _ = false

unfoldable pub count_result : (Verdict → Bool) → List PolicyFinding → ℕ
count_result p fs = count (λ (f : PolicyFinding). p f.result) fs

-- The variables of the loop over `mapped_policy_ids`.
pub record Tally : Type 0 where
  pub fail_count : ℕ
  pub pass_count : ℕ
  pub finding_ids : List ℕ
  pub evidence : List (String × PolicyEvidence)
  pub has_error : Bool

-- `evidence["policies"][policy_id] = …`
unfoldable pub put_evidence :
    String → PolicyEvidence → List (String × PolicyEvidence) → List (String × PolicyEvidence)
put_evidence k e [] = (k, e) ∷ []
put_evidence k e ((j, d) ∷ m) = if str_eq j k then (j, e) ∷ m else (j, d) ∷ put_evidence k e m

unfoldable pub tally_policy : String → List PolicyFinding → Tally → Tally
unfolding count_result put_evidence
tally_policy policy_id fs t = record {
  fail_count = t.fail_count + count_result is_fail fs;
  pass_count = t.pass_count + count_result is_pass fs;
  finding_ids =
      t.finding_ids
      ++ map (λ (f : PolicyFinding). f.id) (keep (λ (f : PolicyFinding). is_fail f.result) fs);
  evidence =
      put_evidence policy_id
        (record {
          fails = count_result is_fail fs;
          passes = count_result is_pass fs;
          errors = count_result is_error fs;
          findings = fs;
        })
        t.evidence;
  has_error = t.has_error || ltb 0 (count_result is_error fs);
}

unfoldable pub tally : ByPolicy → List String → Tally → Tally
unfolding tally_policy findings_of
tally m [] t = t
tally m (pid ∷ pids) t = tally m pids (tally_policy pid (findings_of pid m) t)

abbrev pub is_nil : List PolicyFinding → Bool
is_nil [] = true
is_nil (_ ∷ _) = false

-- `any(findings_by_policy.get(pid) for pid in mapped_policy_ids)`
unfoldable pub any_findings : ByPolicy → List String → Bool
unfolding findings_of
any_findings m [] = false
any_findings m (pid ∷ pids) =
    (if is_nil (findings_of pid m) then false else true) || any_findings m pids

unfoldable pub tally_status : Bool → Tally → ControlStatus
tally_status found t =
    if found
    then (if ltb 0 t.fail_count then failed else if t.has_error then errored else passed)
    else not_assessed

abbrev pub empty_tally : Tally
empty_tally = record {
  fail_count = 0;
  pass_count = 0;
  finding_ids = [];
  evidence = [];
  has_error = false;
}

abbrev pub customer_title : Control → String
customer_title c = elim (given c.display_title) [ some t ↦ t | none ↦ c.title ]

-- The aggregate with the control's own columns.
abbrev pub aggregate_with :
    Control → ControlStatus → ℕ → ℕ → List ℕ → ControlEvidence → ControlAggregate
aggregate_with c status fail_count pass_count finding_ids evidence = record {
  framework_id = c.framework_id;
  control_id = c.control_id;
  title = customer_title c;
  domain = c.domain;
  severity = c.severity;
  assessment_type = c.assessment_type;
  mapped_policy_ids = c.mapped_policy_ids;
  status = status;
  fail_count = fail_count;
  pass_count = pass_count;
  finding_ids = finding_ids;
  evidence = evidence;
}

-- The part of `_aggregate_control` for a control that is not manual.
unfoldable pub aggregate_automated : Control → ByPolicy → List String → ControlAggregate
unfolding tally any_findings tally_status
aggregate_automated c m [] = aggregate_with c not_assessed 0 0 [] no_policy_mapping
aggregate_automated c m (pid ∷ pids) =
    let t = tally m (pid ∷ pids) empty_tally in
    aggregate_with c (tally_status (any_findings m (pid ∷ pids)) t) t.fail_count t.pass_count
      t.finding_ids (policies t.evidence)

-- `_aggregate_control`
unfoldable pub aggregate_control : Control → ByPolicy → ControlAggregate
unfolding aggregate_automated
aggregate_control c m =
    if str_eq c.assessment_type "manual"
    then aggregate_with c manual 0 0 [] by_hand
    else aggregate_automated c m c.mapped_policy_ids

pub record Summary : Type 0 where
  pub passes : ℕ
  pub fails : ℕ
  pub not_assessed_count : ℕ
  pub manual_count : ℕ
  pub errors : ℕ
  pub total : ℕ

abbrev pub same_status : ControlStatus → ControlStatus → Bool
same_status passed passed = true
same_status failed failed = true
same_status errored errored = true
same_status not_assessed not_assessed = true
same_status manual manual = true
same_status _ _ = false

unfoldable pub count_status : ControlStatus → List ControlAggregate → ℕ
count_status s xs = count (λ (a : ControlAggregate). same_status a.status s) xs

-- `(Decimal(pass) / Decimal(assessed) * 100).quantize(Decimal("0.01"), ROUND_HALF_UP)`, in
-- hundredths. The quotient's 28 digits decide the rounding as the exact quotient does: a half of a
-- hundredth has six decimals at most, and any other quotient by less than 10 ^ 20 is farther from it
-- than the last digit.
unfoldable pub percent_hundredths : ℕ → ℕ → ℕ
percent_hundredths part whole = if whole == 0 then 0 else (20000 * part + whole) / (2 * whole)

-- `_compute_score`: the score in hundredths, and the counts.
unfoldable pub compute_score : List ControlAggregate → ℕ × Summary
unfolding count_status percent_hundredths
compute_score xs = (
  percent_hundredths (count_status passed xs)
      (count_status passed xs + count_status failed xs + count_status errored xs),
  record {
    passes = count_status passed xs;
    fails = count_status failed xs;
    not_assessed_count = count_status not_assessed xs;
    manual_count = count_status manual xs;
    errors = count_status errored xs;
    total = length xs;
  },
)
