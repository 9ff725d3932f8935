-- ===== src/Scans/Insights.antt =====
-- `ScanInsightsRepository` of src/platform_backend/platform/repositories/scan_insights.py.
pub mod Completeness
mod Coverage
pub mod Counts
mod Tests
use compliance_engine.Common.{
  ℕ, ◌+◌, String, Bool, true, false, not, ◌&&◌, Option, none, some, List, [], ◌∷◌, ◌++◌, map,
  str_eq, ◌==◌, if◌then◌else◌, keep, length, count,
}
use compliance_engine.Common.Sort.{sort_by}
use compliance_engine.Common.Rows.{find_by}
use compliance_engine.Common.Groups.{group_by, group_keys, sum_counts, has_group}
use compliance_engine.Compliance.Store.{text_le}
use compliance_engine.Compliance.Mapper.{percent_hundredths}
use compliance_engine.Findings.Repository.{Finding, Verdict}
use compliance_engine.Findings.Queries.{in_scan, verdict_text, count_by_result}
use compliance_engine.Scans.Rows.{World, Resource, EvaluationRun}

abbrev pub aws_starter_resource_types : List String
aws_starter_resource_types = "identity.user" ∷ "storage.bucket" ∷ "compute.instance" ∷ []

-- The score is in hundredths of a percent.
pub record InventoryCompleteness : Type 0 where
  pub scan_id : ℕ
  pub resource_count : ℕ
  pub resource_types : List (String × ℕ)
  pub expected_types : List String
  pub missing_types : List String
  pub completeness_score : ℕ

abbrev pub resources_of : ℕ → ℕ → World → List Resource
resources_of tenant_id scan_id w =
    keep (λ (r : Resource). r.tenant_id == tenant_id && r.scan_id == scan_id) w.resources

unfoldable pub inventory_completeness : ℕ → ℕ → World → InventoryCompleteness
unfolding sort_by group_by percent_hundredths
inventory_completeness tenant_id scan_id w =
    let collected =
      group_by text_le (λ (r : Resource). r.resource_type) (resources_of tenant_id scan_id w) in
    let expected = sort_by text_le aws_starter_resource_types in
    let present = keep (λ t. has_group t collected) expected in
    record {
      scan_id = scan_id;
      resource_count = sum_counts collected;
      resource_types = collected;
      expected_types = expected;
      missing_types = keep (λ t. not (has_group t collected)) expected;
      completeness_score = percent_hundredths (length present) (length expected);
    }

-- A row of the query `GROUP BY policy_id, result`, and the dict that is made of the rows.
abbrev pub PolicyRow : Type 0
PolicyRow = String × Verdict × ℕ

abbrev pub PolicyCounts : Type 0
PolicyCounts = List (String × List (Verdict × ℕ))

abbrev pub same_verdict : Verdict → Verdict → Bool
same_verdict v w = str_eq (verdict_text v) (verdict_text w)

abbrev pub policy_is : String → Finding → Bool
policy_is p f = str_eq f.policy_id p

abbrev pub rows_of_policy : String → List (Verdict × ℕ) → List PolicyRow
rows_of_policy p = map (λ (g : Verdict × ℕ). (p, g.0, g.1))

module _ (tenant_id scan_id : ℕ) (findings : List Finding) where
  abbrev pub groups_of : String → List (Verdict × ℕ)
  unfolding count_by_result
  groups_of p = count_by_result tenant_id scan_id (keep (policy_is p) findings)

  unfoldable pub rows_of_policies : List String → List PolicyRow
  unfolding count_by_result
  rows_of_policies [] = []
  rows_of_policies (p ∷ ps) = rows_of_policy p (groups_of p) ++ rows_of_policies ps

  abbrev pub policies_of : List String
  policies_of =
      group_keys text_le (λ (f : Finding). f.policy_id) (keep (in_scan tenant_id scan_id) findings)

  abbrev pub policy_rows : List PolicyRow
  policy_rows = rows_of_policies policies_of

-- `d[row["result"]] = row["count"]`
unfoldable pub set_result : Verdict → ℕ → List (Verdict × ℕ) → List (Verdict × ℕ)
set_result v n [] = (v, n) ∷ []
set_result v n ((w, m) ∷ d) = if same_verdict w v then (w, n) ∷ d else (w, m) ∷ set_result v n d

-- The body of the loop: `by_policy.setdefault(row["policy_id"], {})[…] = …`
unfoldable pub add_policy_row : PolicyRow → PolicyCounts → PolicyCounts
unfolding set_result
add_policy_row (p, v, n) [] = (p, (v, n) ∷ []) ∷ []
add_policy_row (p, v, n) ((q, d) ∷ by_policy) =
    if str_eq q p
    then (q, set_result v n d) ∷ by_policy
    else (q, d) ∷ add_policy_row (p, v, n) by_policy

unfoldable pub collect_policies : List PolicyRow → PolicyCounts → PolicyCounts
unfolding add_policy_row
collect_policies [] by_policy = by_policy
collect_policies (row ∷ rows) by_policy = collect_policies rows (add_policy_row row by_policy)

pub record PolicyCoverage : Type 0 where
  pub scan_id : ℕ
  pub evaluation_status : Option String
  pub policies_evaluated : ℕ
  pub findings_total : ℕ
  pub fail_count : ℕ
  pub by_result : List (Verdict × ℕ)
  pub by_policy : PolicyCounts

abbrev coverage_with : ℕ → List (Verdict × ℕ) → PolicyCounts → Option EvaluationRun → PolicyCoverage
coverage_with scan_id by_result by_policy run = record {
  scan_id = scan_id;
  evaluation_status = (elim run [ none ↦ none | some r ↦ some r.status ]);
  policies_evaluated = (elim run [ none ↦ 0 | some r ↦ r.policies_run ]);
  findings_total = (elim run [ none ↦ 0 | some r ↦ r.findings_count ]);
  fail_count = (elim run [ none ↦ 0 | some r ↦ r.fail_count ]);
  by_result = by_result;
  by_policy = by_policy;
}

unfoldable pub policy_coverage : ℕ → ℕ → World → PolicyCoverage
unfolding find_by count_by_result rows_of_policies group_keys collect_policies
policy_coverage tenant_id scan_id w =
    let findings : List Finding = w.compliance.findings in
    coverage_with scan_id (count_by_result tenant_id scan_id findings)
      (collect_policies (policy_rows tenant_id scan_id findings) [])
      (find_by (λ (r : EvaluationRun). r.tenant_id == tenant_id && r.scan_id == scan_id)
        w.evaluation_runs)
