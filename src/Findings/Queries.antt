-- ===== src/Findings/Queries.antt =====
-- The queries of src/platform_backend/findings/repository.py, on the rows of the table, and the routes
-- of api/routes/scans.py that rank them. Texts are ordered by their code points.
pub mod Complete
mod Tests
use Prim.Native.String.{compare}
use Prim.Native.Nat.{Ordering}
use compliance_engine.Common.{
  ℕ, ◌+◌, String, Bool, true, false, ◌&&◌, Option, none, some, List, [], ◌∷◌, map, str_eq, ◌==◌,
  if◌then◌else◌, keep, count, take, drop,
}
use compliance_engine.Common.Rows.{find_by}
use compliance_engine.Common.Sort.{sort_by}
use compliance_engine.Json.{Json}
use compliance_engine.Policy.Catalog.{PolicyDefinition, given}
use compliance_engine.Findings.Repository.{
  Finding, Verdict, FindingStatus, fail, pass, error, open_finding, resolved,
}
use compliance_engine.Findings.Priorities.{
  FixPriority, RiskSummary, build_fix_priorities, build_risk_summary,
}

-- The texts of the columns.
abbrev pub verdict_text : Verdict → String
verdict_text fail = "fail"
verdict_text pass = "pass"
verdict_text error = "error"

abbrev pub status_text : FindingStatus → String
status_text open_finding = "open"
status_text resolved = "resolved"

-- A clause that stands only where its parameter is given.
abbrev pub clause : Option String → String → Bool
clause wanted text = elim (given wanted) [ none ↦ true | some w ↦ str_eq text w ]

abbrev pub in_scan : ℕ → ℕ → Finding → Bool
in_scan tenant_id scan_id f = f.tenant_id == tenant_id && f.scan_id == scan_id

-- `ORDER BY` the texts of the one and, where they are equal, by `rest`
abbrev text_then : String → String → Bool → Bool
text_then s t rest = elim (compare s t) [
  | Ordering.lt ↦ true
  | Ordering.eq ↦ rest
  | Ordering.gt ↦ false
]

abbrev pub finding_le : Finding → Finding → Bool
finding_le f g =
    text_then f.severity g.severity
      (text_then f.policy_id g.policy_id (text_then f.resource_id g.resource_id true))

abbrev pub by_severity : Finding → Finding → Bool
by_severity f g = text_then f.severity g.severity (text_then f.policy_id g.policy_id true)

-- The arguments with defaults of `list_findings`.
pub record Filter : Type 0 where
  pub result : Option String
  pub policy_id : Option String
  pub status : Option String

abbrev pub is_selected : Filter → Finding → Bool
is_selected q f =
    clause q.result (verdict_text f.result)
    && clause q.policy_id f.policy_id
    && clause q.status (status_text f.status)

unfoldable pub list_findings : ℕ → ℕ → Filter → ℕ → ℕ → List Finding → List Finding
unfolding sort_by
list_findings tenant_id scan_id q limit offset rows = take limit (
    drop offset
      (sort_by finding_le (keep (λ f. in_scan tenant_id scan_id f && is_selected q f) rows)))

abbrev pub only_failures : Filter
only_failures = record { result = some "fail"; policy_id = none; status = none }

unfoldable pub list_failures : ℕ → ℕ → ℕ → List Finding → List Finding
unfolding list_findings
list_failures tenant_id scan_id limit = list_findings tenant_id scan_id only_failures limit 0

unfoldable pub list_by_resource : ℕ → ℕ → String → Option String → ℕ → List Finding → List Finding
unfolding sort_by
list_by_resource tenant_id scan_id resource_id result limit rows = take limit (
    sort_by by_severity (
      keep
        (λ f.
          in_scan tenant_id scan_id f
          && str_eq f.resource_id resource_id
          && clause result (verdict_text f.result))
        rows))

unfoldable pub list_by_policy : ℕ → ℕ → String → String → ℕ → List Finding → List Finding
unfolding list_findings
list_by_policy tenant_id scan_id policy_id result limit =
    list_findings tenant_id scan_id
      (record { result = some result; policy_id = some policy_id; status = none }) limit 0

unfoldable pub get_finding : ℕ → ℕ → ℕ → List Finding → Option Finding
unfolding find_by
get_finding tenant_id scan_id id = find_by (λ f. in_scan tenant_id scan_id f && f.id == id)

abbrev count_of : Verdict → ℕ → ℕ → List Finding → ℕ
count_of v tenant_id scan_id =
    count (λ f. in_scan tenant_id scan_id f && str_eq (verdict_text f.result) (verdict_text v))

-- `GROUP BY result`: a result that no row has is not among the groups.
abbrev pub add_group : Verdict → ℕ → List (Verdict × ℕ) → List (Verdict × ℕ)
add_group v n groups = if n == 0 then groups else (v, n) ∷ groups

abbrev pub groups_by_result : (Verdict → ℕ) → List (Verdict × ℕ)
groups_by_result n =
    add_group fail (n fail) (add_group pass (n pass) (add_group error (n error) []))

unfoldable pub count_by_result : ℕ → ℕ → List Finding → List (Verdict × ℕ)
count_by_result tenant_id scan_id rows = groups_by_result (λ v. count_of v tenant_id scan_id rows)

-- The bound of the query in `GET /scans/{scan_id}/fix-priorities`.
abbrev pub failure_limit : ℕ
failure_limit = 500

-- The route, for a scan that is found.
unfoldable pub get_fix_priorities :
    (Json → String) → List PolicyDefinition → ℕ → ℕ → ℕ → List Finding → List FixPriority
unfolding list_failures build_fix_priorities
get_fix_priorities show catalog tenant_id scan_id limit rows =
    build_fix_priorities show catalog (list_failures tenant_id scan_id failure_limit rows) limit

-- The query of `GET /scans/{scan_id}/risk-summary` has the same bound, and takes findings of every
-- result.
abbrev pub any_result : Filter
any_result = record { result = none; policy_id = none; status = none }

-- The route, for a scan that is found; `score` is what the compliance report gives.
unfoldable pub get_risk_summary :
    (Json → String) → List PolicyDefinition → ℕ → ℕ → Option ℕ → ℕ → ℕ → List Finding → RiskSummary
unfolding list_findings build_risk_summary
get_risk_summary show catalog tenant_id scan_id score top_n resource_total rows =
    build_risk_summary show catalog
      (list_findings tenant_id scan_id any_result failure_limit 0 rows) score top_n
      (some resource_total)
