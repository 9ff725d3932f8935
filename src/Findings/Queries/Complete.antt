-- ===== src/Findings/Queries/Complete.antt =====
-- The routes that rank the findings of a scan, within the bound of their queries.
use compliance_engine.Findings.Repository.{fail, pass, error}
use compliance_engine.Findings.Priorities.{fails_of, count_severity}
use compliance_engine.Findings.Priorities.Ranked.{build_fix_priorities-Ranked, ranks, range_from}
use compliance_engine.Findings.Queries.{
  list_failures, get_fix_priorities, get_risk_summary, any_result, only_failures, failure_limit,
}
use compliance_engine.Common.Pages.{take-all}
use compliance_engine.Common.{count-keep, count-congr, Option, min}
use compliance_engine.Json.{Json}
use compliance_engine.Policy.Catalog.{PolicyDefinition}
use compliance_engine.Common.{
  String, str_eq, ℕ, ◌≤◌, Bool, true, false, ◌&&◌, ◌≡◌, refl, ap, ◌∙◌, List, arith, length, count,
  keep, length-keep,
}
use compliance_engine.Common.Sort.{sort_by, count-sort_by, length-sort_by}
use compliance_engine.Findings.Repository.{Finding, is_fail}
use compliance_engine.Findings.Priorities.{}
use compliance_engine.Findings.Queries.{
  failure_limit, PolicyDefinition, verdict_text, Json, Verdict, list_findings, in_scan, is_selected,
  Filter, finding_le,
}

and_true : (a b : Bool) → b ≡ true → (a && b) ≡ a
and_true true b h = h
and_true false b h = refl

module _ (tenant_id scan_id : ℕ) (q : Filter) (rows : List Finding) where
  abbrev selected : Finding → Bool
  selected f = in_scan tenant_id scan_id f && is_selected q f

  -- A count over the list is a count over the table, where the bound is not met.
  count-list_findings :
      (p : Finding → Bool) (limit : ℕ)
      → count selected rows ≤ limit
      → count p (list_findings tenant_id scan_id q limit 0 rows)
        ≡ count (λ f. selected f && p f) rows
  unfolding list_findings
  count-list_findings p limit h =
      let sorted = sort_by finding_le (keep selected rows) in
      ap (count p) (
        take-all limit sorted (
          omega (arith, length-sort_by finding_le (keep selected rows), length-keep selected rows)))
      ∙ count-sort_by p finding_le (keep selected rows)
      ∙ count-keep p selected rows

abbrev pub fails_in : ℕ → ℕ → Finding → Bool
fails_in tenant_id scan_id f = in_scan tenant_id scan_id f && is_fail f.result

and_shuffle : (a b c : Bool) → ((a && true) && (b && c)) ≡ ((a && b) && c)
and_shuffle true b c = refl
and_shuffle false b c = refl

verdict_fail : (v : Verdict) → str_eq (verdict_text v) "fail" ≡ is_fail v
verdict_fail fail = refl
verdict_fail pass = refl
verdict_fail error = refl

and_end : (a b : Bool) → (a && (b && true && true)) ≡ (a && b)
and_end true true = refl
and_end true false = refl
and_end false b = refl

and_again : (a b : Bool) → ((a && (b && true && true)) && b) ≡ (a && b)
and_again true true = refl
and_again true false = refl
and_again false b = refl

module _ (show : Json → String) (catalog : List PolicyDefinition) (tenant_id scan_id : ℕ) where
  all-selected :
      (rows : List Finding)
      → count (in_scan tenant_id scan_id) rows ≤ failure_limit
      → count (selected tenant_id scan_id any_result rows) rows ≤ failure_limit
  all-selected rows h =
      rw
        (count-congr (selected tenant_id scan_id any_result rows) (in_scan tenant_id scan_id)
          (λ f. and_true (in_scan tenant_id scan_id f) true refl) rows)
        h

  severity-Complete :
      (severity : String) (rows : List Finding)
      → count (in_scan tenant_id scan_id) rows ≤ failure_limit
      → count_severity show catalog severity
          (fails_of (list_findings tenant_id scan_id any_result failure_limit 0 rows))
        ≡ count (λ (f : Finding). fails_in tenant_id scan_id f && str_eq f.severity severity) rows
  severity-Complete severity rows h =
      count-keep (λ (f : Finding). str_eq f.severity severity) (λ (f : Finding). is_fail f.result)
        (list_findings tenant_id scan_id any_result failure_limit 0 rows)
      ∙ count-list_findings tenant_id scan_id any_result rows
          (λ (f : Finding). is_fail f.result && str_eq f.severity severity) failure_limit
          (all-selected rows h)
      ∙ count-congr _ _
          (λ f.
            and_shuffle (in_scan tenant_id scan_id f) (is_fail f.result)
              (str_eq f.severity severity))
          rows

  total-Complete :
      (rows : List Finding)
      → count (in_scan tenant_id scan_id) rows ≤ failure_limit
      → length (fails_of (list_findings tenant_id scan_id any_result failure_limit 0 rows))
        ≡ count (fails_in tenant_id scan_id) rows
  total-Complete rows h =
      length-keep (λ (f : Finding). is_fail f.result)
        (list_findings tenant_id scan_id any_result failure_limit 0 rows)
      ∙ count-list_findings tenant_id scan_id any_result rows (λ (f : Finding). is_fail f.result)
          failure_limit (all-selected rows h)
      ∙ count-congr _ _
          (λ f. ap (λ b. b && is_fail f.result) (and_true (in_scan tenant_id scan_id f) true refl))
          rows

  -- Where a scan has at most 500 findings of any result, the number of findings and the five
  -- severity counts of its risk summary are those of all failing findings of the scan in the
  -- table, whatever the order of the query and whatever else the table holds.
  pub get_risk_summary-Complete :
      (score : Option ℕ) (top_n resource_total : ℕ) (rows : List Finding)
      → count (in_scan tenant_id scan_id) rows ≤ failure_limit
      → let s = get_risk_summary show catalog tenant_id scan_id score top_n resource_total rows in
        (s.total_findings ≡ count (fails_in tenant_id scan_id) rows)
        × (s.critical
            ≡ count
                (λ (f : Finding). fails_in tenant_id scan_id f && str_eq f.severity "critical")
                rows)
        × (s.high
            ≡ count
                (λ (f : Finding). fails_in tenant_id scan_id f && str_eq f.severity "high")
                rows)
        × (s.medium
            ≡ count
                (λ (f : Finding). fails_in tenant_id scan_id f && str_eq f.severity "medium")
                rows)
        × (s.low
            ≡ count (λ (f : Finding). fails_in tenant_id scan_id f && str_eq f.severity "low") rows)
        × (s.info
            ≡ count
                (λ (f : Finding). fails_in tenant_id scan_id f && str_eq f.severity "info")
                rows)
  unfolding get_risk_summary
  get_risk_summary-Complete score top_n resource_total rows h = (
    total-Complete rows h,
    severity-Complete "critical" rows h,
    severity-Complete "high" rows h,
    severity-Complete "medium" rows h,
    severity-Complete "low" rows h,
    severity-Complete "info" rows h,
  )

  count-failures :
      (rows : List Finding)
      → count (fails_in tenant_id scan_id) rows ≤ failure_limit
      → count
          (λ (f : Finding). is_fail f.result)
          (list_failures tenant_id scan_id failure_limit rows)
        ≡ count (fails_in tenant_id scan_id) rows
  unfolding list_failures
  count-failures rows h =
      count-list_findings tenant_id scan_id only_failures rows (λ (f : Finding). is_fail f.result)
        failure_limit
        (rw
          (count-congr (selected tenant_id scan_id only_failures rows) (fails_in tenant_id scan_id)
            one rows)
          h)
      ∙ count-congr _ _
          (λ f.
            ap (λ b. (in_scan tenant_id scan_id f && (b && true && true)) && is_fail f.result)
              (verdict_fail f.result)
            ∙ and_again (in_scan tenant_id scan_id f) (is_fail f.result))
          rows
    where
      one :
          (f : Finding)
          → selected tenant_id scan_id only_failures rows f ≡ fails_in tenant_id scan_id f
      one f =
          ap (λ b. in_scan tenant_id scan_id f && (b && true && true)) (verdict_fail f.result)
          ∙ and_end (in_scan tenant_id scan_id f) (is_fail f.result)

  -- The fix priorities ask for failures only, so the bound is on them.
  pub get_fix_priorities-Complete :
      (limit : ℕ) (rows : List Finding)
      → count (fails_in tenant_id scan_id) rows ≤ failure_limit
      → ranks (get_fix_priorities show catalog tenant_id scan_id limit rows)
        ≡ range_from 1 (min limit (count (fails_in tenant_id scan_id) rows))
  unfolding get_fix_priorities
  get_fix_priorities-Complete limit rows h =
      let failing = list_failures tenant_id scan_id failure_limit rows in
      (build_fix_priorities-Ranked show catalog failing limit).1
      ∙ ap (λ n. range_from 1 (min limit n)) (count-failures rows h)
