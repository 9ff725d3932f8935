-- ===== src/Compliance/Report/Mapped.antt =====
-- The report after the mapping.
use compliance_engine.Common.{
  ℕ, ◌+◌, String, Bool, false, none, some, List, [], ◌∷◌, map, suc, ◌≡◌, refl, ◌∙◌, ap, Has, length,
  arith,
}
use compliance_engine.Common.Rows.{find_by}
use compliance_engine.Compliance.Mapper.Score.{compute_score-Summary}
use compliance_engine.Compliance.Store.{
  Framework, Db, get_framework, map_scan, scan_framework_ids, aggregates_of, list_controls,
}
use compliance_engine.Compliance.Store.Scan.{
  is_score, score_of, score_row, map_scan-scores, map_scan-SameInputs, SameInputs,
}
use compliance_engine.Compliance.Report.{
  ComplianceReport, get_scan_compliance, report_of, report_with, coverage_of,
}

length-map : {A B : Type 0} (f : A → B) (xs : List A) → length (map f xs) ≡ length xs
length-map f [] = refl
length-map f (x ∷ xs) = ap suc (length-map f xs)

get_framework-SameInputs :
    (visible : Bool) (fid : String) {a b : Db}
    → SameInputs a b
    → get_framework visible fid b ≡ get_framework visible fid a
unfolding get_framework
get_framework-SameInputs visible fid same = rw (same.frameworks)

module _ (rate : ℕ → ℕ → ℕ) (tenant_id scan_id : ℕ) where
  length-aggregates_of :
      (db : Db) (fid : String)
      → length (aggregates_of tenant_id scan_id fid db) ≡ length (list_controls fid db)
  unfolding aggregates_of
  length-aggregates_of db fid = length-map _ (list_controls fid db)

  -- The coverage of a score that `compute_score` gives counts every control once.
  coverage-total :
      (db : Db) (fid : String)
      → let c = coverage_of rate (score_of tenant_id scan_id fid db).1 in
        (c.assessed + c.not_assessed + c.manual ≡ c.total_checks)
        × (c.total_checks ≡ length (list_controls fid db))
  unfolding score_of
  coverage-total db fid =
      let (sums, total, _) = compute_score-Summary (aggregates_of tenant_id scan_id fid db) in
      (omega (arith, sums), total ∙ length-aggregates_of db fid)

  -- After mapping a scan without a framework, an enabled framework among those of a scan
  -- that the caller may see has a report, with the score and the counts that the findings
  -- give; its coverage counts each control of the framework once, as assessed, not assessed
  -- or manual.
  pub get_scan_compliance-map_scan :
      (visible : Bool) (db : Db) (fid : String) (f g : Framework)
      → Has fid scan_framework_ids
      → get_framework false fid db ≡ some f
      → get_framework visible fid db ≡ some g
      → (r : ComplianceReport) × (get_scan_compliance rate tenant_id scan_id fid visible
            (map_scan tenant_id scan_id none db).1
          ≡ some r)
        × (r.score ≡ (score_of tenant_id scan_id fid db).0)
        × (r.summary ≡ (score_of tenant_id scan_id fid db).1)
        × (r.coverage.assessed + r.coverage.not_assessed + r.coverage.manual
            ≡ r.coverage.total_checks)
        × (r.coverage.total_checks ≡ length (list_controls fid db))
  unfolding get_scan_compliance
  get_scan_compliance-map_scan visible db fid f g m enabled shown =
      let after : Db = (map_scan tenant_id scan_id none db).1 in
      let found =
        get_framework-SameInputs visible fid (map_scan-SameInputs tenant_id scan_id db) ∙ shown in
      let scored = map_scan-scores tenant_id scan_id db fid f m enabled in
      let (total, checks) = coverage-total db fid in
      (
        report_of rate tenant_id scan_id fid after g
            (score_row tenant_id scan_id fid (score_of tenant_id scan_id fid db)),
        ap
              (λ o.
                report_with rate tenant_id scan_id fid after o
                  (find_by (is_score tenant_id scan_id fid) after.scan_scores))
              found
            ∙ ap (report_with rate tenant_id scan_id fid after (some g)) scored,
        refl,
        refl,
        total,
        checks,
      )
