-- ===== src/Compliance/Report.antt =====
-- What a customer reads of a scan: `get_scan_compliance` and `list_frameworks` of
-- src/platform_backend/compliance/repository.py. `rate` is the rounded quotient of floats
-- `round(pass / assessed * 100, 1)`, in tenths; the times of the rows are left out.
pub mod Mapped
mod Tests
use compliance_engine.Common.{
  ℕ, ◌+◌, String, Bool, true, false, ◌&&◌, ◌||◌, not, Option, none, some, List, [], ◌∷◌, map,
  str_eq, ◌==◌, if◌then◌else◌, keep,
}
use compliance_engine.Common.Text.{is_empty}
use compliance_engine.Common.Rows.{find_by}
use compliance_engine.Common.Sort.{sort_by}
use compliance_engine.Policy.Catalog.{given}
use compliance_engine.Compliance.Mapper.{
  Control, ControlStatus, ControlEvidence, ControlAggregate, Summary,
}
use compliance_engine.Compliance.Store.{
  Framework, ControlResult, ScanScore, Db, get_framework, text_le,
}

-- `a or b`
abbrev first_text : Option String → String → String
first_text a b = elim (given a) [ none ↦ b | some s ↦ s ]

-- `COALESCE(c.display_title, cr.title)` on the row of the `LEFT JOIN`
abbrev joined_title : Option Control → String → Option String
joined_title none title = some title
joined_title (some c) title = elim c.display_title [ none ↦ some title | some t ↦ some t ]

pub record ControlView : Type 0 where
  pub control_id : String
  pub status : ControlStatus
  pub severity : String
  pub title : String
  pub display_title : String
  pub domain : Option String
  pub mapped_policy_ids : List String
  pub fail_count : ℕ
  pub pass_count : ℕ
  pub finding_ids : List ℕ
  pub evidence : ControlEvidence

pub record Coverage : Type 0 where
  pub total_checks : ℕ
  pub assessed : ℕ
  pub automated : ℕ
  pub not_assessed : ℕ
  pub manual : ℕ
  pub passed : ℕ
  pub failed : ℕ
  pub pass_rate : ℕ

pub record ComplianceReport : Type 0 where
  pub framework_id : String
  pub framework_title : String
  pub display_title : String
  pub version_label : String
  pub scan_id : ℕ
  pub score : ℕ
  pub summary : Summary
  pub coverage : Coverage
  pub controls : List ControlView

abbrev find_control : String → String → List Control → Option Control
find_control framework_id control_id =
    find_by (λ (c : Control). str_eq c.framework_id framework_id && str_eq c.control_id control_id)

abbrev control_view : Db → ControlResult → ControlView
control_view db r =
    let a = r.aggregate in
    let title =
      first_text (joined_title (find_control a.framework_id a.control_id db.controls) a.title)
        a.title in
    record {
      control_id = a.control_id;
      status = a.status;
      severity = a.severity;
      title = title;
      display_title = title;
      domain = a.domain;
      mapped_policy_ids = a.mapped_policy_ids;
      fail_count = a.fail_count;
      pass_count = a.pass_count;
      finding_ids = a.finding_ids;
      evidence = a.evidence;
    }

module _ (rate : ℕ → ℕ → ℕ) where
  abbrev pub coverage_of : Summary → Coverage
  coverage_of s =
      let assessed = s.passes + s.fails + s.errors in
      record {
        total_checks = s.total;
        assessed = assessed;
        automated = assessed;
        not_assessed = s.not_assessed_count;
        manual = s.manual_count;
        passed = s.passes;
        failed = s.fails;
        pass_rate = (if assessed == 0 then 0 else rate s.passes assessed);
      }

  module _ (tenant_id scan_id : ℕ) (framework_id : String) where
    -- The queries for the score and for the results.
    abbrev pub find_score : Db → Option ScanScore
    find_score db =
        find_by
          (λ (r : ScanScore).
            r.tenant_id == tenant_id && r.scan_id == scan_id && str_eq r.framework_id framework_id)
          db.scan_scores

    abbrev pub results_of : Db → List ControlResult
    results_of db =
        sort_by (λ (a b : ControlResult). text_le a.aggregate.control_id b.aggregate.control_id)
          (keep
            (λ (r : ControlResult).
              r.tenant_id == tenant_id
              && r.scan_id == scan_id
              && str_eq r.aggregate.framework_id framework_id)
            db.control_results)

    abbrev pub report_of : Db → Framework → ScanScore → ComplianceReport
    report_of db f r =
        let title = first_text f.display_title f.title in
        record {
          framework_id = framework_id;
          framework_title = title;
          display_title = title;
          version_label = f.version_label;
          scan_id = scan_id;
          score = r.score;
          summary = r.summary;
          coverage = coverage_of r.summary;
          controls = map (control_view db) (results_of db);
        }

    abbrev pub report_with : Db → Option Framework → Option ScanScore → Option ComplianceReport
    report_with db none score = none
    report_with db (some f) none = none
    report_with db (some f) (some r) = some (report_of db f r)

    unfoldable pub get_scan_compliance : Bool → Db → Option ComplianceReport
    unfolding get_framework find_by sort_by
    get_scan_compliance customer_visible_only db =
        report_with db (get_framework customer_visible_only framework_id db) (find_score db)

abbrev titled : Framework → Framework
titled f = record f { title = first_text f.display_title f.title }

unfoldable pub list_frameworks : Bool → Db → List Framework
unfolding sort_by
list_frameworks customer_visible_only db = map titled (
    sort_by (λ (a b : Framework). text_le a.framework_id b.framework_id)
      (keep
        (λ (f : Framework).
          f.enabled && (if customer_visible_only then f.customer_visible else true))
        db.frameworks))
