-- ===== src/Compliance/Store.antt =====
-- src/platform_backend/compliance/frameworks.py, the tables of compliance/repository.py, and
-- `ComplianceMapper` of compliance/mapper.py.
pub mod Scan
pub mod Primary
mod Tests
use compliance_engine.Common.{
  ℕ, String, Bool, true, false, ◌&&◌, Option, none, some, List, [], ◌∷◌, ◌++◌, map, str_eq, ◌==◌,
  if◌then◌else◌, keep, Result, ok, err,
}
use Prim.Native.String
use Prim.Native.String.{compare}
use Prim.Native.Nat.{Ordering}
use compliance_engine.Common.Rows.{find_by, upsert_by}
use compliance_engine.Common.Sort.{sort_by}
use compliance_engine.Json.{PyError, lookup_error}
use compliance_engine.Policy.Catalog.{given}
use compliance_engine.Findings.Repository.{Finding}
use compliance_engine.Compliance.Mapper.{
  PolicyFinding, ByPolicy, Control, ControlAggregate, Summary, aggregate_control, compute_score,
}

abbrev pub customer_primary_framework : String
customer_primary_framework = "drantiq_security_assessment_v1"

abbrev pub scan_framework_ids : List String
scan_framework_ids =
    "drantiq_security_assessment_v1" ∷ "cis_aws_v6" ∷ "nist_800_53_rev5_aws"
    ∷ "nist_800_53_rev5_azure" ∷ "soc2_aws" ∷ "soc2_azure" ∷ []

-- A row of compliance_v2.frameworks.
pub record Framework : Type 0 where
  pub framework_id : String
  pub title : String
  pub display_title : Option String
  pub provider : String
  pub version_label : String
  pub requires_license : Bool
  pub enabled : Bool
  pub customer_visible : Bool

-- A row of compliance_v2.control_results: the columns that come from the aggregate are the aggregate.
pub record ControlResult : Type 0 where
  pub tenant_id : ℕ
  pub scan_id : ℕ
  pub aggregate : ControlAggregate

-- A row of compliance_v2.scan_scores.
pub record ScanScore : Type 0 where
  pub tenant_id : ℕ
  pub scan_id : ℕ
  pub framework_id : String
  pub score : ℕ
  pub summary : Summary

-- The tables that the mapper reads and writes. `controls` holds the rows of `list_controls` with
-- their policies; `findings` is the table of the findings component.
pub record Db : Type 0 where
  pub frameworks : List Framework
  pub controls : List Control
  pub findings : List Finding
  pub control_results : List ControlResult
  pub scan_scores : List ScanScore

unfoldable pub get_framework : Bool → String → Db → Option Framework
unfolding find_by
get_framework customer_visible_only framework_id db =
    find_by
      (λ (f : Framework).
        str_eq f.framework_id framework_id
        && f.enabled
        && (if customer_visible_only then f.customer_visible else true))
      db.frameworks

abbrev pub text_le : String → String → Bool
text_le s t = elim (compare s t) [ Ordering.gt ↦ false | _ ↦ true ]

unfoldable pub list_controls : String → Db → List Control
unfolding sort_by
list_controls framework_id db =
    sort_by (λ (c d : Control). text_le c.control_id d.control_id)
      (keep (λ (c : Control). str_eq c.framework_id framework_id) db.controls)

abbrev public_finding : Finding → PolicyFinding
public_finding f = record {
  id = f.id;
  resource_id = f.resource_id;
  result = f.result;
  severity = f.severity;
  title = f.title;
  evidence = f.evidence;
}

-- `grouped[policy_id].append(…)` on the `defaultdict`
unfoldable pub append_finding : String → PolicyFinding → ByPolicy → ByPolicy
append_finding k f [] = (k, f ∷ []) ∷ []
append_finding k f ((j, fs) ∷ m) =
    if str_eq j k then (j, fs ++ f ∷ []) ∷ m else (j, fs) ∷ append_finding k f m

unfoldable pub group : List Finding → ByPolicy → ByPolicy
unfolding append_finding
group [] m = m
group (f ∷ fs) m = group fs (append_finding f.policy_id (public_finding f) m)

abbrev row_le : Finding → Finding → Bool
row_le f g = elim (compare f.policy_id g.policy_id) [
  | Ordering.lt ↦ true
  | Ordering.eq ↦ text_le f.resource_id g.resource_id
  | Ordering.gt ↦ false
]

unfoldable pub get_findings_by_policy : ℕ → ℕ → Db → ByPolicy
unfolding group sort_by
get_findings_by_policy tenant_id scan_id db =
    group
      (sort_by row_le
        (keep (λ (f : Finding). f.tenant_id == tenant_id && f.scan_id == scan_id) db.findings))
      []

abbrev pub same_result : ControlResult → ControlResult → Bool
same_result a b =
    a.tenant_id == b.tenant_id
    && a.scan_id == b.scan_id
    && str_eq a.aggregate.framework_id b.aggregate.framework_id
    && str_eq a.aggregate.control_id b.aggregate.control_id

abbrev pub same_score : ScanScore → ScanScore → Bool
same_score a b =
    a.tenant_id == b.tenant_id && a.scan_id == b.scan_id && str_eq a.framework_id b.framework_id

unfoldable pub upsert_control_result : ℕ → ℕ → ControlAggregate → Db → Db
unfolding upsert_by
upsert_control_result tenant_id scan_id aggregate db = record db {
  control_results =
      upsert_by same_result
        (record { tenant_id = tenant_id; scan_id = scan_id; aggregate = aggregate })
        db.control_results;
}

unfoldable pub upsert_scan_score : ℕ → ℕ → String → ℕ × Summary → Db → Db
unfolding upsert_by
upsert_scan_score tenant_id scan_id framework_id (score, summary) db = record db {
  scan_scores =
      upsert_by same_score
        (record {
          tenant_id = tenant_id;
          scan_id = scan_id;
          framework_id = framework_id;
          score = score;
          summary = summary;
        })
        db.scan_scores;
}

-- The dict that `_map_single_framework` returns.
pub record FrameworkSummary : Type 0 where
  pub framework_id : String
  pub scan_id : ℕ
  pub score : ℕ
  pub summary : Summary

unfoldable pub framework_not_found : String → PyError
framework_not_found framework_id = lookup_error (String.◌++◌ "framework not found: " framework_id)

module _ (tenant_id scan_id : ℕ) where
  unfoldable pub store_results : List ControlAggregate → Db → Db
  unfolding upsert_control_result
  store_results [] db = db
  store_results (a ∷ aggregates) db =
      store_results aggregates (upsert_control_result tenant_id scan_id a db)

  -- `aggregates`, after the loop over the controls
  unfoldable pub aggregates_of : String → Db → List ControlAggregate
  unfolding list_controls get_findings_by_policy
  aggregates_of framework_id db =
      let findings = get_findings_by_policy tenant_id scan_id db in
      map (λ c. aggregate_control c findings) (list_controls framework_id db)

  -- `_map_single_framework` from the point where the framework is found.
  unfoldable pub map_framework : String → Db → FrameworkSummary × Db
  unfolding aggregates_of store_results upsert_scan_score compute_score
  map_framework framework_id db =
      let aggregates = aggregates_of framework_id db in
      let scored = compute_score aggregates in
      (
        record {
          framework_id = framework_id;
          scan_id = scan_id;
          score = scored.0;
          summary = scored.1;
        },
        upsert_scan_score tenant_id scan_id framework_id scored (store_results aggregates db),
      )

  unfoldable pub map_single_framework : String → Db → Result PyError FrameworkSummary × Db
  unfolding map_framework get_framework framework_not_found
  map_single_framework framework_id db = elim (get_framework false framework_id db) [
    | none ↦ (err (framework_not_found framework_id), db)
    | some _ ↦ let (summary, db') = map_framework framework_id db in (ok summary, db')
  ]

  -- One round of the loop of `map_scan`.
  unfoldable pub map_each : String → Option FrameworkSummary → Db → Option FrameworkSummary × Db
  unfolding map_framework get_framework
  map_each fid primary db = elim (get_framework false fid db) [
    | none ↦ (primary, db)
    | some _ ↦
        let (summary, db') = map_framework fid db in
        (if str_eq fid customer_primary_framework then some summary else primary, db')
  ]

  unfoldable pub map_frameworks :
      List String → Option FrameworkSummary → Db → Option FrameworkSummary × Db
  unfolding map_each
  map_frameworks [] primary db = (primary, db)
  map_frameworks (fid ∷ fids) primary db =
      let (primary', db') = map_each fid primary db in map_frameworks fids primary' db'

  abbrev pub or_not_found : Option FrameworkSummary → Result PyError FrameworkSummary
  or_not_found none = err (framework_not_found customer_primary_framework)
  or_not_found (some s) = ok s

  unfoldable pub map_all : Db → Result PyError FrameworkSummary × Db
  unfolding map_frameworks framework_not_found
  map_all db =
      let (primary, db') = map_frameworks scan_framework_ids none db in (or_not_found primary, db')

  -- `map_scan`, with its optional framework: an empty text is none.
  unfoldable pub map_scan : Option String → Db → Result PyError FrameworkSummary × Db
  unfolding map_all map_single_framework
  map_scan framework_id db = elim (given framework_id) [
    | none ↦ map_all db
    | some fid ↦ map_single_framework fid db
  ]
