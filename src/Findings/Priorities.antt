-- ===== src/Findings/Priorities.antt =====
-- src/platform_backend/findings/experience.py: the lists and summaries over the findings of a scan.
pub mod Order
pub mod Ranked
pub mod TopRisks
mod Tests
use compliance_engine.Common.{
  ℕ, zero, suc, ◌+◌, ◌-◌, String, Bool, true, false, not, ◌&&◌, ◌||◌, Option, none, some, List, [],
  ◌∷◌, ◌++◌, map, keep, str_eq, if◌then◌else◌, ◌==◌, leb, take, length, any, count, min,
}
use compliance_engine.Common.Groups.{each_once}
use compliance_engine.Common.Sort.{sort_by}
use compliance_engine.Json.{Json, ℤ, int_lt, int_eq}
use compliance_engine.Policy.Catalog.{PolicyDefinition, customer_display_title, given}
use compliance_engine.Findings.Repository.{Finding, is_fail}
use compliance_engine.Findings.Risk.{risk_score, internet_exposed, data_sensitive}
use compliance_engine.Findings.Presentation.{
  Remediation, get_policy_definition, remediation_for_finding,
}
use compliance_engine.Findings.Customer.{
  CustomerFinding, CustomerRemediation, FrameworkMapping, SortKey, enrich_customer_finding,
  fix_priority_sort_key, severity_order,
}

-- `a <= b` on tuples
unfoldable pub key_le : SortKey → SortKey → Bool
key_le [] b = true
key_le (x ∷ a) [] = false
key_le (x ∷ a) (y ∷ b) = int_lt x y || (int_eq x y && key_le a b)

-- `[f for f in findings if f.get("result") == "fail"]`
abbrev pub fails_of : List Finding → List Finding
fails_of = keep (λ (f : Finding). is_fail f.result)

-- `rem.get("estimated_fix_minutes") or rem.get("estimated_minutes")`
abbrev pub minutes_of : CustomerRemediation → Option ℕ
minutes_of rem = elim rem.rest.estimated_fix_minutes [
  | none ↦ rem.estimated_minutes
  | some n ↦ if n == 0 then rem.estimated_minutes else some n
]

pub record FixPriority : Type 0 where
  pub rank : ℕ
  pub finding_id : ℕ
  pub policy_id : String
  pub display_title : String
  pub technical_title : String
  pub severity : String
  pub affected_resource : String
  pub resource_id : String
  pub resource_type : List ℕ
  pub why_it_matters : Option String
  pub business_impact : Option String
  pub estimated_fix_minutes : Option ℕ
  pub frameworks : List FrameworkMapping
  pub internet_exposed : Bool
  pub data_sensitive : Bool
  pub risk_score : ℕ

pub record TopRisk : Type 0 where
  pub finding_id : ℕ
  pub policy_id : String
  pub title : String
  pub technical_title : String
  pub severity : String
  pub affected_resource : String
  pub resource_type : List ℕ
  pub why_it_matters : Option String
  pub business_impact : Option String
  pub estimated_fix_minutes : Option ℕ
  pub risk_score : ℕ

pub record InventoryStats : Type 0 where
  pub cloud_resources : ℕ
  pub resources_at_risk : ℕ
  pub resources_protected : ℕ

-- The score is kept as it comes.
pub record RiskSummary : Type 0 where
  pub score : Option ℕ
  pub total_findings : ℕ
  pub critical : ℕ
  pub high : ℕ
  pub medium : ℕ
  pub low : ℕ
  pub info : ℕ
  pub top_risks : List TopRisk
  pub inventory : Option InventoryStats

-- The texts of `{f["resource_id"] for f in fails if f.get("resource_id")}`
abbrev is_text : String → Bool
is_text String.[] = false
is_text (String.◌∷◌ _ _) = true

unfoldable pub build_resource_inventory_stats : List Finding → ℕ → InventoryStats
unfolding each_once
build_resource_inventory_stats findings resource_total =
    let ids =
      map (λ (f : Finding). f.resource_id)
        (keep (λ (f : Finding). is_text f.resource_id) (fails_of findings)) in
    let at_risk = length (each_once ids) in
    record {
      cloud_resources = resource_total;
      resources_at_risk = at_risk;
      resources_protected = resource_total - at_risk;
    }

module _ (show : Json → String) (catalog : List PolicyDefinition) where
  abbrev pub customer : Finding → CustomerFinding
  customer f = enrich_customer_finding show catalog f false

  -- `fix_priority_sort_key(f, item["remediation"])`
  abbrev pub customer_key : Finding → SortKey
  customer_key f =
      let rem = (customer f).remediation in
      fix_priority_sort_key f rem.rest.framework_mappings rem.rest.estimated_fix_minutes

  abbrev pub goes_before : Finding → Finding → Bool
  goes_before f g = key_le (customer_key f) (customer_key g)

  -- The failing findings after `pairs.sort`, which is stable. A pair is a function of its finding.
  unfoldable pub ranked_fails : List Finding → List Finding
  unfolding sort_by key_le fix_priority_sort_key enrich_customer_finding
  ranked_fails findings = sort_by goes_before (fails_of findings)

  abbrev pub priority_item : ℕ → Finding → FixPriority
  priority_item rank f =
      let item = customer f in
      record {
        rank = rank;
        finding_id = f.id;
        policy_id = f.policy_id;
        display_title = item.display_title;
        technical_title = item.technical_title;
        severity = f.severity;
        affected_resource = item.affected_resource;
        resource_id = f.resource_id;
        resource_type = item.resource_type_label;
        why_it_matters = item.risk;
        business_impact = item.business_impact;
        estimated_fix_minutes = minutes_of item.remediation;
        frameworks = item.frameworks;
        internet_exposed = internet_exposed f;
        data_sensitive = data_sensitive f;
        risk_score = risk_score f;
      }

  -- `enumerate(pairs, start)`
  unfoldable pub number_from : ℕ → List Finding → List FixPriority
  number_from start [] = []
  number_from start (f ∷ fs) = priority_item start f ∷ number_from (start + 1) fs

  unfoldable pub build_fix_priorities : List Finding → ℕ → List FixPriority
  unfolding ranked_fails number_from
  build_fix_priorities findings limit = number_from 1 (take limit (ranked_fails findings))

  abbrev pub top_risk : Finding → TopRisk
  top_risk f =
      let item = customer f in
      record {
        finding_id = f.id;
        policy_id = f.policy_id;
        title = item.display_title;
        technical_title = item.technical_title;
        severity = f.severity;
        affected_resource = item.affected_resource;
        resource_type = item.resource_type_label;
        why_it_matters = item.risk;
        business_impact = item.business_impact;
        estimated_fix_minutes = minutes_of item.remediation;
        risk_score = item.risk_score;
      }

  -- The loop over the pairs: `n` risks are collected, of the policies `seen`.
  unfoldable pub collect_top : ℕ → ℕ → List String → List Finding → List TopRisk
  collect_top top_n n seen [] = []
  collect_top top_n n seen (f ∷ fs) =
      let skip = collect_top top_n n seen fs in
      let more = collect_top top_n (n + 1) (f.policy_id ∷ seen) fs in
      if any (str_eq f.policy_id) seen
      then skip
      else top_risk f ∷ (if leb top_n (n + 1) then [] else more)

  -- `severity_counts[sev] += 1` for the severities that have a counter
  abbrev pub count_severity : String → List Finding → ℕ
  count_severity severity = count (λ (f : Finding). str_eq f.severity severity)

  unfoldable pub build_risk_summary : List Finding → Option ℕ → ℕ → Option ℕ → RiskSummary
  unfolding ranked_fails collect_top build_resource_inventory_stats
  build_risk_summary findings compliance_score top_n resource_total =
      let fails = fails_of findings in
      record {
        score = compliance_score;
        total_findings = length fails;
        critical = count_severity "critical" fails;
        high = count_severity "high" fails;
        medium = count_severity "medium" fails;
        low = count_severity "low" fails;
        info = count_severity "info" fails;
        top_risks = collect_top top_n 0 [] (ranked_fails findings);
        inventory = elim resource_total [
          | none ↦ none
          | some total ↦ some (build_resource_inventory_stats findings total)
        ];
      }
