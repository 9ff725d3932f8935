-- ===== src/Findings/Resources.antt =====
-- src/platform_backend/findings/experience.py: what a customer sees of one resource or one policy.
pub mod Related
pub mod Level
mod Tests
use compliance_engine.Common.{
  ℕ, zero, suc, String, Bool, true, false, not, ◌&&◌, ◌||◌, Option, none, some, List, [], ◌∷◌, map,
  keep, str_eq, if◌then◌else◌, ◌==◌, leb, length, any, min,
}
use compliance_engine.Common.Text.{is_empty}
use compliance_engine.Common.Sort.{sort_by}
use compliance_engine.Json.{Json, null, str, obj, Fields, end, find_or, or_else, text_of}
use compliance_engine.Policy.Catalog.{PolicyDefinition, customer_display_title}
use compliance_engine.Findings.Repository.{Finding, is_fail}
use compliance_engine.Findings.Presentation.{
  get_policy_definition, remediation_for_finding, tail_of,
}
use compliance_engine.Findings.Customer.{
  SortKey, enrich_customer_finding, fix_priority_sort_key, severity_order,
}
use compliance_engine.Findings.Priorities.{key_le}
use compliance_engine.Scans.Rows.{Relationship, Resource}

pub record RelatedResource : Type 0 where
  pub resource_id : String
  pub resource_name : String
  pub resource_type : String
  pub relationship_type : String

-- The other end of a relationship.
abbrev pub peer_of : String → Relationship → String
peer_of resource_id rel =
    if str_eq rel.from_resource_id resource_id then rel.to_resource_id else rel.from_resource_id

-- `not peer or peer == resource_id`
abbrev pub is_skipped : String → String → Bool
is_skipped resource_id peer = is_empty peer || str_eq peer resource_id

-- `asset["properties"]`, and an empty dict for an asset that is not there
abbrev asset_props : Option Resource → Fields
asset_props none = end
asset_props (some r) = elim r.properties [ obj fs ↦ fs | _ ↦ end ]

abbrev asset_type : Option Resource → String
asset_type none = ""
asset_type (some r) = r.resource_type

abbrev or_related : String → String
or_related kind = if is_empty kind then "related" else kind

-- `assets_by_id` is a map of the assets by their identifier.
module _ (show : Json → String) (resource_id : String)
    (assets_by_id : String → Option Resource) where
  abbrev pub related_item : String → Relationship → RelatedResource
  related_item peer rel =
      let props = asset_props (assets_by_id peer) in
      record {
        resource_id = peer;
        resource_name = text_of show (
            or_else (find_or null "name" props) (
              or_else (find_or null "instance_id" props)
                (or_else (find_or null "role_name" props) (str (tail_of peer)))));
        resource_type = asset_type (assets_by_id peer);
        relationship_type = or_related rel.relationship_type;
      }

  unfoldable pub collect_related : List String → List Relationship → List RelatedResource
  unfolding find_or or_else
  collect_related seen [] = []
  collect_related seen (rel ∷ rels) =
      let peer = peer_of resource_id rel in
      let skip = collect_related seen rels in
      let more = collect_related (peer ∷ seen) rels in
      if is_skipped resource_id peer || any (str_eq peer) seen
      then skip
      else related_item peer rel ∷ more

  unfoldable pub build_related_resources : List Relationship → List RelatedResource
  unfolding collect_related
  build_related_resources = collect_related []

-- `min` of a list that is not empty
abbrev pub least : ℕ → List ℕ → ℕ
least n [] = n
least n (m ∷ ms) = min n (least m ms)

-- `{0: "critical", …}.get(n, "medium")`
abbrev pub level_name : ℕ → String
level_name zero = "critical"
level_name (suc zero) = "high"
level_name (suc (suc zero)) = "medium"
level_name (suc (suc (suc zero))) = "low"
level_name (suc (suc (suc (suc zero)))) = "info"
level_name _ = "medium"

pub record RiskItem : Type 0 where
  pub finding_id : ℕ
  pub policy_id : String
  pub display_title : String
  pub technical_title : String
  pub severity : String
  pub remediation_summary : Option String

pub record ResourceRisk : Type 0 where
  pub resource_id : String
  pub risk_level : String
  pub finding_count : ℕ
  pub findings : List RiskItem
  pub display_titles : List String

pub record AffectedItem : Type 0 where
  pub finding_id : ℕ
  pub resource_id : String
  pub affected_resource : String
  pub resource_type : List ℕ
  pub severity : String
  pub display_title : String

pub record AffectedResources : Type 0 where
  pub policy_id : String
  pub policy_title : String
  pub display_title : String
  pub affected_count : ℕ
  pub resources : List AffectedItem

-- The failing findings of a resource.
abbrev pub fails_at : String → List Finding → List Finding
fails_at resource_id = keep (λ (f : Finding). str_eq f.resource_id resource_id && is_fail f.result)

abbrev pub severities : List Finding → List ℕ
severities = map (λ (f : Finding). severity_order f.severity)

-- `related` is not empty: its first finding stands apart.
abbrev pub level_of : Finding → List Finding → String
level_of f fs = level_name (least (severity_order f.severity) (severities fs))

module _ (show : Json → String) (catalog : List PolicyDefinition) where
  -- `fix_priority_sort_key(x, remediation_for_finding(x))`
  abbrev remediation_key : Finding → SortKey
  remediation_key f =
      let rem = remediation_for_finding show catalog f none in
      fix_priority_sort_key f rem.framework_mappings rem.estimated_fix_minutes

  abbrev risk_item : Finding → RiskItem
  risk_item f =
      let item = enrich_customer_finding show catalog f false in
      record {
        finding_id = f.id;
        policy_id = f.policy_id;
        display_title = item.display_title;
        technical_title = item.technical_title;
        severity = f.severity;
        remediation_summary = item.remediation.summary;
      }

  abbrev pub risk_of : String → List Finding → ResourceRisk
  risk_of resource_id [] = record {
    resource_id = resource_id;
    risk_level = "healthy";
    finding_count = 0;
    findings = [];
    display_titles = [];
  }
  risk_of resource_id (f ∷ fs) =
      let items =
        map risk_item (sort_by (λ a b. key_le (remediation_key a) (remediation_key b)) (f ∷ fs)) in
      record {
        resource_id = resource_id;
        risk_level = level_of f fs;
        finding_count = length (f ∷ fs);
        findings = items;
        display_titles = map (λ (i : RiskItem). i.display_title) items;
      }

  unfoldable pub build_resource_risk : List Finding → String → ResourceRisk
  unfolding sort_by key_le fix_priority_sort_key remediation_for_finding enrich_customer_finding
  build_resource_risk findings resource_id = risk_of resource_id (fails_at resource_id findings)

  abbrev affected_item : Finding → AffectedItem
  affected_item f =
      let item = enrich_customer_finding show catalog f false in
      record {
        finding_id = f.id;
        resource_id = f.resource_id;
        affected_resource = item.affected_resource;
        resource_type = item.resource_type_label;
        severity = f.severity;
        display_title = item.display_title;
      }

  abbrev titles_of : String → Option PolicyDefinition → String × String
  titles_of policy_id none = (policy_id, policy_id)
  titles_of policy_id (some p) = (p.title, customer_display_title p)

  unfoldable pub build_affected_resources : List Finding → String → AffectedResources
  unfolding enrich_customer_finding get_policy_definition customer_display_title
  build_affected_resources findings policy_id =
      let related =
        keep (λ (f : Finding). str_eq f.policy_id policy_id && is_fail f.result) findings in
      let resources = map affected_item related in
      let titles = titles_of policy_id (get_policy_definition catalog policy_id) in
      record {
        policy_id = policy_id;
        policy_title = titles.0;
        display_title = titles.1;
        affected_count = length resources;
        resources = resources;
      }
