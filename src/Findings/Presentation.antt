-- ===== src/Findings/Presentation.antt =====
-- src/platform_backend/findings/presentation.py, with the index of policies by their identifier
-- (policy/catalog/loader.py and registry.py). Texts that are built are lists of code points.
mod Tests
use compliance_engine.Common.{
  ℕ, zero, suc, ◌-◌, String, Bool, true, false, not, ◌&&◌, Option, none, some, List, [], ◌∷◌, ◌++◌,
  map, str_eq, if◌then◌else◌, ◌==◌, length,
}
use compliance_engine.Common.Text.{codes, is_empty, has_prefix, split}
use compliance_engine.Json.{
  Json, null, str, obj, Fields, end, find, find_or, or_else, text_of, is_str,
}
use compliance_engine.Policy.Catalog.{
  PolicyDefinition, PolicyRemediation, given, customer_display_title, effective_remediation,
  customer_framework_mappings, default_minutes,
}
use compliance_engine.Findings.Repository.{Finding}
use compliance_engine.Findings.Risk.{props_of}

-- `{p.policy_id: p for p in policies}` and its `get`: the last policy of an identifier counts.
unfoldable pub get_policy_definition : List PolicyDefinition → String → Option PolicyDefinition
get_policy_definition [] id = none
get_policy_definition (p ∷ ps) id = elim (get_policy_definition ps id) [
  | some q ↦ some q
  | none ↦ if str_eq p.policy_id id then some p else none
]

-- `text.split("/")[-1]`
abbrev pub last_part : List String → String
last_part [] = ""
last_part (s ∷ []) = s
last_part (s ∷ t ∷ ts) = last_part (t ∷ ts)

abbrev pub tail_of : String → String
tail_of text = last_part (split b'/' text)

-- `isinstance(v, str) and v`
abbrev pub nonempty_text : Json → Option String
nonempty_text (str s) = if is_empty s then none else some s
nonempty_text _ = none

-- `props.get("name") or … or props.get("id")`
unfoldable pub name_in : Fields → Json
unfolding find_or or_else
name_in props = or_else (find_or null "name" props) (
    or_else (find_or null "bucket_name" props) (
      or_else (find_or null "trail_name" props)
        (or_else (find_or null "vpc_id" props) (find_or null "id" props))))

abbrev text_or : String → Option String → String
text_or d none = d
text_or d (some s) = s

-- `props.get("region") if isinstance(props.get("region"), str) else "us-east-1"`
abbrev region_in : Json → String
region_in (str s) = if str_eq s "global" then "us-east-1" else s
region_in _ = "us-east-1"

abbrev or_resource : String → String
or_resource tail = if is_empty tail then "RESOURCE" else tail

module _ (show : Json → String) where
  -- `str(a or b or d)`
  abbrev either : Json → Json → Json → String
  either a b d = text_of show (or_else a (or_else b d))

  -- `_resource_context`
  unfoldable pub resource_context : Finding → List (String × String)
  unfolding name_in find_or or_else split
  resource_context f =
      let props = props_of f.evidence in
      let name = text_or (or_resource (tail_of f.resource_id)) (nonempty_text (name_in props)) in
      let named = find_or null "name" props in
      let subscription_id = or_else (find_or null "subscription_id" props) (str "") in
      ("resource_name", name)
      ∷ ("bucket_name", either (find_or null "bucket_name" props) named (str name))
      ∷ ("trail_name", either (find_or null "trail_name" props) named (str name))
      ∷ ("region", region_in (find_or null "region" props))
      ∷ ("account_id", either (find_or null "account_id" props) subscription_id (str ""))
      ∷ ("subscription_id", text_of show subscription_id)
      ∷ (
        "resource_group",
        text_of show (or_else (find_or null "resource_group" props) (str "RESOURCE_GROUP")),
      )
      ∷ []

-- `text.replace(old, new)` for an `old` that is not empty. The first number counts the characters of
-- a match that are still to be left out.
unfoldable pub replace : ℕ → List ℕ → List ℕ → List ℕ → List ℕ
unfolding has_prefix
replace n old new [] = []
replace (suc n) old new (c ∷ s) = replace n old new s
replace zero old new (c ∷ s) =
    let after = replace (length old - 1) old new s in
    let further = replace zero old new s in
    if has_prefix (c ∷ s) old then new ++ after else c ∷ further

unfoldable pub fill_template : List (String × String) → List ℕ → List ℕ
unfolding replace
fill_template [] out = out
fill_template ((key, value) ∷ ctx) out =
    fill_template ctx (replace zero (b'{' ∷ codes key ++ b'}' ∷ []) (codes value) out)

unfoldable pub render_template : List (String × String) → Option String → Option (List ℕ)
unfolding fill_template
render_template ctx template = elim (given template) [
  | none ↦ none
  | some t ↦ some (fill_template ctx (codes t))
]

-- The dict that `remediation_for_finding` returns.
pub record Remediation : Type 0 where
  pub headline : Option String
  pub risk_summary : Option String
  pub business_impact : Option String
  pub fix_summary : Option String
  pub estimated_fix_minutes : Option ℕ
  pub framework_mappings : List String
  pub aws_cli : Option (List ℕ)
  pub azure_cli : Option (List ℕ)
  pub azure_portal_steps : List String
  pub terraform : Option (List ℕ)
  pub cloudformation : Option (List ℕ)

-- The dict that `enrich_finding` returns: a copy of the finding with three more keys.
pub record Enriched : Type 0 where
  pub finding : Finding
  pub remediation : Remediation
  pub display_title : Option String
  pub technical_title : String

-- `a or b`
abbrev pub or_text : Option String → Option String → Option String
or_text a b = elim (given a) [ none ↦ b | some s ↦ some s ]

module _ (show : Json → String) (catalog : List PolicyDefinition) where
  -- The two returns of `remediation_for_finding`, once the policy is looked up.
  abbrev pub remediation_without : Finding → Remediation
  remediation_without f = record {
    headline = some f.title;
    risk_summary = f.description;
    business_impact =
        some "This misconfiguration may lead to unauthorized access or compliance failure.";
    fix_summary =
        some "Review the affected resource in AWS and apply the recommended security control.";
    estimated_fix_minutes = some (default_minutes f.severity);
    framework_mappings = [];
    aws_cli = none;
    azure_cli = none;
    azure_portal_steps = [];
    terraform = none;
    cloudformation = none;
  }

  abbrev pub remediation_by : Finding → PolicyDefinition → Remediation
  remediation_by f p =
      let rem = effective_remediation p in
      let ctx = resource_context show f in
      record {
        headline = or_text rem.headline (some (customer_display_title p));
        risk_summary = or_text rem.risk_summary p.description;
        business_impact = rem.business_impact;
        fix_summary = rem.fix_summary;
        estimated_fix_minutes = rem.estimated_fix_minutes;
        framework_mappings = rem.framework_mappings;
        aws_cli = render_template ctx rem.aws_cli;
        azure_cli = render_template ctx rem.azure_cli;
        azure_portal_steps = rem.azure_portal_steps;
        terraform = render_template ctx rem.terraform;
        cloudformation = render_template ctx rem.cloudformation;
      }

  -- The caller hands over the policy, or `None` where there is none, and then it is looked up.
  unfoldable pub remediation_for_finding : Finding → Option PolicyDefinition → Remediation
  unfolding get_policy_definition effective_remediation resource_context render_template
      customer_display_title default_minutes
  remediation_for_finding f (some p) = remediation_by f p
  remediation_for_finding f none = elim (get_policy_definition catalog f.policy_id) [
    | some p ↦ remediation_by f p
    | none ↦ remediation_without f
  ]

  abbrev display_of : Finding → Remediation → Option PolicyDefinition → Option String
  display_of f rem (some p) = some (customer_display_title p)
  display_of f rem none = or_text rem.headline (some f.title)

  abbrev visible : Bool → Option PolicyDefinition → Remediation → Remediation
  visible true (some p) rem = record rem {
    framework_mappings = customer_framework_mappings (effective_remediation p);
  }
  visible _ _ rem = rem

  unfoldable pub enrich_finding : Finding → Bool → Enriched
  unfolding remediation_for_finding customer_framework_mappings
  enrich_finding f customer_visible =
      let policy = get_policy_definition catalog f.policy_id in
      let rem = visible customer_visible policy (remediation_for_finding f policy) in
      record {
        finding = f;
        remediation = rem;
        display_title = display_of f rem policy;
        technical_title = f.title;
      }
