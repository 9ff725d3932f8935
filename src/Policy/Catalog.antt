-- ===== src/Policy/Catalog.antt =====
-- src/platform_backend/policy/catalog/models.py: the policies as the loader builds them.
pub mod Titles
mod Tests
use Prim.Native.String
use compliance_engine.Common.{
  ℕ, String, Bool, true, false, not, ◌&&◌, Option, none, some, List, [], ◌∷◌, str_eq, if◌then◌else◌,
  keep, Result, ok, err, ◌>>=◌,
}
use compliance_engine.Common.Text.{codes, is_empty, upper, strip, has_prefix}
use compliance_engine.Json.{Json, str, null, PyError, is_str, get_or}

pub record PolicyRemediation : Type 0 where
  pub headline : Option String
  pub risk_summary : Option String
  pub business_impact : Option String
  pub fix_summary : Option String
  pub estimated_fix_minutes : Option ℕ
  pub framework_mappings : List String
  pub aws_cli : Option String
  pub azure_cli : Option String
  pub azure_portal_steps : List String
  pub terraform : Option String
  pub cloudformation : Option String

pub record PolicyDefinition : Type 0 where
  pub policy_id : String
  pub title : String
  pub provider : String
  pub resource_type : String
  pub provider_type : Option String
  pub severity : String
  pub description : Option String
  pub logic : Json
  pub evidence_fields : List String
  pub remediation : Option PolicyRemediation
  pub cis_control_id : Option String
  pub display_title : Option String
  pub pack_id : Option String
  pub version : String

-- A text that is neither `None` nor empty, as `if text:` asks.
abbrev pub given : Option String → Option String
given none = none
given (some s) = if is_empty s then none else some s

-- The test `m.strip().upper().startswith("CIS ")`
unfoldable pub is_licensed : String → Bool
unfolding upper strip has_prefix
is_licensed m = has_prefix (upper (strip (codes m))) (codes "CIS ")

unfoldable pub customer_framework_mappings : PolicyRemediation → List String
unfolding is_licensed
customer_framework_mappings r = keep (λ m. not (is_licensed m)) r.framework_mappings

abbrev headline_of : Option PolicyRemediation → Option String
headline_of none = none
headline_of (some r) = given r.headline

unfoldable pub customer_display_title : PolicyDefinition → String
customer_display_title p = elim (given p.display_title) [
  | some t ↦ t
  | none ↦ elim (headline_of p.remediation) [ some h ↦ h | none ↦ p.title ]
]

abbrev wants_provider_type : Option String → Json → Result PyError Bool
wants_provider_type none asset = ok true
wants_provider_type (some t) asset = do
  found ← get_or null asset "provider_type"
  ok (is_str t found)

unfoldable pub matches_asset : PolicyDefinition → Json → Result PyError Bool
unfolding get_or is_str
matches_asset p asset = do
  provider ← get_or (str "aws") asset "provider"
  if not (is_str p.provider provider) then ok false else (do
    resource_type ← get_or null asset "resource_type"
    if not (is_str p.resource_type resource_type)
        then ok false
        else wants_provider_type (given p.provider_type) asset)

-- `{"critical": 5, "high": 5, "medium": 3, "low": 2}.get(severity, 3)`
unfoldable pub default_minutes : String → ℕ
default_minutes severity =
    if str_eq severity "critical"
    then 5
    else if str_eq severity "high"
    then 5
    else if str_eq severity "medium"
    then 3
    else if str_eq severity "low"
    then 2
    else 3

unfoldable pub effective_remediation : PolicyDefinition → PolicyRemediation
unfolding customer_display_title default_minutes
effective_remediation p = elim p.remediation [
  | some r ↦ r
  | none ↦ record {
    headline = some (customer_display_title p);
    risk_summary = p.description;
    business_impact =
        some "This misconfiguration may lead to unauthorized access or increased security risk.";
    fix_summary =
        some
          (String.◌++◌ "Review the affected resource and remediate: " (customer_display_title p));
    estimated_fix_minutes = some (default_minutes p.severity);
    framework_mappings = [];
    aws_cli = none;
    azure_cli = none;
    azure_portal_steps = [];
    terraform = none;
    cloudformation = none;
  }
]
