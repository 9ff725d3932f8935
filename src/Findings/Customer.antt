-- ===== src/Findings/Customer.antt =====
-- src/platform_backend/findings/experience.py: the finding that a customer reads.
mod Tests
use compliance_engine.Common.{
  ℕ, zero, suc, String, Bool, true, false, not, ◌&&◌, Option, none, some, List, [], ◌∷◌, ◌++◌, map,
  keep, str_eq, if◌then◌else◌, ◌==◌, drop, length, any,
}
use compliance_engine.Common.Text.{codes, is_empty, has_prefix, upper, strip}
use compliance_engine.Json.{Json, null, str, obj, Fields, end, find, find_or, ℤ, pos, negsuc}
use compliance_engine.Policy.Catalog.{PolicyDefinition, customer_display_title, given, is_licensed}
use compliance_engine.Findings.Repository.{Finding}
use compliance_engine.Findings.Risk.{
  props_of, risk_score, internet_exposed, data_sensitive, Badge, why_badges, publicly_accessible,
  identity_exposure,
}
use compliance_engine.Findings.Presentation.{
  Remediation, Enriched, enrich_finding, get_policy_definition, name_in, nonempty_text, tail_of,
  or_text,
}

abbrev pub severity_order : String → ℕ
severity_order severity =
    if str_eq severity "critical"
    then 0
    else if str_eq severity "high"
    then 1
    else if str_eq severity "medium"
    then 2
    else if str_eq severity "low"
    then 3
    else if str_eq severity "info"
    then 4
    else 99

abbrev pub resource_type_labels : List (String × String)
resource_type_labels =
    ("storage.bucket", "S3 bucket")
    ∷ ("storage.filesystem", "EFS file system")
    ∷ ("network.vpc", "VPC")
    ∷ ("network.security_group", "Security group")
    ∷ ("network.nacl", "Network ACL")
    ∷ ("governance.trail", "CloudTrail trail")
    ∷ ("governance.config", "AWS Config")
    ∷ ("governance.hub", "Security Hub")
    ∷ ("identity.account", "Account setting")
    ∷ ("identity.user", "IAM user")
    ∷ ("identity.certificate", "IAM certificate")
    ∷ ("compute.instance", "EC2 instance")
    ∷ ("database.instance", "RDS instance")
    ∷ ("security.key", "KMS key")
    ∷ []

abbrev pub azure_resource_type_labels : List (String × String)
azure_resource_type_labels =
    ("storage.bucket", "Storage account")
    ∷ ("network.security_group", "Network security group")
    ∷ ("network.vpc", "Virtual network")
    ∷ ("governance.hub", "Microsoft Defender for Cloud")
    ∷ ("identity.account", "Azure subscription")
    ∷ ("compute.instance", "Virtual machine")
    ∷ ("database.instance", "Database server")
    ∷ ("security.key", "Key Vault")
    ∷ []

-- `s.replace(".", " ")`
abbrev dots_to_spaces : List ℕ → List ℕ
dots_to_spaces [] = []
dots_to_spaces (c ∷ s) = (if c == b'.' then 32 else c) ∷ dots_to_spaces s

-- `labels.get(t, t.replace(".", " "))`
abbrev label_in : String → List (String × String) → List ℕ
label_in t [] = dots_to_spaces (codes t)
label_in t ((k, label) ∷ rest) = if str_eq k t then codes label else label_in t rest

-- `resource_type_label`; an empty identifier is no identifier.
unfoldable pub resource_type_label : String → String → List ℕ
unfolding has_prefix
resource_type_label resource_type policy_id =
    if has_prefix (codes policy_id) (codes "AZURE_")
    then label_in resource_type azure_resource_type_labels
    else label_in resource_type resource_type_labels

abbrev or_whole : String → String → String
or_whole tail whole = if is_empty tail then whole else tail

unfoldable pub affected_resource_name : Finding → String
unfolding name_in
affected_resource_name f = elim (nonempty_text (name_in (props_of f.evidence))) [
  | some name ↦ name
  | none ↦ or_whole (tail_of f.resource_id) f.resource_id
]

pub record FrameworkMapping : Type 0 where
  pub framework : List ℕ
  pub control : List ℕ

-- `text.split(" ", 1)`: what stands before the first space, and after it if there is one.
abbrev split_once : List ℕ → List ℕ × Option (List ℕ)
split_once [] = ([], none)
split_once (c ∷ s) =
    let (head, tail) = split_once s in if c == 32 then ([], some s) else (c ∷ head, tail)

abbrev pair_of : List ℕ × Option (List ℕ) → FrameworkMapping
pair_of (head, none) = record { framework = head; control = [] }
pair_of (head, some tail) = record { framework = head; control = tail }

-- `text.removeprefix(p).strip()`, where `text` has the prefix
abbrev after_prefix : String → List ℕ → List ℕ
after_prefix p text = strip (drop (length (codes p)) text)

abbrev parse_mapping : List ℕ → FrameworkMapping
parse_mapping text =
    if has_prefix text (codes "CIS ")
    then record { framework = codes "CIS AWS v6"; control = after_prefix "CIS " text }
    else if has_prefix text (codes "SOC2 ")
    then record { framework = codes "SOC 2"; control = after_prefix "SOC2 " text }
    else if has_prefix text (codes "NIST ")
    then record { framework = codes "NIST 800-53"; control = after_prefix "NIST " text }
    else pair_of (split_once text)

unfoldable pub parse_framework_mappings : List String → Bool → List FrameworkMapping
unfolding strip upper has_prefix
parse_framework_mappings [] customer_visible = []
parse_framework_mappings (raw ∷ mappings) customer_visible =
    let text = strip (codes raw) in
    let rest = parse_framework_mappings mappings customer_visible in
    if customer_visible && has_prefix (upper text) (codes "CIS ")
    then rest
    else parse_mapping text ∷ rest

abbrev pub customer_mappings : Remediation → List String
customer_mappings rem = keep (λ m. not (is_licensed m)) rem.framework_mappings

-- The keys of `customer_remediation` that are not those of the remediation itself; the console steps
-- are an empty list, and the estimate stands under two keys.
pub record CustomerRemediation : Type 0 where
  pub summary : Option String
  pub estimated_minutes : Option ℕ
  pub rest : Remediation

unfoldable pub customer_remediation : Remediation → CustomerRemediation
unfolding is_licensed
customer_remediation rem = record {
  summary = rem.fix_summary;
  estimated_minutes = rem.estimated_fix_minutes;
  rest = record rem { framework_mappings = customer_mappings rem };
}

-- A Python tuple of integers, whose order is that of the first ones that differ.
abbrev pub SortKey : Type 0
SortKey = List ℤ

-- `-n`
abbrev pub minus : ℕ → ℤ
minus zero = pos 0
minus (suc n) = negsuc n

abbrev is_nil : List String → Bool
is_nil [] = true
is_nil (_ ∷ _) = false

-- `remediation.get("estimated_fix_minutes") or 99`
abbrev minutes_or : Option ℕ → ℕ
minutes_or none = 99
minutes_or (some zero) = 99
minutes_or (some (suc n)) = suc n

-- `0 if test else 1`
abbrev rank_of : Bool → ℤ
rank_of test = if test then pos 0 else pos 1

unfoldable pub fix_priority_sort_key : Finding → List String → Option ℕ → SortKey
unfolding risk_score internet_exposed
fix_priority_sort_key f framework_mappings estimated_fix_minutes =
    minus (risk_score f)
    ∷ pos (severity_order f.severity)
    ∷ rank_of (internet_exposed f)
    ∷ rank_of (data_sensitive f)
    ∷ rank_of (not (is_nil framework_mappings))
    ∷ pos (minutes_or estimated_fix_minutes)
    ∷ []

-- The dict of `enrich_customer_finding`, less what `enrich_finding` copies.
pub record CustomerFinding : Type 0 where
  pub finding : Finding
  pub display_title : String
  pub technical_title : String
  pub affected_resource : String
  pub resource_type_label : List ℕ
  pub risk : Option String
  pub business_impact : Option String
  pub frameworks : List FrameworkMapping
  pub remediation : CustomerRemediation
  pub policy_version : String
  pub risk_score : ℕ
  pub why_badges : List Badge
  pub priority_rank : Option SortKey

-- `a or b` where `b` is a text that is there
abbrev or_given : Option String → String → String
or_given a b = elim (given a) [ none ↦ b | some s ↦ s ]

module _ (show : Json → String) (catalog : List PolicyDefinition) where
  abbrev title_of : Finding → Remediation → Option PolicyDefinition → String
  title_of f rem (some p) = customer_display_title p
  title_of f rem none =
      or_given rem.headline
        (or_given (some f.title) (or_given (some f.policy_id) "Security finding"))

  abbrev version_of : Option PolicyDefinition → String
  version_of (some p) = p.version
  version_of none = "1.0.0"

  unfoldable pub enrich_customer_finding : Finding → Bool → CustomerFinding
  unfolding enrich_finding get_policy_definition affected_resource_name resource_type_label
      parse_framework_mappings customer_remediation fix_priority_sort_key
  enrich_customer_finding f include_priority =
      let rem = (enrich_finding show catalog f false).remediation in
      let policy = get_policy_definition catalog f.policy_id in
      record {
        finding = f;
        display_title = title_of f rem policy;
        technical_title = or_given (some f.title) (or_given (some f.policy_id) "Finding");
        affected_resource = affected_resource_name f;
        resource_type_label = resource_type_label f.resource_type f.policy_id;
        risk = or_text rem.risk_summary f.description;
        business_impact = rem.business_impact;
        frameworks = parse_framework_mappings (customer_mappings rem) true;
        remediation = customer_remediation rem;
        policy_version = version_of policy;
        risk_score = risk_score f;
        why_badges = why_badges f;
        priority_rank =
            (if include_priority
              then some (fix_priority_sort_key f rem.framework_mappings rem.estimated_fix_minutes)
              else none);
      }
