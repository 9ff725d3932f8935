-- ===== src/Findings/Risk.antt =====
-- src/platform_backend/findings/experience.py: the risk signals of a finding. A finding is the row of
-- the repository, whose evidence is a dict.
pub mod Score
mod Tests
use compliance_engine.Common.{
  ℕ, ◌+◌, min, String, Bool, true, false, not, ◌&&◌, ◌||◌, Option, none, some, List, [], ◌∷◌, any,
  str_eq, if◌then◌else◌,
}
use compliance_engine.Common.Text.{codes, has_prefix, contains, lower}
use compliance_engine.Json.{Json, null, obj, Fields, end, field, find, find_or, is_bool}
use compliance_engine.Findings.Repository.{Finding}

-- `SEVERITY_RISK_BASE.get(severity, 45)`
abbrev pub risk_base : String → ℕ
risk_base severity =
    if str_eq severity "critical"
    then 92
    else if str_eq severity "high"
    then 72
    else if str_eq severity "medium"
    then 48
    else if str_eq severity "low"
    then 28
    else if str_eq severity "info"
    then 12
    else 45

abbrev pub data_sensitive_types : List String
data_sensitive_types = "storage.bucket" ∷ "storage.filesystem" ∷ "database.instance" ∷ []

abbrev pub identity_resource_types : List String
identity_resource_types = "identity.user" ∷ "identity.account" ∷ "identity.certificate" ∷ []

abbrev pub logging_policy_prefixes : List String
logging_policy_prefixes = "AWS_LOG_" ∷ "AWS_S3_003" ∷ "AWS_S3_004" ∷ "AWS_CMP_003" ∷ []

abbrev pub encryption_policy_ids : List String
encryption_policy_ids =
    "AWS_S3_001" ∷ "AWS_RDS_001" ∷ "AWS_EFS_001" ∷ "AWS_NET_001" ∷ "AWS_EC2_006" ∷ "AWS_EC2_007"
    ∷ "AWS_EC2_008" ∷ "AWS_CMP_011" ∷ "AZURE_STG_001" ∷ "AZURE_STG_002" ∷ "AZURE_CMP_002"
    ∷ "AZURE_DB_002" ∷ "AZURE_KV_001" ∷ "AZURE_KV_002" ∷ []

abbrev pub public_access_keys : List String
public_access_keys =
    "block_public_acls" ∷ "block_public_policy" ∷ "ignore_public_acls" ∷ "restrict_public_buckets"
    ∷ "public_access_block_enabled" ∷ []

abbrev pub public_policy_prefixes : List String
public_policy_prefixes =
    "AWS_EC2_011" ∷ "AWS_EC2_012" ∷ "AWS_EC2_013" ∷ "AWS_CMP_013" ∷ "AWS_CMP_014" ∷ "AZURE_NET_001"
    ∷ "AZURE_NET_002" ∷ "AZURE_CMP_001" ∷ "AZURE_DB_001" ∷ []

-- `text.startswith(prefixes)`
abbrev pub starts_with_any : String → List String → Bool
starts_with_any s prefixes = any (λ p. has_prefix (codes s) (codes p)) prefixes

-- `evidence["properties"]` where it is a dict, and the evidence itself otherwise
abbrev pub props_of : Fields → Fields
props_of evidence = elim (find "properties" evidence) [
  | none ↦ evidence
  | some v ↦ elim v [ obj fs ↦ fs | _ ↦ evidence ]
]

abbrev pub is_true_at : Fields → String → Bool
is_true_at fs k = is_bool true (find_or null k fs)

abbrev pub is_false_at : Fields → String → Bool
is_false_at fs k = is_bool false (find_or null k fs)

-- `_internet_exposed`
unfoldable pub internet_exposed : Finding → Bool
unfolding has_prefix find find_or is_bool
internet_exposed f =
    let props = props_of f.evidence in
    if starts_with_any f.policy_id ("AZURE_STG_003" ∷ [])
      && is_true_at props "allow_blob_public_access"
    then true
    else if not (str_eq f.resource_type "storage.bucket")
    then false
    else if any (is_false_at props) public_access_keys
    then true
    else if is_true_at props "is_public" || is_true_at props "public"
    then true
    else str_eq f.severity "critical" && starts_with_any f.policy_id ("AWS_S3_" ∷ [])

-- `_publicly_accessible`
unfoldable pub publicly_accessible : Finding → Bool
unfolding internet_exposed
publicly_accessible f =
    if internet_exposed f
    then true
    else if is_true_at (props_of f.evidence) "public"
    then true
    else starts_with_any f.policy_id public_policy_prefixes

-- `_identity_exposure`
unfoldable pub identity_exposure : Finding → Bool
unfolding has_prefix
identity_exposure f =
    if any (str_eq f.resource_type) identity_resource_types
    then true
    else starts_with_any f.policy_id ("AWS_IAM_" ∷ "AZURE_ID_" ∷ [])

abbrev pub data_sensitive : Finding → Bool
data_sensitive f = any (str_eq f.resource_type) data_sensitive_types

-- `if test: score = min(100, score + points)`
abbrev pub raise_if : Bool → ℕ → ℕ → ℕ
raise_if test points score = if test then min 100 (score + points) else score

-- The score of `compute_risk_signals`.
unfoldable pub risk_score : Finding → ℕ
unfolding internet_exposed publicly_accessible identity_exposure
risk_score f =
    let internet = internet_exposed f in
    let score₁ = raise_if internet 12 (risk_base f.severity) in
    let score₂ = raise_if (data_sensitive f) 8 score₁ in
    let score₃ = raise_if (publicly_accessible f && not internet) 6 score₂ in
    raise_if (identity_exposure f) 5 score₃

pub data Badge : Type 0 where
  internet_badge sensitive_data public_resource identity_badge : Badge
  insufficient_logging no_encryption : Badge

abbrev pub badge_if : Bool → Badge → List Badge → List Badge
badge_if test badge badges = if test then badge ∷ badges else badges

-- `_why_badges`, by the identifiers of the badges
unfoldable pub why_badges : Finding → List Badge
unfolding internet_exposed publicly_accessible identity_exposure lower contains
why_badges f = badge_if (internet_exposed f) internet_badge (
    badge_if (data_sensitive f) sensitive_data (
      badge_if (publicly_accessible f) public_resource (
        badge_if (identity_exposure f) identity_badge (
          badge_if (starts_with_any f.policy_id logging_policy_prefixes) insufficient_logging (
            badge_if
              (any (str_eq f.policy_id) encryption_policy_ids
                || contains (lower (codes f.policy_id)) (codes "encrypt"))
              no_encryption [])))))
