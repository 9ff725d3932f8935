-- ===== src/Assets/Normalizer/Links.antt =====
-- Every relationship that a branch appends starts at the resource of the same item.
use compliance_engine.Assets.Rules.{Branch, branches}
use compliance_engine.Assets.Rules.Azure.{
  azure_storage_account, azure_network_security_group, azure_virtual_network, azure_virtual_machine,
  azure_managed_disk, azure_subscription, azure_key_vault, azure_defender, azure_sql_server,
  azure_postgresql_server,
}
use compliance_engine.Assets.Rules.Governance.{
  aws_cloudtrail_trail, aws_config_configuration_recorder, aws_kms_key, aws_securityhub_hub,
  aws_guardduty_detector,
}
use compliance_engine.Assets.Rules.Network.{
  aws_ec2_vpc, aws_ec2_security_group, aws_ec2_network_acl,
}
use compliance_engine.Assets.Rules.Compute.{
  aws_ec2_instance, aws_ec2_account_setting, aws_lambda_function,
}
use compliance_engine.Assets.Rules.Database.{
  aws_rds_instance, aws_rds_cluster, aws_rds_snapshot, aws_dynamodb_table,
  aws_elasticache_replication_group,
}
use compliance_engine.Assets.Rules.Storage.{
  aws_s3_bucket, aws_efs_file_system, aws_account_ebs_encryption, aws_ec2_ami, aws_ebs_snapshot,
  aws_ebs_volume,
}
use compliance_engine.Assets.Rules.Identity.{
  aws_iam_user, aws_iam_account, aws_iam_account_password_policy, aws_iam_server_certificate,
  aws_iam_access_analyzer,
}
use compliance_engine.Common.{
  String, Bool, true, false, ◌≡◌, refl, List, [], ◌∷◌, map, if◌then◌else◌, All, All-append, Result,
  ok, err, ◌>>=◌,
}
use compliance_engine.Json.{Json, Fields, PyError}
use compliance_engine.Assets.Values.{Row, Link, link}

abbrev pub FromRow : Row → Type 0
FromRow row = All (λ (l : Link). l.from_resource_id ≡ row.resource_id) row.links

abbrev pub Good : Result PyError Row → Type 0
Good (err e) = Unit
Good (ok row) = FromRow row

Good-bind :
    {A : Type 0} (m : Result PyError A) (k : A → Result PyError Row)
    → ((a : A) → Good (k a))
    → Good (m >>= k)
Good-bind (err e) k h = tt
Good-bind (ok a) k h = h a

-- The link of `if vpc_id:`
if-All :
    (b : Bool) (source target : Json) (kind : String)
    → All
        (λ (l : Link). l.from_resource_id ≡ source)
        (if b then link source kind target ∷ [] else [])
if-All true source target kind = (refl, tt)
if-All false source target kind = tt

map-All :
    (source : Json) (kind : String) (targets : List Json)
    → All (λ (l : Link). l.from_resource_id ≡ source) (map (link source kind) targets)
map-All source kind [] = tt
map-All source kind (t ∷ ts) = (refl, map-All source kind ts)

-- What every branch of the table keeps.
abbrev pub AllGood : List (String × Branch) → Type 0
AllGood [] = Unit
AllGood ((t, (e, rule)) ∷ bs) =
    ((account_id : String) (fs : Fields) → Good (rule account_id fs)) × AllGood bs

pub branches-AllGood : (show : Json → String) → AllGood (branches show)
unfolding aws_iam_user aws_iam_account aws_iam_account_password_policy aws_iam_server_certificate
    aws_iam_access_analyzer aws_s3_bucket aws_ec2_instance aws_rds_instance aws_rds_cluster
    aws_rds_snapshot aws_dynamodb_table aws_elasticache_replication_group aws_efs_file_system
    aws_cloudtrail_trail aws_config_configuration_recorder aws_kms_key aws_ec2_vpc
    aws_securityhub_hub aws_account_ebs_encryption aws_ec2_security_group aws_ec2_ami
    aws_ebs_snapshot aws_ec2_account_setting aws_lambda_function aws_guardduty_detector
    aws_ebs_volume aws_ec2_network_acl azure_storage_account azure_network_security_group
    azure_virtual_network azure_virtual_machine azure_managed_disk azure_subscription
    azure_key_vault azure_defender azure_sql_server azure_postgresql_server
branches-AllGood show = search (Good-bind, if-All, map-All, All-append)
