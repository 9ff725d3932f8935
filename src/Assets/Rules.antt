-- ===== src/Assets/Rules.antt =====
-- The chain of branches on the provider type, as a table that is searched in order: `normalize_bronze` of
-- src/platform_backend/assets/ingest/normalizer.py. With each branch stands what an item that is no
-- dict raises there.
pub mod Identity
pub mod Storage
pub mod Database
pub mod Compute
pub mod Network
pub mod Governance
pub mod Azure
use compliance_engine.Assets.Rules.Identity.{
  aws_iam_user, aws_iam_account, aws_iam_account_password_policy, aws_iam_server_certificate,
  aws_iam_access_analyzer,
}
use compliance_engine.Assets.Rules.Storage.{
  aws_s3_bucket, aws_efs_file_system, aws_account_ebs_encryption, aws_ec2_ami, aws_ebs_snapshot,
  aws_ebs_volume,
}
use compliance_engine.Assets.Rules.Database.{
  aws_rds_instance, aws_rds_cluster, aws_rds_snapshot, aws_dynamodb_table,
  aws_elasticache_replication_group,
}
use compliance_engine.Assets.Rules.Compute.{
  aws_ec2_instance, aws_ec2_account_setting, aws_lambda_function,
}
use compliance_engine.Assets.Rules.Network.{
  aws_ec2_vpc, aws_ec2_security_group, aws_ec2_network_acl,
}
use compliance_engine.Assets.Rules.Governance.{
  aws_cloudtrail_trail, aws_config_configuration_recorder, aws_kms_key, aws_securityhub_hub,
  aws_guardduty_detector,
}
use compliance_engine.Assets.Rules.Azure.{
  azure_storage_account, azure_network_security_group, azure_virtual_network, azure_virtual_machine,
  azure_managed_disk, azure_subscription, azure_key_vault, azure_defender, azure_sql_server,
  azure_postgresql_server,
}
use compliance_engine.Assets.Values.{Rule}
use compliance_engine.Json.{Json, PyError, type_error, attribute_error}
use compliance_engine.Common.{[], ◌∷◌, String, List}

abbrev pub Branch : Type 0
Branch = PyError × Rule

module _ (show : Json → String) where
  abbrev pub azure_branches : List (String × Branch)
  azure_branches =
      ("azure_storage_account", (type_error, azure_storage_account show))
      ∷ ("azure_network_security_group", (type_error, azure_network_security_group show))
      ∷ ("azure_virtual_network", (type_error, azure_virtual_network show))
      ∷ ("azure_virtual_machine", (type_error, azure_virtual_machine show))
      ∷ ("azure_managed_disk", (type_error, azure_managed_disk show))
      ∷ ("azure_subscription", (attribute_error, azure_subscription show))
      ∷ ("azure_key_vault", (type_error, azure_key_vault show))
      ∷ ("azure_defender", (attribute_error, azure_defender show))
      ∷ ("azure_sql_server", (type_error, azure_sql_server show))
      ∷ ("azure_postgresql_server", (type_error, azure_postgresql_server show))
      ∷ []

  abbrev pub branches : List (String × Branch)
  branches =
      ("aws_iam_user", (type_error, aws_iam_user show))
      ∷ ("aws_iam_account", (attribute_error, aws_iam_account show))
      ∷ ("aws_iam_account_password_policy", (attribute_error, aws_iam_account_password_policy show))
      ∷ ("aws_iam_server_certificate", (type_error, aws_iam_server_certificate show))
      ∷ ("aws_iam_access_analyzer", (type_error, aws_iam_access_analyzer show))
      ∷ ("aws_s3_bucket", (type_error, aws_s3_bucket show))
      ∷ ("aws_ec2_instance", (type_error, aws_ec2_instance show))
      ∷ ("aws_rds_instance", (type_error, aws_rds_instance show))
      ∷ ("aws_rds_cluster", (type_error, aws_rds_cluster show))
      ∷ ("aws_rds_snapshot", (attribute_error, aws_rds_snapshot show))
      ∷ ("aws_dynamodb_table", (attribute_error, aws_dynamodb_table show))
      ∷ (
        "aws_elasticache_replication_group",
        (attribute_error, aws_elasticache_replication_group show),
      )
      ∷ ("aws_efs_file_system", (type_error, aws_efs_file_system show))
      ∷ ("aws_cloudtrail_trail", (type_error, aws_cloudtrail_trail show))
      ∷ (
        "aws_config_configuration_recorder",
        (attribute_error, aws_config_configuration_recorder show),
      )
      ∷ ("aws_kms_key", (type_error, aws_kms_key show))
      ∷ ("aws_ec2_vpc", (type_error, aws_ec2_vpc show))
      ∷ ("aws_securityhub_hub", (type_error, aws_securityhub_hub show))
      ∷ ("aws_account_ebs_encryption", (attribute_error, aws_account_ebs_encryption show))
      ∷ ("aws_ec2_security_group", (attribute_error, aws_ec2_security_group show))
      ∷ ("aws_ec2_ami", (attribute_error, aws_ec2_ami show))
      ∷ ("aws_ebs_snapshot", (attribute_error, aws_ebs_snapshot show))
      ∷ ("aws_ec2_account_setting", (attribute_error, aws_ec2_account_setting show))
      ∷ ("aws_lambda_function", (attribute_error, aws_lambda_function show))
      ∷ ("aws_guardduty_detector", (attribute_error, aws_guardduty_detector show))
      ∷ ("aws_ebs_volume", (attribute_error, aws_ebs_volume show))
      ∷ ("aws_ec2_network_acl", (attribute_error, aws_ec2_network_acl show))
      ∷ azure_branches
