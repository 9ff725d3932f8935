-- ===== src/Assets/Rules/Database.antt =====
-- The branches of `normalize_bronze` for databases and caches of AWS.
use compliance_engine.Common.{[], if◌then◌else◌, ◌∷◌, String, ok, ◌>>=◌}
use compliance_engine.Json.{Json, bool, arr, nil, find_or, truthy, or_else}
use compliance_engine.Assets.Values.{Rule, key, get, flag, amount, dict, has_length}

module _ (show : Json → String) where
  unfoldable pub aws_rds_instance : Rule
  unfolding key find_or or_else has_length
  aws_rds_instance account_id fs = do
    resource_id ← key "DBInstanceArn" fs
    let region = get "Region" fs
    let logs_exports = or_else (get "EnabledCloudwatchLogsExports" fs) (arr nil)
    has_exports ← has_length logs_exports
    ok (record {
      resource_id = resource_id;
      properties = dict (
          ("db_instance_identifier", get "DBInstanceIdentifier" fs)
          ∷ ("storage_encrypted", flag "StorageEncrypted" fs)
          ∷ ("auto_minor_version_upgrade", flag "AutoMinorVersionUpgrade" fs)
          ∷ ("publicly_accessible", flag "PubliclyAccessible" fs)
          ∷ ("backup_retention_period", amount "BackupRetentionPeriod" fs)
          ∷ ("multi_az", flag "MultiAZ" fs)
          ∷ ("deletion_protection", flag "DeletionProtection" fs)
          ∷ ("iam_database_authentication_enabled", flag "IAMDatabaseAuthenticationEnabled" fs)
          ∷ ("has_cloudwatch_logs_exports", bool has_exports)
          ∷ ("monitoring_interval", amount "MonitoringInterval" fs)
          ∷ ("performance_insights_enabled", flag "PerformanceInsightsEnabled" fs)
          ∷ ("engine", get "Engine" fs)
          ∷ []);
      tags = [];
      region = region;
      links = [];
    })

  unfoldable pub aws_rds_cluster : Rule
  unfolding key find_or
  aws_rds_cluster account_id fs = do
    resource_id ← key "DBClusterArn" fs
    let region = get "Region" fs
    ok (record {
      resource_id = resource_id;
      properties = dict (
          ("db_cluster_identifier", get "DBClusterIdentifier" fs)
          ∷ ("storage_encrypted", flag "StorageEncrypted" fs)
          ∷ ("deletion_protection", flag "DeletionProtection" fs)
          ∷ ("backup_retention_period", amount "BackupRetentionPeriod" fs)
          ∷ ("iam_database_authentication_enabled", flag "IAMDatabaseAuthenticationEnabled" fs)
          ∷ []);
      tags = [];
      region = region;
      links = [];
    })

  unfoldable pub aws_rds_snapshot : Rule
  unfolding key find_or
  aws_rds_snapshot account_id fs = do
    let region = get "Region" fs
    resource_id ← key "DBSnapshotArn" fs
    ok (record {
      resource_id = resource_id;
      properties = dict (
          ("db_snapshot_identifier", get "DBSnapshotIdentifier" fs)
          ∷ ("encrypted", flag "Encrypted" fs)
          ∷ ("public", flag "Public" fs)
          ∷ ("status", get "Status" fs)
          ∷ []);
      tags = [];
      region = region;
      links = [];
    })

  unfoldable pub aws_dynamodb_table : Rule
  unfolding key find_or
  aws_dynamodb_table account_id fs = do
    let region = get "Region" fs
    resource_id ← key "TableArn" fs
    ok (record {
      resource_id = resource_id;
      properties = dict (
          ("table_name", get "TableName" fs)
          ∷ ("sse_enabled", flag "SseEnabled" fs)
          ∷ ("point_in_time_recovery_enabled", flag "PointInTimeRecoveryEnabled" fs)
          ∷ ("deletion_protection_enabled", flag "DeletionProtectionEnabled" fs)
          ∷ []);
      tags = [];
      region = region;
      links = [];
    })

  unfoldable pub aws_elasticache_replication_group : Rule
  unfolding key find_or truthy
  aws_elasticache_replication_group account_id fs = do
    let region = get "Region" fs
    resource_id ← if truthy (get "ARN" fs) then ok (get "ARN" fs) else key "ReplicationGroupId" fs
    ok (record {
      resource_id = resource_id;
      properties = dict (
          ("replication_group_id", get "ReplicationGroupId" fs)
          ∷ ("at_rest_encryption_enabled", flag "AtRestEncryptionEnabled" fs)
          ∷ ("transit_encryption_enabled", flag "TransitEncryptionEnabled" fs)
          ∷ []);
      tags = [];
      region = region;
      links = [];
    })
