-- ===== src/Assets/Rules/Governance.antt =====
-- The branches of `normalize_bronze` for trails, keys and detectors of AWS.
use compliance_engine.Common.{[], ◌∷◌, String, ok, ◌>>=◌}
use compliance_engine.Json.{text_of, Json, str, find_or, or_else}
use compliance_engine.Assets.Values.{Rule, key, get, flag, concat, dict}

module _ (show : Json → String) where
  unfoldable pub aws_cloudtrail_trail : Rule
  unfolding key find_or
  aws_cloudtrail_trail account_id fs = do
    resource_id ← key "Arn" fs
    let region = get "Region" fs
    ok (record {
      resource_id = resource_id;
      properties = dict (
          ("name", get "Name" fs)
          ∷ ("log_file_validation_enabled", flag "LogFileValidationEnabled" fs)
          ∷ ("kms_key_id", get "KmsKeyId" fs)
          ∷ []);
      tags = [];
      region = region;
      links = [];
    })

  unfoldable pub aws_config_configuration_recorder : Rule
  unfolding find_or
  aws_config_configuration_recorder account_id fs = do
    let region = get "Region" fs
    let name = find_or (str "default") "Name" fs
    let resource_id = str (
        concat (
          "arn:aws:config:"
          ∷ text_of show region
          ∷ ":"
          ∷ account_id
          ∷ ":config-recorder/"
          ∷ text_of show name
          ∷ []))
    ok (record {
      resource_id = resource_id;
      properties = dict (("name", name) ∷ ("status_recording", flag "StatusRecording" fs) ∷ []);
      tags = [];
      region = region;
      links = [];
    })

  unfoldable pub aws_kms_key : Rule
  unfolding key find_or
  aws_kms_key account_id fs = do
    resource_id ← key "Arn" fs
    let region = get "Region" fs
    ok (record {
      resource_id = resource_id;
      properties = dict (
          ("key_id", get "KeyId" fs) ∷ ("key_rotation_enabled", flag "KeyRotationEnabled" fs) ∷ []);
      tags = [];
      region = region;
      links = [];
    })

  unfoldable pub aws_securityhub_hub : Rule
  unfolding key find_or
  aws_securityhub_hub account_id fs = do
    resource_id ← key "HubArn" fs
    let region = get "Region" fs
    ok (record {
      resource_id = resource_id;
      properties = dict (("region", region) ∷ ("enabled", flag "Enabled" fs) ∷ []);
      tags = [];
      region = region;
      links = [];
    })

  unfoldable pub aws_guardduty_detector : Rule
  unfolding find_or or_else
  aws_guardduty_detector account_id fs = do
    let region = get "Region" fs
    let detector_id = or_else (get "DetectorId" fs) (str "none")
    let resource_id = str (
        concat (
          "arn:aws:guardduty:"
          ∷ text_of show region
          ∷ ":"
          ∷ account_id
          ∷ ":detector/"
          ∷ text_of show detector_id
          ∷ []))
    ok (record {
      resource_id = resource_id;
      properties = dict (
          ("region", region)
          ∷ ("detector_id", get "DetectorId" fs)
          ∷ ("enabled", flag "Enabled" fs)
          ∷ ("s3_protection_enabled", flag "S3ProtectionEnabled" fs)
          ∷ ("lambda_protection_enabled", flag "LambdaProtectionEnabled" fs)
          ∷ ("eks_audit_logs_enabled", flag "EksAuditLogsEnabled" fs)
          ∷ ("rds_login_events_enabled", flag "RdsLoginEventsEnabled" fs)
          ∷ []);
      tags = [];
      region = region;
      links = [];
    })
