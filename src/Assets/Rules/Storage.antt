-- ===== src/Assets/Rules/Storage.antt =====
-- The branches of `normalize_bronze` for buckets, file systems, volumes and images of AWS.
use compliance_engine.Common.{[], ◌∷◌, String, ok, ◌>>=◌}
use compliance_engine.Json.{text_of, Json, str, obj, end, find_or}
use compliance_engine.Assets.Values.{Rule, key, get, flag, concat, dict}

module _ (show : Json → String) where
  unfoldable pub aws_s3_bucket : Rule
  unfolding key find_or
  aws_s3_bucket account_id fs = do
    name ← key "Name" fs
    let resource_id = str (concat ("arn:aws:s3:::" ∷ text_of show name ∷ []))
    let region = get "Region" fs
    ok (record {
      resource_id = resource_id;
      properties = dict (
          ("name", name)
          ∷ ("public_access_block", find_or (obj end) "PublicAccessBlock" fs)
          ∷ ("denies_insecure_transport", flag "DeniesInsecureTransport" fs)
          ∷ ("cloudtrail_s3_write_logging", flag "CloudTrailS3WriteLogging" fs)
          ∷ ("cloudtrail_s3_read_logging", flag "CloudTrailS3ReadLogging" fs)
          ∷ []);
      tags = [];
      region = region;
      links = [];
    })

  unfoldable pub aws_efs_file_system : Rule
  unfolding key find_or
  aws_efs_file_system account_id fs = do
    fs_id ← key "FileSystemId" fs
    let region = get "Region" fs
    let resource_id = str (
        concat (
          "arn:aws:elasticfilesystem:"
          ∷ text_of show region
          ∷ ":"
          ∷ account_id
          ∷ ":file-system/"
          ∷ text_of show fs_id
          ∷ []))
    ok (record {
      resource_id = resource_id;
      properties = dict (
          ("file_system_id", fs_id)
          ∷ ("name", get "Name" fs)
          ∷ ("encrypted", flag "Encrypted" fs)
          ∷ []);
      tags = [];
      region = region;
      links = [];
    })

  unfoldable pub aws_account_ebs_encryption : Rule
  unfolding find_or
  aws_account_ebs_encryption account_id fs = do
    let region = get "Region" fs
    let resource_id = str (
        concat (
          "arn:aws:ec2:" ∷ text_of show region ∷ ":" ∷ account_id ∷ ":ebs-encryption/default" ∷ []))
    ok (record {
      resource_id = resource_id;
      properties = dict (
          ("region", region)
          ∷ ("default_ebs_encryption_enabled", flag "DefaultEbsEncryptionEnabled" fs)
          ∷ []);
      tags = [];
      region = region;
      links = [];
    })

  unfoldable pub aws_ec2_ami : Rule
  unfolding key find_or
  aws_ec2_ami account_id fs = do
    let region = get "Region" fs
    image_id ← key "ImageId" fs
    let resource_id = str (
        concat (
          "arn:aws:ec2:"
          ∷ text_of show region
          ∷ ":"
          ∷ account_id
          ∷ ":image/"
          ∷ text_of show image_id
          ∷ []))
    ok (record {
      resource_id = resource_id;
      properties = dict (
          ("image_id", image_id)
          ∷ ("name", get "Name" fs)
          ∷ ("public", flag "Public" fs)
          ∷ ("root_unencrypted", flag "RootUnencrypted" fs)
          ∷ []);
      tags = [];
      region = region;
      links = [];
    })

  unfoldable pub aws_ebs_snapshot : Rule
  unfolding key find_or
  aws_ebs_snapshot account_id fs = do
    let region = get "Region" fs
    snapshot_id ← key "SnapshotId" fs
    let resource_id = str (
        concat (
          "arn:aws:ec2:"
          ∷ text_of show region
          ∷ ":"
          ∷ account_id
          ∷ ":snapshot/"
          ∷ text_of show snapshot_id
          ∷ []))
    ok (record {
      resource_id = resource_id;
      properties = dict (
          ("snapshot_id", snapshot_id)
          ∷ ("encrypted", flag "Encrypted" fs)
          ∷ ("public", flag "Public" fs)
          ∷ ("state", get "State" fs)
          ∷ []);
      tags = [];
      region = region;
      links = [];
    })

  unfoldable pub aws_ebs_volume : Rule
  unfolding key find_or
  aws_ebs_volume account_id fs = do
    let region = get "Region" fs
    volume_id ← key "VolumeId" fs
    let resource_id = str (
        concat (
          "arn:aws:ec2:"
          ∷ text_of show region
          ∷ ":"
          ∷ account_id
          ∷ ":volume/"
          ∷ text_of show volume_id
          ∷ []))
    ok (record {
      resource_id = resource_id;
      properties = dict (
          ("volume_id", volume_id)
          ∷ ("encrypted", flag "Encrypted" fs)
          ∷ ("state", get "State" fs)
          ∷ ("size_gb", get "Size" fs)
          ∷ []);
      tags = [];
      region = region;
      links = [];
    })
