-- ===== src/Assets/Rules/Identity.antt =====
-- The branches of `normalize_bronze` for users, accounts and certificates of AWS.
use compliance_engine.Common.{[], ◌∷◌, String, ok, ◌>>=◌}
use compliance_engine.Json.{text_of, Json, str, null, find_or}
use compliance_engine.Assets.Values.{Rule, key, get, flag, amount, concat, dict, tags_from_aws}

module _ (show : Json → String) where
  unfoldable pub aws_iam_user : Rule
  unfolding key find_or tags_from_aws
  aws_iam_user account_id fs = do
    resource_id ← key "Arn" fs
    tags ← tags_from_aws (get "Tags" fs)
    ok (record {
      resource_id = resource_id;
      properties = dict (
          ("user_name", get "UserName" fs)
          ∷ ("user_id", get "UserId" fs)
          ∷ ("password_last_used", get "PasswordLastUsed" fs)
          ∷ ("mfa_enabled", get "MfaEnabled" fs)
          ∷ ("active_access_key_count", amount "ActiveAccessKeyCount" fs)
          ∷ ("has_unused_active_credentials", flag "HasUnusedActiveCredentials" fs)
          ∷ ("has_stale_active_access_key", flag "HasStaleActiveAccessKey" fs)
          ∷ (
            "has_direct_attached_policies_without_groups",
            flag "HasDirectAttachedPoliciesWithoutGroups" fs,
          )
          ∷ ("has_administrator_access", flag "HasAdministratorAccess" fs)
          ∷ ("group_count", amount "GroupCount" fs)
          ∷ ("attached_policy_count", amount "AttachedPolicyCount" fs)
          ∷ []);
      tags = tags;
      region = null;
      links = [];
    })

  unfoldable pub aws_iam_account : Rule
  unfolding find_or
  aws_iam_account account_id fs = do
    let acct = find_or (str account_id) "AccountId" fs
    let resource_id = str (concat ("arn:aws:iam::" ∷ text_of show acct ∷ ":root" ∷ []))
    ok (record {
      resource_id = resource_id;
      properties = dict (
          ("account_id", acct)
          ∷ ("root_access_keys_present", amount "RootAccessKeysPresent" fs)
          ∷ ("root_mfa_enabled", flag "RootMfaEnabled" fs)
          ∷ ("root_password_present", flag "RootPasswordPresent" fs)
          ∷ ("support_role_exists", flag "SupportRoleExists" fs)
          ∷ []);
      tags = [];
      region = null;
      links = [];
    })

  unfoldable pub aws_iam_account_password_policy : Rule
  unfolding find_or
  aws_iam_account_password_policy account_id fs = do
    let acct = find_or (str account_id) "AccountId" fs
    let resource_id = str (concat ("arn:aws:iam::" ∷ text_of show acct ∷ ":password-policy" ∷ []))
    ok (record {
      resource_id = resource_id;
      properties = dict (
          ("account_id", acct)
          ∷ ("minimum_password_length", get "MinimumPasswordLength" fs)
          ∷ ("password_reuse_prevention", get "PasswordReusePrevention" fs)
          ∷ []);
      tags = [];
      region = null;
      links = [];
    })

  unfoldable pub aws_iam_server_certificate : Rule
  unfolding key find_or
  aws_iam_server_certificate account_id fs = do
    resource_id ← key "Arn" fs
    ok (record {
      resource_id = resource_id;
      properties = dict (
          ("name", get "Name" fs)
          ∷ ("server_certificate_id", get "ServerCertificateId" fs)
          ∷ ("expiration", get "Expiration" fs)
          ∷ ("is_expired", flag "IsExpired" fs)
          ∷ []);
      tags = [];
      region = null;
      links = [];
    })

  unfoldable pub aws_iam_access_analyzer : Rule
  unfolding key find_or
  aws_iam_access_analyzer account_id fs = do
    resource_id ← key "Arn" fs
    let region = get "Region" fs
    ok (record {
      resource_id = resource_id;
      properties = dict (
          ("name", get "Name" fs) ∷ ("status", get "Status" fs) ∷ ("region", get "Region" fs) ∷ []);
      tags = [];
      region = region;
      links = [];
    })
