-- ===== src/Assets/Rules/Compute.antt =====
-- The branches of `normalize_bronze` for instances, functions and the account setting of AWS.
use compliance_engine.Common.{if◌then◌else◌, true, [], ◌∷◌, String, ok, ◌>>=◌}
use compliance_engine.Json.{text_of, Json, str, bool, num, pos, find_or, truthy, is_str}
use compliance_engine.Assets.Values.{Rule, key, get, flag, concat, dict, tags_from_aws, link}

module _ (show : Json → String) where
  unfoldable pub aws_ec2_instance : Rule
  unfolding key find_or truthy tags_from_aws is_str
  aws_ec2_instance account_id fs = do
    instance_id ← key "InstanceId" fs
    let region = get "Region" fs
    let resource_id = str (
        concat (
          "arn:aws:ec2:"
          ∷ text_of show region
          ∷ ":"
          ∷ account_id
          ∷ ":instance/"
          ∷ text_of show instance_id
          ∷ []))
    tags ← tags_from_aws (get "Tags" fs)
    let vpc_id = get "VpcId" fs
    ok (record {
      resource_id = resource_id;
      properties = dict (
          ("instance_id", instance_id)
          ∷ ("instance_type", get "InstanceType" fs)
          ∷ ("state", get "State" fs)
          ∷ ("vpc_id", get "VpcId" fs)
          ∷ ("subnet_id", get "SubnetId" fs)
          ∷ ("iam_instance_profile_arn", get "IamInstanceProfileArn" fs)
          ∷ ("http_tokens", get "HttpTokens" fs)
          ∷ ("has_public_ip", bool (truthy (get "PublicIpAddress" fs)))
          ∷ ("detailed_monitoring", bool (is_str "enabled" (get "MonitoringState" fs)))
          ∷ ("termination_protected", flag "TerminationProtected" fs)
          ∷ ("http_endpoint", find_or (str "enabled") "HttpEndpoint" fs)
          ∷ ("http_put_response_hop_limit", find_or (num (pos 1)) "HttpPutResponseHopLimit" fs)
          ∷ ("source_dest_check", find_or (bool true) "SourceDestCheck" fs)
          ∷ []);
      tags = tags;
      region = region;
      links =
          (if truthy vpc_id
            then link resource_id "member_of" (
                str (
                  concat (
                    "arn:aws:ec2:"
                    ∷ text_of show region
                    ∷ ":"
                    ∷ account_id
                    ∷ ":vpc/"
                    ∷ text_of show vpc_id
                    ∷ [])))
              ∷ []
            else []);
    })

  unfoldable pub aws_ec2_account_setting : Rule
  unfolding find_or
  aws_ec2_account_setting account_id fs = do
    let region = get "Region" fs
    let resource_id = str (
        concat
          ("arn:aws:ec2:" ∷ text_of show region ∷ ":" ∷ account_id ∷ ":account-settings/ec2" ∷ []))
    ok (record {
      resource_id = resource_id;
      properties = dict (
          ("region", region)
          ∷ ("serial_console_access_enabled", flag "SerialConsoleAccessEnabled" fs)
          ∷ ("has_default_vpc", flag "HasDefaultVpc" fs)
          ∷ []);
      tags = [];
      region = region;
      links = [];
    })

  unfoldable pub aws_lambda_function : Rule
  unfolding key find_or
  aws_lambda_function account_id fs = do
    let region = get "Region" fs
    function_name ← key "FunctionName" fs
    resource_id ← key "FunctionArn" fs
    ok (record {
      resource_id = resource_id;
      properties = dict (
          ("function_name", function_name)
          ∷ ("runtime", get "Runtime" fs)
          ∷ ("runtime_deprecated", flag "RuntimeDeprecated" fs)
          ∷ ("tracing_mode", get "TracingMode" fs)
          ∷ ("has_dead_letter_queue", flag "HasDeadLetterQueue" fs)
          ∷ ("publicly_accessible", flag "PubliclyAccessible" fs)
          ∷ ("function_url_auth_none", flag "FunctionUrlAuthNone" fs)
          ∷ []);
      tags = [];
      region = region;
      links = [];
    })
