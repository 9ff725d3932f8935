-- ===== src/Assets/Rules/Network.antt =====
-- The branches of `normalize_bronze` for networks of AWS.
use compliance_engine.Common.{[], ◌∷◌, String, ok, ◌>>=◌}
use compliance_engine.Json.{text_of, Json, str, find_or}
use compliance_engine.Assets.Values.{Rule, key, get, flag, concat, dict}

module _ (show : Json → String) where
  unfoldable pub aws_ec2_vpc : Rule
  unfolding key find_or
  aws_ec2_vpc account_id fs = do
    resource_id ← key "Arn" fs
    let region = get "Region" fs
    ok (record {
      resource_id = resource_id;
      properties =
          dict (("vpc_id", get "VpcId" fs) ∷ ("flow_logs_enabled", flag "FlowLogsEnabled" fs) ∷ []);
      tags = [];
      region = region;
      links = [];
    })

  unfoldable pub aws_ec2_security_group : Rule
  unfolding key find_or
  aws_ec2_security_group account_id fs = do
    let region = get "Region" fs
    group_id ← key "GroupId" fs
    let resource_id = str (
        concat (
          "arn:aws:ec2:"
          ∷ text_of show region
          ∷ ":"
          ∷ account_id
          ∷ ":security-group/"
          ∷ text_of show group_id
          ∷ []))
    ok (record {
      resource_id = resource_id;
      properties = dict (
          ("group_id", group_id)
          ∷ ("group_name", get "GroupName" fs)
          ∷ ("vpc_id", get "VpcId" fs)
          ∷ ("is_default", flag "IsDefault" fs)
          ∷ ("allows_unrestricted_cifs", flag "AllowsUnrestrictedCifs" fs)
          ∷ ("allows_unrestricted_admin_ports_ipv4", flag "AllowsUnrestrictedAdminPortsIpv4" fs)
          ∷ ("allows_unrestricted_admin_ports_ipv6", flag "AllowsUnrestrictedAdminPortsIpv6" fs)
          ∷ ("allows_ssh_from_internet_ipv4", flag "AllowsSshFromInternetIpv4" fs)
          ∷ ("allows_rdp_from_internet_ipv4", flag "AllowsRdpFromInternetIpv4" fs)
          ∷ ("allows_all_traffic_from_internet_ipv4", flag "AllowsAllTrafficFromInternetIpv4" fs)
          ∷ ("allows_all_traffic_from_internet_ipv6", flag "AllowsAllTrafficFromInternetIpv6" fs)
          ∷ ("allows_postgres_from_internet_ipv4", flag "AllowsPostgresFromInternetIpv4" fs)
          ∷ ("allows_mysql_from_internet_ipv4", flag "AllowsMysqlFromInternetIpv4" fs)
          ∷ ("allows_redis_from_internet_ipv4", flag "AllowsRedisFromInternetIpv4" fs)
          ∷ ("allows_mongodb_from_internet_ipv4", flag "AllowsMongodbFromInternetIpv4" fs)
          ∷ (
            "allows_elasticsearch_from_internet_ipv4",
            flag "AllowsElasticsearchFromInternetIpv4" fs,
          )
          ∷ ("allows_ftp_from_internet_ipv4", flag "AllowsFtpFromInternetIpv4" fs)
          ∷ ("allows_telnet_from_internet_ipv4", flag "AllowsTelnetFromInternetIpv4" fs)
          ∷ ("default_allows_unrestricted_ingress", flag "DefaultAllowsUnrestrictedIngress" fs)
          ∷ []);
      tags = [];
      region = region;
      links = [];
    })

  unfoldable pub aws_ec2_network_acl : Rule
  unfolding key find_or
  aws_ec2_network_acl account_id fs = do
    let region = get "Region" fs
    nacl_id ← key "NetworkAclId" fs
    let resource_id = str (
        concat (
          "arn:aws:ec2:"
          ∷ text_of show region
          ∷ ":"
          ∷ account_id
          ∷ ":network-acl/"
          ∷ text_of show nacl_id
          ∷ []))
    ok (record {
      resource_id = resource_id;
      properties = dict (
          ("network_acl_id", nacl_id)
          ∷ ("vpc_id", get "VpcId" fs)
          ∷ ("allows_unrestricted_admin_ports", flag "AllowsUnrestrictedAdminPorts" fs)
          ∷ []);
      tags = [];
      region = region;
      links = [];
    })
