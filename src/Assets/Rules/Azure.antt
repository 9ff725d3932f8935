-- ===== src/Assets/Rules/Azure.antt =====
-- The branches of `normalize_bronze` for the resources of Azure.
use compliance_engine.Common.{◌++◌, if◌then◌else◌, [], ◌||◌, any, ◌∷◌, String, ok, ◌>>=◌, map}
use compliance_engine.Json.{text_of, Json, str, bool, null, arr, nil, find_or, truthy, or_else}
use compliance_engine.Common.Text.{codes, lower, upper, contains, same_text}
use compliance_engine.Assets.Values.{Rule, key, get, flag, amount, concat, dict, link, iterate}

module _ (show : Json → String) where
  unfoldable pub azure_storage_account : Rule
  unfolding key find_or or_else upper contains
  azure_storage_account account_id fs = do
    resource_id ← key "id" fs
    let region = get "location" fs
    let min_tls = or_else (get "minimum_tls_version" fs) (str "")
    ok (record {
      resource_id = resource_id;
      properties = dict (
          ("name", get "name" fs)
          ∷ ("subscription_id", find_or (str account_id) "subscription_id" fs)
          ∷ ("enable_https_traffic_only", flag "enable_https_traffic_only" fs)
          ∷ (
            "supports_https_traffic_only",
            find_or (flag "enable_https_traffic_only" fs) "supports_https_traffic_only" fs,
          )
          ∷ ("minimum_tls_version", min_tls)
          ∷ (
            "min_tls_1_2",
            bool (
                contains (codes (text_of show min_tls)) (codes "1.2")
                || contains (upper (codes (text_of show min_tls))) (codes "TLS1_2")),
          )
          ∷ ("allow_blob_public_access", get "allow_blob_public_access" fs)
          ∷ ("public_network_access", get "public_network_access" fs)
          ∷ []);
      tags = [];
      region = region;
      links = [];
    })

  unfoldable pub azure_network_security_group : Rule
  unfolding key find_or
  azure_network_security_group account_id fs = do
    resource_id ← key "id" fs
    let region = get "location" fs
    ok (record {
      resource_id = resource_id;
      properties = dict (
          ("name", get "name" fs)
          ∷ ("resource_group", get "resource_group" fs)
          ∷ ("allows_ssh_from_internet_ipv4", flag "AllowsSshFromInternet" fs)
          ∷ ("allows_rdp_from_internet_ipv4", flag "AllowsRdpFromInternet" fs)
          ∷ ("allows_unrestricted_admin_ports_ipv4", flag "AllowsUnrestrictedAdminPorts" fs)
          ∷ []);
      tags = [];
      region = region;
      links = [];
    })

  unfoldable pub azure_virtual_network : Rule
  unfolding key find_or
  azure_virtual_network account_id fs = do
    resource_id ← key "id" fs
    let region = get "location" fs
    ok (record {
      resource_id = resource_id;
      properties = dict (
          ("name", get "name" fs)
          ∷ ("resource_group", get "resource_group" fs)
          ∷ ("address_space", find_or (arr nil) "address_space" fs)
          ∷ []);
      tags = [];
      region = region;
      links = [];
    })

  unfoldable pub azure_virtual_machine : Rule
  unfolding key find_or truthy or_else iterate
  azure_virtual_machine account_id fs = do
    resource_id ← key "id" fs
    let region = get "location" fs
    let vnet_id = get "vnet_id" fs
    nsg_ids ← iterate (or_else (get "network_security_group_ids" fs) (arr nil))
    ok (record {
      resource_id = resource_id;
      properties = dict (
          ("name", get "name" fs)
          ∷ ("resource_group", get "resource_group" fs)
          ∷ ("has_public_ip", flag "has_public_ip" fs)
          ∷ ("os_disk_encrypted", get "os_disk_encrypted" fs)
          ∷ ("provisioning_state", get "provisioning_state" fs)
          ∷ []);
      tags = [];
      region = region;
      links =
          (if truthy vnet_id then link resource_id "member_of" vnet_id ∷ [] else [])
          ++ map (link resource_id "protected_by") nsg_ids;
    })

  unfoldable pub azure_managed_disk : Rule
  unfolding key find_or
  azure_managed_disk account_id fs = do
    resource_id ← key "id" fs
    let region = get "location" fs
    ok (record {
      resource_id = resource_id;
      properties = dict (
          ("name", get "name" fs)
          ∷ ("resource_group", get "resource_group" fs)
          ∷ ("encryption_type", get "encryption_type" fs)
          ∷ ("disk_size_gb", get "disk_size_gb" fs)
          ∷ []);
      tags = [];
      region = region;
      links = [];
    })

  unfoldable pub azure_subscription : Rule
  unfolding find_or
  azure_subscription account_id fs = do
    let resource_id = str (concat ("/subscriptions/" ∷ account_id ∷ []))
    ok (record {
      resource_id = resource_id;
      properties = dict (
          ("subscription_id", find_or (str account_id) "subscription_id" fs)
          ∷ ("owner_role_assignment_count", amount "owner_role_assignment_count" fs)
          ∷ ("too_many_owners", flag "too_many_owners" fs)
          ∷ []);
      tags = [];
      region = null;
      links = [];
    })

  unfoldable pub azure_key_vault : Rule
  unfolding key find_or
  azure_key_vault account_id fs = do
    resource_id ← key "id" fs
    let region = get "location" fs
    ok (record {
      resource_id = resource_id;
      properties = dict (
          ("name", get "name" fs)
          ∷ ("resource_group", get "resource_group" fs)
          ∷ ("enable_soft_delete", flag "enable_soft_delete" fs)
          ∷ ("soft_delete_retention_in_days", get "soft_delete_retention_in_days" fs)
          ∷ ("enable_purge_protection", flag "enable_purge_protection" fs)
          ∷ ("public_network_access", get "public_network_access" fs)
          ∷ []);
      tags = [];
      region = region;
      links = [];
    })

  unfoldable pub azure_defender : Rule
  unfolding find_or
  azure_defender account_id fs = do
    let resource_id =
        str
          (concat ("/subscriptions/" ∷ account_id ∷ "/providers/Microsoft.Security/defender" ∷ []))
    ok (record {
      resource_id = resource_id;
      properties = dict (
          ("subscription_id", find_or (str account_id) "subscription_id" fs)
          ∷ ("defender_standard_enabled", flag "defender_standard_enabled" fs)
          ∷ ("standard_plan_count", amount "standard_plan_count" fs)
          ∷ ("pricing_plans", find_or (arr nil) "pricing_plans" fs)
          ∷ []);
      tags = [];
      region = null;
      links = [];
    })

  unfoldable pub azure_sql_server : Rule
  unfolding key find_or lower
  azure_sql_server account_id fs = do
    resource_id ← key "id" fs
    let region = get "location" fs
    let public_access = lower (codes (text_of show (find_or (str "") "public_network_access" fs)))
    ok (record {
      resource_id = resource_id;
      properties = dict (
          ("name", get "name" fs)
          ∷ ("resource_group", get "resource_group" fs)
          ∷ ("kind", find_or (str "sql_server") "kind" fs)
          ∷ ("public_network_access", get "public_network_access" fs)
          ∷ (
            "publicly_accessible",
            bool (any (same_text public_access) (codes "enabled" ∷ codes "true" ∷ [])),
          )
          ∷ ("minimal_tls_version", get "minimal_tls_version" fs)
          ∷ (
            "tls_enforced",
            bool (
                any (same_text (codes (text_of show (find_or (str "") "minimal_tls_version" fs))))
                  (codes "1.2" ∷ codes "1.3" ∷ [])),
          )
          ∷ []);
      tags = [];
      region = region;
      links = [];
    })

  unfoldable pub azure_postgresql_server : Rule
  unfolding key find_or lower
  azure_postgresql_server account_id fs = do
    resource_id ← key "id" fs
    let region = get "location" fs
    let public_access = lower (codes (text_of show (find_or (str "") "public_network_access" fs)))
    ok (record {
      resource_id = resource_id;
      properties = dict (
          ("name", get "name" fs)
          ∷ ("resource_group", get "resource_group" fs)
          ∷ ("kind", find_or (str "postgresql_flexible") "kind" fs)
          ∷ ("public_network_access", get "public_network_access" fs)
          ∷ (
            "publicly_accessible",
            bool (any (same_text public_access) (codes "enabled" ∷ codes "true" ∷ [])),
          )
          ∷ ("version", get "version" fs)
          ∷ []);
      tags = [];
      region = region;
      links = [];
    })
