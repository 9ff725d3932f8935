-- ===== src/Scans/Integrations.antt =====
-- `IntegrationService` of src/platform_backend/platform/services/scan_service.py, and the statements
-- of platform/repositories/integrations.py that it runs. `encrypt` and `decrypt` are the cipher of
-- security/external_id.py, `verify` is the call to Azure of platform/integrations/azure_verify.py.
pub mod Secrets
mod Tests
use compliance_engine.Common.{
  ℕ, ◌+◌, String, Bool, true, false, ◌&&◌, not, Option, none, some, List, [], ◌∷◌, map, str_eq,
  if◌then◌else◌, Result, ok, err,
}
use compliance_engine.Common.Rows.{update_where, find_by}
use compliance_engine.Json.{
  Json, null, str, arr, items, PyError, lookup_error, value_error, attribute_error,
}
use compliance_engine.Scans.AuthErrors.{verify_failure_is_auth}
use compliance_engine.Scans.Store.{is_integration, get_integration, set_integration_status}
use compliance_engine.Scans.Rows.{Integration, World}
use compliance_engine.Scans.Exec.{Exec, ◌>>=◌, ◌>>◌, lift, raise, modify, gets, done, proceed}

-- `AzureVerificationError`
pub record VerificationError : Type 0 where
  pub message : String
  pub status_code : Option ℕ

-- What `verify_subscription_access` returns or raises.
pub data Access : Type 0 where
  granted : Json → Access
  refused : VerificationError → Access

-- The dict that `verify_azure` returns: with `"valid": True` and the details, or with the message.
pub data Report : Type 0 where
  valid : Json → Report
  invalid : (subscription_id message : String) → Report

-- The row that an `INSERT` returns. `default_status` is the schema's for an integration.
unfoldable pub insert_integration : Integration → World → Integration × World
insert_integration i w =
    let row = record i { id = w.fresh } in
    (row, record w { fresh = w.fresh + 1; integrations = row ∷ w.integrations })

-- `update_azure_client_secret`
abbrev pub is_azure : ℕ → ℕ → Integration → Bool
is_azure tenant_id integration_id i =
    is_integration tenant_id integration_id i && str_eq i.provider "azure"

abbrev pub with_new_secret : String → String → Integration → Integration
with_new_secret encrypted status i = record i {
  azure_client_secret = some encrypted;
  status = status;
}

unfoldable pub update_azure_client_secret :
    ℕ → ℕ → String → String → World → Option Integration × World
unfolding update_where find_by
update_azure_client_secret tenant_id integration_id encrypted status w =
    let rows =
      update_where (is_azure tenant_id integration_id) (with_new_secret encrypted status)
        w.integrations in
    (find_by (is_azure tenant_id integration_id) rows, record w { integrations = rows })

module _ (encrypt decrypt : String → Result PyError String)
    (verify : Option String → Option String → String → String → Access) where
  abbrev is_nil : List String → Bool
  is_nil [] = true
  is_nil (_ ∷ _) = false

  abbrev insert : Integration → Exec Integration
  insert i w = let (row, w') = insert_integration i w in (ok row, w')

  module _ (default_status : String) where
    unfoldable pub register_aws : ℕ → String → String → String → List String → Exec Integration
    unfolding insert_integration
    register_aws tenant_id account_id role_arn external_id regions =
        if is_nil regions then raise (value_error "regions must not be empty") else (do
          encrypted ← lift (encrypt external_id)
          insert (record {
            id = 0;
            tenant_id = tenant_id;
            provider = "aws";
            account_id = account_id;
            role_arn = some role_arn;
            external_id = some encrypted;
            regions = arr (items (map str regions));
            azure_tenant_id = none;
            azure_client_id = none;
            azure_client_secret = none;
            status = default_status;
          }))

    unfoldable pub register_azure :
        ℕ → String → String → String → String → List String → Exec Integration
    unfolding insert_integration
    register_azure tenant_id subscription_id azure_tenant_id azure_client_id client_secret
          locations =
        if is_nil locations then raise (value_error "locations must not be empty") else (do
          encrypted ← lift (encrypt client_secret)
          insert (record {
            id = 0;
            tenant_id = tenant_id;
            provider = "azure";
            account_id = subscription_id;
            role_arn = none;
            external_id = none;
            regions = arr (items (map str locations));
            azure_tenant_id = some azure_tenant_id;
            azure_client_id = some azure_client_id;
            azure_client_secret = some encrypted;
            status = default_status;
          }))

  abbrev pub row_or_raise : Option Integration → Exec Integration
  row_or_raise none = raise (lookup_error "integration not found")
  row_or_raise (some i) = lift (ok i)

  -- A column that is null has no `encode`.
  abbrev pub decrypt_secret : Option String → Result PyError String
  decrypt_secret none = err attribute_error
  decrypt_secret (some s) = decrypt s

  abbrev pub mark_refused : ℕ → ℕ → VerificationError → World → World
  mark_refused tenant_id integration_id e w =
      if verify_failure_is_auth e.message e.status_code
      then set_integration_status tenant_id integration_id "invalid" w
      else w

  -- What `verify_azure` does with the answer of Azure.
  abbrev pub on_access : ℕ → Integration → ℕ → Access → Exec Report
  on_access tenant_id i integration_id (granted details) w =
      (ok (valid details), set_integration_status tenant_id integration_id "active" w)
  on_access tenant_id i integration_id (refused e) w =
      (ok (invalid i.account_id e.message), mark_refused tenant_id integration_id e w)

  unfoldable pub verify_azure : ℕ → ℕ → Exec Report
  unfolding get_integration set_integration_status verify_failure_is_auth
  verify_azure tenant_id integration_id = do
    row ← gets (get_integration tenant_id integration_id)
    i ← row_or_raise row
    if not (str_eq i.provider "azure")
        then raise (value_error "verify is only supported for Azure integrations")
        else (do
          secret ← lift (decrypt_secret i.azure_client_secret)
          on_access tenant_id i integration_id
              (verify i.azure_tenant_id i.azure_client_id secret i.account_id))

  abbrev pub store_secret : ℕ → ℕ → String → Exec Integration
  store_secret tenant_id integration_id encrypted w =
      let (row, w') = update_azure_client_secret tenant_id integration_id encrypted "active" w in
      row_or_raise row w'

  -- What `rotate_azure_secret` does with the answer of Azure.
  abbrev pub on_rotation : ℕ → ℕ → String → Access → Exec Integration
  on_rotation tenant_id integration_id client_secret (refused e) w =
      (err (value_error e.message), mark_refused tenant_id integration_id e w)
  on_rotation tenant_id integration_id client_secret (granted details) w =
      (lift (encrypt client_secret) >>= store_secret tenant_id integration_id) w

  unfoldable pub rotate_azure_secret : ℕ → ℕ → String → Exec Integration
  unfolding get_integration set_integration_status verify_failure_is_auth update_azure_client_secret
  rotate_azure_secret tenant_id integration_id client_secret = do
    row ← gets (get_integration tenant_id integration_id)
    i ← row_or_raise row
    if not (str_eq i.provider "azure")
        then raise (value_error "secret rotation is only supported for Azure integrations")
        else on_rotation tenant_id integration_id client_secret
            (verify i.azure_tenant_id i.azure_client_id client_secret i.account_id)
