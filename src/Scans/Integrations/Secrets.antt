-- ===== src/Scans/Integrations/Secrets.antt =====
-- The status and the secret of an integration after it is verified or its secret rotated.
use compliance_engine.Common.Updates.{map_some, find_by-update_where}
use compliance_engine.Common.{
  ℕ, String, Option, some, ◌≡◌, ◌∙◌, refl, eq_iff, Result, ok, err, if◌then◌else◌, Bool-cases, inl,
  inr,
}
use compliance_engine.Json.{PyError}
use compliance_engine.Scans.AuthErrors.{verify_failure_is_auth}
use compliance_engine.Scans.Store.{is_integration, get_integration, set_integration_status}
use compliance_engine.Scans.Rows.{Integration, World}
use compliance_engine.Scans.Exec.{◌>>=◌, lift, gets}
use compliance_engine.Scans.Integrations.{
  on_access, Access, granted, refused, VerificationError, mark_refused, verify_azure,
  with_new_secret, decrypt_secret,
}

-- The integration is an Azure one of this tenant.
pub record IsAzure (tenant_id integration_id : ℕ) (i : Integration) (w : World) : Type 0 where
  pub stored : get_integration tenant_id integration_id w ≡ some i
  pub provider : i.provider ≡ "azure"

-- The status that an answer of Azure leads to.
abbrev pub status_after : Access → String → String
status_after (granted details) old = "active"
status_after (refused e) old =
    if verify_failure_is_auth e.message e.status_code then "invalid" else old

get_integration-set_status :
    (t id : ℕ) (s : String) (w : World)
    → get_integration t id (set_integration_status t id s w)
      ≡ map_some (λ (i : Integration). record i { status = s }) (get_integration t id w)
unfolding get_integration set_integration_status
get_integration-set_status t id s w =
    find_by-update_where (is_integration t id) (λ (i : Integration). record i { status = s })
      w.integrations (λ r. refl)

-- What the integration is after Azure has answered for a new secret, and it was sealed.
abbrev pub rotated : Access → Result PyError String → Integration → Integration
rotated (granted details) (ok sealed) i = with_new_secret sealed "active" i
rotated (granted details) (err e) i = i
rotated (refused e) sealed i = record i { status = status_after (refused e) i.status }

module _ (encrypt decrypt : String → Result PyError String)
    (verify : Option String → Option String → String → String → Access) where
  mark_refused-status :
      (t id : ℕ) (e : VerificationError) (i : Integration) (w : World)
      → get_integration t id w ≡ some i
      → get_integration t id (mark_refused encrypt decrypt verify t id e w)
        ≡ some (record i { status = status_after (refused e) i.status })
  mark_refused-status t id e i w h =
      elim (Bool-cases (verify_failure_is_auth e.message e.status_code)) [
        | inl auth ↦ rw auth (get_integration-set_status t id "invalid" w ∙ rw h)
        | inr other ↦ rw other h
      ]

  on_access-status :
      (t id : ℕ) (a : Access) (i : Integration) (w : World)
      → get_integration t id w ≡ some i
      → get_integration t id (on_access encrypt decrypt verify t i id a w).1
        ≡ some (record i { status = status_after a i.status })
  on_access-status t id (granted details) i w h = get_integration-set_status t id "active" w ∙ rw h
  on_access-status t id (refused e) i w h = mark_refused-status t id e i w h

  -- For an Azure integration that is found and whose secret decrypts, verifying it changes
  -- its status only: to active where Azure grants access, to invalid where the refusal is an
  -- authentication failure, and not at all where it is refused for another reason.
  pub verify_azure-status :
      (t id : ℕ) (i : Integration) (secret : String) (w : World)
      → IsAzure t id i w
      → decrypt_secret encrypt decrypt verify i.azure_client_secret ≡ ok secret
      → get_integration t id (verify_azure encrypt decrypt verify t id w).1
        ≡ some (record i {
          status =
              status_after
                (verify i.azure_tenant_id i.azure_client_id secret i.account_id)
                i.status;
        })
  unfolding verify_azure ◌>>=◌ gets lift
  verify_azure-status t id i secret w h plain =
      rw (h.stored, (eq_iff i.provider "azure").1 h.provider, plain)
        (on_access-status t id (verify i.azure_tenant_id i.azure_client_id secret i.account_id) i w
          h.stored)
