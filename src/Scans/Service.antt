-- ===== src/Scans/Service.antt =====
-- src/platform_backend/platform/services/scan_service.py: `create_scan`, and the status of an
-- integration after a failed authentication. `decrypt` is the cipher of security/external_id.py,
-- `loads` is `json.loads`, `verify` asks Azure, and `show` is `str` of a value that is no text.
pub mod Create
use compliance_engine.Common.{
  ℕ, ◌+◌, String, Bool, true, false, ◌&&◌, not, Option, none, some, List, [], ◌∷◌, ◌++◌, str_eq,
  if◌then◌else◌, Result, ok, err, leb, length,
}
use compliance_engine.Common.Rows.{find_by}
use compliance_engine.Json.{
  Json, null, str, num, pos, Fields, PyError, lookup_error, value_error, attribute_error,
  assertion_error,
}
use compliance_engine.Json.Compare.{json_eq}
use compliance_engine.Scans.Status.{created, queued, assert_transition}
use compliance_engine.Scans.AuthErrors.{
  is_azure_auth_failure, collection_errors_indicate_auth_failure, verify_failure_is_auth,
}
use compliance_engine.Scans.Store.{
  create_scan_row, update_status, is_scan, get_integration, set_integration_status,
}
use compliance_engine.Scans.Rows.{Integration, Scan, CollectionJob, aws_job, azure_job, World}
use compliance_engine.Scans.Exec.{Exec, ◌>>=◌, ◌>>◌, lift, raise, modify, gets, done, proceed}

abbrev pub integration_not_found : PyError
integration_not_found = lookup_error "integration not found"

module _ (decrypt : String → Result PyError String) (loads : String → Result PyError Json) where
  -- A column that is null has no `encode`.
  abbrev decrypt_column : Option String → Result PyError String
  decrypt_column none = err attribute_error
  decrypt_column (some s) = decrypt s

  -- `regions` is parsed where it is a text.
  abbrev pub regions_of : Json → Result PyError Json
  regions_of (str s) = loads s
  regions_of v = ok v

  abbrev with_secret : {A B : Type 0} → Result PyError A → (A → B) → Result PyError B
  with_secret (ok a) f = ok (f a)
  with_secret (err e) f = err e

  abbrev pub build_aws_collection_job :
      ℕ → ℕ → Integration → Scan → ℕ → Result PyError CollectionJob
  build_aws_collection_job job_id tenant_id i scan run_id = elim (regions_of i.regions) [
    | err e ↦ err e
    | ok regions ↦ with_secret (decrypt_column i.external_id) (λ external_id.
        aws_job job_id scan.id tenant_id i.id run_id i.account_id i.role_arn external_id regions)
  ]

  abbrev pub build_azure_collection_job :
      ℕ → ℕ → Integration → Scan → ℕ → Result PyError CollectionJob
  build_azure_collection_job job_id tenant_id i scan run_id = elim (regions_of i.regions) [
    | err e ↦ err e
    | ok regions ↦ with_secret (decrypt_column i.azure_client_secret) (λ client_secret.
        azure_job job_id scan.id tenant_id i.id run_id i.account_id i.azure_tenant_id
          i.azure_client_id client_secret regions)
  ]

  unfoldable pub build_collection_job :
      ℕ → ℕ → Integration → Scan → ℕ → Result PyError CollectionJob
  build_collection_job job_id tenant_id i scan run_id =
      if str_eq i.provider "azure"
      then build_azure_collection_job job_id tenant_id i scan run_id
      else build_aws_collection_job job_id tenant_id i scan run_id

  -- `lpush` on the queue that `collect_queue_for_provider` names
  unfoldable pub push_job : String → CollectionJob → World → World
  push_job provider job w =
      if str_eq provider "azure"
      then record w { azure_queue = w.azure_queue ++ job ∷ [] }
      else record w { aws_queue = w.aws_queue ++ job ∷ [] }

  -- A fresh number stands for `uuid4()`.
  abbrev pub next_id : Exec ℕ
  next_id w = (ok w.fresh, record w { fresh = w.fresh + 1 })

  abbrev pub found : {A : Type 0} → PyError → Option A → Exec A
  found e none = raise e
  found e (some a) = lift (ok a)

  -- From the check of the transition on.
  unfoldable pub queue_scan : ℕ → Integration → Scan × ℕ → Exec Scan
  unfolding assert_transition update_status find_by build_collection_job push_job
  queue_scan tenant_id i (scan, run_id) = do
    lift (assert_transition created queued)
    modify (update_status tenant_id scan.id queued null true false)
    row ← gets (λ w. find_by (is_scan tenant_id scan.id) w.scans)
    queued_row ← found assertion_error row
    job_id ← next_id
    job ← lift (build_collection_job job_id tenant_id i scan run_id)
    modify (push_job i.provider job)
    lift (ok queued_row)

  module _ (default_status : String) where
    abbrev pub insert_scan : ℕ → Integration → Exec (Scan × ℕ)
    insert_scan tenant_id i w =
        let (created_row, w') = create_scan_row default_status tenant_id i.id i.account_id w in
        (ok created_row, w')

    unfoldable pub create_scan : ℕ → ℕ → Exec Scan
    unfolding get_integration create_scan_row queue_scan
    create_scan tenant_id integration_id = do
      row ← gets (get_integration tenant_id integration_id)
      i ← found integration_not_found row
      if not (str_eq i.status "active")
          then raise (value_error "integration is not active")
          else (insert_scan tenant_id i >>= queue_scan tenant_id i)

module _ (show : Json → String) where
  abbrev is_zero : Json → Bool
  is_zero v = json_eq v (num (pos 0))

  -- `should_mark`, whose two tests of the errors give one result.
  unfoldable pub should_mark : Option Fields → Option (List Json) → Json → Result PyError Bool
  should_mark error errors resource_count =
      if is_azure_auth_failure show error then ok true else elim errors [
        | none ↦ ok false
        | some es ↦ elim (collection_errors_indicate_auth_failure show es) [
          | err e ↦ err e
          | ok hit ↦ ok (hit && (if is_zero resource_count then true else leb 3 (length es)))
        ]
      ]

  abbrev pub mark_if : ℕ → ℕ → Bool → Exec (Unit {0})
  mark_if tenant_id integration_id marks =
      if marks then modify (set_integration_status tenant_id integration_id "invalid") else done

  -- The part of `mark_invalid_if_azure_auth_failure` after the query.
  abbrev pub mark_found :
      ℕ → ℕ → Option Fields → Option (List Json) → Json → Option Integration → Exec (Unit {0})
  mark_found tenant_id integration_id error errors resource_count none = done
  mark_found tenant_id integration_id error errors resource_count (some i) =
      if not (str_eq i.provider "azure")
      then done
      else (lift (should_mark error errors resource_count) >>= mark_if tenant_id integration_id)

  unfoldable pub mark_invalid_if_azure_auth_failure :
      ℕ → ℕ → Option Fields → Option (List Json) → Json → Exec (Unit {0})
  unfolding should_mark set_integration_status get_integration
  mark_invalid_if_azure_auth_failure tenant_id integration_id error errors resource_count =
      gets (get_integration tenant_id integration_id)
      >>= mark_found tenant_id integration_id error errors resource_count
