-- ===== src/Scans/Ingest.antt =====
-- `IngestWorker` of src/platform_backend/assets/ingest/worker.py. `uuid` is the constructor `UUID`,
-- `read_json` and `read_bronze` read the object store (assets/ingest/s3_reader.py), and `normalize`
-- turns a collected file into rows (assets/ingest/normalizer.py).
pub mod Keeps
pub mod Settles
use compliance_engine.Common.{
  ℕ, ◌+◌, String, Bool, true, false, not, Option, none, some, List, [], ◌∷◌, ◌++◌, str_eq, length,
  if◌then◌else◌, Result, ok, err, ltb,
}
use compliance_engine.Json.{
  Json, null, bool, num, ℤ, pos, negsuc, str, arr, obj, Fields, end, field, PyError, lookup_error,
  type_error, value_error, index, get_or, item_list,
}
use compliance_engine.Findings.Repository.{as_text}
use compliance_engine.Scans.Status.{
  ScanStatus, collecting, collected, ingesting, inventory_ready, failed, value,
}
use compliance_engine.Scans.Store.{
  RunChange, update_status, get_collection_run, update_collection_run, append_event,
  publish_policy_evaluate,
}
use compliance_engine.Scans.Rows.{World, CollectionRun, Resource, Relationship}
use compliance_engine.Scans.Inventory.{insert_resources, insert_relationships, count_resources}
use compliance_engine.Scans.Exec.{Exec, ◌>>=◌, ◌>>◌, lift, raise, modify, gets, done, proceed}
use compliance_engine.Scans.Service.{mark_invalid_if_azure_auth_failure}

abbrev pub as_dict : Json → Option Fields
as_dict (obj fs) = some fs
as_dict _ = none

abbrev pub as_list : Json → Option (List Json)
as_list (arr xs) = some (item_list xs)
as_list _ = none

-- What the driver takes for a column of type `int`: four bytes.
abbrev pub as_int4 : Json → Result PyError (Option ℤ)
as_int4 null = ok none
as_int4 (num (pos n)) = if ltb n (2147483648) then ok (some (pos n)) else err type_error
as_int4 (num (negsuc n)) = if ltb n (2147483648) then ok (some (negsuc n)) else err type_error
as_int4 (bool b) = ok (some (pos (if b then 1 else 0)))
as_int4 _ = err type_error

abbrev pub run_change : String → RunChange
run_change status = record {
  status = status;
  manifest_s3_uri = none;
  resource_count = none;
  error = null;
  started = false;
  completed = false;
}

-- The arguments of the three calls of `update_collection_run`.
abbrev pub started_run : RunChange
started_run = record (run_change "running") { started = true }

abbrev pub collected_run : String → String → Option ℤ → RunChange
collected_run status uri resource_count = record (run_change status) {
  manifest_s3_uri = some uri;
  resource_count = resource_count;
  completed = true;
}

abbrev pub failed_run : Json → RunChange
failed_run error = record (run_change "failed") { error = error; completed = true }

abbrev pub Inventory : Type 0
Inventory = List Resource × List Relationship

module _ (uuid : Json → Result PyError ℕ) (show : Json → String)
    (read_json : String → Result PyError Json)
    (read_bronze : String → Json → Result PyError (List Json))
    (normalize : Json → ℕ → ℕ → ℕ → String → Result PyError Inventory) where
  abbrev pub uuid_at : Json → String → Exec ℕ
  uuid_at v k = lift (index v k) >>= λ found. lift (uuid found)

  abbrev pub mark_error : ℕ → ℕ → Option Fields → Exec (Unit {0})
  mark_error tenant_id integration_id none = done
  mark_error tenant_id integration_id (some e) =
      mark_invalid_if_azure_auth_failure show tenant_id integration_id (some e) none null

  -- The two branches of `_maybe_mark_integration_invalid`.
  abbrev pub mark_errors : ℕ → ℕ → Json → Option Fields → Option (List Json) → Exec (Unit {0})
  mark_errors tenant_id integration_id payload error none =
      mark_error tenant_id integration_id error
  mark_errors tenant_id integration_id payload error (some es) = do
    resource_count ← lift (get_or null payload "resource_count")
    mark_invalid_if_azure_auth_failure show tenant_id integration_id error (some es) resource_count

  abbrev pub mark_run : ℕ → Json → Option CollectionRun → Exec (Unit {0})
  mark_run tenant_id payload none = done
  mark_run tenant_id payload (some run) = do
    error ← lift (get_or null payload "error")
    errors ← lift (get_or null payload "errors")
    mark_errors tenant_id run.integration_id payload (as_dict error) (as_list errors)

  unfoldable pub maybe_mark_integration_invalid : ℕ → ℕ → Json → Exec (Unit {0})
  unfolding get_collection_run mark_invalid_if_azure_auth_failure get_or
  maybe_mark_integration_invalid tenant_id scan_id payload =
      gets (get_collection_run tenant_id scan_id) >>= mark_run tenant_id payload

  -- `for bronze in bronze_files`
  unfoldable pub normalize_all : ℕ → ℕ → CollectionRun → List Json → Result PyError Inventory
  normalize_all tenant_id scan_id run [] = ok ([], [])
  normalize_all tenant_id scan_id run (bronze ∷ files) =
      let rest = normalize_all tenant_id scan_id run files in
      elim (normalize bronze tenant_id scan_id run.integration_id run.account_id) [
        | err e ↦ err e
        | ok (rs, ls) ↦ elim rest [ err e ↦ err e | ok (rs', ls') ↦ ok (rs ++ rs', ls ++ ls') ]
      ]

  abbrev pub found_run : Option CollectionRun → Exec CollectionRun
  found_run none = raise (lookup_error "collection run not found")
  found_run (some run) = lift (ok run)

  -- `_handle_collection_completed` up to the update of the run: `collection_status`, `manifest_uri`.
  unfoldable pub record_collection : ℕ → ℕ → Json → Exec (Json × String)
  unfolding update_status update_collection_run index get_or
  record_collection tenant_id scan_id payload = do
    run_id ← uuid_at payload "collection_run_id"
    collection_status ← lift (index payload "status")
    manifest_uri ← lift (index payload "manifest_s3_uri")
    modify (update_status tenant_id scan_id collected null false false)
    count ← lift (get_or null payload "resource_count")
    status ← lift (as_text collection_status)
    uri ← lift (as_text manifest_uri)
    resource_count ← lift (as_int4 count)
    modify (update_collection_run tenant_id run_id (collected_run status uri resource_count))
    lift (ok (collection_status, uri))

  -- From there to the end of the loop over the files.
  unfoldable pub gather_inventory : ℕ → ℕ → String → Exec Inventory
  unfolding update_status get_collection_run normalize_all
  gather_inventory tenant_id scan_id uri = do
    modify (update_status tenant_id scan_id ingesting null false false)
    manifest ← lift (read_json uri)
    files ← lift (read_bronze uri manifest)
    row ← gets (get_collection_run tenant_id scan_id)
    run ← found_run row
    lift (normalize_all tenant_id scan_id run files)

  -- `_handle_collection_completed` up to the insertions: every exception comes from here. The result
  -- is `collection_status` and `len(all_relationships)`.
  unfoldable pub load_inventory : ℕ → ℕ → Json → Exec (Json × ℕ)
  unfolding record_collection gather_inventory maybe_mark_integration_invalid insert_resources
      insert_relationships
  load_inventory tenant_id scan_id payload = do
    collection ← record_collection tenant_id scan_id payload
    maybe_mark_integration_invalid tenant_id scan_id payload
    inventory ← gather_inventory tenant_id scan_id collection.1
    modify (insert_resources inventory.0)
    modify (insert_relationships inventory.1)
    lift (ok (collection.0, length inventory.1))

  abbrev pub inventory_payload : Json → Json → Json
  inventory_payload resource_count collection_status =
      obj (field "resource_count" resource_count (field "collection_status" collection_status end))

  -- The rest of `_handle_collection_completed`.
  unfoldable pub publish_inventory : ℕ → ℕ → Json × ℕ → World → World
  unfolding update_status append_event count_resources publish_policy_evaluate
  publish_inventory tenant_id scan_id (collection_status, relationship_count) w =
      let w₁ = update_status tenant_id scan_id inventory_ready null false false w in
      let resource_count = num (pos (count_resources tenant_id scan_id w₁)) in
      let w₂ =
        append_event tenant_id scan_id "inventory.updated"
          (obj (
            field "resource_count" resource_count (
              field "relationship_count" (num (pos relationship_count))
                (field "collection_status" collection_status end))))
          w₁ in
      publish_policy_evaluate tenant_id scan_id (inventory_payload resource_count collection_status)
        w₂

  -- The end of the `try` of `handle_event`, and its `except`.
  abbrev pub settle_ingest : ℕ → ℕ → Result PyError (Json × ℕ) × World → World
  settle_ingest tenant_id scan_id (ok loaded, w) = publish_inventory tenant_id scan_id loaded w
  settle_ingest tenant_id scan_id (err e, w) =
      update_status tenant_id scan_id failed null false true w

  -- `_handle_collection_completed` under the `try` of `handle_event`.
  unfoldable pub collection_completed : ℕ → ℕ → Json → World → World
  unfolding load_inventory publish_inventory update_status
  collection_completed tenant_id scan_id payload w =
      settle_ingest tenant_id scan_id (load_inventory tenant_id scan_id payload w)

  unfoldable pub collection_started : ℕ → ℕ → Json → Exec (Unit {0})
  unfolding update_status update_collection_run index
  collection_started tenant_id scan_id payload = do
    run_id ← uuid_at payload "collection_run_id"
    modify (update_status tenant_id scan_id collecting null false false)
    modify (update_collection_run tenant_id run_id started_run)

  unfoldable pub collection_failed : ℕ → ℕ → Json → Exec (Unit {0})
  unfolding update_status update_collection_run maybe_mark_integration_invalid append_event index
  collection_failed tenant_id scan_id payload = do
    run_id ← uuid_at payload "collection_run_id"
    error ← lift (get_or null payload "error")
    modify (update_status tenant_id scan_id failed error false true)
    modify (update_collection_run tenant_id run_id (failed_run error))
    maybe_mark_integration_invalid tenant_id scan_id payload
    modify (
        append_event tenant_id scan_id "scan.completed"
          (obj (field "status" (str (value failed)) (field "error" error end))))

  -- The dispatch on the type of the event.
  unfoldable pub on_event : ℕ → ℕ → String → Json → Exec (Unit {0})
  unfolding collection_started collection_failed collection_completed
  on_event tenant_id scan_id event_type payload =
      if str_eq event_type "collection.started"
      then collection_started tenant_id scan_id payload
      else if str_eq event_type "collection.failed"
      then collection_failed tenant_id scan_id payload
      else if str_eq event_type "collection.completed"
      then modify (collection_completed tenant_id scan_id payload)
      else done

  unfoldable pub handle_event : Json → Exec (Unit {0})
  unfolding on_event append_event index get_or
  handle_event envelope = do
    event_type ← lift (index envelope "event_type")
    tenant_id ← uuid_at envelope "tenant_id"
    scan_id ← uuid_at envelope "scan_id"
    payload ← lift (get_or (obj end) envelope "payload")
    type_text ← lift (as_text event_type)
    modify (append_event tenant_id scan_id type_text payload)
    on_event tenant_id scan_id type_text payload
