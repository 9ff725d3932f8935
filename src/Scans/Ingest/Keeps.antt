-- ===== src/Scans/Ingest/Keeps.antt =====
-- What the operations on a scan keep, handling an event of that scan keeps.
use compliance_engine.Common.{
  ℕ, String, Bool, true, false, not, Option, none, some, List, refl, str_eq, Result, ok, err,
  if◌then◌else◌,
}
use compliance_engine.Json.{Json, Fields, PyError, index, get_or, null}
use compliance_engine.Scans.Store.{get_collection_run, get_integration}
use compliance_engine.Scans.Rows.{World, CollectionRun, Integration}
use compliance_engine.Scans.Store.Frame.{Respects}
use compliance_engine.Scans.Exec.{
  ◌>>=◌, ◌>>◌, Exec, Keeps, bind-Keeps, seq-Keeps, lift, modify, gets, done, raise,
}
use compliance_engine.Scans.Service.{mark_found, should_mark, mark_invalid_if_azure_auth_failure}
use compliance_engine.Scans.Ingest.{
  inventory_ready, settle_ingest, failed_run, on_event, collection_completed, started_run,
  publish_inventory, failed, collecting, collected_run, publish_policy_evaluate, record_collection,
  gather_inventory, ingesting, as_int4, as_text, mark_run, found_run, mark_errors, collected,
  as_dict, as_list, Inventory, uuid_at, maybe_mark_integration_invalid, load_inventory,
  collection_started, collection_failed,
}

module _ (P : World → Type 0) where
  pub lift-Keeps : {A : Type 0} (r : Result PyError A) → Keeps P (lift r)
  unfolding lift
  lift-Keeps r w h = h

  pub then_read :
      {A B : Type 0} (r : Result PyError A) (k : A → Exec B)
      → ((a : A) → Keeps P (k a))
      → Keeps P (lift r >>= k)
  unfolding ◌>>=◌ lift
  then_read (ok a) k next w h = next a w h
  then_read (err e) k next w h = h

  pub then_do :
      {B : Type 0} (f : World → World) (k : Exec B)
      → ((w : World) → P w → P (f w))
      → Keeps P k
      → Keeps P (modify f >> k)
  unfolding ◌>>◌ modify
  then_do f k step next w h = next (f w) (step w h)

  pub then_ask :
      {A B : Type 0} (q : World → A) (k : A → Exec B)
      → ((a : A) → Keeps P (k a))
      → Keeps P (gets q >>= k)
  unfolding ◌>>=◌ gets
  then_ask q k next w h = next (q w) w h

  pub modify-Keeps : (f : World → World) → ((w : World) → P w → P (f w)) → Keeps P (modify f)
  unfolding modify
  modify-Keeps f step w h = step w h

  pub if-Keeps :
      {A : Type 0} (b : Bool) (m n : Exec A) → Keeps P m → Keeps P n → Keeps P (if b then m else n)
  if-Keeps true m n h k = h
  if-Keeps false m n h k = k

  done-Keeps : Keeps P done
  unfolding done
  done-Keeps w h = h

  module _ (tenant_id scan_id : ℕ) (respects : Respects tenant_id scan_id P)
      (uuid : Json → Result PyError ℕ) (show : Json → String)
      (read_json : String → Result PyError Json)
      (read_bronze : String → Json → Result PyError (List Json))
      (normalize : Json → ℕ → ℕ → ℕ → String → Result PyError Inventory) where
    pub then_uuid :
        {B : Type 0} (v : Json) (key : String) (k : ℕ → Exec B)
        → ((id : ℕ) → Keeps P (k id))
        → Keeps P (uuid_at uuid show read_json read_bronze normalize v key >>= k)
    then_uuid v key k next =
        bind-Keeps P (uuid_at uuid show read_json read_bronze normalize v key) k
          (then_read (index v key) _ (λ found. lift-Keeps (uuid found))) next

    mark_found-Keeps :
        (id : ℕ) (error : Option Fields) (errors : Option (List Json)) (n : Json)
        (row : Option Integration)
        → Keeps P (mark_found show tenant_id id error errors n row)
    mark_found-Keeps id error errors n none = done-Keeps
    mark_found-Keeps id error errors n (some i) =
        if-Keeps (not (str_eq i.provider "azure")) _ _ done-Keeps (
          then_read (should_mark show error errors n) _ (λ marks.
            if-Keeps marks _ _ (modify-Keeps _ (respects.integration id "invalid")) done-Keeps))

    mark_invalid-Keeps :
        (id : ℕ) (error : Option Fields) (errors : Option (List Json)) (n : Json)
        → Keeps P (mark_invalid_if_azure_auth_failure show tenant_id id error errors n)
    unfolding mark_invalid_if_azure_auth_failure
    mark_invalid-Keeps id error errors n =
        then_ask (get_integration tenant_id id) _ (mark_found-Keeps id error errors n)

    mark_errors-Keeps :
        (id : ℕ) (payload : Json) (error : Option Fields) (errors : Option (List Json))
        → Keeps P (
            mark_errors uuid show read_json read_bronze normalize tenant_id id payload error errors)
    mark_errors-Keeps id payload none none = done-Keeps
    mark_errors-Keeps id payload (some e) none = mark_invalid-Keeps id (some e) none null
    mark_errors-Keeps id payload error (some es) =
        then_read (get_or null payload "resource_count") _ (mark_invalid-Keeps id error (some es))

    mark_run-Keeps :
        (payload : Json) (row : Option CollectionRun)
        → Keeps P (mark_run uuid show read_json read_bronze normalize tenant_id payload row)
    mark_run-Keeps payload none = done-Keeps
    mark_run-Keeps payload (some run) = then_read (get_or null payload "error") _ (λ error.
        then_read (get_or null payload "errors") _
          (λ errors. mark_errors-Keeps run.integration_id payload (as_dict error) (as_list errors)))

    maybe_mark-Keeps :
        (payload : Json)
        → Keeps P (
            maybe_mark_integration_invalid uuid show read_json read_bronze normalize tenant_id
              scan_id payload)
    unfolding maybe_mark_integration_invalid
    maybe_mark-Keeps payload =
        then_ask (get_collection_run tenant_id scan_id) _ (mark_run-Keeps payload)

    found_run-Keeps :
        {B : Type 0} (row : Option CollectionRun) (k : CollectionRun → Exec B)
        → ((run : CollectionRun) → Keeps P (k run))
        → Keeps P (found_run uuid show read_json read_bronze normalize row >>= k)
    unfolding ◌>>=◌ raise
    found_run-Keeps none k next = λ w h. h
    found_run-Keeps (some run) k next = then_read (ok run) k next

    record_collection-Keeps :
        (payload : Json)
        → Keeps P
            (record_collection uuid show read_json read_bronze normalize tenant_id scan_id payload)
    unfolding record_collection
    record_collection-Keeps payload = then_uuid payload "collection_run_id" _ (λ run_id.
        then_read (index payload "status") _ (λ collection_status.
          then_read (index payload "manifest_s3_uri") _ (λ manifest_uri.
            then_do _ _ (λ w. respects.status collected null false false w refl)
              (then_read (get_or null payload "resource_count") _ (λ n.
                then_read (as_text collection_status) _ (λ status.
                  then_read (as_text manifest_uri) _ (λ uri.
                    then_read (as_int4 n) _ (λ resource_count.
                      then_do _ _
                        (λ w. respects.run run_id (collected_run status uri resource_count) w)
                        (lift-Keeps _)))))))))

    gather_inventory-Keeps :
        (uri : String)
        → Keeps P (gather_inventory uuid show read_json read_bronze normalize tenant_id scan_id uri)
    unfolding gather_inventory
    gather_inventory-Keeps uri =
        then_do _ _ (λ w. respects.status ingesting null false false w refl)
          (then_read (read_json uri) _ (λ manifest. then_read (read_bronze uri manifest) _ (λ files.
            then_ask (get_collection_run tenant_id scan_id) _
              (λ row. found_run-Keeps row _ (λ run. lift-Keeps _)))))

    pub load_inventory-Keeps :
        (payload : Json)
        → Keeps P
            (load_inventory uuid show read_json read_bronze normalize tenant_id scan_id payload)
    unfolding load_inventory
    load_inventory-Keeps payload = bind-Keeps P _ _ (record_collection-Keeps payload) (λ collection.
        seq-Keeps P _ _ (maybe_mark-Keeps payload) (
          bind-Keeps P _ _ (gather_inventory-Keeps collection.1) (λ inventory.
            then_do _ _ (respects.resources inventory.0)
              (then_do _ _ (respects.relationships inventory.1) (lift-Keeps _)))))

    collection_started-Keeps :
        (payload : Json)
        → Keeps P
            (collection_started uuid show read_json read_bronze normalize tenant_id scan_id payload)
    unfolding collection_started
    collection_started-Keeps payload = then_uuid payload "collection_run_id" _ (λ run_id.
        then_do _ _ (λ w. respects.status collecting null false false w refl)
          (modify-Keeps _ (λ w. respects.run run_id started_run w)))

    collection_failed-Keeps :
        (payload : Json)
        → Keeps P
            (collection_failed uuid show read_json read_bronze normalize tenant_id scan_id payload)
    unfolding collection_failed
    collection_failed-Keeps payload = then_uuid payload "collection_run_id" _ (λ run_id.
        then_read (get_or null payload "error") _ (λ error.
          then_do _ _ (λ w. respects.status failed error false true w refl)
            (then_do _ _ (λ w. respects.run run_id (failed_run error) w)
              (seq-Keeps P _ _ (maybe_mark-Keeps payload)
                (modify-Keeps _ (λ w. respects.event "scan.completed" _ w))))))

    -- Handing the scan over to the policy worker keeps `P` too.
    module _
        (publishes : (payload : Json) (w : World)
          → P w
          → P (publish_policy_evaluate tenant_id scan_id payload w)) where
      settle_ingest-keeps :
          (m : Result PyError (Json × ℕ) × World)
          → P m.1
          → P (settle_ingest uuid show read_json read_bronze normalize tenant_id scan_id m)
      unfolding publish_inventory
      settle_ingest-keeps (ok (c, n), w) h = publishes _ _ (
          respects.event "inventory.updated" _ _
            (respects.status inventory_ready null false false w refl h))
      settle_ingest-keeps (err e, w) h = respects.status failed null false true w refl h

      collection_completed-keeps :
          (payload : Json) (w : World)
          → P w
          → P (
              collection_completed uuid show read_json read_bronze normalize tenant_id scan_id
                payload w)
      unfolding collection_completed
      collection_completed-keeps payload w h =
          settle_ingest-keeps
            (load_inventory uuid show read_json read_bronze normalize tenant_id scan_id payload w)
            (load_inventory-Keeps payload w h)

      pub on_event-Keeps :
          (kind : String) (payload : Json)
          → Keeps P
              (on_event uuid show read_json read_bronze normalize tenant_id scan_id kind payload)
      unfolding on_event
      on_event-Keeps kind payload =
          if-Keeps (str_eq kind "collection.started") _ _ (collection_started-Keeps payload) (
            if-Keeps (str_eq kind "collection.failed") _ _ (collection_failed-Keeps payload) (
              if-Keeps (str_eq kind "collection.completed") _ _
                (modify-Keeps _ (collection_completed-keeps payload)) done-Keeps))
