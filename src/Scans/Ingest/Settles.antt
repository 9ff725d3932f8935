-- ===== src/Scans/Ingest/Settles.antt =====
-- A scan whose collection is complete is either handed over to the policy worker or failed.
use compliance_engine.Common.{
  ℕ, String, true, false, some, List, [], ◌∷◌, ◌++◌, ◌≡◌, ◌∙◌, ◌⊎◌, inl, inr, refl, ap, Result, ok,
  err,
}
use compliance_engine.Json.{pos, num, Json, PyError, null}
use compliance_engine.Scans.Status.{inventory_ready, failed}
use compliance_engine.Scans.Store.{
  evaluate_message, update_status, update_collection_run, set_integration_status, append_event,
  publish_policy_evaluate, with_status,
}
use compliance_engine.Scans.Rows.{World, Scan, PolicyMessage}
use compliance_engine.Scans.Inventory.{insert_resources, insert_relationships, count_resources}
use compliance_engine.Scans.Store.Frame.{
  scan_of, scan_of-update_status, queue-update_status, Respects,
}
use compliance_engine.Scans.Ingest.{
  inventory_payload, Inventory, load_inventory, publish_inventory, settle_ingest,
  collection_completed,
}
use compliance_engine.Scans.Ingest.Keeps.{load_inventory-Keeps}

-- The scan has its row, and the policy queue is this.
pub record Pending (tenant_id scan_id : ℕ) (queue : List PolicyMessage) (w : World) : Type 0 where
  pub scan : Scan
  pub stored : scan_of tenant_id scan_id w ≡ some scan
  pub queue_same : w.policy_queue ≡ queue

Pending-Respects : (t i : ℕ) (q : List PolicyMessage) → Respects t i (Pending t i q)
unfolding scan_of update_collection_run set_integration_status append_event insert_resources
    insert_relationships
Pending-Respects t i q = record {
  status = λ s error started completed w ends h. record {
    scan = with_status s error started completed h.scan;
    stored = scan_of-update_status t i s error started completed w ∙ rw h.stored;
    queue_same = queue-update_status t i s error started completed w ∙ h.queue_same;
  };
  run = λ id c w h. record { scan = h.scan; stored = h.stored; queue_same = h.queue_same };
  integration = λ id s w h. record { scan = h.scan; stored = h.stored; queue_same = h.queue_same };
  event =
      λ kind payload w h. record { scan = h.scan; stored = h.stored; queue_same = h.queue_same };
  resources = λ xs w h. record { scan = h.scan; stored = h.stored; queue_same = h.queue_same };
  relationships = λ xs w h. record { scan = h.scan; stored = h.stored; queue_same = h.queue_same };
}

-- The scan is ready for the policy worker, and the queue has one more message, for this scan.
pub record HandedOver (tenant_id scan_id : ℕ) (queue : List PolicyMessage) (w : World)
    : Type 0 where
  pub scan : Scan
  pub stored : scan_of tenant_id scan_id w ≡ some scan
  pub ready : scan.status ≡ inventory_ready
  pub payload : Json
  pub pushed : w.policy_queue ≡ queue ++ evaluate_message tenant_id scan_id payload ∷ []

-- The scan is failed and finished, and the queue is as it was.
pub record Failed (tenant_id scan_id : ℕ) (queue : List PolicyMessage) (w : World) : Type 0 where
  pub scan : Scan
  pub stored : scan_of tenant_id scan_id w ≡ some scan
  pub is_failed : scan.status ≡ failed
  pub finished : scan.completed ≡ true
  pub untouched : w.policy_queue ≡ queue

module _ (uuid : Json → Result PyError ℕ) (show : Json → String)
    (read_json : String → Result PyError Json)
    (read_bronze : String → Json → Result PyError (List Json))
    (normalize : Json → ℕ → ℕ → ℕ → String → Result PyError Inventory) (tenant_id scan_id : ℕ)
    (queue : List PolicyMessage) where
  settle_ingest-cases :
      (m : Result PyError (Json × ℕ) × World)
      → Pending tenant_id scan_id queue m.1
      → HandedOver tenant_id scan_id queue
          (settle_ingest uuid show read_json read_bronze normalize tenant_id scan_id m)
        ⊎ Failed tenant_id scan_id queue
            (settle_ingest uuid show read_json read_bronze normalize tenant_id scan_id m)
  unfolding publish_inventory publish_policy_evaluate append_event scan_of
  settle_ingest-cases (ok (c, n), w) h = inl record {
    scan = with_status inventory_ready null false false h.scan;
    stored =
        scan_of-update_status tenant_id scan_id inventory_ready null false false w ∙ rw h.stored;
    ready = refl;
    payload = _;
    pushed =
        ap
          (λ q.
            q
            ++ evaluate_message tenant_id scan_id (
                inventory_payload uuid show read_json read_bronze normalize
                  (num (
                    pos (
                      count_resources tenant_id scan_id
                        (update_status tenant_id scan_id inventory_ready null false false w))))
                  c)
              ∷ [])
          (queue-update_status tenant_id scan_id inventory_ready null false false w ∙ h.queue_same);
  }
  settle_ingest-cases (err e, w) h = inr record {
    scan = with_status failed null false true h.scan;
    stored = scan_of-update_status tenant_id scan_id failed null false true w ∙ rw h.stored;
    is_failed = refl;
    finished = refl;
    untouched = queue-update_status tenant_id scan_id failed null false true w ∙ h.queue_same;
  }

  -- For a scan that has its row, handling `collection.completed` either leaves it
  -- inventory_ready with exactly one message appended to the policy queue, a
  -- `policy.evaluate` for that scan, or, where anything raises, leaves it failed with its
  -- time of completion set and the queue as it was.
  pub collection_completed-settles :
      (payload : Json) (w : World) (scan : Scan)
      → scan_of tenant_id scan_id w ≡ some scan
      → w.policy_queue ≡ queue
      → HandedOver tenant_id scan_id queue (
          collection_completed uuid show read_json read_bronze normalize tenant_id scan_id payload
            w)
        ⊎ Failed tenant_id scan_id queue (
            collection_completed uuid show read_json read_bronze normalize tenant_id scan_id payload
              w)
  unfolding collection_completed
  collection_completed-settles payload w scan stored q =
      settle_ingest-cases
        (load_inventory uuid show read_json read_bronze normalize tenant_id scan_id payload w)
        (load_inventory-Keeps (Pending tenant_id scan_id queue) tenant_id scan_id
          (Pending-Respects tenant_id scan_id queue) uuid show read_json read_bronze normalize
          payload w (record { scan = scan; stored = stored; queue_same = q }))
