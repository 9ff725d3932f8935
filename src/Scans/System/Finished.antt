-- ===== src/Scans/System/Finished.antt =====
-- A scan in a terminal status has its time of completion, under any interleaving.
use compliance_engine.Common.Updates.{All-update_where}
use compliance_engine.Common.{
  ℕ, String, Bool, true, false, not, ◌||◌, Option, none, some, ◌≡◌, refl, arith, All, ok,
  Bool-cases, inl, inr, str_eq,
}
use compliance_engine.Json.{
  assertion_error, value_error, Json, PyError, null, index, get_or, obj, end,
}
use compliance_engine.Findings.Repository.{as_text}
use compliance_engine.Scans.Status.{ScanStatus, is_terminal, assert_transition, created, queued}
use compliance_engine.Scans.Store.{
  update_status, update_collection_run, set_integration_status, append_event,
  publish_policy_evaluate, with_status, is_scan, create_scan_row, get_integration,
}
use compliance_engine.Scans.Rows.{CollectionJob, World, Scan, Integration}
use compliance_engine.Scans.Inventory.{insert_resources, insert_relationships}
use compliance_engine.Scans.Runs.{start_evaluation_run, complete_evaluation_run}
use compliance_engine.Scans.Store.Frame.{Respects}
use compliance_engine.Scans.Exec.{raise, Keeps, bind-Keeps, seq-Keeps, lift}
use compliance_engine.Scans.Service.{
  create_scan, queue_scan, found, insert_scan, build_collection_job, push_job, next_id,
  integration_not_found,
}
use compliance_engine.Scans.Ingest.{handle_event}
use compliance_engine.Scans.Ingest.Keeps.{
  on_event-Keeps, then_read, then_do, then_ask, lift-Keeps, then_uuid, if-Keeps,
}
use compliance_engine.Scans.Evaluate.{}
use compliance_engine.Scans.Evaluate.Keeps.{handle_message-keeps, KeepsEvaluation}
use compliance_engine.Scans.System.{
  Outside, Step, creates, ingests, evaluates, Steps, stop, go, on_envelope,
}

-- Where the status is terminal, the time of completion is set.
abbrev pub Finished : Scan → Type 0
Finished s = (not (is_terminal s.status) || s.completed) ≡ true

abbrev pub AllFinished : World → Type 0
AllFinished w = All Finished w.scans

with_status-Finished :
    (s : ScanStatus) (error : Json) (started completed : Bool) (scan : Scan)
    → (not (is_terminal s) || completed) ≡ true
    → Finished (with_status s error started completed scan)
with_status-Finished s error started completed scan h = ground arith

update_status-AllFinished :
    (t i : ℕ) (s : ScanStatus) (error : Json) (started completed : Bool) (w : World)
    → (not (is_terminal s) || completed) ≡ true
    → AllFinished w
    → AllFinished (update_status t i s error started completed w)
unfolding update_status
update_status-AllFinished t i s error started completed w ends h =
    All-update_where Finished (is_scan t i) (with_status s error started completed) w.scans
      (λ scan _. with_status-Finished s error started completed scan ends) h

AllFinished-Respects : (t i : ℕ) → Respects t i AllFinished
unfolding update_collection_run set_integration_status append_event insert_resources
    insert_relationships
AllFinished-Respects t i = record {
  status = update_status-AllFinished t i;
  run = λ id c w h. h;
  integration = λ id s w h. h;
  event = λ kind payload w h. h;
  resources = λ xs w h. h;
  relationships = λ xs w h. h;
}

AllFinished-KeepsEvaluation : (t i : ℕ) → KeepsEvaluation t i AllFinished
unfolding start_evaluation_run complete_evaluation_run
AllFinished-KeepsEvaluation t i = record {
  starts = λ w h. h;
  completes = λ a b c s e w h. h;
  stores = λ n db w h. h;
}

publishes-AllFinished :
    (t i : ℕ) (payload : Json) (w : World)
    → AllFinished w
    → AllFinished (publish_policy_evaluate t i payload w)
unfolding publish_policy_evaluate
publishes-AllFinished t i payload w h = h

on_envelope-AllFinished :
    (o : Outside) (envelope : Json) (w : World)
    → AllFinished w
    → AllFinished (on_envelope o envelope w)
unfolding handle_event
on_envelope-AllFinished o envelope =
    then_read AllFinished (index envelope "event_type") _ (λ event_type.
      then_uuid AllFinished 0 0 (AllFinished-Respects 0 0) o.uuid o.show o.read_json o.read_bronze
        o.normalize envelope "tenant_id" _
        (λ t.
          then_uuid AllFinished 0 0 (AllFinished-Respects 0 0) o.uuid o.show o.read_json
            o.read_bronze o.normalize envelope "scan_id" _
            (λ i. then_read AllFinished (get_or (obj end) envelope "payload") _ (λ payload.
              then_read AllFinished (as_text event_type) _ (λ kind.
                then_do AllFinished _ _ ((AllFinished-Respects t i).event kind payload) (
                  on_event-Keeps AllFinished t i (AllFinished-Respects t i) o.uuid o.show
                    o.read_json o.read_bronze o.normalize (publishes-AllFinished t i) kind
                    payload))))))

module _ (o : Outside) where
  found-AllFinished :
      {A : Type 0} (e : PyError) (row : Option A)
      → Keeps AllFinished (found o.decrypt o.loads e row)
  unfolding raise lift
  found-AllFinished e none = λ w h. h
  found-AllFinished e (some a) = λ w h. h

  push_job-AllFinished :
      (provider : String) (job : CollectionJob) (w : World)
      → AllFinished w
      → AllFinished (push_job o.decrypt o.loads provider job w)
  unfolding push_job
  push_job-AllFinished provider job w h = elim (Bool-cases (str_eq provider "azure")) [
    | inl azure ↦ rw azure h
    | inr aws ↦ rw aws h
  ]

  queue_scan-AllFinished :
      (t : ℕ) (i : Integration) (row : Scan × ℕ)
      → Keeps AllFinished (queue_scan o.decrypt o.loads t i row)
  unfolding queue_scan
  queue_scan-AllFinished t i (scan, run_id) =
      seq-Keeps AllFinished _ _ (lift-Keeps AllFinished (assert_transition created queued)) (
        then_do AllFinished _ _
          (λ w. update_status-AllFinished t scan.id queued null true false w refl)
          (then_ask AllFinished _ _ (λ row.
            bind-Keeps AllFinished _ _ (found-AllFinished assertion_error row) (λ q.
              bind-Keeps AllFinished (next_id o.decrypt o.loads) _ (λ w h. h)
                (λ job_id.
                  then_read AllFinished
                    (build_collection_job o.decrypt o.loads job_id t i scan run_id) _
                    (λ job.
                      then_do AllFinished _ _ (push_job-AllFinished i.provider job)
                        (lift-Keeps AllFinished (ok q))))))))

  insert_scan-AllFinished :
      (t : ℕ) (i : Integration)
      → Keeps AllFinished (insert_scan o.decrypt o.loads o.default_status t i)
  unfolding create_scan_row
  insert_scan-AllFinished t i w h = (refl, h)

  create_scan-AllFinished :
      (t id : ℕ) → Keeps AllFinished (create_scan o.decrypt o.loads o.default_status t id)
  unfolding create_scan
  create_scan-AllFinished t id = then_ask AllFinished (get_integration t id) _ (λ row.
      bind-Keeps AllFinished _ _ (found-AllFinished integration_not_found row) (λ i.
        if-Keeps AllFinished (not (str_eq i.status "active")) _ _
          (found-AllFinished (value_error "integration is not active") none)
          (bind-Keeps AllFinished _ _ (insert_scan-AllFinished t i) (queue_scan-AllFinished t i))))

  step-AllFinished : {u v : World} → Step o u v → AllFinished u → AllFinished v
  step-AllFinished (creates t id w) h = create_scan-AllFinished t id w h
  step-AllFinished (ingests envelope w) h = on_envelope-AllFinished o envelope w h
  step-AllFinished (evaluates m rest w e) h =
      handle_message-keeps AllFinished o.describe o.policies m
        (AllFinished-KeepsEvaluation m.tenant_id m.scan_id)
        (AllFinished-Respects m.tenant_id m.scan_id) _ h

  -- Whatever the order in which scans are created, envelopes of any content are ingested and
  -- messages of the policy queue are evaluated, if every scan in a terminal status has its
  -- time of completion set, it stays so.
  pub Steps-AllFinished : (u v : World) → Steps o u v → AllFinished u → AllFinished v
  Steps-AllFinished u v (stop w) h = h
  Steps-AllFinished u v (go s ss) h = Steps-AllFinished _ _ ss (step-AllFinished s h)
