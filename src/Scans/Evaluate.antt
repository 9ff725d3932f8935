-- ===== src/Scans/Evaluate.antt =====
-- `PolicyWorker` of src/platform_backend/policy/worker.py, with the evaluation of the findings
-- component and the mapper of the compliance component. `describe` is `str(exc)`.
pub mod Keeps
pub mod Envelope
mod Tests
pub mod Settles
use compliance_engine.Common.{
  ℕ, String, Bool, true, false, not, ◌||◌, Option, none, some, List, [], ◌∷◌, str_eq, if◌then◌else◌,
  Result, ok, err,
}
use compliance_engine.Json.{
  Json, null, num, pos, str, obj, end, field, PyError, get_or, or_else, truthy,
}
use compliance_engine.Policy.Catalog.{PolicyDefinition}
use compliance_engine.Findings.Repository.{Table, Progress, evaluate_scan}
use compliance_engine.Compliance.Mapper.{Summary}
use compliance_engine.Compliance.Store.{FrameworkSummary, map_scan}
use compliance_engine.Scans.Status.{
  ScanStatus, inventory_ready, evaluating, completed, completed_with_errors, failed, same, value,
}
use compliance_engine.Scans.Store.{get_scan, get_collection_run, update_status, append_event}
use compliance_engine.Scans.Rows.{World, Scan, CollectionRun, PolicyMessage}
use compliance_engine.Scans.Runs.{start_evaluation_run, complete_evaluation_run}
use compliance_engine.Scans.Inventory.{list_assets}
use compliance_engine.Scans.Exec.{Exec, ◌>>=◌, ◌>>◌, lift, modify, gets, proceed}

-- `current in {INVENTORY_READY, COMPLETED_WITH_ERRORS}`
abbrev pub is_ready : ScanStatus → Bool
is_ready s = same s inventory_ready || same s completed_with_errors

-- `{"message": str(exc)}`
abbrev pub message : String → Json
message text = obj (field "message" (str text) end)

-- The summary's dict, its score in hundredths.
abbrev summary_dict : FrameworkSummary → Json
summary_dict s = obj (
    field "framework_id" (str s.framework_id) (
      field "scan_id" (num (pos s.scan_id)) (
        field "score" (num (pos s.score)) (
          field "summary"
            (obj (
              field "pass" (num (pos s.summary.passes)) (
                field "fail" (num (pos s.summary.fails)) (
                  field "not_assessed" (num (pos s.summary.not_assessed_count)) (
                    field "manual" (num (pos s.summary.manual_count)) (
                      field "error" (num (pos s.summary.errors))
                        (field "total" (num (pos s.summary.total)) end)))))))
            end))))

abbrev run_status : Option CollectionRun → Json
run_status none = null
run_status (some r) = str r.status

-- `(run or {}).get("status") or payload.get("collection_status")`
abbrev reported_status : Json → Json → Result PyError Json
reported_status status payload =
    if truthy status then ok status else get_or null payload "collection_status"

abbrev pub final_status : Json → ScanStatus
final_status (str s) = if str_eq s "completed" then completed else completed_with_errors
final_status _ = completed_with_errors

module _ (describe : PyError → String) (policies : List PolicyDefinition) where
  abbrev counters : Result PyError (Unit {0}) → Progress → Result PyError Progress
  counters (ok _) progress = ok progress
  counters (err e) progress = err e

  -- `evaluate_scan` on the rows of the findings.
  unfoldable pub run_policies : ℕ → ℕ → List Json → Exec Progress
  unfolding evaluate_scan
  run_policies tenant_id scan_id assets w =
      let (result, progress) =
        evaluate_scan describe tenant_id scan_id assets policies
          (record { fresh = w.fresh; rows = w.compliance.findings }) in
      (
        counters result progress,
        record w {
          fresh = progress.table.fresh;
          compliance = record (w.compliance) { findings = progress.table.rows };
        },
      )

  unfoldable pub run_mapper : ℕ → ℕ → Exec FrameworkSummary
  unfolding map_scan
  run_mapper tenant_id scan_id w =
      let (result, db) = map_scan tenant_id scan_id none w.compliance in
      (result, record w { compliance = db })

  -- The part of the `try` that may raise. The result is what the rest reports.
  unfoldable pub evaluate_and_map : ℕ → ℕ → Json → Exec (Progress × FrameworkSummary × Json)
  unfolding run_policies run_mapper list_assets complete_evaluation_run get_collection_run get_or
  evaluate_and_map tenant_id scan_id payload = do
    assets ← gets (list_assets tenant_id scan_id 5000 0)
    progress ← run_policies tenant_id scan_id assets
    modify (
        complete_evaluation_run tenant_id scan_id progress.policies_run progress.findings_count
          progress.fail_count "completed" null)
    summary ← run_mapper tenant_id scan_id
    run ← gets (get_collection_run tenant_id scan_id)
    reported ← lift (reported_status (run_status run) payload)
    lift (ok (progress, summary, or_else reported (str "completed")))

  -- The rest of the `try`.
  unfoldable pub report : ℕ → ℕ → Progress × FrameworkSummary × Json → World → World
  unfolding update_status append_event
  report tenant_id scan_id (progress, summary, collection_status) w =
      let w₁ = update_status tenant_id scan_id (final_status collection_status) null false true w in
      let w₂ =
        append_event tenant_id scan_id "policy.completed"
          (obj (
            field "policies_run" (num (pos progress.policies_run)) (
              field "findings_count" (num (pos progress.findings_count)) (
                field "fail_count" (num (pos progress.fail_count))
                  (field "compliance_score" (num (pos summary.score)) end)))))
          w₁ in
      let w₃ = append_event tenant_id scan_id "compliance.updated" (summary_dict summary) w₂ in
      append_event tenant_id scan_id "scan.completed"
        (obj (field "status" (str (value (final_status collection_status))) end)) w₃

  -- The `except`.
  unfoldable pub report_failure : ℕ → ℕ → PyError → World → World
  unfolding update_status append_event complete_evaluation_run
  report_failure tenant_id scan_id e w =
      let w₁ = complete_evaluation_run tenant_id scan_id 0 0 0 "failed" (message (describe e)) w in
      let w₂ = update_status tenant_id scan_id failed (message (describe e)) false true w₁ in
      append_event tenant_id scan_id "scan.completed"
        (obj (field "status" (str (value failed)) (field "error" (message (describe e)) end))) w₂

  abbrev pub settle : ℕ → ℕ → Result PyError (Progress × FrameworkSummary × Json) × World → World
  settle tenant_id scan_id (ok reported, w) = report tenant_id scan_id reported w
  settle tenant_id scan_id (err e, w) = report_failure tenant_id scan_id e w

  -- `handle_event` from the point where the scan is ready.
  unfoldable pub evaluate_ready : ℕ → ℕ → Json → World → World
  unfolding evaluate_and_map report report_failure update_status start_evaluation_run
  evaluate_ready tenant_id scan_id payload w = settle tenant_id scan_id (
      evaluate_and_map tenant_id scan_id payload (
        start_evaluation_run tenant_id scan_id
          (update_status tenant_id scan_id evaluating null false false w)))

  abbrev pub evaluate_found : ℕ → ℕ → Json → Option Scan → World → World
  evaluate_found tenant_id scan_id payload none w = w
  evaluate_found tenant_id scan_id payload (some scan) w =
      if is_ready scan.status then evaluate_ready tenant_id scan_id payload w else w

  unfoldable pub handle_message : PolicyMessage → World → World
  unfolding evaluate_ready append_event get_scan
  handle_message m w =
      if str_eq m.event_type "policy.evaluate"
      then (let w' = append_event m.tenant_id m.scan_id m.event_type m.payload w in
          evaluate_found m.tenant_id m.scan_id m.payload (get_scan m.tenant_id m.scan_id w') w')
      else w
