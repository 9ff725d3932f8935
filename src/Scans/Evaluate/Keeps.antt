-- ===== src/Scans/Evaluate/Keeps.antt =====
-- What the operations on a scan and on its evaluation keep, handling a message keeps.
use compliance_engine.Common.{
  ◌||◌, Option, not, str_eq, ℕ, String, true, false, none, some, List, ◌≡◌, inl, inr, refl, Result,
  ok, err, arith, Bool-cases,
}
use compliance_engine.Json.{Json, PyError, null}
use compliance_engine.Policy.Catalog.{PolicyDefinition}
use compliance_engine.Findings.Repository.{Progress}
use compliance_engine.Compliance.Store.{Db, FrameworkSummary}
use compliance_engine.Scans.Status.{failed, ScanStatus, is_terminal, evaluating}
use compliance_engine.Scans.Store.{get_collection_run}
use compliance_engine.Scans.Rows.{World, Scan, PolicyMessage}
use compliance_engine.Scans.Runs.{start_evaluation_run, complete_evaluation_run}
use compliance_engine.Scans.Inventory.{list_assets}
use compliance_engine.Scans.Exec.{Keeps, bind-Keeps}
use compliance_engine.Scans.Ingest.Keeps.{then_ask, then_read, then_do, lift-Keeps}
use compliance_engine.Scans.Evaluate.{
  evaluate_found, message, is_ready, final_status, run_policies, run_mapper, evaluate_and_map,
  report, report_failure, settle, evaluate_ready, handle_message,
}
use compliance_engine.Scans.Store.Frame.{Respects}

-- What the policy worker does beside writing a status and an event, all of which keeps `P`.
pub record KeepsEvaluation (tenant_id scan_id : ℕ) (P : World → Type 0) : Type 0 where
  pub starts : (w : World) → P w → P (start_evaluation_run tenant_id scan_id w)
  pub completes :
      (a b c : ℕ) (s : String) (e : Json) (w : World)
      → P w
      → P (complete_evaluation_run tenant_id scan_id a b c s e w)
  pub stores : (n : ℕ) (db : Db) (w : World) → P w → P (record w { fresh = n; compliance = db })

module _ (P : World → Type 0) (tenant_id scan_id : ℕ) (keeps : KeepsEvaluation tenant_id scan_id P)
    (describe : PyError → String) (policies : List PolicyDefinition) where
  run_policies-Keeps :
      (assets : List Json) → Keeps P (run_policies describe policies tenant_id scan_id assets)
  unfolding run_policies
  run_policies-Keeps assets w h = keeps.stores _ _ w h

  run_mapper-Keeps : Keeps P (run_mapper describe policies tenant_id scan_id)
  unfolding run_mapper
  run_mapper-Keeps w h = keeps.stores w.fresh _ w h

  pub evaluate_and_map-Keeps :
      (payload : Json) → Keeps P (evaluate_and_map describe policies tenant_id scan_id payload)
  unfolding evaluate_and_map
  evaluate_and_map-Keeps payload = then_ask P (list_assets tenant_id scan_id 5000 0) _ (λ assets.
      bind-Keeps P _ _ (run_policies-Keeps assets) (λ progress.
        then_do P _ _ (keeps.completes _ _ _ "completed" null) (
          bind-Keeps P _ _ run_mapper-Keeps (λ summary.
            then_ask P (get_collection_run tenant_id scan_id) _
              (λ run. then_read P _ _ (λ reported. lift-Keeps P _))))))

  module _ (respects : Respects tenant_id scan_id P) where
    settled : (s : ScanStatus) → (not (is_terminal s) || true) ≡ true
    settled s = ground arith

    settle-keeps :
        (m : Result PyError (Progress × FrameworkSummary × Json) × World)
        → P m.1
        → P (settle describe policies tenant_id scan_id m)
    unfolding report report_failure
    settle-keeps (ok (progress, summary, v), w) h = respects.event _ _ _ (
        respects.event _ _ _ (
          respects.event _ _ _
            (respects.status (final_status v) null false true w (settled (final_status v)) h)))
    settle-keeps (err e, w) h = respects.event _ _ _ (
        respects.status failed (message (describe e)) false true _ refl
          (keeps.completes 0 0 0 "failed" (message (describe e)) w h))

    evaluate_found-keeps :
        (payload : Json) (row : Option Scan) (w : World)
        → P w
        → P (evaluate_found describe policies tenant_id scan_id payload row w)
    unfolding evaluate_ready
    evaluate_found-keeps payload none w h = h
    evaluate_found-keeps payload (some scan) w h = elim (Bool-cases (is_ready scan.status)) [
      | inr busy ↦ rw busy h
      | inl ready ↦ rw ready (
          settle-keeps _ (
            evaluate_and_map-Keeps payload _
              (keeps.starts _ (respects.status evaluating null false false w refl h))))
    ]

pub handle_message-keeps :
    (P : World → Type 0) (describe : PyError → String) (policies : List PolicyDefinition)
    (m : PolicyMessage)
    → KeepsEvaluation m.tenant_id m.scan_id P
    → Respects m.tenant_id m.scan_id P
    → (w : World) → P w
    → P (handle_message describe policies m w)
unfolding handle_message
handle_message-keeps P describe policies m keeps respects w h =
    elim (Bool-cases (str_eq m.event_type "policy.evaluate")) [
      | inr other ↦ rw other h
      | inl kind ↦ rw kind (
          evaluate_found-keeps P m.tenant_id m.scan_id keeps describe policies respects m.payload _
            _ (respects.event m.event_type m.payload w h))
    ]
