-- ===== src/Scans/Evaluate/Settles.antt =====
-- An evaluation that begins ends: the scan gets a terminal status whatever is raised. A message for a
-- scan that is not ready leaves nothing but its event.
use compliance_engine.Common.{
  any, ◌&&◌, eq_iff, ℕ, String, Bool, true, false, none, some, List, [], ◌∷◌, ◌++◌, ◌≡◌, ◌∙◌, ◌⊎◌,
  inl, inr, refl, Result, ok, err, arith, Bool-cases,
}
use compliance_engine.Common.Rows.{find_by}
use compliance_engine.Json.{
  obj, arr, num, bool, str, obj, arr, num, bool, find, index, str, Json, PyError, null,
}
use compliance_engine.Policy.Catalog.{PolicyDefinition}
use compliance_engine.Findings.Repository.{Progress}
use compliance_engine.Compliance.Store.{FrameworkSummary}
use compliance_engine.Scans.Status.{failed, ScanStatus, is_terminal, evaluating}
use compliance_engine.Scans.Store.{
  is_integration, is_run_of, is_scan, update_status, append_event, with_status, get_scan,
}
use compliance_engine.Scans.Rows.{Event, World, Scan, PolicyMessage}
use compliance_engine.Scans.Runs.{start_evaluation_run, complete_evaluation_run}
use compliance_engine.Scans.Store.Frame.{scan_of, scan_of-update_status}
use compliance_engine.Scans.Evaluate.{
  value, message, is_ready, final_status, report, report_failure, settle, evaluate_ready,
  handle_message,
}
use compliance_engine.Scans.Evaluate.Keeps.{KeepsEvaluation, evaluate_and_map-Keeps}

abbrev Stored : ℕ → ℕ → World → Type 0
Stored t i w = (scan : Scan) × (scan_of t i w ≡ some scan)

Stored-KeepsEvaluation : (t i : ℕ) → KeepsEvaluation t i (Stored t i)
unfolding scan_of start_evaluation_run complete_evaluation_run
Stored-KeepsEvaluation t i = record {
  starts = λ w h. h;
  completes = λ a b c s e w h. h;
  stores = λ n db w h. h;
}

Stored-update_status :
    (t i : ℕ) (s : ScanStatus) (e : Json) (b c : Bool) (w : World)
    → Stored t i w
    → Stored t i (update_status t i s e b c w)
Stored-update_status t i s e b c w (scan, stored) =
    (with_status s e b c scan, scan_of-update_status t i s e b c w ∙ rw stored)

-- The scan is over, and the last event says how it ended.
pub record Concluded (tenant_id scan_id : ℕ) (w : World) : Type 0 where
  pub scan : Scan
  pub stored : scan_of tenant_id scan_id w ≡ some scan
  pub ended : is_terminal scan.status ≡ true
  pub finished : scan.completed ≡ true
  pub earlier : List Event
  pub payload : Json
  pub logged :
      w.events
      ≡ earlier
        ++ record {
          tenant_id = tenant_id;
          scan_id = scan_id;
          event_type = "scan.completed";
          payload = payload;
        }
          ∷ []
  pub reported : index payload "status" ≡ ok (str (value scan.status))

final_status-terminal : (v : Json) → is_terminal (final_status v) ≡ true
final_status-terminal (str s) = ground arith
final_status-terminal null = refl
final_status-terminal (bool b) = refl
final_status-terminal (num n) = refl
final_status-terminal (arr xs) = refl
final_status-terminal (obj fs) = refl

module _ (describe : PyError → String) (policies : List PolicyDefinition)
    (tenant_id scan_id : ℕ) where
  settle-Concluded :
      (m : Result PyError (Progress × FrameworkSummary × Json) × World)
      → Stored tenant_id scan_id m.1
      → Concluded tenant_id scan_id (settle describe policies tenant_id scan_id m)
  unfolding report report_failure append_event scan_of complete_evaluation_run index find
  settle-Concluded (ok (progress, summary, v), w) (scan, stored) = record {
    scan = with_status (final_status v) null false true scan;
    stored = scan_of-update_status tenant_id scan_id (final_status v) null false true w ∙ rw stored;
    ended = final_status-terminal v;
    finished = refl;
    earlier = _;
    payload = _;
    logged = refl;
    reported = refl;
  }
  settle-Concluded (err e, w) (scan, stored) =
      let w₁ = complete_evaluation_run tenant_id scan_id 0 0 0 "failed" (message (describe e)) w in
      record {
        scan = with_status failed (message (describe e)) false true scan;
        stored =
            scan_of-update_status tenant_id scan_id failed (message (describe e)) false true w₁
            ∙ rw stored;
        ended = refl;
        finished = refl;
        earlier = _;
        payload = _;
        logged = refl;
        reported = refl;
      }

  evaluate_ready-Concluded :
      (payload : Json) (w : World)
      → Stored tenant_id scan_id w
      → Concluded tenant_id scan_id (evaluate_ready describe policies tenant_id scan_id payload w)
  unfolding evaluate_ready
  evaluate_ready-Concluded payload w h = settle-Concluded _ (
      evaluate_and_map-Keeps (Stored tenant_id scan_id) tenant_id scan_id
        (Stored-KeepsEvaluation tenant_id scan_id) describe policies payload _
        ((Stored-KeepsEvaluation tenant_id scan_id).starts _
          (Stored-update_status tenant_id scan_id evaluating null false false w h)))

-- A row that meets a test and more is a row that meets the test.
find_by-weaker :
    {A : Type 0} (p q : A → Bool) (rows : List A) (r : A)
    → find_by (λ x. p x && q x) rows ≡ some r
    → (s : A) × (find_by p rows ≡ some s)
unfolding find_by
find_by-weaker p q [] r h = cc
find_by-weaker p q (x ∷ rows) r h = elim (Bool-cases (p x)) [
  | inl hit ↦ (x, rw hit)
  | inr miss ↦ let (s, found) = find_by-weaker p q rows r (rw miss at h) in (s, rw miss found)
]

-- The worker acts on the message: the scan is found, and it is ready.
abbrev pub Acts : PolicyMessage → World → Type 0
Acts m w =
    (m.event_type ≡ "policy.evaluate")
    × ((scan : Scan) × (get_scan m.tenant_id m.scan_id w ≡ some scan)
        × (is_ready scan.status ≡ true))

-- The scan is not there, or it is not ready.
abbrev pub Skips : PolicyMessage → World → Type 0
Skips m w =
    (m.event_type ≡ "policy.evaluate")
    × ((get_scan m.tenant_id m.scan_id w ≡ none)
        ⊎ ((scan : Scan) × (get_scan m.tenant_id m.scan_id w ≡ some scan)
            × (is_ready scan.status ≡ false)))

get_scan-append_event :
    (t i : ℕ) (kind : String) (payload : Json) (w : World)
    → get_scan t i (append_event t i kind payload w) ≡ get_scan t i w
unfolding get_scan append_event
get_scan-append_event t i kind payload w = refl

get_scan-Stored : (t i : ℕ) (w : World) (scan : Scan) → get_scan t i w ≡ some scan → Stored t i w
unfolding get_scan scan_of
get_scan-Stored t i w scan h =
    let (r, found) =
      find_by-weaker (λ s. is_scan t i s && any (is_run_of t s.id) w.runs)
        (λ (s : Scan). any (is_integration t s.integration_id) w.integrations) w.scans scan h in
    find_by-weaker (is_scan t i) (λ s. any (is_run_of t s.id) w.runs) w.scans r found

module _ (describe : PyError → String) (policies : List PolicyDefinition) where
  -- For a `policy.evaluate` message whose scan is found in status inventory_ready or
  -- completed_with_errors, the policy worker ends with the scan in a terminal status with
  -- its time of completion set, whatever the evaluation or the mapping raises, and the last
  -- event is the `scan.completed` of that scan, whose payload has the scan's status.
  pub handle_message-concludes :
      (m : PolicyMessage) (w : World)
      → Acts m w
      → Concluded m.tenant_id m.scan_id (handle_message describe policies m w)
  unfolding handle_message
  handle_message-concludes m w (kind, (scan, found, ready)) =
      let w' = append_event m.tenant_id m.scan_id m.event_type m.payload w in
      let found' : get_scan m.tenant_id m.scan_id w' ≡ some scan =
        get_scan-append_event m.tenant_id m.scan_id m.event_type m.payload w ∙ found in
      rw ((eq_iff m.event_type "policy.evaluate").1 kind, found', ready)
        (evaluate_ready-Concluded describe policies m.tenant_id m.scan_id m.payload w'
          (get_scan-Stored m.tenant_id m.scan_id w' scan found'))
