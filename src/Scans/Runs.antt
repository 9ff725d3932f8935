-- ===== src/Scans/Runs.antt =====
-- The evaluation runs of src/platform_backend/findings/repository.py.
use compliance_engine.Common.{
  ℕ, String, Bool, true, false, ◌&&◌, none, ◌∷◌, ◌==◌, if◌then◌else◌, any,
}
use compliance_engine.Common.Rows.{update_where}
use compliance_engine.Scans.Rows.{EvaluationRun, World}
use compliance_engine.Scans.Store.{given_error}
use compliance_engine.Json.{Json}

abbrev is_evaluation : ℕ → ℕ → EvaluationRun → Bool
is_evaluation tenant_id scan_id r = r.tenant_id == tenant_id && r.scan_id == scan_id

abbrev new_evaluation : ℕ → ℕ → EvaluationRun
new_evaluation tenant_id scan_id = record {
  tenant_id = tenant_id;
  scan_id = scan_id;
  status = "running";
  policies_run = 0;
  findings_count = 0;
  fail_count = 0;
  error = none;
  completed = false;
}

unfoldable pub start_evaluation_run : ℕ → ℕ → World → World
unfolding update_where
start_evaluation_run tenant_id scan_id w = record w {
  evaluation_runs =
      if any (is_evaluation tenant_id scan_id) w.evaluation_runs
      then update_where (is_evaluation tenant_id scan_id) (λ r. new_evaluation tenant_id scan_id)
          w.evaluation_runs
      else new_evaluation tenant_id scan_id ∷ w.evaluation_runs;
}

unfoldable pub complete_evaluation_run : ℕ → ℕ → ℕ → ℕ → ℕ → String → Json → World → World
unfolding update_where
complete_evaluation_run tenant_id scan_id policies_run findings_count fail_count status error w =
    record w {
      evaluation_runs =
          update_where (is_evaluation tenant_id scan_id)
            (λ (r : EvaluationRun). record r {
              status = status;
              policies_run = policies_run;
              findings_count = findings_count;
              fail_count = fail_count;
              error = given_error error;
              completed = true;
            })
            w.evaluation_runs;
    }
