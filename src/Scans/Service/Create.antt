-- ===== src/Scans/Service/Create.antt =====
-- What creating a scan does, on every branch.
use compliance_engine.Common.{
  ℕ, ◌+◌, ◌<◌, String, true, false, Option, none, some, ◌∷◌, Result, ok, err, str_eq, if◌then◌else◌,
  All,
}
use compliance_engine.Common.Rows.{find_by}
use compliance_engine.Json.{Json, PyError, lookup_error, value_error}
use compliance_engine.Scans.Status.{queued}
use compliance_engine.Scans.Store.{create_scan_row}
use compliance_engine.Scans.Rows.{Integration, Scan, CollectionJob, World}
use compliance_engine.Scans.Service.{find_by, build_collection_job, push_job}

-- The scan that the creation in a world makes, as it is queued.
abbrev pub queued_scan : ℕ → Integration → World → Scan
queued_scan tenant_id i w = record {
  id = w.fresh;
  tenant_id = tenant_id;
  integration_id = i.id;
  status = queued;
  error = none;
  started = true;
  completed = false;
}

-- Identifiers in use are below the counter.
abbrev pub FreshScans : World → Type 0
FreshScans w = All (λ (s : Scan). s.id < w.fresh) w.scans

module _ (decrypt : String → Result PyError String) (loads : String → Result PyError Json)
    (default_status : String) where
  -- The job of the scan that is created in `w`.
  unfoldable pub job_of : ℕ → Integration → World → Result PyError CollectionJob
  job_of tenant_id i w =
      build_collection_job decrypt loads (w.fresh + 2) tenant_id i (queued_scan tenant_id i w)
        (w.fresh + 1)

  -- The world with the scan and its run, before a job is pushed.
  unfoldable pub opened : ℕ → Integration → World → World
  unfolding create_scan_row
  opened tenant_id i w =
      let w' = (create_scan_row default_status tenant_id i.id i.account_id w).1 in
      record w' { fresh = w.fresh + 2 + 1; scans = queued_scan tenant_id i w ∷ w.scans }

  -- What is left of an attempt to create a scan: all is as it was, or the scan is opened and queued, and
  -- its job is pushed where it can be built.
  unfoldable pub attempt : ℕ → Option Integration → World → Result PyError Scan × World
  attempt tenant_id none w = (err (lookup_error "integration not found"), w)
  attempt tenant_id (some i) w =
      if str_eq i.status "active"
      then elim (job_of tenant_id i w) [
        | ok job ↦ (
          ok (queued_scan tenant_id i w),
          push_job decrypt loads i.provider job (opened tenant_id i w),
        )
        | err e ↦ (err e, opened tenant_id i w)
      ]
      else (err (value_error "integration is not active"), w)
