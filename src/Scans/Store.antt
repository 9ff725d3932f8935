-- ===== src/Scans/Store.antt =====
-- The statements on scans, collection runs, integrations and events, of
-- src/platform_backend/platform/repositories/integrations.py, assets/ingest/writer.py and
-- queue/events.py.
pub mod Frame
use Prim.Native.String
use Prim.Native.String.{compare}
use Prim.Native.Nat.{Ordering}
use compliance_engine.Common.{
  ℕ, ◌+◌, String, Bool, true, false, ◌&&◌, ◌||◌, not, Option, none, some, List, [], ◌∷◌, ◌++◌, map,
  str_eq, ◌==◌, if◌then◌else◌, keep, count, take, drop, Result, ok, err, any,
}
use compliance_engine.Common.Rows.{update_where, find_by}
use compliance_engine.Common.Sort.{sort_by}
use compliance_engine.Scans.Rows.{Integration, Scan, CollectionRun, Event, PolicyMessage, World}
use compliance_engine.Json.{Json, null, str, obj, Fields, field, end, truthy, ℤ}
use compliance_engine.Compliance.Store.{Db}
use compliance_engine.Scans.Status.{ScanStatus, created}

abbrev pub is_scan : ℕ → ℕ → Scan → Bool
is_scan tenant_id scan_id s = s.tenant_id == tenant_id && s.id == scan_id

abbrev pub is_run_of : ℕ → ℕ → CollectionRun → Bool
is_run_of tenant_id scan_id r = r.tenant_id == tenant_id && r.scan_id == scan_id

abbrev pub is_integration : ℕ → ℕ → Integration → Bool
is_integration tenant_id integration_id i = i.tenant_id == tenant_id && i.id == integration_id

-- `COALESCE(new, old)`
abbrev pub coalesce : {A : Type 0} → Option A → Option A → Option A
coalesce (some a) old = some a
coalesce none old = old

-- `json.dumps(error) if error else None`
abbrev pub given_error : Json → Option Json
given_error e = if truthy e then some e else none

-- ScanRepository

-- `default_status` is the schema's for a run.
unfoldable pub create_scan_row : String → ℕ → ℕ → String → World → (Scan × ℕ) × World
create_scan_row default_status tenant_id integration_id account_id w =
    let scan : Scan = record {
      id = w.fresh;
      tenant_id = tenant_id;
      integration_id = integration_id;
      status = created;
      error = none;
      started = false;
      completed = false;
    } in
    let run : CollectionRun = record {
      id = w.fresh + 1;
      tenant_id = tenant_id;
      scan_id = w.fresh;
      integration_id = integration_id;
      account_id = account_id;
      status = default_status;
      manifest_s3_uri = none;
      resource_count = none;
      error = none;
      started = false;
      completed = false;
    } in
    (
      (scan, w.fresh + 1),
      record w { fresh = w.fresh + 2; scans = scan ∷ w.scans; runs = run ∷ w.runs },
    )

-- The columns that `update_status` sets.
abbrev pub with_status : ScanStatus → Json → Bool → Bool → Scan → Scan
with_status status error started completed s = record s {
  status = status;
  error = coalesce (given_error error) s.error;
  started = started || s.started;
  completed = completed || s.completed;
}

-- `update_status(tenant_id, scan_id, status, error=…, started=…, completed=…)`
unfoldable pub update_status : ℕ → ℕ → ScanStatus → Json → Bool → Bool → World → World
unfolding update_where
update_status tenant_id scan_id status error started completed w = record w {
  scans =
      update_where (is_scan tenant_id scan_id) (with_status status error started completed) w.scans;
}

-- The row that `get` joins to the scan has the run and the integration of its tenant.
unfoldable pub get_scan : ℕ → ℕ → World → Option Scan
unfolding find_by
get_scan tenant_id scan_id w =
    find_by
      (λ (s : Scan).
        is_scan tenant_id scan_id s
        && any (is_run_of tenant_id s.id) w.runs
        && any (is_integration tenant_id s.integration_id) w.integrations)
      w.scans

unfoldable pub get_collection_run : ℕ → ℕ → World → Option CollectionRun
unfolding find_by
get_collection_run tenant_id scan_id w = find_by (is_run_of tenant_id scan_id) w.runs

-- The arguments of `update_collection_run` beside the identifiers.
pub record RunChange : Type 0 where
  pub status : String
  pub manifest_s3_uri : Option String
  pub resource_count : Option ℤ
  pub error : Json
  pub started : Bool
  pub completed : Bool

abbrev pub with_change : RunChange → CollectionRun → CollectionRun
with_change c r = record r {
  status = c.status;
  manifest_s3_uri = coalesce c.manifest_s3_uri r.manifest_s3_uri;
  resource_count = coalesce c.resource_count r.resource_count;
  error = coalesce (given_error c.error) r.error;
  started = c.started || r.started;
  completed = c.completed || r.completed;
}

unfoldable pub update_collection_run : ℕ → ℕ → RunChange → World → World
unfolding update_where
update_collection_run tenant_id run_id change w = record w {
  runs =
      update_where (λ (r : CollectionRun). r.tenant_id == tenant_id && r.id == run_id)
        (with_change change) w.runs;
}

-- IntegrationRepository

unfoldable pub get_integration : ℕ → ℕ → World → Option Integration
unfolding find_by
get_integration tenant_id integration_id w =
    find_by (is_integration tenant_id integration_id) w.integrations

unfoldable pub set_integration_status : ℕ → ℕ → String → World → World
unfolding update_where
set_integration_status tenant_id integration_id status w = record w {
  integrations =
      update_where (is_integration tenant_id integration_id)
        (λ (i : Integration). record i { status = status }) w.integrations;
}

-- AssetWriter and `publish_policy_evaluate`

unfoldable pub append_event : ℕ → ℕ → String → Json → World → World
append_event tenant_id scan_id event_type payload w = record w {
  events =
      w.events
      ++ record {
        tenant_id = tenant_id;
        scan_id = scan_id;
        event_type = event_type;
        payload = payload;
      }
        ∷ [];
}

abbrev pub evaluate_message : ℕ → ℕ → Json → PolicyMessage
evaluate_message tenant_id scan_id payload = record {
  event_type = "policy.evaluate";
  tenant_id = tenant_id;
  scan_id = scan_id;
  payload = payload;
}

unfoldable pub publish_policy_evaluate : ℕ → ℕ → Json → World → World
publish_policy_evaluate tenant_id scan_id payload w = record w {
  policy_queue = w.policy_queue ++ evaluate_message tenant_id scan_id payload ∷ [];
}
