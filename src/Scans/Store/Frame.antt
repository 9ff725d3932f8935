-- ===== src/Scans/Store/Frame.antt =====
-- What the operations on the tables leave alone, and what every handler therefore keeps.
use compliance_engine.Common.Updates.{map_some, find_by-update_where}
use compliance_engine.Common.{ℕ, String, Bool, true, ◌||◌, not, Option, List, ◌≡◌, refl}
use compliance_engine.Common.Rows.{find_by}
use compliance_engine.Json.{Json}
use compliance_engine.Scans.Status.{ScanStatus, is_terminal}
use compliance_engine.Scans.Store.{
  RunChange, update_status, is_scan, with_status, update_collection_run, set_integration_status,
  append_event,
}
use compliance_engine.Scans.Rows.{World, Scan, Resource, Relationship}
use compliance_engine.Scans.Inventory.{insert_resources, insert_relationships}

-- The row of platform.scans.
unfoldable pub scan_of : ℕ → ℕ → World → Option Scan
unfolding find_by
scan_of tenant_id scan_id w = find_by (is_scan tenant_id scan_id) w.scans

pub scan_of-update_status :
    (t i : ℕ) (status : ScanStatus) (error : Json) (started completed : Bool) (w : World)
    → scan_of t i (update_status t i status error started completed w)
      ≡ map_some (with_status status error started completed) (scan_of t i w)
unfolding scan_of update_status
scan_of-update_status t i status error started completed w =
    find_by-update_where (is_scan t i) (with_status status error started completed) w.scans
      (λ r. refl)

pub queue-update_status :
    (t i : ℕ) (status : ScanStatus) (error : Json) (started completed : Bool) (w : World)
    → (update_status t i status error started completed w).policy_queue ≡ w.policy_queue
unfolding update_status
queue-update_status t i status error started completed w = refl

-- The operations that both workers use on a scan, all of which keep `P`. A terminal status is written
-- together with the time of completion.
pub record Respects (tenant_id scan_id : ℕ) (P : World → Type 0) : Type 0 where
  pub status :
      (s : ScanStatus) (error : Json) (started completed : Bool) (w : World)
      → (not (is_terminal s) || completed) ≡ true
      → P w
      → P (update_status tenant_id scan_id s error started completed w)
  pub run : (id : ℕ) (c : RunChange) (w : World) → P w → P (update_collection_run tenant_id id c w)
  pub integration :
      (id : ℕ) (s : String) (w : World) → P w → P (set_integration_status tenant_id id s w)
  pub event :
      (kind : String) (payload : Json) (w : World)
      → P w
      → P (append_event tenant_id scan_id kind payload w)
  pub resources : (xs : List Resource) (w : World) → P w → P (insert_resources xs w)
  pub relationships : (xs : List Relationship) (w : World) → P w → P (insert_relationships xs w)
