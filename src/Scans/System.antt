-- ===== src/Scans/System.antt =====
-- The scans under any interleaving of the service and of the two workers.
pub mod Finished
pub mod Isolation
use compliance_engine.Common.{ℕ, String, List, [], ◌∷◌, ◌≡◌, Result}
use compliance_engine.Json.{Json, PyError}
use compliance_engine.Policy.Catalog.{PolicyDefinition}
use compliance_engine.Scans.Rows.{World, PolicyMessage}
use compliance_engine.Scans.Service.{create_scan}
use compliance_engine.Scans.Ingest.{Inventory, handle_event}
use compliance_engine.Scans.Evaluate.{handle_message}

-- What lies outside: the cipher, the parsers, the object store, the normaliser and the catalog.
pub record Outside : Type 0 where
  pub decrypt : String → Result PyError String
  pub loads : String → Result PyError Json
  pub default_status : String
  pub uuid : Json → Result PyError ℕ
  pub show : Json → String
  pub read_json : String → Result PyError Json
  pub read_bronze : String → Json → Result PyError (List Json)
  pub normalize : Json → ℕ → ℕ → ℕ → String → Result PyError Inventory
  pub describe : PyError → String
  pub policies : List PolicyDefinition

abbrev pub on_envelope : Outside → Json → World → World
on_envelope o envelope w =
    (handle_event o.uuid o.show o.read_json o.read_bronze o.normalize envelope w).1

-- `run_forever` of a worker drops the exception of a message.
pub data Step (o : Outside) : World → World → Type 0 where
  creates :
      (tenant_id integration_id : ℕ) (w : World)
      → Step o w (create_scan o.decrypt o.loads o.default_status tenant_id integration_id w).1
  ingests : (envelope : Json) (w : World) → Step o w (on_envelope o envelope w)
  evaluates :
      (m : PolicyMessage) (rest : List PolicyMessage) (w : World)
      → w.policy_queue ≡ m ∷ rest
      → Step o w (handle_message o.describe o.policies m (record w { policy_queue = rest }))

-- Any number of steps.
pub data Steps (o : Outside) : World → World → Type 0 where
  stop : (w : World) → Steps o w w
  go : {u v w : World} → Step o u v → Steps o v w → Steps o u w
