-- ===== src/Scans/Rows.antt =====
-- The rows of the tables that the scan service and the two workers share, and the messages of their
-- queues. Of a time the model keeps whether it is set. An identifier of the database is a number, and
-- one counter gives the fresh ones.
use compliance_engine.Common.{ℕ, String, Bool, Option, List}
use compliance_engine.Json.{Json, ℤ}
use compliance_engine.Compliance.Store.{Db}
use compliance_engine.Scans.Status.{ScanStatus}

-- A row of platform.integrations. The column `regions` comes back as a text or as a list.
pub record Integration : Type 0 where
  pub id : ℕ
  pub tenant_id : ℕ
  pub provider : String
  pub account_id : String
  pub role_arn : Option String
  pub external_id : Option String
  pub regions : Json
  pub azure_tenant_id : Option String
  pub azure_client_id : Option String
  pub azure_client_secret : Option String
  pub status : String

-- A row of platform.scans.
pub record Scan : Type 0 where
  pub id : ℕ
  pub tenant_id : ℕ
  pub integration_id : ℕ
  pub status : ScanStatus
  pub error : Option Json
  pub started : Bool
  pub completed : Bool

-- A row of platform.collection_runs.
pub record CollectionRun : Type 0 where
  pub id : ℕ
  pub tenant_id : ℕ
  pub scan_id : ℕ
  pub integration_id : ℕ
  pub account_id : String
  pub status : String
  pub manifest_s3_uri : Option String
  pub resource_count : Option ℤ
  pub error : Option Json
  pub started : Bool
  pub completed : Bool

-- A row of assets.collection_events.
pub record Event : Type 0 where
  pub tenant_id : ℕ
  pub scan_id : ℕ
  pub event_type : String
  pub payload : Json

-- A row of assets.resources.
pub record Resource : Type 0 where
  pub tenant_id : ℕ
  pub scan_id : ℕ
  pub resource_id : String
  pub resource_type : String
  pub provider : String
  pub provider_type : String
  pub integration_id : ℕ
  pub account_id : String
  pub region : Option String
  pub properties : Json
  pub tags : Json

-- A row of assets.relationships.
pub record Relationship : Type 0 where
  pub tenant_id : ℕ
  pub scan_id : ℕ
  pub from_resource_id : String
  pub to_resource_id : String
  pub relationship_type : String
  pub properties : Json

-- A row of findings.evaluation_runs.
pub record EvaluationRun : Type 0 where
  pub tenant_id : ℕ
  pub scan_id : ℕ
  pub status : String
  pub policies_run : ℕ
  pub findings_count : ℕ
  pub fail_count : ℕ
  pub error : Option Json
  pub completed : Bool

-- The job dicts of the two providers, without the list of plugins, which is fixed.
pub data CollectionJob : Type 0 where
  aws_job :
      (job_id scan_id tenant_id integration_id collection_run_id : ℕ) (account_id : String)
      (role_arn : Option String) (external_id : String) (regions : Json)
      → CollectionJob
  azure_job :
      (job_id scan_id tenant_id integration_id collection_run_id : ℕ) (account_id : String)
      (azure_tenant_id azure_client_id : Option String) (client_secret : String) (regions : Json)
      → CollectionJob

-- An envelope of the policy queue.
pub record PolicyMessage : Type 0 where
  pub event_type : String
  pub tenant_id : ℕ
  pub scan_id : ℕ
  pub payload : Json

-- Queues stand oldest first: `lpush` appends, and `brpop` takes the head.
pub record World : Type 0 where
  pub fresh : ℕ
  pub integrations : List Integration
  pub scans : List Scan
  pub runs : List CollectionRun
  pub events : List Event
  pub resources : List Resource
  pub relationships : List Relationship
  pub evaluation_runs : List EvaluationRun
  pub compliance : Db
  pub aws_queue : List CollectionJob
  pub azure_queue : List CollectionJob
  pub policy_queue : List PolicyMessage
