-- ===== src/Lib.antt =====
-- The compliance engine: a verification library for the backend in src/platform_backend.
--
-- The program collects the resources of a cloud account, evaluates policies on them, and maps the
-- findings to compliance frameworks. A scan passes through three parts, which share a database and
-- two queues: the scan service creates it and pushes a collection job; the ingest worker reads what
-- the collector found, stores resources and relationships and publishes a message; the policy
-- worker evaluates the policies, upserts one finding for each policy and resource, and maps the
-- findings.
--
-- Common      lists, options, results, texts, tables and sorting that the other modules share
-- Json        the dynamic values of `dict[str, Any]`: Python's equality, order, membership and truth
-- Policy      Evaluator: policy/engine/evaluator.py, `evaluate_policy_logic` and `build_evidence`
--             Catalog: policy/catalog/models.py, `PolicyDefinition.matches_asset` and the titles
-- Assets      Normalizer: assets/ingest/normalizer.py, `normalize_bronze`; Rules: its branches, one
--             function for each provider type, in the children by subject; Values: what they share
-- Findings    Repository: findings/repository.py, `upsert_finding` and `evaluate_scan`
--             Presentation: findings/presentation.py, the remediation and the templates
--             Risk, Customer, Priorities, Resources: findings/experience.py, the signals and the
--             badges of a finding, the finding that a customer reads and its sort key, the fix
--             priorities and the risk summary, and what is shown of one resource or policy
--             Queries: the list queries of findings/repository.py, and the routes of
--             api/routes/scans.py that rank the findings of a scan
-- Compliance  Mapper: compliance/mapper.py, `_aggregate_control` and `_compute_score`
--             Store: compliance/repository.py, frameworks.py, and `ComplianceMapper.map_scan`
--             Report: `get_scan_compliance` and `list_frameworks` of compliance/repository.py
-- Scans       Status: platform/models/scan.py
--             AuthErrors: platform/integrations/auth_errors.py
--             Rows: the rows and the messages of the queues
--             Store: the statements of platform/repositories/integrations.py, and the events and the
--             message to the policy worker of assets/ingest/writer.py and queue/events.py
--             Inventory: the resources of assets/ingest/writer.py and assets/repositories/resources.py
--             Resources: the lists and the search of assets/repositories/resources.py
--             Runs: the evaluation runs of findings/repository.py
--             Insights: platform/repositories/scan_insights.py
--             Exec: code that writes to the tables and may raise
--             Service: `create_scan` of platform/services/scan_service.py, and
--             `mark_invalid_if_azure_auth_failure`
--             Integrations: registration, `verify_azure` and `rotate_azure_secret`
--             Ingest: `IngestWorker.handle_event` of assets/ingest/worker.py
--             Evaluate: `PolicyWorker.handle_event` of policy/worker.py; Envelope: how it reads what
--             queue/events.py publishes
--             System: any interleaving of the three
-- Invitations platform/repositories/invitations.py: creation, expiry, revocation and acceptance
-- Identity    Slug: identity/slug.py
--             Rows: the tables of tenants, users and memberships
--             Workspaces: platform/repositories/workspace.py and `POST /workspaces`
--             Service: identity/service.py, repository.py, deps.py and providers/dev_header.py
-- Api         RateLimit: `RateLimitMiddleware` of api/middleware/security.py, counting in memory; Redis:
--             counting in Redis; Failover: Redis while it may fail
-- (The paths are those below src/platform_backend.)
--
-- How the model stands to the code. A table is a list of rows; a query is a function on it and an
-- update keeps the rows it does not reach. Every query is scoped by the tenant as its SQL is. An
-- exception is a value, `err`, and what was written before it stays, as the code runs each
-- statement in a transaction of its own. The database itself does not fail: a lost connection or a
-- refused constraint is not modelled. An identifier is a number, the one that its UUID is, and a
-- counter gives the fresh ones; of a time the tables of the scans keep whether it is set. The
-- policy queue holds decoded messages; Scans/Evaluate/Envelope has their form in JSON. Numbers in
-- JSON are integers. A text's case and blanks are those of ASCII. The score, a decimal with two
-- places, is a number of hundredths.
--
-- What lies outside is a parameter: the cipher, Azure's answer to a verification, the hash of an
-- invitation's token, the verifier of a bearer token, the clock, `json.loads`, the constructors of
-- a UUID and of a time, `str` of values and exceptions, the rounded quotient of floats, the object
-- store, the database's `ILIKE` and its text of a jsonb value, and the default statuses that the
-- schema gives to a collection run and an integration. The ingest worker takes the normaliser as a
-- parameter, so its theorems hold for whatever rows it makes; Assets models the normaliser by
-- itself. Nothing needs fuel: every loop follows a list, and conditions are evaluated by recursion
-- on the dict.
--
-- Not modelled: the HTTP routes other than the three named above, and their schemas, the reports of
-- the administration, logging, and the loops that wait for a queue.
pub mod Common
pub mod Json
pub mod Policy
pub mod Findings
pub mod Compliance
pub mod Scans
pub mod Invitations
pub mod Identity
pub mod Api
pub mod Assets
