-- ===== src/Scans/Tests.antt =====
-- The service and the workers on a small database.
use compliance_engine.Common.{
  str_eq, if◌then◌else◌, ℕ, String, none, some, List, [], ◌∷◌, ◌≡◌, ◌⊎◌, refl, true, false, Result,
  ok, err, length,
}
use compliance_engine.Json.{items, Json, str, num, pos, obj, arr, end, field, PyError, value_error}
use compliance_engine.Compliance.Store.{Db}
use compliance_engine.Policy.Catalog.{PolicyDefinition}
use compliance_engine.Scans.Status.{completed, inventory_ready}
use compliance_engine.Scans.AuthErrors.{is_auth_entry, collection_errors_indicate_auth_failure}
use compliance_engine.Scans.AuthErrors.Every.{Answers, collection_errors-every}
use compliance_engine.Scans.Store.{evaluate_message, get_scan}
use compliance_engine.Scans.Rows.{World, Scan, CollectionRun, Integration, PolicyMessage}
use compliance_engine.Scans.Store.Frame.{scan_of}
use compliance_engine.Scans.Exec.{done, ◌>>=◌, ◌>>◌, lift, modify, gets}
use compliance_engine.Scans.Service.{create_scan}
use compliance_engine.Scans.Ingest.{Inventory, collection_completed, on_event}
use compliance_engine.Scans.Ingest.Settles.{HandedOver, Failed, collection_completed-settles}
use compliance_engine.Scans.Evaluate.{handle_message}
use compliance_engine.Scans.Evaluate.Settles.{Acts, Concluded, handle_message-concludes}
use compliance_engine.Scans.System.{Outside, creates, evaluates, Steps, stop, go}
use compliance_engine.Scans.System.Finished.{AllFinished, Steps-AllFinished}
use compliance_engine.Scans.System.Isolation.{
  SameOthers, on_event-SameOthers, handle_message-SameOthers,
}

abbrev integration : Integration
integration = record {
  id = 1;
  tenant_id = 9;
  provider = "aws";
  account_id = "123456789012";
  role_arn = some "arn:aws:iam::123456789012:role/audit";
  external_id = some "sealed";
  regions = arr (items (str "eu-west-1" ∷ []));
  azure_tenant_id = none;
  azure_client_id = none;
  azure_client_secret = none;
  status = "active";
}

abbrev scan : Scan
scan = record {
  id = 2;
  tenant_id = 9;
  integration_id = 1;
  status = inventory_ready;
  error = none;
  started = true;
  completed = false;
}

abbrev run : CollectionRun
run = record {
  id = 3;
  tenant_id = 9;
  scan_id = 2;
  integration_id = 1;
  account_id = "123456789012";
  status = "completed";
  manifest_s3_uri = none;
  resource_count = none;
  error = none;
  started = true;
  completed = true;
}

abbrev message : PolicyMessage
message = evaluate_message 9 2 (obj end)

abbrev tables : Db
tables = record {
  frameworks = [];
  controls = [];
  findings = [];
  control_results = [];
  scan_scores = [];
}

abbrev world : World
world = record {
  fresh = 4;
  integrations = integration ∷ [];
  scans = scan ∷ [];
  runs = run ∷ [];
  events = [];
  resources = [];
  relationships = [];
  evaluation_runs = [];
  compliance = tables;
  aws_queue = [];
  azure_queue = [];
  policy_queue = message ∷ [];
}

abbrev decrypt : String → Result PyError String
decrypt s =
    if str_eq s "sealed" then ok "plain" else err (value_error "invalid external_id ciphertext")

abbrev loads : String → Result PyError Json
loads s = ok (str s)

abbrev uuid : Json → Result PyError ℕ
uuid (num (pos n)) = ok n
uuid _ = err (value_error "badly formed hexadecimal UUID string")

abbrev show : Json → String
show v = ""

abbrev read_json : String → Result PyError Json
read_json uri = ok (obj end)

abbrev read_bronze : String → Json → Result PyError (List Json)
read_bronze uri manifest = ok []

abbrev normalize : Json → ℕ → ℕ → ℕ → String → Result PyError Inventory
normalize bronze tenant_id scan_id integration_id account_id = ok ([], [])

abbrev describe : PyError → String
describe e = "error"

abbrev no_policies : List PolicyDefinition
no_policies = []

abbrev outside : Outside
outside = record {
  decrypt = decrypt;
  loads = loads;
  default_status = "pending";
  uuid = uuid;
  show = show;
  read_json = read_json;
  read_bronze = read_bronze;
  normalize = normalize;
  describe = describe;
  policies = no_policies;
}

world-Acts : Acts message world
unfolding get_scan
world-Acts = (refl, (scan, refl, refl))

-- No framework is stored, so the mapper raises, and the scan fails.
handle_message-concludes_example : Concluded 9 2 (handle_message describe no_policies message world)
handle_message-concludes_example =
    handle_message-concludes describe no_policies message world world-Acts

abbrev finished_world : World
finished_world = record world { scans = record scan { status = completed; completed = true } ∷ [] }

abbrev payload : Json
payload = obj (
    field "collection_run_id" (num (pos 3))
      (field "status" (str "completed") (field "manifest_s3_uri" (str "s3://b/manifest.json") end)))

world-scan : scan_of 9 2 world ≡ some scan
unfolding scan_of
world-scan = refl

collection_completed-settles_example :
    HandedOver 9 2
      (message ∷ [])
      (collection_completed uuid show read_json read_bronze normalize 9 2 payload world)
    ⊎ Failed 9 2
        (message ∷ [])
        (collection_completed uuid show read_json read_bronze normalize 9 2 payload world)
collection_completed-settles_example =
    collection_completed-settles uuid show read_json read_bronze normalize 9 2 (message ∷ [])
      payload world scan world-scan refl

handed_over :
    length
      (collection_completed uuid show read_json read_bronze normalize 9 2 payload
        world).policy_queue
    ≡ 2
unfolding collection_completed ◌>>=◌ ◌>>◌ lift modify gets done
handed_over = refl

on_event-SameOthers_example :
    SameOthers 8 world
      (on_event uuid show read_json read_bronze normalize 8 2 "collection.completed" payload
        world).1
on_event-SameOthers_example =
    on_event-SameOthers uuid show read_json read_bronze normalize 8 2 "collection.completed" payload
      world

handle_message-SameOthers_example :
    SameOthers 9 world (handle_message describe no_policies message world)
handle_message-SameOthers_example = handle_message-SameOthers describe no_policies message world

abbrev evaluated : World
evaluated = handle_message describe no_policies message (record world { policy_queue = [] })

abbrev reopened : World
reopened = (create_scan decrypt loads "pending" 9 1 evaluated).1

run-Steps : Steps outside world reopened
run-Steps = go (evaluates message [] world refl) (go (creates 9 1 evaluated) (stop reopened))

Steps-AllFinished_example : AllFinished reopened
Steps-AllFinished_example = Steps-AllFinished outside world reopened run-Steps (refl, tt)

abbrev refused : Json
refused =
    obj (field "type" (str "HttpError") (field "error" (str "AADSTS7000215: wrong secret") end))

abbrev throttled : Json
throttled = obj (field "type" (str "HttpError") (field "error" (str "throttled") end))

errors-Answers : Answers show (refused ∷ throttled ∷ []) (true ∷ false ∷ [])
unfolding is_auth_entry
errors-Answers = (refl, (refl, tt))

collection_errors-every_example :
    collection_errors_indicate_auth_failure show (refused ∷ throttled ∷ []) ≡ ok false
collection_errors-every_example =
    collection_errors-every show (refused ∷ throttled ∷ []) (true ∷ false ∷ []) errors-Answers
