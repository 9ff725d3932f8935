-- ===== src/Scans/Evaluate/Tests.antt =====
-- An envelope as the ingest worker publishes it, read back.
use compliance_engine.Common.{ℕ, suc, zero, String, true, [], ◌≡◌, refl, ap, Result, ok, err}
use compliance_engine.Json.{Json, PyError, truthy, num, pos, str, obj, field, end, attribute_error}
use compliance_engine.Scans.Rows.{World}
use compliance_engine.Scans.Store.{evaluate_message}
use compliance_engine.Scans.Evaluate.{handle_message}
use compliance_engine.Scans.Evaluate.Envelope.{
  envelope_of, handle_envelope, handle_envelope-published, IsHandled,
}

-- An identifier written as so many ones.
abbrev uuid_text : ℕ → String
uuid_text zero = ""
uuid_text (suc n) = String.◌∷◌ "1" (uuid_text n)

abbrev size : String → ℕ
size String.[] = 0
size (String.◌∷◌ c s) = suc (size s)

abbrev uuid : Json → Result PyError ℕ
uuid (str s) = ok (size s)
uuid _ = err attribute_error

uuid_read : (n : ℕ) → uuid (str (uuid_text n)) ≡ ok n
uuid_read n = ap ok (size_read n)
  where
    size_read : (n : ℕ) → size (uuid_text n) ≡ n
    size_read zero = refl
    size_read (suc n) = ap suc (size_read n)

abbrev describe : PyError → String
describe e = "error"

abbrev payload : Json
payload = obj (field "resource_count" (num (pos 3)) end)

abbrev world : World
world = record {
  fresh = 9;
  integrations = [];
  scans = [];
  runs = [];
  events = [];
  resources = [];
  relationships = [];
  evaluation_runs = [];
  compliance = record {
    frameworks = [];
    controls = [];
    findings = [];
    control_results = [];
    scan_scores = [];
  };
  aws_queue = [];
  azure_queue = [];
  policy_queue = [];
}

not_a_dict : handle_envelope uuid describe [] (str "x") world ≡ (err attribute_error, world)
unfolding handle_envelope
not_a_dict = refl

has_count : truthy payload ≡ true
unfolding truthy
has_count = refl

handle_envelope-published_example :
    (handle_envelope uuid describe [] (envelope_of uuid_text "now" 1 2 payload) world
      ≡ (ok tt, handle_message describe [] (evaluate_message 1 2 payload) world))
    × ((envelope : Json) → IsHandled uuid describe [] envelope world)
handle_envelope-published_example =
    handle_envelope-published uuid describe [] uuid_text "now" uuid_read 1 2 payload has_count world
