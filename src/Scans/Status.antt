-- ===== src/Scans/Status.antt =====
-- src/platform_backend/platform/models/scan.py
use compliance_engine.Common.{
  Bool, true, false, List, [], ◌∷◌, any, if◌then◌else◌, Result, ok, err, String,
}
use compliance_engine.Json.{PyError, value_error}
use Prim.Native.String

pub data ScanStatus : Type 0 where
  created queued collecting collected ingesting inventory_ready evaluating : ScanStatus
  completed completed_with_errors failed : ScanStatus

-- The text of the status.
abbrev pub value : ScanStatus → String
value created = "created"
value queued = "queued"
value collecting = "collecting"
value collected = "collected"
value ingesting = "ingesting"
value inventory_ready = "inventory_ready"
value evaluating = "evaluating"
value completed = "completed"
value completed_with_errors = "completed_with_errors"
value failed = "failed"

abbrev pub same : ScanStatus → ScanStatus → Bool
same created created = true
same queued queued = true
same collecting collecting = true
same collected collected = true
same ingesting ingesting = true
same inventory_ready inventory_ready = true
same evaluating evaluating = true
same completed completed = true
same completed_with_errors completed_with_errors = true
same failed failed = true
same _ _ = false

-- `TERMINAL_STATUSES`
abbrev pub terminal_statuses : List ScanStatus
terminal_statuses = completed ∷ completed_with_errors ∷ failed ∷ []

abbrev pub is_terminal : ScanStatus → Bool
is_terminal s = any (same s) terminal_statuses

-- `ALLOWED_TRANSITIONS.get(current, frozenset())`
abbrev pub allowed_transitions : ScanStatus → List ScanStatus
allowed_transitions created = queued ∷ failed ∷ []
allowed_transitions queued = collecting ∷ failed ∷ []
allowed_transitions collecting = collected ∷ completed_with_errors ∷ failed ∷ []
allowed_transitions collected = ingesting ∷ failed ∷ []
allowed_transitions ingesting = inventory_ready ∷ completed_with_errors ∷ failed ∷ []
allowed_transitions inventory_ready = evaluating ∷ failed ∷ []
allowed_transitions completed_with_errors = evaluating ∷ failed ∷ []
allowed_transitions evaluating = completed ∷ completed_with_errors ∷ failed ∷ []
allowed_transitions completed = []
allowed_transitions failed = []

abbrev transition_text : ScanStatus → ScanStatus → String
transition_text current target =
    String.◌++◌ "invalid scan transition: "
      (String.◌++◌ (value current) (String.◌++◌ " -> " (value target)))

unfoldable pub assert_transition : ScanStatus → ScanStatus → Result PyError (Unit {0})
assert_transition current target =
    if any (same target) (allowed_transitions current)
    then ok tt
    else err (value_error (transition_text current target))
