-- ===== src/Findings/Repository.antt =====
-- src/platform_backend/findings/repository.py: the table findings.findings and the evaluation of a
-- scan. An identifier of the database is a number; times are left out.
pub mod Upsert
pub mod Invariant
pub mod Counts
pub mod Rows
mod Tests
use compliance_engine.Common.{
  ℕ, ◌+◌, String, Bool, true, false, ◌&&◌, Option, none, some, List, [], ◌∷◌, str_eq, ◌==◌,
  if◌then◌else◌, Result, ok, err, ◌>>=◌,
}
use compliance_engine.Json.{Json, str, Fields, end, field, PyError, type_error, index}
use compliance_engine.Policy.Evaluator.{evaluate_policy_logic, build_evidence}
use compliance_engine.Policy.Catalog.{PolicyDefinition, matches_asset}

-- The texts "fail", "pass" and "error" of the column `result`, "open" and "resolved" of `status`.
pub data Verdict : Type 0 where
  fail pass error : Verdict

pub data FindingStatus : Type 0 where
  open_finding resolved : FindingStatus

abbrev pub is_fail : Verdict → Bool
is_fail fail = true
is_fail _ = false

pub record Finding : Type 0 where
  pub id : ℕ
  pub tenant_id : ℕ
  pub scan_id : ℕ
  pub policy_id : String
  pub resource_id : String
  pub resource_type : String
  pub result : Verdict
  pub status : FindingStatus
  pub severity : String
  pub title : String
  pub description : Option String
  pub evidence : Fields

-- The table, and the identifier that the next insertion gets.
pub record Table : Type 0 where
  pub fresh : ℕ
  pub rows : List Finding

-- The key of the conflict: (tenant_id, scan_id, policy_id, resource_id).
pub record Key : Type 0 where
  pub tenant_id : ℕ
  pub scan_id : ℕ
  pub policy_id : String
  pub resource_id : String

abbrev pub key_of : Finding → Key
key_of f = record {
  tenant_id = f.tenant_id;
  scan_id = f.scan_id;
  policy_id = f.policy_id;
  resource_id = f.resource_id;
}

abbrev pub same_key : Key → Key → Bool
same_key a b =
    a.tenant_id == b.tenant_id
    && a.scan_id == b.scan_id
    && str_eq a.policy_id b.policy_id
    && str_eq a.resource_id b.resource_id

unfoldable pub find_row : Key → List Finding → Option Finding
find_row k [] = none
find_row k (f ∷ fs) = if same_key (key_of f) k then some f else find_row k fs

-- `DO UPDATE SET …`: the identifier and the resource type stay.
abbrev pub updated : Finding → Finding → Finding
updated old new = record old {
  result = new.result;
  status = new.status;
  severity = new.severity;
  title = new.title;
  description = new.description;
  evidence = new.evidence;
}

-- `INSERT … ON CONFLICT (…) DO UPDATE`
unfoldable pub upsert_row : Finding → List Finding → List Finding
upsert_row new [] = new ∷ []
upsert_row new (f ∷ fs) =
    if same_key (key_of f) (key_of new) then updated f new ∷ fs else f ∷ upsert_row new fs

abbrev pub status_of : Verdict → FindingStatus
status_of fail = open_finding
status_of _ = resolved

-- What evaluating a policy on an asset yields: the result and the evidence.
pub record Outcome : Type 0 where
  pub result : Verdict
  pub evidence : Fields

unfoldable pub upsert_finding : ℕ → ℕ → PolicyDefinition → String → String → Outcome → Table → Table
unfolding upsert_row
upsert_finding tenant_id scan_id policy resource_id resource_type outcome t = record {
  fresh = t.fresh + 1;
  rows =
      upsert_row
        (record {
          id = t.fresh;
          tenant_id = tenant_id;
          scan_id = scan_id;
          policy_id = policy.policy_id;
          resource_id = resource_id;
          resource_type = resource_type;
          result = outcome.result;
          status = status_of outcome.result;
          severity = policy.severity;
          title = policy.title;
          description = policy.description;
          evidence = outcome.evidence;
        })
        t.rows;
}

-- `[asset for asset in assets if policy.matches_asset(asset)]`
unfoldable pub matching : PolicyDefinition → List Json → Result PyError (List Json)
unfolding matches_asset
matching p [] = ok []
matching p (asset ∷ assets) = do
  found ← matches_asset p asset
  rest ← matching p assets
  ok (if found then asset ∷ rest else rest)

-- The driver takes a text for a text column, and raises for any other value.
abbrev pub as_text : Json → Result PyError String
as_text (str s) = ok s
as_text _ = err type_error

unfoldable pub text_at : Json → String → Result PyError String
unfolding index
text_at asset k = do v ← index asset k; as_text v

-- The three counters of `evaluate_scan`, with the table that it writes to.
pub record Progress : Type 0 where
  pub policies_run : ℕ
  pub findings_count : ℕ
  pub fail_count : ℕ
  pub table : Table

-- An exception leaves what was written before it.
abbrev pub Step : Type 0
Step = Result PyError (Unit {0}) × Progress

abbrev pub and_then : Step → (Progress → Step) → Step
and_then (ok _, s) k = k s
and_then (err e, s) k = (err e, s)

-- The counters after an upsert that returned; an exception leaves them.
abbrev pub count_outcome : Outcome → Progress → Result PyError Table → Step
count_outcome outcome s (ok t) = (
  ok tt,
  record s {
    findings_count = s.findings_count + 1;
    fail_count = s.fail_count + (if is_fail outcome.result then 1 else 0);
    table = t;
  },
)
count_outcome outcome s (err e) = (err e, s)

-- `str(exc)` is the interpreter's.
module _ (describe : PyError → String) where
  -- The body of the `try`, its `except` and its `else`.
  unfoldable pub evaluate_asset : PolicyDefinition → Json → Outcome
  unfolding evaluate_policy_logic build_evidence
  evaluate_asset policy asset = elim (evaluate_policy_logic asset policy.logic) [
    | ok failed ↦ record {
      result = if failed then fail else pass;
      evidence = build_evidence asset policy.evidence_fields;
    }
    | err e ↦ record { result = error; evidence = field "error" (str (describe e)) end }
  ]

  module _ (tenant_id scan_id : ℕ) where
    -- The arguments of `upsert_finding` are taken from the asset before the call.
    unfoldable pub written : PolicyDefinition → Json → Outcome → Table → Result PyError Table
    unfolding text_at upsert_finding
    written policy asset outcome t = do
      resource_id ← text_at asset "resource_id"
      resource_type ← text_at asset "resource_type"
      ok (upsert_finding tenant_id scan_id policy resource_id resource_type outcome t)

    unfoldable pub record_outcome : PolicyDefinition → Json → Outcome → Progress → Step
    unfolding written
    record_outcome policy asset outcome s =
        count_outcome outcome s (written policy asset outcome s.table)

    -- `for asset in matched`
    unfoldable pub evaluate_assets : PolicyDefinition → List Json → Progress → Step
    unfolding record_outcome
    evaluate_assets policy [] s = (ok tt, s)
    evaluate_assets policy (asset ∷ matched) s =
        and_then (record_outcome policy asset (evaluate_asset policy asset) s)
          (evaluate_assets policy matched)

    -- The list comprehension may raise.
    unfoldable pub evaluate_matched :
        PolicyDefinition → Result PyError (List Json) → Progress → Step
    unfolding evaluate_assets
    evaluate_matched policy (ok matched) s = evaluate_assets policy matched s
    evaluate_matched policy (err e) s = (err e, s)

    -- `for policy in policies`
    unfoldable pub evaluate_policies : List Json → List PolicyDefinition → Progress → Step
    unfolding evaluate_matched matching
    evaluate_policies assets [] s = (ok tt, s)
    evaluate_policies assets (policy ∷ policies) s =
        let counted = record s { policies_run = s.policies_run + 1 } in
        and_then (evaluate_matched policy (matching policy assets) counted)
          (evaluate_policies assets policies)

    unfoldable pub evaluate_scan : List Json → List PolicyDefinition → Table → Step
    unfolding evaluate_policies
    evaluate_scan assets policies t =
        evaluate_policies assets policies
          (record { policies_run = 0; findings_count = 0; fail_count = 0; table = t })
