-- ===== src/Findings/Repository/Tests.antt =====
-- The evaluation of a small scan.
use compliance_engine.Common.{none, [], ◌∷◌, ◌≡◌, refl, arith, true, inl, ok, String}
use compliance_engine.Json.{Json, Fields, str, bool, obj, end, field, find, PyError}
use compliance_engine.Policy.Evaluator.{present_check}
use compliance_engine.Json.Compare.{json_eq}
use compliance_engine.Policy.Catalog.{PolicyDefinition, matches_asset}
use compliance_engine.Findings.Repository.{
  Finding, Table, evaluate_scan, evaluate_asset, find_row, key_of, pass, resolved,
}
use compliance_engine.Findings.Repository.Invariant.{
  IsConsistent, evaluate_scan-IsConsistent, IsForeign, evaluate_scan-foreign,
}
use compliance_engine.Findings.Repository.Counts.{
  IsAsset, matches, matched_total, fail_total, write_all, evaluate_scan-IsAsset,
}
use compliance_engine.Findings.Repository.Rows.{Records, key, evaluate_scan-Records}

abbrev bucket_node : Fields
bucket_node = field "resource_id" (str "b-1") (
    field "resource_type" (str "storage.bucket")
      (field "properties" (obj (field "public" (bool true) end)) end))

abbrev bucket : Json
bucket = obj bucket_node

abbrev no_public : PolicyDefinition
no_public = record {
  policy_id = "p-1";
  title = "No public bucket";
  provider = "aws";
  resource_type = "storage.bucket";
  provider_type = none;
  severity = "high";
  description = none;
  logic = obj (
      field "type" (str "field_check") (
        field "path" (str "properties.public")
          (field "operator" (str "eq") (field "expected" (bool true) end))));
  evidence_fields = "properties.public" ∷ [];
  remediation = none;
  cis_control_id = none;
  display_title = none;
  pack_id = none;
  version = "1";
}

abbrev describe : PyError → String
describe e = "error"

abbrev old_row : Finding
old_row = record {
  id = 4;
  tenant_id = 1;
  scan_id = 2;
  policy_id = "p-1";
  resource_id = "b-1";
  resource_type = "storage.bucket";
  result = pass;
  status = resolved;
  severity = "low";
  title = "Old";
  description = none;
  evidence = end;
}

abbrev before : Table
before = record { fresh = 5; rows = old_row ∷ [] }

one_failure : (evaluate_scan describe 1 2 (bucket ∷ []) (no_public ∷ []) before).1.fail_count ≡ 1
unfolding evaluate_scan evaluate_asset present_check json_eq
one_failure = refl

bucket-IsAsset : IsAsset bucket
unfolding find
bucket-IsAsset = record {
  node = bucket_node;
  is_dict = refl;
  resource_id = "b-1";
  resource_type = "storage.bucket";
  has_id = refl;
  has_type = refl;
}

bucket-matches : matches no_public bucket ≡ true
unfolding matches matches_asset
bucket-matches = refl

abbrev other_bucket_row : Finding
other_bucket_row = record old_row { resource_id = "b-2" }

before-IsConsistent : IsConsistent before
unfolding find_row
before-IsConsistent = record { distinct = (refl, tt); agree = (refl, tt) }

evaluate_scan-IsConsistent_example :
    IsConsistent (evaluate_scan describe 1 2 (bucket ∷ []) (no_public ∷ []) before).1.table
evaluate_scan-IsConsistent_example =
    evaluate_scan-IsConsistent describe 1 2 (bucket ∷ []) (no_public ∷ []) before
      before-IsConsistent

three-IsForeign : IsForeign 1 3 (key_of old_row)
three-IsForeign e = omega (arith, e.1)

evaluate_scan-foreign_example :
    find_row
      (key_of old_row)
      (evaluate_scan describe 1 3 (bucket ∷ []) (no_public ∷ []) before).1.table.rows
    ≡ find_row (key_of old_row) before.rows
evaluate_scan-foreign_example =
    evaluate_scan-foreign describe 1 3 (bucket ∷ []) (no_public ∷ []) before (key_of old_row)
      three-IsForeign

evaluate_scan-IsAsset_example : evaluate_scan describe 1 2 (bucket ∷ []) (no_public ∷ []) before ≡ (
  ok tt,
  record {
    policies_run = 1;
    findings_count = matched_total describe 1 2 (bucket ∷ []) (no_public ∷ []);
    fail_count = fail_total describe 1 2 (bucket ∷ []) (no_public ∷ []);
    table = write_all describe 1 2 (bucket ∷ []) (no_public ∷ []) before;
  },
)
evaluate_scan-IsAsset_example =
    evaluate_scan-IsAsset describe 1 2 (bucket ∷ []) (no_public ∷ []) before (bucket-IsAsset, tt)

evaluate_scan-Records_example :
    Records
      (key 1 2 no_public bucket)
      no_public
      (evaluate_asset describe no_public bucket)
      (evaluate_scan describe 1 2 (bucket ∷ []) (no_public ∷ []) before).1.table.rows
evaluate_scan-Records_example =
    evaluate_scan-Records describe 1 2 (bucket ∷ []) (no_public ∷ []) before no_public bucket
      (bucket-IsAsset, tt) (tt, tt) (tt, tt) (inl refl) (inl refl) bucket-matches
