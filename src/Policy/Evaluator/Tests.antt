-- ===== src/Policy/Evaluator/Tests.antt =====
-- Runs of the evaluator, after tests/test_policy_evaluator.py.
use compliance_engine.Common.{arith, some, ◌≡◌, refl, true, false, ok, err, [], ◌∷◌}
use compliance_engine.Json.{
  find, Fields, Json, null, bool, num, pos, str, arr, obj, end, field, key_error, type_error, items,
}
use compliance_engine.Json.Compare.{rich_compare, json_eq}
use compliance_engine.Policy.Evaluator.Meaning.{
  Condition, check, all_of, any_of, no_more, also, equal, exists, check_node, compound_node, encode,
  holds, fail_when, evaluate_policy_logic-encode,
}
use compliance_engine.Policy.Evaluator.Checks.{
  TestsAbsent, check_absent, any_absent, also_absent, nil_absent, evaluate_policy_logic-absent,
}
use compliance_engine.Policy.Evaluator.Compound.{IsCompound, Results, compound-raises}
use compliance_engine.Policy.Evaluator.Evidence.{find-build_evidence}
use compliance_engine.Policy.Evaluator.{
  present_check, resolve_path, evaluate_policy_logic, evaluate_condition, build_evidence,
}

abbrev bucket : Json
bucket = obj (
    field "resource_type" (str "storage.bucket") (
      field "properties"
        (obj (
          field "name" (str "public-bucket") (
            field "public_access_block" (obj (field "BlockPublicAcls" (bool false) end))
              (field "size" (num (pos 7)) end))))
        end))

abbrev acls_open : Json
acls_open = check_node "properties.public_access_block.BlockPublicAcls" "ne" (bool true)

abbrev too_big : Json
too_big = check_node "properties.size" "gt" (num (pos 9))

fails_when_open :
    evaluate_policy_logic bucket
      (obj (field "type" (str "fail_when") (field "condition" acls_open end)))
    ≡ ok true
unfolding evaluate_policy_logic present_check json_eq
fails_when_open = refl

both_needed :
    evaluate_condition bucket (compound_node "and" (items (acls_open ∷ too_big ∷ []))) ≡ ok false
unfolding evaluate_condition present_check rich_compare
both_needed = refl

no_short_circuit :
    evaluate_condition bucket (compound_node "or" (items (acls_open ∷ null ∷ []))) ≡ err type_error
unfolding evaluate_condition present_check
no_short_circuit = refl

no_path :
    evaluate_condition bucket (obj (field "type" (str "field_check") end)) ≡ err (key_error "path")
unfolding evaluate_condition
no_path = refl

evidence_of_bucket :
    build_evidence bucket ("properties.size" ∷ "properties.gone" ∷ [])
    ≡ field "properties.size" (num (pos 7)) end
unfolding build_evidence resolve_path
evidence_of_bucket = refl

abbrev has_name : Condition
has_name = check "properties.name" equal (str "public-bucket")

abbrev is_tagged : Condition
is_tagged = check "properties.tags" exists null

abbrev rule : Condition
rule = all_of (also has_name (also (any_of (also is_tagged (also has_name no_more))) no_more))

evaluate_policy_logic-encode_example :
    (evaluate_policy_logic bucket (fail_when rule) ≡ holds bucket rule)
    × (evaluate_policy_logic bucket (encode rule) ≡ holds bucket rule)
evaluate_policy_logic-encode_example = evaluate_policy_logic-encode bucket rule

size_found : resolve_path bucket "properties.size" ≡ some (num (pos 7))
unfolding resolve_path
size_found = refl

untagged : TestsAbsent bucket (any_of (also is_tagged no_more))
unfolding resolve_path
untagged = any_absent (also_absent (check_absent refl (ground arith)) nil_absent)

evaluate_policy_logic-absent_example :
    evaluate_policy_logic bucket (fail_when (any_of (also is_tagged no_more))) ≡ ok false
evaluate_policy_logic-absent_example =
    evaluate_policy_logic-absent bucket (any_of (also is_tagged no_more)) untagged

abbrev broken : Fields
broken =
    field "type" (str "compound")
      (field "operator" (str "xor") (field "conditions" (arr (items (acls_open ∷ null ∷ []))) end))

broken-IsCompound : IsCompound broken "xor" (acls_open ∷ null ∷ [])
unfolding find
broken-IsCompound = record { typed = refl; operated = refl; listed = refl }

acls_are_open : Results bucket (acls_open ∷ []) (true ∷ [])
unfolding evaluate_condition present_check json_eq
acls_are_open = (refl, tt)

null_raises : evaluate_condition bucket null ≡ err type_error
unfolding evaluate_condition
null_raises = refl

compound-raises_example : evaluate_condition bucket (obj broken) ≡ err type_error
compound-raises_example =
    compound-raises bucket broken "xor" (acls_open ∷ []) null [] (true ∷ []) type_error
      broken-IsCompound acls_are_open null_raises

abbrev either_open : Fields
either_open =
    field "conditions" (arr (items (acls_open ∷ [])))
      (field "type" (str "compound") (field "operator" (str "or") end))

either_open-IsCompound : IsCompound either_open "or" (acls_open ∷ [])
unfolding find
either_open-IsCompound = record { typed = refl; operated = refl; listed = refl }

find-build_evidence_example :
    find "properties.size" (build_evidence bucket ("properties.gone" ∷ "properties.size" ∷ []))
    ≡ resolve_path bucket "properties.size"
find-build_evidence_example =
    find-build_evidence bucket ("properties.gone" ∷ "properties.size" ∷ []) "properties.size"
