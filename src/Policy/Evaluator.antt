-- ===== src/Policy/Evaluator.antt =====
-- src/platform_backend/policy/engine/evaluator.py: a policy's logic is a dict that is walked as it
-- stands, with Python's errors where a key is missing or a value has the wrong type.
pub mod Checks
pub mod Meaning
pub mod Compound
pub mod Evidence
mod Tests
use compliance_engine.Common.{
  str_eq, String, Bool, true, false, not, ◌≡◌, refl, Option, none, some, List, [], ◌∷◌,
  if◌then◌else◌, all, any, Result, ok, err, ◌>>=◌,
}
use compliance_engine.Common.Text.{is_empty, split}
use compliance_engine.Json.{
  Json, null, bool, num, str, arr, obj, Items, nil, cons, Fields, end, field, PyError, key_error,
  type_error, attribute_error, unsupported, find, find_or, index, truthy, or_else, is_str,
}
use compliance_engine.Json.Compare.{json_eq, rich_compare, gt, gte, lt, lte, is_in}

-- The loop of `_resolve_path`; `none` stands for `_MISSING`.
unfoldable pub walk : Json → List String → Option Json
unfolding find
walk current [] = some current
walk (obj fs) (part ∷ parts) = elim (find part fs) [ none ↦ none | some v ↦ walk v parts ]
walk _ (part ∷ parts) = none

unfoldable pub resolve_path : Json → String → Option Json
unfolding walk split
resolve_path asset path = walk asset (split b'.' path)

-- The tests on a value that is there, once the operator is neither `missing` nor `exists`.
unfoldable pub present_check : Json → Json → Json → Result PyError Bool
unfolding is_str
present_check actual operator expected =
    if is_str "eq" operator
    then ok (json_eq actual expected)
    else if is_str "ne" operator
    then ok (not (json_eq actual expected))
    else if is_str "gt" operator
    then rich_compare gt actual expected
    else if is_str "gte" operator
    then rich_compare gte actual expected
    else if is_str "lt" operator
    then rich_compare lt actual expected
    else if is_str "lte" operator
    then rich_compare lte actual expected
    else if is_str "in" operator
    then is_in actual (or_else expected (arr nil))
    else if is_str "not_in" operator
    then (do found ← is_in actual (or_else expected (arr nil)); ok (not found))
    else if is_str "true" operator
    then ok (truthy actual)
    else if is_str "false" operator
    then ok (not (truthy actual))
    else err (unsupported "unsupported field_check operator" operator)

-- `_field_check` from the point where the path is resolved.
unfoldable pub check_value : Option Json → Json → Json → Result PyError Bool
unfolding is_str
check_value none operator expected = ok (is_str "missing" operator)
check_value (some actual) operator expected =
    if is_str "missing" operator
    then ok false
    else if is_str "exists" operator
    then ok true
    else present_check actual operator expected

-- `_resolve_path(asset, path)` with a path of any type: only a text has `split`.
unfoldable pub resolve_any : Json → Json → Result PyError (Option Json)
unfolding resolve_path
resolve_any asset (str path) = ok (resolve_path asset path)
resolve_any asset _ = err attribute_error

-- `_field_check`
unfoldable pub field_check : Json → Json → Result PyError Bool
unfolding index find_or resolve_any check_value
field_check asset (obj node) = do
  path ← index (obj node) "path"
  actual ← resolve_any asset path
  operator ← index (obj node) "operator"
  check_value actual operator (find_or null "expected" node)
field_check asset node = err type_error

-- The verdict of `_compound`, once every condition has one.
unfoldable pub combine : Json → List Bool → Result PyError Bool
unfolding is_str
combine operator results =
    if is_str "and" operator
    then ok (all (λ b. b) results)
    else if is_str "or" operator
    then ok (any (λ b. b) results)
    else err (unsupported "unsupported compound operator" operator)

-- `[evaluate_condition(asset, c) for c in conditions]` where every `c` is a text: a text is not
-- indexed by `"type"`.
abbrev over_texts : Bool → Result PyError (List Bool)
over_texts true = ok []
over_texts false = err type_error

-- `evaluate_condition` on a dict, given the results of its conditions.
unfoldable pub by_type : Json → Fields → Result PyError (List Bool) → Result PyError Bool
unfolding index is_str field_check combine
by_type asset node results = do
  node_type ← index (obj node) "type"
  if is_str "field_check" node_type
      then field_check asset (obj node)
      else if is_str "compound" node_type
      then (do operator ← index (obj node) "operator"; bs ← results; combine operator bs)
      else err (unsupported "unsupported condition type" node_type)

unfoldable mutual
  unfolding by_type

  -- `evaluate_condition`
  pub evaluate_condition : Json → Json → Result PyError Bool
  evaluate_condition asset (obj node) = by_type asset node (conditions asset node)
  evaluate_condition asset _ = err type_error

  -- The results of `node.get("conditions", [])`, found by the walk of `find`.
  pub conditions : Json → Fields → Result PyError (List Bool)
  conditions asset end = ok []
  conditions asset (field k v node) =
      let here = evaluate_each asset v in
      let later = conditions asset node in if str_eq k "conditions" then here else later

  -- A list is iterated by its items, a dict by its keys, a text by its characters.
  pub evaluate_each : Json → Json → Result PyError (List Bool)
  evaluate_each asset (arr xs) = evaluate_items asset xs
  evaluate_each asset (str s) = over_texts (is_empty s)
  evaluate_each asset (obj fs) = over_texts (elim fs [ end ↦ true | field _ _ _ ↦ false ])
  evaluate_each asset _ = err type_error

  pub evaluate_items : Json → Items → Result PyError (List Bool)
  evaluate_items asset nil = ok []
  evaluate_items asset (cons x xs) = do
    b ← evaluate_condition asset x
    bs ← evaluate_items asset xs
    ok (b ∷ bs)

-- `_compound`
unfoldable pub compound : Json → Json → Result PyError Bool
unfolding evaluate_condition index combine
compound asset (obj node) = do
  operator ← index (obj node) "operator"
  bs ← conditions asset node
  combine operator bs
compound asset node = err type_error

-- `evaluate_policy_logic`: true when the policy fails.
unfoldable pub evaluate_policy_logic : Json → Json → Result PyError Bool
unfolding index is_str evaluate_condition field_check compound
evaluate_policy_logic asset logic = do
  logic_type ← index logic "type"
  if is_str "fail_when" logic_type
      then (do condition ← index logic "condition"; evaluate_condition asset condition)
      else if is_str "field_check" logic_type
      then field_check asset logic
      else if is_str "compound" logic_type
      then compound asset logic
      else err (unsupported "unsupported logic type" logic_type)

-- `build_evidence`: a dict of the fields that the asset has, by assignment in the listed order.
unfoldable pub assign : String → Json → Fields → Fields
assign k v end = field k v end
assign k v (field j w fs) = if str_eq j k then field j v fs else field j w (assign k v fs)

unfoldable pub evidence_from : Json → Fields → List String → Fields
unfolding assign
evidence_from asset evidence [] = evidence
evidence_from asset evidence (f ∷ fields) =
    evidence_from asset
      (elim (resolve_path asset f) [ none ↦ evidence | some v ↦ assign f v evidence ]) fields

unfoldable pub build_evidence : Json → List String → Fields
unfolding evidence_from
build_evidence asset fields = evidence_from asset end fields
