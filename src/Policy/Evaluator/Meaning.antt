-- ===== src/Policy/Evaluator/Meaning.antt =====
-- The policy language as an abstract syntax with a meaning of its own, and the dicts that stand for
-- it in the catalog. The evaluator, which walks dicts, computes that meaning.
use compliance_engine.Common.{
  ap, ◌∷◌, List, ◌∙◌, String, Bool, true, false, not, ◌&&◌, ◌||◌, ◌≡◌, refl, Option, none, some,
  all, any, Result, ok, err, ◌>>=◌,
}
use compliance_engine.Json.{
  Json, str, arr, obj, Items, nil, cons, end, field, PyError, truthy, or_else,
}
use compliance_engine.Json.Compare.{json_eq, rich_compare, gt, gte, lt, lte, is_in}
use compliance_engine.Policy.Evaluator.{
  resolve_path, present_check, check_value, evaluate_condition, evaluate_items,
  evaluate_policy_logic,
}

pub data Operator : Type 0 where
  missing exists equal different greater at_least less at_most member not_member truth falsity :
      Operator

abbrev pub operator_name : Operator → String
operator_name missing = "missing"
operator_name exists = "exists"
operator_name equal = "eq"
operator_name different = "ne"
operator_name greater = "gt"
operator_name at_least = "gte"
operator_name less = "lt"
operator_name at_most = "lte"
operator_name member = "in"
operator_name not_member = "not_in"
operator_name truth = "true"
operator_name falsity = "false"

mutual
  pub data Condition : Type 0 where
    check : String → Operator → Json → Condition
    all_of : Conditions → Condition
    any_of : Conditions → Condition

  pub data Conditions : Type 0 where
    no_more : Conditions
    also : Condition → Conditions → Conditions

abbrev pub negate : Result PyError Bool → Result PyError Bool
negate (ok b) = ok (not b)
negate (err e) = err e

-- What an operator says of a value, and of a value that is not there.
abbrev pub holds_value : Option Json → Operator → Json → Result PyError Bool
holds_value none missing e = ok true
holds_value none _ e = ok false
holds_value (some a) missing e = ok false
holds_value (some a) exists e = ok true
holds_value (some a) equal e = ok (json_eq a e)
holds_value (some a) different e = ok (not (json_eq a e))
holds_value (some a) greater e = rich_compare gt a e
holds_value (some a) at_least e = rich_compare gte a e
holds_value (some a) less e = rich_compare lt a e
holds_value (some a) at_most e = rich_compare lte a e
holds_value (some a) member e = is_in a (or_else e (arr nil))
holds_value (some a) not_member e = negate (is_in a (or_else e (arr nil)))
holds_value (some a) truth e = ok (truthy a)
holds_value (some a) falsity e = ok (not (truthy a))

-- A conjunction or a disjunction has a verdict only if each of its conditions has one.
unfoldable mutual
  pub holds : Json → Condition → Result PyError Bool
  holds asset (check path op e) = holds_value (resolve_path asset path) op e
  holds asset (all_of cs) = holds_all asset cs
  holds asset (any_of cs) = holds_any asset cs

  pub holds_all : Json → Conditions → Result PyError Bool
  holds_all asset no_more = ok true
  holds_all asset (also c cs) = do b ← holds asset c; rest ← holds_all asset cs; ok (b && rest)

  pub holds_any : Json → Conditions → Result PyError Bool
  holds_any asset no_more = ok false
  holds_any asset (also c cs) = do b ← holds asset c; rest ← holds_any asset cs; ok (b || rest)

abbrev pub check_node : String → String → Json → Json
check_node path operator expected = obj (
    field "type" (str "field_check")
      (field "path" (str path) (field "operator" (str operator) (field "expected" expected end))))

abbrev pub compound_node : String → Items → Json
compound_node operator xs = obj (
    field "type" (str "compound")
      (field "operator" (str operator) (field "conditions" (arr xs) end)))

unfoldable mutual
  pub encode : Condition → Json
  encode (check path op e) = check_node path (operator_name op) e
  encode (all_of cs) = compound_node "and" (encode_all cs)
  encode (any_of cs) = compound_node "or" (encode_all cs)

  pub encode_all : Conditions → Items
  encode_all no_more = nil
  encode_all (also c cs) = cons (encode c) (encode_all cs)

check_value-eq-holds_value :
    (v : Option Json) (op : Operator) (e : Json)
    → check_value v (str (operator_name op)) e ≡ holds_value v op e
unfolding check_value present_check
check_value-eq-holds_value none missing e = refl
check_value-eq-holds_value none _ e = refl
check_value-eq-holds_value (some a) not_member e = negate-bind (is_in a (or_else e (arr nil)))
  where
    negate-bind : (m : Result PyError Bool) → (m >>= λ b. ok (not b)) ≡ negate m
    negate-bind (ok b) = refl
    negate-bind (err x) = refl
check_value-eq-holds_value (some a) _ e = refl

-- A list of verdicts is folded as it grows.
fold-cons :
    (f : List Bool → Bool) (g : Bool → Bool → Bool)
    → ((b : Bool) (bs : List Bool) → f (b ∷ bs) ≡ g b (f bs))
    → (m : Result PyError Bool) (ms : Result PyError (List Bool))
    → ((m >>= λ b. ms >>= λ bs. ok (b ∷ bs)) >>= λ bs. ok (f bs))
      ≡ (m >>= λ b. (ms >>= λ bs. ok (f bs)) >>= λ rest. ok (g b rest))
fold-cons f g h (ok b) (ok bs) = ap ok (h b bs)
fold-cons f g h (ok b) (err e) = refl
fold-cons f g h (err e) ms = refl

mutual
  unfolding evaluate_condition holds encode

  pub evaluate-encode :
      (asset : Json) (c : Condition) → evaluate_condition asset (encode c) ≡ holds asset c
  evaluate-encode asset (check path op e) =
      check_value-eq-holds_value (resolve_path asset path) op e
  evaluate-encode asset (all_of cs) = evaluate-encode_all asset cs
  evaluate-encode asset (any_of cs) = evaluate-encode_any asset cs

  evaluate-encode_all :
      (asset : Json) (cs : Conditions)
      → (evaluate_items asset (encode_all cs) >>= λ bs. ok (all (λ b. b) bs)) ≡ holds_all asset cs
  evaluate-encode_all asset no_more = refl
  evaluate-encode_all asset (also c cs) =
      fold-cons (all (λ b. b)) ◌&&◌ (λ b bs. refl) (evaluate_condition asset (encode c))
        (evaluate_items asset (encode_all cs))
      ∙ (λ i. evaluate-encode asset c i >>= λ b.
          evaluate-encode_all asset cs i >>= λ rest. ok (b && rest))

  evaluate-encode_any :
      (asset : Json) (cs : Conditions)
      → (evaluate_items asset (encode_all cs) >>= λ bs. ok (any (λ b. b) bs)) ≡ holds_any asset cs
  evaluate-encode_any asset no_more = refl
  evaluate-encode_any asset (also c cs) =
      fold-cons (any (λ b. b)) ◌||◌ (λ b bs. refl) (evaluate_condition asset (encode c))
        (evaluate_items asset (encode_all cs))
      ∙ (λ i. evaluate-encode asset c i >>= λ b.
          evaluate-encode_any asset cs i >>= λ rest. ok (b || rest))

abbrev pub fail_when : Condition → Json
fail_when c = obj (field "type" (str "fail_when") (field "condition" (encode c) end))

-- For every condition built of checks, conjunctions and disjunctions, the evaluator, run on
-- the dict that stands for it, alone or under `fail_when`, gives what the condition means: the
-- operator's test of the value at the path, and a conjunction or disjunction of the
-- conditions' verdicts that raises the first error among them.
pub evaluate_policy_logic-encode :
    (asset : Json) (c : Condition)
    → (evaluate_policy_logic asset (fail_when c) ≡ holds asset c)
      × (evaluate_policy_logic asset (encode c) ≡ holds asset c)
unfolding evaluate_policy_logic encode
evaluate_policy_logic-encode asset (check path op e) =
    (evaluate-encode asset (check path op e), evaluate-encode asset (check path op e))
evaluate_policy_logic-encode asset (all_of cs) =
    (evaluate-encode asset (all_of cs), evaluate-encode asset (all_of cs))
evaluate_policy_logic-encode asset (any_of cs) =
    (evaluate-encode asset (any_of cs), evaluate-encode asset (any_of cs))
