-- ===== src/Policy/Evaluator/Checks.antt =====
-- Field checks: operators that are opposites of one another, and fields that an asset lacks.
use Prim.Native.Nat.{Ordering}
use compliance_engine.Common.{
  err, Bool, ◌≢◌, ◌∙◌, String, sym, Result, ◌≡◌, refl, ap, not, ok, some, none, Option, arith, true,
  false,
}
use compliance_engine.Json.{
  truthy, or_else, PyError, ℤ, Json, null, bool, num, pos, str, arr, obj, Items, nil, cons,
}
use compliance_engine.Json.Compare.{
  is_in, Comparison, gt, gte, lt, lte, decide, rich_compare, compare_items, json_eq,
  compare_numbers, as_num,
}
use compliance_engine.Policy.Evaluator.{resolve_path, evaluate_condition, evaluate_policy_logic}
use compliance_engine.Policy.Evaluator.Meaning.{
  holds_any, holds_all, Operator, missing, exists, equal, different, greater, at_least, less,
  at_most, member, not_member, truth, falsity, negate, holds_value, Condition, check, all_of,
  any_of, Conditions, no_more, also, holds, fail_when, evaluate-encode, encode,
  evaluate_policy_logic-encode,
}

abbrev reverse_comparison : Comparison → Comparison
reverse_comparison gt = lte
reverse_comparison gte = lt
reverse_comparison lt = gte
reverse_comparison lte = gt

decide-reverse :
    (c : Comparison) (o : Ordering) → decide (reverse_comparison c) o ≡ not (decide c o)
decide-reverse gt o = ground arith
decide-reverse gte o = ground arith
decide-reverse lt o = ground arith
decide-reverse lte o = ground arith

compare_numbers-reverse :
    (c : Comparison) (a : ℤ) (b : Option ℤ)
    → compare_numbers (reverse_comparison c) (some a) b ≡ negate (compare_numbers c (some a) b)
compare_numbers-reverse c a (some b) = ap ok (decide-reverse c _)
compare_numbers-reverse c a none = refl

mutual
  unfolding rich_compare

  rich_compare-reverse :
      (c : Comparison) (a b : Json)
      → rich_compare (reverse_comparison c) a b ≡ negate (rich_compare c a b)
  rich_compare-reverse c null b = refl
  rich_compare-reverse c (bool true) b = compare_numbers-reverse c (pos 1) (as_num b)
  rich_compare-reverse c (bool false) b = compare_numbers-reverse c (pos 0) (as_num b)
  rich_compare-reverse c (num n) b = compare_numbers-reverse c n (as_num b)
  rich_compare-reverse c (str s) (str t) = ap ok (decide-reverse c _)
  rich_compare-reverse c (str s) _ = refl
  rich_compare-reverse c (arr xs) (arr ys) = compare_items-reverse c xs ys
  rich_compare-reverse c (arr xs) _ = refl
  rich_compare-reverse c (obj fs) b = refl

  compare_items-reverse :
      (c : Comparison) (xs ys : Items)
      → compare_items (reverse_comparison c) xs ys ≡ negate (compare_items c xs ys)
  compare_items-reverse c nil nil = ap ok (decide-reverse c _)
  compare_items-reverse c nil (cons y ys) = ap ok (decide-reverse c _)
  compare_items-reverse c (cons x xs) nil = ap ok (decide-reverse c _)
  compare_items-reverse c (cons x xs) (cons y ys) =
      ground (arith, compare_items-reverse c xs ys, rich_compare-reverse c x y)

abbrev pub opposite : Operator → Operator
opposite missing = exists
opposite exists = missing
opposite equal = different
opposite different = equal
opposite greater = at_most
opposite at_least = less
opposite less = at_least
opposite at_most = greater
opposite member = not_member
opposite not_member = member
opposite truth = falsity
opposite falsity = truth

negate-negate : (r : Result PyError Bool) → negate (negate r) ≡ r
negate-negate (ok true) = refl
negate-negate (ok false) = refl
negate-negate (err e) = refl

holds_value-opposite :
    (a : Json) (op : Operator) (e : Json)
    → holds_value (some a) (opposite op) e ≡ negate (holds_value (some a) op e)
holds_value-opposite a missing e = refl
holds_value-opposite a exists e = refl
holds_value-opposite a equal e = refl
holds_value-opposite a different e = sym (negate-negate (ok (json_eq a e)))
holds_value-opposite a greater e = rich_compare-reverse gt a e
holds_value-opposite a at_least e = rich_compare-reverse gte a e
holds_value-opposite a less e = rich_compare-reverse lt a e
holds_value-opposite a at_most e = rich_compare-reverse lte a e
holds_value-opposite a member e = refl
holds_value-opposite a not_member e = sym (negate-negate (is_in a (or_else e (arr nil))))
holds_value-opposite a truth e = refl
holds_value-opposite a falsity e = sym (negate-negate (ok (truthy a)))

holds-opposite :
    (asset : Json) (path : String) (op : Operator) (e a : Json)
    → resolve_path asset path ≡ some a
    → holds asset (check path (opposite op) e) ≡ negate (holds asset (check path op e))
unfolding holds
holds-opposite asset path op e a found = rw found (holds_value-opposite a op e)

-- Where the path is found, a check by the opposite operator has the negated verdict, or the
-- same error.
pub evaluate_condition-opposite :
    (asset : Json) (path : String) (op : Operator) (e a : Json)
    → resolve_path asset path ≡ some a
    → evaluate_condition asset (encode (check path (opposite op) e))
      ≡ negate (evaluate_condition asset (encode (check path op e)))
evaluate_condition-opposite asset path op e a found =
    rw (evaluate-encode, evaluate-encode) (holds-opposite asset path op e a found)

-- Every check is of a path that the asset lacks, by another operator than `missing`, and no
-- conjunction is empty.
mutual
  pub data TestsAbsent (asset : Json) : Condition → Type 0 where
    check_absent :
        {path : String} {op : Operator} {e : Json}
        → resolve_path asset path ≡ none
        → op ≢ missing
        → TestsAbsent asset (check path op e)
    all_absent :
        {c : Condition} {cs : Conditions}
        → TestsAbsent asset c
        → TestAbsent asset cs
        → TestsAbsent asset (all_of (also c cs))
    any_absent : {cs : Conditions} → TestAbsent asset cs → TestsAbsent asset (any_of cs)

  pub data TestAbsent (asset : Json) : Conditions → Type 0 where
    nil_absent : TestAbsent asset no_more
    also_absent :
        {c : Condition} {cs : Conditions}
        → TestsAbsent asset c
        → TestAbsent asset cs
        → TestAbsent asset (also c cs)

holds_value-absent : (op : Operator) (e : Json) → op ≢ missing → holds_value none op e ≡ ok false
holds_value-absent missing e h = absurd (h refl)
holds_value-absent _ e h = refl

mutual
  unfolding holds

  holds-absent : {asset : Json} {c : Condition} → TestsAbsent asset c → holds asset c ≡ ok false
  holds-absent (check_absent {op = o} {e = x} gone other) = rw gone (holds_value-absent o x other)
  holds-absent (all_absent h hs) =
      let (b, verdict) = holds_all-absent hs in rw (holds-absent h, verdict)
  holds-absent (any_absent hs) = holds_any-absent hs

  holds_all-absent :
      {asset : Json} {cs : Conditions}
      → TestAbsent asset cs
      → (b : Bool) × (holds_all asset cs ≡ ok b)
  holds_all-absent nil_absent = (true, refl)
  holds_all-absent (also_absent h hs) =
      let (b, verdict) = holds_all-absent hs in (false, rw (holds-absent h, verdict))

  holds_any-absent :
      {asset : Json} {cs : Conditions} → TestAbsent asset cs → holds_any asset cs ≡ ok false
  holds_any-absent nil_absent = refl
  holds_any-absent (also_absent h hs) = rw (holds-absent h, holds_any-absent hs)

-- A policy that fails when its condition holds does not fail on an asset that lacks every path
-- the condition tests, where no operator is `missing` and no conjunction is empty.
pub evaluate_policy_logic-absent :
    (asset : Json) (c : Condition)
    → TestsAbsent asset c
    → evaluate_policy_logic asset (fail_when c) ≡ ok false
evaluate_policy_logic-absent asset c h = (evaluate_policy_logic-encode asset c).0 ∙ holds-absent h
