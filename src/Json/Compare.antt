-- ===== src/Json/Compare.antt =====
-- `==`, `<`, `<=`, `>`, `>=` and `in` on dynamic values. A Boolean compares as the number 0 or 1,
-- lists compare item by item, dicts by their keys and values in any order.
use Prim.Native.Nat.{Ordering}
use Prim.Native.String.{compare}
use compliance_engine.Common.{
  ℕ, suc, String, Bool, true, false, ◌&&◌, ◌||◌, Option, none, some, ◌==◌, str_eq, if◌then◌else◌,
  Result, ok, err, ◌≡◌, refl,
}
use compliance_engine.Common.Text.{codes, contains}
use compliance_engine.Json.{
  ℤ, pos, negsuc, int_eq, int_lt, Json, null, bool, num, str, arr, obj, Items, nil, cons, Fields,
  end, field, PyError, type_error, find,
}

-- The number that a value compares as.
abbrev pub as_num : Json → Option ℤ
as_num (bool true) = some (pos 1)
as_num (bool false) = some (pos 0)
as_num (num n) = some n
as_num _ = none

abbrev pub num_eq : Option ℤ → Option ℤ → Bool
num_eq (some a) (some b) = int_eq a b
num_eq _ _ = false

abbrev pub same_str : String → Json → Bool
same_str s (str t) = str_eq s t
same_str s _ = false

abbrev pub is_null : Json → Bool
is_null null = true
is_null _ = false

abbrev pub size : Fields → ℕ
size end = 0
size (field _ _ fs) = suc (size fs)

unfoldable mutual
  unfolding find

  pub json_eq : Json → Json → Bool
  json_eq null b = is_null b
  json_eq (bool x) b = num_eq (as_num (bool x)) (as_num b)
  json_eq (num n) b = num_eq (some n) (as_num b)
  json_eq (str s) b = same_str s b
  json_eq (arr xs) (arr ys) = items_eq xs ys
  json_eq (arr xs) _ = false
  json_eq (obj fs) (obj gs) = size fs == size gs && fields_in fs gs
  json_eq (obj fs) _ = false

  pub items_eq : Items → Items → Bool
  items_eq nil nil = true
  items_eq (cons x xs) (cons y ys) = json_eq x y && items_eq xs ys
  items_eq _ _ = false

  pub fields_in : Fields → Fields → Bool
  fields_in end gs = true
  fields_in (field k v fs) gs =
      elim (find k gs) [ none ↦ false | some w ↦ json_eq v w ] && fields_in fs gs

pub data Comparison : Type 0 where
  gt gte lt lte : Comparison

-- The verdict of a comparison, from the order of the two sides.
abbrev pub decide : Comparison → Ordering → Bool
decide gt Ordering.gt = true
decide gt _ = false
decide gte Ordering.lt = false
decide gte _ = true
decide lt Ordering.lt = true
decide lt _ = false
decide lte Ordering.gt = false
decide lte _ = true

abbrev pub int_compare : ℤ → ℤ → Ordering
int_compare a b =
    if int_lt a b then Ordering.lt else if int_eq a b then Ordering.eq else Ordering.gt

abbrev pub compare_numbers : Comparison → Option ℤ → Option ℤ → Result PyError Bool
compare_numbers c (some a) (some b) = ok (decide c (int_compare a b))
compare_numbers c _ _ = err type_error

unfoldable mutual
  unfolding json_eq

  pub rich_compare : Comparison → Json → Json → Result PyError Bool
  rich_compare c null b = err type_error
  rich_compare c (bool x) b = compare_numbers c (as_num (bool x)) (as_num b)
  rich_compare c (num n) b = compare_numbers c (some n) (as_num b)
  rich_compare c (str s) (str t) = ok (decide c (compare s t))
  rich_compare c (str s) _ = err type_error
  rich_compare c (arr xs) (arr ys) = compare_items c xs ys
  rich_compare c (arr xs) _ = err type_error
  rich_compare c (obj fs) b = err type_error

  -- The first items that differ decide, or else the lengths.
  pub compare_items : Comparison → Items → Items → Result PyError Bool
  compare_items c nil nil = ok (decide c Ordering.eq)
  compare_items c nil (cons y ys) = ok (decide c Ordering.lt)
  compare_items c (cons x xs) nil = ok (decide c Ordering.gt)
  compare_items c (cons x xs) (cons y ys) = elim (json_eq x y) [
    | true ↦ compare_items c xs ys
    | false ↦ rich_compare c x y
  ]

unfoldable pub mem_items : Json → Items → Bool
unfolding json_eq
mem_items v nil = false
mem_items v (cons x xs) = json_eq v x || mem_items v xs

abbrev has_key : String → Fields → Bool
has_key k fs = elim (find k fs) [ none ↦ false | some _ ↦ true ]

-- `v in fs` for a dict: lists and dicts are not hashable.
abbrev in_keys : Json → Fields → Result PyError Bool
in_keys (str k) fs = ok (has_key k fs)
in_keys (arr _) fs = err type_error
in_keys (obj _) fs = err type_error
in_keys _ fs = ok false

abbrev in_text : Json → String → Result PyError Bool
in_text (str t) s = ok (contains (codes s) (codes t))
in_text _ s = err type_error

-- `v in c`
unfoldable pub is_in : Json → Json → Result PyError Bool
unfolding mem_items find contains
is_in v (arr xs) = ok (mem_items v xs)
is_in v (obj fs) = in_keys v fs
is_in v (str s) = in_text v s
is_in v _ = err type_error

true_is_one : json_eq (bool true) (num (pos 1)) ≡ true
unfolding json_eq
true_is_one = refl

lists_compare :
    rich_compare lt
      (arr (cons (num (pos 1)) (cons (str "a") nil)))
      (arr (cons (bool true) (cons (str "b") nil)))
    ≡ ok true
unfolding rich_compare
lists_compare = refl

texts_differ : rich_compare gte (str "a") (num (negsuc 0)) ≡ err type_error
unfolding rich_compare
texts_differ = refl
