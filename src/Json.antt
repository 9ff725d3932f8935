-- ===== src/Json.antt =====
-- The dynamic values that the program passes about as `dict[str, Any]` and `Any`: what JSON, YAML
-- and a `jsonb` column give. A dict is an association list in insertion order, whose first binding
-- of a key counts. Numbers are integers: the catalog's and the collectors' values hold no floats.
mod Int
pub mod Compare
pub mod Laws
pub use Int.{ℤ, pos, negsuc, pos_part, neg_part, int_lt, int_eq}
use Prim.Native.String
use compliance_engine.Common.{
  String, Bool, true, false, not, Option, none, some, List, [], ◌∷◌, str_eq, if◌then◌else◌, Result,
  ok, err, ◌==◌,
}

mutual
  pub data Json : Type 0 where
    null : Json
    bool : Bool → Json
    num : ℤ → Json
    str : String → Json
    arr : Items → Json
    obj : Fields → Json

  pub data Items : Type 0 where
    nil : Items
    cons : Json → Items → Items

  pub data Fields : Type 0 where
    end : Fields
    field : String → Json → Fields → Fields

-- The exceptions that the modelled code raises. `unsupported p v` is the `ValueError` whose text is
-- `f"{p}: {v}"`; the texts of a `TypeError` and an `AttributeError` are the interpreter's.
pub data PyError : Type 0 where
  key_error : String → PyError
  type_error attribute_error assertion_error : PyError
  value_error : String → PyError
  lookup_error : String → PyError
  unsupported : String → Json → PyError

-- `fs.get(k)`, and `none` where `k not in fs`
unfoldable pub find : String → Fields → Option Json
find k end = none
find k (field j v fs) = if str_eq j k then some v else find k fs

-- `fs.get(k, d)`
unfoldable pub find_or : Json → String → Fields → Json
unfolding find
find_or d k fs = elim (find k fs) [ none ↦ d | some v ↦ v ]

-- `v[k]` for a text `k`: a dict lacks a key with `KeyError`, and no other value is indexed by a text.
unfoldable pub index : Json → String → Result PyError Json
unfolding find
index (obj fs) k = elim (find k fs) [ none ↦ err (key_error k) | some v ↦ ok v ]
index _ k = err type_error

-- `v.get(k, d)`
unfoldable pub get_or : Json → Json → String → Result PyError Json
unfolding find_or
get_or d (obj fs) k = ok (find_or d k fs)
get_or d _ k = err attribute_error

-- `bool(v)`
unfoldable pub truthy : Json → Bool
truthy null = false
truthy (bool b) = b
truthy (num n) = not (int_eq n (pos 0))
truthy (str String.[]) = false
truthy (str (String.◌∷◌ _ _)) = true
truthy (arr nil) = false
truthy (arr (cons _ _)) = true
truthy (obj end) = false
truthy (obj (field _ _ _)) = true

-- `a or b`
unfoldable pub or_else : Json → Json → Json
unfolding truthy
or_else a b = if truthy a then a else b

-- `v == s` for a text `s`
unfoldable pub is_str : String → Json → Bool
is_str s (str t) = str_eq t s
is_str s _ = false

-- `v is True`, `v is False`
unfoldable pub is_bool : Bool → Json → Bool
is_bool true (bool b) = b
is_bool false (bool b) = not b
is_bool _ _ = false

abbrev pub items : List Json → Items
items [] = nil
items (x ∷ xs) = cons x (items xs)

abbrev pub item_list : Items → List Json
item_list nil = []
item_list (cons x xs) = x ∷ item_list xs

-- `str(v)`: `show` writes the values that are no text.
abbrev pub text_of : (Json → String) → Json → String
text_of show (str s) = s
text_of show v = show v
