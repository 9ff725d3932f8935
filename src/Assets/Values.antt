-- ===== src/Assets/Values.antt =====
-- What the rules of src/platform_backend/assets/ingest/normalizer.py share: reading an item, texts
-- built from values, iteration, the tags of AWS, and the row that a rule makes.
use Prim.Native.String
use compliance_engine.Common.{
  String, Bool, false, not, none, some, List, [], ◌∷◌, if◌then◌else◌, Result, ok, err, ◌>>=◌,
}
use compliance_engine.Json.{
  Json, null, bool, num, pos, str, arr, obj, Fields, end, field, item_list, PyError, type_error,
  key_error, find, find_or, truthy, index,
}
use compliance_engine.Json.Compare.{json_eq, is_in}

-- `{name: value, …}`, in order
abbrev pub dict : List (String × Json) → Fields
dict [] = end
dict ((k, v) ∷ rest) = field k v (dict rest)

-- `item[k]`
unfoldable pub key : String → Fields → Result PyError Json
unfolding find
key k fs = elim (find k fs) [ none ↦ err (key_error k) | some v ↦ ok v ]

-- `item.get(k)`, `item.get(k, False)` and `item.get(k, 0)`
abbrev pub get : String → Fields → Json
get k fs = find_or null k fs

abbrev pub flag : String → Fields → Json
flag k fs = find_or (bool false) k fs

abbrev pub amount : String → Fields → Json
amount k fs = find_or (num (pos 0)) k fs

abbrev pub concat : List String → String
concat [] = ""
concat (s ∷ rest) = String.◌++◌ s (concat rest)

abbrev keys_of : Fields → List Json
keys_of end = []
keys_of (field k v fs) = str k ∷ keys_of fs

abbrev chars_of : String → List Json
chars_of String.[] = []
chars_of (String.◌∷◌ c s) = str (String.◌∷◌ c "") ∷ chars_of s

-- What `for x in v` runs over: a dict gives its keys, a text its characters.
unfoldable pub iterate : Json → Result PyError (List Json)
iterate (arr xs) = ok (item_list xs)
iterate (obj fs) = ok (keys_of fs)
iterate (str s) = ok (chars_of s)
iterate _ = err type_error

-- `len(v or []) > 0`
unfoldable pub has_length : Json → Result PyError Bool
unfolding truthy
has_length null = ok false
has_length (bool b) = if b then err type_error else ok false
has_length (num n) = if truthy (num n) then err type_error else ok false
has_length v = ok (truthy v)

-- A dict whose keys are values: keys are equal by `==`.
abbrev pub Tags : Type 0
Tags = List (Json × Json)

abbrev put_tag : Json → Json → Tags → Tags
put_tag k v [] = (k, v) ∷ []
put_tag k v ((j, w) ∷ ts) = if json_eq j k then (j, v) ∷ ts else (j, w) ∷ put_tag k v ts

-- A list or a dict is no key.
abbrev hashable : Json → Result PyError Json
hashable (arr _) = err type_error
hashable (obj _) = err type_error
hashable v = ok v

abbrev has_both : Json → Result PyError Bool
has_both t = do first ← is_in (str "Key") t; if first then is_in (str "Value") t else ok false

abbrev add_tag : Json → Tags → Result PyError Tags
add_tag t done = do
  found ← index t "Key"
  k ← hashable found
  v ← index t "Value"
  ok (put_tag k v done)

unfoldable pub collect_tags : List Json → Tags → Result PyError Tags
unfolding index is_in json_eq
collect_tags [] done = ok done
collect_tags (t ∷ ts) done = do
  both ← has_both t
  done' ← if both then add_tag t done else ok done
  collect_tags ts done'

-- `_tags_from_aws`
unfoldable pub tags_from_aws : Json → Result PyError Tags
unfolding iterate collect_tags truthy
tags_from_aws tag_list =
    if not (truthy tag_list) then ok [] else (iterate tag_list >>= λ ts. collect_tags ts [])

-- A dict that is appended to `relationships`; its properties are empty.
pub record Link : Type 0 where
  pub from_resource_id : Json
  pub to_resource_id : Json
  pub relationship_type : String

-- What a branch of the loop binds, with the relationships that it appends.
pub record Row : Type 0 where
  pub resource_id : Json
  pub properties : Fields
  pub tags : Tags
  pub region : Json
  pub links : List Link

abbrev pub link : Json → String → Json → Link
link source kind target = record {
  from_resource_id = source;
  to_resource_id = target;
  relationship_type = kind;
}

-- A branch: the account and the item, which it takes for a dict.
abbrev pub Rule : Type 0
Rule = String → Fields → Result PyError Row

-- An item that is no dict: `item[…]` is a `TypeError`, `item.get(…)` an `AttributeError`, whichever
-- the branch does first.
unfoldable pub on_dict : PyError → (Fields → Result PyError Row) → Json → Result PyError Row
on_dict first rule (obj fs) = rule fs
on_dict first rule _ = err first
