-- ===== src/Scans/Resources.antt =====
-- The queries that read resources: `AssetRepository` of
-- src/platform_backend/assets/repositories/resources.py. The operator `ILIKE` with the pattern
-- `%q%` and the text of a jsonb value are the database's, `contains_text` and `jsonb_text`.
pub mod Pages
mod Tests
use Prim.Native.String.{compare}
use Prim.Native.Nat.{Ordering}
use compliance_engine.Common.{
  ℕ, String, Bool, true, false, ◌&&◌, ◌||◌, Option, none, some, List, [], ◌∷◌, map, str_eq, ◌==◌,
  keep, take, drop, any,
}
use compliance_engine.Common.Sort.{sort_by}
use compliance_engine.Common.Rows.{find_by}
use compliance_engine.Json.{Json, null, str, arr, obj, find, item_list, is_str}
use compliance_engine.Policy.Catalog.{given}
use compliance_engine.Compliance.Store.{text_le}
use compliance_engine.Scans.Rows.{Resource, Relationship, World}
use compliance_engine.Scans.Inventory.{public_asset, resource_le, list_assets}

abbrev pub of_scan : ℕ → ℕ → Resource → Bool
of_scan tenant_id scan_id r = r.tenant_id == tenant_id && r.scan_id == scan_id

-- `list` for a type that is not empty.
unfoldable pub list_of_type : ℕ → ℕ → String → ℕ → ℕ → World → List Json
unfolding sort_by public_asset
list_of_type tenant_id scan_id resource_type limit offset w = map public_asset (
    take limit (
      drop offset (
        sort_by (λ (r s : Resource). text_le r.resource_id s.resource_id)
          (keep
            (λ (r : Resource). of_scan tenant_id scan_id r && str_eq r.resource_type resource_type)
            w.resources))))

abbrev pub list_given : ℕ → ℕ → Option String → ℕ → ℕ → World → List Json
list_given tenant_id scan_id none = list_assets tenant_id scan_id
list_given tenant_id scan_id (some t) = list_of_type tenant_id scan_id t

unfoldable pub list_resources : ℕ → ℕ → Option String → ℕ → ℕ → World → List Json
unfolding list_of_type list_assets
list_resources tenant_id scan_id resource_type = list_given tenant_id scan_id (given resource_type)

-- `get`
unfoldable pub get_resource : ℕ → ℕ → String → World → Option Json
unfolding find_by public_asset
get_resource tenant_id scan_id resource_id w =
    elim (find_by (λ r. of_scan tenant_id scan_id r && str_eq r.resource_id resource_id)
      w.resources) [ none ↦ none | some r ↦ some (public_asset r) ]

unfoldable pub list_relationships : ℕ → ℕ → String → World → List Relationship
unfolding sort_by
list_relationships tenant_id scan_id resource_id w =
    sort_by (λ (a b : Relationship). text_le a.relationship_type b.relationship_type)
      (keep
        (λ (r : Relationship).
          r.tenant_id == tenant_id
          && r.scan_id == scan_id
          && (str_eq r.from_resource_id resource_id || str_eq r.to_resource_id resource_id))
        w.relationships)

-- The arguments with defaults of `search`.
pub record AssetFilter : Type 0 where
  pub q : Option String
  pub resource_type : Option String
  pub tag_key : Option String
  pub tag_value : Option String

-- `tags ? key`
abbrev pub has_tag : Json → String → Bool
unfolding find
has_tag (obj fs) key = elim (find key fs) [ none ↦ false | some _ ↦ true ]
has_tag (arr xs) key = any (is_str key) (item_list xs)
has_tag v key = is_str key v

module _ (contains_text : String → String → Bool) (jsonb_text : Json → String) where
  -- `tags ->> key = value`, for the text that `->>` gives of the value, which is NULL for null
  abbrev pub value_is : String → Json → Bool
  value_is value null = false
  value_is value (str s) = str_eq s value
  value_is value v = str_eq (jsonb_text v) value

  abbrev pub tag_is : Json → String → String → Bool
  unfolding find
  tag_is (obj fs) key value = elim (find key fs) [ none ↦ false | some v ↦ value_is value v ]
  tag_is _ key value = false

  abbrev pub meets_q : Option String → Resource → Bool
  meets_q q r = elim (given q) [
    | none ↦ true
    | some t ↦
        contains_text r.resource_id t
        || contains_text (jsonb_text r.properties) t
        || contains_text (jsonb_text r.tags) t
  ]

  abbrev pub meets_tag : Option String → Option String → Resource → Bool
  meets_tag tag_key tag_value r = elim (given tag_key) [
    | none ↦ true
    | some k ↦ elim tag_value [ none ↦ has_tag r.tags k | some v ↦ tag_is r.tags k v ]
  ]

  abbrev pub meets_type : Option String → Resource → Bool
  meets_type resource_type r = elim (given resource_type) [
    | none ↦ true
    | some t ↦ str_eq r.resource_type t
  ]

  abbrev pub meets : AssetFilter → Resource → Bool
  meets f r = meets_q f.q r && meets_type f.resource_type r && meets_tag f.tag_key f.tag_value r

  unfoldable pub search : ℕ → ℕ → AssetFilter → ℕ → ℕ → World → List Json
  unfolding sort_by public_asset
  search tenant_id scan_id f limit offset w = map public_asset (
      take limit (
        drop offset
          (sort_by resource_le (keep (λ r. of_scan tenant_id scan_id r && meets f r) w.resources))))
