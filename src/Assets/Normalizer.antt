-- ===== src/Assets/Normalizer.antt =====
-- src/platform_backend/assets/ingest/normalizer.py: `normalize_bronze`. `show` is `str` of a value
-- that is no text, `from_iso` is `datetime.fromisoformat`, on the code points of a text, and `now` the
-- time of the clock.
pub mod Links
pub mod Rows
mod Tests
use compliance_engine.Common.{
  ℕ, String, Bool, true, false, not, Option, none, some, List, [], ◌∷◌, ◌++◌, str_eq, if◌then◌else◌,
  Result, ok, err, ◌>>=◌, ◌==◌,
}
use compliance_engine.Common.Text.{codes, has_prefix}
use compliance_engine.Json.{
  Json, null, str, arr, nil, Fields, PyError, attribute_error, index, get_or, truthy,
}
use compliance_engine.Assets.Values.{Row, Rule, Link, Tags, iterate, on_dict}
use compliance_engine.Assets.Rules.{Branch, branches}

-- A dict that is appended to `resources`.
pub record Asset (Time : Type 0) : Type 0 where
  pub tenant_id : ℕ
  pub scan_id : ℕ
  pub resource_id : Json
  pub resource_type : Json
  pub provider : String
  pub provider_type : String
  pub integration_id : ℕ
  pub account_id : String
  pub region : Json
  pub properties : Fields
  pub tags : Tags
  pub collected_at : Time
  pub first_seen_at : Time
  pub last_seen_at : Time

-- The arguments of `normalize_bronze` beside the file.
pub record Origin : Type 0 where
  pub tenant_id : ℕ
  pub scan_id : ℕ
  pub integration_id : ℕ
  pub account_id : String

-- `_cloud_provider`
unfoldable pub cloud_provider : String → String
unfolding has_prefix
cloud_provider provider_type =
    if has_prefix (codes provider_type) (codes "azure_") then "azure" else "aws"

-- `_append_resource`, which is never given a provider
unfoldable pub asset : {Time : Type 0} → Origin → Json → String → Time → Row → Asset Time
unfolding cloud_provider
asset origin resource_type provider_type collected_at row = record {
  tenant_id = origin.tenant_id;
  scan_id = origin.scan_id;
  resource_id = row.resource_id;
  resource_type = resource_type;
  provider = cloud_provider provider_type;
  provider_type = provider_type;
  integration_id = origin.integration_id;
  account_id = origin.account_id;
  region = row.region;
  properties = row.properties;
  tags = row.tags;
  collected_at = collected_at;
  first_seen_at = collected_at;
  last_seen_at = collected_at;
}

abbrev pub Normalized : Type 0 → Type 0
Normalized Time = List (Asset Time) × List Link

abbrev pub branch_in : String → List (String × Branch) → Option Branch
branch_in t [] = none
branch_in t ((s, b) ∷ bs) = if str_eq s t then some b else branch_in t bs

abbrev run_branch : String → Json → Branch → Result PyError Row
run_branch account_id item (first, rule) = on_dict first (rule account_id) item

-- `value.replace("Z", "+00:00")`
abbrev replace_z : List ℕ → List ℕ
replace_z [] = []
replace_z (c ∷ s) = if c == b'Z' then codes "+00:00" ++ replace_z s else c ∷ replace_z s

module _ {Time : Type 0} (show : Json → String) (now : Time)
    (from_iso : List ℕ → Result PyError Time) where
  -- `_parse_collected_at`
  unfoldable pub parse_collected_at : Json → Result PyError Time
  unfolding truthy
  parse_collected_at (str s) = if truthy (str s) then from_iso (replace_z (codes s)) else ok now
  parse_collected_at value = if truthy value then err attribute_error else ok now

  -- The loop, for a provider type that has a branch.
  unfoldable pub normalize_items :
      Origin → Json → String → Time → Branch → List Json → Result PyError (Normalized Time)
  unfolding on_dict asset
  normalize_items origin resource_type provider_type at branch [] = ok ([], [])
  normalize_items origin resource_type provider_type at branch (item ∷ items) = do
    row ← run_branch origin.account_id item branch
    (assets, links) ← normalize_items origin resource_type provider_type at branch items
    ok (asset origin resource_type provider_type at row ∷ assets, row.links ++ links)

  -- Any other value than a text equals no provider type, and `continue` skips every item.
  abbrev pub normalize_typed :
      Origin → Json → Json → Time → List Json → Result PyError (Normalized Time)
  normalize_typed origin resource_type (str t) at items = elim (branch_in t (branches show)) [
    | none ↦ ok ([], [])
    | some branch ↦ normalize_items origin resource_type t at branch items
  ]
  normalize_typed origin resource_type _ at items = ok ([], [])

  unfoldable pub normalize_bronze : Origin → Json → Result PyError (Normalized Time)
  normalize_bronze origin bronze = do
    provider_type ← index bronze "provider_type"
    resource_type ← index bronze "resource_type"
    value ← get_or null bronze "collected_at"
    collected_at ← parse_collected_at value
    found ← get_or (arr nil) bronze "items"
    items ← iterate found
    normalize_typed origin resource_type provider_type collected_at items
