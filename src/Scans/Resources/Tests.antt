-- ===== src/Scans/Resources/Tests.antt =====
-- Searches over four resources of two scans, and the theorem at them.
use compliance_engine.Common.{
  ◌≤◌, ℕ, arith, String, Bool, ◌≡◌, refl, Option, none, some, [], ◌∷◌, ◌++◌, map, keep, length,
}
use compliance_engine.Common.Text.{contains, codes}
use compliance_engine.Common.Sort.{sort_by}
use compliance_engine.Json.{Json, end, obj, field, str, null}
use compliance_engine.Scans.Rows.{World, Resource}
use compliance_engine.Scans.Inventory.{public_asset, resource_le, count_resources}
use compliance_engine.Scans.Resources.{
  AssetFilter, search, list_resources, get_resource, list_relationships,
}
use compliance_engine.Scans.Resources.Pages.{search-Pages, fits, of_type}

abbrev resource : ℕ → String → String → Json → Resource
resource scan_id resource_id resource_type tags = record {
  tenant_id = 1;
  scan_id = scan_id;
  resource_id = resource_id;
  resource_type = resource_type;
  provider = "aws";
  provider_type = "aws.any";
  integration_id = 3;
  account_id = "1";
  region = none;
  properties = null;
  tags = tags;
}

abbrev tagged : Json
tagged = obj (field "env" (str "prod") end)

abbrev world : World
world = record {
  fresh = 9;
  integrations = [];
  scans = [];
  runs = [];
  events = [];
  resources =
      resource 2 "b-2" "storage.bucket" tagged
      ∷ resource 2 "i-1" "compute.instance" tagged
      ∷ resource 3 "b-1" "storage.bucket" tagged
      ∷ resource 2 "b-1" "storage.bucket" null
      ∷ [];
  relationships =
      record {
        tenant_id = 1;
        scan_id = 2;
        from_resource_id = "i-1";
        to_resource_id = "b-1";
        relationship_type = "reads";
        properties = null;
      }
      ∷ [];
  evaluation_runs = [];
  compliance = record {
    frameworks = [];
    controls = [];
    findings = [];
    control_results = [];
    scan_scores = [];
  };
  aws_queue = [];
  azure_queue = [];
  policy_queue = [];
}

-- `ILIKE` without regard for case or wildcards, and a text for every jsonb value.
abbrev has : String → String → Bool
has s t = contains (codes s) (codes t)

abbrev shown : Json → String
shown v = "{}"

abbrev tag_filter : AssetFilter
tag_filter = record {
  q = some "-";
  resource_type = none;
  tag_key = some "env";
  tag_value = some "prod";
}

by_tag :
    search has shown 1 2 tag_filter 10 0 world
    ≡ map public_asset
        (resource 2 "i-1" "compute.instance" tagged ∷ resource 2 "b-2" "storage.bucket" tagged ∷ [])
unfolding search contains compliance_engine.Scans.Resources.tag_is
by_tag = refl

second_bucket :
    list_resources 1 2 (some "storage.bucket") 1 1 world
    ≡ map public_asset (resource 2 "b-2" "storage.bucket" tagged ∷ [])
unfolding list_resources
second_bucket = refl

-- An empty type is no type.
of_all_types : length (list_resources 1 2 (some "") 10 0 world) ≡ 3
unfolding list_resources
of_all_types = refl

of_other_scan : get_resource 1 3 "i-1" world ≡ none
unfolding get_resource
of_other_scan = refl

incoming : list_relationships 1 2 "b-1" world ≡ world.relationships
unfolding list_relationships
incoming = refl

at_most_four : count_resources 1 2 world ≤ 4
unfolding count_resources
at_most_four = omega arith

search-Pages_example :
    (search has shown 1 2 tag_filter 1 0 world ++ search has shown 1 2 tag_filter 2 1 world
      ≡ search has shown 1 2 tag_filter 3 0 world)
    × (search has shown 1 2 tag_filter 4 0 world
        ≡ map public_asset
            (sort_by resource_le (keep (fits has shown 1 2 tag_filter) world.resources)))
    × ((resource_type : Option String)
        → list_resources 1 2 resource_type 1 0 world
          ≡ search has shown 1 2 (of_type resource_type) 1 0 world)
search-Pages_example = search-Pages has shown 1 2 world tag_filter 1 2 0 4 at_most_four
