-- ===== src/Assets/Normalizer/Tests.antt =====
-- Files of the collector, and the theorem at one of them.
use compliance_engine.Common.{ℕ, String, ◌≡◌, refl, List, [], ◌∷◌, All, Result, ok, err, length}
use compliance_engine.Json.{
  Json, null, bool, str, arr, obj, nil, cons, Fields, index, get_or, find, find_or, end, PyError,
  key_error, attribute_error, type_error,
}
use compliance_engine.Assets.Values.{Link, dict, link, iterate}
use compliance_engine.Assets.Rules.Azure.{azure_virtual_machine, azure_managed_disk}
use compliance_engine.Assets.Normalizer.{
  false, Asset, Origin, normalize_bronze, normalize_items, parse_collected_at,
}
use compliance_engine.Assets.Normalizer.Rows.{normalize_bronze-Rows, IsCollected, IsDict, Attached}

abbrev shown : Json → String
shown v = "?"

abbrev clock : ℕ
clock = 7

abbrev from_iso : List ℕ → Result PyError ℕ
from_iso s = ok (length s)

abbrev origin : Origin
origin = record { tenant_id = 1; scan_id = 2; integration_id = 3; account_id = "sub" }

abbrev machine : Json
machine = obj (
    dict (
      ("id", str "vm1")
      ∷ ("vnet_id", str "net")
      ∷ ("network_security_group_ids", arr (cons (str "nsg") nil))
      ∷ []))

abbrev file : String → List (String × Json) → Fields
file t rest = dict (
    ("provider_type", str t)
    ∷ ("resource_type", str "compute.instance")
    ∷ ("collected_at", str "2024Z")
    ∷ rest)

abbrev machines : Fields
machines = file "azure_virtual_machine" (("items", arr (cons machine nil)) ∷ [])

abbrev made : Asset ℕ
made = record {
  tenant_id = 1;
  scan_id = 2;
  resource_id = str "vm1";
  resource_type = str "compute.instance";
  provider = "azure";
  provider_type = "azure_virtual_machine";
  integration_id = 3;
  account_id = "sub";
  region = null;
  properties = dict (
      ("name", null)
      ∷ ("resource_group", null)
      ∷ ("has_public_ip", bool false)
      ∷ ("os_disk_encrypted", null)
      ∷ ("provisioning_state", null)
      ∷ []);
  tags = [];
  collected_at = 10;
  first_seen_at = 10;
  last_seen_at = 10;
}

abbrev links : List Link
links = link (str "vm1") "member_of" (str "net") ∷ link (str "vm1") "protected_by" (str "nsg") ∷ []

machines_rows : normalize_bronze shown clock from_iso origin (obj machines) ≡ ok (made ∷ [], links)
unfolding normalize_bronze index get_or parse_collected_at iterate normalize_items
    azure_virtual_machine
machines_rows = refl

-- A provider type without a branch is skipped, whatever its items are.
unknown_type :
    normalize_bronze shown clock from_iso origin
      (obj (file "gcp_disk" (("items", arr (cons null nil)) ∷ [])))
    ≡ ok ([], [])
unfolding normalize_bronze index get_or parse_collected_at iterate
unknown_type = refl

-- One item without its identifier fails the file.
missing_id :
    normalize_bronze shown clock from_iso origin
      (obj (file "azure_managed_disk" (("items", arr (cons (obj end) nil)) ∷ [])))
    ≡ err (key_error "id")
unfolding normalize_bronze index get_or parse_collected_at iterate normalize_items
    azure_managed_disk
missing_id = refl

no_dict :
    normalize_bronze shown clock from_iso origin
      (obj (file "aws_iam_account" (("items", arr (cons (str "x") nil)) ∷ [])))
    ≡ err attribute_error
unfolding normalize_bronze index get_or parse_collected_at iterate normalize_items
no_dict = refl

normalize_bronze-Rows_example :
    (length (made ∷ []) ≡ 1)
    × All IsDict (machine ∷ [])
    × All (IsCollected origin "azure_virtual_machine") (made ∷ [])
    × Attached (made ∷ []) links
unfolding find find_or iterate
normalize_bronze-Rows_example =
    normalize_bronze-Rows shown clock from_iso origin machines "azure_virtual_machine"
      (machine ∷ []) (type_error, azure_virtual_machine shown) (made ∷ []) links refl refl refl
      machines_rows
