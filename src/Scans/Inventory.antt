-- ===== src/Scans/Inventory.antt =====
-- The resources and relationships of a scan: src/platform_backend/assets/ingest/writer.py and
-- assets/repositories/resources.py.
use Prim.Native.String.{compare}
use Prim.Native.Nat.{Ordering}
use compliance_engine.Common.{
  ℕ, ◌+◌, Bool, true, false, ◌&&◌, none, some, List, [], ◌∷◌, ◌++◌, map, str_eq, ◌==◌,
  if◌then◌else◌, keep, count, take, drop, any,
}
use compliance_engine.Common.Sort.{sort_by}
use compliance_engine.Scans.Rows.{Resource, Relationship, World}
use compliance_engine.Json.{Json, null, str, obj, field, end}

abbrev pub same_resource : Resource → Resource → Bool
same_resource a b =
    a.tenant_id == b.tenant_id && a.scan_id == b.scan_id && str_eq a.resource_id b.resource_id

abbrev pub same_relationship : Relationship → Relationship → Bool
same_relationship a b =
    a.tenant_id == b.tenant_id
    && a.scan_id == b.scan_id
    && str_eq a.from_resource_id b.from_resource_id
    && str_eq a.to_resource_id b.to_resource_id
    && str_eq a.relationship_type b.relationship_type

-- `INSERT … ON CONFLICT DO NOTHING` of one row after the other, with the number that went in.
unfoldable pub insert_new : {A : Type 0} → (A → A → Bool) → List A → List A → ℕ × List A
insert_new same [] rows = (0, rows)
insert_new same (x ∷ xs) rows =
    let present = any (λ r. same r x) rows in
    let (inserted, rows') = insert_new same xs (if present then rows else rows ++ x ∷ []) in
    (if present then inserted else inserted + 1, rows')

unfoldable pub insert_resources : List Resource → World → World
unfolding insert_new
insert_resources xs w = record w { resources = (insert_new same_resource xs w.resources).1 }

unfoldable pub insert_relationships : List Relationship → World → World
unfolding insert_new
insert_relationships xs w = record w {
  relationships = (insert_new same_relationship xs w.relationships).1;
}

unfoldable pub count_resources : ℕ → ℕ → World → ℕ
count_resources tenant_id scan_id w =
    count (λ (r : Resource). r.tenant_id == tenant_id && r.scan_id == scan_id) w.resources

-- `_public`, which JSON sees as a dict; times are left out.
unfoldable pub public_asset : Resource → Json
public_asset r = obj (
    field "resource_id" (str r.resource_id) (
      field "resource_type" (str r.resource_type) (
        field "provider" (str r.provider) (
          field "provider_type" (str r.provider_type) (
            field "account_id" (str r.account_id) (
              field "region" (elim r.region [ none ↦ null | some s ↦ str s ])
                (field "properties" r.properties (field "tags" r.tags end))))))))

abbrev pub resource_le : Resource → Resource → Bool
resource_le r s = elim (compare r.resource_type s.resource_type) [
  | Ordering.lt ↦ true
  | Ordering.gt ↦ false
  | Ordering.eq ↦ elim (compare r.resource_id s.resource_id) [ Ordering.gt ↦ false | _ ↦ true ]
]

-- `list(tenant_id, scan_id, limit=limit, offset=offset)`
unfoldable pub list_assets : ℕ → ℕ → ℕ → ℕ → World → List Json
unfolding sort_by public_asset
list_assets tenant_id scan_id limit offset w = map public_asset (
    take limit (
      drop offset (
        sort_by resource_le
          (keep (λ (r : Resource). r.tenant_id == tenant_id && r.scan_id == scan_id) w.resources))))
