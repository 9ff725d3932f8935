-- ===== src/Scans/Insights/Completeness.antt =====
-- What the completeness of an inventory says of the resources of the scan.
use compliance_engine.Common.{
  keep-congr, ℕ, ◌+◌, ◌-◌, String, Bool, true, false, not, ◌&&◌, List, [], ◌∷◌, ◌≡◌, refl, ap, ◌∙◌,
  str_eq, ◌==◌, keep, length, count, arith, length-keep,
}
use compliance_engine.Common.Groups.{group_by, has_group, has_group-group_by, sum_counts-group_by}
use compliance_engine.Compliance.Store.{text_le}
use compliance_engine.Compliance.Mapper.{percent_hundredths}
use compliance_engine.Scans.Rows.{World, Resource}
use compliance_engine.Scans.Inventory.{count_resources}
use compliance_engine.Scans.Insights.{inventory_completeness, resources_of}

length-keep-not :
    {A : Type 0} (p : A → Bool) (xs : List A)
    → length (keep p xs) + length (keep (λ x. not (p x)) xs) ≡ length xs
length-keep-not p [] = refl
length-keep-not p (x ∷ xs) = ground (arith, length-keep-not p xs)

not-not : (b : Bool) → not (not b) ≡ b
not-not true = refl
not-not false = refl

-- The test that no resource of the scan has a type.
abbrev pub lacks : ℕ → ℕ → World → String → Bool
lacks tenant_id scan_id w t =
    count (λ (r : Resource). str_eq r.resource_type t) (resources_of tenant_id scan_id w) == 0

module _ (tenant_id scan_id : ℕ) (w : World) where
  -- The completeness of an inventory counts each resource of the scan once, names as missing
  -- exactly the expected types that no resource of the scan has, and scores the share of the
  -- three expected types that is not missing.
  pub inventory_completeness-Lacks :
      let c = inventory_completeness tenant_id scan_id w in
      (c.resource_count ≡ count_resources tenant_id scan_id w)
      × (c.missing_types ≡ keep (lacks tenant_id scan_id w) c.expected_types)
      × (c.completeness_score ≡ percent_hundredths (3 - length c.missing_types) 3)
  unfolding inventory_completeness count_resources
  inventory_completeness-Lacks =
      let rows = resources_of tenant_id scan_id w in
      let collected = group_by text_le (λ (r : Resource). r.resource_type) rows in
      let expected = (inventory_completeness tenant_id scan_id w).expected_types in
      (
        sum_counts-group_by text_le (λ (r : Resource). r.resource_type) rows
            ∙ length-keep (λ (r : Resource). r.tenant_id == tenant_id && r.scan_id == scan_id)
                w.resources,
        keep-congr _ _
            (λ t.
              ap not (has_group-group_by text_le (λ (r : Resource). r.resource_type) t rows)
              ∙ not-not (lacks tenant_id scan_id w t))
            expected,
        ap (λ n. percent_hundredths n 3)
            (omega (arith, length-keep-not (λ t. has_group t collected) expected)),
      )
