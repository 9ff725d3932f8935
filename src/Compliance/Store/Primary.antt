-- ===== src/Compliance/Store/Primary.antt =====
-- What mapping a scan returns: the summary of the primary framework.
use compliance_engine.Common.{
  ap, err, ok, is_some, All, if◌then◌else◌, none, Option-cases, inr, Option, inl, ℕ, String, false,
  List, [], ◌∷◌, str_eq, ◌≡◌, refl, ◌∙◌,
}
use compliance_engine.Compliance.Mapper.{Summary}
use compliance_engine.Compliance.Store.{
  or_not_found, framework_not_found, customer_primary_framework, FrameworkSummary, map_all,
  map_scan, map_each, map_frameworks, Db, get_framework, map_framework,
}
use compliance_engine.Compliance.Store.Scan.{score_of}

module _ (tenant_id scan_id : ℕ) where
  map_each-primary :
      (fid : String) (primary : Option FrameworkSummary) (db : Db)
      → str_eq fid customer_primary_framework ≡ false
      → (map_each tenant_id scan_id fid primary db).0 ≡ primary
  unfolding map_each
  map_each-primary fid primary db h = elim (Option-cases (get_framework false fid db)) [
    | inl absent ↦ rw (absent, map_each)
    | inr (f, found) ↦ rw (found, map_each) (rw h)
  ]

  -- The summary of the primary framework is kept through the later rounds.
  map_frameworks-primary :
      (fids : List String) (primary : Option FrameworkSummary) (db : Db)
      → All (λ fid. str_eq fid customer_primary_framework ≡ false) fids
      → (map_frameworks tenant_id scan_id fids primary db).0 ≡ primary
  unfolding map_frameworks
  map_frameworks-primary [] primary db h = refl
  map_frameworks-primary (fid ∷ fids) primary db (h, hs) =
      map_frameworks-primary fids (map_each tenant_id scan_id fid primary db).0
        (map_each tenant_id scan_id fid primary db).1 hs
      ∙ map_each-primary fid primary db h

  -- The dict for a framework with this score.
  abbrev pub summary_of : String → ℕ × Summary → FrameworkSummary
  summary_of fid scored = record {
    framework_id = fid;
    scan_id = scan_id;
    score = scored.0;
    summary = scored.1;
  }

  -- What the round of the primary framework, which is the first, leaves for the end.
  first_round :
      (db : Db)
      → or_not_found tenant_id scan_id
          (map_each tenant_id scan_id customer_primary_framework none db).0
        ≡ (if is_some (get_framework false customer_primary_framework db)
            then ok (
                summary_of customer_primary_framework
                  (score_of tenant_id scan_id customer_primary_framework db))
            else err (framework_not_found customer_primary_framework))
  unfolding map_each map_framework score_of
  first_round db = elim (Option-cases (get_framework false customer_primary_framework db)) [
    | inl absent ↦ rw (absent, map_each)
    | inr (f, found) ↦ rw (found, map_each)
  ]

  -- Mapping a scan without a framework returns the summary of the customer's primary
  -- framework, from the findings before the mapping, if that framework is enabled, and
  -- raises `framework not found` otherwise.
  pub map_scan-result :
      (db : Db)
      → (map_scan tenant_id scan_id none db).0 ≡ (
          if is_some (get_framework false customer_primary_framework db)
          then ok (
              summary_of customer_primary_framework
                (score_of tenant_id scan_id customer_primary_framework db))
          else err (framework_not_found customer_primary_framework))
  unfolding map_scan map_all map_frameworks
  map_scan-result db =
      let (primary, db') = map_each tenant_id scan_id customer_primary_framework none db in
      ap (or_not_found tenant_id scan_id) (
        map_frameworks-primary
          ("cis_aws_v6" ∷ "nist_800_53_rev5_aws" ∷ "nist_800_53_rev5_azure" ∷ "soc2_aws"
            ∷ "soc2_azure" ∷ [])
          primary db' (refl, (refl, (refl, (refl, (refl, tt))))))
      ∙ first_round db
