-- ===== src/Findings/Repository/Counts.antt =====
-- The evaluation of a scan over assets as the asset repository returns them: it never raises, and
-- it is a plain double loop of upserts.
use compliance_engine.Common.{
  ℕ, ◌+◌, String, Bool, false, some, List, [], ◌∷◌, ◌≡◌, refl, ◌∙◌, ap, arith, Result, ok, err, All,
  All-keep, keep, count, length, length-keep,
}
use compliance_engine.Json.{Json, obj, str, Fields, PyError, find, index}
use compliance_engine.Policy.Catalog.{PolicyDefinition, matches_asset}
use compliance_engine.Findings.Repository.{
  Table, Progress, Step, count_outcome, is_fail, upsert_finding, matching, text_at, evaluate_asset,
  written, record_outcome, evaluate_assets, evaluate_matched, evaluate_policies, evaluate_scan,
}

-- A dict with the two texts that every row of assets.resources has.
pub record IsAsset (a : Json) : Type 0 where
  pub node : Fields
  pub is_dict : a ≡ obj node
  pub resource_id : String
  pub resource_type : String
  pub has_id : find "resource_id" node ≡ some (str resource_id)
  pub has_type : find "resource_type" node ≡ some (str resource_type)

abbrev pub or_false : Result PyError Bool → Bool
or_false (ok b) = b
or_false (err e) = false

abbrev pub or_empty : Result PyError String → String
or_empty (ok s) = s
or_empty (err e) = ""

unfoldable pub matches : PolicyDefinition → Json → Bool
matches p a = or_false (matches_asset p a)

unfoldable pub id_of : Json → String
id_of a = or_empty (text_at a "resource_id")

unfoldable pub type_of : Json → String
type_of a = or_empty (text_at a "resource_type")

matches_asset-dict :
    (p : PolicyDefinition) (node : Fields) → matches_asset p (obj node) ≡ ok (matches p (obj node))
unfolding matches_asset matches
matches_asset-dict p node = ground arith

matching-eq-keep :
    (p : PolicyDefinition) (assets : List Json)
    → All IsAsset assets
    → matching p assets ≡ ok (keep (matches p) assets)
unfolding matching
matching-eq-keep p [] h = refl
matching-eq-keep p (a ∷ assets) (h, hs) =
    rw (h.is_dict, matches_asset-dict p h.node, matching-eq-keep p assets hs) (ground arith)

index-found :
    (node : Fields) (k : String) (v : Json) → find k node ≡ some v → index (obj node) k ≡ ok v
unfolding index find
index-found node k v h = ground arith

text_at-id : {a : Json} → (h : IsAsset a) → text_at a "resource_id" ≡ ok (id_of a)
unfolding text_at id_of
text_at-id h = rw (h.is_dict, index-found h.node "resource_id" _ h.has_id)

text_at-type : {a : Json} → (h : IsAsset a) → text_at a "resource_type" ≡ ok (type_of a)
unfolding text_at type_of
text_at-type h = rw (h.is_dict, index-found h.node "resource_type" _ h.has_type)

module _ (describe : PyError → String) (tenant_id scan_id : ℕ) where
  -- One upsert.
  unfoldable pub write : PolicyDefinition → Json → Table → Table
  write p a = upsert_finding tenant_id scan_id p (id_of a) (type_of a) (evaluate_asset describe p a)

  -- The upserts of one policy, over the assets that it matches.
  unfoldable pub writes : PolicyDefinition → List Json → Table → Table
  unfolding write
  writes p [] t = t
  writes p (a ∷ xs) t = writes p xs (write p a t)

  unfoldable pub write_all : List Json → List PolicyDefinition → Table → Table
  unfolding writes
  write_all assets [] t = t
  write_all assets (p ∷ ps) t = write_all assets ps (writes p (keep (matches p) assets) t)

  unfoldable pub fails : PolicyDefinition → Json → Bool
  fails p a = is_fail (evaluate_asset describe p a).result

  unfoldable pub matched_total : List Json → List PolicyDefinition → ℕ
  matched_total assets [] = 0
  matched_total assets (p ∷ ps) = count (matches p) assets + matched_total assets ps

  unfoldable pub fail_total : List Json → List PolicyDefinition → ℕ
  unfolding fails
  fail_total assets [] = 0
  fail_total assets (p ∷ ps) = count (fails p) (keep (matches p) assets) + fail_total assets ps

  written-IsAsset :
      (p : PolicyDefinition) (a : Json) (t : Table)
      → IsAsset a
      → written describe tenant_id scan_id p a (evaluate_asset describe p a) t ≡ ok (write p a t)
  unfolding written write
  written-IsAsset p a t h = rw (text_at-id h, text_at-type h)

  record_outcome-IsAsset :
      (p : PolicyDefinition) (a : Json) (s : Progress)
      → IsAsset a
      → record_outcome describe tenant_id scan_id p a (evaluate_asset describe p a) s
        ≡ count_outcome (evaluate_asset describe p a) s (ok (write p a s.table))
  unfolding record_outcome
  record_outcome-IsAsset p a s h =
      ap (count_outcome (evaluate_asset describe p a) s) (written-IsAsset p a s.table h)

  -- The state after the loops over `n` assets, of which `m` fail.
  abbrev advanced : ℕ → ℕ → ℕ → Table → Progress → Step
  advanced r n m t s = (
    ok tt,
    record {
      policies_run = s.policies_run + r;
      findings_count = s.findings_count + n;
      fail_count = s.fail_count + m;
      table = t;
    },
  )

  evaluate_assets-IsAsset :
      (p : PolicyDefinition) (xs : List Json) (s : Progress)
      → All IsAsset xs
      → evaluate_assets describe tenant_id scan_id p xs s
        ≡ advanced 0 (length xs) (count (fails p) xs) (writes p xs s.table) s
  unfolding evaluate_assets writes fails
  evaluate_assets-IsAsset p [] s h = ground arith
  evaluate_assets-IsAsset p (a ∷ xs) s (h, hs) =
      rw (record_outcome-IsAsset p a s h, evaluate_assets-IsAsset p xs _ hs) (ground arith)

  evaluate_policies-IsAsset :
      (assets : List Json) (ps : List PolicyDefinition) (s : Progress)
      → All IsAsset assets
      → evaluate_policies describe tenant_id scan_id assets ps s
        ≡ advanced
            (length ps)
            (matched_total assets ps)
            (fail_total assets ps)
            (write_all assets ps s.table)
            s
  unfolding evaluate_policies evaluate_matched write_all matched_total fail_total
  evaluate_policies-IsAsset assets [] s h = ground arith
  evaluate_policies-IsAsset assets (p ∷ ps) s h =
      rw
        (
          matching-eq-keep p assets h,
          evaluate_assets-IsAsset p (keep (matches p) assets) _
              (All-keep IsAsset (matches p) assets h),
          evaluate_policies-IsAsset assets ps _ h,
        )
        (ground (arith, length-keep (matches p) assets))

  -- Over assets as the repository returns them the evaluation of a scan does not raise: it
  -- equals a plain double loop of upserts, and it reports as many policies as there are, as
  -- many findings as there are matching pairs, and as many failures as pairs whose
  -- evaluation fails.
  pub evaluate_scan-IsAsset :
      (assets : List Json) (ps : List PolicyDefinition) (t : Table)
      → All IsAsset assets
      → evaluate_scan describe tenant_id scan_id assets ps t ≡ (
        ok tt,
        record {
          policies_run = length ps;
          findings_count = matched_total assets ps;
          fail_count = fail_total assets ps;
          table = write_all assets ps t;
        },
      )
  unfolding evaluate_scan
  evaluate_scan-IsAsset assets ps t h = evaluate_policies-IsAsset assets ps _ h ∙ ground arith
