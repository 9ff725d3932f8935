-- ===== src/Compliance/Store/Scan.antt =====
-- What mapping a scan writes: a score for every enabled framework of the scan, from the findings as
-- they were before.
use compliance_engine.Common.{
  none, Option-cases, Has, inr, Option, inl, Bool-cases, ℕ, String, Bool, true, false, ◌&&◌, some,
  List, [], ◌∷◌, str_eq, eq_iff, ◌==◌, ◌≡◌, ◌≢◌, refl, ◌∙◌, arith,
}
use compliance_engine.Common.Rows.{find_by, upsert_by, find_by-upsert_by_self, find_by-upsert_by_ne}
use compliance_engine.Compliance.Mapper.{ControlAggregate, compute_score, Summary}
use compliance_engine.Compliance.Store.{
  scan_framework_ids, FrameworkSummary, Framework, map_all, map_scan, map_each, map_frameworks,
  aggregates_of, ScanScore, Db, get_framework, list_controls, get_findings_by_policy, same_score,
  upsert_control_result, upsert_scan_score, store_results, map_framework,
}

-- The tables that the mapping only reads.
pub record SameInputs (a b : Db) : Type 0 where
  pub frameworks : b.frameworks ≡ a.frameworks
  pub controls : b.controls ≡ a.controls
  pub findings : b.findings ≡ a.findings

SameInputs-refl : (a : Db) → SameInputs a a
SameInputs-refl a = record { frameworks = refl; controls = refl; findings = refl }

SameInputs-trans : {a b c : Db} → SameInputs a b → SameInputs b c → SameInputs a c
SameInputs-trans h k = record {
  frameworks = k.frameworks ∙ h.frameworks;
  controls = k.controls ∙ h.controls;
  findings = k.findings ∙ h.findings;
}

module _ (tenant_id scan_id : ℕ) where
  -- The query for the score of a framework.
  abbrev pub is_score : String → ScanScore → Bool
  is_score fid r = r.tenant_id == tenant_id && r.scan_id == scan_id && str_eq r.framework_id fid

  -- The score that the findings of the scan give.
  unfoldable pub score_of : String → Db → ℕ × Summary
  score_of fid db = compute_score (aggregates_of tenant_id scan_id fid db)

  abbrev pub score_row : String → ℕ × Summary → ScanScore
  score_row fid scored = record {
    tenant_id = tenant_id;
    scan_id = scan_id;
    framework_id = fid;
    score = scored.0;
    summary = scored.1;
  }

  store_results-SameInputs :
      (aggregates : List ControlAggregate) (db : Db)
      → SameInputs db (store_results tenant_id scan_id aggregates db)
        × ((store_results tenant_id scan_id aggregates db).scan_scores ≡ db.scan_scores)
  unfolding store_results upsert_control_result
  store_results-SameInputs [] db = (SameInputs-refl db, refl)
  store_results-SameInputs (a ∷ aggregates) db =
      let (h, e) =
        store_results-SameInputs aggregates (upsert_control_result tenant_id scan_id a db) in
      (record { frameworks = h.frameworks; controls = h.controls; findings = h.findings }, e)

  map_framework-SameInputs :
      (fid : String) (db : Db) → SameInputs db (map_framework tenant_id scan_id fid db).1
  unfolding map_framework upsert_scan_score
  map_framework-SameInputs fid db =
      let h = (store_results-SameInputs (aggregates_of tenant_id scan_id fid db) db).0 in
      record { frameworks = h.frameworks; controls = h.controls; findings = h.findings }

  score_of-SameInputs : (fid : String) (a b : Db) → SameInputs a b → score_of fid b ≡ score_of fid a
  unfolding score_of aggregates_of get_findings_by_policy list_controls
  score_of-SameInputs fid a b h = rw (h.controls, h.findings)

  get_framework-SameInputs :
      (fid : String) (a b : Db)
      → SameInputs a b
      → get_framework false fid b ≡ get_framework false fid a
  unfolding get_framework
  get_framework-SameInputs fid a b h = rw h.frameworks

  scan_scores-map_framework :
      (fid : String) (db : Db)
      → (map_framework tenant_id scan_id fid db).1.scan_scores
        ≡ upsert_by same_score (score_row fid (score_of fid db)) db.scan_scores
  unfolding map_framework upsert_scan_score score_of
  scan_scores-map_framework fid db =
      rw (store_results-SameInputs (aggregates_of tenant_id scan_id fid db) db).1

  is_score_self : (fid : String) (scored : ℕ × Summary) → is_score fid (score_row fid scored) ≡ true
  is_score_self fid scored = ground (arith, eq_iff fid fid)

  find-map_framework_self :
      (fid : String) (db : Db)
      → find_by (is_score fid) (map_framework tenant_id scan_id fid db).1.scan_scores
        ≡ some (score_row fid (score_of fid db))
  find-map_framework_self fid db = rw (scan_scores-map_framework fid db) (
      find_by-upsert_by_self (is_score fid) same_score _ db.scan_scores
        (is_score_self fid (score_of fid db)) (λ r. refl))

  find-map_framework_ne :
      (fid other : String) (db : Db)
      → fid ≢ other
      → find_by (is_score other) (map_framework tenant_id scan_id fid db).1.scan_scores
        ≡ find_by (is_score other) db.scan_scores
  find-map_framework_ne fid other db h = rw (scan_scores-map_framework fid db) (
      find_by-upsert_by_ne (is_score other) same_score _ db.scan_scores
        (ground (arith, eq_iff fid other))
        (λ r k.
          ground (arith, eq_iff fid other, eq_iff r.framework_id fid, eq_iff r.framework_id other)))

  map_each-SameInputs :
      (fid : String) (primary : Option FrameworkSummary) (db : Db)
      → SameInputs db (map_each tenant_id scan_id fid primary db).1
  unfolding map_each
  map_each-SameInputs fid primary db = elim (Option-cases (get_framework false fid db)) [
    | inl absent ↦ rw (absent, map_each) (SameInputs-refl db)
    | inr (f, found) ↦ rw (found, map_each) (map_framework-SameInputs fid db)
  ]

  map_frameworks-SameInputs :
      (fids : List String) (primary : Option FrameworkSummary) (db : Db)
      → SameInputs db (map_frameworks tenant_id scan_id fids primary db).1
  unfolding map_frameworks
  map_frameworks-SameInputs [] primary db = SameInputs-refl db
  map_frameworks-SameInputs (fid ∷ fids) primary db =
      SameInputs-trans (map_each-SameInputs fid primary db) (
        map_frameworks-SameInputs fids (map_each tenant_id scan_id fid primary db).0
          (map_each tenant_id scan_id fid primary db).1)

  -- The framework `other` has the score that the findings of `origin` give.
  abbrev IsScored : Db → String → Db → Type 0
  IsScored origin other db =
      find_by (is_score other) db.scan_scores ≡ some (score_row other (score_of other origin))

  map_framework-IsScored :
      (origin db : Db) (fid other : String)
      → SameInputs origin db
      → (fid ≢ other → IsScored origin other db)
      → IsScored origin other (map_framework tenant_id scan_id fid db).1
  map_framework-IsScored origin db fid other same before = elim (Bool-cases (str_eq fid other)) [
    | inl hit ↦
        let e = (eq_iff fid other).0 hit in
        rw (e, find-map_framework_self other db, score_of-SameInputs other origin db same)
    | inr miss ↦
        let apart : fid ≢ other = λ e. cc ((eq_iff fid other).1 e) in
        find-map_framework_ne fid other db apart ∙ before apart
  ]

  map_each-IsScored :
      (origin db : Db) (fid other : String) (primary : Option FrameworkSummary)
      → SameInputs origin db
      → IsScored origin other db
      → IsScored origin other (map_each tenant_id scan_id fid primary db).1
  unfolding map_each
  map_each-IsScored origin db fid other primary same h =
      elim (Option-cases (get_framework false fid db)) [
        | inl absent ↦ rw (absent, map_each) h
        | inr (f, found) ↦
            rw (found, map_each) (map_framework-IsScored origin db fid other same (λ _. h))
      ]

  map_frameworks-IsScored :
      (origin : Db) (fids : List String) (other : String) (primary : Option FrameworkSummary)
      (db : Db)
      → SameInputs origin db
      → IsScored origin other db
      → IsScored origin other (map_frameworks tenant_id scan_id fids primary db).1
  unfolding map_frameworks
  map_frameworks-IsScored origin [] other primary db same h = h
  map_frameworks-IsScored origin (fid ∷ fids) other primary db same h =
      map_frameworks-IsScored origin fids other (map_each tenant_id scan_id fid primary db).0
        (map_each tenant_id scan_id fid primary db).1
        (SameInputs-trans same (map_each-SameInputs fid primary db))
        (map_each-IsScored origin db fid other primary same h)

  map_each-scores :
      (origin db : Db) (fid : String) (f : Framework) (primary : Option FrameworkSummary)
      → SameInputs origin db
      → get_framework false fid origin ≡ some f
      → IsScored origin fid (map_each tenant_id scan_id fid primary db).1
  unfolding map_each
  map_each-scores origin db fid f primary same enabled =
      let found : get_framework false fid db ≡ some f =
        get_framework-SameInputs fid origin db same ∙ enabled in
      rw (found, map_each)
        (map_framework-IsScored origin db fid fid same (λ apart. absurd (apart refl)))

  map_frameworks-scores :
      (origin : Db) (fids : List String) (fid : String) (f : Framework)
      (primary : Option FrameworkSummary) (db : Db)
      → SameInputs origin db
      → get_framework false fid origin ≡ some f
      → Has fid fids
      → IsScored origin fid (map_frameworks tenant_id scan_id fids primary db).1
  unfolding map_frameworks
  map_frameworks-scores origin [] fid f primary db same enabled m = absurd m
  map_frameworks-scores origin (g ∷ fids) fid f primary db same enabled (inr m) =
      map_frameworks-scores origin fids fid f (map_each tenant_id scan_id g primary db).0
        (map_each tenant_id scan_id g primary db).1
        (SameInputs-trans same (map_each-SameInputs g primary db)) enabled m
  map_frameworks-scores origin (g ∷ fids) fid f primary db same enabled (inl e) =
      map_frameworks-IsScored origin fids fid (map_each tenant_id scan_id g primary db).0
        (map_each tenant_id scan_id g primary db).1
        (SameInputs-trans same (map_each-SameInputs g primary db))
        (rw e (map_each-scores origin db fid f primary same enabled))

  -- The mapping leaves the tables that it reads as they were.
  pub map_scan-SameInputs : (db : Db) → SameInputs db (map_scan tenant_id scan_id none db).1
  unfolding map_scan map_all
  map_scan-SameInputs db = map_frameworks-SameInputs scan_framework_ids none db

  -- After mapping a scan without a framework, every enabled framework among those of a scan
  -- has the score and the counts that the findings of the scan give before the mapping: what
  -- one framework writes does not change another's.
  pub map_scan-scores :
      (db : Db) (fid : String) (f : Framework)
      → Has fid scan_framework_ids
      → get_framework false fid db ≡ some f
      → find_by (is_score fid) (map_scan tenant_id scan_id none db).1.scan_scores
        ≡ some (score_row fid (score_of fid db))
  unfolding map_scan map_all
  map_scan-scores db fid f m enabled =
      map_frameworks-scores db scan_framework_ids fid f none db (SameInputs-refl db) enabled m
