-- ===== src/Findings/Priorities/Ranked.antt =====
-- `build_fix_priorities` lists the failing findings by their priority.
use compliance_engine.Common.{
  ℕ, zero, suc, ◌+◌, min, Bool, ◌≡◌, refl, ap, List, [], ◌∷◌, map, arith, take, length, count,
  String, length-keep,
}
use compliance_engine.Common.Sort.{IsSorted, sort_by-IsSorted, count-sort_by, length-sort_by}
use compliance_engine.Json.{Json}
use compliance_engine.Policy.Catalog.{PolicyDefinition}
use compliance_engine.Findings.Repository.{Finding, is_fail}
use compliance_engine.Findings.Priorities.{
  FixPriority, build_fix_priorities, number_from, ranked_fails, fails_of, goes_before, customer_key,
}
use compliance_engine.Findings.Priorities.Order.{key_le_total, key_le_trans}

-- `list(range(start, start + n))`
abbrev pub range_from : ℕ → ℕ → List ℕ
range_from start zero = []
range_from start (suc n) = start ∷ range_from (start + 1) n

length-take : {A : Type 0} (n : ℕ) (xs : List A) → length (take n xs) ≡ min n (length xs)
length-take zero xs = omega arith
length-take (suc n) [] = omega arith
length-take (suc n) (x ∷ xs) = omega (arith, length-take n xs)

abbrev pub ids : List Finding → List ℕ
ids = map (λ (f : Finding). f.id)

abbrev pub finding_ids : List FixPriority → List ℕ
finding_ids = map (λ (p : FixPriority). p.finding_id)

abbrev pub ranks : List FixPriority → List ℕ
ranks = map (λ (p : FixPriority). p.rank)

module _ (show : Json → String) (catalog : List PolicyDefinition) where
  number_from-ids :
      (start : ℕ) (fs : List Finding) → finding_ids (number_from show catalog start fs) ≡ ids fs
  unfolding number_from
  number_from-ids start [] = refl
  number_from-ids start (f ∷ fs) = ap (λ l. f.id ∷ l) (number_from-ids (start + 1) fs)

  number_from-ranks :
      (start : ℕ) (fs : List Finding)
      → ranks (number_from show catalog start fs) ≡ range_from start (length fs)
  unfolding number_from
  number_from-ranks start [] = refl
  number_from-ranks start (f ∷ fs) = ap (λ l. start ∷ l) (number_from-ranks (start + 1) fs)

  pub ranked_fails-IsSorted :
      (findings : List Finding)
      → IsSorted (goes_before show catalog) (ranked_fails show catalog findings)
  unfolding ranked_fails
  ranked_fails-IsSorted findings =
      sort_by-IsSorted (goes_before show catalog)
        (λ f g. key_le_total (customer_key show catalog f) (customer_key show catalog g))
        (λ f g h.
          key_le_trans (customer_key show catalog f) (customer_key show catalog g)
            (customer_key show catalog h))
        (fails_of findings)

  pub count-ranked_fails :
      (p : Finding → Bool) (findings : List Finding)
      → count p (ranked_fails show catalog findings) ≡ count p (fails_of findings)
  unfolding ranked_fails
  count-ranked_fails p findings = count-sort_by p (goes_before show catalog) (fails_of findings)

  length-ranked_fails :
      (findings : List Finding)
      → length (ranked_fails show catalog findings)
        ≡ count (λ (f : Finding). is_fail f.result) findings
  unfolding ranked_fails
  length-ranked_fails findings = omega (
    arith,
    length-sort_by (goes_before show catalog) (fails_of findings),
    length-keep (λ (f : Finding). is_fail f.result) findings,
  )

  pub build_fix_priorities-Ranked :
      (findings : List Finding) (limit : ℕ)
      → let out = build_fix_priorities show catalog findings limit in
        let ranked = ranked_fails show catalog findings in
        (finding_ids out ≡ ids (take limit ranked))
        × (ranks out
            ≡ range_from 1 (min limit (count (λ (f : Finding). is_fail f.result) findings)))
        × IsSorted (goes_before show catalog) ranked
        × ((p : Finding → Bool) → count p ranked ≡ count p (fails_of findings))
  unfolding build_fix_priorities
  build_fix_priorities-Ranked findings limit = (
    number_from-ids 1 (take limit (ranked_fails show catalog findings)),
    rw (← length-ranked_fails findings) (
        rw (← length-take limit (ranked_fails show catalog findings))
          (number_from-ranks 1 (take limit (ranked_fails show catalog findings)))),
    ranked_fails-IsSorted findings,
    λ p. count-ranked_fails p findings,
  )
