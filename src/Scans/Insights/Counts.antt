-- ===== src/Scans/Insights/Counts.antt =====
-- What the coverage of the policies says of the findings of the scan.
use compliance_engine.Common.{
  ℕ, ◌≤◌, String, Bool, true, false, not, ◌&&◌, Option, none, some, List, [], ◌∷◌, ◌≡◌, refl, ap,
  ◌∙◌, str_eq, eq_iff, ◌==◌, if◌then◌else◌, keep, count, any, arith, All, All-append, Bool-cases,
  inl, inr, count-keep, count_mono,
}
use compliance_engine.Common.Groups.{any-group_keys}
use compliance_engine.Compliance.Store.{text_le}
use compliance_engine.Findings.Repository.{Finding, Verdict, fail, pass, error}
use compliance_engine.Findings.Queries.{in_scan, count_by_result, groups_by_result}
use compliance_engine.Scans.Rows.{World}
use compliance_engine.Scans.Insights.{
  PolicyRow, rows_of_policy, rows_of_policies, groups_of, policies_of, policy_rows, policy_is,
  same_verdict, policy_coverage,
}
use compliance_engine.Scans.Insights.Coverage.{
  is_row, any-append, any-groups, groups-agree, find_count-collect, find_count, find_result,
}

module _ (tenant_id scan_id : ℕ) (findings : List Finding) (p : String) (v : Verdict) where
  -- The findings of the scan under the policy and with the verdict.
  abbrev of_policy : ℕ
  of_policy =
      count (λ f. in_scan tenant_id scan_id f && same_verdict f.result v)
        (keep (policy_is p) findings)

  any-rows_of_policies :
      (ps : List String)
      → any (is_row p v) (rows_of_policies tenant_id scan_id findings ps)
        ≡ (any (str_eq p) ps && not (of_policy == 0))
  unfolding rows_of_policies count_by_result
  any-rows_of_policies [] = refl
  any-rows_of_policies (q ∷ ps) =
      any-append (is_row p v) (rows_of_policy q (groups_of tenant_id scan_id findings q))
        (rows_of_policies tenant_id scan_id findings ps)
      ∙ rw
          (
            any-groups p v q (λ w.
                count (λ f. in_scan tenant_id scan_id f && same_verdict f.result w)
                  (keep (policy_is q) findings)),
            any-rows_of_policies ps,
          )
          (elim (Bool-cases (str_eq q p)) [
            | inl hit ↦ rw ((eq_iff q p).0 hit) (ground (arith, eq_iff p p))
            | inr miss ↦ ground (arith, miss, eq_iff q p, eq_iff p q)
          ])

  rows_of_policies-agree :
      (ps : List String)
      → All
          (λ (r : PolicyRow). is_row p v r ≡ true → r.2 ≡ of_policy)
          (rows_of_policies tenant_id scan_id findings ps)
  unfolding rows_of_policies count_by_result
  rows_of_policies-agree [] = tt
  rows_of_policies-agree (q ∷ ps) =
      All-append _ (rows_of_policy q (groups_of tenant_id scan_id findings q))
        (rows_of_policies tenant_id scan_id findings ps)
        (groups-agree p v q of_policy
          (λ w.
            count (λ f. in_scan tenant_id scan_id f && same_verdict f.result w)
              (keep (policy_is q) findings))
          (λ same. rw ((eq_iff q p).0 same) refl))
        (rows_of_policies-agree ps)

  -- A policy with such findings is a key of the groups.
  of_policy-key :
      (any (str_eq p) (policies_of tenant_id scan_id findings) && not (of_policy == 0))
      ≡ not (of_policy == 0)
  of_policy-key =
      rw
        (any-group_keys text_le (λ (f : Finding). f.policy_id) p
          (keep (in_scan tenant_id scan_id) findings))
        (ground (arith, of_policy-le))
    where
      of_policy-le : of_policy ≤ count (policy_is p) (keep (in_scan tenant_id scan_id) findings)
      of_policy-le =
          rw
            (
              count-keep (λ f. in_scan tenant_id scan_id f && same_verdict f.result v) (policy_is p)
                  findings,
              count-keep (policy_is p) (in_scan tenant_id scan_id) findings,
            )
            (count_mono _ _ (λ f both. ground (arith, both)) findings)

-- The findings of a scan with a verdict, and those of them under a policy.
abbrev pub with_verdict : ℕ → ℕ → Verdict → Finding → Bool
with_verdict tenant_id scan_id v f = in_scan tenant_id scan_id f && same_verdict f.result v

abbrev pub given_count : ℕ → Option ℕ
given_count n = if n == 0 then none else some n

if_not : {A : Type 0} (b : Bool) (x y : A) → (if not b then x else y) ≡ (if b then y else x)
if_not true x y = refl
if_not false x y = refl

find_result-groups :
    (v : Verdict) (f : Verdict → ℕ) → find_result v (groups_by_result f) ≡ given_count (f v)
find_result-groups fail f = ground arith
find_result-groups pass f = ground arith
find_result-groups error f = ground arith

module _ (tenant_id scan_id : ℕ) (w : World) where
  -- In the coverage of a scan, the dict of the policies has under a policy and a result the
  -- number of the scan's findings with both, and the dict of the results has under a result
  -- the number of the scan's findings with it; neither has an entry where that number is
  -- zero.
  pub policy_coverage-Counts :
      (p : String) (v : Verdict)
      → let c = policy_coverage tenant_id scan_id w in
        let findings : List Finding = w.compliance.findings in
        (find_count p v c.by_policy
          ≡ given_count (count (λ f. policy_is p f && with_verdict tenant_id scan_id v f) findings))
        × (find_result v c.by_result
            ≡ given_count (count (with_verdict tenant_id scan_id v) findings))
  unfolding policy_coverage count_by_result
  policy_coverage-Counts p v =
      let findings : List Finding = w.compliance.findings in
      let n = of_policy tenant_id scan_id findings p v in
      (
        find_count-collect p v n (policy_rows tenant_id scan_id findings) [] (
              rows_of_policies-agree tenant_id scan_id findings p v
                (policies_of tenant_id scan_id findings))
            ∙ rw
                (
                  any-rows_of_policies tenant_id scan_id findings p v
                      (policies_of tenant_id scan_id findings),
                  of_policy-key tenant_id scan_id findings p v,
                )
                (if_not (n == 0) (some n) none)
            ∙ ap given_count (count-keep (with_verdict tenant_id scan_id v) (policy_is p) findings),
        find_result-groups v (λ u. count (with_verdict tenant_id scan_id u) findings),
      )
