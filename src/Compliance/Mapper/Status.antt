-- ===== src/Compliance/Mapper/Status.antt =====
-- The status of a control against the findings of its policies.
use compliance_engine.Common.{
  zero, suc, suc, ◌⊎◌, ℕ, eq_iff, inr, inl, Bool-cases, ◌+◌, ◌≤◌, ◌<◌, ◌≡◌, ◌↔◌, ◌≢◌, List, [], ◌∷◌,
  map, arith, length, length-append, keep, ltb, Bool, true, false, ◌||◌, refl, String, str_eq,
}
use compliance_engine.Findings.Repository.{Verdict, is_fail}
use compliance_engine.Compliance.Mapper.{
  policies, aggregate_with, PolicyFinding, ByPolicy, findings_of, Control, passed, failed, manual,
  ControlAggregate, is_pass, is_error, is_nil, count_result, Tally, tally_policy, tally,
  any_findings, tally_status, empty_tally, aggregate_automated, aggregate_control,
}

count_result-total :
    (fs : List PolicyFinding)
    → count_result is_fail fs + count_result is_pass fs + count_result is_error fs ≡ length fs
unfolding count_result
count_result-total [] = refl
count_result-total (f ∷ fs) = ground (arith, count_result-total fs)

length-failing :
    (fs : List PolicyFinding)
    → length (map (λ (f : PolicyFinding). f.id) (keep (λ (f : PolicyFinding). is_fail f.result) fs))
      ≡ count_result is_fail fs
unfolding count_result
length-failing [] = refl
length-failing (f ∷ fs) = ground (arith, length-failing fs)

-- What one policy's findings do to the counters.
tally_policy-ids :
    (pid : String) (fs : List PolicyFinding) (t : Tally)
    → length (tally_policy pid fs t).finding_ids ≡ length t.finding_ids + count_result is_fail fs
unfolding tally_policy
tally_policy-ids pid fs t = omega (arith, length-append {0} t.finding_ids, length-failing fs)

-- What one policy's findings do to the counters.
pub record IsStep (fs : List PolicyFinding) (t u : Tally) : Type 0 where
  pub fails : u.fail_count ≡ t.fail_count + count_result is_fail fs
  pub passes : u.pass_count ≡ t.pass_count + count_result is_pass fs
  pub errors : u.has_error ≡ (t.has_error || ltb 0 (count_result is_error fs))

tally_policy-IsStep :
    (pid : String) (fs : List PolicyFinding) (t : Tally) → IsStep fs t (tally_policy pid fs t)
unfolding tally_policy
tally_policy-IsStep pid fs t = record { fails = refl; passes = refl; errors = refl }

tally-ids :
    (m : ByPolicy) (pids : List String) (t : Tally)
    → length (tally m pids t).finding_ids + t.fail_count
      ≡ length t.finding_ids + (tally m pids t).fail_count
unfolding tally
tally-ids m [] t = refl
tally-ids m (pid ∷ pids) t = omega (
  arith,
  tally-ids m pids (tally_policy pid (findings_of pid m) t),
  tally_policy-ids pid (findings_of pid m) t,
  tally_policy-IsStep pid (findings_of pid m) t,
)

-- The counters never fall, and an error is not forgotten.
pub record Grows (t u : Tally) : Type 0 where
  pub fails : t.fail_count ≤ u.fail_count
  pub passes : t.pass_count ≤ u.pass_count
  pub errors : t.has_error ≡ true → u.has_error ≡ true

IsStep-Grows : {fs : List PolicyFinding} {t u : Tally} → IsStep fs t u → Grows t u
IsStep-Grows s = record { fails = omega arith; passes = omega arith; errors = λ e. ground arith }

tally-Grows : (m : ByPolicy) (pids : List String) (t : Tally) → Grows t (tally m pids t)
unfolding tally
tally-Grows m [] t = record { fails = omega arith; passes = omega arith; errors = λ e. e }
tally-Grows m (pid ∷ pids) t =
    let s = IsStep-Grows (tally_policy-IsStep pid (findings_of pid m) t) in
    let g = tally-Grows m pids (tally_policy pid (findings_of pid m) t) in
    record { fails = omega arith; passes = omega arith; errors = λ e. g.errors (s.errors e) }

is_nil-length : (fs : List PolicyFinding) → is_nil fs ≡ false → 0 < length fs
is_nil-length [] h = cc
is_nil-length (f ∷ fs) h = omega arith

-- Findings with no failure and no error are passes.
tally-passes :
    (m : ByPolicy) (pids : List String) (t : Tally)
    → (tally m pids t).fail_count ≡ 0
    → (tally m pids t).has_error ≡ false
    → any_findings m pids ≡ true
    → t.pass_count < (tally m pids t).pass_count
unfolding tally any_findings
tally-passes m [] t f e h = cc
tally-passes m (pid ∷ pids) t f e h =
    let fs = findings_of pid m in
    let s = tally_policy-IsStep pid (findings_of pid m) t in
    let g = tally-Grows m pids (tally_policy pid (findings_of pid m) t) in
    elim (Bool-cases (is_nil (findings_of pid m))) [
      | inl empty ↦ omega (
        arith,
        s,
        tally-passes m pids (tally_policy pid (findings_of pid m) t) f e
            (rw (empty, any_findings) at h),
      )
      | inr some_found ↦ ground (
        arith,
        count_result-total (findings_of pid m),
        is_nil-length (findings_of pid m) some_found,
        g.errors,
        s,
      )
    ]

-- The status and the counts of a control that is mapped and not manual.
pub record IsJudged (a : ControlAggregate) : Type 0 where
  pub ids : length a.finding_ids ≡ a.fail_count
  pub fails : (a.status ≡ failed) ↔ (0 < a.fail_count)
  pub passes : (a.status ≢ passed) ⊎ (0 < a.pass_count)
  pub by_result : a.status ≢ manual

count_result-nil :
    (p : Verdict → Bool) (fs : List PolicyFinding) → is_nil fs ≡ true → count_result p fs ≡ 0
unfolding count_result
count_result-nil p [] h = refl
count_result-nil p (f ∷ fs) h = cc

-- Where there are no findings nothing fails.
tally-nothing :
    (m : ByPolicy) (pids : List String) (t : Tally)
    → any_findings m pids ≡ false
    → (tally m pids t).fail_count ≡ t.fail_count
unfolding tally any_findings
tally-nothing m [] t h = refl
tally-nothing m (pid ∷ pids) t h = ground (
  arith,
  tally-nothing m pids (tally_policy pid (findings_of pid m) t),
  count_result-nil is_fail (findings_of pid m),
  (tally_policy-IsStep pid (findings_of pid m) t).fails,
)

lt_or_zero : (n : ℕ) → (0 < n) ⊎ (n ≡ 0)
lt_or_zero zero = inr refl
lt_or_zero (suc n) = inl (omega arith)

aggregate_with-IsJudged :
    (c : Control) (found : Bool) (t : Tally)
    → length t.finding_ids ≡ t.fail_count
    → (found ≡ false → t.fail_count ≡ 0)
    → (t.fail_count ≡ 0 → t.has_error ≡ false → found ≡ true → 0 < t.pass_count)
    → IsJudged (
        aggregate_with c
          (tally_status found t)
          t.fail_count
          t.pass_count
          t.finding_ids
          (policies t.evidence))
unfolding tally_status
aggregate_with-IsJudged c found t ids none_failed some_passed = record {
  ids = ids;
  fails = (λ e. ground arith, λ e. ground arith);
  passes = elim (Bool-cases found) [
    | inl f ↦ elim (Bool-cases t.has_error) [
      | inl e ↦ inl (λ p. ground arith)
      | inr e ↦ elim (lt_or_zero t.fail_count) [
        | inl lt ↦ inl (λ p. ground arith)
        | inr z ↦ inr (some_passed z e f)
      ]
    ]
    | inr f ↦ inl (λ p. ground arith)
  ];
  by_result = λ e. ground arith;
}

aggregate_automated-IsJudged :
    (c : Control) (m : ByPolicy) (pids : List String) → IsJudged (aggregate_automated c m pids)
unfolding aggregate_automated
aggregate_automated-IsJudged c m [] = record {
  ids = refl;
  fails = (λ e. ground arith, λ e. absurd (omega arith));
  passes = inl (λ p. ground arith);
  by_result = λ e. ground arith;
}
aggregate_automated-IsJudged c m (pid ∷ pids) =
    aggregate_with-IsJudged c (any_findings m (pid ∷ pids)) (tally m (pid ∷ pids) empty_tally)
      (omega (arith, tally-ids m (pid ∷ pids) empty_tally))
      (tally-nothing m (pid ∷ pids) empty_tally) (tally-passes m (pid ∷ pids) empty_tally)

-- For a control that is not manual: as many findings are listed as failures are counted; the
-- status is failed exactly if a failure is counted; unless the status differs from passed, a
-- pass is counted; and the status is not manual.
pub aggregate_control-IsJudged :
    (c : Control) (m : ByPolicy) → c.assessment_type ≢ "manual" → IsJudged (aggregate_control c m)
unfolding aggregate_control
aggregate_control-IsJudged c m h = elim (Bool-cases (str_eq c.assessment_type "manual")) [
  | inl by_hand ↦ absurd (h ((eq_iff c.assessment_type "manual").0 by_hand))
  | inr automated ↦ rw automated (aggregate_automated-IsJudged c m c.mapped_policy_ids)
]
