-- ===== src/Compliance/Mapper/Score.antt =====
-- The score and the counts of a framework.
use native.Mathlib.Decide.{dec_le}
use compliance_engine.Common.{
  zero, suc, ap, ◌-◌, ℕ, ◌+◌, ◌*◌, ◌≤◌, ◌<◌, ◌≡◌, ◌↔◌, List, [], ◌∷◌, arith, length, refl,
}
use compliance_engine.Compliance.Mapper.{
  ControlAggregate, passed, failed, errored, not_assessed, manual, count_status, percent_hundredths,
  compute_score, Summary,
}

-- Every control has one of the five statuses.
count_status-total :
    (xs : List ControlAggregate)
    → count_status passed xs
        + count_status failed xs
        + count_status not_assessed xs
        + count_status manual xs
        + count_status errored xs
      ≡ length xs
unfolding count_status
count_status-total [] = refl
count_status-total (x ∷ xs) = ground (arith, count_status-total xs)

-- The score is the exact percentage, up to half a hundredth, and a half goes up.
percent-rounds :
    (part whole : ℕ)
    → 0 < whole
    → (2 * whole * percent_hundredths part whole ≤ 20000 * part + whole)
      × (20000 * part < 2 * whole * percent_hundredths part whole + whole)
unfolding percent_hundredths
percent-rounds part whole h = (grind arith, grind arith)

above : (w p s d : ℕ) → s ≡ 10001 + d → p ≤ w → 0 < w → 2 * w * s ≤ 20000 * p + w → ⊥
above w p s d e h pos k = omega (arith, ap (λ (t : ℕ). w * t) e)

below : (w s d : ℕ) → s + d ≡ 9999 → 0 < w → 20000 * w < 2 * w * s + w → ⊥
below w s d e pos k = omega (arith, ap (λ (t : ℕ). w * t) e)

percent-of-none : (part : ℕ) → percent_hundredths part 0 ≡ 0
unfolding percent_hundredths
percent-of-none part = refl

pub percent-le : (part whole : ℕ) → part ≤ whole → percent_hundredths part whole ≤ 10000
percent-le part zero h = omega (arith, percent-of-none part)
percent-le part (suc w) h = elim (dec_le (percent_hundredths part (suc w)) 10000) [
  | yes small ↦ small
  | no big ↦ absurd (
      above (suc w) part (percent_hundredths part (suc w)) (percent_hundredths part (suc w) - 10001)
        (omega arith) h (omega arith) (percent-rounds part (suc w) (omega arith)).0)
]

percent-full :
    (part whole : ℕ)
    → part ≤ whole
    → whole < 20000
    → percent_hundredths part whole ≡ 10000
    → part ≡ whole
unfolding percent_hundredths
percent-full part whole h b e = grind arith

percent-of-whole : (whole : ℕ) → 0 < whole → percent_hundredths whole whole ≡ 10000
percent-of-whole whole h = elim (dec_le 10000 (percent_hundredths whole whole)) [
  | yes big ↦ omega (arith, percent-le whole whole)
  | no small ↦ absurd (
      below whole (percent_hundredths whole whole) (9999 - percent_hundredths whole whole)
        (omega arith) h (percent-rounds whole whole h).1)
]

-- The five counts of a summary add up to its total, the total is the number of controls, and
-- the score is at most 100.00.
pub compute_score-Summary :
    (xs : List ControlAggregate)
    → let record_of : Summary = (compute_score xs).1 in
      (record_of.passes + record_of.fails + record_of.not_assessed_count + record_of.manual_count
          + record_of.errors
        ≡ record_of.total)
      × (record_of.total ≡ length xs)
      × ((compute_score xs).0 ≤ 10000)
unfolding compute_score
compute_score-Summary xs = (count_status-total xs, refl, percent-le _ _ (omega arith))

all_passed :
    (xs : List ControlAggregate)
    → count_status failed xs + count_status errored xs ≡ 0
    → count_status passed xs + count_status failed xs + count_status errored xs
      ≡ count_status passed xs
all_passed xs e = omega arith

-- With fewer than 20000 controls, of which some are assessed, the score is 100.00 exactly if
-- no control failed or errored.
pub compute_score-perfect :
    (xs : List ControlAggregate)
    → length xs < 20000
    → 0 < count_status passed xs + count_status failed xs + count_status errored xs
    → ((compute_score xs).0 ≡ 10000) ↔ (count_status failed xs + count_status errored xs ≡ 0)
unfolding compute_score
compute_score-perfect xs few some_assessed = (
  λ e. omega (
    arith,
    percent-full (count_status passed xs)
        (count_status passed xs + count_status failed xs + count_status errored xs) (omega arith)
        (omega (arith, count_status-total xs)) e,
  ),
  λ e. rw (all_passed xs e) (percent-of-whole (count_status passed xs) (omega arith)),
)

-- Where some control is assessed, the score is the percentage of the assessed controls that
-- passed, rounded to a hundredth, a half upwards.
pub compute_score-rounds :
    (xs : List ControlAggregate)
    → 0 < count_status passed xs + count_status failed xs + count_status errored xs
    → (2
          * (count_status passed xs + count_status failed xs + count_status errored xs)
          * (compute_score xs).0
        ≤ 20000 * count_status passed xs
          + (count_status passed xs + count_status failed xs + count_status errored xs))
      × (20000 * count_status passed xs
          < 2
              * (count_status passed xs + count_status failed xs + count_status errored xs)
              * (compute_score xs).0
            + (count_status passed xs + count_status failed xs + count_status errored xs))
unfolding compute_score
compute_score-rounds xs h = percent-rounds _ _ h
