-- ===== src/Findings/Priorities/TopRisks.antt =====
-- `build_risk_summary` names the worst finding of each policy, the worst policies first.
use compliance_engine.Common.Keyed.{Unseen, DistinctBy, DistinctBy-cons}
use mathlib.Core.Path.{subst}
use compliance_engine.Common.{
  ℕ, zero, suc, ◌+◌, ◌<◌, true, false, ◌≡◌, refl, sym, ap, List, [], ◌∷◌, map, arith, take, any,
  leb, String, Option, All, ◌⊎◌, inl, inr, Bool-cases, str_eq, if◌then◌else◌, eq_iff,
}
use compliance_engine.Common.Sort.{IsSorted, LeAll}
use compliance_engine.Json.{Json}
use compliance_engine.Policy.Catalog.{PolicyDefinition}
use compliance_engine.Findings.Repository.{Finding}
use compliance_engine.Findings.Priorities.{
  build_risk_summary, collect_top, top_risk, ranked_fails, goes_before, customer_key,
}
use compliance_engine.Findings.Priorities.Order.{key_le_total}
use compliance_engine.Findings.Priorities.Ranked.{ranked_fails-IsSorted}

-- The first finding of each policy that is not among the `seen`.
unfoldable pub firsts : List String → List Finding → List Finding
firsts seen [] = []
firsts seen (f ∷ fs) =
    let rest = firsts (f.policy_id ∷ seen) fs in
    let same = firsts seen fs in if any (str_eq f.policy_id) seen then same else f ∷ rest

abbrev pub DistinctPolicies : List Finding → Type 0
DistinctPolicies = DistinctBy (λ f. f.policy_id)

module _ (f : Finding) (fs : List Finding) (seen : List String) where
  firsts_met : any (str_eq f.policy_id) seen ≡ true → firsts seen (f ∷ fs) ≡ firsts seen fs
  unfolding firsts
  firsts_met met = rw met

  firsts_new :
      any (str_eq f.policy_id) seen ≡ false
      → firsts seen (f ∷ fs) ≡ f ∷ firsts (f.policy_id ∷ seen) fs
  unfolding firsts
  firsts_new new = rw new

firsts-Distinct :
    (seen : List String) (fs : List Finding)
    → Unseen (λ (f : Finding). f.policy_id) seen (firsts seen fs)
      × DistinctPolicies (firsts seen fs)
unfolding firsts
firsts-Distinct seen [] = (tt, tt)
firsts-Distinct seen (f ∷ fs) = elim (Bool-cases (any (str_eq f.policy_id) seen)) [
  | inl met ↦ rw met (firsts-Distinct seen fs)
  | inr new ↦ rw new (
      DistinctBy-cons (λ (g : Finding). g.policy_id) f seen (firsts (f.policy_id ∷ seen) fs) new
        (firsts-Distinct (f.policy_id ∷ seen) fs))
]

leb_at_end : (top_n n : ℕ) → top_n ≡ n + 1 → leb top_n (n + 1) ≡ true
leb_at_end top_n n e = ground arith

leb_before : (top_n n k : ℕ) → top_n ≡ n + suc (suc k) → leb top_n (n + 1) ≡ false
leb_before top_n n k e = ground arith

module _ (show : Json → String) (catalog : List PolicyDefinition) where
  -- Of the policy of `f` there is one that no order puts behind `f`.
  abbrev pub Represented : Finding → List Finding → Type 0
  Represented f [] = ⊥
  Represented f (g ∷ gs) =
      ((g.policy_id ≡ f.policy_id) × (goes_before show catalog g f ≡ true)) ⊎ Represented f gs

  abbrev Met : List String → List Finding → Finding → Type 0
  Met seen fs g = (any (str_eq g.policy_id) seen ≡ true) ⊎ Represented g fs

  before_refl : (f : Finding) → goes_before show catalog f f ≡ true
  before_refl f = elim (Bool-cases (goes_before show catalog f f)) [
    | inl yes_before ↦ yes_before
    | inr not_before ↦
        key_le_total (customer_key show catalog f) (customer_key show catalog f) not_before
  ]

  -- What is met by the list after `f` is met by the list with `f`.
  Met-cons :
      (f g : Finding) (seen : List String) (fs : List Finding)
      → goes_before show catalog f g ≡ true
      → Met (f.policy_id ∷ seen) fs g
      → Met seen (f ∷ fs) g
  Met-cons f g seen fs h (inr r) = inr (inr r)
  Met-cons f g seen fs h (inl e) = by_head (Bool-cases (str_eq g.policy_id f.policy_id))
    where
      by_head :
          (str_eq g.policy_id f.policy_id ≡ true) ⊎ (str_eq g.policy_id f.policy_id ≡ false)
          → Met seen (f ∷ fs) g
      by_head (inl same) = inr (inl (sym ((eq_iff g.policy_id f.policy_id).0 same), h))
      by_head (inr other) = inl (rw other at e)

  All-Met-cons :
      (f : Finding) (seen : List String) (fs rest : List Finding)
      → LeAll (goes_before show catalog) f rest
      → All (Met (f.policy_id ∷ seen) fs) rest
      → All (Met seen (f ∷ fs)) rest
  All-Met-cons f seen fs [] h k = tt
  All-Met-cons f seen fs (g ∷ rest) (h, hs) (k, ks) =
      (Met-cons f g seen fs h k, All-Met-cons f seen fs rest hs ks)

  firsts-Met :
      (seen : List String) (fs : List Finding)
      → IsSorted (goes_before show catalog) fs
      → All (Met seen (firsts seen fs)) fs
  firsts-Met seen [] h = tt
  firsts-Met seen (f ∷ fs) (h, hs) = elim (Bool-cases (any (str_eq f.policy_id) seen)) [
    | inl met ↦
        subst (λ out. All (Met seen out) (f ∷ fs)) (sym (firsts_met f fs seen met))
          (inl met, firsts-Met seen fs hs)
    | inr new ↦
        subst (λ out. All (Met seen out) (f ∷ fs)) (sym (firsts_new f fs seen new))
          (
            inr (inl (refl, before_refl f)),
            All-Met-cons f seen (firsts (f.policy_id ∷ seen) fs) fs h
                (firsts-Met (f.policy_id ∷ seen) fs hs),
          )
  ]

  Met-Represented :
      (fs rest : List Finding) → All (Met [] fs) rest → All (λ f. Represented f fs) rest
  Met-Represented fs [] h = tt
  Met-Represented fs (f ∷ rest) (inl e, hs) = cc
  Met-Represented fs (f ∷ rest) (inr r, hs) = (r, Met-Represented fs rest hs)

  collect_top-firsts :
      (top_n n k : ℕ) (seen : List String) (fs : List Finding)
      → top_n ≡ n + suc k
      → collect_top show catalog top_n n seen fs
        ≡ map (top_risk show catalog) (take (suc k) (firsts seen fs))
  unfolding collect_top firsts
  collect_top-firsts top_n n k seen [] e = refl
  collect_top-firsts top_n n zero seen (f ∷ fs) e =
      elim (Bool-cases (any (str_eq f.policy_id) seen)) [
        | inl met ↦ rw met (collect_top-firsts top_n n zero seen fs e)
        | inr new ↦ rw (new, leb_at_end top_n n e) refl
      ]
  collect_top-firsts top_n n (suc k) seen (f ∷ fs) e =
      elim (Bool-cases (any (str_eq f.policy_id) seen)) [
        | inl met ↦ rw met (collect_top-firsts top_n n (suc k) seen fs e)
        | inr new ↦
            rw (new, leb_before top_n n k e)
              (ap (λ l. top_risk show catalog f ∷ l)
                (collect_top-firsts top_n (n + 1) k (f.policy_id ∷ seen) fs (omega arith)))
      ]

  -- For a number of risks above zero, the risk summary names, worst first and as many as
  -- asked for, the first of the ranked failing findings of each policy; no two of those
  -- first ones have one policy; and every failing finding is represented among them by one
  -- of its policy that the order puts no later.
  pub build_risk_summary-TopRisks :
      (findings : List Finding) (score : Option ℕ) (top_n : ℕ) (total : Option ℕ)
      → 0 < top_n
      → let ranked = ranked_fails show catalog findings in
        ((build_risk_summary show catalog findings score top_n total).top_risks
          ≡ map (top_risk show catalog) (take top_n (firsts [] ranked)))
        × DistinctPolicies (firsts [] ranked)
        × All (λ f. Represented f (firsts [] ranked)) ranked
  unfolding build_risk_summary
  build_risk_summary-TopRisks findings score zero total h = elim h [ ]
  build_risk_summary-TopRisks findings score (suc n) total h =
      let ranked = ranked_fails show catalog findings in
      (
        collect_top-firsts (suc n) 0 n [] ranked (omega arith),
        (firsts-Distinct [] ranked).1,
        Met-Represented (firsts [] ranked) ranked
            (firsts-Met [] ranked (ranked_fails-IsSorted show catalog findings)),
      )
