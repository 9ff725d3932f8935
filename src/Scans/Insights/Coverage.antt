-- ===== src/Scans/Insights/Coverage.antt =====
-- Lookups in the dict that `policy_coverage` makes of the groups.
use compliance_engine.Common.{
  ℕ, String, Bool, true, false, not, ◌&&◌, ◌||◌, Option, none, some, List, [], ◌∷◌, ◌++◌, ◌≡◌, refl,
  sym, ap, ◌∙◌, str_eq, eq_iff, ◌==◌, if◌then◌else◌, any, arith, All, Bool-cases, if_again, if_swap,
  inl, inr,
}
use compliance_engine.Findings.Repository.{Verdict, fail, pass, error}
use compliance_engine.Findings.Queries.{groups_by_result, add_group}
use compliance_engine.Scans.Insights.{
  PolicyRow, rows_of_policy, PolicyCounts, same_verdict, set_result, add_policy_row,
  collect_policies,
}

-- `by_policy.get(p, {}).get(v)`
abbrev pub find_result : Verdict → List (Verdict × ℕ) → Option ℕ
find_result v [] = none
find_result v ((w, n) ∷ d) = if same_verdict w v then some n else find_result v d

abbrev pub find_count : String → Verdict → PolicyCounts → Option ℕ
find_count p v [] = none
find_count p v ((q, d) ∷ by_policy) =
    if str_eq q p then find_result v d else find_count p v by_policy

abbrev pub is_row : String → Verdict → PolicyRow → Bool
is_row p v (q, w, n) = str_eq q p && same_verdict w v

-- The verdicts have different texts.
same_verdict_self : (v : Verdict) → same_verdict v v ≡ true
same_verdict_self fail = refl
same_verdict_self pass = refl
same_verdict_self error = refl

same_verdict-≡ : (v w : Verdict) → same_verdict v w ≡ true → v ≡ w
same_verdict-≡ fail fail h = refl
same_verdict-≡ pass pass h = refl
same_verdict-≡ error error h = refl
same_verdict-≡ fail pass h = cc
same_verdict-≡ fail error h = cc
same_verdict-≡ pass fail h = cc
same_verdict-≡ pass error h = cc
same_verdict-≡ error fail h = cc
same_verdict-≡ error pass h = cc

same_verdict_sym : (v w : Verdict) → same_verdict v w ≡ same_verdict w v
same_verdict_sym fail fail = refl
same_verdict_sym fail pass = refl
same_verdict_sym fail error = refl
same_verdict_sym pass fail = refl
same_verdict_sym pass pass = refl
same_verdict_sym pass error = refl
same_verdict_sym error fail = refl
same_verdict_sym error pass = refl
same_verdict_sym error error = refl

module _ {A : Type 0} where
  if_nested :
      (b c : Bool) (x y z : A)
      → (if b then (if c then x else y) else z) ≡ (if b && c then x else (if b then y else z))
  if_nested true c x y z = refl
  if_nested false c x y z = refl

  if_either :
      (b c : Bool) (n m : A) (o : Option A)
      → (c ≡ true → m ≡ n)
      → (if b then some n else (if c then some m else o)) ≡ (if c || b then some n else o)
  if_either true true n m o h = refl
  if_either true false n m o h = refl
  if_either false true n m o h = ap some (h refl)
  if_either false false n m o h = refl

if_same : {A : Type 0} (b : Bool) (x : A) → (if b then x else x) ≡ x
if_same true x = refl
if_same false x = refl

pub find_result-set_result :
    (v w : Verdict) (n : ℕ) (d : List (Verdict × ℕ))
    → find_result v (set_result w n d) ≡ (if same_verdict w v then some n else find_result v d)
unfolding set_result
find_result-set_result v w n [] = refl
find_result-set_result v w n ((u, m) ∷ d) = elim (Bool-cases (same_verdict u w)) [
  | inl hit ↦
      rw (same_verdict-≡ u w hit, same_verdict_self w)
        (if_again (same_verdict w v) (some n) (some m) (find_result v d))
  | inr miss ↦
      rw (miss, find_result-set_result v w n d)
        (if_swap (same_verdict u v) (same_verdict w v) (some m) (some n) (find_result v d)
          (λ h. rw (sym (same_verdict-≡ u v h)) (same_verdict_sym w u ∙ miss)))
]

find_count-add_policy_row :
    (p : String) (v : Verdict) (q : String) (w : Verdict) (n : ℕ) (d : PolicyCounts)
    → find_count p v (add_policy_row (q, w, n) d)
      ≡ (if str_eq q p && same_verdict w v then some n else find_count p v d)
unfolding add_policy_row
find_count-add_policy_row p v q w n [] =
    if_nested (str_eq q p) (same_verdict w v) (some n) none none
    ∙ ap (λ o. if str_eq q p && same_verdict w v then some n else o) (if_same (str_eq q p) none)
find_count-add_policy_row p v q w n ((r, e) ∷ d) = elim (Bool-cases (str_eq r q)) [
  | inl hit ↦ rw hit (
      rw ((eq_iff r q).0 hit, find_result-set_result v w n e)
        (if_nested (str_eq q p) (same_verdict w v) (some n) (find_result v e) (find_count p v d)))
  | inr miss ↦
      rw (miss, find_count-add_policy_row p v q w n d)
        (if_swap (str_eq r p) (str_eq q p && same_verdict w v) (find_result v e) (some n)
          (find_count p v d) (λ h. ground (arith, h, miss, eq_iff r p, eq_iff q p, eq_iff r q)))
]

-- Where the rows of a policy and a verdict all have one count, the dict has it.
pub find_count-collect :
    (p : String) (v : Verdict) (n : ℕ) (rows : List PolicyRow) (d : PolicyCounts)
    → All (λ (r : PolicyRow). is_row p v r ≡ true → r.2 ≡ n) rows
    → find_count p v (collect_policies rows d)
      ≡ (if any (is_row p v) rows then some n else find_count p v d)
unfolding collect_policies
find_count-collect p v n [] d h = refl
find_count-collect p v n ((q, w, m) ∷ rows) d (h, hs) =
    find_count-collect p v n rows (add_policy_row (q, w, m) d) hs
    ∙ ap (λ o. if any (is_row p v) rows then some n else o) (find_count-add_policy_row p v q w m d)
    ∙ if_either (any (is_row p v) rows) (is_row p v (q, w, m)) n m (find_count p v d) h

pub any-append :
    {A : Type 0} (p : A → Bool) (xs ys : List A) → any p (xs ++ ys) ≡ (any p xs || any p ys)
any-append p [] ys = refl
any-append p (x ∷ xs) ys = ground (arith, any-append p xs ys)

choose_verdict :
    (b : Bool) (z : Verdict → Bool) (v : Verdict)
    → (z fail && (b && same_verdict fail v)
        || (z pass && (b && same_verdict pass v)
            || (z error && (b && same_verdict error v) || false)))
      ≡ (b && z v)
choose_verdict b z fail = ground arith
choose_verdict b z pass = ground arith
choose_verdict b z error = ground arith

and_both : (a b : Bool) → (a && b) ≡ true → (a ≡ true) × (b ≡ true)
and_both true b h = (refl, h)
and_both false b h = cc

module _ (p : String) (v : Verdict) (q : String) where
  any-add_group :
      (w : Verdict) (n : ℕ) (g : List (Verdict × ℕ))
      → any (is_row p v) (rows_of_policy q (add_group w n g)) ≡ (
          not (n == 0) && (str_eq q p && same_verdict w v) || any (is_row p v) (rows_of_policy q g))
  any-add_group w n g = elim (Bool-cases (n == 0)) [
    | inl none_there ↦ rw none_there refl
    | inr there ↦ rw there refl
  ]

  pub any-groups :
      (f : Verdict → ℕ)
      → any (is_row p v) (rows_of_policy q (groups_by_result f)) ≡ (str_eq q p && not (f v == 0))
  any-groups f =
      any-add_group fail (f fail) _
      ∙ ap (λ b. not (f fail == 0) && (str_eq q p && same_verdict fail v) || b)
          (any-add_group pass (f pass) _
            ∙ ap (λ b. not (f pass == 0) && (str_eq q p && same_verdict pass v) || b)
                (any-add_group error (f error) []))
      ∙ choose_verdict (str_eq q p) (λ w. not (f w == 0)) v

  add_group-agrees :
      (k : ℕ) (w : Verdict) (n : ℕ) (g : List (Verdict × ℕ))
      → (is_row p v (q, w, n) ≡ true → n ≡ k)
      → All (λ (r : PolicyRow). is_row p v r ≡ true → r.2 ≡ k) (rows_of_policy q g)
      → All (λ (r : PolicyRow). is_row p v r ≡ true → r.2 ≡ k) (rows_of_policy q (add_group w n g))
  add_group-agrees k w n g h hs = elim (Bool-cases (n == 0)) [
    | inl none_there ↦ rw none_there hs
    | inr there ↦ rw there (h, hs)
  ]

  pub groups-agree :
      (k : ℕ) (f : Verdict → ℕ)
      → (str_eq q p ≡ true → f v ≡ k)
      → All
          (λ (r : PolicyRow). is_row p v r ≡ true → r.2 ≡ k)
          (rows_of_policy q (groups_by_result f))
  groups-agree k f h = add_group-agrees k fail (f fail) _ (agrees fail) (
      add_group-agrees k pass (f pass) _ (agrees pass)
        (add_group-agrees k error (f error) [] (agrees error) tt))
    where
      agrees : (w : Verdict) → is_row p v (q, w, f w) ≡ true → f w ≡ k
      agrees w is =
          let (same_policy, same) = and_both (str_eq q p) (same_verdict w v) is in
          rw (same_verdict-≡ w v same) (h same_policy)
