-- ===== src/Common/Groups.antt =====
-- `SELECT key, COUNT(*) … GROUP BY key ORDER BY key` on a list of rows.
use Prim.Native.Nat.{ℕ, ◌+◌}
use Prim.Native.String.{String}
use mathlib.Core.Path.{◌≡◌, refl, ap, ◌∙◌}
use mathlib.Core.Logic.{inl, inr}
use mathlib.Core.Bool.{Bool, true, false, not, ◌||◌}
use mathlib.Core.List.{List, [], ◌∷◌, map}
use native.Mathlib.Omega.{arith}
use text.Mathlib.Text.{◌==◌ as str_eq}
use text.Mathlib.TextEquality.{eq_iff}
use compliance_engine.Common.Tests.{if◌then◌else◌, Bool-cases, ◌==◌}
use compliance_engine.Common.Lists.{length, count, any, All}
use compliance_engine.Common.Sort.{sort_by, count-sort_by}

-- The elements of a set of texts, each once.
unfoldable pub each_once : List String → List String
each_once [] = []
each_once (x ∷ xs) = let rest = each_once xs in if any (str_eq x) rest then rest else x ∷ rest

-- `sum(groups.values())`
abbrev pub sum_counts : List (String × ℕ) → ℕ
sum_counts [] = 0
sum_counts ((k, n) ∷ groups) = n + sum_counts groups

-- `k in groups`
abbrev pub has_group : String → List (String × ℕ) → Bool
has_group k groups = any (λ (g : String × ℕ). str_eq k g.0) groups

pub any-count : {A : Type 0} (p : A → Bool) (xs : List A) → any p xs ≡ not (count p xs == 0)
any-count p [] = refl
any-count p (x ∷ xs) = ground (arith, any-count p xs)

count-each_once :
    (k : String) (xs : List String)
    → count (str_eq k) (each_once xs) ≡ (if any (str_eq k) xs then 1 else 0)
unfolding each_once
count-each_once k [] = refl
count-each_once k (x ∷ xs) = elim (Bool-cases (str_eq k x)) [
  | inl same ↦
      rw ((eq_iff k x).0 same)
        (ground (arith, eq_iff x x, any-count (str_eq x) (each_once xs), count-each_once x xs))
  | inr apart ↦ ground (arith, apart, count-each_once k xs)
]

module _ {A : Type 0} (le : String → String → Bool) (key : A → String) where
  abbrev groups_at : List String → List A → List (String × ℕ)
  groups_at ks rows = map (λ k. (k, count (λ r. str_eq (key r) k) rows)) ks

  -- The keys of the groups.
  unfoldable pub group_keys : List A → List String
  unfolding sort_by each_once
  group_keys rows = sort_by le (each_once (map key rows))

  unfoldable pub group_by : List A → List (String × ℕ)
  unfolding group_keys
  group_by rows = groups_at (group_keys rows) rows

  sum_counts-none : (ks : List String) → sum_counts (groups_at ks []) ≡ 0
  sum_counts-none [] = refl
  sum_counts-none (k ∷ ks) = omega (arith, sum_counts-none ks)

  sum_counts-cons :
      (ks : List String) (r : A) (rows : List A)
      → sum_counts (groups_at ks (r ∷ rows))
        ≡ count (str_eq (key r)) ks + sum_counts (groups_at ks rows)
  sum_counts-cons [] r rows = refl
  sum_counts-cons (k ∷ ks) r rows = omega (arith, sum_counts-cons ks r rows)

  -- Groups under names that stand once count every row that has one of them.
  sum_counts-groups :
      (ks : List String) (rows : List A)
      → All (λ r. count (str_eq (key r)) ks ≡ 1) rows
      → sum_counts (groups_at ks rows) ≡ length rows
  sum_counts-groups ks [] h = sum_counts-none ks
  sum_counts-groups ks (r ∷ rows) (h, hs) =
      omega (arith, sum_counts-cons ks r rows, sum_counts-groups ks rows hs)

  each_named :
      (ks : List String) (rows : List A)
      → ((k : String) → any (str_eq k) (map key rows) ≡ true → count (str_eq k) ks ≡ 1)
      → All (λ r. count (str_eq (key r)) ks ≡ 1) rows
  each_named ks [] h = tt
  each_named ks (r ∷ rows) h = (
    h (key r) (ground (arith, eq_iff (key r) (key r))),
    each_named ks rows (λ k m. h k (ground (arith, m))),
  )

  count-group_keys :
      (k : String) (rows : List A)
      → count (str_eq k) (group_keys rows) ≡ (if any (str_eq k) (map key rows) then 1 else 0)
  unfolding group_keys
  count-group_keys k rows =
      count-sort_by (str_eq k) le (each_once (map key rows)) ∙ count-each_once k (map key rows)

  -- Every row is in one group.
  pub sum_counts-group_by : (rows : List A) → sum_counts (group_by rows) ≡ length rows
  unfolding group_by
  sum_counts-group_by rows =
      sum_counts-groups (group_keys rows) rows
        (each_named (group_keys rows) rows (λ k m. count-group_keys k rows ∙ rw m refl))

  has_group-groups_at :
      (k : String) (ks : List String) (rows : List A)
      → has_group k (groups_at ks rows) ≡ any (str_eq k) ks
  has_group-groups_at k [] rows = refl
  has_group-groups_at k (j ∷ ks) rows = ap (λ b. str_eq k j || b) (has_group-groups_at k ks rows)

  any-keys :
      (k : String) (rows : List A)
      → any (str_eq k) (map key rows) ≡ not (count (λ r. str_eq (key r) k) rows == 0)
  any-keys k [] = refl
  any-keys k (r ∷ rows) = ground (arith, any-keys k rows, eq_iff k (key r), eq_iff (key r) k)

  if_positive : (b : Bool) → not ((if b then 1 else 0) == 0) ≡ b
  if_positive true = refl
  if_positive false = refl

  -- A text is a key exactly if some row has it.
  pub any-group_keys :
      (k : String) (rows : List A)
      → any (str_eq k) (group_keys rows) ≡ not (count (λ r. str_eq (key r) k) rows == 0)
  any-group_keys k rows =
      any-count (str_eq k) (group_keys rows)
      ∙ ap (λ n. not (n == 0)) (count-group_keys k rows)
      ∙ if_positive (any (str_eq k) (map key rows))
      ∙ any-keys k rows

  pub has_group-group_by :
      (k : String) (rows : List A)
      → has_group k (group_by rows) ≡ not (count (λ r. str_eq (key r) k) rows == 0)
  unfolding group_by
  has_group-group_by k rows = has_group-groups_at k (group_keys rows) rows ∙ any-group_keys k rows
