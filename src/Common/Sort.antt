-- ===== src/Common/Sort.antt =====
-- A stable sort by a test `le`, as `list.sort` and `ORDER BY` do it: by insertion.
use Prim.Native.Nat.{◌+◌}
use mathlib.Core.Path.{◌≡◌, refl}
use mathlib.Core.Logic.{inl, inr}
use mathlib.Core.Bool.{Bool, true, false}
use mathlib.Core.List.{List, [], ◌∷◌}
use native.Mathlib.Omega.{arith}
use compliance_engine.Common.Tests.{if◌then◌else◌, Bool-cases}
use compliance_engine.Common.Lists.{count, length, All}

module _ {A : Type 0} where
  -- `x` goes before the first item that it is not above.
  unfoldable pub insert_by : (A → A → Bool) → A → List A → List A
  insert_by le x [] = x ∷ []
  insert_by le x (y ∷ ys) = if le x y then x ∷ y ∷ ys else y ∷ insert_by le x ys

  unfoldable pub sort_by : (A → A → Bool) → List A → List A
  unfolding insert_by
  sort_by le [] = []
  sort_by le (x ∷ xs) = insert_by le x (sort_by le xs)

  count-insert_by :
      (p : A → Bool) (le : A → A → Bool) (x : A) (ys : List A)
      → count p (insert_by le x ys) ≡ (if p x then 1 else 0) + count p ys
  unfolding insert_by
  count-insert_by p le x [] = refl
  count-insert_by p le x (y ∷ ys) = ground (arith, count-insert_by p le x ys)

  -- Sorting keeps every item, as often.
  pub count-sort_by :
      (p : A → Bool) (le : A → A → Bool) (xs : List A) → count p (sort_by le xs) ≡ count p xs
  unfolding sort_by
  count-sort_by p le [] = refl
  count-sort_by p le (x ∷ xs) =
      ground (arith, count-insert_by p le x (sort_by le xs), count-sort_by p le xs)

  length-insert_by :
      (le : A → A → Bool) (x : A) (ys : List A) → length (insert_by le x ys) ≡ length ys + 1
  unfolding insert_by
  length-insert_by le x [] = omega arith
  length-insert_by le x (y ∷ ys) = ground (arith, length-insert_by le x ys)

  pub length-sort_by : (le : A → A → Bool) (xs : List A) → length (sort_by le xs) ≡ length xs
  unfolding sort_by
  length-sort_by le [] = refl
  length-sort_by le (x ∷ xs) =
      omega (arith, length-insert_by le x (sort_by le xs), length-sort_by le xs)

  abbrev pub LeAll : (A → A → Bool) → A → List A → Type 0
  LeAll le x ys = All (λ y. le x y ≡ true) ys

  abbrev pub IsSorted : (A → A → Bool) → List A → Type 0
  IsSorted le [] = Unit
  IsSorted le (x ∷ xs) = LeAll le x xs × IsSorted le xs

  module _ (le : A → A → Bool) (total : (x y : A) → le x y ≡ false → le y x ≡ true)
      (trans : (x y z : A) → le x y ≡ true → le y z ≡ true → le x z ≡ true) where
    LeAll-trans : (x y : A) (ys : List A) → le x y ≡ true → LeAll le y ys → LeAll le x ys
    LeAll-trans x y [] h k = tt
    LeAll-trans x y (z ∷ ys) h (k, ks) = (trans x y z h k, LeAll-trans x y ys h ks)

    LeAll-insert_by :
        (x y : A) (ys : List A) → le y x ≡ true → LeAll le y ys → LeAll le y (insert_by le x ys)
    unfolding insert_by
    LeAll-insert_by x y [] h k = (h, tt)
    LeAll-insert_by x y (z ∷ ys) h (k, ks) = by_test (le x z) (LeAll-insert_by x y ys h ks)
      where
        by_test :
            (b : Bool)
            → LeAll le y (insert_by le x ys)
            → LeAll le y (if b then x ∷ z ∷ ys else z ∷ insert_by le x ys)
        by_test true rec = (h, (k, ks))
        by_test false rec = (k, rec)

    insert_by-IsSorted : (x : A) (ys : List A) → IsSorted le ys → IsSorted le (insert_by le x ys)
    unfolding insert_by
    insert_by-IsSorted x [] h = (tt, tt)
    insert_by-IsSorted x (y ∷ ys) (h, hs) = elim (Bool-cases (le x y)) [
      | inl below ↦ rw below ((below, LeAll-trans x y ys below h), (h, hs))
      | inr above ↦
          rw above (LeAll-insert_by x y ys (total x y above) h, insert_by-IsSorted x ys hs)
    ]

    pub sort_by-IsSorted : (xs : List A) → IsSorted le (sort_by le xs)
    unfolding sort_by
    sort_by-IsSorted [] = tt
    sort_by-IsSorted (x ∷ xs) = insert_by-IsSorted x (sort_by le xs) (sort_by-IsSorted xs)
