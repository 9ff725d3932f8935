-- ===== src/Common/Pages.antt =====
-- The pages `LIMIT … OFFSET …` of a list.
use Prim.Native.Nat.{ℕ, zero, suc, ◌+◌, ◌≤◌}
use mathlib.Core.Path.{◌≡◌, refl, sym, ap, ◌∙◌}
use mathlib.Core.List.{List, [], ◌∷◌, ◌++◌, map}
use native.Mathlib.Omega.{arith}
use compliance_engine.Common.Lists.{length, take, drop}

suc-+ : (m n : ℕ) → suc m + n ≡ suc (m + n)
suc-+ m n = omega arith

module _ {A : Type 0} where
  pub take-all : (n : ℕ) (xs : List A) → length xs ≤ n → take n xs ≡ xs
  take-all zero [] h = refl
  take-all zero (x ∷ xs) h = absurd (omega arith)
  take-all (suc n) [] h = refl
  take-all (suc n) (x ∷ xs) h = ap (λ l. x ∷ l) (take-all n xs (omega arith))

  abbrev empty : List A
  empty = []

  drop-empty : (n : ℕ) → drop n empty ≡ empty
  drop-empty zero = refl
  drop-empty (suc n) = refl

  take-empty : (n : ℕ) → take n empty ≡ empty
  take-empty zero = refl
  take-empty (suc n) = refl

  pub drop-drop : (m n : ℕ) (xs : List A) → drop (m + n) xs ≡ drop n (drop m xs)
  drop-drop zero n xs = ap (λ k. drop k xs) (omega arith)
  drop-drop (suc m) n [] = drop-empty (suc m + n) ∙ sym (drop-empty n)
  drop-drop (suc m) n (x ∷ xs) = ap (λ k. drop k (x ∷ xs)) (suc-+ m n) ∙ drop-drop m n xs

  pub take-append : (m n : ℕ) (xs : List A) → take m xs ++ take n (drop m xs) ≡ take (m + n) xs
  take-append zero n xs = ap (λ k. take k xs) (omega arith)
  take-append (suc m) n [] = take-empty n ∙ sym (take-empty (suc m + n))
  take-append (suc m) n (x ∷ xs) =
      ap (λ l. x ∷ l) (take-append m n xs) ∙ ap (λ k. take k (x ∷ xs)) (sym (suc-+ m n))

  pub map-append :
      {B : Type 0} (f : A → B) (xs ys : List A) → map f (xs ++ ys) ≡ map f xs ++ map f ys
  map-append f [] ys = refl
  map-append f (x ∷ xs) ys = ap (λ l. f x ∷ l) (map-append f xs ys)
