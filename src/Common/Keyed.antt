-- ===== src/Common/Keyed.antt =====
-- Lists without two items of one key, as loops make them that keep a set of the keys `seen`.
use mathlib.Core.Path.{◌≡◌, refl}
use mathlib.Core.Bool.{Bool, true, false, ◌||◌}
use mathlib.Core.List.{List, [], ◌∷◌}
use Prim.Native.String.{String}
use text.Mathlib.Text.{◌==◌ as str_eq}
use compliance_engine.Common.Lists.{All, any}

pub or_false : (a b : Bool) → (a || b) ≡ false → (a ≡ false) × (b ≡ false)
or_false true b h = cc
or_false false b h = (refl, h)

module _ {A : Type 0} (key : A → String) where
  abbrev pub Unseen : List String → List A → Type 0
  Unseen seen = All (λ x. any (str_eq (key x)) seen ≡ false)

  abbrev pub DistinctBy : List A → Type 0
  DistinctBy [] = Unit
  DistinctBy (x ∷ xs) = All (λ y. str_eq (key y) (key x) ≡ false) xs × DistinctBy xs

  pub Unseen-split :
      (s : String) (seen : List String) (xs : List A)
      → Unseen (s ∷ seen) xs
      → All (λ x. str_eq (key x) s ≡ false) xs × Unseen seen xs
  Unseen-split s seen [] h = (tt, tt)
  Unseen-split s seen (x ∷ xs) (h, hs) =
      let (apart, unseen) = or_false (str_eq (key x) s) (any (str_eq (key x)) seen) h in
      let (aparts, unseens) = Unseen-split s seen xs hs in ((apart, aparts), (unseen, unseens))

  -- An item that is not seen goes before what the loop makes once it is.
  pub DistinctBy-cons :
      (x : A) (seen : List String) (xs : List A)
      → any (str_eq (key x)) seen ≡ false
      → Unseen (key x ∷ seen) xs × DistinctBy xs
      → Unseen seen (x ∷ xs) × DistinctBy (x ∷ xs)
  DistinctBy-cons x seen xs new (unseen, distinct) =
      let (aparts, unseens) = Unseen-split (key x) seen xs unseen in
      ((new, unseens), (aparts, distinct))
