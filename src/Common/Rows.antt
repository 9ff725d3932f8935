-- ===== src/Common/Rows.antt =====
-- A table as a list of rows: `INSERT … ON CONFLICT DO UPDATE` with every column set, and lookups.
use mathlib.Core.Path.{◌≡◌, sym, ◌∙◌}
use mathlib.Core.Logic.{inl, inr}
use mathlib.Core.Bool.{Bool, true, false}
use mathlib.Core.Option.{Option, none, some}
use mathlib.Core.List.{List, [], ◌∷◌}
use compliance_engine.Common.Tests.{if◌then◌else◌, Bool-cases}

module _ {A : Type 0} where
  -- `SELECT … WHERE p` of one row
  unfoldable pub find_by : (A → Bool) → List A → Option A
  find_by p [] = none
  find_by p (r ∷ rs) = if p r then some r else find_by p rs

  unfoldable pub upsert_by : (A → A → Bool) → A → List A → List A
  upsert_by same new [] = new ∷ []
  upsert_by same new (r ∷ rs) = if same r new then new ∷ rs else r ∷ upsert_by same new rs

  -- `UPDATE … SET … WHERE p`
  unfoldable pub update_where : (A → Bool) → (A → A) → List A → List A
  update_where p f [] = []
  update_where p f (r ∷ rs) = (if p r then f r else r) ∷ update_where p f rs

  -- A query that asks for the key of `new` finds it.
  pub find_by-upsert_by_self :
      (p : A → Bool) (same : A → A → Bool) (new : A) (rows : List A)
      → p new ≡ true
      → ((r : A) → same r new ≡ p r)
      → find_by p (upsert_by same new rows) ≡ some new
  unfolding find_by upsert_by
  find_by-upsert_by_self p same new [] h agree = rw h
  find_by-upsert_by_self p same new (r ∷ rs) h agree = elim (Bool-cases (same r new)) [
    | inl hit ↦ rw (hit, h)
    | inr miss ↦ rw (miss, sym (agree r) ∙ miss) (find_by-upsert_by_self p same new rs h agree)
  ]

  -- A query for another key finds what it found.
  pub find_by-upsert_by_ne :
      (p : A → Bool) (same : A → A → Bool) (new : A) (rows : List A)
      → p new ≡ false
      → ((r : A) → same r new ≡ true → p r ≡ false)
      → find_by p (upsert_by same new rows) ≡ find_by p rows
  unfolding find_by upsert_by
  find_by-upsert_by_ne p same new [] h apart = rw h
  find_by-upsert_by_ne p same new (r ∷ rs) h apart = elim (Bool-cases (same r new)) [
    | inl hit ↦ rw (hit, h, apart r hit)
    | inr miss ↦ rw (miss, find_by-upsert_by_ne p same new rs h apart)
  ]
