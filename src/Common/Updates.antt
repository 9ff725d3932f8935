-- ===== src/Common/Updates.antt =====
-- What `UPDATE … SET … WHERE` does to a query, to a property of all rows and to the other rows.
use mathlib.Core.Path.{◌≡◌, refl}
use mathlib.Core.Logic.{inl, inr}
use mathlib.Core.Bool.{Bool, true, false}
use mathlib.Core.Option.{Option, none, some}
use mathlib.Core.List.{List, [], ◌∷◌}
use compliance_engine.Common.Tests.{if◌then◌else◌, Bool-cases}
use compliance_engine.Common.Lists.{All, keep}
use compliance_engine.Common.Rows.{find_by, update_where}

abbrev pub map_some : {A : Type 0} → (A → A) → Option A → Option A
map_some f none = none
map_some f (some a) = some (f a)

pub find_by-update_where :
    {A : Type 0} (p : A → Bool) (f : A → A) (rows : List A)
    → ((r : A) → p (f r) ≡ p r)
    → find_by p (update_where p f rows) ≡ map_some f (find_by p rows)
unfolding find_by update_where
find_by-update_where p f [] h = refl
find_by-update_where p f (r ∷ rs) h = elim (Bool-cases (p r)) [
  | inl hit ↦ rw (hit, h r, hit)
  | inr miss ↦ rw (miss, miss) (find_by-update_where p f rs h)
]

-- An update of some rows, seen by a query that finds a row before as after.
pub find_by-update_some :
    {A : Type 0} (p q : A → Bool) (f : A → A) (rows : List A)
    → ((r : A) → p (f r) ≡ p r)
    → find_by p (update_where q f rows) ≡ map_some (λ r. if q r then f r else r) (find_by p rows)
unfolding find_by update_where
find_by-update_some p q f [] h = refl
find_by-update_some p q f (r ∷ rows) h = elim (Bool-cases (q r)) [
  | inl hit ↦ elim (Bool-cases (p r)) [
    | inl found ↦ rw (hit, h r, found, hit)
    | inr other ↦ rw (hit, h r, other) (find_by-update_some p q f rows h)
  ]
  | inr miss ↦ elim (Bool-cases (p r)) [
    | inl found ↦ rw (miss, found, miss)
    | inr other ↦ rw (miss, other) (find_by-update_some p q f rows h)
  ]
]

pub All-update_where :
    {A : Type 0} (Q : A → Type 0) (p : A → Bool) (f : A → A) (rows : List A)
    → ((r : A) → Q r → Q (f r))
    → All Q rows
    → All Q (update_where p f rows)
unfolding update_where
All-update_where Q p f [] h all = tt
All-update_where Q p f (r ∷ rs) h (one, all) = elim (Bool-cases (p r)) [
  | inl hit ↦ rw hit (h r one, All-update_where Q p f rs h all)
  | inr miss ↦ rw miss (one, All-update_where Q p f rs h all)
]

-- Rows that the test `q` picks out and the update does not reach stay as they are.
pub keep-update_where :
    {A : Type 0} (q p : A → Bool) (f : A → A) (rows : List A)
    → ((r : A) → p r ≡ true → q r ≡ false)
    → ((r : A) → q (f r) ≡ q r)
    → keep q (update_where p f rows) ≡ keep q rows
unfolding update_where
keep-update_where q p f [] apart same = refl
keep-update_where q p f (r ∷ rs) apart same = elim (Bool-cases (p r)) [
  | inl hit ↦ rw (hit, same r, apart r hit) (keep-update_where q p f rs apart same)
  | inr miss ↦ rw (miss, keep-update_where q p f rs apart same)
]
