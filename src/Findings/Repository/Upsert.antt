-- ===== src/Findings/Repository/Upsert.antt =====
-- The upsert by key, against the table seen as a map from keys to rows.
use compliance_engine.Common.{
  ◌∙◌, if_swap, ◌≢◌, if_again, ap, true, false, Option, none, some, List, [], ◌∷◌, ◌≡◌, refl, sym,
  arith, eq_iff, if◌then◌else◌, Bool-cases, inl, inr,
}
use compliance_engine.Findings.Repository.{
  Finding, Key, key_of, same_key, find_row, updated, upsert_row,
}

pub same_key-eq : (a b : Key) → same_key a b ≡ true → a ≡ b
same_key-eq a b h =
    ground (arith, eq_iff a.policy_id b.policy_id, eq_iff a.resource_id b.resource_id)

pub same_key_refl : (a : Key) → same_key a a ≡ true
same_key_refl a = ground (arith, eq_iff a.policy_id a.policy_id, eq_iff a.resource_id a.resource_id)

pub not-same_key : (a b : Key) → a ≢ b → same_key a b ≡ false
not-same_key a b h = elim (Bool-cases (same_key a b)) [
  | inl same ↦ absurd (h (same_key-eq a b same))
  | inr other ↦ other
]

same_key_trans : (a b c : Key) → same_key a b ≡ true → same_key a c ≡ same_key b c
same_key_trans a b c h = ap (λ k. same_key k c) (same_key-eq a b h)

same_key_comm : (a b : Key) → same_key a b ≡ same_key b a
same_key_comm a b =
    ground (arith, same_key-eq a b, same_key-eq b a, same_key_refl a, same_key_refl b)

-- The row that a key has after the upsert of `new` under that key.
abbrev pub merged : Option Finding → Finding → Finding
merged none new = new
merged (some old) new = updated old new

-- The upsert of a finding sets the row under its own key, with the identifier and the resource
-- type of the row that was there, if any, and leaves the row under every other key.
pub find_row-upsert_row :
    (k : Key) (new : Finding) (rows : List Finding)
    → find_row k (upsert_row new rows) ≡ (
        if same_key (key_of new) k
        then some (merged (find_row (key_of new) rows) new)
        else find_row k rows)
unfolding find_row upsert_row
find_row-upsert_row k new [] = refl
find_row-upsert_row k new (f ∷ fs) = elim (Bool-cases (same_key (key_of f) (key_of new))) [
  | inl same ↦
      rw (same, same_key_trans (key_of f) (key_of new) k same)
        (if_again (same_key (key_of new) k) (some (updated f new)) (some f) (find_row k fs))
  | inr other ↦
      rw (other, find_row-upsert_row k new fs)
        (if_swap (same_key (key_of f) k) (same_key (key_of new) k) _ _ _ (λ same.
          same_key_comm (key_of new) k
          ∙ sym (same_key_trans (key_of f) k (key_of new) same)
          ∙ other))
]

-- No two rows have one key.
abbrev pub Distinct : List Finding → Type 0
Distinct [] = Unit
Distinct (f ∷ fs) = (find_row (key_of f) fs ≡ none) × Distinct fs

pub upsert_row-Distinct :
    (new : Finding) (rows : List Finding) → Distinct rows → Distinct (upsert_row new rows)
unfolding upsert_row find_row
upsert_row-Distinct new [] h = (refl, tt)
upsert_row-Distinct new (f ∷ fs) h = ground (
  arith,
  upsert_row-Distinct new fs h.1,
  find_row-upsert_row (key_of f) new fs,
  same_key_comm (key_of f) (key_of new),
)
