-- ===== src/Identity/Workspaces/Slugs.antt =====
-- The slug of a new workspace is free and well formed.
use mathlib.Core.Path.{subst}
use compliance_engine.Common.{
  ℕ, ◌+◌, ◌≤◌, Bool, true, false, not, none, some, List, [], ◌∷◌, ◌++◌, if◌then◌else◌, ◌≡◌, refl,
  length, All, length-append, Bool-cases, inl, inr, arith, ltb, Option-cases,
}
use compliance_engine.Identity.Rows.{Workspace, Accounts}
use compliance_engine.Identity.Slug.{
  validate_slug, too_short, too_long, reserved, invalid_characters, matches_slug, slug_candidates,
  is_slug_char, is_reserved, slugify, max_slug_length,
}
use compliance_engine.Identity.Workspaces.{
  resolve_unique_slug, first_free, slug_exists, is_kept_back, free_slug,
}

-- The expression of `validate_slug`, its least length, and two characters more than its greatest.
abbrev pub IsUsable : List ℕ → Type 0
IsUsable slug =
    (matches_slug true slug ≡ true) × (3 ≤ length slug) × (length slug ≤ max_slug_length + 2)

some-inj : {A : Type 0} {a b : A} → some a ≡ some b → a ≡ b
some-inj h = cc

matches_slug-append :
    (due : Bool) (s : List ℕ) (d : ℕ)
    → is_slug_char d ≡ true
    → matches_slug due s ≡ true
    → matches_slug due (s ++ b'-' ∷ d ∷ []) ≡ true
unfolding matches_slug
matches_slug-append true [] d digit h = cc
matches_slug-append false [] d digit h = rw digit
matches_slug-append due (c ∷ s) d digit h =
    ground (arith, matches_slug-append false s d digit, matches_slug-append true s d digit)

validate_slug-none :
    (slug : List ℕ)
    → validate_slug slug ≡ none
    → (matches_slug true slug ≡ true) × (3 ≤ length slug) × (length slug ≤ max_slug_length)
validate_slug-none slug h =
    tests (length slug) (is_reserved slug) (matches_slug true slug) (unfold validate_slug in h)
  where
    tests :
        (n : ℕ) (kept matched : Bool)
        → (if ltb n 3
            then some too_short
            else if ltb 48 n
            then some too_long
            else if kept
            then some reserved
            else if not matched
            then some invalid_characters
            else none)
          ≡ none
        → (matched ≡ true) × (3 ≤ n) × (n ≤ 48)
    tests n true matched h = (ground arith, ground arith, ground arith)
    tests n false true h = (refl, ground arith, ground arith)
    tests n false false h = (ground arith, ground arith, ground arith)

candidates-IsUsable :
    (base : List ℕ) → validate_slug base ≡ none → All IsUsable (slug_candidates base)
unfolding slug_candidates
candidates-IsUsable base valid =
    let (matches, long, short) = validate_slug-none base valid in
    let with_digit : (d : ℕ) → is_slug_char d ≡ true → IsUsable (base ++ b'-' ∷ d ∷ []) = λ d digit.
      (
        matches_slug-append true base d digit matches,
        omega (arith, length-append base (b'-' ∷ d ∷ [])),
        omega (arith, length-append base (b'-' ∷ d ∷ [])),
      ) in
    (
      (matches, long, omega arith),
      (with_digit 50 refl, (with_digit 51 refl, (with_digit 52 refl, (with_digit 53 refl, tt)))),
    )

abbrev IsFree : List Workspace → List ℕ → Type 0
IsFree tenants slug =
    IsUsable slug × (slug_exists slug tenants ≡ false) × (is_kept_back slug ≡ false)

first_free-IsFree :
    (tenants : List Workspace) (slugs : List (List ℕ)) {slug : List ℕ}
    → All IsUsable slugs
    → first_free tenants slugs ≡ some slug
    → IsFree tenants slug
first_free-IsFree tenants [] all h = cc
first_free-IsFree tenants (s ∷ slugs) (usable, all) h = elim (Bool-cases (is_kept_back s)) [
  | inl kept ↦ first_free-IsFree tenants slugs all (rw kept at h)
  | inr open_name ↦ elim (Bool-cases (slug_exists s tenants)) [
    | inl taken ↦ first_free-IsFree tenants slugs all (rw (open_name, taken) at h)
    | inr free ↦
        let same : s ≡ _ = some-inj (rw (open_name, free) at h) in
        subst (IsFree tenants) same (usable, free, open_name)
  ]
]

free_slug-IsFree :
    (tenants : List Workspace) (base slug : List ℕ)
    → free_slug tenants base ≡ some slug
    → IsFree tenants slug
free_slug-IsFree tenants base slug h = elim (Option-cases (validate_slug base)) [
  | inl valid ↦
      first_free-IsFree tenants (slug_candidates base) (candidates-IsUsable base valid)
        (rw valid at h)
  | inr (problem, refused) ↦ absurd (none_some (rw refused at h))
]
  where
    none_some : none ≡ some slug → ⊥
    none_some e = cc

pub resolve_unique_slug-IsFree :
    (name : List ℕ) (a : Accounts) (slug : List ℕ)
    → resolve_unique_slug name a ≡ some slug
    → IsUsable slug × (slug_exists slug a.tenants ≡ false) × (is_kept_back slug ≡ false)
unfolding resolve_unique_slug
resolve_unique_slug-IsFree name a slug h = free_slug-IsFree a.tenants (slugify name) slug h
