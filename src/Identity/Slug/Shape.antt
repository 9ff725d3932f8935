-- ===== src/Identity/Slug/Shape.antt =====
-- What slugify makes matches the expression that validate_slug asks for.
use compliance_engine.Common.{
  none, ltb, some, ◌≢◌, ◌≤◌, length, String, zero, suc, ◌||◌, arith, take, ℕ, ◌≡◌, inl, inr, Bool,
  true, false, not, ◌&&◌, List, [], ◌∷◌, refl, Bool-cases, if◌then◌else◌,
}
use compliance_engine.Common.Text.{codes, strip, lower, no_codes, strip_right, strip_left}
use compliance_engine.Identity.Slug.{
  reserved, is_reserved, too_short, invalid_characters, too_long, max_slug_length,
  slugify_workspace_name, validate_slug, cut, squeeze, matches_slug, is_slug_char, is_dash,
}

-- Slug characters and single dashes: the first argument says whether a dash may not come.
unfoldable pub clean : Bool → List ℕ → Bool
clean due [] = true
clean due (c ∷ s) =
    let inside = clean false s in
    let after_dash = clean true s in
    if is_slug_char c then inside else is_dash c && not due && after_dash

-- A slug character or a dash.
unfoldable pub proper : List ℕ → Bool
proper [] = true
proper (c ∷ s) = (is_slug_char c || is_dash c) && proper s

squeeze-proper :
    (within : Bool) (s : List ℕ) → proper (squeeze (λ c. not (is_slug_char c)) within s) ≡ true
unfolding squeeze proper
squeeze-proper within [] = refl
squeeze-proper within (c ∷ s) = ground (arith, squeeze-proper true s, squeeze-proper false s)

squeeze-clean :
    (within : Bool) (s : List ℕ) → proper s ≡ true → clean within (squeeze is_dash within s) ≡ true
unfolding squeeze proper clean
squeeze-clean within [] h = refl
squeeze-clean true (c ∷ s) h = ground (arith, squeeze-clean true s, squeeze-clean false s)
squeeze-clean false (c ∷ s) h = ground (arith, squeeze-clean true s, squeeze-clean false s)

strip_left-clean :
    (due : Bool) (s : List ℕ) → clean due s ≡ true → clean true (strip_left is_dash s) ≡ true
unfolding strip_left clean
strip_left-clean due [] h = refl
strip_left-clean due (c ∷ s) h = ground (arith, strip_left-clean true s)

take-clean : (due : Bool) (n : ℕ) (s : List ℕ) → clean due s ≡ true → clean due (take n s) ≡ true
unfolding clean
take-clean due zero s h = refl
take-clean due (suc n) [] h = refl
take-clean due (suc n) (c ∷ s) h = ground (arith, take-clean true n s, take-clean false n s)

matches_slug-clean : (due : Bool) (s : List ℕ) → matches_slug due s ≡ true → clean due s ≡ true
unfolding clean matches_slug
matches_slug-clean due [] h = refl
matches_slug-clean due (c ∷ s) h =
    ground (arith, matches_slug-clean true s, matches_slug-clean false s)

-- Without the dashes at its end, a clean text is empty or matches.
strip_right-matches :
    (due : Bool) (s : List ℕ)
    → clean due s ≡ true
    → (no_codes (strip_right is_dash s) || matches_slug due (strip_right is_dash s)) ≡ true
unfolding strip_right clean matches_slug
strip_right-matches due [] h = refl
strip_right-matches due (c ∷ s) h =
    ground (arith, strip_right-matches true s, strip_right-matches false s)

length-take-le : (n : ℕ) (s : List ℕ) → length (take n s) ≤ n
length-take-le zero s = omega arith
length-take-le (suc n) [] = omega arith
length-take-le (suc n) (c ∷ s) = omega (arith, length-take-le n s)

length-strip_right : (p : ℕ → Bool) (s : List ℕ) → length (strip_right p s) ≤ length s
unfolding strip_right
length-strip_right p [] = omega arith
length-strip_right p (c ∷ s) = ground (arith, length-strip_right p s)

-- Empty, or of the form that is asked for.
abbrev Fits : List ℕ → Type 0
Fits s = (no_codes s || matches_slug true s) ≡ true

Fits-clean : (s : List ℕ) → Fits s → clean true s ≡ true
unfolding clean
Fits-clean [] h = refl
Fits-clean (c ∷ s) h = matches_slug-clean true (c ∷ s) h

cut-Fits : (s : List ℕ) → Fits s → Fits (cut s) × (length (cut s) ≤ max_slug_length)
cut-Fits s h = elim (Bool-cases (ltb max_slug_length (length s))) [
  | inl long ↦ rw long (
    strip_right-matches true (take max_slug_length s)
        (take-clean true max_slug_length s (Fits-clean s h)),
    omega (
      arith,
      length-strip_right is_dash (take max_slug_length s),
      length-take-le max_slug_length s,
    ),
  )
  | inr short ↦ rw short (h, ground arith)
]

slugify-Fits :
    (name : String)
    → Fits (slugify_workspace_name name) × (length (slugify_workspace_name name) ≤ max_slug_length)
unfolding slugify_workspace_name
slugify-Fits name = cut-Fits _ (
    strip_right-matches true _ (
      strip_left-clean false _
        (squeeze-clean false _ (squeeze-proper false (lower (strip (codes name)))))))

left_over :
    (short reserved_name : Bool)
    → ((if short then some too_short else if reserved_name then some reserved else none)
        ≢ some too_long)
      × ((if short then some too_short else if reserved_name then some reserved else none)
          ≢ some invalid_characters)
left_over true r = (λ e. cc, λ e. cc)
left_over false true = (λ e. cc, λ e. cc)
left_over false false = (λ e. cc, λ e. cc)

-- The verdicts that are left for a text of that form.
validate_slug-Fits :
    (s : List ℕ)
    → Fits s
    → ltb max_slug_length (length s) ≡ false
    → (validate_slug s ≢ some too_long) × (validate_slug s ≢ some invalid_characters)
unfolding validate_slug
validate_slug-Fits [] h short = (λ e. cc, λ e. cc)
validate_slug-Fits (c ∷ s) h short =
    rw (short, h) (left_over (ltb (length (c ∷ s)) 3) (is_reserved (c ∷ s)))

-- The slug that is made of a workspace's name, whatever the name, is never refused as too long
-- or for its characters: only as too short or reserved.
pub validate_slug-slugify :
    (name : String)
    → (validate_slug (slugify_workspace_name name) ≢ some too_long)
      × (validate_slug (slugify_workspace_name name) ≢ some invalid_characters)
validate_slug-slugify name =
    let (fits, short) = slugify-Fits name in
    validate_slug-Fits (slugify_workspace_name name) fits (ground arith)
