-- ===== src/Identity/Slug.antt =====
-- src/platform_backend/identity/slug.py, on the code points of a text.
pub mod Shape
mod Tests
use compliance_engine.Common.{
  ℕ, suc, ◌+◌, String, Bool, true, false, not, ◌&&◌, ◌||◌, Option, none, some, List, [], ◌∷◌, ◌++◌,
  map, any, take, length, ltb, ◌==◌, if◌then◌else◌,
}
use compliance_engine.Common.Text.{
  same_text, codes, is_lower, is_digit, lower, strip, strip_left, strip_right,
}

abbrev pub reserved_slugs : List String
reserved_slugs =
    "admin" ∷ "api" ∷ "app" ∷ "www" ∷ "drantiq" ∷ "support" ∷ "help" ∷ "status" ∷ "billing"
    ∷ "login" ∷ "signup" ∷ "onboarding" ∷ "welcome" ∷ "internal" ∷ "test" ∷ "demo" ∷ "null"
    ∷ "undefined" ∷ []

abbrev pub min_slug_length : ℕ
min_slug_length = 3

abbrev pub max_slug_length : ℕ
max_slug_length = 48

-- `[a-z0-9]`
abbrev pub is_slug_char : ℕ → Bool
is_slug_char c = is_lower c || is_digit c

abbrev pub is_dash : ℕ → Bool
is_dash c = c == b'-'

-- `re.sub("p+", "-", text)`: a run of characters that `p` accepts becomes one dash. The first
-- argument says whether a run is open.
unfoldable pub squeeze : (ℕ → Bool) → Bool → List ℕ → List ℕ
squeeze p within [] = []
squeeze p within (c ∷ s) =
    let inside = squeeze p true s in
    let outside = squeeze p false s in
    if p c then (if within then inside else b'-' ∷ inside) else c ∷ outside

abbrev pub cut : List ℕ → List ℕ
cut text =
    if ltb max_slug_length (length text)
    then strip_right is_dash (take max_slug_length text)
    else text

-- `slugify_workspace_name` on the code points of the name
abbrev pub slugify : List ℕ → List ℕ
slugify name =
    let text = squeeze (λ c. not (is_slug_char c)) false (lower (strip name)) in
    cut (strip_right is_dash (strip_left is_dash (squeeze is_dash false text)))

unfoldable pub slugify_workspace_name : String → List ℕ
unfolding lower strip squeeze strip_left strip_right
slugify_workspace_name name = slugify (codes name)

abbrev pub max_slug_attempts : ℕ
max_slug_attempts = 5

-- `candidates.append(f"{base_slug}-{i}")` for each `i`, all of one digit
abbrev pub numbered : List ℕ → List ℕ → List (List ℕ)
numbered base [] = []
numbered base (i ∷ is) = (base ++ b'-' ∷ (b'0' + i) ∷ []) ∷ numbered base is

unfoldable pub slug_candidates : List ℕ → List (List ℕ)
slug_candidates base = take max_slug_attempts (base ∷ numbered base (2 ∷ 3 ∷ 4 ∷ 5 ∷ 6 ∷ []))

-- `re.fullmatch("[a-z0-9]+(?:-[a-z0-9]+)*", slug)`: the first argument says whether a character
-- must come, as it must at the start and after a dash.
unfoldable pub matches_slug : Bool → List ℕ → Bool
matches_slug due [] = not due
matches_slug due (c ∷ s) =
    let inside = matches_slug false s in
    let after_dash = matches_slug true s in
    if is_slug_char c then inside else is_dash c && not due && after_dash

abbrev pub is_reserved : List ℕ → Bool
is_reserved slug = any (λ s. same_text (codes s) slug) reserved_slugs

-- The four messages.
pub data SlugProblem : Type 0 where
  too_short too_long reserved invalid_characters : SlugProblem

unfoldable pub validate_slug : List ℕ → Option SlugProblem
unfolding matches_slug
validate_slug slug =
    if ltb (length slug) min_slug_length
    then some too_short
    else if ltb max_slug_length (length slug)
    then some too_long
    else if is_reserved slug
    then some reserved
    else if not (matches_slug true slug)
    then some invalid_characters
    else none

pub data NameProblem : Type 0 where
  name_too_short name_too_long : NameProblem

unfoldable pub validate_workspace_name : String → Option NameProblem
unfolding strip
validate_workspace_name name =
    let cleaned = strip (codes name) in
    if ltb (length cleaned) 2
    then some name_too_short
    else if ltb 100 (length cleaned)
    then some name_too_long
    else none
