-- ===== src/Common/Text.antt =====
-- Python's `str`. A text is the native `String` where the program compares or concatenates it, and
-- the list of its code points where the program walks it or changes its case.
-- `lower`, `upper` and `strip` are those of ASCII: any other character is left as it is.
use Prim.Native.Char.{Char, code}
use compliance_engine.Common.Tests.{leb, ◌==◌, if◌then◌else◌}
use Prim.Native.Nat.{ℕ, ◌+◌, ◌-◌}
use Prim.Native.String.{String}
use mathlib.Core.Bool.{Bool, true, false, ◌&&◌, ◌||◌}
use mathlib.Core.List.{List, [], ◌∷◌, map}
use mathlib.Core.Path.{◌≡◌, refl}

abbrev pub codes : String → List ℕ
codes String.[] = []
codes (String.◌∷◌ c s) = code c ∷ codes s

-- `bool(s)`
abbrev pub is_empty : String → Bool
is_empty String.[] = true
is_empty (String.◌∷◌ c s) = false

abbrev pub is_lower : ℕ → Bool
is_lower c = leb b'a' c && leb c b'z'

abbrev pub is_upper : ℕ → Bool
is_upper c = leb b'A' c && leb c b'Z'

abbrev pub is_digit : ℕ → Bool
is_digit c = leb b'0' c && leb c b'9'

-- The characters that `str.strip` removes: space, and tab to carriage return, and 28 to 31.
abbrev pub is_space : ℕ → Bool
is_space c = c == 32 || (leb 9 c && leb c 13) || (leb 28 c && leb c 31)

unfoldable pub to_lower : ℕ → ℕ
to_lower c = if is_upper c then c + 32 else c

unfoldable pub to_upper : ℕ → ℕ
to_upper c = if is_lower c then c - 32 else c

unfoldable pub lower : List ℕ → List ℕ
unfolding to_lower
lower = map to_lower

unfoldable pub upper : List ℕ → List ℕ
unfolding to_upper
upper = map to_upper

-- `s.lstrip()`, for the characters that `p` accepts
unfoldable pub strip_left : (ℕ → Bool) → List ℕ → List ℕ
strip_left p [] = []
strip_left p (c ∷ s) = if p c then strip_left p s else c ∷ s

abbrev pub no_codes : List ℕ → Bool
no_codes [] = true
no_codes (_ ∷ _) = false

-- `s.rstrip()`, for the characters that `p` accepts
unfoldable pub strip_right : (ℕ → Bool) → List ℕ → List ℕ
strip_right p [] = []
strip_right p (c ∷ s) = let rest = strip_right p s in if p c && no_codes rest then [] else c ∷ rest

unfoldable pub strip : List ℕ → List ℕ
unfolding strip_left strip_right
strip s = strip_right is_space (strip_left is_space s)

-- `strip` on a native text
unfoldable pub lstrip : String → String
lstrip String.[] = ""
lstrip (String.◌∷◌ c s) = if is_space (code c) then lstrip s else String.◌∷◌ c s

unfoldable pub rstrip : String → String
rstrip String.[] = ""
rstrip (String.◌∷◌ c s) =
    let rest = rstrip s in if is_space (code c) && is_empty rest then "" else String.◌∷◌ c rest

-- `==` on texts
abbrev pub same_text : List ℕ → List ℕ → Bool
same_text [] [] = true
same_text (c ∷ s) (d ∷ t) = c == d && same_text s t
same_text _ _ = false

-- `text.startswith(prefix)`
unfoldable pub has_prefix : List ℕ → List ℕ → Bool
has_prefix s [] = true
has_prefix [] (d ∷ t) = false
has_prefix (c ∷ s) (d ∷ t) = c == d && has_prefix s t

-- `sub in text`
unfoldable pub contains : List ℕ → List ℕ → Bool
unfolding has_prefix
contains [] t = has_prefix [] t
contains (c ∷ s) t = has_prefix (c ∷ s) t || contains s t

abbrev on_head : Char → List String → List String
on_head c [] = String.◌∷◌ c "" ∷ []
on_head c (p ∷ ps) = String.◌∷◌ c p ∷ ps

-- `text.split(sep)` for a separator of one character
unfoldable pub split : ℕ → String → List String
split sep String.[] = "" ∷ []
split sep (String.◌∷◌ c s) = if code c == sep then "" ∷ split sep s else on_head c (split sep s)

split_path : split b'.' "a.bc." ≡ "a" ∷ "bc" ∷ "" ∷ []
unfolding split
split_path = refl

strip_case : strip (upper (codes " cis 1.1\n")) ≡ codes "CIS 1.1"
unfolding strip upper
strip_case = refl
