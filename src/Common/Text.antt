-- ===== src/Common/Text.antt =====
-- Python's str, as far as the program walks one: a text is its list of characters.
use Prim.Native.Nat.{ℕ, zero, suc, ◌-◌}
use Prim.Native.Char.{Char, code}
use Prim.Native.String.{String}
use mathlib.Core.Bool.{Bool, true, false, ◌&&◌, ◌||◌}
use mathlib.Core.List.{List, [], ◌∷◌}
use zgent.Common.Tests.{leb, ◌==◌, if◌then◌else◌}

-- The code points of a text.
abbrev pub codes : String → List ℕ
codes String.[] = []
codes (String.◌∷◌ c s) = code c ∷ codes s

unfoldable pub is_letter_or_digit : ℕ → Bool
is_letter_or_digit c =
    leb b'a' c && leb c b'z' || leb b'A' c && leb c b'Z' || leb b'0' c && leb c b'9'

-- s[:n] and s[n:]
unfoldable pub str_take : ℕ → String → String
str_take zero s = String.[]
str_take (suc n) String.[] = String.[]
str_take (suc n) (String.◌∷◌ c s) = String.◌∷◌ c (str_take n s)

unfoldable pub str_drop : ℕ → String → String
str_drop zero s = s
str_drop (suc n) String.[] = String.[]
str_drop (suc n) (String.◌∷◌ c s) = str_drop n s

-- len(s), in characters
abbrev pub str_length : String → ℕ
str_length String.[] = 0
str_length (String.◌∷◌ c s) = suc (str_length s)

-- The white space that str.strip() removes, within ASCII.
unfoldable pub is_space : ℕ → Bool
is_space c = c == 32 || leb 9 c && leb c 13 || leb 28 c && leb c 31

unfoldable pub lstrip : String → String
lstrip String.[] = String.[]
lstrip (String.◌∷◌ c s) = let rest = lstrip s in if is_space (code c) then rest else String.◌∷◌ c s

keep_char : Char → String → String
keep_char c String.[] = if is_space (code c) then String.[] else String.◌∷◌ c String.[]
keep_char c (String.◌∷◌ d s) = String.◌∷◌ c (String.◌∷◌ d s)

unfoldable pub rstrip : String → String
unfolding keep_char
rstrip String.[] = String.[]
rstrip (String.◌∷◌ c s) = keep_char c (rstrip s)

-- s.strip()
unfoldable pub strip : String → String
unfolding lstrip rstrip is_space
strip s = rstrip (lstrip s)

-- The line boundaries of str.splitlines().
unfoldable pub is_break : ℕ → Bool
is_break c = leb 10 c && leb c 13 || leb 28 c && leb c 30 || c == 133 || c == 8232 || c == 8233

onto_line : Char → List String → List String
onto_line c [] = String.◌∷◌ c String.[] ∷ []
onto_line c (l ∷ ls) = String.◌∷◌ c l ∷ ls

-- s.splitlines(); a carriage return and its line feed are one boundary
unfoldable pub split_lines : String → List String
unfolding is_break onto_line
split_lines String.[] = []
split_lines (String.◌∷◌ c String.[]) =
    if is_break (code c) then String.[] ∷ [] else String.◌∷◌ c String.[] ∷ []
split_lines (String.◌∷◌ c (String.◌∷◌ d s)) =
    let rest = split_lines (String.◌∷◌ d s) in
    let after = split_lines s in
    if code c == 13 && code d == 10
    then String.[] ∷ after
    else if is_break (code c)
    then String.[] ∷ rest
    else onto_line c rest

-- text.startswith(prefix) over the code points
unfoldable pub has_prefix : List ℕ → List ℕ → Bool
has_prefix [] s = true
has_prefix (c ∷ p) [] = false
has_prefix (c ∷ p) (d ∷ s) = c == d && has_prefix p s

-- part in text, over the code points
unfoldable pub has_part : List ℕ → List ℕ → Bool
unfolding has_prefix
has_part p [] = has_prefix p []
has_part p (c ∷ s) = has_prefix p (c ∷ s) || has_part p s

-- str.upper() of an ASCII character
unfoldable pub upper : ℕ → ℕ
upper c = if leb b'a' c && leb c b'z' then c - 32 else c
