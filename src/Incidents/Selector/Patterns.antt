-- ===== src/Incidents/Selector/Patterns.antt =====
-- The patterns that the scan of a log looks for (cyan/training/incidents/selector.py): _ERROR_LINE,
-- _FRAME and blank lines. A line is its bytes.
use zgent.Common.{
  ℕ, Bool, true, false, not, ◌&&◌, ◌||◌, Option, none, some, [], ◌∷◌, drop, all, leb, ◌==◌,
  if◌then◌else◌,
}
use zgent.Common.Text.{codes, has_prefix, has_part, is_letter_or_digit}
use zgent.World.{Bytes}

-- [A-Za-z0-9_]
is_word : ℕ → Bool
is_word c = is_letter_or_digit c || c == 95

-- [A-Za-z_]
is_name_start : ℕ → Bool
unfolding is_word
is_name_start c = is_word c && not (leb 48 c && leb c 57)

-- (?::|\b) behind a letter
at_boundary : Bytes → Bool
unfolding is_word
at_boundary [] = true
at_boundary (c ∷ s) = not (is_word c)

-- A word at the front, and a boundary behind it.
has_word : Bytes → Bytes → Bool
unfolding at_boundary
has_word [] s = at_boundary s
has_word (c ∷ word) [] = false
has_word (c ∷ word) (d ∷ s) = c == d && has_word word s

-- [A-Za-z0-9_.]*(?:Error|Exception)(?::|\b)
ends_name : Bytes → Bool
unfolding has_word is_word
ends_name [] = false
ends_name (c ∷ s) =
    has_word (codes "Error") (c ∷ s)
    || has_word (codes "Exception") (c ∷ s)
    || (is_word c || c == 46) && ends_name s

-- A match of _ERROR_LINE behind its first group.
names_error : Bytes → Bool
unfolding ends_name is_name_start has_word
names_error [] = false
names_error (c ∷ s) = is_name_start c && ends_name s || has_word (codes "Fatal") (c ∷ s)

error_behind : Bytes → Bool
unfolding names_error is_word
error_behind [] = false
error_behind (c ∷ s) = not (is_word c) && names_error s || error_behind s

-- _ERROR_LINE.search
unfoldable pub is_error_line : Bytes → Bool
unfolding error_behind names_error
is_error_line line = names_error line || error_behind line

is_quote : ℕ → Bool
is_quote c = c == 34 || c == 39

onto_path : ℕ → Option Bytes → Option Bytes
onto_path c none = none
onto_path c (some path) = some (c ∷ path)

-- [^"']*["']
until_quote : Bytes → Option Bytes
unfolding is_quote onto_path
until_quote [] = none
until_quote (c ∷ s) = let rest = until_quote s in if is_quote c then some [] else onto_path c rest

-- ["']([^"']+)["']
quoted : Bytes → Option Bytes
unfolding is_quote until_quote onto_path
quoted [] = none
quoted (c ∷ []) = none
quoted (c ∷ d ∷ s) = if is_quote c && not (is_quote d) then onto_path d (until_quote s) else none

first_of : Option Bytes → Option Bytes → Option Bytes
first_of none found = found
first_of (some path) found = some path

-- The first group of _FRAME.search
unfoldable pub frame_path : Bytes → Option Bytes
unfolding quoted first_of
frame_path [] = none
frame_path (c ∷ s) =
    let rest = frame_path s in
    if has_prefix (codes "File ") (c ∷ s) then first_of (quoted (drop 5 (c ∷ s))) rest else rest

unfoldable pub in_workspace : Bytes → Option Bytes → Bool
in_workspace workspace none = false
in_workspace workspace (some path) = has_part workspace path

-- not line.strip()
unfoldable pub is_blank : Bytes → Bool
is_blank line = all (λ c. c == 32 || leb 9 c && leb c 13) line
