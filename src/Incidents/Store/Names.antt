-- ===== src/Incidents/Store/Names.antt =====
-- _validate_id of cyan/training/incidents/store.py
use zgent.Common.{
  ℕ, String, Bool, false, ◌||◌, List, [], ◌∷◌, length, all, ltb, ◌==◌, if◌then◌else◌,
}
use zgent.Common.Exec.{Result, ok, err, value_error}
use zgent.Common.Text.{codes, is_letter_or_digit}

-- _SAFE_ID_CHARS
is_safe_char : ℕ → Bool
unfolding is_letter_or_digit
is_safe_char c = is_letter_or_digit c || c == b'.' || c == b'_' || c == b'-'

valid_codes : List ℕ → Bool
unfolding is_safe_char
valid_codes [] = false
valid_codes (c ∷ cs) =
    if ltb 128 (length (c ∷ cs)) || c == b'.' || c == b'-' then false else all is_safe_char (c ∷ cs)

unfoldable pub validate_id : String → Result (Unit {0})
unfolding valid_codes
validate_id value = if valid_codes (codes value) then ok tt else err value_error
