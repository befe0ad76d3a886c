-- ===== src/Incidents/Patch/Diff.antt =====
-- The unified diff of a replacement (cyan/training/incidents/patch.py: build_replacement_diff) with
-- the lines that difflib.unified_diff prints. The comparison of the two files itself is difflib's:
-- its grouped operations are an argument.
use Prim.Native.Char.{Char, code}
use mathlib.Core.Logic.{dite}
use mathlib.Core.WellFounded.{Acc}
use native.Mathlib.Decide.{dec_lt}
use zgent.Common.{
  ℕ, zero, suc, ◌/◌, ◌%◌, ◌<◌, Bool, false, not, ◌&&◌, ◌||◌, List, [], ◌∷◌, ◌++◌, length, arith,
  ◌==◌, if◌then◌else◌,
}
use zgent.Common.Chars.{Text, chars, same, starts, split_keep, concat}
use zgent.Common.Exec.{Result, ok, err, patch_error}

unfoldable pub Acc-below : (k n : ℕ) → n < k → Acc ◌<◌ n
Acc-below zero n h = elim h [ ]
Acc-below (suc k) n h = Acc.intro n (λ m hm. Acc-below k m (omega arith))

-- The character of a digit.
unfoldable pub digit_char : ℕ → Char
digit_char n =
    if n == 0
    then "0"
    else if n == 1
    then "1"
    else if n == 2
    then "2"
    else if n == 3
    then "3"
    else if n == 4
    then "4"
    else if n == 5
    then "5"
    else if n == 6
    then "6"
    else if n == 7
    then "7"
    else if n == 8
    then "8"
    else "9"

-- The characters of a decimal numeral in front of a text.
unfoldable pub digits_onto : (n : ℕ) → Text → Acc ◌<◌ n → Text
digits_onto n rest (Acc.intro _ smaller) =
    dite (dec_lt 9 n)
      (λ h. digits_onto (n / 10) (digit_char (n % 10) ∷ rest) (smaller (n / 10) (omega arith)))
      (λ h. digit_char n ∷ rest)

unfoldable pub digits : ℕ → Text → Text
digits n rest = digits_onto n rest (Acc-below (suc n) n (omega arith))

-- A line of a group: of both files, of the old one or of the new one.
pub data Edit : Type 0 where
  both old new : Text → Edit

-- A group of difflib's operations: the numbers of lines in front of it, and its lines in the order
-- in which they are printed.
pub record Group : Type 0 where
  pub old_index : ℕ
  pub new_index : ℕ
  pub edits : List Edit

unfoldable pub olds : List Edit → List Text
olds [] = []
olds (Edit.both l ∷ es) = l ∷ olds es
olds (Edit.old l ∷ es) = l ∷ olds es
olds (Edit.new l ∷ es) = olds es

unfoldable pub news : List Edit → List Text
news [] = []
news (Edit.both l ∷ es) = l ∷ news es
news (Edit.old l ∷ es) = news es
news (Edit.new l ∷ es) = l ∷ news es

-- difflib's range of a header: "start" for one line, else "start,count", where the start of an
-- empty range is the line before it.
unfoldable pub range_text : (index count : ℕ) → Text → Text
range_text index count rest =
    if count == 1
    then digits (suc index) rest
    else if count == 0
    then digits index (chars "," ++ digits 0 rest)
    else digits (suc index) (chars "," ++ digits count rest)

unfoldable pub header_line : Group → Text
header_line g =
    chars "@@ -"
    ++ range_text g.old_index (length (olds g.edits))
        (chars " +" ++ range_text g.new_index (length (news g.edits)) (chars " @@\n"))

unfoldable pub edit_line : Edit → Text
edit_line (Edit.both l) = chars " " ++ l
edit_line (Edit.old l) = chars "-" ++ l
edit_line (Edit.new l) = chars "+" ++ l

unfoldable pub edit_lines : List Edit → List Text
edit_lines [] = []
edit_lines (e ∷ es) = edit_line e ∷ edit_lines es

unfoldable pub group_lines : List Group → List Text
group_lines [] = []
group_lines (g ∷ gs) = header_line g ∷ edit_lines g.edits ++ group_lines gs

-- difflib.unified_diff
unfoldable pub unified_diff : Text → List Group → List Text
unified_diff path [] = []
unified_diff path (g ∷ gs) =
    (chars "--- a/" ++ path ++ chars "\n")
    ∷ (chars "+++ b/" ++ path ++ chars "\n")
    ∷ group_lines (g ∷ gs)

unfoldable pub ends_line : Text → Bool
ends_line [] = false
ends_line (c ∷ []) = code c == 10 || code c == 13
ends_line (c ∷ d ∷ s) = ends_line (d ∷ s)

unfoldable pub lacks_newline : Text → Bool
lacks_newline line =
    (starts (chars " ") line || starts (chars "-") line || starts (chars "+") line)
    && not (starts (chars "--- ") line || starts (chars "+++ ") line)
    && not (ends_line line)

unfoldable pub marker_line : Text
marker_line = chars "\\ No newline at end of file\n"

unfoldable pub render : List Text → List Text
render [] = []
render (line ∷ rest) =
    if lacks_newline line
    then (line ++ chars "\n") ∷ marker_line ∷ render rest
    else line ∷ render rest

unfoldable pub non_empty : Text → Result Text
non_empty [] = err patch_error
non_empty (c ∷ s) = ok (c ∷ s)

-- build_replacement_diff, with the grouped operations that difflib finds
unfoldable pub build_replacement_diff :
    (List Text → List Text → List Group) → Text → Text → Text → Result Text
build_replacement_diff grouped path original updated =
    if same original updated
    then err patch_error
    else non_empty
        (concat (render (unified_diff path (grouped (split_keep original) (split_keep updated)))))
