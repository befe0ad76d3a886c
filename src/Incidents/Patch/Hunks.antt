-- ===== src/Incidents/Patch/Hunks.antt =====
-- The application of a unified diff in memory (cyan/training/incidents/patch.py: _diff_payload and
-- apply_unified_diff_to_text). The two nested loops are one recursion over the lines, which is
-- inside a hunk or outside. \d is an ASCII digit.
pub mod Lines
pub mod Headers
pub mod Edits
pub mod Scripts
pub mod Groups
pub mod Replacement
pub mod Reviewed
use Prim.Native.Char.{Char, code}
use zgent.Common.{
  ℕ, zero, suc, ◌+◌, ◌-◌, ◌*◌, Bool, true, false, not, ◌&&◌, ◌||◌, Option, none, some, List, [],
  ◌∷◌, ◌++◌, length, take, drop, leb, ltb, ◌==◌, if◌then◌else◌,
}
use zgent.Common.Chars.{Text, chars, same, starts, split_keep, concat}
use zgent.Common.Exec.{Result, ok, err, patch_error}
use zgent.Incidents.Models.{ChangeType, change}
use zgent.Incidents.Patch.{ParsedPatchFile, parse_unified_diff, ◌>>=◌}

unfoldable pub is_digit : Char → Bool
is_digit c = leb b'0' (code c) && leb (code c) b'9'

-- \d*, read on from a value
unfoldable pub read_digits : ℕ → Text → ℕ × Text
read_digits n [] = (n, [])
read_digits n (c ∷ s) =
    let more = read_digits (10 * n + (code c - b'0')) s in if is_digit c then more else (n, c ∷ s)

-- (\d+)
unfoldable pub read_number : Text → Option (ℕ × Text)
read_number [] = none
read_number (c ∷ s) = if is_digit c then some (read_digits 0 (c ∷ s)) else none

-- (?:,(\d+))?, with 1 for a count that is left out
unfoldable pub read_count : Text → ℕ × Text
read_count [] = (1, [])
read_count (c ∷ s) =
    if code c == b','
    then elim (read_number s) [ none ↦ (1, c ∷ s) | some counted ↦ counted ]
    else (1, c ∷ s)

unfoldable pub expect : Text → Text → Option Text
expect prefix s = if starts prefix s then some (drop (length prefix) s) else none

-- The groups that a header of a hunk is matched for.
pub record Range : Type 0 where
  pub old_start : ℕ
  pub old_count : ℕ
  pub new_count : ℕ

infixl 10 ◌and_then◌
abbrev pub ◌and_then◌ : {A B : Type 0} → Option A → (A → Option B) → Option B
none and_then f = none
some a and_then f = f a

-- _HUNK_HEADER.match; int() of the groups
unfoldable pub hunk_header : Text → Option Range
hunk_header line = expect (chars "@@ -") line and_then λ s. read_number s and_then λ old.
    let (old_count, s') = read_count old.1 in
    expect (chars " +") s' and_then λ t. read_number t and_then λ new.
    let (new_count, t') = read_count new.1 in
    expect (chars " @@") t' and_then λ _.
    some (record { old_start = old.0; old_count = old_count; new_count = new_count })

unfoldable pub is_marker : Text → Bool
is_marker line = starts (chars "\\ No newline at end of file") line

-- payload without its "\r\n", "\n" or "\r"
unfoldable pub chop : Text → Text
chop [] = []
chop (c ∷ []) = if code c == 10 || code c == 13 then [] else c ∷ []
chop (c ∷ d ∷ s) =
    let rest = chop (d ∷ s) in if code c == 13 && same (d ∷ s) (chars "\n") then [] else c ∷ rest

-- The state of the loops; `range` is the one of the current hunk.
pub record Hunk : Type 0 where
  pub cursor : ℕ
  pub output : List Text
  pub range : Range
  pub consumed : ℕ
  pub produced : ℕ

unfoldable pub is_operation : Char → Bool
is_operation c = code c == 32 || code c == b'+' || code c == b'-'

-- What a line is inside a hunk: the header of the next one, a file header, an operation with its
-- payload, or nothing.
pub data LineKind : Type 0 where
  header : Range → LineKind
  file_header skipped : LineKind
  operation : Char → Text → LineKind

kind_of_content : Text → LineKind
unfolding is_operation
kind_of_content [] = skipped
kind_of_content (c ∷ s) = if is_operation c then operation c s else skipped

kind_without_header : Text → LineKind
unfolding kind_of_content
kind_without_header line =
    if starts (chars "--- ") line || starts (chars "+++ ") line
    then file_header
    else kind_of_content line

unfoldable pub kind : Text → LineKind
unfolding kind_without_header
kind line = elim (hunk_header line) [ some range ↦ header range | none ↦ kind_without_header line ]

produce : Text → Hunk → Hunk
produce payload h = record h { output = h.output ++ (payload ∷ []); produced = suc h.produced }

-- The counts of a hunk that ends.
unfoldable pub close : Hunk → Result Hunk
close h =
    if h.consumed == h.range.old_count && h.produced == h.range.new_count
    then ok h
    else err patch_error

module _ (source : List Text) where
  -- source[cursor] != payload, or no such line
  unfoldable pub stands : ℕ → Text → Bool
  stands cursor payload = elim (drop cursor source) [ [] ↦ false | line ∷ _ ↦ same line payload ]

  consume : Text → Hunk → Result Hunk
  unfolding stands
  consume payload h =
      if stands h.cursor payload
      then ok (record h { cursor = suc h.cursor; consumed = suc h.consumed })
      else err patch_error

  -- One line of a hunk, by its operation.
  unfoldable pub operate : Char → Text → Hunk → Result Hunk
  unfolding consume produce
  operate op payload h =
      if code op == b'+'
      then ok (produce payload h)
      else if code op == b'-'
      then consume payload h
      else consume payload h >>= λ h'. ok (produce payload h')

  -- The begin of a hunk: the lines before it are copied.
  unfoldable pub begin : Range → ℕ → List Text → Result Hunk
  begin range cursor output =
      let target = range.old_start - 1 in
      if ltb target cursor || ltb (length source) target
      then err patch_error
      else ok (record {
        cursor = target;
        output = output ++ take (target - cursor) (drop cursor source);
        range = range;
        consumed = 0;
        produced = 0;
      })

  unfoldable pub finish : ℕ → List Text → List Text
  finish cursor output = output ++ drop cursor source

  -- The end of the patch inside a hunk.
  unfoldable pub ended : Hunk → Result (List Text)
  ended h = close h >>= λ h'. ok (finish h'.cursor h'.output)

  -- A run of the loops from a line on: none inside before the first hunk, and none between a file
  -- header and the next hunk; `saw` says if there was a hunk.
  unfoldable mutual
    unfolding kind

    pub outside : Bool → ℕ → List Text → List Text → Result (List Text)
    outside saw cursor output [] = if saw then ok (finish cursor output) else err patch_error
    outside saw cursor output (line ∷ rest) = elim (hunk_header line) [
      | none ↦ outside saw cursor output rest
      | some range ↦ begin range cursor output >>= λ h. inside h rest
    ]

    pub inside : Hunk → List Text → Result (List Text)
    inside h [] = ended h
    inside h (line ∷ []) = elim (kind line) [
      | skipped ↦ ended h
      | file_header ↦ ended h
      | header range ↦ close h >>= λ h'. begin range h'.cursor h'.output >>= ended
      | operation op payload ↦ operate op payload h >>= ended
    ]
    inside h (line ∷ next ∷ rest) = elim (kind line) [
      | skipped ↦ inside h (next ∷ rest)
      | file_header ↦ close h >>= λ h'. outside true h'.cursor h'.output (next ∷ rest)
      | header range ↦
          close h >>= λ h'. begin range h'.cursor h'.output >>= λ n. inside n (next ∷ rest)
      | operation op payload ↦
          if is_marker next
          then (operate op (chop payload) h >>= λ h'. inside h' rest)
          else (operate op payload h >>= λ h'. inside h' (next ∷ rest))
    ]

is_one_change : List ParsedPatchFile → Bool
is_one_change [] = false
is_one_change (f ∷ []) = elim f.change_type [ ChangeType.change ↦ true | _ ↦ false ]
is_one_change (f ∷ g ∷ fs) = false

-- apply_unified_diff_to_text
unfoldable pub apply_unified_diff_to_text : Text → Text → Result Text
unfolding outside is_one_change
apply_unified_diff_to_text original patch = parse_unified_diff patch >>= λ parsed.
    if not (is_one_change parsed)
    then err patch_error
    else outside (split_keep original) false 0 [] (split_keep patch) >>= λ output.
        ok (concat output)
