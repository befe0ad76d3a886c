-- ===== src/Incidents/Patch/Hunks/Headers.antt =====
-- The header of a hunk is read back (patch.py, _HUNK_HEADER).
use Prim.Native.Char.{Char, code}
use mathlib.Core.Logic.{dif_pos, dif_neg}
use mathlib.Core.WellFounded.{Acc}
use native.Mathlib.Bridge.{le_prop}
use native.Mathlib.Decide.{dec_lt}
use zgent.Common.{
  ℕ, zero, suc, ◌+◌, ◌-◌, ◌*◌, ◌/◌, ◌%◌, ◌<◌, ◌≤◌, ◌≡◌, refl, sym, ap, ◌∙◌, Bool, true, false, not,
  ◌&&◌, ◌||◌, Option, none, some, List, [], ◌∷◌, ◌++◌, length, inl, inr, Bool-cases, arith, ◌==◌,
  if◌then◌else◌,
}
use zgent.Common.Chars.{Text, chars}
use zgent.Incidents.Patch.Diff.{
  digit_char, digits_onto, digits, Acc-below, range_text, Group, header_line, olds, news,
}
use zgent.Incidents.Patch.Hunks.{
  is_digit, read_digits, read_number, read_count, Range, hunk_header, expect,
}

pub digit_char-code : (n : ℕ) → n ≤ 9 → code (digit_char n) ≡ b'0' + n
unfolding digit_char
digit_char-code zero h = refl
digit_char-code (suc zero) h = refl
digit_char-code (suc (suc zero)) h = refl
digit_char-code (suc (suc (suc zero))) h = refl
digit_char-code (suc (suc (suc (suc zero)))) h = refl
digit_char-code (suc (suc (suc (suc (suc zero))))) h = refl
digit_char-code (suc (suc (suc (suc (suc (suc zero)))))) h = refl
digit_char-code (suc (suc (suc (suc (suc (suc (suc zero))))))) h = refl
digit_char-code (suc (suc (suc (suc (suc (suc (suc (suc zero)))))))) h = refl
digit_char-code (suc (suc (suc (suc (suc (suc (suc (suc (suc zero))))))))) h = refl
digit_char-code (suc (suc (suc (suc (suc (suc (suc (suc (suc (suc n)))))))))) h =
    absurd (omega arith)

is_digit-digit_char : (n : ℕ) → n ≤ 9 → is_digit (digit_char n) ≡ true
unfolding is_digit
is_digit-digit_char n h = ground (arith, digit_char-code n)

digits_onto-head :
    (n : ℕ) (rest : Text) (w : Acc ◌<◌ n)
    → (c : Char) × (s : Text) × (digits_onto n rest w ≡ c ∷ s) × (is_digit c ≡ true)
unfolding digits_onto
digits_onto-head n rest (Acc.intro _ smaller) = elim (dec_lt 9 n) [
  | yes h ↦
      rw (dif_pos _ le_prop h _ _)
        (digits_onto-head (n / 10) (digit_char (n % 10) ∷ rest) (smaller (n / 10) (omega arith)))
  | no h ↦ rw (dif_neg _ h _ _) (digit_char n, rest, refl, is_digit-digit_char n (omega arith))
]

read_digit :
    (k n : ℕ) (rest : Text)
    → n ≤ 9
    → read_digits k (digit_char n ∷ rest) ≡ read_digits (10 * k + n) rest
unfolding read_digits
read_digit k n rest h =
    rw (is_digit-digit_char n h) (ap (λ m. read_digits m rest) (omega (arith, digit_char-code n h)))

read_digits-digits_onto :
    (n : ℕ) (rest : Text) (w : Acc ◌<◌ n)
    → read_digits 0 (digits_onto n rest w) ≡ read_digits n rest
unfolding digits_onto
read_digits-digits_onto n rest (Acc.intro _ smaller) = elim (dec_lt 9 n) [
  | yes h ↦ rw (dif_pos _ le_prop h _ _) (
      read_digits-digits_onto (n / 10) (digit_char (n % 10) ∷ rest) (smaller (n / 10) (omega arith))
      ∙ read_digit (n / 10) (n % 10) rest (omega arith)
      ∙ ap (λ m. read_digits m rest) (omega arith))
  | no h ↦
      rw (dif_neg _ h _ _)
        (read_digit 0 n rest (omega arith) ∙ ap (λ m. read_digits m rest) (omega arith))
]

read_number-cons :
    (c : Char) (s : Text) → is_digit c ≡ true → read_number (c ∷ s) ≡ some (read_digits 0 (c ∷ s))
unfolding read_number
read_number-cons c s h = rw h

stops : (n : ℕ) (c : Char) (s : Text) → is_digit c ≡ false → read_digits n (c ∷ s) ≡ (n, c ∷ s)
unfolding read_digits
stops n c s h = rw h

-- A number is read up to the first character that is no digit.
read_number-digits :
    (n : ℕ) (c : Char) (s : Text)
    → is_digit c ≡ false
    → read_number (digits n (c ∷ s)) ≡ some (n, c ∷ s)
unfolding digits
read_number-digits n c s h =
    let w = Acc-below (suc n) n (omega arith) in
    let (d, t, starts, is) = digits_onto-head n (c ∷ s) w in
    let whole : read_digits 0 (d ∷ t) ≡ (n, c ∷ s) =
      rw (← starts) (read_digits-digits_onto n (c ∷ s) w ∙ stops n c s h) in
    rw starts (read_number-cons d t is ∙ ap some whole)

counted : ℕ → ℕ → ℕ
counted index count = if count == 0 then index else suc index

no_comma : (c : Char) (s : Text) → (code c == b',') ≡ false → read_count (c ∷ s) ≡ (1, c ∷ s)
unfolding read_count
no_comma c s h = rw h

comma : is_digit "," ≡ false
unfolding is_digit
comma = refl

after_comma :
    (count : ℕ) (c : Char) (s : Text)
    → is_digit c ≡ false
    → read_count (chars "," ++ digits count (c ∷ s)) ≡ (count, c ∷ s)
unfolding read_count
after_comma count c s h = rw (read_number-digits count c s h)

-- A range is read back, up to a character that is neither a digit nor a comma.
range-read :
    (index count : ℕ) (c : Char) (s : Text)
    → is_digit c ≡ false
    → (code c == b',') ≡ false
    → (t : Text) × (read_number (range_text index count (c ∷ s)) ≡ some (counted index count, t))
      × (read_count t ≡ (count, c ∷ s))
unfolding range_text counted
range-read index count c s h k = elim (Bool-cases (count == 1)) [
  | inl one ↦
      let single : count ≡ 1 = ground (arith, one) in
      (c ∷ s, rw single (read_number-digits (suc index) c s h), rw single (no_comma c s k))
  | inr more ↦ elim (Bool-cases (count == 0)) [
    | inl none_in ↦
        let empty : count ≡ 0 = ground (arith, none_in) in
        (
          chars "," ++ digits 0 (c ∷ s),
          rw empty (read_number-digits index "," (digits 0 (c ∷ s)) comma),
          rw empty (after_comma 0 c s h),
        )
    | inr many ↦ (
      chars "," ++ digits count (c ∷ s),
      rw (more, many) (read_number-digits (suc index) "," (digits count (c ∷ s)) comma),
      after_comma count c s h,
    )
  ]
]

space : is_digit " " ≡ false
unfolding is_digit
space = refl

-- What the header of a group is read back as.
unfoldable pub range_of : Group → Range
unfolding counted
range_of g = record {
  old_start = counted g.old_index (length (olds g.edits));
  old_count = length (olds g.edits);
  new_count = length (news g.edits);
}

pub hunk_header-header_line : (g : Group) → hunk_header (header_line g) ≡ some (range_of g)
unfolding hunk_header header_line expect zgent.Common.Chars.starts range_of
hunk_header-header_line g =
    let tail = range_text g.new_index (length (news g.edits)) (chars " @@\n") in
    let (t, old, old_count) =
      range-read g.old_index (length (olds g.edits)) " " (chars "+" ++ tail) space refl in
    let (u, new, new_count) =
      range-read g.new_index (length (news g.edits)) " " (chars "@@\n") space refl in
    rw (old, old_count, new, new_count) refl
