-- ===== src/Incidents/Patch/Hunks/Replacement.antt =====
-- The diff of a replacement, applied to the original, gives the replacement (patch.py:
-- build_replacement_diff and apply_unified_diff_to_text).
use Prim.Native.Char.{Char, code}
use mathlib.Core.Logic.{dif_pos, dif_neg}
use mathlib.Core.WellFounded.{Acc}
use native.Mathlib.Bridge.{le_prop}
use native.Mathlib.Decide.{dec_lt}
use zgent.Common.{
  ℕ, suc, ◌/◌, ◌%◌, ◌≤◌, ◌<◌, ◌≡◌, refl, ap, ◌∙◌, false, none, List, [], ◌∷◌, ◌++◌, All, inl, inr,
  arith, length, Bool-cases, ◌==◌,
}
use zgent.Common.Chars.{Text, chars, starts}
use zgent.Common.Exec.{ok}
use zgent.Common.Text.{is_break}
use zgent.Incidents.Patch.{◌>>=◌}
use zgent.Incidents.Patch.Diff.{
  Edit, Group, olds, news, edit_line, edit_lines, group_lines, header_line, range_text, digits,
  digits_onto, digit_char, Acc-below, render, lacks_newline, marker_line, unified_diff,
}
use zgent.Incidents.Patch.Hunks.{outside, hunk_header, expect, begin, inside}
use zgent.Incidents.Patch.Hunks.Headers.{digit_char-code, range_of, hunk_header-header_line}
use zgent.Incidents.Patch.Hunks.Lines.{newline, NoBreak, NoBreak-any, NoBreak-append, IsLine}
use zgent.Incidents.Patch.Hunks.Edits.{text, NoHeader, EditPiece, lacks-full, lacks-whole}
use zgent.Incidents.Patch.Hunks.Groups.{
  IsScript, GroupNoHeader, GroupPieces, group-apply, render-header_line,
}

IsLine-append : (p t : Text) → NoBreak p → IsLine t → IsLine (p ++ t)
IsLine-append [] t h l = l
IsLine-append (c ∷ p) t h l =
    let (body, plain, e) = IsLine-append p t h.1 l in (c ∷ body, (h.0, plain), ap (λ s. c ∷ s) e)

digit-NoBreak : (n : ℕ) → n ≤ 9 → is_break (code (digit_char n)) ≡ false
unfolding is_break
digit-NoBreak n h = let e = digit_char-code n h in ground (arith, e)

digits_onto-IsLine :
    (n : ℕ) (rest : Text) (w : Acc ◌<◌ n) → IsLine rest → IsLine (digits_onto n rest w)
unfolding digits_onto
digits_onto-IsLine n rest (Acc.intro _ smaller) l = elim (dec_lt 9 n) [
  | yes h ↦ rw (dif_pos _ le_prop h _ _) (
      digits_onto-IsLine (n / 10) (digit_char (n % 10) ∷ rest) (smaller (n / 10) (omega arith)) (
        IsLine-append (digit_char (n % 10) ∷ []) rest (digit-NoBreak (n % 10) (omega arith), tt) l))
  | no h ↦
      rw (dif_neg _ h _ _)
        (IsLine-append (digit_char n ∷ []) rest (digit-NoBreak n (omega arith), tt) l)
]

digits-IsLine : (n : ℕ) (rest : Text) → IsLine rest → IsLine (digits n rest)
unfolding digits
digits-IsLine n rest l = digits_onto-IsLine n rest (Acc-below (suc n) n (omega arith)) l

after_comma-IsLine : (n : ℕ) (rest : Text) → IsLine rest → IsLine (chars "," ++ digits n rest)
unfolding is_break
after_comma-IsLine n rest l =
    IsLine-append (chars ",") (digits n rest) (refl, tt) (digits-IsLine n rest l)

range_text-IsLine : (i n : ℕ) (rest : Text) → IsLine rest → IsLine (range_text i n rest)
unfolding range_text
range_text-IsLine i n rest l = elim (Bool-cases (n == 1)) [
  | inl one ↦ rw one (digits-IsLine (suc i) rest l)
  | inr more ↦ elim (Bool-cases (n == 0)) [
    | inl e ↦ rw (more, e) (digits-IsLine i _ (after_comma-IsLine 0 rest l))
    | inr e ↦ rw (more, e) (digits-IsLine (suc i) _ (after_comma-IsLine n rest l))
  ]
]

header_line-IsLine : (g : Group) → IsLine (header_line g)
unfolding header_line is_break
header_line-IsLine g =
    let new = length (news g.edits) in
    let tail : IsLine (chars " @@\n") = (chars " @@", (refl, (refl, (refl, tt))), refl) in
    IsLine-append (chars "@@ -") _ (refl, (refl, (refl, (refl, tt))))
      (range_text-IsLine g.old_index (length (olds g.edits)) _ (
        IsLine-append (chars " +") (range_text g.new_index new (chars " @@\n")) (refl, (refl, tt))
          (range_text-IsLine g.new_index new (chars " @@\n") tail)))

edit_line-IsLine :
    (e : Edit) (body : Text) → NoBreak body → text e ≡ body ++ newline → IsLine (edit_line e)
unfolding edit_line text is_break
edit_line-IsLine (Edit.both l) body h e = (" " ∷ body, (refl, h), ap (λ t. " " ∷ t) e)
edit_line-IsLine (Edit.old l) body h e = ("-" ∷ body, (refl, h), ap (λ t. "-" ∷ t) e)
edit_line-IsLine (Edit.new l) body h e = ("+" ∷ body, (refl, h), ap (λ t. "+" ∷ t) e)

edit_line-NoBreak : (e : Edit) → NoBreak (text e) → NoBreak (edit_line e)
unfolding edit_line text is_break
edit_line-NoBreak (Edit.both l) h = (refl, h)
edit_line-NoBreak (Edit.old l) h = (refl, h)
edit_line-NoBreak (Edit.new l) h = (refl, h)

marker_line-IsLine : IsLine marker_line
unfolding marker_line is_break
marker_line-IsLine = (
  chars "\\ No newline at end of file",
  NoBreak-any (chars "\\ No newline at end of file") refl,
  refl,
)

render-lines :
    (es : List Edit) (ls : List Text)
    → All NoHeader es
    → All EditPiece es
    → All IsLine (render ls)
    → All IsLine (render (edit_lines es ++ ls))
unfolding render edit_lines EditPiece
render-lines [] ls plain pieces h = h
render-lines (e ∷ es) ls plain ((body, whole, inl full), pieces) h =
    rw (lacks-full e body full)
      (edit_line-IsLine e body whole full, render-lines es ls plain.1 pieces h)
render-lines (e ∷ es) ls plain ((body, whole, inr short), pieces) h =
    let w : NoBreak (text e) = rw short whole in
    rw (lacks-whole e plain.0 w) (
      (edit_line e, edit_line-NoBreak e w, refl),
      (marker_line-IsLine, render-lines es ls plain.1 pieces h),
    )

group_lines-IsLine :
    (gs : List Group)
    → All GroupNoHeader gs
    → All GroupPieces gs
    → All IsLine (render (group_lines gs))
unfolding group_lines
group_lines-IsLine [] plain pieces = unfold render in tt
group_lines-IsLine (g ∷ gs) plain pieces =
    rw (render-header_line g (edit_lines g.edits ++ group_lines gs)) (
      header_line-IsLine g,
      render-lines g.edits (group_lines gs) plain.0 pieces.0
          (group_lines-IsLine gs plain.1 pieces.1),
    )

module _ (path : Text) where
  abbrev old_header : Text
  old_header = chars "--- a/" ++ path ++ chars "\n"

  abbrev new_header : Text
  new_header = chars "+++ b/" ++ path ++ chars "\n"

  headers-IsLine : NoBreak path → IsLine old_header × IsLine new_header
  unfolding is_break
  headers-IsLine h = (
    (
      chars "--- a/" ++ path,
      NoBreak-append (chars "--- a/") path (NoBreak-any (chars "--- a/") refl) h,
      refl,
    ),
    (
      chars "+++ b/" ++ path,
      NoBreak-append (chars "+++ b/") path (NoBreak-any (chars "+++ b/") refl) h,
      refl,
    ),
  )

  render-unified_diff :
      (g : Group) (gs : List Group)
      → render (unified_diff path (g ∷ gs))
        ≡ old_header ∷ new_header ∷ render (group_lines (g ∷ gs))
  unfolding render unified_diff lacks_newline starts
  render-unified_diff g gs = refl

  no_hunk : (c : Char) (s : Text) → (b'@' == code c) ≡ false → hunk_header (c ∷ s) ≡ none
  unfolding hunk_header expect starts
  no_hunk c s h = rw (h, hunk_header)

  outside-skip :
      (source : List Text) (line : Text) (rest : List Text)
      → hunk_header line ≡ none
      → outside source false 0 [] (line ∷ rest) ≡ outside source false 0 [] rest
  unfolding outside
  outside-skip source line rest h = rw (h, outside)

  outside-open :
      (source : List Text) (g : Group) (gs : List Group)
      → outside source false 0 [] (render (group_lines (g ∷ gs))) ≡ (
          begin source (range_of g) 0 [] >>= λ n.
          inside source n (render (edit_lines g.edits ++ group_lines gs)))
  unfolding outside group_lines
  outside-open source g gs = rw (
    render-header_line g (edit_lines g.edits ++ group_lines gs),
    hunk_header-header_line g,
    outside,
  )

  -- The loops over a rendered diff.
  pub outside-rendered :
      (source new : List Text) (g : Group) (gs : List Group)
      → IsScript 0 source new (g ∷ gs)
      → All GroupNoHeader (g ∷ gs)
      → All GroupPieces (g ∷ gs)
      → outside source false 0 [] (render (unified_diff path (g ∷ gs))) ≡ ok new
  outside-rendered source new g gs script plain pieces = rw (render-unified_diff g gs) (
      outside-skip source old_header _ (no_hunk "-" _ refl)
      ∙ outside-skip source new_header _ (no_hunk "+" _ refl)
      ∙ outside-open source g gs
      ∙ group-apply source g gs 0 [] source new (omega arith) refl script plain pieces)

  -- The lines of a rendered diff are what its text is split into.
  pub diff-IsLine :
      (g : Group) (gs : List Group)
      → NoBreak path
      → All GroupNoHeader (g ∷ gs)
      → All GroupPieces (g ∷ gs)
      → All IsLine (render (unified_diff path (g ∷ gs)))
  diff-IsLine g gs h plain pieces =
      let (first, second) = headers-IsLine h in
      rw (render-unified_diff g gs) (first, (second, group_lines-IsLine (g ∷ gs) plain pieces))
