-- ===== src/Incidents/Patch/Hunks/Edits.antt =====
-- One edit of a diff script in the loops (patch.py, apply_unified_diff_to_text): its lines, and what
-- they do inside a hunk.
use Prim.Native.Char.{Char, code}
use zgent.Common.{
  ℕ, ◌≡◌, refl, ap, ◌∙◌, Bool, true, false, ◌&&◌, ◌||◌, List, [], ◌∷◌, ◌++◌, All, arith, ◌==◌,
}
use zgent.Common.Chars.{Text, chars, starts}
use zgent.Common.Text.{is_break}
use zgent.Incidents.Patch.{◌>>=◌}
use zgent.Incidents.Patch.Diff.{Edit, edit_line, marker_line, lacks_newline, ends_line}
use zgent.Incidents.Patch.Hunks.{
  Hunk, Range, operate, inside, outside, begin, close, ended, finish, kind, is_marker, chop,
  hunk_header, stands, LineKind, operation,
}
use zgent.Incidents.Patch.Hunks.Lines.{newline, NoBreak, IsPiece}

-- The text of an edit.
unfoldable pub text : Edit → Text
text (Edit.both l) = l
text (Edit.old l) = l
text (Edit.new l) = l

unfoldable pub sign : Edit → Char
sign (Edit.both l) = " "
sign (Edit.old l) = "-"
sign (Edit.new l) = "+"

-- The line of an edit does not look like the header of a file.
abbrev pub NoHeader : Edit → Type 0
NoHeader (Edit.both l) = Unit {0}
NoHeader (Edit.old l) = starts (chars "-- ") l ≡ false
NoHeader (Edit.new l) = starts (chars "++ ") l ≡ false

unfoldable pub EditPiece : Edit → Type 0
EditPiece e = IsPiece (text e)

-- A rest of the patch that does not begin with a marker.
abbrev pub NoMarker : List Text → Type 0
NoMarker [] = Unit {0}
NoMarker (line ∷ rest) = is_marker line ≡ false

kind-edit : (e : Edit) → NoHeader e → kind (edit_line e) ≡ operation (sign e) (text e)
unfolding kind edit_line sign text hunk_header zgent.Incidents.Patch.Hunks.expect starts
kind-edit (Edit.both l) h = refl
kind-edit (Edit.old l) h = rw h
kind-edit (Edit.new l) h = rw h

-- The same edit with a line feed behind its text.
with_newline : Edit → Edit
with_newline (Edit.both l) = Edit.both (l ++ newline)
with_newline (Edit.old l) = Edit.old (l ++ newline)
with_newline (Edit.new l) = Edit.new (l ++ newline)

edit_line-with_newline : (e : Edit) → edit_line e ++ newline ≡ edit_line (with_newline e)
unfolding edit_line with_newline
edit_line-with_newline (Edit.both l) = refl
edit_line-with_newline (Edit.old l) = refl
edit_line-with_newline (Edit.new l) = refl

with_newline-sign :
    (e : Edit) → (sign (with_newline e) ≡ sign e) × (text (with_newline e) ≡ text e ++ newline)
unfolding with_newline sign text
with_newline-sign (Edit.both l) = (refl, refl)
with_newline-sign (Edit.old l) = (refl, refl)
with_newline-sign (Edit.new l) = (refl, refl)

starts-newline :
    (p l : Text) → All (λ c. (code c == 10) ≡ false) p → starts p (l ++ newline) ≡ starts p l
unfolding starts
starts-newline [] l h = refl
starts-newline (c ∷ p) [] h = rw (h.0)
starts-newline (c ∷ p) (d ∷ l) h = rw (starts-newline p l h.1)

NoHeader-with_newline : (e : Edit) → NoHeader e → NoHeader (with_newline e)
unfolding with_newline
NoHeader-with_newline (Edit.both l) h = tt
NoHeader-with_newline (Edit.old l) h = starts-newline (chars "-- ") l (refl, (refl, (refl, tt))) ∙ h
NoHeader-with_newline (Edit.new l) h = starts-newline (chars "++ ") l (refl, (refl, (refl, tt))) ∙ h

no_end : (c : Char) → is_break (code c) ≡ false → (code c == 10 || code c == 13) ≡ false
unfolding is_break
no_end c b = ground (arith, b)

no_return : (n : ℕ) → (n == 10 || n == 13) ≡ false → (n == 13) ≡ false
no_return n h = ground (arith, h)

chop-newline : (l : Text) → NoBreak l → chop (l ++ newline) ≡ l
unfolding chop
chop-newline [] h = refl
chop-newline (c ∷ []) h = rw (no_return (code c) (no_end c h.0))
chop-newline (c ∷ d ∷ l) h =
    rw (no_return (code c) (no_end c h.0)) (ap (λ t. c ∷ t) (chop-newline (d ∷ l) h.1))

ends_line-newline : (t : Text) → ends_line (t ++ newline) ≡ true
unfolding ends_line
ends_line-newline [] = refl
ends_line-newline (c ∷ []) = refl
ends_line-newline (c ∷ d ∷ t) = ends_line-newline (d ∷ t)

ends_line-whole :
    (c : Char) (t : Text)
    → (code c == 10 || code c == 13) ≡ false
    → NoBreak t
    → ends_line (c ∷ t) ≡ false
unfolding ends_line
ends_line-whole c [] h w = h
ends_line-whole c (d ∷ t) h w = ends_line-whole d t (no_end d w.0) w.1

and_false : (a b : Bool) → (a && b && false) ≡ false
and_false true true = refl
and_false true false = refl
and_false false b = refl

-- A line with its line feed gets no marker.
pub lacks-full :
    (e : Edit) (body : Text) → text e ≡ body ++ newline → lacks_newline (edit_line e) ≡ false
unfolding lacks_newline edit_line text
lacks-full (Edit.both l) body h = rw (h, ends_line-newline (" " ∷ body)) (search and_false)
lacks-full (Edit.old l) body h = rw (h, ends_line-newline ("-" ∷ body)) (search and_false)
lacks-full (Edit.new l) body h = rw (h, ends_line-newline ("+" ∷ body)) (search and_false)

-- A line without one gets a marker, unless it looks like the header of a file.
pub lacks-whole : (e : Edit) → NoHeader e → NoBreak (text e) → lacks_newline (edit_line e) ≡ true
unfolding lacks_newline edit_line text starts
lacks-whole (Edit.both l) h w = rw (ends_line-whole " " l refl w)
lacks-whole (Edit.old l) h w = rw (h, ends_line-whole "-" l refl w)
lacks-whole (Edit.new l) h w = rw (h, ends_line-whole "+" l refl w)

module _ (source : List Text) where
  pub inside-edit :
      (e : Edit) (h : Hunk) (rest : List Text)
      → NoHeader e
      → NoMarker rest
      → inside source h (edit_line e ∷ rest)
        ≡ (operate source (sign e) (text e) h >>= λ h'. inside source h' rest)
  unfolding inside
  inside-edit e h [] plain m = rw (kind-edit e plain, inside)
  inside-edit e h (next ∷ rest) plain m = rw (kind-edit e plain, inside, m)

  pub inside-marked :
      (e : Edit) (h : Hunk) (rest : List Text)
      → NoHeader e
      → NoBreak (text e)
      → inside source h ((edit_line e ++ newline) ∷ marker_line ∷ rest)
        ≡ (operate source (sign e) (text e) h >>= λ h'. inside source h' rest)
  inside-marked e h rest plain whole =
      let kind_is : kind (edit_line e ++ newline) ≡ operation (sign e) (text e ++ newline) =
        rw (edit_line-with_newline e, ← (with_newline-sign e).0, ← (with_newline-sign e).1)
          (kind-edit (with_newline e) (NoHeader-with_newline e plain)) in
      unfold inside in rw (kind_is, inside, marker, chop-newline (text e) whole)
    where
      marker : is_marker marker_line ≡ true
      marker = unfold is_marker marker_line starts in refl
