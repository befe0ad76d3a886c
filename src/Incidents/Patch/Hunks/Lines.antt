-- ===== src/Incidents/Patch/Hunks/Lines.antt =====
-- A text that is joined from lines is split into them again (str.splitlines(keepends=True), as
-- patch.py uses it).
use Prim.Native.Char.{Char, code}
use mathlib.Core.List.{append_assoc}
use text.Mathlib.TextEquality.{Char-path}
use zgent.Common.{
  ◌≡◌, refl, ap, ◌∙◌, true, false, List, [], ◌∷◌, ◌++◌, All, any, ◌⊎◌, inl, inr, arith, Bool-cases,
}
use zgent.Common.Chars.{Text, chars, concat, ends_here, onto_first, split_keep}
use zgent.Common.Text.{is_break}

abbrev pub newline : Text
newline = chars "\n"

-- No character of the text is a line boundary.
abbrev pub NoBreak : Text → Type 0
NoBreak = All (λ c. is_break (code c) ≡ false)

-- A line that ends with a line feed and holds no other boundary.
abbrev pub IsLine : Text → Type 0
IsLine l = (body : Text) × NoBreak body × (l ≡ body ++ newline)

-- The same, or such a line without its line feed.
abbrev pub IsPiece : Text → Type 0
IsPiece l = (body : Text) × NoBreak body × ((l ≡ body ++ newline) ⊎ (l ≡ body))

pub NoBreak-any : (t : Text) → any (λ c. is_break (code c)) t ≡ false → NoBreak t
NoBreak-any [] h = tt
NoBreak-any (c ∷ t) h = (ground (arith, h), NoBreak-any t (ground (arith, h)))

pub NoBreak-append : (s t : Text) → NoBreak s → NoBreak t → NoBreak (s ++ t)
NoBreak-append [] t h k = k
NoBreak-append (c ∷ s) t h k = (h.0, NoBreak-append s t h.1 k)

ends_here-newline : (rest : Text) → ends_here "\n" rest ≡ true
unfolding ends_here
ends_here-newline [] = refl
ends_here-newline (d ∷ s) = refl

ends_here-plain : (c : Char) (s : Text) → is_break (code c) ≡ false → ends_here c s ≡ false
unfolding ends_here
ends_here-plain c [] h = h
ends_here-plain c (d ∷ s) h = rw h

split_keep-line :
    (body rest : Text)
    → NoBreak body
    → split_keep (body ++ (newline ++ rest)) ≡ (body ++ newline) ∷ split_keep rest
unfolding split_keep onto_first
split_keep-line [] rest h = rw (ends_here-newline rest)
split_keep-line (c ∷ body) rest h =
    rw (ends_here-plain c (body ++ (newline ++ rest)) h.0, split_keep-line body rest h.1)

pub split_keep-concat : (ls : List Text) → All IsLine ls → split_keep (concat ls) ≡ ls
unfolding concat
split_keep-concat [] h = unfold split_keep in refl
split_keep-concat (l ∷ ls) ((body, plain, e), h) =
    rw (e, append_assoc body newline (concat ls))
      (split_keep-line body (concat ls) plain
        ∙ ap (λ k. (body ++ newline) ∷ k) (split_keep-concat ls h))

-- The line feed is the only line boundary of a text.
abbrev pub OnlyNewlines : Text → Type 0
OnlyNewlines = All (λ c. is_break (code c) ≡ true → code c ≡ 10)

onto_first-pieces :
    (c : Char) (ls : List Text)
    → is_break (code c) ≡ false
    → All IsPiece ls
    → All IsPiece (onto_first c ls)
unfolding onto_first
onto_first-pieces c [] b h = ((c ∷ [], (b, tt), inr refl), tt)
onto_first-pieces c (l ∷ ls) b ((body, plain, inl e), h) =
    ((c ∷ body, (b, plain), inl (ap (λ t. c ∷ t) e)), h)
onto_first-pieces c (l ∷ ls) b ((body, plain, inr e), h) =
    ((c ∷ body, (b, plain), inr (ap (λ t. c ∷ t) e)), h)

goes_on :
    (c : Char) (s : Text)
    → (is_break (code c) ≡ true → code c ≡ 10)
    → ends_here c s ≡ false
    → is_break (code c) ≡ false
unfolding ends_here
goes_on c [] only h = h
goes_on c (d ∷ s) only h = elim (Bool-cases (is_break (code c))) [
  | inl e ↦ absurd (ground (arith, only e, e, h))
  | inr e ↦ e
]

ended : (c : Char) (s : Text) → ends_here c s ≡ true → is_break (code c) ≡ true
unfolding ends_here
ended c [] h = h
ended c (d ∷ s) h = ground (arith, h)

alone : (c : Char) → code c ≡ 10 → c ∷ [] ≡ newline
alone c h = ap (λ d. d ∷ []) (Char-path c "\n" h)

pub split_keep-pieces : (s : Text) → OnlyNewlines s → All IsPiece (split_keep s)
unfolding split_keep
split_keep-pieces [] h = tt
split_keep-pieces (c ∷ s) (only, h) = elim (Bool-cases (ends_here c s)) [
  | inl e ↦ rw e (([], tt, inl (alone c (only (ended c s e)))), split_keep-pieces s h)
  | inr e ↦ rw e (onto_first-pieces c (split_keep s) (goes_on c s only e) (split_keep-pieces s h))
]
