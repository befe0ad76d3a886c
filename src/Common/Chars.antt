-- ===== src/Common/Chars.antt =====
-- Python's str where the program takes it apart: a list of characters.

use Prim.Native.Char.{Char, code}
use mathlib.Core.Path.{◌≡◌, refl, ap, ap₂, ◌∙◌}
use mathlib.Core.Logic.{inl, inr}
use mathlib.Core.Bool.{Bool, true, false, not, ◌&&◌, ◌||◌}
use mathlib.Core.List.{List, [], ◌∷◌, ◌++◌}
use native.Mathlib.Omega.{arith}
use text.Mathlib.TextEquality.{Char-path}
use zgent.Common.Tests.{◌==◌, if◌then◌else◌, Bool-cases}
use zgent.Common.Text.{is_break}
use Prim.Native.String.{String}

abbrev pub Text : Type 0
Text = List Char

abbrev pub chars : String → Text
chars String.[] = []
chars (String.◌∷◌ c s) = c ∷ chars s

-- The str of its characters.
abbrev pub text_of : Text → String
text_of [] = String.[]
text_of (c ∷ s) = String.◌∷◌ c (text_of s)

pub chars-text_of : (s : Text) → chars (text_of s) ≡ s
chars-text_of [] = refl
chars-text_of (c ∷ s) = ap (λ t. c ∷ t) (chars-text_of s)

-- s == t
unfoldable pub same : Text → Text → Bool
same [] [] = true
same [] (d ∷ t) = false
same (c ∷ s) [] = false
same (c ∷ s) (d ∷ t) = code c == code d && same s t

-- t.startswith(s)
unfoldable pub starts : Text → Text → Bool
starts [] t = true
starts (c ∷ s) [] = false
starts (c ∷ s) (d ∷ t) = code c == code d && starts s t

-- s in t
unfoldable pub occurs : Text → Text → Bool
unfolding starts
occurs s [] = starts s []
occurs s (d ∷ t) = starts s (d ∷ t) || occurs s t

unfoldable pub concat : List Text → Text
concat [] = []
concat (l ∷ ls) = l ++ concat ls

-- A character that ends its line: a boundary, but not a carriage return before its line feed.
unfoldable pub ends_here : Char → Text → Bool
unfolding is_break
ends_here c [] = is_break (code c)
ends_here c (d ∷ s) = is_break (code c) && not (code c == 13 && code d == 10)

unfoldable pub onto_first : Char → List Text → List Text
onto_first c [] = (c ∷ []) ∷ []
onto_first c (l ∷ ls) = (c ∷ l) ∷ ls

-- s.splitlines(keepends=True)
unfoldable pub split_keep : Text → List Text
unfolding ends_here onto_first
split_keep [] = []
split_keep (c ∷ s) =
    let rest = split_keep s in if ends_here c s then (c ∷ []) ∷ rest else onto_first c rest

-- A line of splitlines(keepends=True) without its end
unfoldable pub without_end : Text → Text
unfolding is_break
without_end [] = []
without_end (c ∷ s) = let rest = without_end s in if is_break (code c) then [] else c ∷ rest

pub same-eq : (s t : Text) → same s t ≡ true → s ≡ t
unfolding same
same-eq [] [] h = refl
same-eq [] (d ∷ t) h = absurd (cc)
same-eq (c ∷ s) [] h = absurd (cc)
same-eq (c ∷ s) (d ∷ t) h =
    let first : code c ≡ code d = ground (arith, h) in
    let rest : same s t ≡ true = ground (arith, h) in
    ap₂ (λ a b. a ∷ b) (Char-path c d first) (same-eq s t rest)

pub same_refl : (s : Text) → same s s ≡ true
unfolding same
same_refl [] = refl
same_refl (c ∷ s) = ground (arith, same_refl s)

concat-onto_first : (c : Char) (ls : List Text) → concat (onto_first c ls) ≡ c ∷ concat ls
unfolding onto_first concat
concat-onto_first c [] = refl
concat-onto_first c (l ∷ ls) = refl

-- The lines of a text with their ends are the text.
pub concat-split_keep : (s : Text) → concat (split_keep s) ≡ s
unfolding split_keep concat
concat-split_keep [] = refl
concat-split_keep (c ∷ s) = elim (Bool-cases (ends_here c s)) [
  | inl e ↦ rw e (ap (λ t. c ∷ t) (concat-split_keep s))
  | inr e ↦ rw e (concat-onto_first c (split_keep s) ∙ ap (λ t. c ∷ t) (concat-split_keep s))
]
