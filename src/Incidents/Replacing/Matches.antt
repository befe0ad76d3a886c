-- ===== src/Incidents/Replacing/Matches.antt =====
-- The matches of a search text (cyan/training/incidents/tools.py: str.count and str.replace in
-- ProposePatchTool.invoke): a text with one match, and what replaces it.
use Prim.Native.Char.{Char, code}
use text.Mathlib.TextEquality.{Char-path}
use zgent.Common.{
  ℕ, zero, suc, ◌-◌, ◌≤◌, true, false, [], ◌∷◌, ◌++◌, length, drop, ◌≡◌, refl, ap, sym, ◌∙◌, inl,
  inr, Bool-cases, arith,
}
use mathlib.Core.Bool.{true≢false}
use mathlib.Core.Path.{ap₂}
use zgent.Common.Chars.{Text, starts, occurs}
use zgent.Incidents.Replacing.{count, replace_first}

starts-split : (s t : Text) → starts s t ≡ true → t ≡ s ++ drop (length s) t
unfolding starts
starts-split [] t h = refl
starts-split (c ∷ s) [] h = absurd (cc)
starts-split (c ∷ s) (d ∷ t) h =
    let first : code c ≡ code d = ground (arith, h) in
    let rest : starts s t ≡ true = ground (arith, h) in
    ap₂ (λ a b. a ∷ b) (sym (Char-path c d first)) (starts-split s t rest)

starts-append : (s t more : Text) → starts s t ≡ true → starts s (t ++ more) ≡ true
unfolding starts
starts-append [] t more h = refl
starts-append (c ∷ s) [] more h = absurd (cc)
starts-append (c ∷ s) (d ∷ t) more h = ground (arith, h, starts-append s t more)

count-skip :
    (search : Text) (skip : ℕ) (t : Text) → count search skip t ≡ count search zero (drop skip t)
unfolding count
count-skip search zero t = refl
count-skip search (suc skip) [] = refl
count-skip search (suc skip) (c ∷ t) = count-skip search skip t

count-none :
    (search t : Text) → 1 ≤ length search → count search zero t ≡ 0 → occurs search t ≡ false
unfolding count occurs starts
count-none [] [] l h = absurd (omega arith)
count-none (c ∷ s) [] l h = refl
count-none search (d ∷ t) l h = elim (Bool-cases (starts search (d ∷ t))) [
  | inl e ↦ absurd (omega (arith, rw (e) at h))
  | inr e ↦ rw (e) (count-none search t l (rw (e) at h))
]

-- A text with one match is what is before it, the match, and what is behind it, which has none.
unfoldable pub IsOnce : Text → Text → Text → Text → Type 0
IsOnce search original before after =
    (original ≡ before ++ (search ++ after))
    × (occurs search before ≡ false)
    × (occurs search after ≡ false)

drop-cons : (n : ℕ) (c : Char) (t : Text) → 1 ≤ n → drop n (c ∷ t) ≡ drop (n - 1) t
drop-cons zero c t h = absurd (omega arith)
drop-cons (suc n) c t h = ap (λ k. drop k t) (omega arith)

starts_nothing : (s : Text) → 1 ≤ length s → starts s [] ≡ false
unfolding starts
starts_nothing [] h = absurd (omega arith)
starts_nothing (c ∷ s) h = refl

-- A text in whose first place there is no match has one only behind.
cons_occurs :
    (search : Text) (c : Char) (before behind : Text) {whole : Text}
    → whole ≡ c ∷ (before ++ behind)
    → starts search whole ≡ false
    → occurs search before ≡ false
    → occurs search (c ∷ before) ≡ false
unfolding occurs
cons_occurs search c before behind is e h = elim (Bool-cases (starts search (c ∷ before))) [
  | inl s ↦ absurd (
      true≢false
        (sym (starts-append search (c ∷ before) behind s) ∙ ap (λ k. starts search k) (sym is) ∙ e))
  | inr n ↦ rw (n) h
]

pub IsOnce-replaced :
    (search replace t : Text)
    → 1 ≤ length search
    → count search zero t ≡ 1
    → (before after : Text) × IsOnce search t before after
      × (replace_first search replace t ≡ before ++ (replace ++ after))
unfolding count replace_first IsOnce occurs
IsOnce-replaced search replace [] l h = absurd (cc)
IsOnce-replaced search replace (c ∷ t) l h = elim (Bool-cases (starts search (c ∷ t))) [
  | inl e ↦
      let after = drop (length search) (c ∷ t) in
      let behind : count search (length search - 1) t ≡ 0 = omega (arith, rw (e) at h) in
      let none_behind : count search zero after ≡ 0 =
        ap (λ k. count search zero k) (drop-cons (length search) c t l)
        ∙ sym (count-skip search (length search - 1) t)
        ∙ behind in
      (
        [],
        after,
        (
          starts-split search (c ∷ t) e,
          starts_nothing search l,
          count-none search after l none_behind,
        ),
        rw (e) refl,
      )
  | inr e ↦
      let (before, after, (is, none_before, none_after), replaced) =
        IsOnce-replaced search replace t l (rw (e) at h) in
      (
        c ∷ before,
        after,
        (
          ap (λ k. c ∷ k) is,
          cons_occurs search c before (search ++ after) (ap (λ k. c ∷ k) is) e none_before,
          none_after,
        ),
        rw (e) (ap (λ k. c ∷ k) replaced),
      )
]
