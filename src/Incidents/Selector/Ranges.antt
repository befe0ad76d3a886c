-- ===== src/Incidents/Selector/Ranges.antt =====
-- Where the candidates of a scan lie in the log (cyan/training/incidents/selector.py).
use mathlib.Core.List.{append_assoc}
use zgent.Common.{
  ℕ, ◌+◌, ◌≤◌, ◌++◌, length, take, drop, ◌≡◌, ap, sym, ◌∙◌, arith, length-append, length-take,
  take-append-drop,
}
use zgent.Incidents.Selector.{Candidate}
use zgent.World.{Bytes}

-- The bytes of a log from a position on begin with a content.
unfoldable pub IsPart : Bytes → ℕ → Bytes → Type 0
IsPart log start content =
    (front back : Bytes) × (log ≡ front ++ (content ++ back)) × (length front ≡ start)

-- A candidate has the bytes of its range in the log.
unfoldable pub IsExact : Bytes → Candidate → Type 0
IsExact log c = IsPart log c.start c.content × (c.end ≡ c.start + length c.content)

pub take-IsPart :
    (log : Bytes) (start n : ℕ) (content : Bytes)
    → IsPart log start content
    → IsPart log start (take n content)
unfolding IsPart
take-IsPart log start n content (front, back, e, h) = (
  front,
  drop n content ++ back,
  e
      ∙ ap (λ l. front ++ l)
          (ap (λ l. l ++ back) (sym (take-append-drop n content))
            ∙ append_assoc (take n content) (drop n content) back),
  h,
)

pub drop-IsPart :
    (log : Bytes) (start n : ℕ) (content : Bytes)
    → n ≤ length content
    → IsPart log start content
    → IsPart log (start + n) (drop n content)
unfolding IsPart
drop-IsPart log start n content le (front, back, e, h) = (
  front ++ take n content,
  back,
  e
      ∙ ap (λ l. front ++ l)
          (ap (λ l. l ++ back) (sym (take-append-drop n content))
            ∙ append_assoc (take n content) (drop n content) back)
      ∙ sym (append_assoc front (take n content) (drop n content ++ back)),
  omega (arith, length-append front (take n content), length-take n content, h),
)

-- A log that grows keeps its parts.
pub grown-IsPart :
    (log more : Bytes) (start : ℕ) (content : Bytes)
    → IsPart log start content
    → IsPart (log ++ more) start content
unfolding IsPart
grown-IsPart log more start content (front, back, e, h) = (
  front,
  back ++ more,
  ap (λ l. l ++ more) e
      ∙ append_assoc front (content ++ back) more
      ∙ ap (λ l. front ++ l) (append_assoc content back more),
  h,
)
