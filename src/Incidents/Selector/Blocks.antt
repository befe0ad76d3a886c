-- ===== src/Incidents/Selector/Blocks.antt =====
-- How a traceback grows in the scan of a log (cyan/training/incidents/selector.py): line by line, up
-- to its bound.
use mathlib.Core.List.{append_assoc, append-nil}
use zgent.Common.{
  ℕ, ◌+◌, ◌-◌, ◌≤◌, true, false, Option, none, some, List, [], ◌∷◌, ◌++◌, length, take, drop,
  drop-all, ltb, leb, ◌≡◌, refl, ap, sym, ◌∙◌, ◌⊎◌, inl, inr, arith, length-append, length-take,
  take-append-drop, Bool-cases,
}
use zgent.Incidents.Selector.{
  Kind, Candidate, candidate, Scan, joined, max_block_bytes, grown, note_exception,
}
use zgent.Incidents.Selector.Patterns.{is_blank, is_error_line}
use zgent.Jobs.Models.{LogStream}
use zgent.Incidents.Selector.Scans.{IsBlock, joined-append}
use zgent.World.{Bytes}

nothing_behind :
    (back : Bytes) (bytes : ℕ)
    → ltb bytes max_block_bytes ≡ true
    → (back ≡ []) ⊎ (max_block_bytes ≤ bytes)
    → back ≡ []
nothing_behind back bytes room (inl e) = e
nothing_behind back bytes room (inr le) = absurd (ground arith)

-- A line of which a bounded piece is added is added whole, or the bound is reached.
reached :
    (bytes : ℕ) (line : Bytes)
    → (drop (max_block_bytes - bytes) line ≡ [])
      ⊎ (max_block_bytes ≤ bytes + length (take (max_block_bytes - bytes) line))
reached bytes line = elim (Bool-cases (leb (length line) (max_block_bytes - bytes))) [
  | inl fits ↦ inl (drop-all (max_block_bytes - bytes) line (ground arith))
  | inr over ↦ inr (ground (arith, length-take (max_block_bytes - bytes) line))
]

extended :
    (log line front back : Bytes) (lines : List Bytes) (n : ℕ)
    → log ≡ front ++ (joined lines ++ back)
    → back ≡ []
    → log ++ line ≡ front ++ (joined (lines ++ (take n line ∷ [])) ++ drop n line)
unfolding joined
extended log line front back lines n e none_behind =
    let piece = take n line in
    let behind = drop n line in
    ap (λ l. l ++ line)
      (e
        ∙ ap (λ b. front ++ (joined lines ++ b)) none_behind
        ∙ ap (λ l. front ++ l) (append-nil (joined lines)))
    ∙ append_assoc front (joined lines) line
    ∙ ap (λ l. front ++ l)
        (ap (λ l. joined lines ++ l) (sym (take-append-drop n line))
          ∙ sym (append_assoc (joined lines) piece behind)
          ∙ ap (λ p. p ++ behind)
              (sym (
                joined-append lines (piece ∷ []) ∙ ap (λ l. joined lines ++ l) (append-nil piece))))

pub grown-IsBlock :
    (log line : Bytes) (s : Scan) (start : Option ℕ)
    → is_blank line ≡ false
    → IsBlock log s.block_lines s.block_bytes start
    → IsBlock (log ++ line) (grown line s).block_lines (grown line s).block_bytes start
unfolding grown IsBlock joined
grown-IsBlock log line s none full h = tt
grown-IsBlock log line s (some start) full (front, back, e, at, size, ends) =
    let piece = take (max_block_bytes - s.block_bytes) line in
    let behind = drop (max_block_bytes - s.block_bytes) line in
    elim (Bool-cases (ltb s.block_bytes max_block_bytes)) [
      | inl room ↦
          rw (full, room, grown)
            (
              front,
              behind,
              extended log line front back s.block_lines (max_block_bytes - s.block_bytes) e
                  (nothing_behind back s.block_bytes room ends),
              at,
              omega (
                arith,
                size,
                ap length (joined-append s.block_lines (piece ∷ [])),
                length-append (joined s.block_lines) (piece ++ []),
                length-append piece [],
              ),
              reached s.block_bytes line,
            )
      | inr bound ↦
          rw (full, bound, grown)
            (
              front,
              back ++ line,
              ap (λ l. l ++ line) e
                  ∙ append_assoc front (joined s.block_lines ++ back) line
                  ∙ ap (λ l. front ++ l) (append_assoc (joined s.block_lines) back line),
              at,
              size,
              inr (ground arith),
            )
    ]

-- Adding to a traceback changes nothing else.
pub grown-keeps :
    (P : Scan → Type 0) (line : Bytes) (s : Scan)
    → P s
    → ((lines : List Bytes) (bytes : ℕ) → P (record s { block_lines = lines; block_bytes = bytes }))
    → P (grown line s)
unfolding grown
grown-keeps P line s h g = elim (Bool-cases (is_blank line)) [
  | inl blank ↦ rw (blank) h
  | inr full ↦ elim (Bool-cases (ltb s.block_bytes max_block_bytes)) [
    | inl room ↦
        rw (full, room)
          (g (s.block_lines ++ (take (max_block_bytes - s.block_bytes) line ∷ []))
            (s.block_bytes + length (take (max_block_bytes - s.block_bytes) line)))
    | inr bound ↦ rw (full, bound) h
  ]
]

pub noted-keeps :
    (P : Scan → Type 0) (source : LogStream) (start : ℕ) (line : Bytes) (s : Scan)
    → P s
    → ((c : Candidate)
        → c
          ≡ candidate source start Kind.traceback_exception "traceback final exception line" line 2
        → P (record s { current_exception = some c }))
    → P (note_exception source start line s)
unfolding note_exception
noted-keeps P source start line s h g = elim (Bool-cases (is_error_line line)) [
  | inl e ↦ rw (e) (g _ refl)
  | inr e ↦ rw (e) h
]
