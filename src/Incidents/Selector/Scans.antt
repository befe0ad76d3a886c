-- ===== src/Incidents/Selector/Scans.antt =====
-- What the scan of a log keeps from line to line (cyan/training/incidents/selector.py): its candidates
-- and the traceback that it is in have the bytes of their ranges.
use mathlib.Core.List.{append_assoc, append-nil}
use zgent.Common.{
  ℕ, String, ◌≤◌, Option, none, some, List, [], ◌∷◌, ◌++◌, length, ◌≡◌, refl, ap, sym, ◌∙◌, ◌⊎◌,
}
use zgent.Incidents.Selector.{
  Kind, Candidate, candidate, Scan, joined, max_block_bytes, finish_traceback, closed, cleared,
}
use zgent.Jobs.Models.{LogStream}
use zgent.Incidents.Selector.Ranges.{IsPart, IsExact, grown-IsPart}
use zgent.World.{Bytes}

-- A candidate that may be missing.
unfoldable pub IsExactIf : LogStream → Bytes → Option Candidate → Type 0
IsExactIf source log none = Unit
IsExactIf source log (some c) = (c.source ≡ source) × IsExact log c

-- The candidates of a scan.
unfoldable pub AreExact : LogStream → Bytes → Scan → Type 0
AreExact source log s =
    IsExactIf source log s.latest_traceback
    × IsExactIf source log s.traceback_exception
    × IsExactIf source log s.current_exception
    × IsExactIf source log s.latest_error
    × IsExactIf source log s.latest_frame

-- The lines of a traceback that is not finished.
unfoldable pub IsOpen : Bytes → List Bytes → Option ℕ → Type 0
IsOpen log lines none = Unit
IsOpen log lines (some start) = IsPart log start (joined lines)

-- They end where the read bytes end, or have reached the bound.
unfoldable pub IsBlock : Bytes → List Bytes → ℕ → Option ℕ → Type 0
IsBlock log lines bytes none = Unit
IsBlock log lines bytes (some start) =
    (front back : Bytes) × (log ≡ front ++ (joined lines ++ back))
    × (length front ≡ start)
    × (bytes ≡ length (joined lines))
    × ((back ≡ []) ⊎ (max_block_bytes ≤ bytes))

-- What the scan keeps over the bytes that it has read.
unfoldable pub IsScan : LogStream → Bytes → Scan → Type 0
IsScan source log s =
    (s.total ≡ length log)
    × IsBlock log s.block_lines s.block_bytes s.block_start
    × AreExact source log s

grown-IsExactIf :
    (source : LogStream) (log more : Bytes) (c : Option Candidate)
    → IsExactIf source log c
    → IsExactIf source (log ++ more) c
unfolding IsExactIf IsExact
grown-IsExactIf source log more none h = tt
grown-IsExactIf source log more (some c) (is, (part, e)) =
    (is, (grown-IsPart log more c.start c.content part, e))

-- A line that has just been read.
pub line-IsExact :
    (log line : Bytes) (source : LogStream) (start : ℕ) (kind : Kind) (reason : String)
    (priority : ℕ)
    → start ≡ length log
    → IsExact (log ++ line) (candidate source start kind reason line priority)
unfolding IsExact IsPart candidate
line-IsExact log line source start kind reason priority h =
    ((log, [], ap (λ l. log ++ l) (sym (append-nil line)), sym h), refl)

pub joined-append : (l m : List Bytes) → joined (l ++ m) ≡ joined l ++ joined m
unfolding joined
joined-append [] m = refl
joined-append (b ∷ l) m =
    ap (λ k. b ++ k) (joined-append l m) ∙ sym (append_assoc b (joined l) (joined m))

pub grown-AreExact :
    (source : LogStream) (log more : Bytes) (s : Scan)
    → AreExact source log s
    → AreExact source (log ++ more) s
unfolding AreExact
grown-AreExact source log more s (a, b, c, d, e) = (
  grown-IsExactIf source log more s.latest_traceback a,
  grown-IsExactIf source log more s.traceback_exception b,
  grown-IsExactIf source log more s.current_exception c,
  grown-IsExactIf source log more s.latest_error d,
  grown-IsExactIf source log more s.latest_frame e,
)

pub block-IsOpen :
    (log more : Bytes) (lines : List Bytes) (bytes : ℕ) (start : Option ℕ)
    → IsBlock log lines bytes start
    → IsOpen (log ++ more) lines start
unfolding IsBlock IsOpen IsPart
block-IsOpen log more lines bytes none h = tt
block-IsOpen log more lines bytes (some start) (front, back, e, at, size, end) =
    grown-IsPart log more start (joined lines) (front, back, e, at)

closed-AreExact :
    (log : Bytes) (source : LogStream) (s : Scan) (start : Option ℕ) (lines : List Bytes)
    → IsOpen log lines start
    → AreExact source log s
    → AreExact source log (cleared (closed source start lines s))
unfolding AreExact IsOpen cleared closed IsExactIf IsExact candidate
closed-AreExact log source s none lines lies (a, b, c, d, e) = (a, b, tt, d, e)
closed-AreExact log source s (some start) [] lies (a, b, c, d, e) = (a, b, tt, d, e)
closed-AreExact log source s (some start) (l ∷ lines) lies (a, b, c, d, e) =
    ((refl, (lies, refl)), c, tt, d, e)

pub finished-AreExact :
    (log : Bytes) (source : LogStream) (s : Scan)
    → IsOpen log s.block_lines s.block_start
    → AreExact source log s
    → AreExact source log (finish_traceback source s)
unfolding finish_traceback
finished-AreExact log source s lies h =
    closed-AreExact log source s s.block_start s.block_lines lies h

closed-total :
    (source : LogStream) (s : Scan) (start : Option ℕ) (lines : List Bytes)
    → (closed source start lines s).total ≡ s.total
unfolding closed
closed-total source s none lines = refl
closed-total source s (some start) [] = refl
closed-total source s (some start) (l ∷ lines) = refl

pub finished-total : (source : LogStream) (s : Scan) → (finish_traceback source s).total ≡ s.total
unfolding finish_traceback cleared
finished-total source s = closed-total source s s.block_start s.block_lines

pub finished-IsScan :
    (log : Bytes) (source : LogStream) (s : Scan)
    → s.total ≡ length log
    → IsOpen log s.block_lines s.block_start
    → AreExact source log s
    → IsScan source log (finish_traceback source s)
unfolding IsScan finish_traceback IsBlock cleared
finished-IsScan log source s t lies h =
    (finished-total source s ∙ t, tt, finished-AreExact log source s lies h)
