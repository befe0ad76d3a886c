-- ===== src/Incidents/Selector/Candidates.antt =====
-- The candidates of a scan (cyan/training/incidents/selector.py) have the bytes of their ranges.
use mathlib.Core.List.{append_assoc, append-nil}
use zgent.Common.{
  ℕ, ◌-◌, ◌≤◌, subst, Option, none, some, List, [], ◌∷◌, ◌++◌, length, take, drop, ◌≡◌, refl, ap,
  sym, ◌∙◌, inl, inr, arith, length-take, take-append-drop, All, Bool-cases, ◌==◌,
}
use zgent.Incidents.Selector.{
  Candidate, candidate, Scan, joined, finish_traceback, scan_line, scan_lines, scan_start, scan,
  onto_first, present, tail_candidate, read_lines,
}
use zgent.Incidents.Evidence.{content_of}
use zgent.Jobs.Models.{LogStream, stdout, stderr}
use zgent.Incidents.Selector.Ranges.{IsPart, IsExact}
use zgent.Incidents.Selector.Scans.{
  IsExactIf, AreExact, IsOpen, IsBlock, IsScan, block-IsOpen, finished-IsScan,
}
use zgent.Incidents.Selector.Rounds.{scan_line-IsScan}
use zgent.World.{Bytes}

scan_lines-IsScan :
    (source : LogStream) (workspace log : Bytes) (lines : List Bytes) (s : Scan)
    → IsScan source log s
    → IsScan source (log ++ joined lines) (scan_lines source workspace s lines)
unfolding scan_lines joined
scan_lines-IsScan source workspace log [] s h =
    subst (λ l. IsScan source l s) (sym (append-nil log)) h
scan_lines-IsScan source workspace log (line ∷ lines) s h =
    subst
      (λ l. IsScan source l (scan_lines source workspace (scan_line source workspace s line) lines))
      (append_assoc log line (joined lines))
      (scan_lines-IsScan source workspace (log ++ line) lines (scan_line source workspace s line)
        (scan_line-IsScan source workspace log line s h))

onto_first-joined : (c : ℕ) (lines : List Bytes) → joined (onto_first c lines) ≡ c ∷ joined lines
unfolding joined onto_first
onto_first-joined c [] = refl
onto_first-joined c (l ∷ lines) = refl

joined-read_lines : (log : Bytes) → joined (read_lines log) ≡ log
unfolding joined read_lines
joined-read_lines [] = refl
joined-read_lines (c ∷ s) = elim (Bool-cases (c == 10)) [
  | inl e ↦ rw (e) (ap (λ l. c ∷ l) (joined-read_lines s))
  | inr e ↦ rw (e) (onto_first-joined c (read_lines s) ∙ ap (λ l. c ∷ l) (joined-read_lines s))
]

present-All :
    (P : Candidate → Type 0) (source : LogStream) (log : Bytes) (l : List (Option Candidate))
    → ((c : Candidate) → c.source ≡ source → IsExact log c → P c)
    → All (IsExactIf source log) l
    → All P (present l)
unfolding present IsExactIf
present-All P source log [] f h = tt
present-All P source log (none ∷ l) f (h, hs) = present-All P source log l f hs
present-All P source log (some c ∷ l) f ((is, exact), hs) =
    (f c is exact, present-All P source log l f hs)

slice-IsPart : (log : Bytes) (n k : ℕ) → n ≤ length log → IsPart log n (take k (drop n log))
unfolding IsPart
slice-IsPart log n k h = (
  take n log,
  drop k (drop n log),
  sym (ap (λ l. take n log ++ l) (take-append-drop k (drop n log)) ∙ take-append-drop n log),
  omega (arith, length-take n log),
)

tail-IsExactIf :
    (source : LogStream) (log : Option Bytes) (total : ℕ)
    → total ≡ length (content_of log)
    → IsExactIf source (content_of log) (tail_candidate log source total)
unfolding tail_candidate IsExactIf IsExact candidate content_of
tail-IsExactIf source none total t = tt
tail-IsExactIf stdout (some content) total t = elim (Bool-cases (total == 0)) [
  | inl e ↦ rw (e) tt
  | inr e ↦ rw (e) (refl, (slice-IsPart content (total - 8192) 8192 (omega (arith, t)), refl))
]
tail-IsExactIf stderr (some content) total t = elim (Bool-cases (total == 0)) [
  | inl e ↦ rw (e) tt
  | inr e ↦ rw (e) (refl, (slice-IsPart content (total - 8192) 8192 (omega (arith, t)), refl))
]

end-IsScan :
    (source : LogStream) (log : Bytes) (s : Scan)
    → IsScan source log s
    → IsScan source log (finish_traceback source s)
unfolding IsScan
end-IsScan source log s (t, block, exact) =
    finished-IsScan log source s t
      (subst (λ l. IsOpen l s.block_lines s.block_start) (append-nil log)
        (block-IsOpen log [] s.block_lines s.block_bytes s.block_start block))
      exact

start-IsScan : (source : LogStream) → IsScan source [] scan_start
unfolding IsScan IsBlock AreExact IsExactIf
start-IsScan source = (refl, tt, (tt, tt, tt, tt, tt))

candidates-All :
    (P : Candidate → Type 0) (source : LogStream) (log : Option Bytes) (s : Scan)
    → ((c : Candidate) → c.source ≡ source → IsExact (content_of log) c → P c)
    → IsScan source (content_of log) s
    → All P (
        present (
          s.latest_traceback
          ∷ s.traceback_exception
          ∷ s.latest_frame
          ∷ s.latest_error
          ∷ tail_candidate log source s.total
          ∷ []))
unfolding IsScan AreExact
candidates-All P source log s f (t, block, (a, b, c, d, e)) =
    present-All P source (content_of log) _ f
      (a, (b, (e, (d, (tail-IsExactIf source log s.total t, tt)))))

-- The candidates of a scan are of its stream, and have the bytes of their ranges in the log.
pub scan-All :
    (P : Candidate → Type 0) (source : LogStream) (workspace : Bytes) (log : Option Bytes)
    → ((c : Candidate) → c.source ≡ source → IsExact (content_of log) c → P c)
    → All P (scan source workspace log).0
unfolding scan
scan-All P source workspace log f =
    let s = scan_lines source workspace scan_start (read_lines (content_of log)) in
    candidates-All P source log (finish_traceback source s) f (
      end-IsScan source (content_of log) s (
        subst (λ l. IsScan source l s) (joined-read_lines (content_of log))
          (scan_lines-IsScan source workspace [] (read_lines (content_of log)) scan_start
            (start-IsScan source))))
