-- ===== src/Incidents/Selector/Rounds.antt =====
-- The rounds of the scan of a log (cyan/training/incidents/selector.py): its candidates have the bytes
-- of their ranges.
use mathlib.Core.List.{append-nil}
use zgent.Common.{
  ℕ, ◌+◌, true, ◌&&◌, subst, Option, none, some, [], ◌++◌, length, ◌≡◌, refl, ap, sym, ◌∙◌, inl,
  inr, arith, length-append, Bool-cases,
}
use zgent.Incidents.Selector.{
  Kind, candidate, Scan, joined, finish_traceback, grown, inside_block, block_line, note_exception,
  is_stderr, note_error, note_frame, begin_block, scan_line,
}
use zgent.Common.Text.{codes, has_part}
use zgent.Incidents.Selector.Patterns.{is_blank, is_error_line, frame_path, in_workspace}
use zgent.Jobs.Models.{LogStream}
use zgent.Incidents.Selector.Blocks.{grown-IsBlock, grown-keeps, noted-keeps}
use zgent.Incidents.Selector.Scans.{
  IsExactIf, AreExact, IsOpen, IsBlock, IsScan, grown-AreExact, line-IsExact, block-IsOpen,
  finished-AreExact, finished-IsScan, finished-total,
}
use zgent.World.{Bytes}

grown-blank : (line : Bytes) (s : Scan) → is_blank line ≡ true → grown line s ≡ s
unfolding grown
grown-blank line s e = rw (e)

noted-AreExact :
    (source : LogStream) (log line : Bytes) (start : ℕ) (s : Scan)
    → start ≡ length log
    → AreExact source (log ++ line) s
    → AreExact source (log ++ line) (note_exception source start line s)
unfolding AreExact IsExactIf candidate
noted-AreExact source log line start s at (a, b, c, d, e) =
    noted-keeps (AreExact source (log ++ line)) source start line s (a, b, c, d, e)
      (λ exception is.
        let new =
          line-IsExact log line source start Kind.traceback_exception
            "traceback final exception line" 2 at in
        (a, b, subst (λ k. IsExactIf source (log ++ line) (some k)) (sym is) (refl, new), d, e))

noted-IsScan :
    (source : LogStream) (log line : Bytes) (start : ℕ) (s : Scan)
    → start ≡ length log
    → IsScan source (log ++ line) s
    → IsScan source (log ++ line) (note_exception source start line s)
unfolding IsScan
noted-IsScan source log line start s at (t, block, exact) = (
  noted-keeps (λ k. k.total ≡ length (log ++ line)) source start line s t (λ _ _. t),
  noted-keeps (λ k. IsBlock (log ++ line) k.block_lines k.block_bytes k.block_start) source start
      line s block (λ _ _. block),
  noted-AreExact source log line start s at exact,
)

inside-IsScan :
    (source : LogStream) (log line : Bytes) (start first : ℕ) (s : Scan)
    → start ≡ length log
    → s.total ≡ length (log ++ line)
    → s.block_start ≡ some first
    → IsBlock log s.block_lines s.block_bytes (some first)
    → AreExact source (log ++ line) s
    → IsScan source (log ++ line) (inside_block source start line s)
unfolding inside_block IsScan AreExact
inside-IsScan source log line start first s at t is block exact =
    let lies : IsOpen (log ++ line) s.block_lines s.block_start =
      subst (λ k. IsOpen (log ++ line) s.block_lines k) (sym is)
        (block-IsOpen log line s.block_lines s.block_bytes (some first) block) in
    elim (Bool-cases (is_blank line)) [
      | inl blank ↦ rw (blank) (
          subst
            (λ k.
              IsScan source (log ++ line)
                (finish_traceback source (note_exception source start line k)))
            (sym (grown-blank line s blank))
            (finished-IsScan (log ++ line) source (note_exception source start line s)
              (noted-keeps (λ k. k.total ≡ length (log ++ line)) source start line s t (λ _ _. t))
              (noted-keeps (λ k. IsOpen (log ++ line) k.block_lines k.block_start) source start line
                s lies (λ _ _. lies))
              (noted-AreExact source log line start s at exact)))
      | inr full ↦ rw (full) (
          noted-IsScan source log line start (grown line s) at (
            grown-keeps (λ k. k.total ≡ length (log ++ line)) line s t (λ _ _. t),
            subst
                (λ k. IsBlock (log ++ line) (grown line s).block_lines (grown line s).block_bytes k)
                (sym (grown-keeps (λ k. k.block_start ≡ some first) line s is (λ _ _. is)))
                (grown-IsBlock log line s (some first) full block),
            grown-keeps (AreExact source (log ++ line)) line s exact (λ _ _. exact),
          ))
    ]

begin-IsScan :
    (source : LogStream) (log line : Bytes) (start : ℕ) (s : Scan)
    → start ≡ length log
    → s.total ≡ length (log ++ line)
    → IsOpen (log ++ line) s.block_lines s.block_start
    → AreExact source (log ++ line) s
    → IsScan source (log ++ line) (begin_block source start line s)
unfolding begin_block IsScan IsBlock AreExact joined
begin-IsScan source log line start s at t lies exact = (
  finished-total source s ∙ t,
  (
    log,
    [],
    ap (λ l. log ++ l) (sym (append-nil line) ∙ sym (append-nil (line ++ []))),
    sym at,
    omega (arith, length-append line []),
    inl refl,
  ),
  finished-AreExact (log ++ line) source s lies exact,
)

error-IsScan :
    (source : LogStream) (log line : Bytes) (start : ℕ) (s : Scan)
    → start ≡ length log
    → IsScan source (log ++ line) s
    → IsScan source (log ++ line) (note_error source start line s)
unfolding IsScan AreExact IsExactIf note_error candidate
error-IsScan source log line start s at (t, block, (a, b, c, d, e)) =
    elim (Bool-cases (is_stderr source && is_error_line line)) [
      | inl noted ↦ rw (noted) (
        t,
        block,
        (
          a,
          b,
          c,
          (
            refl,
            line-IsExact log line source start Kind.error_line
                "latest stderr error/exception/fatal line" 4 at,
          ),
          e,
        ),
      )
      | inr same ↦ rw (same) (t, block, (a, b, c, d, e))
    ]

frame-IsScan :
    (source : LogStream) (workspace log line : Bytes) (start : ℕ) (s : Scan)
    → start ≡ length log
    → IsScan source (log ++ line) s
    → IsScan source (log ++ line) (note_frame source workspace start line s)
unfolding IsScan AreExact IsExactIf note_frame candidate
frame-IsScan source workspace log line start s at (t, block, (a, b, c, d, e)) =
    elim (Bool-cases (in_workspace workspace (frame_path line))) [
      | inl noted ↦ rw (noted) (
        t,
        block,
        (
          a,
          b,
          c,
          d,
          (
            refl,
            line-IsExact log line source start Kind.workspace_frame "workspace traceback frame" 3
                at,
          ),
        ),
      )
      | inr same ↦ rw (same) (t, block, (a, b, c, d, e))
    ]

block_line-IsScan :
    (source : LogStream) (log line : Bytes) (start : ℕ) (s : Scan) (first : Option ℕ)
    → start ≡ length log
    → s.total ≡ length (log ++ line)
    → s.block_start ≡ first
    → IsBlock log s.block_lines s.block_bytes first
    → AreExact source (log ++ line) s
    → IsScan source (log ++ line) (block_line source start line first s)
unfolding block_line IsScan IsBlock
block_line-IsScan source log line start s none at t is block exact =
    (t, subst (λ k. IsBlock (log ++ line) s.block_lines s.block_bytes k) (sym is) tt, exact)
block_line-IsScan source log line start s (some first) at t is block exact =
    inside-IsScan source log line start first s at t is block exact

pub scan_line-IsScan :
    (source : LogStream) (workspace log line : Bytes) (s : Scan)
    → IsScan source log s
    → IsScan source (log ++ line) (scan_line source workspace s line)
unfolding scan_line IsScan AreExact
scan_line-IsScan source workspace log line s (t, block, exact) =
    let s1 = record s { total = s.total + length line } in
    let total : s1.total ≡ length (log ++ line) = omega (arith, t, length-append log line) in
    let still = grown-AreExact source log line s exact in
    elim (Bool-cases (has_part (codes "Traceback (most recent call last):") line)) [
      | inl begins ↦ rw (begins) (
          begin-IsScan source log line s.total s1 t total
            (block-IsOpen log line s.block_lines s.block_bytes s.block_start block) still)
      | inr goes_on ↦ rw (goes_on) (
          frame-IsScan source workspace log line s.total
            (note_error source s.total line (block_line source s.total line s.block_start s1)) t
            (error-IsScan source log line s.total (block_line source s.total line s.block_start s1)
              t
              (block_line-IsScan source log line s.total s1 s.block_start t total refl block
                still)))
    ]
