-- ===== src/Incidents/Selector.antt =====
-- The choice of evidence from the two logs of a failure (cyan/training/incidents/selector.py): the
-- scan of a log for its latest traceback, error and workspace frame. A log is its bytes, or absent.
pub mod Patterns
pub mod Choice
pub mod Ranges
pub mod Scans
pub mod Blocks
pub mod Rounds
pub mod Candidates
pub mod Budget
pub mod Selection
use zgent.Common.{
  ℕ, ◌+◌, ◌-◌, ◌*◌, max, String, Bool, true, false, not, ◌&&◌, ◌||◌, Option, none, some, List, [],
  ◌∷◌, ◌++◌, length, take, drop, all, ltb, leb, ◌==◌, if◌then◌else◌,
}
use zgent.Common.Text.{codes, has_part}
use zgent.Incidents.Evidence.{content_of}
use zgent.Incidents.Selector.Patterns.{is_error_line, frame_path, in_workspace, is_blank}
use zgent.Jobs.Models.{LogStream, stdout, stderr}
use zgent.World.{Bytes}

pub data Kind : Type 0 where
  traceback traceback_exception workspace_frame error_line tail : Kind

-- _Candidate
pub record Candidate : Type 0 where
  pub source : LogStream
  pub start : ℕ
  pub end : ℕ
  pub kind : Kind
  pub reason : String
  pub content : Bytes
  pub priority : ℕ

-- _TAIL_BYTES and _MAX_BLOCK_BYTES
abbrev pub tail_bytes : ℕ
tail_bytes = 8 * 1024

abbrev pub max_block_bytes : ℕ
max_block_bytes = 32 * 1024

-- The local variables of _scan.
pub record Scan : Type 0 where
  pub total : ℕ
  pub block_start : Option ℕ
  pub block_lines : List Bytes
  pub block_bytes : ℕ
  pub latest_traceback : Option Candidate
  pub traceback_exception : Option Candidate
  pub current_exception : Option Candidate
  pub latest_error : Option Candidate
  pub latest_frame : Option Candidate

unfoldable pub joined : List Bytes → Bytes
joined [] = []
joined (l ∷ ls) = l ++ joined ls

unfoldable pub candidate : LogStream → ℕ → Kind → String → Bytes → ℕ → Candidate
candidate source start kind reason content priority = record {
  source = source;
  start = start;
  end = start + length content;
  kind = kind;
  reason = reason;
  content = content;
  priority = priority;
}

unfoldable pub cleared : Scan → Scan
cleared s = record s {
  block_start = none;
  block_lines = [];
  block_bytes = 0;
  current_exception = none;
}

unfoldable pub closed : LogStream → Option ℕ → List Bytes → Scan → Scan
closed source none lines s = s
closed source (some start) [] s = s
closed source (some start) (l ∷ lines) s = record s {
  latest_traceback =
      some (
        candidate source start traceback "latest complete Python traceback" (joined (l ∷ lines)) 1);
  traceback_exception = s.current_exception;
}

-- finish_traceback
unfoldable pub finish_traceback : LogStream → Scan → Scan
finish_traceback source s = cleared (closed source s.block_start s.block_lines s)

unfoldable pub grown : Bytes → Scan → Scan
grown line s =
    if not (is_blank line) && ltb s.block_bytes max_block_bytes
    then (let piece = take (max_block_bytes - s.block_bytes) line in
        record s {
          block_lines = s.block_lines ++ (piece ∷ []);
          block_bytes = s.block_bytes + length piece;
        })
    else s

unfoldable pub note_exception : LogStream → ℕ → Bytes → Scan → Scan
note_exception source start line s =
    if is_error_line line
    then record s {
      current_exception =
          some (
            candidate source start Kind.traceback_exception "traceback final exception line" line
              2);
    }
    else s

-- A line inside a traceback; `start` is where the line starts.
unfoldable pub inside_block : LogStream → ℕ → Bytes → Scan → Scan
inside_block source start line s =
    let noted = note_exception source start line (grown line s) in
    if is_blank line then finish_traceback source noted else noted

unfoldable pub block_line : LogStream → ℕ → Bytes → Option ℕ → Scan → Scan
block_line source start line none s = s
block_line source start line (some _) s = inside_block source start line s

unfoldable pub is_stderr : LogStream → Bool
is_stderr stdout = false
is_stderr stderr = true

unfoldable pub note_error : LogStream → ℕ → Bytes → Scan → Scan
note_error source start line s =
    if is_stderr source && is_error_line line
    then record s {
      latest_error = some (
          candidate source start Kind.error_line "latest stderr error/exception/fatal line" line 4);
    }
    else s

unfoldable pub note_frame : LogStream → Bytes → ℕ → Bytes → Scan → Scan
note_frame source workspace start line s =
    if in_workspace workspace (frame_path line)
    then record s {
      latest_frame =
          some (candidate source start workspace_frame "workspace traceback frame" line 3);
    }
    else s

unfoldable pub begin_block : LogStream → ℕ → Bytes → Scan → Scan
begin_block source start line s = record (finish_traceback source s) {
  block_start = some start;
  block_lines = line ∷ [];
  block_bytes = length line;
}

-- A round of the loop of _scan.
unfoldable pub scan_line : LogStream → Bytes → Scan → Bytes → Scan
scan_line source workspace s line =
    let s1 = record s { total = s.total + length line } in
    if has_part (codes "Traceback (most recent call last):") line
    then begin_block source s.total line s1
    else note_frame source workspace s.total line
        (note_error source s.total line (block_line source s.total line s.block_start s1))

unfoldable pub onto_first : ℕ → List Bytes → List Bytes
onto_first c [] = (c ∷ []) ∷ []
onto_first c (l ∷ ls) = (c ∷ l) ∷ ls

-- The lines that readline() gives, with their line feeds.
unfoldable pub read_lines : Bytes → List Bytes
read_lines [] = []
read_lines (c ∷ s) =
    let rest = read_lines s in if c == 10 then (c ∷ []) ∷ rest else onto_first c rest

unfoldable pub scan_lines : LogStream → Bytes → Scan → List Bytes → Scan
scan_lines source workspace s [] = s
scan_lines source workspace s (line ∷ lines) =
    scan_lines source workspace (scan_line source workspace s line) lines

abbrev pub scan_start : Scan
scan_start = record {
  total = 0;
  block_start = none;
  block_lines = [];
  block_bytes = 0;
  latest_traceback = none;
  traceback_exception = none;
  current_exception = none;
  latest_error = none;
  latest_frame = none;
}

-- _tail_candidate
unfoldable pub tail_candidate : Option Bytes → LogStream → ℕ → Option Candidate
tail_candidate none source total = none
tail_candidate (some content) stderr total =
    if total == 0
    then none
    else some (
        candidate stderr (total - tail_bytes) tail "stderr tail"
          (take tail_bytes (drop (total - tail_bytes) content)) 5)
tail_candidate (some content) stdout total =
    if total == 0
    then none
    else some (
        candidate stdout (total - tail_bytes) tail "stdout tail fallback"
          (take tail_bytes (drop (total - tail_bytes) content)) 6)

unfoldable pub present : List (Option Candidate) → List Candidate
present [] = []
present (none ∷ l) = present l
present (some c ∷ l) = c ∷ present l

-- The candidates of _scan and its count of bytes; the workspace is encoded.
unfoldable pub scan : LogStream → Bytes → Option Bytes → List Candidate × ℕ
scan source workspace log =
    let s =
      finish_traceback source
        (scan_lines source workspace scan_start (read_lines (content_of log))) in
    (
      present (
          s.latest_traceback
          ∷ s.traceback_exception
          ∷ s.latest_frame
          ∷ s.latest_error
          ∷ tail_candidate log source s.total
          ∷ []),
      s.total,
    )
