-- ===== src/Tests/Selector.antt =====
-- The evidence of a small log with a traceback, chosen within a budget.
use zgent.Common.{
  ℕ, String, true, false, ◌+◌, ◌≤◌, some, none, Option, List, [], ◌∷◌, ◌++◌, ◌≡◌, refl, arith,
  length,
}
use zgent.Common.Exec.{ok}
use zgent.Common.Text.{codes}
use zgent.Incidents.Selector.{Candidate, Kind, candidate, scan}
use zgent.Incidents.Selector.Budget.{IsFit, shorten-IsFit}
use zgent.Incidents.Selector.Choice.{
  Rendering, EvidenceReference, EvidenceSelection, render, shorten, select_evidence,
}
use zgent.Incidents.Selector.Patterns.{is_error_line, frame_path}
use zgent.Incidents.Selector.Selection.{IsTrueTo, select_evidence-size, select_evidence-IsTrueTo}
use zgent.Jobs.Models.{stderr, process_exit, LogSnapshot, FailureCapsule}
use zgent.World.{Bytes}

abbrev rendering : Rendering
rendering = record {
  encode = codes;
  sha256 = λ content. "digest";
  header = λ source reference description. codes description;
  replaced = λ content. content;
}

error_named : is_error_line (codes "KeyError: 'x'") ≡ true
unfolding zgent.Incidents.Selector.Patterns.is_error_line
    zgent.Incidents.Selector.Patterns.frame_path zgent.Common.Text.has_prefix
    zgent.Common.Text.is_letter_or_digit zgent.Common.Text.has_part
error_named = refl

no_error : is_error_line (codes "Errors: 3") ≡ false
unfolding zgent.Incidents.Selector.Patterns.is_error_line
    zgent.Incidents.Selector.Patterns.frame_path zgent.Common.Text.has_prefix
    zgent.Common.Text.is_letter_or_digit zgent.Common.Text.has_part
no_error = refl

path_found : frame_path (codes "  File \"/w/a.py\", line 1") ≡ some (codes "/w/a.py")
unfolding zgent.Incidents.Selector.Patterns.is_error_line
    zgent.Incidents.Selector.Patterns.frame_path zgent.Common.Text.has_prefix
    zgent.Common.Text.is_letter_or_digit zgent.Common.Text.has_part
path_found = refl

abbrev error_log : Bytes
error_log =
    codes "go\nTraceback (most recent call last):\n  File \"/w/a.py\", line 1\nKeyError: 'x'\n"

abbrev traceback_block : Candidate
unfolding candidate
traceback_block =
    candidate stderr 3 Kind.traceback "latest complete Python traceback"
      (codes "Traceback (most recent call last):\n  File \"/w/a.py\", line 1\nKeyError: 'x'\n") 1

abbrev exception_line : Candidate
unfolding candidate
exception_line =
    candidate stderr 63 Kind.traceback_exception "traceback final exception line"
      (codes "KeyError: 'x'\n") 2

abbrev frame_line : Candidate
unfolding candidate
frame_line =
    candidate stderr 38 Kind.workspace_frame "workspace traceback frame"
      (codes "  File \"/w/a.py\", line 1\n") 3

abbrev error_found : Candidate
unfolding candidate
error_found =
    candidate stderr 63 Kind.error_line "latest stderr error/exception/fatal line"
      (codes "KeyError: 'x'\n") 4

abbrev tail_block : Candidate
unfolding candidate
tail_block = candidate stderr 0 Kind.tail "stderr tail" error_log 5

candidates :
    scan stderr (codes "/w") (some error_log)
    ≡ (traceback_block ∷ exception_line ∷ frame_line ∷ error_found ∷ tail_block ∷ [], 77)
unfolding zgent.Incidents.Selector.Patterns.is_error_line
    zgent.Incidents.Selector.Patterns.frame_path zgent.Common.Text.has_prefix
    zgent.Common.Text.is_letter_or_digit zgent.Common.Text.has_part
    zgent.Incidents.Selector.Patterns.in_workspace zgent.Incidents.Selector.Patterns.is_blank
    zgent.Incidents.Selector.joined zgent.Incidents.Selector.candidate
    zgent.Incidents.Selector.cleared zgent.Incidents.Selector.closed
    zgent.Incidents.Selector.finish_traceback zgent.Incidents.Selector.grown
    zgent.Incidents.Selector.note_exception zgent.Incidents.Selector.inside_block
    zgent.Incidents.Selector.block_line zgent.Incidents.Selector.is_stderr
    zgent.Incidents.Selector.note_error zgent.Incidents.Selector.note_frame
    zgent.Incidents.Selector.begin_block zgent.Incidents.Selector.scan_line
    zgent.Incidents.Selector.onto_first zgent.Incidents.Selector.read_lines
    zgent.Incidents.Selector.scan_lines zgent.Incidents.Selector.tail_candidate
    zgent.Incidents.Selector.present zgent.Incidents.Selector.scan
    zgent.Incidents.Evidence.content_of
candidates = refl

abbrev snapshot : LogSnapshot
snapshot = record { size = 0; sha256 = ""; included_start = 0; included_end = 0; tail = "" }

abbrev capsule : FailureCapsule
capsule = record {
  job_id = "j";
  attempt_id = "a";
  argv = [];
  cwd = "/w";
  occurred_at = 0;
  failure_kind = process_exit;
  returncode = none;
  signal = none;
  git_head = none;
  dirty_paths = [];
  environment = [];
  out = snapshot;
  errors = snapshot;
}

select_evidence-size_example :
    (s : EvidenceSelection) × (select_evidence rendering capsule none (some error_log) 100 ≡ ok s)
    × (length s.content ≤ 100)
select_evidence-size_example =
    select_evidence-size rendering capsule none (some error_log) 100 (omega arith)

abbrev selection : EvidenceSelection
selection = record {
  content =
      codes
        "latest complete Python traceback\nTraceback (most recen\ntraceback final exception line\nKeyError: 'x'\n";
  references =
      (record {
        source = stderr;
        start = 3;
        end = 24;
        kind = Kind.traceback;
        selection_reason = "latest complete Python traceback";
        sha256 = "digest";
      })
      ∷ (record {
        source = stderr;
        start = 63;
        end = 77;
        kind = Kind.traceback_exception;
        selection_reason = "traceback final exception line";
        sha256 = "digest";
      })
      ∷ [];
  scanned_bytes = 77;
  selected_bytes = 35;
  duplicates_removed = 0;
  stdout_sha256 = "digest";
  stderr_sha256 = "digest";
}

-- The traceback is cut so that the last line of the exception still fits.
selected : select_evidence rendering capsule none (some error_log) 100 ≡ ok selection
unfolding zgent.Incidents.Selector.Patterns.is_error_line
    zgent.Incidents.Selector.Patterns.frame_path zgent.Common.Text.has_prefix
    zgent.Common.Text.is_letter_or_digit zgent.Common.Text.has_part
    zgent.Incidents.Selector.Patterns.in_workspace zgent.Incidents.Selector.Patterns.is_blank
    zgent.Incidents.Selector.joined zgent.Incidents.Selector.candidate
    zgent.Incidents.Selector.cleared zgent.Incidents.Selector.closed
    zgent.Incidents.Selector.finish_traceback zgent.Incidents.Selector.grown
    zgent.Incidents.Selector.note_exception zgent.Incidents.Selector.inside_block
    zgent.Incidents.Selector.block_line zgent.Incidents.Selector.is_stderr
    zgent.Incidents.Selector.note_error zgent.Incidents.Selector.note_frame
    zgent.Incidents.Selector.begin_block zgent.Incidents.Selector.scan_line
    zgent.Incidents.Selector.onto_first zgent.Incidents.Selector.read_lines
    zgent.Incidents.Selector.scan_lines zgent.Incidents.Selector.tail_candidate
    zgent.Incidents.Selector.present zgent.Incidents.Selector.scan
    zgent.Incidents.Evidence.content_of zgent.Incidents.Selector.Choice.join_lines
    zgent.Incidents.Selector.Choice.is_seen zgent.Incidents.Selector.Choice.is_traceback
    zgent.Incidents.Selector.Choice.is_tail zgent.Incidents.Selector.Choice.is_before
    zgent.Incidents.Selector.Choice.insert zgent.Incidents.Selector.Choice.sorted
    zgent.Incidents.Selector.Choice.trimmed zgent.Incidents.Selector.Choice.follow
    zgent.Incidents.Selector.Choice.render zgent.Incidents.Selector.Choice.shorten
    zgent.Incidents.Selector.Choice.reserved zgent.Incidents.Selector.Choice.passed_over
    zgent.Incidents.Selector.Choice.taken zgent.Incidents.Selector.Choice.consider
    zgent.Incidents.Selector.Choice.choose zgent.Incidents.Selector.Choice.reference_of
    zgent.Incidents.Selector.Choice.chosen zgent.Incidents.Selector.Choice.selection
    zgent.Incidents.Selector.Choice.select_evidence
selected = refl

select_evidence-IsTrueTo_example : IsTrueTo rendering capsule none (some error_log) selection
select_evidence-IsTrueTo_example =
    select_evidence-IsTrueTo rendering capsule none (some error_log) 100 selection selected

shorten-IsFit_example :
    IsFit rendering capsule traceback_block [] 54
      (shorten rendering capsule 74 traceback_block [] 54 3 traceback_block.content)
unfolding traceback_block
shorten-IsFit_example =
    shorten-IsFit rendering capsule 74 traceback_block [] 54 3 traceback_block.content (omega arith)
