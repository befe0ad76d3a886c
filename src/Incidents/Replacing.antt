-- ===== src/Incidents/Replacing.antt =====
-- The search-and-replace of propose_patch (cyan/training/incidents/tools.py, ProposePatchTool.invoke):
-- from the arguments of the call to the diff and the files of a proposal.
pub mod Matches
pub mod Unique
use zgent.Common.{
  ℕ, zero, suc, ◌+◌, ◌-◌, ◌*◌, min, String, Bool, true, false, not, ◌&&◌, Option, none, some, List,
  [], ◌∷◌, ◌++◌, length, take, drop, any, ltb, leb, ◌==◌, if◌then◌else◌,
}
use zgent.Common.Chars.{Text, chars, text_of, same, starts, occurs}
use zgent.Common.Dict.{get}
use zgent.Common.Exec.{Result, ok, err, patch_error, os_error}
use zgent.Externals.{Externals, TextCodec}
use zgent.Incidents.Models.{EvidenceRef, EvidenceSource, ProposalFile}
use zgent.Incidents.Patch.{refuse_if, ◌>>=◌, parse_unified_diff}
use zgent.Incidents.Patch.Diff.{Group, build_replacement_diff}
use zgent.Incidents.Patch.Hunks.{is_digit, read_digits, expect}
use zgent.Incidents.Patch.Workspace.{resolve_workspace_path, build_proposal_files}
use zgent.World.{Bytes, Tree, Node, file, symlink, directory}
use Prim.Native.Char.{Char, code}

-- _MAX_FILE_BYTES and _MAX_CANDIDATE_LINES
abbrev pub max_file_bytes : ℕ
max_file_bytes = 1024 * 1024

abbrev pub max_candidate_lines : ℕ
max_candidate_lines = 20

-- ProposePatchParams
pub record ProposePatchParams : Type 0 where
  pub path : String
  pub search : Text
  pub replace : Text
  pub evidence : List EvidenceRef

-- [1-9][0-9]*
read_positive : Text → Option (ℕ × Text)
read_positive [] = none
read_positive (c ∷ s) =
    if is_digit c && not (code c == 48) then some (read_digits 0 (c ∷ s)) else none

ordered : ℕ → Option (ℕ × Text) → Option (ℕ × ℕ)
ordered start (some (end, [])) = if leb start end then some (start, end) else none
ordered start _ = none

-- The lines of a reference behind "#L", with an end that is not before the start.
line_range : Option (ℕ × Text) → Option (ℕ × ℕ)
unfolding ordered read_positive
line_range none = none
line_range (some (start, [])) = some (start, start)
line_range (some (start, c ∷ s)) = elim (expect (chars "-L") (c ∷ s)) [
  | none ↦ none
  | some rest ↦ ordered start (read_positive rest)
]

is_workspace : EvidenceSource → Bool
is_workspace EvidenceSource.workspace = true
is_workspace _ = false

-- A match of _WORKSPACE_REFERENCE whose groups are this path and this digest. The digits of a digest
-- and of line numbers contain no "@", so the path of a match ends at the last "@".
unfoldable pub reference_range : Text → Text → Text → Option (ℕ × ℕ)
unfolding line_range read_positive
reference_range path digest reference =
    if occurs (chars "\n") path
    then none
    else elim (expect (path ++ chars "@sha256:" ++ digest ++ chars "#L") reference) [
      | none ↦ none
      | some rest ↦ line_range (read_positive rest)
    ]

-- _workspace_evidence_range
unfoldable pub workspace_evidence_range : List EvidenceRef → Text → Text → Option (ℕ × ℕ)
unfolding is_workspace
workspace_evidence_range [] path digest = none
workspace_evidence_range (e ∷ es) path digest =
    let rest = workspace_evidence_range es path digest in
    if is_workspace e.source
    then elim (reference_range path digest (chars e.reference)) [
      | none ↦ rest
      | some range ↦ some range
    ]
    else rest

-- text.count(search) for a search that is not empty: `skip` characters belong to the last match
unfoldable pub count : Text → (skip : ℕ) → Text → ℕ
count search skip [] = 0
count search (suc skip) (c ∷ t) = count search skip t
count search zero (c ∷ t) =
    let behind = count search (length search - 1) t in
    let rest = count search zero t in if starts search (c ∷ t) then suc behind else rest

-- text.replace(search, replace, 1)
unfoldable pub replace_first : Text → Text → Text → Text
replace_first search replace [] = []
replace_first search replace (c ∷ t) =
    let rest = replace_first search replace t in
    if starts search (c ∷ t) then replace ++ drop (length search) (c ∷ t) else c ∷ rest

next_line : Char → ℕ → ℕ
next_line c line = if code c == 10 then suc line else line

start_lines : Text → (skip line : ℕ) → Text → List ℕ
unfolding next_line
start_lines search skip line [] = []
start_lines search (suc skip) line (c ∷ t) = start_lines search skip (next_line c line) t
start_lines search zero line (c ∷ t) =
    let behind = start_lines search (length search - 1) (next_line c line) t in
    let rest = start_lines search zero (next_line c line) t in
    if starts search (c ∷ t) then line ∷ behind else rest

-- _match_start_lines
unfoldable pub match_start_lines : Text → Text → List ℕ
unfolding start_lines
match_start_lines text search = take max_candidate_lines (start_lines search zero 1 text)

-- How the try block of invoke ends: with a diff and its files, with the feedback that is given once
-- (the observed range without a match, or the lines of several), or with another refusal.
pub data Outcome : Type 0 where
  proposed : (patch : Text) → List ProposalFile → Outcome
  no_match : (range : ℕ × ℕ) → Outcome
  many_matches : (count : ℕ) → (candidate_lines : List ℕ) → Outcome
  refused : Outcome

unfoldable pub content_at : Tree → String → Result Bytes
content_at tree target = elim (get tree target) [
  | none ↦ err os_error
  | some node ↦ elim node [
    | file content ↦ ok content
    | symlink ↦ err os_error
    | directory ↦ err os_error
  ]
]

unfoldable pub decoded : Option String → Result Text
decoded none = err patch_error
decoded (some text) = ok (chars text)

unfoldable pub observed : Option (ℕ × ℕ) → Result (ℕ × ℕ)
observed none = err patch_error
observed (some range) = ok range

unfoldable pub mismatch : ℕ × ℕ → Text → Text → ℕ → Outcome
mismatch range original search zero = no_match range
mismatch range original search (suc n) = many_matches (suc n) (match_start_lines original search)

module _ (x : Externals) (codec : TextCodec) (grouped : List Text → List Text → List Group) where
  -- The target and what is checked of it, up to the test that the replacement changes it.
  unfoldable pub original_of : Tree → ProposePatchParams → Result (Text × (ℕ × ℕ))
  original_of tree p = resolve_workspace_path tree p.path >>= λ target.
      content_at tree target >>= λ raw. refuse_if (ltb max_file_bytes (length raw)) (
        refuse_if (any (λ b. b == 0) raw) (
          decoded (codec.decode raw) >>= λ original.
          observed (workspace_evidence_range p.evidence (chars p.path) (chars (x.sha256 raw)))
          >>= λ range. refuse_if (same p.search p.replace) (ok (original, range))))

  -- The diff of the replacement, and the files that it is about.
  unfoldable pub diff_of : Tree → ProposePatchParams → Text → Result (Text × List ProposalFile)
  diff_of tree p original =
      build_replacement_diff grouped (chars p.path) original
        (replace_first p.search p.replace original)
      >>= λ patch. refuse_if (ltb max_file_bytes (length (codec.encode (text_of patch)))) (
          parse_unified_diff patch >>= λ parsed.
          build_proposal_files x tree parsed >>= λ files. ok (patch, files))

  unfoldable pub as_proposed : Result (Text × List ProposalFile) → Outcome
  as_proposed (ok (patch, files)) = proposed patch files
  as_proposed (err e) = refused

  -- `sent` is _match_feedback_sent
  unfoldable pub answer :
      Bool → Tree → ProposePatchParams → Result (Text × (ℕ × ℕ)) → Outcome × Bool
  answer sent tree p (err e) = (refused, sent)
  answer sent tree p (ok (original, range)) =
      let n = count p.search zero original in
      if n == 1
      then (as_proposed (diff_of tree p original), sent)
      else if sent
      then (refused, true)
      else (mismatch range original p.search n, true)

  -- The try block of invoke.
  unfoldable pub propose_replacement : Bool → Tree → ProposePatchParams → Outcome × Bool
  propose_replacement sent tree p = answer sent tree p (original_of tree p)
