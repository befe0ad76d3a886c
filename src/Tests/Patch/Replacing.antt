-- ===== src/Tests/Patch/Replacing.antt =====
-- A replacement that becomes a proposal, one without a match, and one whose matches overlap.
use zgent.Common.{
  ℕ, zero, String, ◌+◌, ◌≤◌, ◌≡◌, refl, Bool, true, false, some, none, List, [], ◌∷◌, arith,
}
use zgent.Common.Chars.{Text, chars}
use zgent.Incidents.Models.{change, EvidenceRef, EvidenceSource, ProposalFile}
use zgent.Incidents.Replacing.{
  ProposePatchParams, Outcome, proposed, no_match, many_matches, count, match_start_lines,
  propose_replacement,
}
use zgent.Incidents.Replacing.Unique.{IsObserved, IsReplacement, propose_replacement-replaces}
use zgent.Tests.Data.{externals}
use zgent.Tests.Patch.{diff, grouped, codec, before, patch_code}

abbrev evidence : EvidenceRef
evidence = record {
  source = EvidenceSource.workspace;
  reference = "a.py@sha256:digest#L1-L2";
  description = "the line that fails";
}

abbrev replace_x : ProposePatchParams
replace_x = record {
  path = "a.py";
  search = chars "x";
  replace = chars "y";
  evidence = evidence ∷ [];
}

abbrev files : List ProposalFile
files = (record { path = "a.py"; change_type = change; base_sha256 = some "digest" }) ∷ []

made :
    propose_replacement externals codec grouped false before replace_x
    ≡ (proposed (chars diff) files, false)
unfolding patch_code zgent.Incidents.Replacing.reference_range
    zgent.Incidents.Replacing.workspace_evidence_range zgent.Incidents.Replacing.count
    zgent.Incidents.Replacing.replace_first zgent.Incidents.Replacing.match_start_lines
    zgent.Incidents.Replacing.content_at zgent.Incidents.Replacing.decoded
    zgent.Incidents.Replacing.observed zgent.Incidents.Replacing.mismatch
    zgent.Incidents.Replacing.original_of zgent.Incidents.Replacing.diff_of
    zgent.Incidents.Replacing.as_proposed zgent.Incidents.Replacing.answer
    zgent.Incidents.Replacing.propose_replacement
    zgent.Incidents.Patch.Workspace.build_proposal_files zgent.Common.Chars.occurs
made = refl

-- The first mismatch is answered with the observed lines.
unmatched :
    propose_replacement externals codec grouped false before
      (record replace_x { search = chars "z" })
    ≡ (no_match (1, 2), true)
unfolding patch_code zgent.Incidents.Replacing.reference_range
    zgent.Incidents.Replacing.workspace_evidence_range zgent.Incidents.Replacing.count
    zgent.Incidents.Replacing.replace_first zgent.Incidents.Replacing.match_start_lines
    zgent.Incidents.Replacing.content_at zgent.Incidents.Replacing.decoded
    zgent.Incidents.Replacing.observed zgent.Incidents.Replacing.mismatch
    zgent.Incidents.Replacing.original_of zgent.Incidents.Replacing.diff_of
    zgent.Incidents.Replacing.as_proposed zgent.Incidents.Replacing.answer
    zgent.Incidents.Replacing.propose_replacement
    zgent.Incidents.Patch.Workspace.build_proposal_files zgent.Common.Chars.occurs
unmatched = refl

-- Matches that overlap are counted as one.
overlapping : count (chars "aa") zero (chars "aaa") ≡ 1
unfolding count zgent.Common.Chars.starts
overlapping = refl

candidate_lines : match_start_lines (chars "a\nb\na\n") (chars "a") ≡ 1 ∷ 3 ∷ []
unfolding match_start_lines count zgent.Common.Chars.starts
candidate_lines = refl

propose_replacement-replaces_example :
    (original : Text) × IsObserved externals codec grouped before replace_x original
    × IsReplacement externals codec grouped before replace_x original (chars diff) files
propose_replacement-replaces_example =
    propose_replacement-replaces externals codec grouped false false before replace_x (chars diff)
      files (omega arith) made
