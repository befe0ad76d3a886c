-- ===== src/Incidents/Replacing/Unique.antt =====
-- What a proposed replacement is (cyan/training/incidents/tools.py, ProposePatchTool.invoke).

use zgent.Common.{
  ℕ, String, zero, suc, ◌≤◌, Bool, Option, none, some, List, ◌++◌, length, ◌==◌, ◌≡◌, refl, ap, sym,
  ◌∙◌, inl, inr, Bool-cases, arith,
}
use zgent.Common.Chars.{Text, chars}
use zgent.Common.Exec.{Result, ok, err}
use zgent.Externals.{Externals, TextCodec}
use zgent.Incidents.Models.{ProposalFile}
use zgent.Incidents.Patch.{parse_unified_diff, ParsedPatchFile}
use zgent.Incidents.Patch.Diff.{Group, build_replacement_diff}
use zgent.Incidents.Patch.Paths.{guarded, bound}
use zgent.Incidents.Patch.Workspace.{resolve_workspace_path, build_proposal_files}
use zgent.Incidents.Replacing.{
  ProposePatchParams, count, replace_first, proposed, content_at, decoded, observed,
  workspace_evidence_range, original_of, diff_of, as_proposed, answer, mismatch,
  propose_replacement,
}
use zgent.Incidents.Replacing.Matches.{IsOnce, IsOnce-replaced}
use zgent.World.{Bytes, Tree}

module _ (x : Externals) (codec : TextCodec) (grouped : List Text → List Text → List Group) where
  -- The original was read from the target, and the evidence names its digest.
  unfoldable pub IsObserved : Tree → ProposePatchParams → Text → Type 0
  IsObserved tree p original =
      (target : String) × (raw : Bytes) × (range : ℕ × ℕ) × (resolve_workspace_path tree p.path
        ≡ ok target)
      × (content_at tree target ≡ ok raw)
      × (decoded (codec.decode raw) ≡ ok original)
      × (workspace_evidence_range p.evidence (chars p.path) (chars (x.sha256 raw)) ≡ some range)

  -- The patch is the diff that puts the replacement in the place of the one match.
  unfoldable pub IsReplacement :
      Tree → ProposePatchParams → Text → Text → List ProposalFile → Type 0
  IsReplacement tree p original patch files =
      (before after : Text) × (parsed : List ParsedPatchFile) × IsOnce p.search original before
        after
      × (build_replacement_diff grouped (chars p.path) original (before ++ (p.replace ++ after))
          ≡ ok patch)
      × (parse_unified_diff patch ≡ ok parsed)
      × (build_proposal_files x tree parsed ≡ ok files)

  observed-some : (o : Option (ℕ × ℕ)) (range : ℕ × ℕ) → observed o ≡ ok range → o ≡ some range
  unfolding observed
  observed-some none range h = absurd (cc)
  observed-some (some r) range h = let is : r ≡ range = cc in ap some is

  original-IsObserved :
      (tree : Tree) (p : ProposePatchParams) (original : Text) (range : ℕ × ℕ)
      → original_of x codec grouped tree p ≡ ok (original, range)
      → IsObserved tree p original
  unfolding original_of IsObserved observed
  original-IsObserved tree p original range h =
      let (target, t, h1) = bound (resolve_workspace_path tree p.path) _ (original, range) h in
      let (raw, r, h2) = bound (content_at tree target) _ (original, range) h1 in
      let (small, h3) = guarded _ _ (original, range) h2 in
      let (textual, h4) = guarded _ _ (original, range) h3 in
      let (original', d, h5) = bound (decoded (codec.decode raw)) _ (original, range) h4 in
      let (range', o, h6) =
        bound (observed (workspace_evidence_range p.evidence (chars p.path) (chars (x.sha256 raw))))
          _ (original, range) h5 in
      let (changes, h7) = guarded _ _ (original, range) h6 in
      let is : original' ≡ original = cc in
      (target, raw, range', t, r, d ∙ ap ok is, observed-some _ range' o)

  was_proposed :
      (r : Result (Text × List ProposalFile)) (patch : Text) (files : List ProposalFile)
      → as_proposed x codec grouped r ≡ proposed patch files
      → r ≡ ok (patch, files)
  unfolding as_proposed
  was_proposed (ok (patch', files')) patch files h =
      let same_patch : patch' ≡ patch = cc in let same_files : files' ≡ files = cc in cc
  was_proposed (err e) patch files h = absurd (cc)

  mismatch-proposed :
      (range : ℕ × ℕ) (original search : Text) (n : ℕ) (patch : Text) (files : List ProposalFile)
      → mismatch range original search n ≡ proposed patch files
      → ⊥
  unfolding mismatch
  mismatch-proposed range original search zero patch files h = cc
  mismatch-proposed range original search (suc n) patch files h = cc

  proposed_once :
      (sent sent' : Bool) (range : ℕ × ℕ) (original : Text) (tree : Tree) (p : ProposePatchParams)
      (patch : Text) (files : List ProposalFile)
      → answer x codec grouped sent tree p (ok (original, range)) ≡ (proposed patch files, sent')
      → (count p.search zero original ≡ 1)
        × (diff_of x codec grouped tree p original ≡ ok (patch, files))
  unfolding answer
  proposed_once sent sent' range original tree p patch files a =
      elim (Bool-cases (count p.search zero original == 1)) [
        | inl e ↦ (ground arith, was_proposed _ patch files (ap (λ r. r.0) (rw (e) at a)))
        | inr e ↦ elim (Bool-cases sent) [
          | inl again ↦ let b = rw (e, again) at a in absurd (cc)
          | inr first ↦ absurd (
              mismatch-proposed range original p.search (count p.search zero original) patch files
                (ap (λ r. r.0) (rw (e, first) at a)))
        ]
      ]

  diff-IsReplacement :
      (tree : Tree) (p : ProposePatchParams) (original patch : Text) (files : List ProposalFile)
      → 1 ≤ length p.search
      → count p.search zero original ≡ 1
      → diff_of x codec grouped tree p original ≡ ok (patch, files)
      → IsReplacement tree p original patch files
  unfolding diff_of IsReplacement
  diff-IsReplacement tree p original patch files l once h =
      let (before, after, parts, replaced) = IsOnce-replaced p.search p.replace original l once in
      let (patch', b, h1) =
        bound
          (build_replacement_diff grouped (chars p.path) original
            (replace_first p.search p.replace original))
          _ (patch, files) h in
      let (small, h2) = guarded _ _ (patch, files) h1 in
      let (parsed, q, h3) = bound (parse_unified_diff patch') _ (patch, files) h2 in
      let (files', f, h4) = bound (build_proposal_files x tree parsed) _ (patch, files) h3 in
      let same_patch : patch' ≡ patch = cc in
      let same_files : files' ≡ files = cc in
      (
        before,
        after,
        parsed,
        parts,
        ap (λ k. build_replacement_diff grouped (chars p.path) original k) (sym replaced)
            ∙ b
            ∙ ap ok same_patch,
        ap parse_unified_diff (sym same_patch) ∙ q,
        f ∙ ap ok same_files,
      )

  -- A proposal of the tool was made from the file at its path, whose digest the evidence names; the
  -- search text, which is not empty, has exactly one match in it (counted without overlaps); and the
  -- patch is the diff, accepted by the parser, that puts the replacement in the place of that match.
  pub propose_replacement-replaces :
      (sent sent' : Bool) (tree : Tree) (p : ProposePatchParams) (patch : Text)
      (files : List ProposalFile)
      → 1 ≤ length p.search
      → propose_replacement x codec grouped sent tree p ≡ (proposed patch files, sent')
      → (original : Text) × IsObserved tree p original × IsReplacement tree p original patch files
  unfolding propose_replacement answer
  propose_replacement-replaces sent sent' tree p patch files l h =
      go (original_of x codec grouped tree p) refl h
    where
      go :
          (r : Result (Text × (ℕ × ℕ)))
          → original_of x codec grouped tree p ≡ r
          → answer x codec grouped sent tree p r ≡ (proposed patch files, sent')
          → (original : Text) × IsObserved tree p original
            × IsReplacement tree p original patch files
      go (err e) is a = absurd (cc)
      go (ok (original, range)) is a =
          let (once, made) = proposed_once sent sent' range original tree p patch files a in
          (
            original,
            original-IsObserved tree p original range is,
            diff-IsReplacement tree p original patch files l once made,
          )
