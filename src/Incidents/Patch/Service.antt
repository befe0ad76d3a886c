-- ===== src/Incidents/Patch/Service.antt =====
-- The patch service (cyan/training/incidents/patch.py, PatchService). Git's answers are an argument,
-- and so is what others change in the workspace while Git runs its check.
pub mod Targets
pub mod Restores
pub mod Receipts
use Prim.Native.Char.{Char, code}
use zgent.Common.{
  ℕ, ◌*◌, String, str_eq, Bool, true, false, not, Option, none, some, List, [], ◌∷◌, ◌++◌, any, ltb,
  length, ◌==◌, if◌then◌else◌,
}
use zgent.Common.Chars.{Text, chars, split_keep}
use zgent.Common.Dict.{get}
use zgent.Common.Exec.{Result, ok, err, Error, patch_error, file_not_found}
use zgent.Externals.{Externals, TextCodec}
use zgent.Incidents.Models.{change, Proposal, ProposalFile, PatchReceipt}
use zgent.Incidents.Patch.{refuse_if, ◌>>=◌, parse_unified_diff}
use zgent.Incidents.Patch.Hunks.{apply_unified_diff_to_text}
use zgent.Incidents.Patch.Workspace.{
  ◌>>◌, same_change, same_files, gitlinks, in_submodule, resolve_workspace_path, verify_targets,
  verify_applied_state, build_receipt,
}
use zgent.Incidents.Patches.{Patches}
use zgent.World.{Bytes, Node, file, symlink, directory, Tree}

-- The Git commands that the service runs, on the file of the patch if there is one, with the
-- workspace that a command leaves.
pub record Git : Type 0 where
  -- whether the reported root is the workspace's
  pub is_root : Tree → Result Bool
  -- git ls-files --stage
  pub staged : Tree → Result Text
  pub check_apply : Option String → Tree → Result (Unit {0})
  pub apply : Option String → Tree → Result (Unit {0}) × Tree
  pub check_reverse : Option String → Tree → Result (Unit {0})
  pub reverse : Option String → Tree → Result (Unit {0}) × Tree

module _ (x : Externals) (codec : TextCodec) where
  -- PatchService._verify_base_state
  unfoldable pub verify_base_state : Tree → Proposal → Option String → Result (Unit {0})
  verify_base_state tree p none = err file_not_found
  verify_base_state tree p (some diff) =
      refuse_if (not (str_eq (x.sha256 (codec.encode diff)) p.patch_sha256)) (
        parse_unified_diff (chars diff) >>= λ parsed.
        refuse_if (not (same_files p.files parsed)) (verify_targets x tree p.files))

  module _ (git : Git) (meanwhile : Tree → Tree) where
    ensure_git_root : Tree → Result (Unit {0})
    ensure_git_root tree = git.is_root tree >>= λ root. refuse_if (not root) (ok tt)

    ensure_no_submodule_targets : Tree → Proposal → Result (Unit {0})
    ensure_no_submodule_targets tree p = git.staged tree >>= λ out.
        refuse_if (any (in_submodule (gitlinks (split_keep out))) p.files) (ok tt)

    -- What the service tests before it runs a check of Git.
    ready : Tree → Proposal → Result (Unit {0}) → Result (Unit {0})
    unfolding ensure_git_root ensure_no_submodule_targets
    ready tree p verified = ensure_git_root tree >> (ensure_no_submodule_targets tree p >> verified)

    -- PatchService.check, with the workspace as it is then
    unfoldable pub check : Tree → Proposal → Option String → Result (Unit {0}) × Tree
    unfolding ready
    check tree p diff = elim (ready tree p (verify_base_state tree p diff)) [
      | err e ↦ (err e, tree)
      | ok _ ↦
          (git.check_apply diff tree >> verify_base_state (meanwhile tree) p diff, meanwhile tree)
    ]

    receipt_of : ℕ → Proposal → Result (Unit {0}) × Tree → Result PatchReceipt × Tree
    receipt_of now p (r, tree) = (r >>= λ _. build_receipt x now tree p, tree)

    apply_checked :
        ℕ → Proposal → Option String → Result (Unit {0}) × Tree → Result PatchReceipt × Tree
    unfolding receipt_of
    apply_checked now p diff (err e, tree) = (err e, tree)
    apply_checked now p diff (ok _, tree) = receipt_of now p (git.apply diff tree)

    -- PatchService.apply
    unfoldable pub apply : ℕ → Proposal → Option String → Tree → Result PatchReceipt × Tree
    unfolding apply_checked
    apply now p diff tree = apply_checked now p diff (check tree p diff)

    reversed : Proposal → Option String → Result (Unit {0}) × Tree → Result (Unit {0}) × Tree
    reversed p diff (r, tree) = (r >> verify_base_state tree p diff, tree)

    reverse_checked : Proposal → Option String → Result (Unit {0}) → Tree → Result (Unit {0}) × Tree
    unfolding reversed
    reverse_checked p diff (err e) tree = (err e, tree)
    reverse_checked p diff (ok _) tree = reversed p diff (git.reverse diff tree)

    reverse_of : Proposal → PatchReceipt → Option String → Tree → Result (Unit {0}) × Tree
    unfolding ready reverse_checked
    reverse_of p receipt diff tree =
        elim (ready tree p (verify_applied_state x tree receipt.files)) [
          | err e ↦ (err e, tree)
          | ok _ ↦
              reverse_checked p diff
                (git.check_reverse diff tree
                  >> verify_applied_state x (meanwhile tree) receipt.files)
                (meanwhile tree)
        ]

    -- PatchService.reverse
    unfoldable pub reverse :
        Proposal → Option String → PatchReceipt → Tree → Result (Unit {0}) × Tree
    unfolding reverse_of
    reverse p diff receipt tree =
        if not (str_eq receipt.proposal_id p.id)
        then (err patch_error, tree)
        else reverse_of p receipt diff tree

    -- The service as the coordinator uses it.
    pub service : Patches
    service = record { apply = apply; reverse = reverse }

  newlines : Text → Text
  newlines [] = []
  newlines (c ∷ []) = if code c == 13 then chars "\n" else c ∷ []
  newlines (c ∷ d ∷ s) =
      let rest = newlines (d ∷ s) in
      if code c == 13 then (if code d == 10 then rest else chars "\n" ++ rest) else c ∷ rest

  one_change : List ProposalFile → Result ProposalFile
  one_change [] = err patch_error
  one_change (f ∷ []) = refuse_if (not (same_change f.change_type change)) (ok f)
  one_change (f ∷ g ∷ fs) = err patch_error

  read_content : Tree → String → Result Bytes
  read_content tree target = elim (get tree target) [
    | none ↦ err file_not_found
    | some node ↦ elim node [
      | file content ↦ ok content
      | symlink ↦ err Error.os_error
      | directory ↦ err Error.os_error
    ]
  ]

  as_text : Option String → Result Text
  as_text none = err patch_error
  as_text (some s) = ok (chars s)

  or_missing : Option String → Result String
  or_missing none = err file_not_found
  or_missing (some diff) = ok diff

  -- PatchService.review; the patch is read with universal newlines
  unfoldable pub review : Tree → Proposal → Option String → Result (Text × Text)
  unfolding newlines one_change read_content as_text or_missing
  review tree p found =
      verify_base_state tree p found
      >> (one_change p.files >>= λ f. resolve_workspace_path tree f.path >>= λ target.
          read_content tree target >>= λ content. refuse_if (ltb (1024 * 1024) (length content)) (
            as_text (codec.decode content) >>= λ original. or_missing found >>= λ diff.
            apply_unified_diff_to_text original (newlines (chars diff)) >>= λ updated.
            ok (original, updated)))
