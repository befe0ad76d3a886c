-- ===== src/Incidents/Patch/Workspace.antt =====
-- The files of a workspace that a patch is about (cyan/training/incidents/patch.py:
-- resolve_workspace_path, sha256_file, build_proposal_files, and the checks of PatchService on them).

use zgent.Common.{
  ℕ, String, str_eq, Bool, true, false, not, ◌&&◌, ◌||◌, Option, none, some, List, [], ◌∷◌, ◌++◌,
  any, is_some, if◌then◌else◌,
}
use zgent.Common.Chars.{Text, chars, text_of, same, starts, without_end}
use zgent.Common.Dict.{get}
use zgent.Common.Exec.{Result, ok, err, patch_error}
use zgent.Externals.{Externals}
use zgent.Incidents.Models.{
  ChangeType, create, change, delete, Proposal, ProposalFile, PatchReceipt, AppliedFile,
}
use zgent.Incidents.Patch.{ParsedPatchFile, refuse_if, ◌>>=◌, split_slash, path_parts, join_parts}
use zgent.World.{Node, file, symlink, directory, Tree}

infixl 10 ◌>>◌
abbrev pub ◌>>◌ : {A : Type 0} → Result (Unit {0}) → Result A → Result A
m >> n = m >>= λ _. n

is_symlink : Option Node → Bool
is_symlink (some symlink) = true
is_symlink _ = false

-- Whether a path on the way is a symlink; `above` is the path so far.
crosses_symlink : Tree → List Text → List Text → Bool
unfolding is_symlink
crosses_symlink tree above [] = false
crosses_symlink tree above (p ∷ ps) =
    is_symlink (get tree (text_of (join_parts (above ++ (p ∷ [])))))
    || crosses_symlink tree (above ++ (p ∷ [])) ps

-- resolve_workspace_path, as the path from the root
unfoldable pub resolve_workspace_path : Tree → String → Result String
unfolding crosses_symlink
resolve_workspace_path tree path =
    let parts = path_parts (split_slash (chars path)) in
    refuse_if (starts (chars "/") (chars path) || any (λ p. same p (chars "..")) parts)
      (refuse_if (crosses_symlink tree [] parts) (ok (text_of (join_parts parts))))

unfoldable pub same_change : ChangeType → ChangeType → Bool
same_change create create = true
same_change change change = true
same_change delete delete = true
same_change _ _ = false

-- actual == expected, as lists of paths and change types
unfoldable pub same_files : List ProposalFile → List ParsedPatchFile → Bool
unfolding same_change
same_files [] [] = true
same_files [] (g ∷ gs) = false
same_files (f ∷ fs) [] = false
same_files (f ∷ fs) (g ∷ gs) =
    str_eq f.path g.path && same_change f.change_type g.change_type && same_files fs gs

-- hash == expected
unfoldable pub is_hash : String → Option String → Bool
is_hash hash none = false
is_hash hash (some expected) = str_eq hash expected

-- The part of a line behind its first tab.
behind_tab : Text → Option Text
behind_tab [] = none
behind_tab (c ∷ s) = let rest = behind_tab s in if same (c ∷ []) (chars "\t") then some s else rest

gitlink : Text → List Text
unfolding behind_tab
gitlink line = elim (behind_tab line) [
  | none ↦ []
  | some path ↦ if starts (chars "160000 ") line then path ∷ [] else []
]

unfoldable pub gitlinks : List Text → List Text
unfolding gitlink
gitlinks [] = []
gitlinks (line ∷ lines) = gitlink (without_end line) ++ gitlinks lines

-- item.path == link or item.path.startswith(f"{link}/")
unfoldable pub in_submodule : List Text → ProposalFile → Bool
in_submodule links f =
    any (λ link. same (chars f.path) link || starts (link ++ chars "/") (chars f.path)) links

module _ (x : Externals) where
  -- sha256_file; the caller has refused a symlink on the way
  unfoldable pub sha256_file : Tree → String → Result String
  sha256_file tree path = elim (get tree path) [
    | none ↦ err patch_error
    | some node ↦ elim node [
      | file content ↦ ok (x.sha256 content)
      | symlink ↦ err patch_error
      | directory ↦ err patch_error
    ]
  ]

  base_file : Tree → ParsedPatchFile → String → Result ProposalFile
  base_file tree f target = elim f.change_type [
    | create ↦
        refuse_if (is_some (get tree target))
          (ok (record { path = f.path; change_type = create; base_sha256 = none }))
    | change ↦ sha256_file tree target >>= λ hash.
        ok (record { path = f.path; change_type = change; base_sha256 = some hash })
    | delete ↦ sha256_file tree target >>= λ hash.
        ok (record { path = f.path; change_type = delete; base_sha256 = some hash })
  ]

  -- build_proposal_files
  unfoldable pub build_proposal_files : Tree → List ParsedPatchFile → Result (List ProposalFile)
  unfolding base_file
  build_proposal_files tree [] = ok []
  build_proposal_files tree (f ∷ fs) = resolve_workspace_path tree f.path >>= λ target.
      base_file tree f target >>= λ g. build_proposal_files tree fs >>= λ gs. ok (g ∷ gs)

  -- not path.exists() or sha256_file(path) != hash
  unfoldable pub differs : Tree → String → Option String → Result (Unit {0})
  differs tree target hash =
      refuse_if (not (is_some (get tree target)))
        (sha256_file tree target >>= λ found. refuse_if (not (is_hash found hash)) (ok tt))

  unfoldable pub verify_target : Tree → ProposalFile → String → Result (Unit {0})
  unfolding differs
  verify_target tree f target = elim f.change_type [
    | create ↦ refuse_if (is_some (get tree target)) (ok tt)
    | change ↦ differs tree target f.base_sha256
    | delete ↦ differs tree target f.base_sha256
  ]

  unfoldable pub verify_targets : Tree → List ProposalFile → Result (Unit {0})
  unfolding verify_target
  verify_targets tree [] = ok tt
  verify_targets tree (f ∷ fs) = resolve_workspace_path tree f.path >>= λ target.
      verify_target tree f target >> verify_targets tree fs

  unfoldable pub verify_applied_target : Tree → AppliedFile → String → Result (Unit {0})
  unfolding differs
  verify_applied_target tree f target = elim f.applied_sha256 [
    | none ↦ refuse_if (is_some (get tree target)) (ok tt)
    | some hash ↦ differs tree target (some hash)
  ]

  -- PatchService._verify_applied_state, on the files of the receipt
  unfoldable pub verify_applied_state : Tree → List AppliedFile → Result (Unit {0})
  unfolding verify_applied_target
  verify_applied_state tree [] = ok tt
  verify_applied_state tree (f ∷ fs) = resolve_workspace_path tree f.path >>= λ target.
      verify_applied_target tree f target >> verify_applied_state tree fs

  unfoldable pub applied_hash : Tree → String → Result (Option String)
  applied_hash tree target =
      if is_some (get tree target)
      then (sha256_file tree target >>= λ hash. ok (some hash))
      else ok none

  unfoldable pub applied_files : Tree → List ProposalFile → Result (List AppliedFile)
  unfolding applied_hash
  applied_files tree [] = ok []
  applied_files tree (f ∷ fs) = resolve_workspace_path tree f.path >>= λ target.
      applied_hash tree target >>= λ hash.
      applied_files tree fs >>= λ gs. ok (record { path = f.path; applied_sha256 = hash } ∷ gs)

  -- PatchService._build_receipt
  unfoldable pub build_receipt : ℕ → Tree → Proposal → Result PatchReceipt
  unfolding applied_files
  build_receipt now tree p = applied_files tree p.files >>= λ files.
      ok (record { proposal_id = p.id; files = files; applied_at = now })
