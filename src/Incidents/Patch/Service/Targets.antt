-- ===== src/Incidents/Patch/Service/Targets.antt =====
-- Workspaces that are verified for the same files (patch.py, PatchService._verify_base_state): they
-- hold the same there.
use zgent.Common.{
  String, eq_iff, ◌≡◌, refl, sym, ap, ◌∙◌, false, not, Option, none, some, List, [], ◌∷◌, All, inl,
  inr, arith, Option-cases, is_some,
}
use zgent.Common.Chars.{chars, text_of}
use zgent.Common.Dict.{get}
use zgent.Common.Exec.{ok}
use zgent.Externals.{Externals}
use zgent.Incidents.Models.{ChangeType, create, change, delete, ProposalFile}
use zgent.Incidents.Patch.{refuse_if, split_slash, path_parts, join_parts}
use zgent.Incidents.Patch.Paths.{guarded, bound}
use zgent.Incidents.Patch.Workspace.{
  ◌>>◌, resolve_workspace_path, sha256_file, is_hash, differs, verify_target, verify_targets,
}
use zgent.World.{Bytes, Node, file, symlink, directory, Tree}

-- Where a path points to in a workspace.
abbrev pub target_of : String → String
target_of path = text_of (join_parts (path_parts (split_slash (chars path))))

resolved :
    (tree : Tree) (path t : String) → resolve_workspace_path tree path ≡ ok t → target_of path ≡ t
unfolding resolve_workspace_path
resolved tree path t h =
    let (_, h1) = guarded _ _ t h in let (_, h2) = guarded _ _ t h1 in ground (arith, h2)

module _ (x : Externals) where
  hash_of :
      (tree : Tree) (t hash : String)
      → sha256_file x tree t ≡ ok hash
      → (c : Bytes) × (get tree t ≡ some (file c)) × (x.sha256 c ≡ hash)
  unfolding sha256_file
  hash_of tree t hash h = go (get tree t) refl
    where
      go :
          (o : Option Node)
          → get tree t ≡ o
          → (c : Bytes) × (get tree t ≡ some (file c)) × (x.sha256 c ≡ hash)
      go none e = absurd (ground (arith, e, h))
      go (some (file c)) e = (c, e, ground (arith, e, h))
      go (some symlink) e = absurd (ground (arith, e, h))
      go (some directory) e = absurd (ground (arith, e, h))

  differs-ok :
      (tree : Tree) (t : String) (base : Option String)
      → differs x tree t base ≡ ok tt
      → (c : Bytes) × (get tree t ≡ some (file c)) × (base ≡ some (x.sha256 c))
  unfolding differs is_hash
  differs-ok tree t base h =
      let (_, h1) = guarded _ _ tt h in
      let (hash, found, h2) =
        bound (sha256_file x tree t) (λ found. refuse_if (not (is_hash found base)) (ok tt)) tt
          h1 in
      let (c, there, is) = hash_of tree t hash found in
      let (equal, _) = guarded _ _ tt h2 in (c, there, go base equal is)
    where
      go :
          (base : Option String) {hash : String} {c : Bytes}
          → not (is_hash hash base) ≡ false
          → x.sha256 c ≡ hash
          → base ≡ some (x.sha256 c)
      go none e is = absurd (cc)
      go (some b) {hash} e is = ground (arith, e, is, eq_iff hash b)

  -- Different contents have different hashes.
  abbrev pub NoCollision : Type 0
  NoCollision = (a b : Bytes) → x.sha256 a ≡ x.sha256 b → a ≡ b

  differs-same :
      (tree tree' : Tree) (t : String) (base : Option String)
      → NoCollision
      → differs x tree t base ≡ ok tt
      → differs x tree' t base ≡ ok tt
      → get tree' t ≡ get tree t
  differs-same tree tree' t base injective h h' =
      let (c, there, is) = differs-ok tree t base h in
      let (c', there', is') = differs-ok tree' t base h' in
      let hashes : x.sha256 c' ≡ x.sha256 c = cc in
      there' ∙ ap (λ b. some (file b)) (injective c' c hashes) ∙ sym there

  absent :
      (tree : Tree) (t : String)
      → refuse_if (is_some (get tree t)) (ok tt) ≡ ok tt
      → get tree t ≡ none
  absent tree t h = elim (Option-cases (get tree t)) [
    | inl e ↦ e
    | inr (node, e) ↦ let (no_node, _) = guarded _ _ tt h in absurd (ground (arith, e, no_node))
  ]

  target-same :
      (tree tree' : Tree) (f : ProposalFile) (t : String)
      → NoCollision
      → verify_target x tree f t ≡ ok tt
      → verify_target x tree' f t ≡ ok tt
      → get tree' t ≡ get tree t
  unfolding verify_target
  target-same tree tree' f t injective h h' = go f.change_type refl
    where
      go : (c : ChangeType) → f.change_type ≡ c → get tree' t ≡ get tree t
      go create e =
          absent tree' t (rw (verify_target, e) at h')
          ∙ sym (absent tree t (rw (verify_target, e) at h))
      go change e =
          differs-same tree tree' t f.base_sha256 injective (rw (verify_target, e) at h)
            (rw (verify_target, e) at h')
      go delete e =
          differs-same tree tree' t f.base_sha256 injective (rw (verify_target, e) at h)
            (rw (verify_target, e) at h')

  -- Two workspaces that are verified for the same files hold the same there.
  pub targets-same :
      (tree tree' : Tree) (fs : List ProposalFile)
      → NoCollision
      → verify_targets x tree fs ≡ ok tt
      → verify_targets x tree' fs ≡ ok tt
      → All (λ f. get tree' (target_of f.path) ≡ get tree (target_of f.path)) fs
  unfolding verify_targets
  targets-same tree tree' [] injective h h' = tt
  targets-same tree tree' (f ∷ fs) injective h h' =
      let (t, at, h1) =
        bound (resolve_workspace_path tree f.path)
          (λ t. verify_target x tree f t >> verify_targets x tree fs) tt h in
      let (t', at', h1') =
        bound (resolve_workspace_path tree' f.path)
          (λ t. verify_target x tree' f t >> verify_targets x tree' fs) tt h' in
      let (_, here, rest) =
        bound (verify_target x tree f t) (λ _. verify_targets x tree fs) tt h1 in
      let (_, here', rest') =
        bound (verify_target x tree' f t') (λ _. verify_targets x tree' fs) tt h1' in
      let e = resolved tree f.path t at in
      let e' = resolved tree' f.path t' at' in
      (
        target-same tree tree' f (target_of f.path) injective (rw e here) (rw e' here'),
        targets-same tree tree' fs injective rest rest',
      )
