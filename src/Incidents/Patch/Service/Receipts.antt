-- ===== src/Incidents/Patch/Service/Receipts.antt =====
-- The receipts of the patch service and what it writes (patch.py, PatchService: apply,
-- _build_receipt, _verify_applied_state).
use zgent.Common.{
  ℕ, String, eq_refl, ◌≡◌, refl, sym, ap, subst, ◌∙◌, Option, none, some, List, [], ◌∷◌, ◌⊎◌, inl,
  inr, arith, Bool-cases, is_some,
}
use zgent.Common.Dict.{get}
use zgent.Common.Exec.{Result, ok, err}
use zgent.Externals.{Externals, TextCodec}
use zgent.Incidents.Models.{Proposal, ProposalFile, PatchReceipt, AppliedFile}
use zgent.Incidents.Patch.{refuse_if, ◌>>=◌}
use zgent.Incidents.Patch.Paths.{bound}
use zgent.Incidents.Patch.Workspace.{
  resolve_workspace_path, sha256_file, is_hash, differs, verify_applied_target,
  verify_applied_state, applied_hash, applied_files, build_receipt,
}
use zgent.Incidents.Patch.Service.{
  Git, verify_base_state, check, apply, ready, apply_checked, receipt_of,
}
use zgent.Incidents.Patch.Service.Restores.{check-verified, apply-verified}
use zgent.World.{Tree}

module _ (x : Externals) where
  abbrev Verifies : Tree → String → String → Option String → Type 0
  Verifies tree path t hash =
      verify_applied_target x tree (record { path = path; applied_sha256 = hash }) t ≡ ok tt

  target-Verifies :
      (tree : Tree) (path t : String) (hash : Option String)
      → applied_hash x tree t ≡ ok hash
      → Verifies tree path t hash
  unfolding applied_hash verify_applied_target differs refuse_if is_hash
  target-Verifies tree path t hash h = elim (Bool-cases (is_some (get tree t))) [
    | inr e ↦
        let gone : none ≡ hash = ground (arith, e, h) in subst (Verifies tree path t) gone (rw e)
    | inl e ↦
        let (found, at, is) =
          bound (sha256_file x tree t) (λ found. ok (some found)) hash (rw e at h) in
        let there : some found ≡ hash = cc in
        subst (Verifies tree path t) there (rw (e, at, eq_refl found))
  ]

  -- The files of a receipt are as it says where it was built.
  files-verify :
      (tree : Tree) (fs : List ProposalFile) (gs : List AppliedFile)
      → applied_files x tree fs ≡ ok gs
      → verify_applied_state x tree gs ≡ ok tt
  unfolding applied_files verify_applied_state
  files-verify tree [] gs h =
      let e : [] ≡ gs = cc in subst (λ l. verify_applied_state x tree l ≡ ok tt) e refl
  files-verify tree (f ∷ fs) gs h =
      let (t, at, h1) =
        bound (resolve_workspace_path tree f.path)
          (λ t. applied_hash x tree t >>= λ hash. applied_files x tree fs >>= λ gs.
            ok (record { path = f.path; applied_sha256 = hash } ∷ gs))
          gs h in
      let (hash, here, h2) =
        bound (applied_hash x tree t)
          (λ hash. applied_files x tree fs >>= λ gs.
            ok (record { path = f.path; applied_sha256 = hash } ∷ gs))
          gs h1 in
      let (rest, behind, h3) =
        bound (applied_files x tree fs)
          (λ gs. ok (record { path = f.path; applied_sha256 = hash } ∷ gs)) gs h2 in
      let e : record { path = f.path; applied_sha256 = hash } ∷ rest ≡ gs = cc in
      subst (λ l. verify_applied_state x tree l ≡ ok tt) e
        (rw (at, target-Verifies tree f.path t hash here) (files-verify tree fs rest behind))

  module _ (codec : TextCodec) (git : Git) (meanwhile : Tree → Tree) where
    -- The receipt of an application names its proposal, and the check of a reversal finds the
    -- workspace that the application leaves as the receipt says.
    pub apply-receipt :
        (now : ℕ) (p : Proposal) (diff : Option String) (tree tree' : Tree) (r : PatchReceipt)
        → apply x codec git meanwhile now p diff tree ≡ (ok r, tree')
        → (r.proposal_id ≡ p.id) × (verify_applied_state x tree' r.files ≡ ok tt)
    unfolding build_receipt
    apply-receipt now p diff tree tree' r h =
        let (_, _, built) = apply-verified x codec git meanwhile now p diff tree tree' r h in
        let (files, listed, h1) =
          bound (applied_files x tree' p.files)
            (λ files. ok (record { proposal_id = p.id; files = files; applied_at = now })) r
            built in
        let named : p.id ≡ r.proposal_id = cc in
        let same_files : files ≡ r.files = cc in
        (
          sym named,
          subst (λ l. verify_applied_state x tree' l ≡ ok tt) same_files
              (files-verify tree' p.files files listed),
        )

    receipt_of-tree :
        (now : ℕ) (p : Proposal) (c : Result (Unit {0}) × Tree)
        → (receipt_of x codec git meanwhile now p c).1 ≡ c.1
    unfolding receipt_of
    receipt_of-tree now p (r, t) = refl

    check-cases :
        (tree : Tree) (p : Proposal) (diff : Option String)
        → ((check x codec git meanwhile tree p diff).1 ≡ tree)
          ⊎ ((check x codec git meanwhile tree p diff).1 ≡ meanwhile tree)
    unfolding check
    check-cases tree p diff =
        go (ready x codec git meanwhile tree p (verify_base_state x codec tree p diff)) refl
      where
        go :
            (c : Result (Unit {0}))
            → ready x codec git meanwhile tree p (verify_base_state x codec tree p diff) ≡ c
            → ((check x codec git meanwhile tree p diff).1 ≡ tree)
              ⊎ ((check x codec git meanwhile tree p diff).1 ≡ meanwhile tree)
        go (err e) is = inl (rw (check, is))
        go (ok _) is = inr (rw (check, is))

    -- An application leaves the workspace as it was found, or as others left it during Git's check,
    -- unless the patch, the proposal's metadata and the hashes of the files were verified after that
    -- check; then it leaves what Git's application of the patch leaves.
    pub apply-writes :
        (now : ℕ) (p : Proposal) (diff : Option String) (tree : Tree)
        → ((apply x codec git meanwhile now p diff tree).1 ≡ tree)
          ⊎ ((apply x codec git meanwhile now p diff tree).1 ≡ meanwhile tree)
          ⊎ ((verify_base_state x codec (meanwhile tree) p diff ≡ ok tt)
              × ((apply x codec git meanwhile now p diff tree).1
                  ≡ (git.apply diff (meanwhile tree)).1))
    unfolding apply apply_checked
    apply-writes now p diff tree = go (check x codec git meanwhile tree p diff) refl
      where
        Outcome : Tree → Type 0
        Outcome t =
            (t ≡ tree)
            ⊎ (t ≡ meanwhile tree)
            ⊎ ((verify_base_state x codec (meanwhile tree) p diff ≡ ok tt)
                × (t ≡ (git.apply diff (meanwhile tree)).1))

        go :
            (c : Result (Unit {0}) × Tree)
            → check x codec git meanwhile tree p diff ≡ c
            → Outcome (apply x codec git meanwhile now p diff tree).1
        go (err e, t) is = rw is (unchanged (check-cases tree p diff))
          where
            unchanged :
                ((check x codec git meanwhile tree p diff).1 ≡ tree)
                  ⊎ ((check x codec git meanwhile tree p diff).1 ≡ meanwhile tree)
                → Outcome t
            unchanged (inl s) = inl (sym (ap (λ c. c.1) is) ∙ s)
            unchanged (inr s) = inr (inl (sym (ap (λ c. c.1) is) ∙ s))
        go (ok _, t) is =
            let (same_tree, verified) = check-verified x codec git meanwhile tree t p diff is in
            rw is (
              inr (
                inr (
                  rw (← same_tree) verified,
                  receipt_of-tree now p (git.apply diff t)
                      ∙ ap (λ u. (git.apply diff u).1) same_tree,
                )))
