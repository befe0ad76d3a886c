-- ===== src/Incidents/Patch/Service/Restores.antt =====
-- What the patch service changes and restores (patch.py, PatchService).
use zgent.Common.{
  ℕ, String, str_eq, eq_iff, ◌≡◌, refl, sym, ap, not, Option, none, some, All, inl, inr, arith,
  Bool-cases,
}
use zgent.Common.Chars.{chars}
use zgent.Common.Dict.{get}
use zgent.Common.Exec.{Result, ok, err}
use zgent.Externals.{Externals, TextCodec}
use zgent.Incidents.Models.{Proposal, PatchReceipt}
use zgent.Incidents.Patch.{refuse_if, parse_unified_diff}
use zgent.Incidents.Patch.Paths.{guarded, bound}
use zgent.Incidents.Patch.Workspace.{
  ◌>>◌, verify_targets, verify_applied_state, build_receipt, same_files,
}
use zgent.Incidents.Patch.Service.{
  Git, verify_base_state, check, apply, reverse, ready, receipt_of, apply_checked, reversed,
  reverse_checked, reverse_of,
}
use zgent.Incidents.Patch.Service.Targets.{target_of, NoCollision, targets-same}
use zgent.World.{Tree}

module _ (x : Externals) where
  module _ (codec : TextCodec) where
    base-same :
        (tree tree' : Tree) (p : Proposal) (diff : Option String)
        → NoCollision x
        → verify_base_state x codec tree p diff ≡ ok tt
        → verify_base_state x codec tree' p diff ≡ ok tt
        → All (λ f. get tree' (target_of f.path) ≡ get tree (target_of f.path)) p.files
    unfolding verify_base_state
    base-same tree tree' p none injective h h' = absurd (cc)
    base-same tree tree' p (some diff) injective h h' =
        targets-same x tree tree' p.files injective (targets tree h) (targets tree' h')
      where
        targets :
            (tree : Tree)
            → verify_base_state x codec tree p (some diff) ≡ ok tt
            → verify_targets x tree p.files ≡ ok tt
        targets tree h =
            let (_, h1) = guarded _ _ tt h in
            let (parsed, read, h2) =
              bound (parse_unified_diff (chars diff))
                (λ parsed.
                  refuse_if (not (same_files p.files parsed)) (verify_targets x tree p.files))
                tt h1 in
            (guarded _ _ tt h2).1

    module _ (git : Git) (meanwhile : Tree → Tree) where
      -- A check that passes has verified the workspace as it is at its end.
      pub check-verified :
          (tree tree' : Tree) (p : Proposal) (diff : Option String)
          → check x codec git meanwhile tree p diff ≡ (ok tt, tree')
          → (tree' ≡ meanwhile tree) × (verify_base_state x codec tree' p diff ≡ ok tt)
      unfolding check
      check-verified tree tree' p diff h =
          go (ready x codec git meanwhile tree p (verify_base_state x codec tree p diff)) refl
        where
          go :
              (r : Result (Unit {0}))
              → ready x codec git meanwhile tree p (verify_base_state x codec tree p diff) ≡ r
              → (tree' ≡ meanwhile tree) × (verify_base_state x codec tree' p diff ≡ ok tt)
          go (err e) is = absurd (ground (arith, is, h))
          go (ok _) is =
              let e : (
                git.check_apply diff tree >> verify_base_state x codec (meanwhile tree) p diff,
                meanwhile tree,
              )
                  ≡ (ok tt, tree') =
                rw (check, is) at h in
              let moved : meanwhile tree ≡ tree' = ap (λ r. r.1) e in
              let (_, _, verified) =
                bound (git.check_apply diff tree)
                  (λ _. verify_base_state x codec (meanwhile tree) p diff) tt (ap (λ r. r.0) e) in
              (sym moved, rw (← moved) verified)

      receipt_of-ok :
          (now : ℕ) (p : Proposal) (c : Result (Unit {0}) × Tree) (tree' : Tree) (r : PatchReceipt)
          → receipt_of x codec git meanwhile now p c ≡ (ok r, tree')
          → (tree' ≡ c.1) × (build_receipt x now tree' p ≡ ok r)
      unfolding receipt_of
      receipt_of-ok now p (err e, tree) tree' r h = absurd (cc)
      receipt_of-ok now p (ok _, tree) tree' r h =
          let left : tree ≡ tree' = ap (λ c. c.1) h in (sym left, rw (← left) (ap (λ c. c.0) h))

      -- A call of apply that writes has verified the workspace just before; what it leaves is what
      -- Git's application of the patch leaves.
      pub apply-verified :
          (now : ℕ) (p : Proposal) (diff : Option String) (tree tree' : Tree) (r : PatchReceipt)
          → apply x codec git meanwhile now p diff tree ≡ (ok r, tree')
          → (verify_base_state x codec (meanwhile tree) p diff ≡ ok tt)
            × (tree' ≡ (git.apply diff (meanwhile tree)).1)
            × (build_receipt x now tree' p ≡ ok r)
      unfolding apply apply_checked receipt_of
      apply-verified now p diff tree tree' r h = go (check x codec git meanwhile tree p diff) refl
        where
          go :
              (c : Result (Unit {0}) × Tree)
              → check x codec git meanwhile tree p diff ≡ c
              → (verify_base_state x codec (meanwhile tree) p diff ≡ ok tt)
                × (tree' ≡ (git.apply diff (meanwhile tree)).1)
                × (build_receipt x now tree' p ≡ ok r)
          go (err e, t) is = absurd (ground (arith, is, h))
          go (ok _, t) is =
              let (same_tree, verified) = check-verified tree t p diff is in
              let applied : receipt_of x codec git meanwhile now p (git.apply diff t)
                  ≡ (ok r, tree') =
                rw (is) at h in
              let (left, receipt) = receipt_of-ok now p (git.apply diff t) tree' r applied in
              (rw (← same_tree) verified, rw (← same_tree) left, receipt)

      reversed-ok :
          (p : Proposal) (diff : Option String) (c : Result (Unit {0}) × Tree) (tree' : Tree)
          → reversed x codec git meanwhile p diff c ≡ (ok tt, tree')
          → verify_base_state x codec tree' p diff ≡ ok tt
      unfolding reversed
      reversed-ok p diff (err e, tree) tree' h = absurd (cc)
      reversed-ok p diff (ok _, tree) tree' h =
          let left : tree ≡ tree' = ap (λ c. c.1) h in rw (← left) (ap (λ c. c.0) h)

      reverse_checked-ok :
          (p : Proposal) (diff : Option String) (checked : Result (Unit {0})) (tree tree' : Tree)
          → reverse_checked x codec git meanwhile p diff checked tree ≡ (ok tt, tree')
          → (checked ≡ ok tt) × (verify_base_state x codec tree' p diff ≡ ok tt)
      unfolding reverse_checked
      reverse_checked-ok p diff (err e) tree tree' h = absurd (cc)
      reverse_checked-ok p diff (ok _) tree tree' h =
          (refl, reversed-ok p diff (git.reverse diff tree) tree' h)

      -- A reversal that returns was for its own receipt, found the files as the receipt says just
      -- before, and leaves the files with the hashes that they had when the proposal was made.
      pub reverse-verified :
          (p : Proposal) (diff : Option String) (r : PatchReceipt) (tree tree' : Tree)
          → reverse x codec git meanwhile p diff r tree ≡ (ok tt, tree')
          → (r.proposal_id ≡ p.id)
            × (verify_applied_state x (meanwhile tree) r.files ≡ ok tt)
            × (verify_base_state x codec tree' p diff ≡ ok tt)
      unfolding reverse reverse_of
      reverse-verified p diff r tree tree' h = elim (Bool-cases (str_eq r.proposal_id p.id)) [
        | inr e ↦ absurd (ground (arith, e, h))
        | inl e ↦
            go (ready x codec git meanwhile tree p (verify_applied_state x tree r.files)) refl
              ((eq_iff r.proposal_id p.id).0 e) (rw e at h)
      ]
        where
          go :
              (c : Result (Unit {0}))
              → ready x codec git meanwhile tree p (verify_applied_state x tree r.files) ≡ c
              → r.proposal_id ≡ p.id
              → reverse_of x codec git meanwhile p r diff tree ≡ (ok tt, tree')
              → (r.proposal_id ≡ p.id)
                × (verify_applied_state x (meanwhile tree) r.files ≡ ok tt)
                × (verify_base_state x codec tree' p diff ≡ ok tt)
          go (err e) is own h = absurd (ground (arith, is, h))
          go (ok _) is own h =
              let e : reverse_checked x codec git meanwhile p diff
                    (git.check_reverse diff tree >> verify_applied_state x (meanwhile tree) r.files)
                    (meanwhile tree)
                  ≡ (ok tt, tree') =
                rw (reverse_of, is) at h in
              let (checked, verified) = reverse_checked-ok p diff _ (meanwhile tree) tree' e in
              let (_, _, applied) =
                bound (git.check_reverse diff tree)
                  (λ _. verify_applied_state x (meanwhile tree) r.files) tt checked in
              (own, applied, verified)

      -- Where a proposal was applied and its application is reversed later, whatever happened to the
      -- workspace between, each file of the proposal is what it was just before it was applied, or
      -- absent as it was then; where different contents have different hashes. A reversal that
      -- returns had the receipt of this proposal.
      pub reverse_restores :
          (now : ℕ) (p : Proposal) (diff : Option String) (tree applied_tree later restored : Tree)
          (r r' : PatchReceipt)
          → NoCollision x
          → apply x codec git meanwhile now p diff tree ≡ (ok r, applied_tree)
          → reverse x codec git meanwhile p diff r' later ≡ (ok tt, restored)
          → (r'.proposal_id ≡ p.id)
            × All
                (λ f. get restored (target_of f.path) ≡ get (meanwhile tree) (target_of f.path))
                p.files
      reverse_restores now p diff tree applied_tree later restored r r' injective a b =
          let (before, _, _) = apply-verified now p diff tree applied_tree r a in
          let (own, _, after) = reverse-verified p diff r' later restored b in
          (own, base-same (meanwhile tree) restored p diff injective before after)
