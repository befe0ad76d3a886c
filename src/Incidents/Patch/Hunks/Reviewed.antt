-- ===== src/Incidents/Patch/Hunks/Reviewed.antt =====
-- What a user reviews is what the model asked for (patch.py: build_replacement_diff, whose patch is
-- applied in memory by apply_unified_diff_to_text).

use zgent.Common.{
  ℕ, ◌+◌, length, ◌≡◌, refl, ap, subst, ◌∙◌, List, [], ◌∷◌, ◌++◌, All, inl, inr, arith, Bool-cases,
}
use zgent.Common.Chars.{Text, same, split_keep, concat, concat-split_keep}
use zgent.Common.Exec.{ok}
use zgent.Incidents.Models.{change}
use zgent.Incidents.Patch.{parse_unified_diff, ParsedPatchFile}
use zgent.Incidents.Patch.Diff.{
  Edit, Group, olds, news, render, unified_diff, build_replacement_diff, non_empty,
}
use zgent.Incidents.Patch.Hunks.{apply_unified_diff_to_text}
use zgent.Incidents.Patch.Hunks.Lines.{
  NoBreak, IsPiece, OnlyNewlines, split_keep-concat, split_keep-pieces,
}
use zgent.Incidents.Patch.Hunks.Edits.{text, EditPiece}
use zgent.Incidents.Patch.Hunks.Groups.{IsScript, GroupNoHeader, GroupPieces}
use zgent.Incidents.Patch.Hunks.Replacement.{outside-rendered, diff-IsLine}

All-split : {A : Type 0} (P : A → Type 0) (xs ys : List A) → All P (xs ++ ys) → All P xs × All P ys
All-split P [] ys h = (tt, h)
All-split P (x ∷ xs) ys h = let (l, r) = All-split P xs ys h.1 in ((h.0, l), r)

edit-pieces : (es : List Edit) → All IsPiece (olds es) → All IsPiece (news es) → All EditPiece es
unfolding olds news EditPiece text
edit-pieces [] o n = tt
edit-pieces (Edit.both l ∷ es) o n = (o.0, edit-pieces es o.1 n.1)
edit-pieces (Edit.old l ∷ es) o n = (o.0, edit-pieces es o.1 n)
edit-pieces (Edit.new l ∷ es) o n = (n.0, edit-pieces es o n.1)

-- The lines of a script are lines of the two files.
script-pieces :
    (gs : List Group) (i : ℕ) (old new : List Text)
    → IsScript i old new gs
    → All IsPiece old
    → All IsPiece new
    → All GroupPieces gs
unfolding IsScript
script-pieces [] i old new s o n = tt
script-pieces (g ∷ gs) i old new (gap, old', new', old_is, new_is, e, at, s) o n =
    let o' = (All-split IsPiece gap (olds g.edits ++ old') (subst (All IsPiece) old_is o)).1 in
    let n' = (All-split IsPiece gap (news g.edits ++ new') (subst (All IsPiece) new_is n)).1 in
    let (o1, o2) = All-split IsPiece (olds g.edits) old' o' in
    let (n1, n2) = All-split IsPiece (news g.edits) new' n' in
    (
      edit-pieces g.edits o1 n1,
      script-pieces gs (g.old_index + length (olds g.edits)) old' new' s o2 n2,
    )

non_empty-ok : (t patch : Text) → non_empty t ≡ ok patch → patch ≡ t
unfolding non_empty
non_empty-ok [] patch h = absurd (cc)
non_empty-ok (c ∷ s) patch h = cc

module _ (grouped : List Text → List Text → List Group) (path original updated patch : Text) where
  abbrev groups : List Group
  groups = grouped (split_keep original) (split_keep updated)

  built :
      build_replacement_diff grouped path original updated ≡ ok patch
      → patch ≡ concat (render (unified_diff path groups))
  unfolding build_replacement_diff
  built h = elim (Bool-cases (same original updated)) [
    | inl e ↦ absurd (ground (arith, h, e))
    | inr e ↦ non_empty-ok (concat (render (unified_diff path groups))) patch (rw e at h)
  ]

  nothing_built : build_replacement_diff grouped path original updated ≡ ok patch → groups ≡ [] → ⊥
  unfolding build_replacement_diff unified_diff render concat non_empty
  nothing_built h e = elim (Bool-cases (same original updated)) [
    | inl s ↦ ground (arith, h, s)
    | inr s ↦ cc (rw (s, e) at h)
  ]

-- The diff that is built for the replacement of a text by another, and that is read as the change
-- of one file, gives exactly the other text when it is applied to the first in memory: where
-- difflib's groups turn the lines of the first into those of the other, no removed line begins
-- with "-- " and no added one with "++ ", the line feed is the only line boundary of the texts,
-- and the path holds none.
pub apply_unified_diff-build_replacement :
    (grouped : List Text → List Text → List Group) (path original updated patch : Text)
    (f : ParsedPatchFile)
    → let groups = grouped (split_keep original) (split_keep updated) in
      IsScript 0 (split_keep original) (split_keep updated) groups
      → All GroupNoHeader groups
      → OnlyNewlines original
      → OnlyNewlines updated
      → NoBreak path
      → build_replacement_diff grouped path original updated ≡ ok patch
      → parse_unified_diff patch ≡ ok (f ∷ [])
      → f.change_type ≡ change
      → apply_unified_diff_to_text original patch ≡ ok updated
unfolding apply_unified_diff_to_text
apply_unified_diff-build_replacement grouped path original updated patch f script plain o n p b
      parsed changed =
    go (grouped (split_keep original) (split_keep updated)) refl
  where
    go :
        (gs : List Group)
        → grouped (split_keep original) (split_keep updated) ≡ gs
        → apply_unified_diff_to_text original patch ≡ ok updated
    go [] e = absurd (nothing_built grouped path original updated patch b e)
    go (g ∷ gs) e =
        let s : IsScript 0 (split_keep original) (split_keep updated) (g ∷ gs) = rw e at script in
        let plain' : All GroupNoHeader (g ∷ gs) = rw e at plain in
        let pieces =
          script-pieces (g ∷ gs) 0 (split_keep original) (split_keep updated) s
            (split_keep-pieces original o) (split_keep-pieces updated n) in
        let is : patch ≡ concat (render (unified_diff path (g ∷ gs))) =
          built grouped path original updated patch b ∙ rw e in
        let lines = split_keep-concat _ (diff-IsLine path g gs p plain' pieces) in
        let run =
          outside-rendered path (split_keep original) (split_keep updated) g gs s plain' pieces in
        rw (parsed, changed, is, lines, run) (ap ok (concat-split_keep updated))
