-- ===== src/Incidents/Patch/Hunks/Groups.antt =====
-- The loops over the hunks of a diff script (patch.py, apply_unified_diff_to_text): each copies the
-- lines in front of it and puts its new lines for its old ones.

use mathlib.Core.List.{append_assoc}
use zgent.Common.{
  ℕ, ◌+◌, ◌-◌, ◌≤◌, ◌<◌, ◌≡◌, refl, sym, ap, subst, ◌∙◌, false, List, [], ◌∷◌, ◌++◌, All, ◌⊎◌, inl,
  inr, arith, length, take, drop, Bool-cases, ltb, drop-drop, length-drop, length-append,
}
use zgent.Common.Chars.{Text, starts}
use zgent.Common.Exec.{ok}
use zgent.Incidents.Patch.{◌>>=◌}
use zgent.Incidents.Patch.Diff.{
  Group, olds, news, edit_lines, group_lines, header_line, render, lacks_newline,
}
use zgent.Incidents.Patch.Hunks.{
  Hunk, inside, begin, close, ended, finish, kind, is_marker, LineKind,
}
use zgent.Incidents.Patch.Hunks.Headers.{range_of, hunk_header-header_line}
use zgent.Incidents.Patch.Hunks.Edits.{NoHeader, EditPiece, NoMarker}
use zgent.Incidents.Patch.Hunks.Scripts.{run, run-Ran, inside-edits}

take-append : {A : Type 0} (gap left : List A) → take (length gap) (gap ++ left) ≡ gap
take-append [] left = refl
take-append (x ∷ gap) left = ap (λ l. x ∷ l) (take-append gap left)

drop-append : {A : Type 0} (gap left : List A) → drop (length gap) (gap ++ left) ≡ left
drop-append [] left = refl
drop-append (x ∷ gap) left = drop-append gap left

-- The lines between two places of a list.
between :
    {A : Type 0} (xs gap left : List A) (i j : ℕ)
    → drop i xs ≡ gap ++ left
    → i + length gap ≡ j
    → (take (j - i) (drop i xs) ≡ gap) × (drop j xs ≡ left)
between xs gap left i j h e =
    let count : j - i ≡ length gap = omega arith in
    (
      rw (h, count) (take-append gap left),
      sym (drop-drop (length gap) i j xs e) ∙ ap (drop (length gap)) h ∙ drop-append gap left,
    )

pub render-append : (ls ks : List Text) → render (ls ++ ks) ≡ render ls ++ render ks
unfolding render
render-append [] ks = refl
render-append (l ∷ ls) ks = elim (Bool-cases (lacks_newline l)) [
  | inl e ↦ rw (e, render-append ls ks)
  | inr e ↦ rw (e, render-append ls ks)
]

-- The groups turn the old lines from an index on into the new ones: each group begins where its
-- index says, the lines between the groups stay, and a group without old lines stands at the begin
-- of the file.
unfoldable pub IsScript : ℕ → List Text → List Text → List Group → Type 0
IsScript i old new [] = old ≡ new
IsScript i old new (g ∷ gs) =
    (gap : List Text) × (old' : List Text) × (new' : List Text) × (old
      ≡ gap ++ (olds g.edits ++ old'))
    × (new ≡ gap ++ (news g.edits ++ new'))
    × (i + length gap ≡ g.old_index)
    × ((g.old_index ≡ 0) ⊎ (0 < length (olds g.edits)))
    × IsScript (g.old_index + length (olds g.edits)) old' new' gs

abbrev pub GroupNoHeader : Group → Type 0
GroupNoHeader g = All NoHeader g.edits

abbrev pub GroupPieces : Group → Type 0
GroupPieces g = All EditPiece g.edits

pub render-header_line :
    (g : Group) (ls : List Text) → render (header_line g ∷ ls) ≡ header_line g ∷ render ls
unfolding render lacks_newline header_line starts
render-header_line g ls = refl

kind-header_line : (g : Group) → kind (header_line g) ≡ LineKind.header (range_of g)
unfolding kind
kind-header_line g = rw (hunk_header-header_line g, kind)

NoMarker-groups : (gs : List Group) → NoMarker (render (group_lines gs))
unfolding render group_lines
NoMarker-groups [] = tt
NoMarker-groups (g ∷ gs) =
    rw (render-header_line g (edit_lines g.edits ++ group_lines gs))
      (unfold is_marker header_line starts in refl)

old_start-target :
    (g : Group)
    → (g.old_index ≡ 0) ⊎ (0 < length (olds g.edits))
    → (range_of g).old_start - 1 ≡ g.old_index
unfolding range_of
old_start-target g (inl h) = ground (arith, h)
old_start-target g (inr h) = ground (arith, h)

module _ (source : List Text) where
  -- The state at the begin of a group's hunk.
  abbrev begun : Group → List Text → Hunk
  begun g output = record {
    cursor = g.old_index;
    output = output;
    range = range_of g;
    consumed = 0;
    produced = 0;
  }

  begin-group :
      (g : Group) (cursor : ℕ) (output gap left : List Text)
      → cursor ≤ length source
      → drop cursor source ≡ gap ++ left
      → cursor + length gap ≡ g.old_index
      → (g.old_index ≡ 0) ⊎ (0 < length (olds g.edits))
      → begin source (range_of g) cursor output ≡ ok (begun g (output ++ gap))
  unfolding begin
  begin-group g cursor output gap left fits h e o =
      let (taken, _) = between source gap left cursor g.old_index h e in
      let size = ap length h in
      let n = length-drop cursor source in
      let m = length-append gap left in
      let lower : ltb g.old_index cursor ≡ false = ground arith in
      let upper : ltb (length source) g.old_index ≡ false = ground (arith, size, n, m) in
      rw (old_start-target g o, lower, upper, taken)

  inside-header :
      (h : Hunk) (g : Group) (rest : List Text)
      → inside source h (header_line g ∷ rest) ≡ (
          close h >>= λ h'.
          begin source (range_of g) h'.cursor h'.output >>= λ n. inside source n rest)
  unfolding inside
  inside-header h g [] = rw (kind-header_line g, inside)
  inside-header h g (next ∷ rest) = rw (kind-header_line g, inside)

  close-run :
      (g : Group) (output : List Text) → let h = run g.edits (begun g output) in close h ≡ ok h
  unfolding close range_of
  close-run g output =
      let r = run-Ran g.edits (begun g output) in
      rw (r.same_range) (ground (arith, r.counted_old, r.counted_new))

  -- A state behind a hunk: what is left of the old lines stands at its cursor.
  record Behind (output left : List Text) (h : Hunk) : Type 0 where
    pub closes : close h ≡ ok h
    pub stands : drop h.cursor source ≡ left
    pub written : h.output ≡ output

  -- A hunk is run through, and leaves the groups behind it.
  group-step :
      (g : Group) (gs : List Group) (cursor : ℕ) (output gap left : List Text)
      → cursor ≤ length source
      → drop cursor source ≡ gap ++ (olds g.edits ++ left)
      → cursor + length gap ≡ g.old_index
      → (g.old_index ≡ 0) ⊎ (0 < length (olds g.edits))
      → All NoHeader g.edits
      → All EditPiece g.edits
      → (h : Hunk) × ((begin source (range_of g) cursor output >>= λ n.
            inside source n (render (edit_lines g.edits ++ group_lines gs)))
          ≡ inside source h (render (group_lines gs)))
        × Behind (output ++ (gap ++ news g.edits)) left h
        × (h.cursor ≡ g.old_index + length (olds g.edits))
  group-step g gs cursor output gap left fits at e o plain pieces =
      let (_, here) = between source gap (olds g.edits ++ left) cursor g.old_index at e in
      let n = begun g (output ++ gap) in
      let r = run-Ran g.edits n in
      let (_, behind) =
        between source (olds g.edits) left g.old_index (g.old_index + length (olds g.edits)) here
          refl in
      (
        run g.edits n,
        rw
            (
              begin-group g cursor output gap _ fits at e o,
              render-append (edit_lines g.edits) (group_lines gs),
            )
            (inside-edits source g.edits n (render (group_lines gs)) left plain pieces
              (NoMarker-groups gs) here),
        record {
          closes = close-run g (output ++ gap);
          stands = rw r.moved behind;
          written = r.added ∙ append_assoc output gap (news g.edits);
        },
        r.moved,
      )

  regroup :
      (output gap added new' new : List Text)
      → new ≡ gap ++ (added ++ new')
      → (output ++ (gap ++ added)) ++ new' ≡ output ++ new
  regroup output gap added new' new e =
      append_assoc output (gap ++ added) new'
      ∙ ap (λ l. output ++ l) (append_assoc gap added new' ∙ sym e)

  in_source :
      {A : Type 0} (xs gap olds left : List A) (c i : ℕ)
      → c ≤ length xs
      → drop c xs ≡ gap ++ (olds ++ left)
      → c + length gap ≡ i
      → i + length olds ≤ length xs
  in_source xs gap olds left c i fits at e = omega (
    arith,
    ap length at,
    length-drop c xs,
    length-append gap (olds ++ left),
    length-append olds left,
  )

  at_end :
      (h : Hunk) (output left : List Text)
      → Behind output left h
      → inside source h (render (group_lines [])) ≡ ok (output ++ left)
  unfolding inside ended finish render group_lines
  at_end h output left b = rw (b.closes, b.stands, b.written)

  at_next :
      (h : Hunk) (g : Group) (gs : List Group)
      → close h ≡ ok h
      → inside source h (render (group_lines (g ∷ gs))) ≡ (
          begin source (range_of g) h.cursor h.output >>= λ n.
          inside source n (render (edit_lines g.edits ++ group_lines gs)))
  unfolding group_lines
  at_next h g gs c =
      rw (render-header_line g (edit_lines g.edits ++ group_lines gs))
        (inside-header h g (render (edit_lines g.edits ++ group_lines gs)) ∙ rw c)

  -- A hunk and those behind it write the new lines.
  pub group-apply :
      (g : Group) (gs : List Group) (cursor : ℕ) (output old new : List Text)
      → cursor ≤ length source
      → drop cursor source ≡ old
      → IsScript cursor old new (g ∷ gs)
      → All GroupNoHeader (g ∷ gs)
      → All GroupPieces (g ∷ gs)
      → (begin source (range_of g) cursor output >>= λ n.
          inside source n (render (edit_lines g.edits ++ group_lines gs)))
        ≡ ok (output ++ new)
  unfolding IsScript
  group-apply g [] cursor output old new fits at (gap, old', new', old_is, new_is, e, o, script)
        plain pieces =
      let (h, step, b, moved) =
        group-step g [] cursor output gap old' fits (at ∙ old_is) e o plain.0 pieces.0 in
      step
      ∙ at_end h (output ++ (gap ++ news g.edits)) old' b
      ∙ ap ok (
          ap (λ l. (output ++ (gap ++ news g.edits)) ++ l) script
          ∙ regroup output gap (news g.edits) new' new new_is)
  group-apply g (g' ∷ gs) cursor output old new fits at
        (gap, old', new', old_is, new_is, e, o, script) plain pieces =
      let (h, step, b, moved) =
        group-step g (g' ∷ gs) cursor output gap old' fits (at ∙ old_is) e o plain.0 pieces.0 in
      step
      ∙ at_next h g' gs b.closes
      ∙ group-apply g' gs h.cursor h.output old' new'
          (rw moved
            (in_source source gap (olds g.edits) old' cursor g.old_index fits (at ∙ old_is) e))
          b.stands (subst (λ c. IsScript c old' new' (g' ∷ gs)) (sym moved) script) plain.1 pieces.1
      ∙ rw b.written (ap ok (regroup output gap (news g.edits) new' new new_is))
