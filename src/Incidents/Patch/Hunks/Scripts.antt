-- ===== src/Incidents/Patch/Hunks/Scripts.antt =====
-- The run of the loops over the lines of a diff script (patch.py, apply_unified_diff_to_text).

use mathlib.Core.List.{append_assoc, append-nil}
use zgent.Common.{
  ℕ, zero, suc, ◌+◌, ◌≡◌, refl, sym, ◌∙◌, true, false, List, [], ◌∷◌, ◌++◌, All, inl, inr, arith,
  length, drop, Bool-cases,
}
use zgent.Common.Chars.{Text, starts, same_refl}
use zgent.Common.Exec.{ok}
use zgent.Incidents.Patch.{◌>>=◌}
use zgent.Incidents.Patch.Diff.{Edit, olds, news, edit_line, edit_lines, render, lacks_newline}
use zgent.Incidents.Patch.Hunks.{Hunk, operate, inside, is_marker, stands}
use zgent.Incidents.Patch.Hunks.Lines.{newline, NoBreak}
use zgent.Incidents.Patch.Hunks.Edits.{
  text, sign, NoHeader, EditPiece, NoMarker, lacks-full, lacks-whole, inside-edit, inside-marked,
}

-- What an edit does to the state where its old line stands.
after : Edit → Hunk → Hunk
after (Edit.both l) h = record h {
  cursor = suc h.cursor;
  output = h.output ++ (l ∷ []);
  consumed = suc h.consumed;
  produced = suc h.produced;
}
after (Edit.old l) h = record h { cursor = suc h.cursor; consumed = suc h.consumed }
after (Edit.new l) h = record h { output = h.output ++ (l ∷ []); produced = suc h.produced }

pub run : List Edit → Hunk → Hunk
run [] h = h
run (e ∷ es) h = run es (after e h)

-- The old lines of an edit stand at a place of the source, before others.
abbrev pub Stands : List Text → ℕ → List Text → List Text → Type 0
Stands source cursor lines left = drop cursor source ≡ lines ++ left

drop-tail :
    {A : Type 0} (n : ℕ) (xs ys : List A) {y : A} → drop n xs ≡ y ∷ ys → drop (suc n) xs ≡ ys
drop-tail zero [] ys h = absurd (cc)
drop-tail zero (x ∷ xs) ys h = cc
drop-tail (suc n) [] ys h = absurd (cc)
drop-tail (suc n) (x ∷ xs) ys h = drop-tail n xs ys h

module _ (source : List Text) where
  stands-here :
      (cursor : ℕ) (l : Text) (left : List Text)
      → drop cursor source ≡ l ∷ left
      → stands source cursor l ≡ true
  unfolding stands
  stands-here cursor l left h = rw (h, stands) (same_refl l)

  operate-edit :
      (e : Edit) (es : List Edit) (h : Hunk) (left : List Text)
      → Stands source h.cursor (olds (e ∷ es)) left
      → (operate source (sign e) (text e) h ≡ ok (after e h))
        × Stands source (after e h).cursor (olds es) left
  unfolding operate sign text after olds
  operate-edit (Edit.both l) es h left s =
      (rw (stands-here h.cursor l _ s), drop-tail h.cursor source _ s)
  operate-edit (Edit.old l) es h left s =
      (rw (stands-here h.cursor l _ s), drop-tail h.cursor source _ s)
  operate-edit (Edit.new l) es h left s = (refl, s)

  -- The lines of an edit with its marker, if it needs one.
  inside-rendered :
      (e : Edit) (h : Hunk) (rest more : List Text)
      → NoHeader e
      → EditPiece e
      → NoMarker (render more ++ rest)
      → inside source h (render (edit_line e ∷ more) ++ rest)
        ≡ (operate source (sign e) (text e) h >>= λ h'. inside source h' (render more ++ rest))
  unfolding render EditPiece
  inside-rendered e h rest more plain (body, whole, inl full) m =
      rw (lacks-full e body full) (inside-edit source e h (render more ++ rest) plain m)
  inside-rendered e h rest more plain (body, whole, inr short) m =
      let w : NoBreak (text e) = rw short whole in
      rw (lacks-whole e plain w) (inside-marked source e h (render more ++ rest) plain w)

  unmarked : (e : Edit) (t : Text) → is_marker (edit_line e ++ t) ≡ false
  unfolding is_marker starts edit_line
  unmarked (Edit.both l) t = refl
  unmarked (Edit.old l) t = refl
  unmarked (Edit.new l) t = refl

  NoMarker-line :
      (e : Edit) (more rest : List Text) → NoMarker (render (edit_line e ∷ more) ++ rest)
  unfolding render
  NoMarker-line e more rest = elim (Bool-cases (lacks_newline (edit_line e))) [
    | inl l ↦ rw l (unmarked e newline)
    | inr l ↦ rw l (rw (append-nil (edit_line e)) at (unmarked e []))
  ]

  NoMarker-lines :
      (es : List Edit) (rest : List Text)
      → NoMarker rest
      → NoMarker (render (edit_lines es) ++ rest)
  unfolding edit_lines
  NoMarker-lines [] rest h = unfold render in h
  NoMarker-lines (e ∷ es) rest h = NoMarker-line e (edit_lines es) rest

  -- The lines of a hunk do what its edits do.
  pub inside-edits :
      (es : List Edit) (h : Hunk) (rest left : List Text)
      → All NoHeader es
      → All EditPiece es
      → NoMarker rest
      → Stands source h.cursor (olds es) left
      → inside source h (render (edit_lines es) ++ rest) ≡ inside source (run es h) rest
  unfolding edit_lines run
  inside-edits [] h rest left plain pieces m s = unfold render in refl
  inside-edits (e ∷ es) h rest left plain pieces m s =
      let (step, s') = operate-edit e es h left s in
      inside-rendered e h rest (edit_lines es) plain.0 pieces.0 (NoMarker-lines es rest m)
      ∙ rw step (inside-edits es (after e h) rest left plain.1 pieces.1 m s')

-- What the edits of a hunk do to the state.
pub record Ran (es : List Edit) (h h' : Hunk) : Type 0 where
  pub moved : h'.cursor ≡ h.cursor + length (olds es)
  pub added : h'.output ≡ h.output ++ news es
  pub counted_old : h'.consumed ≡ h.consumed + length (olds es)
  pub counted_new : h'.produced ≡ h.produced + length (news es)
  pub same_range : h'.range ≡ h.range

pub run-Ran : (es : List Edit) (h : Hunk) → Ran es h (run es h)
unfolding run olds news after
run-Ran [] h = record {
  moved = omega arith;
  added = sym (append-nil h.output);
  counted_old = omega arith;
  counted_new = omega arith;
  same_range = refl;
}
run-Ran (Edit.both l ∷ es) h =
    let r = run-Ran es (after (Edit.both l) h) in
    record {
      moved = omega (arith, r.moved);
      added = r.added ∙ append_assoc h.output (l ∷ []) (news es);
      counted_old = omega (arith, r.counted_old);
      counted_new = omega (arith, r.counted_new);
      same_range = r.same_range;
    }
run-Ran (Edit.old l ∷ es) h =
    let r = run-Ran es (after (Edit.old l) h) in
    record {
      moved = omega (arith, r.moved);
      added = r.added;
      counted_old = omega (arith, r.counted_old);
      counted_new = omega (arith, r.counted_new);
      same_range = r.same_range;
    }
run-Ran (Edit.new l ∷ es) h =
    let r = run-Ran es (after (Edit.new l) h) in
    record {
      moved = omega (arith, r.moved);
      added = r.added ∙ append_assoc h.output (l ∷ []) (news es);
      counted_old = omega (arith, r.counted_old);
      counted_new = omega (arith, r.counted_new);
      same_range = r.same_range;
    }
