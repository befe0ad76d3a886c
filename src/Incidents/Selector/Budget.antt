-- ===== src/Incidents/Selector/Budget.antt =====
-- What select_evidence keeps over its loop (cyan/training/incidents/selector.py): the budget, and the
-- range of each chosen content.
use zgent.Common.{
  ℕ, zero, suc, ◌+◌, ◌-◌, ◌≤◌, max, min, List, [], ◌∷◌, ◌++◌, length, leb, ◌≡◌, refl, ap, sym, ◌∙◌,
  ◌⊎◌, inl, inr, Bool-cases, arith, length-take, length-drop, map-append, All, All-append, map,
}
use zgent.Incidents.Selector.{Kind, Candidate, candidate}
use zgent.Incidents.Selector.Choice.{
  Rendering, join_lines, render, shorten, trimmed, Chosen, Round, goes, stops, passed_over, taken,
  consider, reserved, is_seen, choose, follow, is_traceback, is_tail,
}
use zgent.Incidents.Selector.Ranges.{IsPart, IsExact, take-IsPart, drop-IsPart}
use zgent.Jobs.Models.{LogStream, FailureCapsule}
use zgent.World.{Bytes}

trimmed-shorter :
    (kind : Kind) (remove start : ℕ) (content : Bytes)
    → 1 ≤ remove
    → remove ≤ length content
    → suc (length (trimmed kind remove start content).1) ≤ length content
unfolding trimmed
trimmed-shorter kind remove start content h le = elim (Bool-cases (is_tail kind)) [
  | inl e ↦ rw (e, trimmed) (omega (arith, length-drop remove content))
  | inr e ↦ rw (e, trimmed) (omega (arith, length-take (length content - remove) content))
]

trimmed-IsPart :
    (log : Bytes) (kind : Kind) (remove start : ℕ) (content : Bytes)
    → remove ≤ length content
    → IsPart log start content
    → IsPart log (trimmed kind remove start content).0 (trimmed kind remove start content).1
unfolding trimmed
trimmed-IsPart log kind remove start content le h = elim (Bool-cases (is_tail kind)) [
  | inl e ↦ rw (e, trimmed) (drop-IsPart log start remove content le h)
  | inr e ↦ rw (e, trimmed) (take-IsPart log start (length content - remove) content h)
]

-- The sizes of the contents of candidates, added up.
unfoldable pub total_length : List Candidate → ℕ
total_length [] = 0
total_length (c ∷ l) = length c.content + total_length l

total_length-append :
    (l m : List Candidate) → total_length (l ++ m) ≡ total_length l + total_length m
unfolding total_length
total_length-append [] m = omega arith
total_length-append (c ∷ l) m = omega (arith, total_length-append l m)

module _ (x : Rendering) (capsule : FailureCapsule) where
  -- A shortened content is empty, or its block fits behind the blocks before it.
  unfoldable pub IsFit : Candidate → List Bytes → ℕ → ℕ × Bytes → Type 0
  IsFit c rendered available r =
      (r.1 ≡ [])
      ⊎ (length (join_lines (rendered ++ (render x capsule c.source c.reason r.0 r.1 ∷ [])))
          ≤ available)

  -- The loop that shortens a content ends within as many rounds as the content has bytes: with that
  -- fuel it returns what the code's loop ends with, either no content or one whose block fits behind
  -- the blocks before it.
  pub shorten-IsFit :
      (fuel : ℕ) (c : Candidate) (rendered : List Bytes) (available start : ℕ) (content : Bytes)
      → length content ≤ fuel
      → IsFit c rendered available (shorten x capsule fuel c rendered available start content)
  unfolding shorten IsFit
  shorten-IsFit zero c rendered available start [] h = inl refl
  shorten-IsFit zero c rendered available start (b ∷ bs) h = absurd (omega arith)
  shorten-IsFit (suc fuel) c rendered available start [] h = inl refl
  shorten-IsFit (suc fuel) c rendered available start (b ∷ bs) h =
      let size =
        length
          (join_lines (rendered ++ (render x capsule c.source c.reason start (b ∷ bs) ∷ []))) in
      let remove = min (length (b ∷ bs)) (max 1 (size - available)) in
      let rest = trimmed c.kind remove start (b ∷ bs) in
      let smaller = trimmed-shorter c.kind remove start (b ∷ bs) (omega arith) (omega arith) in
      elim (Bool-cases (leb size available)) [
        | inl fits ↦ rw (fits, shorten) (inr (ground arith))
        | inr over ↦
            rw (over, shorten)
              (shorten-IsFit fuel c rendered available rest.0 rest.1 (omega (arith, smaller)))
      ]

  shorten-IsPart :
      (log : Bytes) (fuel : ℕ) (c : Candidate) (rendered : List Bytes) (available start : ℕ)
      (content : Bytes)
      → IsPart log start content
      → IsPart log
          (shorten x capsule fuel c rendered available start content).0
          (shorten x capsule fuel c rendered available start content).1
  unfolding shorten
  shorten-IsPart log zero c rendered available start content h = h
  shorten-IsPart log (suc fuel) c rendered available start [] h = h
  shorten-IsPart log (suc fuel) c rendered available start (b ∷ bs) h =
      let size =
        length
          (join_lines (rendered ++ (render x capsule c.source c.reason start (b ∷ bs) ∷ []))) in
      let remove = min (length (b ∷ bs)) (max 1 (size - available)) in
      let rest = trimmed c.kind remove start (b ∷ bs) in
      elim (Bool-cases (leb size available)) [
        | inl fits ↦ rw (fits, shorten) h
        | inr over ↦
            rw (over, shorten)
              (shorten-IsPart log fuel c rendered available rest.0 rest.1
                (trimmed-IsPart log c.kind remove start (b ∷ bs) (omega arith) h))
      ]

  unfoldable pub block : Candidate → Bytes
  block c = render x capsule c.source c.reason c.start c.content

  module _ (log : LogStream → Bytes) (max_bytes : ℕ) where
    -- What the loop keeps: the text fits, it consists of the blocks of the selected candidates, each
    -- of which has the bytes of its range, and their sizes are added up.
    unfoldable pub IsSound : Chosen → Type 0
    IsSound s =
        (length (join_lines s.rendered) ≤ max_bytes)
        × (s.rendered ≡ map block s.selected)
        × All (λ (c : Candidate). IsExact (log c.source) c) s.selected
        × (s.selected_size ≡ total_length s.selected)

    IsSoundRound : Round → Type 0
    IsSoundRound (goes s) = IsSound s
    IsSoundRound (stops s) = IsSound s

    passed_over-IsSound :
        (c : Candidate) (s : Chosen) → IsSound s → IsSoundRound (passed_over x capsule c s)
    unfolding IsSoundRound passed_over
    passed_over-IsSound c s h = elim (Bool-cases (is_traceback c.kind)) [
      | inl e ↦ rw (e) h
      | inr e ↦ rw (e) h
    ]

    taken-IsSound :
        (available : ℕ) (c : Candidate) (s : Chosen) (r : ℕ × Bytes)
        → available ≤ max_bytes
        → IsFit c s.rendered available r
        → IsPart (log c.source) r.0 r.1
        → IsSound s
        → IsSoundRound (taken x capsule c s r)
    unfolding taken IsSoundRound IsFit IsSound block candidate IsExact total_length
    taken-IsSound available c s (start, []) le fit part h = passed_over-IsSound c s h
    taken-IsSound available c s (start, b ∷ bs) le (inl e) part h = absurd (cc)
    taken-IsSound available c s (start, b ∷ bs) le (inr fits) part (small, shown, exact, sum) =
        let new = candidate c.source start c.kind c.reason (b ∷ bs) c.priority in
        (
          omega (arith, fits),
          ap (λ l. l ++ (block new ∷ [])) shown ∙ sym (map-append block s.selected (new ∷ [])),
          All-append (λ (d : Candidate). IsExact (log d.source) d) s.selected (new ∷ []) exact
              ((part, refl), tt),
          omega (arith, sum, total_length-append s.selected (new ∷ [])),
        )

    consider-IsSound :
        (candidates : List Candidate) (c : Candidate) (s : Chosen)
        → IsExact (log c.source) c
        → IsSound s
        → IsSoundRound (consider x capsule max_bytes candidates c s)
    unfolding IsSoundRound IsExact consider IsSound
    consider-IsSound candidates c s (part, ends) h =
        let available = max_bytes - reserved x capsule candidates s.seen c in
        elim (Bool-cases (is_seen c.content s.seen)) [
          | inl e ↦ rw (e, consider) h
          | inr e ↦ elim (Bool-cases (leb available (length (join_lines s.rendered)))) [
            | inl full ↦ rw (e, full, consider) (passed_over-IsSound c s h)
            | inr room ↦
                rw (e, room, consider)
                  (taken-IsSound available c s
                    (shorten x capsule (length c.content) c s.rendered available c.start c.content)
                    (omega arith)
                    (shorten-IsFit (length c.content) c s.rendered available c.start c.content
                      (omega arith))
                    (shorten-IsPart (log c.source) (length c.content) c s.rendered available c.start
                      c.content part)
                    h)
          ]
        ]

    follow-IsSound :
        (rest : Chosen → Chosen)
        → ((s : Chosen) → IsSound s → IsSound (rest s))
        → (r : Round) → IsSoundRound r
        → IsSound (follow rest r)
    unfolding IsSoundRound follow
    follow-IsSound rest keeps (goes s) h = keeps s h
    follow-IsSound rest keeps (stops s) h = h

    pub choose-IsSound :
        (candidates l : List Candidate)
        → All (λ (c : Candidate). IsExact (log c.source) c) l
        → (s : Chosen) → IsSound s
        → IsSound (choose x capsule max_bytes candidates l s)
    unfolding choose
    choose-IsSound candidates [] exact s h = h
    choose-IsSound candidates (c ∷ l) (e, exact) s h =
        follow-IsSound (choose x capsule max_bytes candidates l) (choose-IsSound candidates l exact)
          (consider x capsule max_bytes candidates c s) (consider-IsSound candidates c s e h)
