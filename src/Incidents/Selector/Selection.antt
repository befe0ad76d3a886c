-- ===== src/Incidents/Selector/Selection.antt =====
-- What select_evidence shows (cyan/training/incidents/selector.py).
use zgent.Common.{
  ℕ, ◌≤◌, false, Option, List, [], ◌∷◌, ◌++◌, length, ◌≡◌, refl, ap, sym, inl, inr, Bool-cases,
  arith, ◌==◌, All, All-append, map, subst,
}
use zgent.Common.Exec.{ok}
use zgent.Incidents.Evidence.{content_of}
use zgent.Incidents.Selector.{Candidate, scan}
use zgent.Incidents.Selector.Budget.{IsSound, choose-IsSound, block, total_length}
use zgent.Incidents.Selector.Choice.{
  Rendering, EvidenceSelection, is_before, insert, sorted, join_lines, reference_of, nothing_chosen,
  chosen, selection, select_evidence,
}
use zgent.Incidents.Selector.Ranges.{IsExact}
use zgent.Incidents.Selector.Candidates.{scan-All}
use zgent.Jobs.Models.{LogStream, stdout, stderr, FailureCapsule}
use zgent.World.{Bytes}

insert-All :
    (P : Candidate → Type 0) (a : Candidate) (l : List Candidate)
    → P a
    → All P l
    → All P (insert a l)
unfolding insert
insert-All P a [] h hs = (h, tt)
insert-All P a (b ∷ l) h (g, hs) = elim (Bool-cases (is_before b a)) [
  | inl e ↦ rw (e) (g, insert-All P a l h hs)
  | inr e ↦ rw (e) (h, (g, hs))
]

sorted-All : (P : Candidate → Type 0) (l : List Candidate) → All P l → All P (sorted l)
unfolding sorted
sorted-All P [] h = tt
sorted-All P (a ∷ l) (h, hs) = insert-All P a (sorted l) h (sorted-All P l hs)

unfoldable pub log_of : (out_log error_log : Option Bytes) → LogStream → Bytes
log_of out_log error_log stdout = content_of out_log
log_of out_log error_log stderr = content_of error_log

module _ (x : Rendering) (capsule : FailureCapsule) where
  chosen-IsSound :
      (out_log error_log : Option Bytes) (max_bytes : ℕ)
      → IsSound x capsule
          (log_of out_log error_log)
          max_bytes
          (chosen x capsule max_bytes out_log error_log)
  unfolding chosen IsSound log_of total_length join_lines
  chosen-IsSound out_log error_log max_bytes =
      let workspace = x.encode capsule.cwd in
      let P = λ (c : Candidate). IsExact (log_of out_log error_log c.source) c in
      let found = (scan stderr workspace error_log).0 ++ (scan stdout workspace out_log).0 in
      choose-IsSound x capsule (log_of out_log error_log) max_bytes (sorted found) (sorted found)
        (sorted-All P found (
          All-append P (scan stderr workspace error_log).0 (scan stdout workspace out_log).0
            (scan-All P stderr workspace error_log
              (λ c is. subst (λ k. IsExact (log_of out_log error_log k) c) (sym is)))
            (scan-All P stdout workspace out_log
              (λ c is. subst (λ k. IsExact (log_of out_log error_log k) c) (sym is)))))
        (nothing_chosen x capsule) (omega arith, refl, tt, refl)

  chosen_of :
      (out_log error_log : Option Bytes) (max_bytes : ℕ) (s : EvidenceSelection)
      → select_evidence x capsule out_log error_log max_bytes ≡ ok s
      → selection x capsule (chosen x capsule max_bytes out_log error_log) out_log error_log ≡ s
  unfolding select_evidence
  chosen_of out_log error_log max_bytes s e = elim (Bool-cases (max_bytes == 0)) [
    | inl no_bytes ↦ let refused = rw (no_bytes) at e in absurd (cc)
    | inr bytes ↦ let answered = rw (bytes) at e in cc
  ]

  -- With a budget of at least one byte, select_evidence returns a selection, whose text is at most
  -- that long in UTF-8.
  pub select_evidence-size :
      (out_log error_log : Option Bytes) (max_bytes : ℕ)
      → 1 ≤ max_bytes
      → (s : EvidenceSelection) × (select_evidence x capsule out_log error_log max_bytes ≡ ok s)
        × (length s.content ≤ max_bytes)
  unfolding select_evidence selection IsSound
  select_evidence-size out_log error_log max_bytes h =
      let (size, shown, exact, sum) = chosen-IsSound out_log error_log max_bytes in
      let positive : max_bytes == 0 ≡ false = ground arith in
      (
        selection x capsule (chosen x capsule max_bytes out_log error_log) out_log error_log,
        rw (positive),
        size,
      )

  -- A selection consists of blocks of candidates, in the order of its references: each reference is of
  -- one of the two logs, and the block behind it shows exactly the bytes of its range in that log;
  -- selected_bytes counts them.
  unfoldable pub IsTrueTo : (out_log error_log : Option Bytes) → EvidenceSelection → Type 0
  IsTrueTo out_log error_log s =
      (shown : List Candidate) × (s.content ≡ join_lines (map (block x capsule) shown))
      × (s.references
          ≡ map
              (reference_of x capsule (x.sha256 (content_of out_log))
                (x.sha256 (content_of error_log)))
              shown)
      × All (λ (c : Candidate). IsExact (log_of out_log error_log c.source) c) shown
      × (s.selected_bytes ≡ total_length shown)

  -- The text that select_evidence returns consists of one block for each of its references, in their
  -- order; a block shows exactly the bytes that the log of the reference has in its range, whatever
  -- was cut off to fit the budget; and selected_bytes is the number of the bytes shown.
  pub select_evidence-IsTrueTo :
      (out_log error_log : Option Bytes) (max_bytes : ℕ) (s : EvidenceSelection)
      → select_evidence x capsule out_log error_log max_bytes ≡ ok s
      → IsTrueTo out_log error_log s
  unfolding selection IsSound IsTrueTo
  select_evidence-IsTrueTo out_log error_log max_bytes s e =
      let (size, shown, exact, sum) = chosen-IsSound out_log error_log max_bytes in
      subst (λ k. IsTrueTo out_log error_log k) (chosen_of out_log error_log max_bytes s e)
        (
          (chosen x capsule max_bytes out_log error_log).selected,
          ap join_lines shown,
          refl,
          exact,
          sum,
        )
