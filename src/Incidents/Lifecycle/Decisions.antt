-- ===== src/Incidents/Lifecycle/Decisions.antt =====
-- The decisions that a run of the coordinator contains.
use zgent.Common.{
  String, ◌≡◌, refl, ap, subst, Bool, true, false, Option, none, some, ◌⊎◌, inl, inr, arith,
  Bool-cases,
}
use zgent.Externals.{Externals}
use zgent.Fsm.{Status, initial_state, rejected}
use zgent.Incidents.Coordinator.Deciding.{Decision}
use zgent.Incidents.Coordinator.Deciding
use zgent.Incidents.Coordinator.Deciding.Guards.{IsDecidable, decide-acts}
use zgent.Incidents.Coordinator.Deciding.Paths.{deciding}
use zgent.Incidents.Coordinator.SmokeTest.{Answers}
use zgent.Incidents.Lifecycle.{
  Step, Run, start, next, failed, investigated, asked, decided, observed, elsewhere, actor,
  Step-Fits, Run-IsKeyed,
}
use zgent.Incidents.Models.{Incident}
use zgent.Incidents.Moves.{Actor, nobody, approves, rejects, Leads, IsKeyed, Moves}
use zgent.Incidents.Patches.{Patches}
use zgent.Jobs.Supervisor.{Callback}
use zgent.World.{World, missing, stored, snapshot}
use zgent.Incidents.Lifecycle.Reached.{is_rejected, rejected-rejects}

module _ (x : Externals) (patches : Patches) (callback : Callback) where
  -- A run contains a decision on the incident, made while an incident of that id awaited it on its
  -- active proposal.
  pub data HasDecision (k : String) (d : Decision) {w₀ : World}
      : (w : World) → Run x patches callback w₀ w → Type 0 where
    made :
        {u : World} (run : Run x patches callback w₀ u) (p : String) (smoke : Bool)
        (fingerprint : Option String) (answers : Answers)
        → IsDecidable k p u
        → HasDecision k d _ (next run (decided k p d smoke fingerprint answers))
    before :
        {u v : World} {run : Run x patches callback w₀ u} (s : Step x patches callback u v)
        → HasDecision k d u run
        → HasDecision k d _ (next run s)

  decision_of : Actor → Option (Decision × String)
  decision_of (approves k) = some (Deciding.approved, k)
  decision_of (rejects k) = some (Deciding.rejected, k)
  decision_of _ = none

  decision_of-deciding :
      (d' : Decision) (k' : String) (d : Decision) (k : String)
      → decision_of (deciding d' k') ≡ some (d, k)
      → (d' ≡ d) × (k' ≡ k)
  unfolding decision_of
  decision_of-deciding Deciding.approved k' d k e = ground arith
  decision_of-deciding Deciding.rejected k' d k e = ground arith

  made_by :
      {w₀ u v : World} (run : Run x patches callback w₀ u) (s : Step x patches callback u v)
      (d : Decision) (k : String)
      → decision_of (actor x patches callback s) ≡ some (d, k)
      → ¬ (v ≡ u)
      → HasDecision k d _ (next run s)
  unfolding actor decision_of
  made_by run (failed around fresh job a failure new) d k e c = ground arith
  made_by run (investigated j k' r turn) d k e c = ground arith
  made_by run (asked k' content hex) d k e c = ground arith
  made_by run (observed j k') d k e c = ground arith
  made_by run (elsewhere w' same) d k e c = ground arith
  made_by {u = u} run (decided k' p d' smoke fingerprint answers) d k e c =
      elim (decide-acts x patches callback k' p d' smoke fingerprint answers u) [
        | inl same ↦ ground (arith, c same)
        | inr able ↦
            let (same_d, same_k) = decision_of-deciding d' k' d k e in
            subst (λ y. HasDecision y d _ (next run (decided k' p d' smoke fingerprint answers)))
              same_k
              (subst
                (λ z. HasDecision k' z _ (next run (decided k' p d' smoke fingerprint answers)))
                same_d (made run p smoke fingerprint answers able))
      ]

  by_deciding :
      (d : Decision) (k : String) (who : Actor) → who ≡ deciding d k → decision_of who ≡ some (d, k)
  unfolding decision_of
  by_deciding Deciding.approved k who e = rw e refl
  by_deciding Deciding.rejected k who e = rw e refl

  -- Where a stored incident was before an action: new in it, or stored, on a path to what it is.
  pub origin :
      {who : Actor} {u v : World} (m : Moves who u v) (j k : String) (i : Incident)
      → snapshot v j k ≡ stored i
      → ((who ≡ nobody) × Leads who k initial_state i.status)
        ⊎ ((i₀ : Incident) × (snapshot u j k ≡ stored i₀) × Leads who k i₀.status i.status)
  origin {who} {v = v} m j k i h = elim (m.from j k i h) [
    | inl (i₀, h₀) ↦
        let (i', h', l) = m.at j k i₀ h₀ in
        inr (i₀, h₀, subst (λ y. Leads who k i₀.status y) (same i' h') l)
    | inr begun ↦ inl begun
  ]
    where
      same : (i' : Incident) → snapshot v j k ≡ stored i' → i'.status ≡ i.status
      same i' h' = ground (arith, h, h')

  -- A status that is reached from outside only by a decision.
  module _ (d : Decision) (reached : Status → Bool) (begins : reached initial_state ≡ false)
      (led : (who : Actor) (k : String) (s t : Status)
        → Leads who k s t
        → reached t ≡ true
        → (reached s ≡ true) ⊎ (who ≡ deciding d k)) where
    pub decision_before :
        {w₀ w : World} (run : Run x patches callback w₀ w) (keyed : IsKeyed w₀) (j k : String)
        (i : Incident)
        → snapshot w₀ j k ≡ missing
        → snapshot w j k ≡ stored i
        → reached i.status ≡ true
        → HasDecision k d _ run
    unfolding decision_of
    decision_before start keyed j k i empty h r = ground arith
    decision_before (next {u = u} {v = v} run s) keyed j k i empty h r =
        elim (origin (Step-Fits x patches callback s (Run-IsKeyed x patches callback run keyed)).1 j
          k i h) [
            | inl (idle, l) ↦ elim (led _ k _ _ l r) [
              | inl t ↦ ground (arith, begins, t)
              | inr e ↦ ground (arith, idle, by_deciding d k _ e)
            ]
            | inr (i₀, h₀, l) ↦ elim (Bool-cases (reached i₀.status)) [
              | inl t ↦ before s (decision_before run keyed j k i₀ empty h₀ t)
              | inr f ↦ elim (led _ k _ _ l r) [
                | inl t ↦ ground (arith, f, t)
                | inr e ↦
                    made_by run s d k (by_deciding d k _ e)
                      (λ same. ground (arith, ap (λ y. snapshot y j k) same, h, h₀, f, r))
              ]
            ]
          ]

  -- Over any run of the coordinator in which an incident comes about, where it is stored as
  -- rejected at the end, the run contains a rejection, made while an incident of that id awaited a
  -- decision with the proposal active; where the run begins with each snapshot under its own id.
  pub rejected_after_rejection :
      {w₀ w : World} (run : Run x patches callback w₀ w) (keyed : IsKeyed w₀) (j k : String)
      (i : Incident)
      → snapshot w₀ j k ≡ missing
      → snapshot w j k ≡ stored i
      → i.status ≡ rejected
      → HasDecision k Deciding.rejected w run
  unfolding is_rejected
  rejected_after_rejection run keyed j k i empty h r =
      decision_before Deciding.rejected is_rejected refl (λ who k' s t l. rejected-rejects l) run
        keyed j k i empty h (ap is_rejected r)
