-- ===== src/Incidents/Lifecycle/Retries.antt =====
-- The successful retries that a run of the coordinator contains.
use zgent.Common.{
  String, ◌≡◌, refl, sym, ap, subst, true, false, Option, none, some, inl, inr, arith, Bool-cases,
}
use zgent.Externals.{Externals}
use zgent.Fsm.{resolved}
use zgent.Incidents.Coordinator.Deciding.{Decision}
use zgent.Incidents.Coordinator.Deciding
use zgent.Incidents.Coordinator.Deciding.Guards.{HasSucceeded, observe_retry-acts}
use zgent.Incidents.Lifecycle.{
  Step, Run, start, next, failed, investigated, asked, decided, observed, elsewhere, actor,
  Step-Fits, Run-IsKeyed,
}
use zgent.Incidents.Models.{Incident}
use zgent.Incidents.Moves.{Actor, observes, Leads, IsKeyed}
use zgent.Incidents.Patches.{Patches}
use zgent.Jobs.Supervisor.{Callback}
use zgent.World.{World, missing, stored, snapshot}
use zgent.Incidents.Lifecycle.Reached.{
  is_carried_out, is_resolved, carried_out-approves, resolved-observes,
}
use zgent.Incidents.Lifecycle.Decisions.{HasDecision, origin, decision_before}

module _ (x : Externals) (patches : Patches) (callback : Callback) where
  -- A run contains an approval of the incident and, later, the observation that its job succeeded.
  pub data HasSuccess (k : String) {w₀ : World}
      : (w : World) → Run x patches callback w₀ w → Type 0 where
    seen :
        {u : World} (run : Run x patches callback w₀ u) (j : String)
        → HasDecision x patches callback k Deciding.approved u run
        → HasSucceeded j k u
        → HasSuccess k _ (next run (observed j k))
    earlier :
        {u v : World} {run : Run x patches callback w₀ u} (s : Step x patches callback u v)
        → HasSuccess k u run
        → HasSuccess k _ (next run s)

  observed_of : Actor → Option String
  observed_of (observes k) = some k
  observed_of _ = none

  -- An action by which an incident is resolved after its approval.
  seen_by :
      {w₀ u v : World} (run : Run x patches callback w₀ u) (s : Step x patches callback u v)
      (keyed : IsKeyed u) (j k : String) (i₀ i : Incident)
      → observed_of (actor x patches callback s) ≡ some k
      → HasDecision x patches callback k Deciding.approved u run
      → snapshot u j k ≡ stored i₀
      → is_resolved i₀.status ≡ false
      → snapshot v j k ≡ stored i
      → is_resolved i.status ≡ true
      → HasSuccess k v (next run s)
  unfolding actor observed_of is_resolved
  seen_by run (failed around fresh job a failure new) keyed j k i₀ i e given h₀ r₀ h r =
      ground arith
  seen_by run (investigated j' k' t turn) keyed j k i₀ i e given h₀ r₀ h r = ground arith
  seen_by run (asked k' content hex) keyed j k i₀ i e given h₀ r₀ h r = ground arith
  seen_by run (elsewhere w' same) keyed j k i₀ i e given h₀ r₀ h r = ground arith
  seen_by run (decided k' p Deciding.approved b f answers) keyed j k i₀ i e given h₀ r₀ h r =
      ground arith
  seen_by run (decided k' p Deciding.rejected b f answers) keyed j k i₀ i e given h₀ r₀ h r =
      ground arith
  seen_by {u = u} run (observed j' k') keyed j k i₀ i e given h₀ r₀ h r =
      elim (observe_retry-acts x patches callback j' k' u keyed) [
        | inl (keyed', m) ↦ elim (origin x patches callback m j k i h) [
          | inl (idle, l) ↦ elim (resolved-observes l r) [
            | inl t ↦ ground (arith, t)
            | inr q ↦ ground (arith, q)
          ]
          | inr (i₁, h₁, l) ↦ elim (resolved-observes l r) [
            | inl t ↦ ground (arith, t, r₀, h₀, h₁)
            | inr q ↦ ground (arith, q)
          ]
        ]
        | inr succeeded ↦
            subst (λ y. HasSuccess k _ (next run (observed j' y))) (sym (named e))
              (seen run j' given (subst (λ y. HasSucceeded j' y u) (named e) succeeded))
      ]
    where
      named : some k' ≡ some k → k' ≡ k
      named q = ground arith

  retry_before :
      {w₀ w : World} (run : Run x patches callback w₀ w) (keyed : IsKeyed w₀) (j k : String)
      (i : Incident)
      → snapshot w₀ j k ≡ missing
      → snapshot w j k ≡ stored i
      → is_resolved i.status ≡ true
      → HasSuccess k _ run
  unfolding observed_of is_carried_out is_resolved
  retry_before start keyed j k i empty h r = ground arith
  retry_before (next {u = u} {v = v} run s) keyed j k i empty h r =
      elim (origin x patches callback (Step-Fits x patches callback s here_keyed).1 j k i h) [
        | inl (idle, l) ↦ elim (resolved-observes l r) [
          | inl t ↦ ground (arith, t)
          | inr e ↦ ground (arith, idle, e)
        ]
        | inr (i₀, h₀, l) ↦ elim (Bool-cases (is_resolved i₀.status)) [
          | inl t ↦ earlier s (retry_before run keyed j k i₀ empty h₀ t)
          | inr f ↦ elim (resolved-observes l r) [
            | inl t ↦ ground (arith, f, t)
            | inr e ↦
                seen_by run s here_keyed j k i₀ i (ap observed_of e) (given i₀ h₀ l e) h₀ f h r
          ]
        ]
      ]
    where
      here_keyed : IsKeyed u
      here_keyed = Run-IsKeyed x patches callback run keyed

      carried_out : is_carried_out i.status ≡ true
      carried_out = ground (arith, r)

      given :
          (i₀ : Incident)
          → snapshot u j k ≡ stored i₀
          → Leads (actor x patches callback s) k i₀.status i.status
          → actor x patches callback s ≡ observes k
          → HasDecision x patches callback k Deciding.approved u run
      given i₀ h₀ l e = elim (carried_out-approves l carried_out) [
        | inl t ↦
            decision_before x patches callback Deciding.approved is_carried_out refl
              (λ who k' s' t' l'. carried_out-approves l') run keyed j k i₀ empty h₀ t
        | inr e' ↦ ground (arith, e, e')
      ]

  -- Over any run of the coordinator in which an incident comes about, where it is stored as
  -- resolved at the end, the run contains an approval, made while an incident of that id awaited it
  -- with the proposal active, and, after it, an observation of the retry in a state in which the
  -- incident's job is read as succeeded; where the run begins with each snapshot under its own id.
  pub resolved_after_approval :
      {w₀ w : World} (run : Run x patches callback w₀ w) (keyed : IsKeyed w₀) (j k : String)
      (i : Incident)
      → snapshot w₀ j k ≡ missing
      → snapshot w j k ≡ stored i
      → i.status ≡ resolved
      → HasSuccess k w run
  unfolding is_resolved
  resolved_after_approval run keyed j k i empty h r =
      retry_before run keyed j k i empty h (ap is_resolved r)
