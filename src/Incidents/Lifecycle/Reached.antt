-- ===== src/Incidents/Lifecycle/Reached.antt =====
-- The statuses that an incident reaches only by a decision, or by the observation of its retry.
use zgent.Common.{String, ◌≡◌, refl, Bool, true, false, ◌⊎◌, inl, inr, arith}
use zgent.Fsm.{
  Status, transition, transitions, applying, smoke_running, smoke_passed, smoke_skipped,
  retry_running, resolved, rejected,
}
use zgent.Incidents.Coordinator.Deciding.{Decision}
use zgent.Incidents.Coordinator.Deciding
use zgent.Incidents.Coordinator.Deciding.Paths.{deciding}
use zgent.Incidents.Moves.{
  Actor, observes, approving, rejecting, confirming, free, Leads, here, step,
}

-- The patch was approved, and it is or was tried.
unfoldable pub is_carried_out : Status → Bool
is_carried_out applying = true
is_carried_out smoke_running = true
is_carried_out smoke_passed = true
is_carried_out smoke_skipped = true
is_carried_out retry_running = true
is_carried_out resolved = true
is_carried_out _ = false

unfoldable pub is_resolved : Status → Bool
is_resolved resolved = true
is_resolved _ = false

unfoldable pub is_rejected : Status → Bool
is_rejected rejected = true
is_rejected _ = false

pub carried_out-approves :
    {who : Actor} {k : String} {s t : Status}
    → Leads who k s t
    → is_carried_out t ≡ true
    → (is_carried_out s ≡ true) ⊎ (who ≡ deciding Deciding.approved k)
unfolding is_carried_out transition transitions
carried_out-approves here h = inl h
carried_out-approves (step l _ approving q) h = inr refl
carried_out-approves (step l _ rejecting q) h = carried_out-approves l (ground (arith, q, h))
carried_out-approves (step l _ confirming q) h = carried_out-approves l (ground (arith, q, h))
carried_out-approves (step l e (free f) q) h = carried_out-approves l (ground (arith, q, h, f))

pub resolved-observes :
    {who : Actor} {k : String} {s t : Status}
    → Leads who k s t
    → is_resolved t ≡ true
    → (is_resolved s ≡ true) ⊎ (who ≡ observes k)
unfolding is_resolved transition transitions
resolved-observes here h = inl h
resolved-observes (step l _ approving q) h = resolved-observes l (ground (arith, q, h))
resolved-observes (step l _ rejecting q) h = resolved-observes l (ground (arith, q, h))
resolved-observes (step l _ confirming q) h = inr refl
resolved-observes (step l e (free f) q) h = resolved-observes l (ground (arith, q, h, f))

pub rejected-rejects :
    {who : Actor} {k : String} {s t : Status}
    → Leads who k s t
    → is_rejected t ≡ true
    → (is_rejected s ≡ true) ⊎ (who ≡ deciding Deciding.rejected k)
unfolding is_rejected transition transitions
rejected-rejects here h = inl h
rejected-rejects (step l _ approving q) h = rejected-rejects l (ground (arith, q, h))
rejected-rejects (step l _ rejecting q) h = inr refl
rejected-rejects (step l _ confirming q) h = rejected-rejects l (ground (arith, q, h))
rejected-rejects (step l e (free f) q) h = rejected-rejects l (ground (arith, q, h, f))
