-- ===== src/Incidents/Coordinator/Deciding/Trees.antt =====
-- What a decision, and the outcome of a retry, change in the workspaces.
use zgent.Common.{
  String, ◌≡◌, refl, ap, eq_iff, Bool, true, false, not, Option, none, some, ◌⊎◌, inl, inr, arith,
  if◌then◌else◌,
}
use zgent.Common.Exec.{Result, ok, err, ◌>>=◌, and_then, pure}
use zgent.Externals.{Externals}
use zgent.Fsm.{Status, awaiting_approval}
use zgent.Incidents.Coordinator.{find_incident}
use zgent.Incidents.Coordinator.Deciding.{
  Decision, approved, rejected, decide, decided, is_awaiting, active_proposal, same_text,
}
use zgent.Incidents.Coordinator.Paths.{read_incident_cases}
use zgent.Incidents.Coordinator.SmokeTest.{Answers}
use zgent.Incidents.Coordinator.Trees.{trees_shared, find_incident-quiet}
use zgent.Incidents.Models.{Incident, Proposal}
use zgent.Incidents.Patches.{Patches}
use zgent.Incidents.Store.{read_incident}
use zgent.Incidents.Store.Trees.{trees}
use zgent.Jobs.Supervisor.{Callback}
use zgent.World.{World, M, stored, snapshot}
use zgent.World.Leaves.{Leaves}

pub is_awaiting_sound : (s : Status) → is_awaiting s ≡ true → s ≡ awaiting_approval
unfolding is_awaiting
is_awaiting_sound s h = ground arith

pub active_proposal_sound :
    (i : Incident) (p : String) (o : Proposal)
    → active_proposal i p ≡ some o
    → (i.active_proposal_id ≡ some p) × (i.proposal ≡ some o)
unfolding active_proposal same_text
active_proposal_sound i p o h = go i.active_proposal_id refl
  where
    go :
        (a : Option String)
        → i.active_proposal_id ≡ a
        → (i.active_proposal_id ≡ some p) × (i.proposal ≡ some o)
    go none e = ground arith
    go (some a) e = ground (arith, eq_iff a p)

module _ (x : Externals) (patches : Patches) (callback : Callback) (k p : String) (d : Decision)
    (smoke : Bool) (fingerprint : Option String) (answers : Answers) where
  -- The incident that a decision is allowed to patch for.
  abbrev pub MayPatch : World → Type 0
  MayPatch w =
      (j : String) × (i : Incident) × (snapshot w j k ≡ stored i)
      × (i.status ≡ awaiting_approval)
      × (i.active_proposal_id ≡ some p)
      × (d ≡ approved)

  decided-trees :
      (j : String) (i : Incident) (w : World)
      → ((decided x patches callback j i p d smoke fingerprint answers
            (active_proposal i p)
            w).1.trees
          ≡ w.trees)
        ⊎ ((i.active_proposal_id ≡ some p) × (d ≡ approved))
  unfolding decided
  decided-trees j i w = go (active_proposal i p) refl d refl
    where
      go :
          (o : Option Proposal)
          → active_proposal i p ≡ o
          → (d' : Decision) → d ≡ d'
          → ((decided x patches callback j i p d' smoke fingerprint answers o w).1.trees ≡ w.trees)
            ⊎ ((i.active_proposal_id ≡ some p) × (d ≡ approved))
      go none e d' e' = inl ((quiet d').at w)
        where
          quiet :
              (d' : Decision)
              → Leaves trees (decided x patches callback j i p d' smoke fingerprint answers none)
          quiet d' = search trees_shared
      go (some o) e rejected e' = inl (quiet.at w)
        where
          quiet :
              Leaves trees
                (decided x patches callback j i p rejected smoke fingerprint answers (some o))
          quiet = search trees_shared
      go (some o) e approved e' = inr ((active_proposal_sound i p o e).0, e')

  -- A decision, however it ends, changes no workspace, unless the incident that is found awaits
  -- approval, the decision is made on its active proposal, and it is the approval.
  pub decide-trees :
      (w : World)
      → ((decide x patches callback k p d smoke fingerprint answers w).1.trees ≡ w.trees)
        ⊎ MayPatch w
  unfolding decide ◌>>=◌
  decide-trees w = go (find_incident k w).0 (find_incident k w).1 (find_incident-quiet k w)
    where
      after : String × Incident → M Status
      after found = read_incident found.0 k >>= λ i.
          if not (is_awaiting i.status)
          then pure i.status
          else decided x patches callback found.0 i p d smoke fingerprint answers
              (active_proposal i p)

      decides :
          (j : String) (i : Incident)
          → snapshot w j k ≡ stored i
          → (b : Bool) → is_awaiting i.status ≡ b
          → (((if not b
                  then pure i.status
                  else decided x patches callback j i p d smoke fingerprint answers
                      (active_proposal i p))
                w).1.trees
              ≡ w.trees)
            ⊎ MayPatch w
      decides j i s false e = inl refl
      decides j i s true e = elim (decided-trees j i w) [
        | inl same ↦ inl same
        | inr (active, agreed) ↦ inr (j, i, s, is_awaiting_sound i.status e, active, agreed)
      ]

      reads : (found : String × Incident) → ((after found w).1.trees ≡ w.trees) ⊎ MayPatch w
      reads found = elim (read_incident_cases found.0 k w) [
        | inl (e, r) ↦ inl (rw r refl)
        | inr (i, s, r) ↦ rw r (decides found.0 i s (is_awaiting i.status) refl)
      ]

      go :
          (r : Result (String × Incident)) (w' : World)
          → w' ≡ w
          → ((and_then (r, w') after).1.trees ≡ w.trees) ⊎ MayPatch w
      go (err e) w' same = inl (ap trees same)
      go (ok found) w' same = rw same (reads found)
