-- ===== src/Incidents/Coordinator/Running/Finished.antt =====
-- The end of a diagnosis task: what it makes of the incident's status.
use zgent.Common.{
  String, ◌≡◌, ◌≢◌, refl, sym, ap, subst, ◌∙◌, Bool, true, false, Option, none, some, arith,
  if◌then◌else◌,
}
use zgent.Common.Exec.{ok, ◌>>=◌, pure}
use zgent.Externals.{Externals}
use zgent.Fsm.{
  Status, transition, transitions, diagnosing, investigation_done, investigation_failed,
}
use zgent.Incidents.Models.{Incident, Diagnosis, Proposal}
use zgent.Incidents.Store.Frames.{tick}
use zgent.Incidents.Coordinator.Running.{
  is_status_diagnosing, give_up, conclude, run_diagnosis, RunOutcome, Turn,
}
use zgent.Incidents.Coordinator.{dispatch}
use zgent.World.{World, stored, snapshot}
use zgent.Incidents.Coordinator.Running.Paths.{Keeps-run_incident}
use zgent.Incidents.Moves.{nobody, IsKeyed, Keeps-try_or_none}
use zgent.World.Laws.{snapshot-incidents}
use zgent.Incidents.Coordinator.Returns.{
  update_incident-stored, read_incident-stored, put-stored, dispatch-stored, returned, published,
}
use zgent.World.Runs.{bind-inverted}

-- The statuses that an investigation ends in.
IsConcluded : World → String → String → Type 0
IsConcluded w j k = (i : Incident) × (snapshot w j k ≡ stored i) × (i.status ≢ diagnosing)

done_target : (s t : Status) → transition s investigation_done ≡ ok t → t ≢ diagnosing
unfolding transition transitions
done_target s t e d = ground (arith, e, d)

failed_target : (s t : Status) → transition s investigation_failed ≡ ok t → t ≢ diagnosing
unfolding transition transitions
failed_target s t e d = ground (arith, e, d)

diagnosing_only : (s : Status) → is_status_diagnosing s ≡ false → s ≢ diagnosing
unfolding is_status_diagnosing
diagnosing_only s h d = ground (arith, h, d)

module _ (j k : String) (i : Incident) (w w' : World) (key : i.id ≡ k)
    (found : snapshot w j k ≡ stored i) where
  give_up-IsConcluded : (u : Unit {0}) → give_up j i w ≡ (ok u, w') → IsConcluded w' j k
  unfolding give_up IsConcluded
  give_up-IsConcluded u e = go (is_status_diagnosing i.status) refl e
    where
      go :
          (b : Bool)
          → is_status_diagnosing i.status ≡ b
          → (if b then (dispatch j i.id investigation_failed >>= λ y. pure tt) else pure tt) w
            ≡ (ok u, w')
          → IsConcluded w' j k
      go false h e =
          (i, ap (λ y. snapshot y j k) (returned tt u w w' e) ∙ found, diagnosing_only i.status h)
      go true h e =
          let (i', v, moved, rest) = bind-inverted _ _ w w' u e in
          let (i2, found2, target, at) = dispatch-stored j i.id investigation_failed w v i' moved in
          let one : i2 ≡ i = ground (arith, found, found2, key) in
          (
            i',
            ap (λ y. snapshot y j k) (returned tt u v w' rest)
                ∙ ap (λ z. snapshot v j z) (sym (ap (λ (y : Incident). y.id) one ∙ key))
                ∙ at,
            failed_target i2.status i'.status target,
          )

  proposed-IsConcluded :
      (d : Diagnosis) (p : Proposal) (o : RunOutcome) (u : Unit {0})
      → conclude j i (some o) (some d) (some p) w ≡ (ok u, w')
      → IsConcluded w' j k
  unfolding conclude IsConcluded
  proposed-IsConcluded d p o u e =
      let (named, v, up, rest) = bind-inverted _ _ w w' u e in
      let (i1, found1, is, at) = update_incident-stored j i.id _ w v named up in
      let (i', v', moved, last) = bind-inverted _ _ v w' u rest in
      let (i2, found2, target, stored_at) =
        dispatch-stored j named.id investigation_done v v' i' moved in
      let one : i1 ≡ i = ground (arith, found, found1, key) in
      let put : snapshot v j named.id ≡ stored named =
        ap (λ y. snapshot y j named.id) at ∙ put-stored j named (tick w) named.id refl in
      let two : i2 ≡ named = ground (arith, found2, put) in
      let named_key : named.id ≡ k =
        ap (λ (y : Incident). y.id) is ∙ ap (λ (y : Incident). y.id) one ∙ key in
      (
        i',
        snapshot-incidents v' w' (published _ v' w' u last) j k
            ∙ ap (λ z. snapshot v' j z) (sym (ap (λ (y : Incident). y.id) two ∙ named_key))
            ∙ stored_at,
        done_target i2.status i'.status target,
      )

  conclude-IsConcluded :
      (o : Option RunOutcome) (d : Option Diagnosis) (p : Option Proposal) (u : Unit {0})
      → conclude j i o d p w ≡ (ok u, w')
      → IsConcluded w' j k
  unfolding conclude
  conclude-IsConcluded (some o) (some d) (some p) u e = proposed-IsConcluded d p o u e
  conclude-IsConcluded none d p u e = give_up-IsConcluded u e
  conclude-IsConcluded (some o) none p u e = give_up-IsConcluded u e
  conclude-IsConcluded (some o) (some d) none u e = give_up-IsConcluded u e

-- A diagnosis task that returns, whatever its run did and however it ended, leaves its incident
-- stored and no longer diagnosing, where each snapshot was under its own id.
pub run_diagnosis-concludes :
    (x : Externals) (j k r : String) (turn : Turn) (w w' : World)
    → IsKeyed w
    → run_diagnosis x j k r turn w ≡ (ok tt, w')
    → (i : Incident) × (snapshot w' j k ≡ stored i) × (i.status ≢ diagnosing)
unfolding run_diagnosis IsConcluded
run_diagnosis-concludes x j k r turn w w' h e =
    let (o, v, ran, rest) = bind-inverted _ _ w w' tt e in
    let (i, v', read, last) = bind-inverted _ _ v w' tt rest in
    let (same, found) = read_incident-stored j k v v' i read in
    let keyed : IsKeyed v =
      subst IsKeyed (ap (λ y. y.1) ran)
        ((Keeps-try_or_none {who = nobody} _ _ (Keeps-run_incident x j k r turn)).keyed w h) in
    conclude-IsConcluded j k i v w' (keyed.at j k i found) found o i.diagnosis i.proposal tt
      (ap (λ y. conclude j i o i.diagnosis i.proposal y) (sym same) ∙ last)
