-- ===== src/Incidents/Coordinator/Returns.antt =====
-- What an action that has returned leaves behind.
use zgent.Common.{String, eq_refl, eq_iff, ◌≡◌, refl, sym, ap, ◌∙◌, inl, inr, arith}
use zgent.Common.Exec.{Result, ok, err, ◌>>=◌, ◌>>◌, pure, lift}
use zgent.Fsm.{Status, Event, transition}
use zgent.Incidents.Models.{Incident}
use zgent.Incidents.Store.{read_incident, update_incident, write_incident}
use zgent.Incidents.Store.Frames.{put_snapshot, snapshot-put_snapshot, at_clock, tick}
use zgent.Incidents.Store.Names.{validate_id}
use zgent.Incidents.Coordinator.{dispatch, set_status}
use zgent.Incidents.Coordinator.Paths.{read_incident_cases}
use zgent.World.{World, stored, snapshot, publish, now, BusEvent}
use zgent.World.Runs.{bind-inverted}
use zgent.World.Laws.{snapshot-incidents}

-- An update that returns has stored what it returns.
pub update_incident-stored :
    (j k : String) (f : Incident → Incident) (w w' : World) (i' : Incident)
    → update_incident j k f w ≡ (ok i', w')
    → (i : Incident) × (snapshot w j k ≡ stored i)
      × (i' ≡ at_clock w.clock (f i))
      × (w' ≡ put_snapshot j i' (tick w))
unfolding update_incident write_incident ◌>>=◌ now put_snapshot
update_incident-stored j k f w w' i' e = elim (read_incident_cases j k w) [
  | inl (x, r) ↦ absurd (ground (arith, e, r))
  | inr (i, s, r) ↦ go i s r (validate_id (f i).id) refl
]
  where
    go :
        (i : Incident)
        → snapshot w j k ≡ stored i
        → read_incident j k w ≡ (ok i, w)
        → (v : Result (Unit {0})) → validate_id (f i).id ≡ v
        → (i : Incident) × (snapshot w j k ≡ stored i)
          × (i' ≡ at_clock w.clock (f i))
          × (w' ≡ put_snapshot j i' (tick w))
    go i s r (err x) v = absurd (ground (arith, e, r, v))
    go i s r (ok u) v = (i, s, ground (arith, e, r, v), ground (arith, e, r, v))

pub lifted :
    {A : Type 0} (r : Result A) (a : A) (w w' : World)
    → lift r w ≡ (ok a, w')
    → (r ≡ ok a) × (w' ≡ w)
unfolding lift
lifted r a w w' e = (ap (λ y. y.0) e, sym (ap (λ y. y.1) e))

pub read_incident-stored :
    (j k : String) (w w' : World) (i : Incident)
    → read_incident j k w ≡ (ok i, w')
    → (w' ≡ w) × (snapshot w j k ≡ stored i)
read_incident-stored j k w w' i e = elim (read_incident_cases j k w) [
  | inl (x, r) ↦ absurd (ground (arith, e, r))
  | inr (i', s, r) ↦ (ground (arith, e, r), ground (arith, e, r, s))
]

pub announced :
    (ev : BusEvent) (u i' : Incident) (v w' : World)
    → (publish ev >> pure u) v ≡ (ok i', w')
    → (u ≡ i') × (w'.incidents ≡ v.incidents)
unfolding publish ◌>>=◌ pure
announced ev u i' v w' e = (ground (arith, e), sym (ap (λ y. y.1.incidents) e))

pub put-stored :
    (j : String) (u : Incident) (w : World) (k : String)
    → u.id ≡ k
    → snapshot (put_snapshot j u w) j k ≡ stored u
put-stored j u w k same =
    ground (arith, snapshot-put_snapshot j u w j k, eq_iff u.id k, eq_refl j, same)

-- A status that is set is stored, under the id of the incident.
pub set_status-stored :
    (j k : String) (s : Status) (w w' : World) (i' : Incident)
    → set_status j k s w ≡ (ok i', w')
    → (i : Incident) × (snapshot w j k ≡ stored i)
      × (i'.id ≡ i.id)
      × (i'.status ≡ s)
      × (snapshot w' j i.id ≡ stored i')
unfolding set_status
set_status-stored j k s w w' i' e =
    let (u, v, up, rest) = bind-inverted _ _ w w' i' e in
    let (i, found, is, at) = update_incident-stored j k _ w v u up in
    let (same, quiet) = announced _ u i' v w' rest in
    let id_kept : i'.id ≡ i.id = ap (λ (y : Incident). y.id) (sym same ∙ is) in
    (
      i,
      found,
      id_kept,
      ap (λ (y : Incident). y.status) (sym same ∙ is),
      snapshot-incidents v w' quiet j i.id
          ∙ ap (λ y. snapshot y j i.id) at
          ∙ put-stored j u (tick w) i.id (ap (λ (y : Incident). y.id) is)
          ∙ ap stored same,
    )

-- A dispatch that returns has stored the status that the table gives for the one it found.
pub dispatch-stored :
    (j k : String) (e : Event) (w w' : World) (i' : Incident)
    → dispatch j k e w ≡ (ok i', w')
    → (i : Incident) × (snapshot w j k ≡ stored i)
      × (transition i.status e ≡ ok i'.status)
      × (snapshot w' j i.id ≡ stored i')
unfolding dispatch
dispatch-stored j k e w w' i' h =
    let (i, v, read, rest) = bind-inverted _ _ w w' i' h in
    let (same, found) = read_incident-stored j k w v i read in
    let (s, v', moved, set) = bind-inverted _ _ v w' i' rest in
    let (moved_ok, same') = lifted (transition i.status e) s v v' moved in
    let (i2, found2, id_kept, is, at) = set_status-stored j k s v' w' i' set in
    let one : i ≡ i2 = ground (arith, found, found2, same, same') in
    (
      i2,
      ap (λ y. snapshot y j k) (sym (same' ∙ same)) ∙ found2,
      ap (λ (y : Incident). transition y.status e) (sym one) ∙ moved_ok ∙ ap ok (sym is),
      at,
    )

pub returned : {A : Type 0} (a b : A) (w w' : World) → pure a w ≡ (ok b, w') → w' ≡ w
unfolding pure
returned a b w w' e = sym (ap (λ y. y.1) e)

pub published :
    (ev : BusEvent) (w w' : World) (u : Unit {0})
    → publish ev w ≡ (ok u, w')
    → w'.incidents ≡ w.incidents
unfolding publish
published ev w w' u e = sym (ap (λ y. y.1.incidents) e)
