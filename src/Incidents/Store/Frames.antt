-- ===== src/Incidents/Store/Frames.antt =====
-- What the operations of the store do to the snapshots: the effect of an update in closed form.
use zgent.Common.{
  String, str_eq, eq_iff, ◌≡◌, refl, ◌&&◌, ℕ, Option, arith, if◌then◌else◌, ◌⊎◌, inl, inr,
}
use zgent.Common.Exec.{Result, ok, err, ◌>>=◌}
use zgent.Common.Dict.{put}
use zgent.Incidents.Models.{Incident, IncidentRun}
use zgent.Incidents.Store.Names.{validate_id}
use zgent.Incidents.Store.{read_incident, write_incident, update_incident, set_diff, set_run}
use zgent.World.{World, Stored, stored, snapshot, incident_files, set_incident_files, now}
use zgent.World.Laws.{incident_files-set}

-- The write of one snapshot.
unfoldable pub put_snapshot : String → Incident → World → World
put_snapshot j i w =
    set_incident_files w j i.id (record (incident_files w j i.id) { snapshot = stored i })

pub snapshot-put_snapshot :
    (j : String) (i : Incident) (w : World) (j' k' : String)
    → snapshot (put_snapshot j i w) j' k'
      ≡ (if str_eq j j' && str_eq i.id k' then stored i else snapshot w j' k')
unfolding put_snapshot snapshot
snapshot-put_snapshot j i w j' k' = ground (
  arith,
  incident_files-set w j i.id j' k' (record (incident_files w j i.id) { snapshot = stored i }),
)

abbrev pub at_clock : ℕ → Incident → Incident
at_clock t i = record i { updated_at = t }

abbrev pub tick : World → World
tick w = record w { clock = ℕ.suc w.clock }

pub read_incident_ok :
    (j k : String) (w : World) {i : Incident}
    → validate_id k ≡ ok tt
    → snapshot w j k ≡ stored i
    → read_incident j k w ≡ (ok i, w)
unfolding read_incident ◌>>=◌
read_incident_ok j k w v s = ground arith

pub update_incident_ok :
    (j k : String) (f : Incident → Incident) (w : World) {i : Incident}
    → validate_id k ≡ ok tt
    → snapshot w j k ≡ stored i
    → validate_id (f i).id ≡ ok tt
    → update_incident j k f w
      ≡ (ok (at_clock w.clock (f i)), put_snapshot j (at_clock w.clock (f i)) (tick w))
unfolding update_incident write_incident ◌>>=◌ put_snapshot now
update_incident_ok j k f w {i} v s v' = rw (read_incident_ok j k w v s) (rw v')

-- What an update leaves, whether it returns or raises: no change but the clock, or one write.
pub update_incident_state :
    (j k : String) (f : Incident → Incident) (w : World)
    → ((update_incident j k f w).1 ≡ w)
      ⊎ ((update_incident j k f w).1 ≡ tick w)
      ⊎ ((i : Incident) × (snapshot w j k ≡ stored i)
          × ((update_incident j k f w).1 ≡ put_snapshot j (at_clock w.clock (f i)) (tick w)))
unfolding update_incident read_incident write_incident ◌>>=◌ put_snapshot now
update_incident_state j k f w = go (validate_id k) refl (snapshot w j k) refl
  where
    Goal : Type 0
    Goal =
        ((update_incident j k f w).1 ≡ w)
        ⊎ ((update_incident j k f w).1 ≡ tick w)
        ⊎ ((i : Incident) × (snapshot w j k ≡ stored i)
            × ((update_incident j k f w).1 ≡ put_snapshot j (at_clock w.clock (f i)) (tick w)))

    written :
        (i : Incident)
        → validate_id k ≡ ok tt
        → snapshot w j k ≡ stored i
        → (r : Result (Unit {0})) → validate_id (f i).id ≡ r
        → Goal
    written i v s (ok u) v' = inr (inr (i, s, ground (arith, v, s, v')))
    written i v s (err e) v' = inr (inl (ground (arith, v, s, v')))

    go :
        (r : Result (Unit {0}))
        → validate_id k ≡ r
        → (o : Stored Incident) → snapshot w j k ≡ o
        → Goal
    go (err e) v o s = inl (ground (arith, v, s))
    go (ok u) v Stored.missing s = inl (ground (arith, v, s))
    go (ok u) v Stored.malformed s = inl (ground (arith, v, s))
    go (ok u) v (stored i) s = written i v s (validate_id (f i).id) refl

pub snapshot-set_diff :
    (j k : String) (d : Option String) (w : World) (j' k' : String)
    → snapshot (set_diff j k d w) j' k' ≡ snapshot w j' k'
unfolding set_diff snapshot
snapshot-set_diff j k d w j' k' = ground (
  arith,
  eq_iff j j',
  eq_iff k k',
  incident_files-set w j k j' k' (record (incident_files w j k) { diff = d }),
)

pub snapshot-set_run :
    (j k r : String) (run : IncidentRun) (w : World) (j' k' : String)
    → snapshot (set_run j k r run w) j' k' ≡ snapshot w j' k'
unfolding set_run snapshot
snapshot-set_run j k r run w j' k' =
    let fs = incident_files w j k in
    ground (
      arith,
      eq_iff j j',
      eq_iff k k',
      incident_files-set w j k j' k' (record fs { runs = put fs.runs r run }),
    )
