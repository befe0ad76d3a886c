-- ===== src/World/Laws.antt =====
-- What a write of one incident's files changes.
use zgent.Common.{String, str_eq, eq_iff, ◌≡◌, ap, ◌&&◌, arith, if◌then◌else◌}
use zgent.Common.Dict.{get, put, get-put}
use zgent.World.{
  World, IncidentFiles, incident_dirs, incident_files, snapshot, or_empty, or_no_files,
  set_incident_files,
}

pub incident_files-set :
    (w : World) (j k j' k' : String) (fs : IncidentFiles)
    → incident_files (set_incident_files w j k fs) j' k'
      ≡ (if str_eq j j' && str_eq k k' then fs else incident_files w j' k')
unfolding incident_files set_incident_files
incident_files-set w j k j' k' fs = ground (
  arith,
  get-put w.incidents j j' (put (incident_dirs w j) k fs),
  get-put (incident_dirs w j) k k' fs,
  eq_iff j j',
  eq_iff k k',
)

pub snapshot-incidents :
    (w w' : World) → w'.incidents ≡ w.incidents → (j k : String) → snapshot w' j k ≡ snapshot w j k
unfolding snapshot incident_files incident_dirs
snapshot-incidents w w' e j k = ap (λ d. (or_no_files (get (or_empty (get d j)) k)).snapshot) e
