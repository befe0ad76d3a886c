-- ===== src/Incidents/Coordinator/SmokeTest/Paths.antt =====
-- The smoke test of a patch moves statuses along the state machine.
use zgent.Common.{ℕ, String, eq_iff, ◌≡◌, refl, Option, none, some, arith}
use zgent.Common.Dict.{get, put}
use zgent.Common.Exec.{Result, modify}
use zgent.Incidents.Models.{Incident, Proposal, PatchReceipt, SmokeStatus, SmokeExecution}
use zgent.Incidents.Moves.{Actor, Keeps, Keeps-quiet, Keeps-bind}
use zgent.Incidents.Moves.Rules.{Keeps-update_incident}
use zgent.Incidents.Patches.{Patches}
use zgent.Incidents.Smoke.{SmokeProcess, SmokeSelection, run_executor, announce, store_logs}
use zgent.Incidents.Store.{update_incident}
use zgent.Incidents.Coordinator.Paths.{keeps_shared, Keeps-apart, Keeps-untouched}
use zgent.Incidents.Coordinator.SmokeTest.{
  Answers, on_tree, on_found, put_tree, run_smoke, smoke_started, finish_execution, blocked, revise,
  reversed, roll_back,
}
use zgent.Jobs.Apart.{read_spec-apart}
use zgent.World.{World, M, Tree, Bytes, SmokeLogs, snapshot, incident_files}
use zgent.World.Laws.{incident_files-set}
use zgent.World.Leaves.{Leaves}

-- The patch service changes a workspace, never an incident.
on_tree-incidents :
    {A : Type 0} (root : String) (act : Tree → Result A × Tree)
    → Leaves (λ w. w.incidents) (on_tree root act)
unfolding on_tree on_found put_tree
on_tree-incidents root act = record { at = λ w. go (get w.trees root) w }
  where
    go : (t : Option Tree) (w : World) → (on_found root act t w).1.incidents ≡ w.incidents
    go none w = refl
    go (some t) w = refl

pub Keeps-on_tree :
    {who : Actor}
    → {A : Type 0} (root : String) (act : Tree → Result A × Tree) → Keeps who (on_tree root act)
Keeps-on_tree root act = Keeps-untouched _ (on_tree-incidents root act)

Keeps-store_logs :
    {who : Actor}
    → (j k p : String) (out errors : Bytes) → Keeps who (modify (store_logs j k p out errors))
unfolding modify store_logs snapshot
Keeps-store_logs j k p out errors = Keeps-quiet _ (λ w. record { at = λ j' k'. same w j' k' })
  where
    same :
        (w : World) (j' k' : String)
        → snapshot (store_logs j k p out errors w) j' k' ≡ snapshot w j' k'
    same w j' k' =
        let fs = incident_files w j k in
        let logs : SmokeLogs = record { out_log = some out; error_log = some errors } in
        ground (
          arith,
          eq_iff j j',
          eq_iff k k',
          incident_files-set w j k j' k' (record fs { smoke = put fs.smoke p logs }),
        )

Keeps-announce :
    {who : Actor}
    → (f : ℕ → String → M (Unit {0})) (pid : ℕ) (identity : Option String)
    → ((n : ℕ) (s : String) → Keeps who (f n s))
    → Keeps who (announce f pid identity)
unfolding announce
Keeps-announce f pid none h = search keeps_shared
Keeps-announce f pid (some s) h = h pid s

Keeps-run_executor :
    {who : Actor}
    → (process : SmokeProcess) (j k p o e : String) (f : ℕ → String → M (Unit {0}))
    → ((n : ℕ) (s : String) → Keeps who (f n s))
    → Keeps who (run_executor process j k p o e f)
unfolding run_executor
Keeps-run_executor process j k p o e f h =
    Keeps-bind _ _ (Keeps-announce f process.pid process.identity h) λ u.
      Keeps-bind _ _ (Keeps-store_logs j k p process.out process.errors)
        λ u'. Keeps-quiet _ (λ w. record { at = λ j' k'. refl })

module _ (patches : Patches) where
  Keeps-smoke_started :
      {who : Actor}
      → (j k : String) (pid : ℕ) (identity : String)
      → Keeps who (smoke_started patches j k pid identity)
  unfolding smoke_started
  Keeps-smoke_started j k pid identity = search keeps_shared depth 9

  Keeps-finish_execution :
      {who : Actor}
      → (j k : String) (s : SmokeStatus) (e : Option SmokeExecution)
      → Keeps who (finish_execution patches j k s e)
  unfolding finish_execution
  Keeps-finish_execution j k s none = search keeps_shared
  Keeps-finish_execution j k s (some e) = search keeps_shared

  Keeps-blocked : {who : Actor} → (j k : String) → Keeps who (blocked patches j k)
  unfolding blocked
  Keeps-blocked j k = search keeps_shared

  Keeps-note :
      {who : Actor}
      → (j k : String) (o : Option String)
      → Keeps who (update_incident j k (λ i. record i { last_outcome = o }))
  Keeps-note j k o = Keeps-update_incident j k _ (λ i. (refl, refl))

  Keeps-revise :
      {who : Actor}
      → (j : String) (before cleared : Incident) (p : String) (s : Option SmokeSelection)
        (hex : String)
      → Keeps who (revise patches j before cleared p s hex)
  unfolding revise
  Keeps-revise j before cleared p none hex = search (keeps_shared, Keeps-note)
  Keeps-revise j before cleared p (some s) hex = search keeps_shared

  Keeps-reversed :
      {who : Actor}
      → (j : String) (i : Incident) (p : String) (answers : Answers) (done : Option (Unit {0}))
      → Keeps who (reversed patches j i p answers done)
  unfolding reversed
  Keeps-reversed j i p answers none = Keeps-blocked j i.id
  Keeps-reversed j i p answers (some done) = search (keeps_shared, Keeps-revise)

  Keeps-roll_back :
      {who : Actor}
      → (j root : String) (i : Incident) (p : String) (answers : Answers) (o : Option Proposal)
        (receipt : Option PatchReceipt)
      → Keeps who (roll_back patches j root i p answers o receipt)
  unfolding roll_back
  Keeps-roll_back j root i p answers none receipt = Keeps-blocked j i.id
  Keeps-roll_back j root i p answers (some o) none = Keeps-blocked j i.id
  Keeps-roll_back j root i p answers (some o) (some receipt) =
      search (keeps_shared, Keeps-on_tree, Keeps-reversed) depth 9

  pub Keeps-run_smoke :
      {who : Actor}
      → (j : String) (i : Incident) (p : String) (answers : Answers)
      → Keeps who (run_smoke patches j i p answers)
  unfolding run_smoke
  Keeps-run_smoke j i p answers =
      search
        (
          keeps_shared, Keeps-apart, read_spec-apart, Keeps-run_executor, Keeps-smoke_started,
          Keeps-finish_execution, Keeps-roll_back,
        )
        depth 16
