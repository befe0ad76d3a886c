-- ===== src/Jobs/EventStore.antt =====
-- The event operations of JobStore (cyan/training/jobs/store.py: _load_events, _last_event_seq,
-- append_event, read_events, find_attempt_event). The sequence numbers in use are cached in memory.
pub mod Append
use zgent.Common.{
  ℕ, suc, ◌+◌, String, Bool, true, false, ◌&&◌, Option, none, some, List, [], ◌∷◌, ◌++◌, reverse,
  str_eq, is_some, if◌then◌else◌,
}
use zgent.Common.Dict.{get, put}
use zgent.Common.Exec.{
  Exec, Result, ok, err, file_not_found, ◌>>=◌, ◌>>◌, pure, raise, lift, gets, modify,
}
use zgent.Externals.{Externals}
use zgent.Jobs.Models.{
  JobStatus, JobEventType, job_started, job_succeeded, job_failed, job_cancelled, job_interrupted,
  JobEvent,
}
use zgent.Jobs.Events.{load_events, repaired, last_seq, newline}
use zgent.Jobs.Store.{component, job_files, set_job_files}
use zgent.World.{Bytes, World, M}

pub JobEventType-discrete : Discrete JobEventType
JobEventType-discrete = hlevel

unfoldable pub same_type : JobEventType → JobEventType → Bool
same_type job_started job_started = true
same_type job_succeeded job_succeeded = true
same_type job_failed job_failed = true
same_type job_cancelled job_cancelled = true
same_type job_interrupted job_interrupted = true
same_type _ _ = false

unfoldable pub same_attempt : Option String → String → Bool
same_attempt none a = false
same_attempt (some b) a = str_eq b a

-- event.attempt_id == attempt_id and event.type == event_type
unfoldable pub matches : String → JobEventType → JobEvent → Bool
unfolding same_type same_attempt
matches a t e = same_attempt e.attempt_id a && same_type e.type t

first_match : (JobEvent → Bool) → List JobEvent → Option JobEvent
first_match p [] = none
first_match p (e ∷ es) = if p e then some e else first_match p es

unfoldable pub set_events : String → Bytes → World → World
set_events j content w = set_job_files j (record (job_files w j) { events = some content }) w

unfoldable pub set_seq : String → ℕ → World → World
set_seq j n w = record w { event_seq = put w.event_seq j n }

module _ (x : Externals) where
  unfoldable pub loaded : Option Bytes → List JobEvent
  loaded none = []
  loaded (some content) = load_events x.decode_event content

  -- read_events, which is _load_events(repair_tail=False)
  unfoldable pub read_events : String → M (List JobEvent)
  unfolding loaded
  read_events j = do
    lift (component j)
    content ← gets (λ w. (job_files w j).events)
    pure (loaded content)

  -- The write of _load_events(repair_tail=True).
  unfoldable pub repair : String → Option Bytes → World → World
  repair j none w = w
  repair j (some content) w = set_events j (repaired x.decode_event content) w

  -- _load_events(repair_tail=True)
  unfoldable pub load_repairing : String → M (List JobEvent)
  unfolding loaded repair set_events
  load_repairing j = do
    lift (component j)
    content ← gets (λ w. (job_files w j).events)
    modify (repair j content)
    pure (loaded content)

  unfoldable pub uncached : String → Option ℕ → M ℕ
  unfolding load_repairing set_seq
  uncached j (some n) = pure n
  uncached j none = do
    events ← load_repairing j
    modify (set_seq j (last_seq events))
    pure (last_seq events)

  -- _last_event_seq
  unfoldable pub last_event_seq : String → M ℕ
  unfolding uncached
  last_event_seq j = do cached ← gets (λ w. get w.event_seq j); uncached j cached

  unfoldable pub content_or_new : Option Bytes → Bytes
  content_or_new none = []
  content_or_new (some content) = content

  -- open("ab"), write, fsync: the file is created in a directory that exists
  unfoldable pub append_payload : String → Bytes → M (Unit {0})
  unfolding content_or_new set_events
  append_payload j payload = do
    lift (component j)
    exists ← gets (λ w. is_some (get w.jobs j))
    if exists
        then modify (λ w. set_events j (content_or_new (job_files w j).events ++ payload) w)
        else raise file_not_found

  -- append_event
  unfoldable pub append_event : JobEventType → String → Option String → JobStatus → ℕ → M JobEvent
  unfolding append_payload set_seq
  append_event type j attempt status occurred = do
    last ← last_event_seq j
    let event =
        let e : JobEvent = record {
          seq = last + 1;
          type = type;
          job_id = j;
          attempt_id = attempt;
          status = status;
          occurred_at = occurred;
        } in
        e
    append_payload j (x.encode_event event ++ (newline ∷ []))
    modify (set_seq j (last + 1))
    pure event

  -- find_attempt_event: the latest event that matches
  unfoldable pub find_attempt_event : String → String → JobEventType → M (Option JobEvent)
  unfolding matches first_match
  find_attempt_event j a t = do
    events ← read_events j
    pure (first_match (matches a t) (reverse events))
