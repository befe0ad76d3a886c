-- ===== src/Tests/Logs.antt =====
-- The event file, the logs of an attempt and the capsule of a failure, at concrete contents.
use zgent.Common.{
  ℕ, ◌+◌, ◌-◌, ◌≤◌, min, String, ◌≡◌, ◌≢◌, refl, arith, true, false, none, some, List, [], ◌∷◌,
  ◌++◌, drop,
}
use zgent.Common.Dict.{get}
use zgent.Common.Exec.{ok}
use zgent.Common.Int.{pos}
use zgent.Incidents.Evidence.{
  capsule_log_bytes, size_of, content_of, snapshot_failure_logs, is_secret, safe_environment,
}
use zgent.Incidents.Evidence.Secrets.{IsShown, safe_environment-no_secrets}
use zgent.Incidents.Evidence.Snapshots.{snapshot_failure_logs-bounds}
use zgent.Jobs.Events.{load_events, repaired}
use zgent.Jobs.Events.Repair.{lines, Leftover, unended, load_events-leftover, repaired-leftover}
use zgent.Jobs.EventStore.{append_event}
use zgent.Jobs.EventStore.Append.{
  HasEvents, IsLog, event_after, append_event-IsLog, append_event-after_crash,
}
use zgent.Jobs.Models.{JobEvent, LogChunk, stderr, running, failed, job_started, job_failed}
use zgent.Jobs.Monitor.{Write, Drained, DrainState, chunk, drain, closed}
use zgent.Jobs.Monitor.Classify.{output, drain_complete, drain-prefix}
use zgent.Jobs.Store.{read_log, log_of, attempt_files, max_log_read_bytes}
use zgent.Jobs.Store.Chunks.{IsChunk, bytes_of, read_log-IsChunk}
use zgent.Tests.Code.{code}
use zgent.Tests.Codec.{encode, decode, encode-IsLineJson}
use zgent.Tests.Data.{externals, event, at_failure, job_dir}
use zgent.World.{World, Bytes}

abbrev second : JobEvent
second = record {
  seq = 2;
  type = job_started;
  job_id = "job-1";
  attempt_id = some "attempt-0002";
  status = running;
  occurred_at = 11;
}

encode-not_empty : encode second ≢ []
unfolding encode
encode-not_empty e = ground (arith, e)

abbrev left : Leftover encode-IsLineJson (encode second) (second ∷ [])
left = unended second encode-not_empty

-- The daemon died before the newline of the second event.
abbrev crashed : World
crashed = record at_failure {
  jobs =
      ("job-1", record job_dir { events = some (lines encode (event ∷ []) ++ encode second) }) ∷ [];
}

crashed-events : HasEvents externals crashed "job-1" (lines encode (event ∷ []) ++ encode second)
unfolding code
crashed-events = (refl, refl, refl)

load_events-leftover_example :
    load_events decode (lines encode (event ∷ []) ++ encode second) ≡ event ∷ second ∷ []
load_events-leftover_example = load_events-leftover encode-IsLineJson (event ∷ []) left

repaired-leftover_example :
    repaired decode (lines encode (event ∷ []) ++ encode second)
    ≡ lines encode (event ∷ second ∷ [])
repaired-leftover_example = repaired-leftover encode-IsLineJson (event ∷ []) left

abbrev third : JobEvent
third = event_after (event ∷ second ∷ []) job_failed "job-1" (some "attempt-0002") failed 12

abbrev mended : World
mended = (append_event externals job_failed "job-1" (some "attempt-0002") failed 12 crashed).1

uncached : get crashed.event_seq "job-1" ≡ none
unfolding get
uncached = refl

append_event-after_crash_example :
    ((append_event externals job_failed "job-1" (some "attempt-0002") failed 12 crashed).0
      ≡ ok third)
    × IsLog externals mended "job-1" (event ∷ second ∷ third ∷ [])
append_event-after_crash_example =
    append_event-after_crash externals job_failed "job-1" (some "attempt-0002") failed 12 crashed
      (event ∷ []) encode-IsLineJson left crashed-events uncached (refl, (refl, tt))

mended-IsLog : IsLog externals mended "job-1" (event ∷ second ∷ third ∷ [])
mended-IsLog =
    (append_event-after_crash externals job_failed "job-1" (some "attempt-0002") failed 12 crashed
      (event ∷ []) encode-IsLineJson left crashed-events uncached (refl, (refl, tt))).1

append_event-IsLog_example :
    let es = event ∷ second ∷ third ∷ [] in
    ((append_event externals job_started "job-1" (some "attempt-0003") running 13 mended).0
      ≡ ok (event_after es job_started "job-1" (some "attempt-0003") running 13))
    × IsLog externals
        (append_event externals job_started "job-1" (some "attempt-0003") running 13 mended).1
        "job-1"
        (es ++ (event_after es job_started "job-1" (some "attempt-0003") running 13 ∷ []))
append_event-IsLog_example =
    append_event-IsLog externals job_started "job-1" (some "attempt-0003") running 13
      (event ∷ second ∷ third ∷ []) mended-IsLog

abbrev fresh_log : DrainState
fresh_log = record { content = []; pending = []; writable = true; errors = [] }

abbrev good : List Drained
good = chunk (1 ∷ 2 ∷ []) Write.whole ∷ chunk (3 ∷ []) Write.whole ∷ []

abbrev bad : List Drained
bad =
    chunk (1 ∷ 2 ∷ []) Write.whole
    ∷ chunk (3 ∷ 4 ∷ 5 ∷ []) (Write.raised 1 "disk full")
    ∷ chunk (6 ∷ []) Write.whole
    ∷ []

drain_complete_example : (drain fresh_log good).content ≡ 1 ∷ 2 ∷ 3 ∷ []
drain_complete_example = drain_complete fresh_log good refl (unfold drain in refl)

-- The write leaves one byte of its chunk, the close another one.
cut_log : (closed (drain fresh_log bad) 1 none).content ≡ 1 ∷ 2 ∷ 3 ∷ 4 ∷ []
unfolding drain closed
cut_log = refl

drain-prefix_example :
    (p q : Bytes) × ((closed (drain fresh_log bad) 1 none).content ≡ p) × (output bad ≡ p ++ q)
drain-prefix_example = drain-prefix fresh_log bad 1 none refl refl

abbrev whole : LogChunk
whole = record {
  stream = stderr;
  start_offset = 1;
  end_offset = 2;
  total_bytes = 2;
  eof = true;
  text = "text";
}

read_whole :
    read_log externals "job-1" "attempt-0001" stderr (pos 1) (pos 10) at_failure
    ≡ (ok whole, at_failure)
unfolding code
read_whole = refl

read_log-IsChunk_example :
    (at_failure ≡ at_failure)
    × ((o : ℕ) × (l : ℕ) × (pos 1 ≡ pos o)
        × (pos 10 ≡ pos l)
        × (1 ≤ l)
        × (l ≤ max_log_read_bytes)
        × IsChunk externals
            (bytes_of externals (log_of stderr (attempt_files at_failure "job-1" "attempt-0001")))
            o
            l
            whole)
read_log-IsChunk_example =
    read_log-IsChunk externals "job-1" "attempt-0001" stderr (pos 1) (pos 10) at_failure at_failure
      whole read_whole

snapshot_failure_logs-bounds_example :
    let (out, errors) = snapshot_failure_logs externals (some (1 ∷ 2 ∷ [])) none in
    ((out.included_end - out.included_start) + (errors.included_end - errors.included_start)
      ≤ capsule_log_bytes)
    × (errors.included_end - errors.included_start ≡ min capsule_log_bytes (size_of none))
    × (out.included_end - out.included_start
        ≡ min (capsule_log_bytes - size_of none) (size_of (some (1 ∷ 2 ∷ []))))
    × (out.included_end ≡ size_of (some (1 ∷ 2 ∷ [])))
    × (errors.included_end ≡ size_of none)
    × (out.tail ≡ externals.decode_text (drop out.included_start (content_of (some (1 ∷ 2 ∷ [])))))
    × (errors.tail ≡ externals.decode_text (drop errors.included_start (content_of none)))
snapshot_failure_logs-bounds_example =
    snapshot_failure_logs-bounds externals (some (1 ∷ 2 ∷ [])) none

abbrev environment : List (String × String)
environment = ("CUDA_HOME", "/cuda") ∷ ("CUDA_TOKEN", "hidden") ∷ []

cuda_shown : get (safe_environment "python" "3.12" environment) "CUDA_HOME" ≡ some "/cuda"
unfolding code
cuda_shown = refl

safe_environment-no_secrets_example : (is_secret "CUDA_HOME" ≡ false) × IsShown "CUDA_HOME"
safe_environment-no_secrets_example =
    safe_environment-no_secrets "python" "3.12" environment "CUDA_HOME" "/cuda" cuda_shown
