-- ===== src/Jobs/EventStore/Append.antt =====
-- An append to the event file, also to one that a crash left torn: the file holds the events so
-- far and the new one, numbered from 1 without a gap.
use zgent.Common.{
  ℕ, suc, ◌+◌, String, ◌≡◌, refl, ap, ◌∙◌, true, Option, none, some, List, [], ◌∷◌, ◌++◌, length,
  arith, is_some,
}
use mathlib.Core.List.{append-nil}
use zgent.Common.Dict.{get, get-put_self}
use zgent.Common.Exec.{ok, ◌>>=◌}
use zgent.Externals.{Externals}
use zgent.Jobs.Models.{JobStatus, JobEventType, JobEvent}
use zgent.Jobs.Events.{last_seq}
use zgent.Jobs.Events.Repair.{
  IsLineJson, lines, line, Leftover, load_events-leftover, repaired-leftover, lines-append,
}
use zgent.Jobs.Store.{component, job_files, set_job_files}
use zgent.Jobs.EventStore.{append_event, last_event_seq, append_payload, set_events, set_seq}
use zgent.World.{World, Bytes}

-- The events are numbered n, n + 1, and so on.
abbrev pub Numbered : ℕ → List JobEvent → Type 0
Numbered n [] = Unit
Numbered n (e ∷ es) = (e.seq ≡ n) × Numbered (suc n) es

last_seq-Numbered :
    (n : ℕ) (e : JobEvent) (es : List JobEvent)
    → Numbered n (e ∷ es)
    → last_seq (e ∷ es) ≡ n + length es
unfolding last_seq
last_seq-Numbered n e [] h = omega (arith, h.0)
last_seq-Numbered n e (f ∷ es) h = omega (arith, last_seq-Numbered (suc n) f es h.1)

last_seq-length : (es : List JobEvent) → Numbered 1 es → last_seq es ≡ length es
unfolding last_seq
last_seq-length [] h = refl
last_seq-length (e ∷ es) h = omega (arith, last_seq-Numbered 1 e es h)

Numbered-append :
    (n : ℕ) (es : List JobEvent) (e : JobEvent)
    → Numbered n es
    → e.seq ≡ n + length es
    → Numbered n (es ++ (e ∷ []))
Numbered-append n [] e h q = (omega (arith, q), tt)
Numbered-append n (f ∷ es) e h q = (h.0, Numbered-append (suc n) es e h.1 (omega (arith, q)))

module _ (x : Externals) (w : World) (j : String) where
  -- The event file of the job holds these bytes, and the job's directory is there.
  abbrev pub HasEvents : Bytes → Type 0
  HasEvents content =
      (component j ≡ ok tt)
      × (is_some (get w.jobs j) ≡ true)
      × ((job_files w j).events ≡ some content)

-- The state of a log between two appends of a running daemon.
pub record IsLog (x : Externals) (w : World) (j : String) (es : List JobEvent) : Type 0 where
  pub named : component j ≡ ok tt
  pub exists : is_some (get w.jobs j) ≡ true
  pub content : (job_files w j).events ≡ some (lines x.encode_event es)
  pub cached : get w.event_seq j ≡ some (last_seq es)
  pub numbered : Numbered 1 es

abbrev pub event_after :
    List JobEvent → JobEventType → String → Option String → JobStatus → ℕ → JobEvent
event_after es type j attempt status occurred = record {
  seq = last_seq es + 1;
  type = type;
  job_id = j;
  attempt_id = attempt;
  status = status;
  occurred_at = occurred;
}

job_files-set_events :
    (j : String) (b : Bytes) (w : World) → (job_files (set_events j b w) j).events ≡ some b
unfolding set_events job_files set_job_files
job_files-set_events j b w =
    ground (arith, get-put_self w.jobs j (record (job_files w j) { events = some b }))

exists-set_events :
    (j : String) (b : Bytes) (w : World) → is_some (get (set_events j b w).jobs j) ≡ true
unfolding set_events set_job_files
exists-set_events j b w =
    ground (arith, get-put_self w.jobs j (record (job_files w j) { events = some b }))

lines-snoc :
    (x : Externals) (es : List JobEvent) (e : JobEvent)
    → lines x.encode_event (es ++ (e ∷ [])) ≡ lines x.encode_event es ++ line x.encode_event e
lines-snoc x es e =
    lines-append x.encode_event es (e ∷ [])
    ∙ ap (λ (b : Bytes). lines x.encode_event es ++ b) (append-nil (line x.encode_event e))

last_seq-snoc : (es : List JobEvent) (e : JobEvent) → last_seq (es ++ (e ∷ [])) ≡ e.seq
unfolding last_seq
last_seq-snoc [] e = refl
last_seq-snoc (f ∷ []) e = refl
last_seq-snoc (f ∷ g ∷ es) e = last_seq-snoc (g ∷ es) e

module _ (x : Externals) (type : JobEventType) (j : String) (attempt : Option String)
    (status : JobStatus) (occurred : ℕ) where
  abbrev appended : World → List JobEvent → World
  appended w es = set_seq j (last_seq es + 1) (
      set_events j
        (lines x.encode_event es
          ++ line x.encode_event (event_after es type j attempt status occurred))
        w)

  abbrev repaired_world : World → List JobEvent → List JobEvent → World
  repaired_world w es l =
      set_seq j (last_seq (es ++ l)) (set_events j (lines x.encode_event (es ++ l)) w)

  append_event-run :
      {w : World} (es : List JobEvent)
      → IsLog x w j es
      → append_event x type j attempt status occurred w
        ≡ (ok (event_after es type j attempt status occurred), appended w es)
  unfolding append_event last_event_seq append_payload ◌>>=◌
  append_event-run {w} es h = rw h.cached (rw h.named (rw h.exists (rw h.content refl)))

  appended-IsLog :
      {w : World} (es : List JobEvent)
      → IsLog x w j es
      → IsLog x (appended w es) j (es ++ (event_after es type j attempt status occurred ∷ []))
  unfolding set_seq set_events set_job_files job_files
  appended-IsLog {w} es h = record {
    named = h.named;
    exists = exists-set_events j _ w;
    content =
        rw (lines-snoc x es new)
          (job_files-set_events j (lines x.encode_event es ++ line x.encode_event new) w);
    cached = rw (last_seq-snoc es new) (get-put_self w.event_seq j (last_seq es + 1));
    numbered = Numbered-append 1 es new h.numbered (omega (arith, last_seq-length es h.numbered));
  }
    where
      new : JobEvent
      new = event_after es type j attempt status occurred

  -- An append to the log of a running daemon returns the event with the next number and adds its
  -- line behind the others; the log stays numbered from 1 without a gap.
  pub append_event-IsLog :
      {w : World} (es : List JobEvent)
      → IsLog x w j es
      → ((append_event x type j attempt status occurred w).0
          ≡ ok (event_after es type j attempt status occurred))
        × IsLog x
            (append_event x type j attempt status occurred w).1
            j
            (es ++ (event_after es type j attempt status occurred ∷ []))
  append_event-IsLog {w} es h =
      (ap (λ r. r.0) (append_event-run es h), rw (append_event-run es h) (appended-IsLog es h))

  -- The first append after a restart reads the file and repairs it.
  restarted_seq :
      (w : World) (es : List JobEvent) {b : Bytes} {l : List JobEvent}
      (json : IsLineJson x.encode_event x.decode_event)
      → Leftover json b l
      → HasEvents x w j (lines x.encode_event es ++ b)
      → get w.event_seq j ≡ none
      → last_event_seq x j w ≡ (ok (last_seq (es ++ l)), repaired_world w es l)
  unfolding last_event_seq ◌>>=◌
  restarted_seq w es {b} json left h c = rw c (
      rw h.0 (rw h.2 (rw (load_events-leftover json es left, repaired-leftover json es left) refl)))

  known_seq : (w : World) (n : ℕ) → get w.event_seq j ≡ some n → last_event_seq x j w ≡ (ok n, w)
  unfolding last_event_seq ◌>>=◌
  known_seq w n c = rw c refl

  restarted-run :
      (w : World) (es : List JobEvent) {b : Bytes} {l : List JobEvent}
      (json : IsLineJson x.encode_event x.decode_event)
      → Leftover json b l
      → HasEvents x w j (lines x.encode_event es ++ b)
      → get w.event_seq j ≡ none
      → append_event x type j attempt status occurred w
        ≡ append_event x type j attempt status occurred (repaired_world w es l)
  unfolding append_event ◌>>=◌ set_seq set_job_files
  restarted-run w es {b} {l} json left h c =
      rw
        (
          restarted_seq w es json left h c,
          known_seq (repaired_world w es l) (last_seq (es ++ l))
              (get-put_self w.event_seq j (last_seq (es ++ l))),
        )
        refl

  repaired_world-IsLog :
      (w : World) (es : List JobEvent) (b : Bytes) (l : List JobEvent)
      → HasEvents x w j (lines x.encode_event es ++ b)
      → Numbered 1 (es ++ l)
      → IsLog x (repaired_world w es l) j (es ++ l)
  unfolding set_seq set_events set_job_files job_files
  repaired_world-IsLog w es b l h n = record {
    named = h.0;
    exists = exists-set_events j _ w;
    content = job_files-set_events j (lines x.encode_event (es ++ l)) w;
    cached = get-put_self w.event_seq j (last_seq (es ++ l));
    numbered = n;
  }

  -- The first append after a crash and a restart, whatever the crash left behind the complete
  -- lines: a torn line is dropped, an event that lacks only its newline is kept, the new event has
  -- the next number, and the file holds exactly these events, numbered from 1 without a gap.
  pub append_event-after_crash :
      (w : World) (es : List JobEvent) {b : Bytes} {l : List JobEvent}
      (json : IsLineJson x.encode_event x.decode_event)
      → Leftover json b l
      → HasEvents x w j (lines x.encode_event es ++ b)
      → get w.event_seq j ≡ none
      → Numbered 1 (es ++ l)
      → let e = event_after (es ++ l) type j attempt status occurred in
        let run = append_event x type j attempt status occurred w in
        (run.0 ≡ ok e) × IsLog x run.1 j ((es ++ l) ++ (e ∷ []))
  append_event-after_crash w es {b} {l} json left h c n =
      let done = append_event-IsLog (es ++ l) (repaired_world-IsLog w es b l h n) in
      rw (restarted-run w es json left h c) done
