-- ===== src/Jobs/Events.antt =====
-- The event file of a job, events.jsonl (JobStore._load_events, _last_event_seq, append_event):
-- one JSON object a line. What a crash leaves at the end is cut off before the next append.
pub mod Repair
use zgent.Common.{
  ℕ, zero, suc, ◌+◌, String, Bool, true, false, Option, none, some, List, [], ◌∷◌, ◌++◌, ◌==◌,
  if◌then◌else◌,
}
use zgent.Jobs.Models.{JobEvent}
use zgent.World.{Bytes}

-- "\n"
abbrev pub newline : ℕ
newline = 10

onto : ℕ → List Bytes → List Bytes
onto c [] = (c ∷ []) ∷ []
onto c (row ∷ rows) = (c ∷ row) ∷ rows

-- What readline() returns until the end of the file: each row keeps its newline.
unfoldable pub rows : Bytes → List Bytes
unfolding onto
rows [] = []
rows (c ∷ cs) = if c == newline then (c ∷ []) ∷ rows cs else onto c (rows cs)

-- raw.endswith(b"\n")
unfoldable pub ends_line : Bytes → Bool
ends_line [] = false
ends_line (c ∷ []) = c == newline
ends_line (c ∷ d ∷ cs) = ends_line (d ∷ cs)

unfoldable pub terminated : Bytes → Bytes
unfolding ends_line
terminated row = if ends_line row then row else row ++ (newline ∷ [])

module _ (decode : Bytes → Option JobEvent) where
  -- The events before the first row that is none.
  unfoldable pub load_rows : List Bytes → List JobEvent
  load_rows [] = []
  load_rows (row ∷ rest) = elim (decode row) [ none ↦ [] | some e ↦ e ∷ load_rows rest ]

  -- What a load with repair_tail leaves in the file: the rows before the first malformed one, the
  -- last of them with its newline.
  unfoldable pub repair_rows : List Bytes → Bytes
  unfolding terminated
  repair_rows [] = []
  repair_rows (row ∷ rest) = elim (decode row) [
    | none ↦ []
    | some e ↦ terminated row ++ repair_rows rest
  ]

  -- _load_events(repair_tail=False)
  unfoldable pub load_events : Bytes → List JobEvent
  unfolding rows load_rows
  load_events content = load_rows (rows content)

  -- The file after _load_events(repair_tail=True)
  unfoldable pub repaired : Bytes → Bytes
  unfolding rows repair_rows
  repaired content = repair_rows (rows content)

-- events[-1].seq if events else 0
unfoldable pub last_seq : List JobEvent → ℕ
last_seq [] = 0
last_seq (e ∷ []) = e.seq
last_seq (e ∷ f ∷ es) = last_seq (f ∷ es)
