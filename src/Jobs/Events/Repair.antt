-- ===== src/Jobs/Events/Repair.antt =====
-- The event file as the lines of its events, with or without what a crash left at its end.
use zgent.Common.{
  ℕ, true, false, ◌≡◌, ◌≢◌, refl, sym, ap, ◌∙◌, Option, none, some, List, [], ◌∷◌, ◌++◌, All, arith,
}
use mathlib.Core.List.{append_assoc}
use zgent.Jobs.Models.{JobEvent}
use zgent.World.{Bytes}
use zgent.Jobs.Events.{
  newline, rows, ends_line, terminated, load_rows, repair_rows, load_events, repaired,
}

abbrev pub HasNoNewline : Bytes → Type 0
HasNoNewline = All (λ c. c ≢ newline)

rows-line :
    (b rest : Bytes)
    → HasNoNewline b
    → rows (b ++ (newline ∷ rest)) ≡ (b ++ (newline ∷ [])) ∷ rows rest
unfolding rows
rows-line [] rest h = refl
rows-line (c ∷ b) rest h = ground (arith, rows-line b rest h.1, h.0)

-- A last row without its newline.
rows-tail : (c : ℕ) (b : Bytes) → HasNoNewline (c ∷ b) → rows (c ∷ b) ≡ (c ∷ b) ∷ []
unfolding rows
rows-tail c [] h = ground (arith, h.0)
rows-tail c (d ∷ b) h = ground (arith, h.0, rows-tail d b h.1)

ends_line-append : (b : Bytes) → ends_line (b ++ (newline ∷ [])) ≡ true
unfolding ends_line
ends_line-append [] = refl
ends_line-append (c ∷ []) = refl
ends_line-append (c ∷ d ∷ b) = ends_line-append (d ∷ b)

ends_line-none : (b : Bytes) → HasNoNewline b → ends_line b ≡ false
unfolding ends_line
ends_line-none [] h = refl
ends_line-none (c ∷ []) h = ground (arith, h.0)
ends_line-none (c ∷ d ∷ b) h = ends_line-none (d ∷ b) h.1

-- What the JSON of an event is known to satisfy: it reads back, with or without the newline
-- behind it, and holds no newline.
pub record IsLineJson (encode : JobEvent → Bytes) (decode : Bytes → Option JobEvent) : Type 0 where
  pub reads_line : (e : JobEvent) → decode (encode e ++ (newline ∷ [])) ≡ some e
  pub reads_bare : (e : JobEvent) → decode (encode e) ≡ some e
  pub one_line : (e : JobEvent) → HasNoNewline (encode e)

module _ (encode : JobEvent → Bytes) where
  abbrev pub line : JobEvent → Bytes
  line e = encode e ++ (newline ∷ [])

  -- The file that holds these events and nothing else.
  abbrev pub lines : List JobEvent → Bytes
  lines [] = []
  lines (e ∷ es) = line e ++ lines es

pub lines-append :
    (encode : JobEvent → Bytes) (es l : List JobEvent)
    → lines encode (es ++ l) ≡ lines encode es ++ lines encode l
lines-append encode [] l = refl
lines-append encode (e ∷ es) l =
    rw (lines-append encode es l)
      (sym (append_assoc (line encode e) (lines encode es) (lines encode l)))

terminated-line : (b : Bytes) → terminated (b ++ (newline ∷ [])) ≡ b ++ (newline ∷ [])
unfolding terminated
terminated-line b = rw (ends_line-append b)

terminated-bare : (b : Bytes) → HasNoNewline b → terminated b ≡ b ++ (newline ∷ [])
unfolding terminated
terminated-bare b h = rw (ends_line-none b h)

module _ {encode : JobEvent → Bytes} {decode : Bytes → Option JobEvent}
    (json : IsLineJson encode decode) where
  rows-lines :
      (e : JobEvent) (rest : Bytes) → rows (line encode e ++ rest) ≡ line encode e ∷ rows rest
  rows-lines e rest =
      rw (append_assoc (encode e) (newline ∷ []) rest) (rows-line (encode e) rest (json.one_line e))

  load_rows-lines :
      (es : List JobEvent) (rest : Bytes)
      → load_rows decode (rows (lines encode es ++ rest)) ≡ es ++ load_rows decode (rows rest)
  unfolding load_rows
  load_rows-lines [] rest = refl
  load_rows-lines (e ∷ es) rest =
      rw
        (
          append_assoc (line encode e) (lines encode es) rest,
          rows-lines e (lines encode es ++ rest),
        )
        (rw (json.reads_line e, load_rows)
          (ap (λ (l : List JobEvent). e ∷ l) (load_rows-lines es rest)))

  repair_rows-lines :
      (es : List JobEvent) (rest : Bytes)
      → repair_rows decode (rows (lines encode es ++ rest))
        ≡ lines encode es ++ repair_rows decode (rows rest)
  unfolding repair_rows
  repair_rows-lines [] rest = refl
  repair_rows-lines (e ∷ es) rest =
      rw
        (
          append_assoc (line encode e) (lines encode es) rest,
          rows-lines e (lines encode es ++ rest),
        )
        (rw (json.reads_line e, repair_rows)
          (rw
            (
              terminated-line (encode e),
              append_assoc (line encode e) (lines encode es) (repair_rows decode (rows rest)),
            )
            (ap (λ (b : Bytes). line encode e ++ b) (repair_rows-lines es rest))))

  -- What a crash can leave behind the last complete line: nothing, a part of an event's JSON that
  -- does not read back, or an event's JSON without its newline.
  pub data Leftover : Bytes → List JobEvent → Type 0 where
    nothing : Leftover [] []
    torn : (c : ℕ) (b : Bytes) → HasNoNewline (c ∷ b) → decode (c ∷ b) ≡ none → Leftover (c ∷ b) []
    unended : (e : JobEvent) → encode e ≢ [] → Leftover (encode e) (e ∷ [])

  unended_rows : (e : JobEvent) → encode e ≢ [] → rows (encode e) ≡ encode e ∷ []
  unended_rows e n = go (encode e) n (json.one_line e)
    where
      go : (b : Bytes) → b ≢ [] → HasNoNewline b → rows b ≡ b ∷ []
      go [] n h = absurd (n refl)
      go (c ∷ b) n h = rows-tail c b h

  load-leftover : {b : Bytes} {l : List JobEvent} → Leftover b l → load_rows decode (rows b) ≡ l
  unfolding load_rows rows
  load-leftover nothing = refl
  load-leftover (torn c b h d) = rw (rows-tail c b h) (rw (d, load_rows) refl)
  load-leftover (unended e n) = rw (unended_rows e n) (rw (json.reads_bare e, load_rows) refl)

  repair-leftover :
      {b : Bytes} {l : List JobEvent} → Leftover b l → repair_rows decode (rows b) ≡ lines encode l
  unfolding repair_rows rows
  repair-leftover nothing = refl
  repair-leftover (torn c b h d) = rw (rows-tail c b h) (rw (d, repair_rows) refl)
  repair-leftover (unended e n) =
      rw (unended_rows e n) (
        rw (json.reads_bare e, repair_rows)
          (rw (terminated-bare (encode e) (json.one_line e)) refl))

  -- A load of a file that holds the lines of some events and what a crash can leave behind them
  -- reads those events and the one whose newline alone is missing, where the JSON of an event
  -- reads back and holds no newline.
  pub load_events-leftover :
      (es : List JobEvent) {b : Bytes} {l : List JobEvent}
      → Leftover b l
      → load_events decode (lines encode es ++ b) ≡ es ++ l
  unfolding load_events
  load_events-leftover es {b} x =
      load_rows-lines es b ∙ ap (λ (r : List JobEvent). es ++ r) (load-leftover x)

  -- A repairing load of a file that holds the lines of some events and what a crash can leave
  -- behind them leaves exactly the lines of the events that it reads, where the JSON of an event
  -- reads back and holds no newline.
  pub repaired-leftover :
      (es : List JobEvent) {b : Bytes} {l : List JobEvent}
      → Leftover b l
      → repaired decode (lines encode es ++ b) ≡ lines encode (es ++ l)
  unfolding repaired
  repaired-leftover es {b} {l} x =
      repair_rows-lines es b
      ∙ ap (λ (r : Bytes). lines encode es ++ r) (repair-leftover x)
      ∙ sym (lines-append encode es l)
