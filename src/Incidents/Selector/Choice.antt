-- ===== src/Incidents/Selector/Choice.antt =====
-- The choice among the candidates within a budget (cyan/training/incidents/selector.py): _render
-- and select_evidence. A text is its UTF-8 bytes.
use zgent.Common.{
  ℕ, zero, suc, ◌+◌, ◌-◌, max, min, String, Bool, true, false, ◌&&◌, ◌||◌, Option, none, some, List,
  [], ◌∷◌, ◌++◌, map, length, take, drop, any, ltb, leb, ◌==◌, if◌then◌else◌,
}
use zgent.Common.Exec.{value_error, Result, ok, err}
use zgent.Incidents.Evidence.{content_of}
use zgent.Incidents.LogTool.{log_reference}
use zgent.Incidents.Selector.{Kind, Candidate, candidate, scan}
use zgent.Jobs.Models.{LogStream, stdout, stderr, FailureCapsule}
use zgent.World.{Bytes}

-- What the choice takes from libraries: str.encode("utf-8"), hashlib's hexdigest, the header that
-- json.dumps prints for a source, a reference and a description, and the UTF-8 of what
-- bytes.decode("utf-8", errors="replace") returns.
pub record Rendering : Type 0 where
  pub encode : String → Bytes
  pub sha256 : Bytes → String
  pub header : LogStream → (reference description : String) → Bytes
  pub replaced : Bytes → Bytes

-- EvidenceReference
pub record EvidenceReference : Type 0 where
  pub source : LogStream
  pub start : ℕ
  pub end : ℕ
  pub kind : Kind
  pub selection_reason : String
  pub sha256 : String

-- EvidenceSelection
pub record EvidenceSelection : Type 0 where
  pub content : Bytes
  pub references : List EvidenceReference
  pub scanned_bytes : ℕ
  pub selected_bytes : ℕ
  pub duplicates_removed : ℕ
  pub stdout_sha256 : String
  pub stderr_sha256 : String

-- "\n".join
unfoldable pub join_lines : List Bytes → Bytes
join_lines [] = []
join_lines (b ∷ []) = b
join_lines (b ∷ c ∷ bs) = b ++ (10 ∷ join_lines (c ∷ bs))

same_bytes : Bytes → Bytes → Bool
same_bytes [] [] = true
same_bytes (a ∷ s) (b ∷ t) = a == b && same_bytes s t
same_bytes _ _ = false

-- content in seen
unfoldable pub is_seen : Bytes → List Bytes → Bool
unfolding same_bytes
is_seen content seen = any (same_bytes content) seen

is_earlier_source : LogStream → LogStream → Bool
is_earlier_source stderr stdout = true
is_earlier_source _ _ = false

same_source : LogStream → LogStream → Bool
same_source stdout stdout = true
same_source stderr stderr = true
same_source _ _ = false

unfoldable pub is_traceback : Kind → Bool
is_traceback Kind.traceback = true
is_traceback _ = false

is_exception : Kind → Bool
is_exception Kind.traceback_exception = true
is_exception _ = false

unfoldable pub is_tail : Kind → Bool
is_tail Kind.tail = true
is_tail _ = false

-- The order of the keys (priority, -start, source).
unfoldable pub is_before : Candidate → Candidate → Bool
unfolding is_earlier_source
is_before a b =
    ltb a.priority b.priority
    || a.priority == b.priority
      && (ltb b.start a.start || a.start == b.start && is_earlier_source a.source b.source)

-- sorted: stable, so an item goes before its equals
unfoldable pub insert : Candidate → List Candidate → List Candidate
insert a [] = a ∷ []
insert a (b ∷ l) = if is_before b a then b ∷ insert a l else a ∷ b ∷ l

unfoldable pub sorted : List Candidate → List Candidate
sorted [] = []
sorted (a ∷ l) = insert a (sorted l)

-- The local variables of select_evidence.
pub record Chosen : Type 0 where
  pub selected : List Candidate
  pub rendered : List Bytes
  pub seen : List Bytes
  pub selected_size : ℕ
  pub duplicates : ℕ

-- A round of the loop ends by going on to the next candidate, or by leaving the loop.
pub data Round : Type 0 where
  goes stops : Chosen → Round

-- What is left of a content, with where it starts: a tail keeps its end, all else its front.
unfoldable pub trimmed : Kind → (remove start : ℕ) → Bytes → ℕ × Bytes
trimmed kind remove start content =
    if is_tail kind
    then (start + remove, drop remove content)
    else (start, take (length content - remove) content)

-- The rest of the loop, unless it is left.
unfoldable pub follow : (Chosen → Chosen) → Round → Chosen
follow rest (goes s) = rest s
follow rest (stops s) = s

module _ (x : Rendering) (capsule : FailureCapsule) where
  -- _render
  unfoldable pub render : LogStream → String → ℕ → Bytes → Bytes
  render source reason start content =
      x.header source
        (log_reference source capsule.job_id capsule.attempt_id start (start + length content))
        reason
      ++ (10 ∷ x.replaced content)

  -- The loop that shortens the content of a candidate; a round removes a byte at least, so the length
  -- of the content is fuel enough.
  unfoldable pub shorten :
      (fuel : ℕ) → Candidate → (rendered : List Bytes) → (available : ℕ) → ℕ → Bytes → ℕ × Bytes
  shorten zero c rendered available start content = (start, content)
  shorten (suc fuel) c rendered available start [] = (start, [])
  shorten (suc fuel) c rendered available start (b ∷ bs) =
      let size = length (join_lines (rendered ++ (render c.source c.reason start (b ∷ bs) ∷ []))) in
      let rest = trimmed c.kind (min (length (b ∷ bs)) (max 1 (size - available))) start (b ∷ bs) in
      elim (leb size available) [
        | true ↦ (start, b ∷ bs)
        | false ↦ shorten fuel c rendered available rest.0 rest.1
      ]

  exception_of : LogStream → List Candidate → Option Candidate
  unfolding is_exception same_source
  exception_of source [] = none
  exception_of source (c ∷ l) =
      let rest = exception_of source l in
      if is_exception c.kind && same_source c.source source then some c else rest

  reserved_for : List Bytes → Option Candidate → ℕ
  reserved_for seen none = 0
  reserved_for seen (some c) =
      if is_seen c.content seen then 0 else length (render c.source c.reason c.start c.content) + 1

  -- What a traceback leaves free for its last line.
  unfoldable pub reserved : List Candidate → List Bytes → Candidate → ℕ
  unfolding exception_of reserved_for
  reserved candidates seen c =
      if is_traceback c.kind then reserved_for seen (exception_of c.source candidates) else 0

  unfoldable pub passed_over : Candidate → Chosen → Round
  passed_over c s = if is_traceback c.kind then goes s else stops s

  unfoldable pub taken : Candidate → Chosen → ℕ × Bytes → Round
  taken c s (start, []) = passed_over c s
  taken c s (start, b ∷ bs) = goes (record {
    selected = s.selected ++ (candidate c.source start c.kind c.reason (b ∷ bs) c.priority ∷ []);
    rendered = s.rendered ++ (render c.source c.reason start (b ∷ bs) ∷ []);
    seen = c.content ∷ s.seen;
    selected_size = s.selected_size + length (b ∷ bs);
    duplicates = s.duplicates;
  })

  -- A round of the loop of select_evidence.
  unfoldable pub consider : (max_bytes : ℕ) → List Candidate → Candidate → Chosen → Round
  consider max_bytes candidates c s =
      let available = max_bytes - reserved candidates s.seen c in
      if is_seen c.content s.seen
      then goes (record s { duplicates = s.duplicates + 1 })
      else if leb available (length (join_lines s.rendered))
      then passed_over c s
      else taken c s (shorten (length c.content) c s.rendered available c.start c.content)

  unfoldable pub choose : (max_bytes : ℕ) → List Candidate → List Candidate → Chosen → Chosen
  choose max_bytes candidates [] s = s
  choose max_bytes candidates (c ∷ l) s =
      follow (choose max_bytes candidates l) (consider max_bytes candidates c s)

  sha_of : LogStream → (stdout_sha stderr_sha : String) → String
  sha_of stdout out_sha error_sha = out_sha
  sha_of stderr out_sha error_sha = error_sha

  unfoldable pub reference_of : (stdout_sha stderr_sha : String) → Candidate → EvidenceReference
  unfolding sha_of
  reference_of out_sha error_sha c = record {
    source = c.source;
    start = c.start;
    end = c.end;
    kind = c.kind;
    selection_reason = c.reason;
    sha256 = sha_of c.source out_sha error_sha;
  }

  abbrev pub nothing_chosen : Chosen
  nothing_chosen = record {
    selected = [];
    rendered = [];
    seen = [];
    selected_size = 0;
    duplicates = 0;
  }

  unfoldable pub chosen : (max_bytes : ℕ) → (out_log error_log : Option Bytes) → Chosen
  chosen max_bytes out_log error_log =
      let workspace = x.encode capsule.cwd in
      let candidates =
        sorted ((scan stderr workspace error_log).0 ++ (scan stdout workspace out_log).0) in
      choose max_bytes candidates candidates nothing_chosen

  unfoldable pub selection : Chosen → (out_log error_log : Option Bytes) → EvidenceSelection
  selection s out_log error_log =
      let workspace = x.encode capsule.cwd in
      let out_sha = x.sha256 (content_of out_log) in
      let error_sha = x.sha256 (content_of error_log) in
      record {
        content = join_lines s.rendered;
        references = map (reference_of out_sha error_sha) s.selected;
        scanned_bytes = (scan stdout workspace out_log).1 + (scan stderr workspace error_log).1;
        selected_bytes = s.selected_size;
        duplicates_removed = s.duplicates;
        stdout_sha256 = out_sha;
        stderr_sha256 = error_sha;
      }

  -- select_evidence
  unfoldable pub select_evidence : (out_log error_log : Option Bytes) → ℕ → Result EvidenceSelection
  select_evidence out_log error_log max_bytes =
      if max_bytes == 0
      then err value_error
      else ok (selection (chosen max_bytes out_log error_log) out_log error_log)
