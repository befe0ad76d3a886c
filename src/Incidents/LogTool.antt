-- ===== src/Incidents/LogTool.antt =====
-- The tool that reads a training log (cyan/training/incidents/log_tool.py): _search_file,
-- FileJobLogReader and ReadJobLogTool. A log is its bytes, or absent.
pub mod Search
pub mod Slices
use Prim.Native.String.{◌++◌ as str_append}
use mathlib.Core.Option
use zgent.Common.{
  ℕ, zero, suc, ◌+◌, ◌-◌, ◌*◌, ◌/◌, min, max, String, str_eq, Bool, true, false, Option, none, some,
  List, [], ◌∷◌, ◌++◌, length, take, drop, any, if◌then◌else◌,
}
use zgent.Common.Decimal.{decimal}
use zgent.Common.Exec.{Error, file_not_found, Result, ok, err}
use zgent.Common.Find.{find}
use zgent.Externals.{Externals}
use zgent.Jobs.Models.{LogStream, stdout, stderr}
use zgent.World.{Bytes}

-- _MAX_RESULT_BYTES
abbrev pub max_result_bytes : ℕ
max_result_bytes = 32 * 1024

-- _SEARCH_CHUNK_BYTES
abbrev pub search_chunk_bytes : ℕ
search_chunk_bytes = 64 * 1024

-- The loop of _search_file, by the bytes that are not read yet: a round reads a chunk and looks
-- for the query in it, behind the last bytes of the round before. `none` also stands for no fuel.
unfoldable pub search_rounds : (fuel chunk : ℕ) → Bytes → (overlap : Bytes) → ℕ → Bytes → Option ℕ
search_rounds zero chunk query overlap position unread = none
search_rounds (suc fuel) chunk query overlap position [] = none
search_rounds (suc fuel) chunk query overlap position (c ∷ cs) =
    let raw = take chunk (c ∷ cs) in
    let window = overlap ++ raw in
    let kept = drop (length window - (length query - 1)) window in
    elim (find query window) [
      | some found ↦ some (position - length overlap + found)
      | none ↦ search_rounds fuel chunk query kept (position + length raw) (drop chunk (c ∷ cs))
    ]

-- _search_file: each round reads a byte at least, so the length of the log is fuel enough
unfoldable pub search_file : Option Bytes → ℕ → Bytes → Option ℕ
unfolding search_rounds
search_file none offset query = none
search_file (some content) offset query =
    let position = min offset (length content) in
    search_rounds (suc (length content)) search_chunk_bytes query [] position
      (drop position content)

pub data LogMode : Type 0 where
  tail range search : LogMode

-- ReadJobLogParams, with the query as its bytes
pub record ReadParams : Type 0 where
  pub stream : LogStream
  pub mode : LogMode
  pub offset : ℕ
  pub limit : ℕ
  pub query : Option Bytes

-- LogSlice
pub record LogSlice : Type 0 where
  pub start : ℕ
  pub end : ℕ
  pub content : String

-- LogReadResult, without the words that it copies from its parameters
pub record LogReadResult : Type 0 where
  pub size : ℕ
  pub match_offset : Option ℕ
  pub slice : Option LogSlice
  pub reference : Option String

-- ToolResult.content of a success, or the error of a missing query
pub data ReadAnswer : Type 0 where
  read : LogReadResult → ReadAnswer
  query_required : ReadAnswer

-- FileJobLogReader.size and read
reader_size : Option Bytes → Result ℕ
reader_size none = err file_not_found
reader_size (some content) = ok (length content)

reader_read : Bytes → ℕ → ℕ → Bytes
reader_read content offset limit = take limit (drop offset content)

stream_name : LogStream → String
stream_name stdout = "stdout"
stream_name stderr = "stderr"

-- f"{stream}:{job_id}/{attempt_id}@bytes:{start}-{end}"
unfoldable pub log_reference : LogStream → (job_id attempt_id : String) → (start end : ℕ) → String
unfolding stream_name
log_reference stream j a start end = str_append (stream_name stream) (
    str_append ":" (
      str_append j (
        str_append "/" (
          str_append a
            (str_append "@bytes:" (str_append (decimal start) (str_append "-" (decimal end))))))))

-- set.add
unfoldable pub add_reference : List String → Option String → List String
add_reference refs none = refs
add_reference refs (some r) = if any (λ s. str_eq s r) refs then refs else r ∷ refs

-- The start of the slice around a match.
unfoldable pub match_start : (size offset limit found : ℕ) → ℕ
match_start size offset limit found = min (max offset (found - limit / 2)) (size - limit)

noted : List String → ReadAnswer → List String
noted refs query_required = refs
noted refs (read r) = add_reference refs r.reference

module _ (x : Externals) where
  -- ReadJobLogTool._read_slice
  unfoldable pub read_slice : Bytes → ℕ → ℕ → LogSlice
  unfolding reader_read
  read_slice content start limit =
      let bound = min limit max_result_bytes in
      let raw = take bound (reader_read content start bound) in
      record { start = start; end = start + length raw; content = x.decode_text raw }

  slice_at : Bytes → ReadParams → Option ℕ → Option LogSlice
  unfolding match_start
  slice_at content p none = none
  slice_at content p (some found) =
      some (read_slice content (match_start (length content) p.offset p.limit found) p.limit)

  answer :
      Bytes → ReadParams → (job_id attempt_id : String) → Option ℕ → Option LogSlice → ReadAnswer
  answer content p j a found slice = read (record {
    size = length content;
    match_offset = found;
    slice = slice;
    reference = Option.map (λ (s : LogSlice). log_reference p.stream j a s.start s.end) slice;
  })

  searched : Bytes → ReadParams → (job_id attempt_id : String) → Option Bytes → ReadAnswer
  unfolding answer slice_at
  searched content p j a none = query_required
  searched content p j a (some query) =
      let found = search_file (some content) p.offset query in
      answer content p j a found (slice_at content p found)

  by_mode : Bytes → ReadParams → (job_id attempt_id : String) → LogMode → ReadAnswer
  unfolding searched
  by_mode content p j a tail =
      answer content p j a none (some (read_slice content (length content - p.limit) p.limit))
  by_mode content p j a range =
      answer content p j a none (some (read_slice content (min p.offset (length content)) p.limit))
  by_mode content p j a search = searched content p j a p.query

  -- ReadJobLogTool.invoke at validated parameters, with the registered references
  unfoldable pub read_job_log :
      Option Bytes
      → ReadParams
      → (job_id attempt_id : String) → List String
      → Result (ReadAnswer × List String)
  unfolding by_mode noted
  read_job_log none p j a refs = err file_not_found
  read_job_log (some content) p j a refs =
      let result = by_mode content p j a p.mode in ok (result, noted refs result)
