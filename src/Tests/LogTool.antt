-- ===== src/Tests/LogTool.antt =====
-- A search of a small log by the tool.
use zgent.Common.{ℕ, ◌≡◌, refl, arith, true, some, none, [], ◌∷◌, length, String}
use zgent.Common.Exec.{ok}
use zgent.Incidents.LogTool.{
  search_file, search_rounds, ReadParams, LogMode, LogSlice, LogReadResult, read, log_reference,
  read_job_log,
}
use zgent.Incidents.LogTool.Search.{IsFirstMatch, search_file-first}
use zgent.Incidents.LogTool.Slices.{IsShown, ShowsMatch, read_job_log-IsShown, read_job_log-finds}
use zgent.Jobs.Models.{stderr}
use zgent.Tests.Data.{externals}
use zgent.World.{Bytes}

abbrev content : Bytes
content = 1 ∷ 2 ∷ 3 ∷ 2 ∷ 3 ∷ 4 ∷ []

abbrev query : Bytes
query = 2 ∷ 3 ∷ []

-- In chunks of two bytes, a match that lies across a border is found.
across_border : search_rounds 7 2 query [] 2 (3 ∷ 2 ∷ 3 ∷ 4 ∷ []) ≡ some 3
unfolding search_rounds zgent.Common.Find.find zgent.Common.Text.has_prefix
across_border = refl

search_file-first_example : IsFirstMatch content 2 query (search_file (some content) 2 query)
search_file-first_example = search_file-first content 2 query (omega arith)

abbrev parameters : ReadParams
parameters = record {
  stream = stderr;
  mode = LogMode.search;
  offset = 2;
  limit = 4;
  query = some query;
}

abbrev slice : LogSlice
slice = record { start = 2; end = 6; content = "text" }

abbrev result : LogReadResult
result = record {
  size = 6;
  match_offset = some 3;
  slice = some slice;
  reference = some (log_reference stderr "job-1" "attempt-0001" 2 6);
}

searched :
    read_job_log externals (some content) parameters "job-1" "attempt-0001" []
    ≡ ok (read result, log_reference stderr "job-1" "attempt-0001" 2 6 ∷ [])
unfolding read_job_log zgent.Incidents.LogTool.add_reference search_file
    zgent.Incidents.LogTool.read_slice zgent.Incidents.LogTool.match_start zgent.Common.Find.find
    zgent.Common.Text.has_prefix
searched = refl

read_job_log-IsShown_example :
    IsShown externals content parameters "job-1" "attempt-0001"
      (log_reference stderr "job-1" "attempt-0001" 2 6 ∷ [])
      result
      slice
read_job_log-IsShown_example =
    read_job_log-IsShown externals content parameters "job-1" "attempt-0001" [] result
      (log_reference stderr "job-1" "attempt-0001" 2 6 ∷ []) searched slice refl

read_job_log-finds_example :
    IsFirstMatch content 2 query (some 3)
    × ((found : ℕ)
        → some 3 ≡ some found
        → ShowsMatch externals content parameters "job-1" "attempt-0001" [] query result found)
read_job_log-finds_example =
    read_job_log-finds externals content parameters "job-1" "attempt-0001" [] query result
      (log_reference stderr "job-1" "attempt-0001" 2 6 ∷ []) refl refl (omega arith) (omega arith)
      (omega arith) searched
