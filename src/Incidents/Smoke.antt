-- ===== src/Incidents/Smoke.antt =====
-- The smoke verifier (cyan/training/incidents/smoke.py) and the evidence of a failed smoke run
-- (evidence.py, _smoke_block and select_smoke_evidence).
pub mod Fits
use Prim.Native.String.{◌++◌ as str_append}
use zgent.Common.{
  ℕ, zero, suc, ◌+◌, ◌-◌, ◌*◌, min, max, String, Option, none, some, List, [], ◌∷◌, ◌++◌, length,
  take, drop, leb, ◌==◌, if◌then◌else◌,
}
use zgent.Common.Decimal.{decimal}
use zgent.Common.Dict.{put}
use zgent.Common.Exec.{Error, Result, ok, err, ◌>>◌, pure, modify}
use zgent.Common.Int.{ℤ, pos, negsuc}
use zgent.Externals.{Externals}
use zgent.Incidents.Models.{SmokeStatus, SmokeResult, SmokeVerifierConfig, EvidenceSource}
use zgent.World.{Bytes, World, M, incident_files, set_incident_files}

-- smoke_verifier_fingerprint
unfoldable pub smoke_verifier_fingerprint : Externals → SmokeVerifierConfig → String
smoke_verifier_fingerprint x config = x.sha256 (x.encode_config config)

-- How the process of a smoke run ends.
pub data SmokeExit : Type 0 where
  exited : ℤ → (elapsed_ms : ℕ) → SmokeExit
  over_time : (elapsed_ms : ℕ) → SmokeExit
  broke : Error → SmokeExit

-- What the system does with a smoke run: its identity is read in time or not, and what it writes.
pub record SmokeProcess : Type 0 where
  pub pid : ℕ
  pub identity : Option String
  pub out : Bytes
  pub errors : Bytes
  pub exit : SmokeExit

exit_status : ℤ → SmokeStatus
exit_status (pos n) = elim n [ zero ↦ SmokeStatus.passed | suc m ↦ SmokeStatus.failed ]
exit_status (negsuc n) = SmokeStatus.failed

result_of : String → String → SmokeExit → Result SmokeResult
unfolding exit_status
result_of out_path error_path (broke e) = err e
result_of out_path error_path (over_time t) = ok (record {
  status = SmokeStatus.timed_out;
  returncode = none;
  elapsed_ms = t;
  stdout_path = out_path;
  stderr_path = error_path;
})
result_of out_path error_path (exited code t) = ok (record {
  status = exit_status code;
  returncode = some code;
  elapsed_ms = t;
  stdout_path = out_path;
  stderr_path = error_path;
})

unfoldable pub announce : (ℕ → String → M (Unit {0})) → ℕ → Option String → M (Unit {0})
announce on_started pid none = pure tt
announce on_started pid (some identity) = on_started pid identity

unfoldable pub store_logs : String → String → String → Bytes → Bytes → World → World
store_logs j k p out errors w =
    let fs = incident_files w j k in
    set_incident_files w j k (record fs {
      smoke = put fs.smoke p (record { out_log = some out; error_log = some errors });
    })

-- SubprocessSmokeExecutor.run: the callback first, if the identity of the process was read
unfoldable pub run_executor :
    SmokeProcess
    → (job incident proposal out_path error_path : String) → (ℕ → String → M (Unit {0}))
    → M SmokeResult
unfolding announce store_logs result_of
run_executor process j k p out_path error_path on_started = do
  announce on_started process.pid process.identity
  modify (store_logs j k p process.out process.errors)
  λ w. (result_of out_path error_path process.exit, w)

-- SmokeEvidenceBlock
pub record SmokeBlock : Type 0 where
  pub source : EvidenceSource
  pub reference : String
  pub sha256 : String
  pub start : ℕ
  pub end : ℕ
  pub byte_length : ℕ
  pub content : String

-- f"{source}:smoke-{incident_id}/{proposal_id}@bytes:{start}-{size}"
smoke_reference : String → String → String → ℕ → ℕ → String
smoke_reference source k p start size = str_append source (
    str_append ":smoke-" (
      str_append k (
        str_append "/" (
          str_append p
            (str_append "@bytes:" (str_append (decimal start) (str_append "-" (decimal size))))))))

-- SmokeEvidenceSelection
pub record SmokeSelection : Type 0 where
  pub blocks : List SmokeBlock
  pub stdout_sha256 : String
  pub stderr_sha256 : String

abbrev pub smoke_evidence_bytes : ℕ
smoke_evidence_bytes = 16 * 1024

source_name : EvidenceSource → String
source_name EvidenceSource.stdout = "stdout"
source_name EvidenceSource.stderr = "stderr"
source_name EvidenceSource.workspace = "workspace"

content_of : Option Bytes → Bytes
content_of none = []
content_of (some b) = b

-- `header` gives the size of the JSON header of a block, by its source and reference.
module _ (x : Externals) (header : EvidenceSource → String → ℕ) where
  -- The loop of _smoke_block: a round that does not fit drops bytes from the front. Each round
  -- drops one byte at least, so the length of the tail is fuel enough.
  fit : ℕ → EvidenceSource → String → String → Bytes → ℕ → Bytes → Option SmokeBlock
  unfolding smoke_reference source_name
  fit zero source k p whole budget raw = none
  fit (suc fuel) source k p whole budget [] = none
  fit (suc fuel) source k p whole budget (c ∷ cs) =
      let raw = let b : Bytes = c ∷ cs in b in
      let size = length whole in
      let start = size - length raw in
      let reference = smoke_reference (source_name source) k p start size in
      let encoded = header source reference + 1 + length raw in
      let again = fit fuel source k p whole budget (drop (max 1 (encoded - budget)) raw) in
      if leb encoded budget
      then some (record {
        source = source;
        reference = reference;
        sha256 = x.sha256 whole;
        start = start;
        end = size;
        byte_length = length raw;
        content = x.decode_text raw;
      })
      else again

  -- _smoke_block
  smoke_block : EvidenceSource → String → String → Option Bytes → ℕ → Option SmokeBlock
  unfolding fit
  smoke_block source k p none budget = none
  smoke_block source k p (some whole) budget =
      let size = length whole in
      let tail = take (min size budget) (drop (size - min size budget) whole) in
      if budget == 0
      then none
      else if size == 0
      then none
      else fit (suc (length tail)) source k p whole budget tail

  -- The size of a rendered block; the text of a block encodes back to `text_size` bytes.
  rendered_size : (String → ℕ) → SmokeBlock → ℕ
  rendered_size text_size b = header b.source b.reference + 1 + text_size b.content

  as_list : Option SmokeBlock → List SmokeBlock
  as_list none = []
  as_list (some b) = b ∷ []

  left_after : (String → ℕ) → ℕ → Option SmokeBlock → ℕ × ℕ
  unfolding rendered_size
  left_after text_size budget none = (budget, 0)
  left_after text_size budget (some b) = (budget - rendered_size text_size b, 1)

  -- select_smoke_evidence: stderr first; a second block also pays for the separator. The code refuses
  -- a budget that is not positive; its callers take the default, which is.
  unfoldable pub select_smoke_evidence :
      (String → ℕ) → Option Bytes → Option Bytes → String → String → ℕ → SmokeSelection
  unfolding smoke_block as_list left_after content_of
  select_smoke_evidence text_size out_log error_log k p max_bytes =
      let first = smoke_block EvidenceSource.stderr k p error_log max_bytes in
      let (remaining, separator) = left_after text_size max_bytes first in
      let second = smoke_block EvidenceSource.stdout k p out_log (remaining - separator) in
      record {
        blocks = as_list first ++ as_list second;
        stdout_sha256 = x.sha256 (content_of out_log);
        stderr_sha256 = x.sha256 (content_of error_log);
      }
