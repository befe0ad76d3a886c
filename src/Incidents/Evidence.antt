-- ===== src/Incidents/Evidence.antt =====
-- The failure capsule (cyan/training/incidents/evidence.py): the tails of the two logs, the state
-- of the Git workspace, and the part of the environment that holds no secret.
pub mod Snapshots
pub mod Secrets
use Prim.Native.String.{compare as str_compare}
use Prim.Native.Nat.{Ordering}
use zgent.Common.{
  ℕ, zero, suc, ◌+◌, ◌-◌, ◌*◌, min, max, String, str_eq, Bool, true, false, not, ◌&&◌, ◌||◌, Option,
  none, some, List, [], ◌∷◌, ◌++◌, map, length, take, drop, any, leb, ltb, ◌==◌, if◌then◌else◌,
}
use zgent.Common.Dict.{Dict, get, put}
use zgent.Common.Exec.{Exec, Result, ok, ◌>>=◌, ◌>>◌, pure, gets}
use zgent.Common.Text.{
  codes, upper, has_part, has_prefix, str_take, str_drop, str_length, strip, split_lines,
}
use zgent.Externals.{Externals}
use zgent.Jobs.Models.{LogStream, stdout, stderr, LogSnapshot, FailureCapsule, FailureRecord}
use zgent.Jobs.Store.{read_spec, read_log_file}
use zgent.World.{Bytes, World, M}

abbrev pub capsule_log_bytes : ℕ
capsule_log_bytes = 32 * 1024

unfoldable pub content_of : Option Bytes → Bytes
content_of none = []
content_of (some content) = content

pub size_of : Option Bytes → ℕ
unfolding content_of
size_of log = length (content_of log)

module _ (x : Externals) where
  -- _snapshot_log: handle.seek(start); handle.read(limit)
  unfoldable pub snapshot_log : Option Bytes → ℕ → LogSnapshot
  unfolding content_of
  snapshot_log log limit =
      let content = content_of log in
      let size = length content in
      let start = size - limit in
      let raw = take limit (drop start content) in
      record {
        size = size;
        sha256 = x.sha256 content;
        included_start = start;
        included_end = start + length raw;
        tail = x.decode_text raw;
      }

  -- _snapshot_failure_logs: the errors first, the rest of the budget for the output
  unfoldable pub snapshot_failure_logs : Option Bytes → Option Bytes → LogSnapshot × LogSnapshot
  unfolding size_of
  snapshot_failure_logs out_log error_log =
      let stderr_limit = min (size_of error_log) capsule_log_bytes in
      let stdout_limit = capsule_log_bytes - stderr_limit in
      (snapshot_log out_log stdout_limit, snapshot_log error_log stderr_limit)

-- _SAFE_ENV_NAMES
safe_env_names : List String
safe_env_names =
    "CONDA_DEFAULT_ENV" ∷ "CUDA_VISIBLE_DEVICES" ∷ "LOCAL_RANK" ∷ "MKL_NUM_THREADS" ∷ "NCCL_DEBUG"
    ∷ "OMP_NUM_THREADS" ∷ "PYTHONHASHSEED" ∷ "PYTHONPATH" ∷ "RANK" ∷ "VIRTUAL_ENV" ∷ "WORLD_SIZE"
    ∷ []

-- _SAFE_ENV_PREFIXES
safe_env_prefixes : List String
safe_env_prefixes = "CUDA_" ∷ "NCCL_" ∷ "TORCH_" ∷ []

-- _SECRET_MARKERS
unfoldable pub secret_markers : List String
secret_markers = "TOKEN" ∷ "SECRET" ∷ "PASSWORD" ∷ "CREDENTIAL" ∷ "AUTH" ∷ "COOKIE" ∷ "KEY" ∷ []

-- any(marker in key.upper() for marker in _SECRET_MARKERS), for names in ASCII: `upper` leaves the
-- other characters as they are
unfoldable pub is_secret : String → Bool
unfolding secret_markers
is_secret key = any (λ marker. has_part (codes marker) (map upper (codes key))) secret_markers

-- key in _SAFE_ENV_NAMES or key.startswith(_SAFE_ENV_PREFIXES)
pub is_safe_name : String → Bool
unfolding safe_env_names safe_env_prefixes
is_safe_name key =
    any (λ name. str_eq name key) safe_env_names
    || any (λ prefix. has_prefix (codes prefix) (codes key)) safe_env_prefixes

text_lt : String → String → Bool
text_lt a b = elim (str_compare a b) [ Ordering.lt ↦ true | _ ↦ false ]

insert_key : String × String → Dict String → Dict String
unfolding text_lt
insert_key (k, v) [] = (k, v) ∷ []
insert_key (k, v) ((j, u) ∷ d) =
    if text_lt j k then (j, u) ∷ insert_key (k, v) d else (k, v) ∷ (j, u) ∷ d

-- sorted(env), with the values
sorted_keys : Dict String → Dict String
unfolding insert_key
sorted_keys [] = []
sorted_keys (e ∷ d) = insert_key e (sorted_keys d)

add_safe : Dict String → Dict String → Dict String
unfolding is_secret is_safe_name
add_safe summary [] = summary
add_safe summary ((k, v) ∷ rest) =
    add_safe
      (if is_secret k
        then summary
        else if not (is_safe_name k)
        then summary
        else put summary k (str_take 512 v))
      rest

-- _safe_environment; sys.executable and the version word of sys.version are arguments
unfoldable pub safe_environment : (executable version : String) → Dict String → Dict String
unfolding sorted_keys add_safe
safe_environment executable version env =
    add_safe (("python_executable", executable) ∷ ("python_version", version) ∷ [])
      (sorted_keys env)

listed : String → List String
listed line = if leb 4 (str_length line) then str_drop 3 line ∷ [] else []

listed_all : List String → List String
unfolding listed
listed_all [] = []
listed_all (line ∷ rest) = listed line ++ listed_all rest

-- _git_output: the stripped output, None if the query fails; then the paths of the dirty files
unfoldable pub dirty_paths : Option String → List String
unfolding strip listed_all split_lines
dirty_paths none = []
dirty_paths (some raw) = take 200 (listed_all (split_lines (strip raw)))

stripped : Option String → Option String
unfolding strip
stripped none = none
stripped (some raw) = some (strip raw)

-- The answers of the two Git queries (their raw outputs) and of the interpreter.
pub record Surroundings : Type 0 where
  pub git_head : Option String
  pub git_status : Option String
  pub executable : String
  pub version : String

-- build_failure_capsule
unfoldable pub build_failure_capsule : Externals → Surroundings → FailureRecord → M FailureCapsule
unfolding stripped
build_failure_capsule x around failure = do
  spec ← read_spec failure.job_id
  error_log ← read_log_file failure.job_id failure.attempt_id stderr
  out_log ← read_log_file failure.job_id failure.attempt_id stdout
  let logs = snapshot_failure_logs x out_log error_log
  pure (record {
    job_id = failure.job_id;
    attempt_id = failure.attempt_id;
    argv = spec.argv;
    cwd = spec.workspace_root;
    occurred_at = failure.occurred_at;
    failure_kind = failure.kind;
    returncode = failure.returncode;
    signal = failure.signal;
    git_head = stripped around.git_head;
    dirty_paths = dirty_paths around.git_status;
    environment = safe_environment around.executable around.version spec.env;
    out = logs.0;
    errors = logs.1;
  })
