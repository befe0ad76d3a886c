-- ===== src/Incidents/Patch.antt =====
-- The parser of unified diffs (cyan/training/incidents/patch.py: _normalize_header_path and
-- parse_unified_diff). A patch is its characters.
pub mod Hunks
pub mod Diff
pub mod Paths
pub mod Workspace
pub mod Service
use Prim.Native.Char.{Char, code}
use zgent.Common.{
  ℕ, zero, suc, String, str_eq, Bool, true, false, not, ◌&&◌, ◌||◌, Option, none, some, List, [],
  ◌∷◌, ◌++◌, map, any, length, drop, ◌==◌, if◌then◌else◌,
}
use zgent.Common.Chars.{Text, chars, text_of, same, starts, occurs, split_keep, without_end}
use zgent.Common.Exec.{Result, ok, err, Error, patch_error}
use zgent.Incidents.Models.{ChangeType, create, change, delete}

infixl 10 ◌>>=◌
abbrev pub ◌>>=◌ {ℓ κ} : {A : Type ℓ} {B : Type κ} → Result A → (A → Result B) → Result B
ok a >>= f = f a
err e >>= f = err e

-- raise PatchError if the test holds
unfoldable pub refuse_if : {A : Type 0} → Bool → Result A → Result A
refuse_if true m = err patch_error
refuse_if false m = m

-- ParsedPatchFile
pub record ParsedPatchFile : Type 0 where
  pub path : String
  pub change_type : ChangeType

-- raw.split("\t", 1)[0]
before_tab : Text → Text
before_tab [] = []
before_tab (c ∷ s) = let rest = before_tab s in if code c == 9 then [] else c ∷ rest

onto_part : Char → List Text → List Text
onto_part c [] = (c ∷ []) ∷ []
onto_part c (p ∷ ps) = (c ∷ p) ∷ ps

-- value.split("/")
unfoldable pub split_slash : Text → List Text
unfolding onto_part
split_slash [] = [] ∷ []
split_slash (c ∷ s) =
    let rest = split_slash s in if code c == b'/' then [] ∷ rest else onto_part c rest

is_named : Text → Bool
is_named part = not (same part []) && not (same part (chars "."))

-- PurePosixPath(value).parts of a relative path: empty parts and "." are dropped
unfoldable pub path_parts : List Text → List Text
unfolding is_named
path_parts [] = []
path_parts (p ∷ ps) = let rest = path_parts ps in if is_named p then p ∷ rest else rest

-- PurePosixPath.as_posix() of a relative path
unfoldable pub join_parts : List Text → Text
join_parts [] = []
join_parts (p ∷ []) = p
join_parts (p ∷ q ∷ ps) = p ++ (chars "/" ++ join_parts (q ∷ ps))

without_side : Text → Text
without_side [] = []
without_side (c ∷ []) = c ∷ []
without_side (c ∷ d ∷ s) =
    if starts (chars "a/") (c ∷ d ∷ s) || starts (chars "b/") (c ∷ d ∷ s) then s else c ∷ d ∷ s

is_empty : List Text → Bool
is_empty [] = true
is_empty (p ∷ ps) = false

unfoldable pub is_first_part : Text → List Text → Bool
is_first_part name [] = false
is_first_part name (p ∷ ps) = same p name

-- _PROTECTED_CONFIGS
unfoldable pub is_protected : Text → Bool
is_protected path = same path (chars ".cyan/config.toml")

-- The path of a header behind its side, checked.
checked_path : Text → Result String
unfolding split_slash path_parts join_parts is_empty is_first_part is_protected
checked_path value =
    let parts = path_parts (split_slash value) in
    refuse_if (starts (chars "/") value || is_empty parts || any (λ p. same p (chars "..")) parts) (
      refuse_if (is_protected (join_parts parts))
        (refuse_if (is_first_part (chars ".git") parts) (ok (text_of (join_parts parts)))))

present : Result String → Result (Option String)
present (ok path) = ok (some path)
present (err e) = err e

-- _normalize_header_path; /dev/null is no path
unfoldable pub normalize_header_path : Text → Result (Option String)
unfolding before_tab without_side checked_path present
normalize_header_path raw =
    let value = before_tab raw in
    if same value (chars "/dev/null")
    then ok none
    else refuse_if (same value [] || starts (chars "\"") value || occurs (chars "\\") value)
        (present (checked_path (without_side value)))

-- The change that a pair of headers stands for.
file_of : Option String → Option String → Result ParsedPatchFile
file_of none none = err patch_error
file_of none (some new) = ok (record { path = new; change_type = create })
file_of (some old) none = ok (record { path = old; change_type = delete })
file_of (some old) (some new) =
    if str_eq old new then ok (record { path = old; change_type = change }) else err patch_error

-- A --- line and the line behind it.
header_pair : Text → Text → Result ParsedPatchFile
unfolding file_of
header_pair old new = refuse_if (not (starts (chars "+++ ") new)) (
    normalize_header_path (drop 4 old) >>= λ old_path.
    normalize_header_path (drop 4 new) >>= λ new_path. file_of old_path new_path)

-- The loop over the lines; a pair of headers is consumed together.
unfoldable pub header_files : List Text → Result (List ParsedPatchFile)
unfolding header_pair
header_files [] = ok []
header_files (line ∷ []) = refuse_if (starts (chars "--- ") line) (ok [])
header_files (line ∷ next ∷ rest) =
    let behind = header_files (next ∷ rest) in
    let behind_pair = header_pair line next >>= λ f. header_files rest >>= λ fs. ok (f ∷ fs) in
    if starts (chars "--- ") line then behind_pair else behind

-- _BINARY_MARKERS and the NUL character
unfoldable pub is_binary : Text → Bool
is_binary patch =
    any (λ c. code c == 0) patch
    || occurs (chars "GIT binary patch") patch
    || occurs (chars "Binary files ") patch

unfoldable pub is_move : Text → Bool
is_move line =
    starts (chars "rename from ") line
    || starts (chars "rename to ") line
    || starts (chars "copy from ") line
    || starts (chars "copy to ") line

-- line.removeprefix(prefix)
without_prefix : Text → Text → Text
without_prefix prefix line = if starts prefix line then drop (length prefix) line else line

-- line.rsplit(" ", 1)[-1]
last_word : Text → Text
last_word line = behind_space line line
  where
    behind_space : Text → Text → Text
    behind_space word [] = word
    behind_space word (c ∷ s) = behind_space (if code c == 32 then s else word) s

-- _UNSAFE_GIT_MODES
is_unsafe_mode : Text → Bool
is_unsafe_mode mode = same mode (chars "120000") || same mode (chars "160000")

unfoldable pub is_unsafe : Text → Bool
unfolding without_prefix last_word is_unsafe_mode
is_unsafe line =
    is_unsafe_mode (without_prefix (chars "new file mode ") line)
    || is_unsafe_mode (without_prefix (chars "deleted file mode ") line)
    || is_unsafe_mode (without_prefix (chars "old mode ") line)
    || is_unsafe_mode (without_prefix (chars "new mode ") line)
    || is_unsafe_mode (if starts (chars "index ") line then last_word line else [])

-- len(paths) != len(set(paths))
unfoldable pub has_duplicate : List ParsedPatchFile → Bool
has_duplicate [] = false
has_duplicate (f ∷ fs) = any (λ (g : ParsedPatchFile). str_eq g.path f.path) fs || has_duplicate fs

complete : List Text → List ParsedPatchFile → Result (List ParsedPatchFile)
unfolding has_duplicate
complete lines [] = err patch_error
complete lines (f ∷ fs) =
    refuse_if (has_duplicate (f ∷ fs))
      (refuse_if (not (any (starts (chars "@@ ")) lines)) (ok (f ∷ fs)))

-- parse_unified_diff
unfoldable pub parse_unified_diff : Text → Result (List ParsedPatchFile)
unfolding is_binary is_move is_unsafe header_files complete
parse_unified_diff patch =
    let lines = map without_end (split_keep patch) in
    refuse_if (is_binary patch) (
      refuse_if (any is_move lines)
        (refuse_if (any is_unsafe lines) (header_files lines >>= complete lines)))
