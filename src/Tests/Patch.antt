-- ===== src/Tests/Patch.antt =====
-- A patch of one line: built, parsed, applied in memory and by the service, and reversed.
mod Replacing
use Prim.Native.Char.{Char}
use native.Mathlib.Decide.{dec_lt}
use zgent.Common.{
  ℕ, zero, suc, String, ◌≡◌, ◌≢◌, refl, sym, ap, ◌∙◌, Bool, true, false, Option, none, some, List,
  [], ◌∷◌, ◌++◌, All, ◌⊎◌, inl, inr, arith,
}
use zgent.Common.Chars.{Text, chars, split_keep}
use zgent.Common.Dict.{get}
use zgent.Common.Exec.{ok, err, patch_error}
use zgent.Common.Text.{codes}
use zgent.Externals.{Externals, TextCodec}
use zgent.Incidents.Models.{change, Proposal, PatchReceipt}
use zgent.Incidents.Patch.{ParsedPatchFile, parse_unified_diff, has_duplicate}
use zgent.Incidents.Patch.Diff.{Edit, Group, build_replacement_diff}
use zgent.Incidents.Patch.Hunks.{apply_unified_diff_to_text}
use zgent.Incidents.Patch.Hunks.Groups.{IsScript}
use zgent.Incidents.Patch.Hunks.Reviewed.{apply_unified_diff-build_replacement}
use zgent.Incidents.Patch.Paths.{IsSafePath, parse_unified_diff-IsSafePath}
use zgent.Incidents.Patch.Service.{Git, apply, reverse, review, verify_base_state}
use zgent.Incidents.Patch.Service.Restores.{reverse_restores}
use zgent.Incidents.Patch.Service.Targets.{target_of}
use zgent.Incidents.Patch.Service.Receipts.{apply-receipt, apply-writes}
use zgent.Incidents.Patch.Workspace.{verify_applied_state}
use zgent.Tests.Data.{externals}
use zgent.World.{Bytes, Tree, file}

-- The code that these runs go through: opening `patch_code` opens all of it.
unfoldable patch_code : Unit {0}
unfolding zgent.Common.Dict.get zgent.Common.Text.is_break zgent.Common.Chars.same
    zgent.Common.Chars.starts zgent.Common.Chars.occurs zgent.Common.Chars.concat
    zgent.Common.Chars.ends_here zgent.Common.Chars.onto_first zgent.Common.Chars.split_keep
    zgent.Common.Chars.without_end zgent.Incidents.Patch.refuse_if zgent.Incidents.Patch.split_slash
    zgent.Incidents.Patch.path_parts zgent.Incidents.Patch.join_parts
    zgent.Incidents.Patch.is_first_part zgent.Incidents.Patch.is_protected
    zgent.Incidents.Patch.normalize_header_path zgent.Incidents.Patch.header_files
    zgent.Incidents.Patch.is_binary zgent.Incidents.Patch.is_move zgent.Incidents.Patch.is_unsafe
    zgent.Incidents.Patch.has_duplicate zgent.Incidents.Patch.parse_unified_diff
    zgent.Incidents.Patch.Diff.digit_char zgent.Incidents.Patch.Diff.digits_onto
    zgent.Incidents.Patch.Diff.digits zgent.Incidents.Patch.Diff.olds
    zgent.Incidents.Patch.Diff.news zgent.Incidents.Patch.Diff.range_text
    zgent.Incidents.Patch.Diff.header_line zgent.Incidents.Patch.Diff.edit_line
    zgent.Incidents.Patch.Diff.edit_lines zgent.Incidents.Patch.Diff.group_lines
    zgent.Incidents.Patch.Diff.unified_diff zgent.Incidents.Patch.Diff.ends_line
    zgent.Incidents.Patch.Diff.lacks_newline zgent.Incidents.Patch.Diff.marker_line
    zgent.Incidents.Patch.Diff.render zgent.Incidents.Patch.Diff.non_empty
    zgent.Incidents.Patch.Diff.build_replacement_diff zgent.Incidents.Patch.Diff.Acc-below dec_lt
    zgent.Incidents.Patch.Hunks.is_digit zgent.Incidents.Patch.Hunks.read_digits
    zgent.Incidents.Patch.Hunks.read_number zgent.Incidents.Patch.Hunks.read_count
    zgent.Incidents.Patch.Hunks.expect zgent.Incidents.Patch.Hunks.hunk_header
    zgent.Incidents.Patch.Hunks.is_marker zgent.Incidents.Patch.Hunks.chop
    zgent.Incidents.Patch.Hunks.stands zgent.Incidents.Patch.Hunks.operate
    zgent.Incidents.Patch.Hunks.begin zgent.Incidents.Patch.Hunks.close
    zgent.Incidents.Patch.Hunks.finish zgent.Incidents.Patch.Hunks.is_operation
    zgent.Incidents.Patch.Hunks.kind zgent.Incidents.Patch.Hunks.ended
    zgent.Incidents.Patch.Hunks.outside zgent.Incidents.Patch.Hunks.apply_unified_diff_to_text
    zgent.Incidents.Patch.Workspace.resolve_workspace_path
    zgent.Incidents.Patch.Workspace.same_change zgent.Incidents.Patch.Workspace.same_files
    zgent.Incidents.Patch.Workspace.is_hash zgent.Incidents.Patch.Workspace.gitlinks
    zgent.Incidents.Patch.Workspace.in_submodule zgent.Incidents.Patch.Workspace.sha256_file
    zgent.Incidents.Patch.Workspace.differs zgent.Incidents.Patch.Workspace.verify_target
    zgent.Incidents.Patch.Workspace.verify_targets
    zgent.Incidents.Patch.Workspace.verify_applied_target
    zgent.Incidents.Patch.Workspace.verify_applied_state
    zgent.Incidents.Patch.Workspace.applied_hash zgent.Incidents.Patch.Workspace.applied_files
    zgent.Incidents.Patch.Workspace.build_receipt zgent.Incidents.Patch.Service.verify_base_state
    zgent.Incidents.Patch.Service.check zgent.Incidents.Patch.Service.apply
    zgent.Incidents.Patch.Service.reverse zgent.Incidents.Patch.Service.review
patch_code = tt

abbrev diff : String
diff = "--- a/a.py\n+++ b/a.py\n@@ -1 +1 @@\n-x\n+y\n"

abbrev parsed : ParsedPatchFile
parsed = record { path = "a.py"; change_type = change }

-- difflib's groups for a file of the one line "x" that becomes "y".
abbrev grouped : List Text → List Text → List Group
grouped old new =
    record {
      old_index = 0;
      new_index = 0;
      edits = Edit.old (chars "x\n") ∷ Edit.new (chars "y\n") ∷ [];
    }
    ∷ []

diff_parsed : parse_unified_diff (chars diff) ≡ ok (parsed ∷ [])
unfolding patch_code
diff_parsed = refl

diff_built :
    build_replacement_diff grouped (chars "a.py") (chars "x\n") (chars "y\n") ≡ ok (chars diff)
unfolding patch_code
diff_built = refl

script : IsScript 0 (split_keep (chars "x\n")) (split_keep (chars "y\n")) (grouped [] [])
unfolding patch_code IsScript
script = ([], [], [], refl, refl, omega arith, inl refl, refl)

apply_unified_diff-build_replacement_example :
    apply_unified_diff_to_text (chars "x\n") (chars diff) ≡ ok (chars "y\n")
apply_unified_diff-build_replacement_example =
    apply_unified_diff-build_replacement grouped (chars "a.py") (chars "x\n") (chars "y\n")
      (chars diff) parsed script ((unfold patch_code in refl, (unfold patch_code in refl, tt)), tt)
      ((λ h. unfold patch_code in absurd (cc h)), ((λ h. refl), tt))
      ((λ h. unfold patch_code in absurd (cc h)), ((λ h. refl), tt))
      (unfold patch_code in (refl, (refl, (refl, (refl, tt))))) diff_built diff_parsed refl

parse_unified_diff-IsSafePath_example :
    All (λ (f : ParsedPatchFile). IsSafePath f.path) (parsed ∷ [])
    × (has_duplicate (parsed ∷ []) ≡ false)
    × (◌≢◌ {A = List ParsedPatchFile} (parsed ∷ []) [])
parse_unified_diff-IsSafePath_example =
    parse_unified_diff-IsSafePath (chars diff) (parsed ∷ []) diff_parsed

-- A line that begins with "-- " and is removed gives a diff that the parser takes for another header.
dashes_refused :
    apply_unified_diff_to_text
      (chars "-- x\ny\n")
      (chars "--- a/a.sql\n+++ b/a.sql\n@@ -1,2 +1 @@\n--- x\n y\n")
    ≡ err patch_error
unfolding patch_code
dashes_refused = refl

-- A hash without collisions: each number in unary, with a mark behind it.
spell : ℕ → String → String
spell zero s = String.◌∷◌ "b" s
spell (suc n) s = String.◌∷◌ "a" (spell n s)

spelled : Bytes → String
spelled [] = ""
spelled (n ∷ b) = spell n (spelled b)

tail_of : String → String
tail_of String.[] = ""
tail_of (String.◌∷◌ c s) = s

head_code : String → ℕ
head_code String.[] = 0
head_code (String.◌∷◌ c s) = Prim.Native.Char.code c

spell-injective : (m n : ℕ) (s t : String) → spell m s ≡ spell n t → (m ≡ n) × (s ≡ t)
unfolding spell tail_of head_code
spell-injective zero zero s t h = (refl, ap tail_of h)
spell-injective zero (suc n) s t h = absurd (omega (arith, ap head_code h))
spell-injective (suc m) zero s t h = absurd (omega (arith, ap head_code h))
spell-injective (suc m) (suc n) s t h =
    let (e, r) = spell-injective m n s t (ap tail_of h) in (omega arith, r)

spelled-injective : (a b : Bytes) → spelled a ≡ spelled b → a ≡ b
unfolding spelled
spelled-injective [] [] h = refl
spelled-injective [] (n ∷ b) h = absurd (not_empty n (spelled b) h)
  where
    not_empty : (n : ℕ) (s : String) → "" ≡ spell n s → ⊥
    not_empty zero s h = unfold spell head_code in omega (arith, ap head_code h)
    not_empty (suc n) s h = unfold spell head_code in omega (arith, ap head_code h)
spelled-injective (m ∷ a) [] h = absurd (not_empty m (spelled a) h)
  where
    not_empty : (n : ℕ) (s : String) → spell n s ≡ "" → ⊥
    not_empty zero s h = unfold spell head_code in omega (arith, ap head_code h)
    not_empty (suc n) s h = unfold spell head_code in omega (arith, ap head_code h)
spelled-injective (m ∷ a) (n ∷ b) h =
    let (e, r) = spell-injective m n (spelled a) (spelled b) h in rw (e, spelled-injective a b r)

unfoldable hash : Bytes → String
unfolding spelled spell
hash b = spelled b

abbrev hashing : Externals
hashing = record externals { sha256 = hash }

abbrev codec : TextCodec
codec = record { encode = codes; decode = λ b. some "x\n" }

abbrev before : Tree
before = ("a.py", file (120 ∷ 10 ∷ [])) ∷ []

abbrev after : Tree
after = ("a.py", file (121 ∷ 10 ∷ [])) ∷ []

abbrev git : Git
git = record {
  is_root = λ tree. ok true;
  staged = λ tree. ok (chars "160000 0 0\tsub\n");
  check_apply = λ diff tree. ok tt;
  apply = λ diff tree. (ok tt, after);
  check_reverse = λ diff tree. ok tt;
  reverse = λ diff tree. (ok tt, before);
}

abbrev proposal : Proposal
proposal = record {
  id = "fix-1";
  incident_id = "inc-1";
  diagnosis_id = none;
  patch_sha256 = hash (codes diff);
  files =
      record { path = "a.py"; change_type = change; base_sha256 = some (hash (120 ∷ 10 ∷ [])) }
      ∷ [];
  evidence = [];
  created_at = 7;
}

abbrev receipt : PatchReceipt
receipt = record {
  proposal_id = "fix-1";
  files = record { path = "a.py"; applied_sha256 = some (hash (121 ∷ 10 ∷ [])) } ∷ [];
  applied_at = 9;
}

abbrev quiet : Tree → Tree
quiet tree = tree

applied : apply hashing codec git quiet 9 proposal (some diff) before ≡ (ok receipt, after)
unfolding patch_code hash
applied = refl

reversed_again :
    reverse hashing codec git quiet proposal (some diff) receipt after ≡ (ok tt, before)
unfolding patch_code hash
reversed_again = refl

reverse_restores_example :
    (receipt.proposal_id ≡ proposal.id)
    × All
        (λ f. get before (target_of f.path) ≡ get (quiet before) (target_of f.path))
        proposal.files
reverse_restores_example =
    reverse_restores hashing codec git quiet 9 proposal (some diff) before after after before
      receipt receipt (unfold hash in spelled-injective) applied reversed_again

apply-receipt_example :
    (receipt.proposal_id ≡ proposal.id) × (verify_applied_state hashing after receipt.files ≡ ok tt)
apply-receipt_example =
    apply-receipt hashing codec git quiet 9 proposal (some diff) before after receipt applied

abbrev result_tree : Tree
result_tree = (apply hashing codec git quiet 9 proposal (some diff) before).1

apply-writes_example :
    (result_tree ≡ before)
    ⊎ (result_tree ≡ quiet before)
    ⊎ ((verify_base_state hashing codec (quiet before) proposal (some diff) ≡ ok tt)
        × (result_tree ≡ (git.apply (some diff) (quiet before)).1))
apply-writes_example = apply-writes hashing codec git quiet 9 proposal (some diff) before

abbrev crlf_diff : String
crlf_diff = "--- a/a.py\n+++ b/a.py\n@@ -1 +1 @@\n-x\r\n+y\r\n"

-- A file with carriage returns is patched by the service, but not reviewed: its patch is read with
-- universal newlines, the file is not.
crlf_not_reviewed :
    review hashing
      (record { encode = codes; decode = λ b. some "x\r\n" })
      (("a.py", file (120 ∷ 13 ∷ 10 ∷ [])) ∷ [])
      (record proposal {
        patch_sha256 = hash (codes crlf_diff);
        files =
            record {
              path = "a.py";
              change_type = change;
              base_sha256 = some (hash (120 ∷ 13 ∷ 10 ∷ []));
            }
            ∷ [];
      })
      (some crlf_diff)
    ≡ err patch_error
unfolding patch_code hash
crlf_not_reviewed = refl

reviewed : review hashing codec before proposal (some diff) ≡ ok (chars "x\n", chars "y\n")
unfolding patch_code hash
reviewed = refl
