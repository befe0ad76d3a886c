-- ===== src/Incidents/Patch/Paths.antt =====
-- The paths that the parser of patches lets through (patch.py: _normalize_header_path,
-- parse_unified_diff).
use Prim.Native.Char.{Char, code}
use zgent.Common.{
  String, ◌≡◌, ◌≢◌, refl, ap, subst, ◌∙◌, Bool, true, false, ◌||◌, Option, none, some, List, [],
  ◌∷◌, ◌++◌, All, any, drop, map, inl, inr, arith, Bool-cases, ◌==◌,
}
use zgent.Common.Chars.{
  Text, chars, text_of, chars-text_of, same, same_refl, starts, split_keep, without_end,
}
use zgent.Common.Exec.{Result, ok, err}
use zgent.Incidents.Patch.{
  ParsedPatchFile, split_slash, onto_part, path_parts, is_named, join_parts, is_first_part,
  is_protected, checked_path, is_empty, normalize_header_path, present, before_tab, without_side,
  file_of, header_pair, header_files, has_duplicate, complete, parse_unified_diff, refuse_if, ◌>>=◌,
}

abbrev NoSlash : Text → Type 0
NoSlash = All (λ c. (code c == b'/') ≡ false)

-- A part of a path that names an entry of a directory.
abbrev pub IsEntry : Text → Type 0
IsEntry part = (part ≢ []) × (part ≢ chars ".") × (part ≢ chars "..")

onto_part-NoSlash :
    (c : Char) (ps : List Text)
    → (code c == b'/') ≡ false
    → All NoSlash ps
    → All NoSlash (onto_part c ps)
unfolding onto_part
onto_part-NoSlash c [] h k = ((h, tt), tt)
onto_part-NoSlash c (p ∷ ps) h k = ((h, k.0), k.1)

split_slash-NoSlash : (s : Text) → All NoSlash (split_slash s)
unfolding split_slash
split_slash-NoSlash [] = (tt, tt)
split_slash-NoSlash (c ∷ s) = elim (Bool-cases (code c == b'/')) [
  | inl e ↦ rw e (tt, split_slash-NoSlash s)
  | inr e ↦ rw e (onto_part-NoSlash c (split_slash s) e (split_slash-NoSlash s))
]

split_slash-part : (p : Text) → NoSlash p → split_slash p ≡ p ∷ []
unfolding split_slash
split_slash-part [] h = refl
split_slash-part (c ∷ p) h = rw (h.0, split_slash-part p h.1)

split_slash-append :
    (p t : Text) → NoSlash p → split_slash (p ++ (chars "/" ++ t)) ≡ p ∷ split_slash t
unfolding split_slash
split_slash-append [] t h = refl
split_slash-append (c ∷ p) t h = rw (h.0, split_slash-append p t h.1)

-- The parts that a path is joined from are those that it is split into.
split_slash-join_parts :
    (p : Text) (ps : List Text) → All NoSlash (p ∷ ps) → split_slash (join_parts (p ∷ ps)) ≡ p ∷ ps
unfolding join_parts
split_slash-join_parts p [] h = split_slash-part p h.0
split_slash-join_parts p (q ∷ ps) h =
    split_slash-append p (join_parts (q ∷ ps)) h.0
    ∙ ap (λ l. p ∷ l) (split_slash-join_parts q ps h.1)

path_parts-NoSlash : (ps : List Text) → All NoSlash ps → All NoSlash (path_parts ps)
unfolding path_parts
path_parts-NoSlash [] h = tt
path_parts-NoSlash (p ∷ ps) h = elim (Bool-cases (is_named p)) [
  | inl e ↦ rw e (h.0, path_parts-NoSlash ps h.1)
  | inr e ↦ rw e (path_parts-NoSlash ps h.1)
]

not_same : (s t : Text) → same s t ≡ false → s ≢ t
not_same s t h e = absurd (ground (arith, h, same_refl t, rw e at h))

or-eq-false : (a b : Bool) → (a || b) ≡ false → (a ≡ false) × (b ≡ false)
or-eq-false true b h = absurd (cc)
or-eq-false false b h = (refl, h)

named : (p : Text) → is_named p ≡ true → (p ≢ []) × (p ≢ chars ".")
unfolding is_named
named p h = (not_same p [] (ground (arith, h)), not_same p (chars ".") (ground (arith, h)))

path_parts-IsEntry :
    (ps : List Text)
    → any (λ p. same p (chars "..")) (path_parts ps) ≡ false
    → All IsEntry (path_parts ps)
unfolding path_parts
path_parts-IsEntry [] h = tt
path_parts-IsEntry (p ∷ ps) h = elim (Bool-cases (is_named p)) [
  | inl e ↦
      let (up, rest) =
        or-eq-false (same p (chars "..")) (any (λ q. same q (chars "..")) (path_parts ps))
          (rw e at h) in
      let (filled, dot) = named p e in
      rw e ((filled, dot, not_same p (chars "..") up), path_parts-IsEntry ps rest)
  | inr e ↦ rw e (path_parts-IsEntry ps (rw e at h))
]

-- What a path that the parser lets through looks like: each of its parts names an entry, the first
-- is not .git, and it is not the path of the protected configuration.
pub record IsSafePath (path : String) : Type 0 where
  pub entries : All IsEntry (split_slash (chars path))
  pub outside_git : is_first_part (chars ".git") (split_slash (chars path)) ≡ false
  pub unprotected : is_protected (chars path) ≡ false

joined-IsSafePath :
    (ps : List Text)
    → All NoSlash ps
    → is_empty ps ≡ false
    → All IsEntry ps
    → is_protected (join_parts ps) ≡ false
    → is_first_part (chars ".git") ps ≡ false
    → IsSafePath (text_of (join_parts ps))
joined-IsSafePath [] whole e entries u g = absurd (unfold is_empty in cc)
joined-IsSafePath (p ∷ ps) whole e entries u g =
    let parts : split_slash (chars (text_of (join_parts (p ∷ ps)))) ≡ p ∷ ps =
      ap split_slash (chars-text_of (join_parts (p ∷ ps))) ∙ split_slash-join_parts p ps whole in
    record {
      entries = rw parts entries;
      outside_git = rw parts g;
      unprotected = rw (chars-text_of (join_parts (p ∷ ps))) u;
    }

pub guarded :
    {A : Type 0} (b : Bool) (m : Result A) (a : A) → refuse_if b m ≡ ok a → (b ≡ false) × (m ≡ ok a)
unfolding refuse_if
guarded true m a h = absurd (cc)
guarded false m a h = (refl, h)

of_present : (r : Result String) (path : String) → present r ≡ ok (some path) → r ≡ ok path
unfolding present
of_present (ok p) path h = ground (arith, h)
of_present (err e) path h = absurd (cc)

completed :
    (lines : List Text) (gs fs : List ParsedPatchFile)
    → complete lines gs ≡ ok fs
    → (gs ≡ fs) × (has_duplicate fs ≡ false) × (fs ≢ [])
unfolding complete
completed lines [] fs h = absurd (cc)
completed lines (g ∷ gs) fs h =
    let (unique, h1) = guarded (has_duplicate (g ∷ gs)) _ fs h in
    let (_, h2) = guarded _ _ fs h1 in
    let is : g ∷ gs ≡ fs = cc in
    (is, subst (λ l. has_duplicate l ≡ false) is unique, λ e. absurd (cc))

checked_path-IsSafePath :
    (value : Text) (path : String) → checked_path value ≡ ok path → IsSafePath path
unfolding checked_path
checked_path-IsSafePath value path h =
    let parts = path_parts (split_slash value) in
    let (shape, h1) = guarded _ _ path h in
    let (u, h2) = guarded _ _ path h1 in
    let (g, h3) = guarded _ _ path h2 in
    let (shape', up) = or-eq-false _ _ shape in
    let (_, e) = or-eq-false _ _ shape' in
    let is : text_of (join_parts parts) ≡ path = cc in
    subst IsSafePath is (
      joined-IsSafePath parts (path_parts-NoSlash _ (split_slash-NoSlash value)) e
        (path_parts-IsEntry (split_slash value) up) u g)

normalize_header_path-IsSafePath :
    (raw : Text) (path : String) → normalize_header_path raw ≡ ok (some path) → IsSafePath path
unfolding normalize_header_path
normalize_header_path-IsSafePath raw path h =
    elim (Bool-cases (same (before_tab raw) (chars "/dev/null"))) [
      | inl e ↦ absurd (ground (arith, h, e))
      | inr e ↦
          let (_, h') = guarded _ _ (some path) (rw e at h) in
          checked_path-IsSafePath (without_side (before_tab raw)) path (of_present _ path h')
    ]

file_of-IsSafePath :
    (old new : Option String) (f : ParsedPatchFile)
    → ((p : String) → old ≡ some p → IsSafePath p)
    → ((p : String) → new ≡ some p → IsSafePath p)
    → file_of old new ≡ ok f
    → IsSafePath f.path
unfolding file_of
file_of-IsSafePath none none f o n h = absurd (cc)
file_of-IsSafePath none (some new) f o n h = n f.path (cc)
file_of-IsSafePath (some old) none f o n h = o f.path (cc)
file_of-IsSafePath (some old) (some new) f o n h = o f.path (ground (arith, h))

pub bound :
    {A B : Type 0} (m : Result A) (k : A → Result B) (b : B)
    → (m >>= k) ≡ ok b
    → (a : A) × (m ≡ ok a) × (k a ≡ ok b)
bound (ok a) k b h = (a, refl, h)
bound (err e) k b h = absurd (cc)

header_pair-IsSafePath :
    (old new : Text) (f : ParsedPatchFile) → header_pair old new ≡ ok f → IsSafePath f.path
unfolding header_pair
header_pair-IsSafePath old new f h =
    let (_, h1) = guarded _ _ f h in
    let (old_path, o, h2) =
      bound (normalize_header_path (drop 4 old))
        (λ old_path. normalize_header_path (drop 4 new) >>= λ new_path. file_of old_path new_path) f
        h1 in
    let (new_path, n, h3) =
      bound (normalize_header_path (drop 4 new)) (λ new_path. file_of old_path new_path) f h2 in
    file_of-IsSafePath old_path new_path f
      (λ p e. normalize_header_path-IsSafePath (drop 4 old) p (o ∙ ap ok e))
      (λ p e. normalize_header_path-IsSafePath (drop 4 new) p (n ∙ ap ok e)) h3

abbrev Safe : List ParsedPatchFile → Type 0
Safe = All (λ f. IsSafePath f.path)

header_files-Safe :
    (lines : List Text) (fs : List ParsedPatchFile) → header_files lines ≡ ok fs → Safe fs
unfolding header_files
header_files-Safe [] fs h = let e : [] ≡ fs = cc in subst Safe e tt
header_files-Safe (line ∷ []) fs h =
    let (_, h') = guarded _ _ fs h in let e : [] ≡ fs = cc in subst Safe e tt
header_files-Safe (line ∷ next ∷ rest) fs h = elim (Bool-cases (starts (chars "--- ") line)) [
  | inl e ↦
      let (f, pair, h1) =
        bound (header_pair line next) (λ f. header_files rest >>= λ fs. ok (f ∷ fs)) fs
          (rw e at h) in
      let (gs, behind, h2) = bound (header_files rest) (λ fs. ok (f ∷ fs)) fs h1 in
      let is : f ∷ gs ≡ fs = cc in
      subst Safe is (header_pair-IsSafePath line next f pair, header_files-Safe rest gs behind)
  | inr e ↦ header_files-Safe (next ∷ rest) fs (rw e at h)
]

-- A patch that the parser accepts changes one file or more, no two of them with the same path, and
-- each path is relative, with parts that name entries (none is empty, "." or ".."), does not begin
-- with .git, and is not that of the protected configuration .cyan/config.toml.
pub parse_unified_diff-IsSafePath :
    (patch : Text) (fs : List ParsedPatchFile)
    → parse_unified_diff patch ≡ ok fs
    → All (λ f. IsSafePath f.path) fs × (has_duplicate fs ≡ false) × (fs ≢ [])
unfolding parse_unified_diff
parse_unified_diff-IsSafePath patch fs h =
    let (_, h1) = guarded _ _ fs h in
    let (_, h2) = guarded _ _ fs h1 in
    let (_, h3) = guarded _ _ fs h2 in
    let lines = map without_end (split_keep patch) in
    let (gs, read, h4) = bound (header_files lines) (complete lines) fs h3 in
    let (same_files, unique, some_file) = completed lines gs fs h4 in
    (subst Safe same_files (header_files-Safe lines gs read), unique, some_file)
