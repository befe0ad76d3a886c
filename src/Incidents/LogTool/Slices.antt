-- ===== src/Incidents/LogTool/Slices.antt =====
-- What an answer of the log tool shows of a log (log_tool.py, ReadJobLogTool.invoke).
use mathlib.Core.Option
use zgent.Common.{
  ℕ, zero, suc, ◌+◌, ◌-◌, ◌*◌, ◌≤◌, ◌<◌, min, String, str_eq, eq_refl, ◌≡◌, refl, ap, ◌∙◌, subst,
  true, Option, none, some, List, [], ◌∷◌, inl, inr, length, take, drop, any, length-drop,
  Bool-cases, arith,
}
use zgent.Common.Exec.{ok}
use zgent.Common.Find.{has_prefix-le}
use zgent.Externals.{Externals}
use zgent.Incidents.LogTool.{
  max_result_bytes, ReadParams, LogMode, LogSlice, LogReadResult, read, read_slice, match_start,
  search_file, log_reference, add_reference, read_job_log, by_mode, searched, answer, slice_at,
  noted, reader_read,
}
use zgent.Incidents.LogTool.Search.{search_file-first, IsFirstMatch}
use zgent.World.{Bytes}

-- A slice is a range of the log that keeps to a limit and to the size of the log, and its text is
-- decoded from that range.
pub record IsRange (x : Externals) (content : Bytes) (limit : ℕ) (s : LogSlice) : Type 0 where
  pub ordered : s.start ≤ s.end
  pub in_log : s.end ≤ length content
  pub in_limit : s.end ≤ s.start + min limit max_result_bytes
  pub decoded : s.content ≡ x.decode_text (take (s.end - s.start) (drop s.start content))

take-take :
    {A : Type 0} (n k : ℕ) (xs : List A)
    → k ≡ length (take n (take n xs))
    → take n (take n xs) ≡ take k xs
take-take zero zero xs e = refl
take-take zero (suc k) xs e = absurd (omega arith)
take-take (suc n) zero [] e = refl
take-take (suc n) (suc k) [] e = refl
take-take (suc n) zero (y ∷ xs) e = absurd (omega arith)
take-take (suc n) (suc k) (y ∷ xs) e = ap (λ ys. y ∷ ys) (take-take n k xs (omega arith))

length-take-take :
    {A : Type 0} (n : ℕ) (xs : List A) → length (take n (take n xs)) ≡ min n (length xs)
length-take-take zero xs = omega arith
length-take-take (suc n) [] = omega arith
length-take-take (suc n) (y ∷ xs) = omega (arith, length-take-take n xs)

read_slice-IsRange :
    (x : Externals) (content : Bytes) (start limit : ℕ)
    → start ≤ length content
    → IsRange x content limit (read_slice x content start limit)
unfolding read_slice reader_read
read_slice-IsRange x content start limit h =
    let bound = min limit max_result_bytes in
    let rest = drop start content in
    let n = length-take-take bound rest in
    let m = length-drop start content in
    record {
      ordered = omega arith;
      in_log = omega (arith, n, m);
      in_limit = omega (arith, n);
      decoded = ap x.decode_text (take-take bound _ rest (omega arith));
    }

-- The slice around a match begins at or before it, and reaches behind its first byte; it holds the
-- whole of a query that is not longer than half of the limit.
match_start_bounds :
    (size offset limit found query : ℕ)
    → offset ≤ found
    → found + query ≤ size
    → 0 < query
    → 0 < limit
    → let start = match_start size offset limit found in
      (start ≤ found)
      × (start ≤ size)
      × (found < start + min limit (size - start))
      × (2 * query ≤ limit → found + query ≤ start + min limit (size - start))
unfolding match_start
match_start_bounds size offset limit found query h k q l =
    (omega arith, omega arith, omega arith, λ short. omega arith)

registered :
    (refs : List String) (r : String) → any (λ s. str_eq s r) (add_reference refs (some r)) ≡ true
unfolding add_reference
registered refs r = elim (Bool-cases (any (λ s. str_eq s r) refs)) [
  | inl e ↦ rw (e) e
  | inr e ↦ rw (e, eq_refl r)
]

-- A slice of an answer is a range of the log, and the answer's reference names it and is registered.
abbrev pub IsShown :
    Externals
    → Bytes
    → ReadParams
    → (job_id attempt_id : String) → List String
    → LogReadResult
    → LogSlice
    → Type 0
IsShown x content p j a refs r s =
    IsRange x content p.limit s
    × (r.reference ≡ some (log_reference p.stream j a s.start s.end))
    × (any (λ ref. str_eq ref (log_reference p.stream j a s.start s.end)) refs ≡ true)

module _ (x : Externals) (content : Bytes) (p : ReadParams) (j a : String)
    (refs : List String) where
  IsShown-at :
      (found : Option ℕ) (start : ℕ) (r : LogReadResult) (refs' : List String)
      → start ≤ length content
      → answer x content p j a found (some (read_slice x content start p.limit)) ≡ read r
      → noted refs (read r) ≡ refs'
      → (s : LogSlice) → r.slice ≡ some s
      → IsShown x content p j a refs' r s
  unfolding answer noted
  IsShown-at found start r refs' h e n s is =
      let own = read_slice x content start p.limit in
      let named : r.reference ≡ some (log_reference p.stream j a own.start own.end) = cc in
      let same : own ≡ s = cc in
      let noted_in : any (λ ref. str_eq ref (log_reference p.stream j a own.start own.end)) refs'
          ≡ true =
        rw (← n, named) (registered refs (log_reference p.stream j a own.start own.end)) in
      subst (IsShown x content p j a refs' r) same
        (read_slice-IsRange x content start p.limit h, named, noted_in)

  found-IsShown :
      (found : Option ℕ) (r : LogReadResult) (refs' : List String)
      → answer x content p j a found (slice_at x content p found) ≡ read r
      → noted refs (read r) ≡ refs'
      → (s : LogSlice) → r.slice ≡ some s
      → IsShown x content p j a refs' r s
  unfolding slice_at match_start
  found-IsShown none r refs' e n s is = absurd (unfold answer in cc)
  found-IsShown (some found) r refs' e n s is =
      IsShown-at (some found) _ r refs' (omega arith) e n s is

  searched-IsShown :
      (query : Option Bytes) (r : LogReadResult) (refs' : List String)
      → searched x content p j a query ≡ read r
      → noted refs (read r) ≡ refs'
      → (s : LogSlice) → r.slice ≡ some s
      → IsShown x content p j a refs' r s
  unfolding searched
  searched-IsShown none r refs' e n s is = absurd (cc)
  searched-IsShown (some query) r refs' e n s is =
      found-IsShown (search_file (some content) p.offset query) r refs' e n s is

  by_mode-IsShown :
      (mode : LogMode) (r : LogReadResult) (refs' : List String)
      → by_mode x content p j a mode ≡ read r
      → noted refs (read r) ≡ refs'
      → (s : LogSlice) → r.slice ≡ some s
      → IsShown x content p j a refs' r s
  unfolding by_mode
  by_mode-IsShown LogMode.tail r refs' e n s is = IsShown-at none _ r refs' (omega arith) e n s is
  by_mode-IsShown LogMode.range r refs' e n s is = IsShown-at none _ r refs' (omega arith) e n s is
  by_mode-IsShown LogMode.search r refs' e n s is = searched-IsShown p.query r refs' e n s is

  -- An answer of the log tool that shows a slice shows a range of the log of at most its limit and
  -- of at most 32 KiB, whose text is decoded from exactly these bytes; the reference names the
  -- job, the attempt and the range, and is registered as evidence.
  pub read_job_log-IsShown :
      (r : LogReadResult) (refs' : List String)
      → read_job_log x (some content) p j a refs ≡ ok (read r, refs')
      → (s : LogSlice) → r.slice ≡ some s
      → IsShown x content p j a refs' r s
  unfolding read_job_log
  read_job_log-IsShown r refs' e s is = by_mode-IsShown p.mode r refs' (cc) (ground (arith, e)) s is

  -- The slice of a match that is found begins at or before it and reaches far enough.
  abbrev pub ShowsMatch : Bytes → LogReadResult → ℕ → Type 0
  ShowsMatch query r found =
      (s : LogSlice) × (r.slice ≡ some s)
      × (s.start ≤ found)
      × (found < s.end)
      × (2 * length query ≤ p.limit → found + length query ≤ s.end)

  match_fits :
      (query : Bytes) (found : ℕ)
      → 0 < length query
      → IsFirstMatch content p.offset query (some found)
      → found + length query ≤ length content
  match_fits query found filled first =
      omega (arith, has_prefix-le query (drop found content) first.1, length-drop found content)

  match-shown :
      (query : Bytes) (found : ℕ) (r : LogReadResult)
      → 0 < length query
      → 0 < p.limit
      → p.limit ≤ max_result_bytes
      → IsFirstMatch content p.offset query (some found)
      → r.slice ≡ slice_at x content p (some found)
      → ShowsMatch query r found
  unfolding slice_at read_slice reader_read
  match-shown query found r filled some_limit max_limit first is =
      let start = match_start (length content) p.offset p.limit found in
      let b =
        match_start_bounds (length content) p.offset p.limit found (length query) first.0
          (match_fits query found filled first) filled some_limit in
      let n = length-take-take (min p.limit max_result_bytes) (drop start content) in
      let m = length-drop start content in
      (
        read_slice x content start p.limit,
        is,
        b.0,
        omega (arith, n, m, b),
        λ short. let more = b.3 short in omega (arith, n, m, more),
      )

  -- A search with a query that is not empty answers the first match at or behind the offset, or
  -- says that there is none; the slice that comes with a match begins at or before it and reaches
  -- behind its first byte, and holds all of it where the query has at most half of the limit's
  -- bytes.
  pub read_job_log-finds :
      (query : Bytes) (r : LogReadResult) (refs' : List String)
      → p.mode ≡ LogMode.search
      → p.query ≡ some query
      → 0 < length query
      → 0 < p.limit
      → p.limit ≤ max_result_bytes
      → read_job_log x (some content) p j a refs ≡ ok (read r, refs')
      → IsFirstMatch content p.offset query r.match_offset
        × ((found : ℕ) → r.match_offset ≡ some found → ShowsMatch query r found)
  unfolding read_job_log by_mode searched answer
  read_job_log-finds query r refs' m q filled some_limit max_limit e =
      let first = search_file (some content) p.offset query in
      let is : read (record {
        size = length content;
        match_offset = first;
        slice = slice_at x content p first;
        reference =
            Option.map (λ (s : LogSlice). log_reference p.stream j a s.start s.end)
              (slice_at x content p first);
      })
          ≡ read r =
        ground (arith, e, m, q) in
      let found_is : first ≡ r.match_offset = cc in
      let slice_is : r.slice ≡ slice_at x content p first = cc in
      let right = search_file-first content p.offset query filled in
      (
        subst (IsFirstMatch content p.offset query) found_is right,
        λ found at.
            match-shown query found r filled some_limit max_limit
              (subst (IsFirstMatch content p.offset query) (found_is ∙ at) right)
              (slice_is ∙ ap (slice_at x content p) (found_is ∙ at)),
      )
