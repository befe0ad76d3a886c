-- ===== src/Jobs/Store/Chunks.antt =====
-- The window that a read of a log returns (jobs/store.py: read_log).
use zgent.Common.{
  ℕ, ◌+◌, ◌-◌, ◌≤◌, min, ltb, String, ◌≡◌, refl, sym, ap, ◌∙◌, true, false, ◌||◌, Option, none,
  some, ◌⊎◌, inl, List, [], ◌∷◌, length, take, drop, length-take, length-drop, arith,
}
use zgent.Common.Exec.{Result, ok, err, ◌>>=◌, raise}
use zgent.Common.Int.{ℤ, pos, negsuc}
use zgent.Externals.{Externals}
use zgent.Jobs.Models.{LogStream, LogChunk, AttemptRecord}
use zgent.Jobs.Store.{
  chunk, checked_log, bounded_log, read_log, read_attempt, read_log_file, max_log_read_bytes,
  log_of, attempt_files, attempt_dir, found, component,
}
use zgent.World.{World, Bytes}

module _ (x : Externals) where
  -- The window of a chunk: where the read begins and ends, and that it makes progress.
  pub record IsWindow (offset limit : ℕ) (c : LogChunk) : Type 0 where
    pub begins : c.start_offset ≡ min offset c.total_bytes
    pub in_limit : c.end_offset ≤ c.start_offset + limit
    pub in_log : c.end_offset ≤ c.total_bytes
    pub progress :
        (c.eof ≡ true) × (c.end_offset ≡ c.total_bytes)
        ⊎ (c.eof ≡ false) × (c.end_offset ≡ c.start_offset + limit)

  chunk-IsWindow :
      (s : LogStream) (offset limit : ℕ) (log : Option Bytes)
      → IsWindow offset limit (chunk x s offset limit log)
  unfolding chunk
  chunk-IsWindow s offset limit none = record {
    begins = omega arith;
    in_limit = omega arith;
    in_log = omega arith;
    progress = inl (refl, refl);
  }
  chunk-IsWindow s offset limit (some content) =
      let start = min offset (length content) in
      let n = length-take limit (drop start content) in
      let m = length-drop start content in
      record {
        begins = refl;
        in_limit = omega (arith, n, m);
        in_log = omega (arith, n, m);
        progress = ground (arith, n, m);
      }

  checked_log-ok :
      (j a : String) (s : LogStream) (offset limit : ℕ) (w w' : World) (c : LogChunk)
      → checked_log x j a s offset limit w ≡ (ok c, w')
      → (w' ≡ w) × (c ≡ chunk x s offset limit (log_of s (attempt_files w j a)))
  unfolding checked_log read_attempt read_log_file ◌>>=◌ attempt_dir found
  checked_log-ok j a s offset limit w w' c h =
      go (component j) refl (component a) refl (attempt_files w j a).attempt refl
    where
      go :
          (r : Result (Unit {0}))
          → component j ≡ r
          → (r' : Result (Unit {0})) → component a ≡ r'
          → (o : Option AttemptRecord) → (attempt_files w j a).attempt ≡ o
          → (w' ≡ w) × (c ≡ chunk x s offset limit (log_of s (attempt_files w j a)))
      go (err e) p r' p' o q = ground (arith, h, p)
      go (ok u) p (err e) p' o q = ground (arith, h, p, p')
      go (ok u) p (ok u') p' none q = ground (arith, h, p, p', q)
      go (ok u) p (ok u') p' (some r) q = ground (arith, h, p, p', q)

  abbrev pub bytes_of : Option Bytes → Bytes
  bytes_of none = []
  bytes_of (some content) = content

  -- What a chunk says of a log.
  pub record IsChunk (log : Bytes) (offset limit : ℕ) (c : LogChunk) : Type 0 where
    pub window : IsWindow offset limit c
    pub total : c.total_bytes ≡ length log
    pub text :
        c.text ≡ x.decode_text (take (c.end_offset - c.start_offset) (drop c.start_offset log))

  take-take-length : {A : Type 0} (n : ℕ) (xs : List A) → take (length (take n xs)) xs ≡ take n xs
  take-take-length ℕ.zero xs = refl
  take-take-length (ℕ.suc n) [] = refl
  take-take-length (ℕ.suc n) (y ∷ xs) = ap (λ ys. y ∷ ys) (take-take-length n xs)

  added : (m n : ℕ) → (m + n) - m ≡ n
  added m n = omega arith

  chunk-IsChunk :
      (s : LogStream) (offset limit : ℕ) (log : Option Bytes)
      → IsChunk (bytes_of log) offset limit (chunk x s offset limit log)
  unfolding chunk
  chunk-IsChunk s offset limit none = record {
    window = chunk-IsWindow s offset limit none;
    total = refl;
    text = refl;
  }
  chunk-IsChunk s offset limit (some content) =
      let start = min offset (length content) in
      record {
        window = chunk-IsWindow s offset limit (some content);
        total = refl;
        text = ap x.decode_text (
            sym (
              ap (λ n. take n (drop start content))
                (added start (length (take limit (drop start content))))
              ∙ take-take-length limit (drop start content)));
      }

  -- A read of a log that returns a chunk changes nothing and had an offset that is not negative and
  -- a limit from 1 byte to 32 KiB. The chunk begins at the offset, or at the end of a shorter log,
  -- has the limit's number of bytes unless the log ends before, says so in that case only, and its
  -- text is decoded from exactly the bytes between its offsets.
  pub read_log-IsChunk :
      (j a : String) (s : LogStream) (offset limit : ℤ) (w w' : World) (c : LogChunk)
      → read_log x j a s offset limit w ≡ (ok c, w')
      → (w' ≡ w)
        × ((o : ℕ) × (l : ℕ) × (offset ≡ pos o)
            × (limit ≡ pos l)
            × (1 ≤ l)
            × (l ≤ max_log_read_bytes)
            × IsChunk (bytes_of (log_of s (attempt_files w j a))) o l c)
  unfolding read_log bounded_log raise
  read_log-IsChunk j a s (negsuc n) limit w w' c h = ground (arith, h)
  read_log-IsChunk j a s (pos o) (negsuc n) w w' c h = ground (arith, h)
  read_log-IsChunk j a s (pos o) (pos l) w w' c h =
      let bounds : (ltb l 1 || ltb max_log_read_bytes l) ≡ false = ground (arith, h) in
      let (same, c_is) = checked_log-ok j a s o l w w' c (ground (arith, h)) in
      (
        same,
        (
          o,
          l,
          refl,
          refl,
          ground (arith, bounds),
          ground (arith, bounds),
          rw c_is (chunk-IsChunk s o l (log_of s (attempt_files w j a))),
        ),
      )
