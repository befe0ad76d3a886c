-- ===== src/Incidents/Evidence/Snapshots.antt =====
-- The bounds of the two log snapshots of a failure capsule (evidence.py: _snapshot_failure_logs).
use zgent.Common.{
  ℕ, ◌+◌, ◌-◌, ◌≤◌, min, ◌≡◌, refl, ap, Option, List, [], ◌∷◌, length, take, drop, length-take,
  length-drop, arith,
}
use zgent.Externals.{Externals}
use zgent.Incidents.Evidence.{
  content_of, size_of, capsule_log_bytes, snapshot_log, snapshot_failure_logs,
}
use zgent.World.{Bytes}

take-all : {A : Type 0} (n : ℕ) (xs : List A) → length xs ≤ n → take n xs ≡ xs
take-all ℕ.zero [] h = refl
take-all ℕ.zero (x ∷ xs) h = ground (arith, h)
take-all (ℕ.suc n) [] h = refl
take-all (ℕ.suc n) (x ∷ xs) h = ap (λ ys. x ∷ ys) (take-all n xs (omega (arith, h)))

module _ (x : Externals) where
  -- A snapshot within `limit` is the longest end of the log of at most that many bytes.
  snapshot_log-is_end :
      (log : Option Bytes) (limit : ℕ)
      → let s = snapshot_log x log limit in
        (s.included_end ≡ size_of log)
        × (s.included_end - s.included_start ≡ min limit (size_of log))
        × (s.tail ≡ x.decode_text (drop s.included_start (content_of log)))
  unfolding snapshot_log size_of content_of
  snapshot_log-is_end log limit =
      let c = content_of log in
      let start = length c - limit in
      let n = length-take limit (drop start c) in
      let m = length-drop start c in
      (
        omega (arith, n, m),
        omega (arith, n, m),
        ap x.decode_text (take-all limit (drop start c) (omega (arith, m))),
      )

  -- The two snapshots of a failure, taken together, hold at most 32 KiB, and each ends where its log
  -- ends. The errors come first: they lose bytes only if they alone exceed the 32 KiB, the output
  -- has all that the errors leave, and what is kept of either log is decoded from its end.
  pub snapshot_failure_logs-bounds :
      (out_log error_log : Option Bytes)
      → let (out, errors) = snapshot_failure_logs x out_log error_log in
        ((out.included_end - out.included_start) + (errors.included_end - errors.included_start)
          ≤ capsule_log_bytes)
        × (errors.included_end - errors.included_start ≡ min capsule_log_bytes (size_of error_log))
        × (out.included_end - out.included_start
            ≡ min (capsule_log_bytes - size_of error_log) (size_of out_log))
        × (out.included_end ≡ size_of out_log)
        × (errors.included_end ≡ size_of error_log)
        × (out.tail ≡ x.decode_text (drop out.included_start (content_of out_log)))
        × (errors.tail ≡ x.decode_text (drop errors.included_start (content_of error_log)))
  unfolding snapshot_failure_logs
  snapshot_failure_logs-bounds out_log error_log =
      let e = min (size_of error_log) capsule_log_bytes in
      let (oe, ol, ot) = snapshot_log-is_end out_log (capsule_log_bytes - e) in
      let (ee, el, et) = snapshot_log-is_end error_log e in
      (omega (arith, ol, el), omega (arith, el), omega (arith, ol), oe, ee, ot, et)
