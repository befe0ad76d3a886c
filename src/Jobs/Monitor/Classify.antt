-- ===== src/Jobs/Monitor/Classify.antt =====
-- What a log holds of the output, and which ends of an attempt count as failures.
use zgent.Common.{
  ◌≤◌, length, length-append, true, false, ◌≡◌, refl, sym, ap, ◌∙◌, Option, none, some, List, [],
  ◌∷◌, ◌++◌, String, ℕ, take, drop, take-append-drop, arith,
}
use mathlib.Core.List.{append_assoc, append-nil}
use zgent.World.{Bytes}
use zgent.Jobs.Monitor.{
  Write, whole, raised, Drained, chunk, read_error, DrainState, drain, accept, closed,
}

-- The output that the process wrote, as the reads returned it.
abbrev pub output : List Drained → Bytes
output [] = []
output (chunk c e ∷ rest) = c ++ output rest
output (read_error m ∷ rest) = []

accept-errors :
    (s : DrainState) (c : Bytes) (e : Write) → length s.errors ≤ length (accept s c e).errors
unfolding accept
accept-errors s c whole = ground arith
accept-errors s c (raised n m) = ground (arith, length-append s.errors (m ∷ []))

drain-errors : (s : DrainState) (l : List Drained) → length s.errors ≤ length (drain s l).errors
unfolding drain
drain-errors s [] = omega arith
drain-errors s (read_error m ∷ rest) = omega (arith, length-append s.errors (m ∷ []))
drain-errors s (chunk c e ∷ rest) =
    omega (arith, accept-errors s c e, drain-errors (accept s c e) rest)

accept_clean :
    (s : DrainState) (c : Bytes) (e : Write)
    → s.writable ≡ true
    → length (accept s c e).errors ≡ length s.errors
    → ((accept s c e).writable ≡ true) × ((accept s c e).content ≡ s.content ++ c)
unfolding accept
accept_clean s c whole w h = ground arith
accept_clean s c (raised n m) w h = absurd (ground (arith, length-append s.errors (m ∷ [])))

-- A drain that starts writable and reports no error has written all the output behind what the
-- log held.
pub drain_complete :
    (s : DrainState) (l : List Drained)
    → s.writable ≡ true
    → length (drain s l).errors ≡ length s.errors
    → (drain s l).content ≡ s.content ++ output l
unfolding drain
drain_complete s [] w h = sym (append-nil s.content)
drain_complete s (read_error m ∷ rest) w h = absurd (omega (arith, length-append s.errors (m ∷ [])))
drain_complete s (chunk c e ∷ rest) w h =
    let same =
      let q : length (accept s c e).errors ≡ length s.errors =
        omega (arith, accept-errors s c e, drain-errors (accept s c e) rest) in
      q in
    let (w', c') = accept_clean s c e w same in
    drain_complete (accept s c e) rest w' (h ∙ sym same)
    ∙ ap (λ (b : Bytes). b ++ output rest) c'
    ∙ append_assoc s.content c (output rest)

accept_kept :
    (s : DrainState) (c : Bytes)
    → s.writable ≡ true
    → ((accept s c whole).writable ≡ true)
      × ((accept s c whole).content ≡ s.content ++ c)
      × ((accept s c whole).pending ≡ s.pending)
unfolding accept
accept_kept s c w = ground arith

accept_lost :
    (s : DrainState) (c : Bytes) (n : ℕ) (m : String)
    → s.writable ≡ true
    → ((accept s c (raised n m)).writable ≡ false)
      × ((accept s c (raised n m)).content ≡ s.content ++ take n c)
      × ((accept s c (raised n m)).pending ≡ drop n c)
unfolding accept
accept_lost s c n m w = ground arith

accept_dead :
    (s : DrainState) (c : Bytes) (e : Write)
    → s.writable ≡ false
    → ((accept s c e).writable ≡ false)
      × ((accept s c e).content ≡ s.content)
      × ((accept s c e).pending ≡ s.pending)
unfolding accept
accept_dead s c e h = ground arith

drain_dead :
    (s : DrainState) (l : List Drained)
    → s.writable ≡ false
    → ((drain s l).content ≡ s.content) × ((drain s l).pending ≡ s.pending)
unfolding drain
drain_dead s [] h = (refl, refl)
drain_dead s (read_error m ∷ rest) h = (refl, refl)
drain_dead s (chunk c e ∷ rest) h =
    let (w, q, p) = accept_dead s c e h in
    let (q', p') = drain_dead (accept s c e) rest w in (q' ∙ q, p' ∙ p)

-- What is on disk and what the buffer holds, together an initial part of the output.
drain-pending :
    (s : DrainState) (l : List Drained)
    → s.writable ≡ true
    → s.pending ≡ []
    → (p q : Bytes) × ((drain s l).content ≡ s.content ++ p)
      × (output l ≡ p ++ ((drain s l).pending ++ q))
unfolding drain
drain-pending s [] w h = ([], [], sym (append-nil s.content), sym (append-nil s.pending ∙ h))
drain-pending s (read_error m ∷ rest) w h =
    ([], [], sym (append-nil s.content), sym (append-nil s.pending ∙ h))
drain-pending s (chunk c whole ∷ rest) w h =
    let (w', c', h') = accept_kept s c w in
    let (p, q, e, o) = drain-pending (accept s c whole) rest w' (h' ∙ h) in
    (
      c ++ p,
      q,
      e ∙ ap (λ (b : Bytes). b ++ p) c' ∙ append_assoc s.content c p,
      ap (λ (b : Bytes). c ++ b) o ∙ sym (append_assoc c p _),
    )
drain-pending s (chunk c (raised n m) ∷ rest) w h =
    let (w', c', p') = accept_lost s c n m w in
    let (same, held) = drain_dead (accept s c (raised n m)) rest w' in
    (
      take n c,
      output rest,
      same ∙ c',
      ap (λ (b : Bytes). b ++ output rest) (sym (take-append-drop n c))
          ∙ append_assoc (take n c) (drop n c) (output rest)
          ∙ ap (λ (b : Bytes). take n c ++ (b ++ output rest)) (sym (held ∙ p')),
    )

closed-content :
    (s : DrainState) (n : ℕ) (e : Option String)
    → (closed s n e).content ≡ s.content ++ take n s.pending
unfolding closed
closed-content s n none = refl
closed-content s n (some m) = refl

-- What a drain that starts writable, with nothing in the buffer, and its close add to the log is an
-- initial part of the output, whatever write fails, whatever part of the chunk it leaves on disk, and
-- whatever part of the rest the close still writes: no byte is lost in between, and none is repeated.
pub drain-prefix :
    (s : DrainState) (l : List Drained) (flushed : ℕ) (error : Option String)
    → s.writable ≡ true
    → s.pending ≡ []
    → (p q : Bytes) × ((closed (drain s l) flushed error).content ≡ s.content ++ p)
      × (output l ≡ p ++ q)
drain-prefix s l n error w h =
    let (p, q, e, o) = drain-pending s l w h in
    let held = (drain s l).pending in
    (
      p ++ take n held,
      drop n held ++ q,
      closed-content (drain s l) n error
          ∙ ap (λ (b : Bytes). b ++ take n held) e
          ∙ append_assoc s.content p (take n held),
      o
          ∙ ap (λ (b : Bytes). p ++ b)
              (ap (λ (b : Bytes). b ++ q) (sym (take-append-drop n held))
                ∙ append_assoc (take n held) (drop n held) q)
          ∙ sym (append_assoc p (take n held) (drop n held ++ q)),
    )
