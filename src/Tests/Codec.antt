-- ===== src/Tests/Codec.antt =====
-- A concrete encoding of events in which no number is that of a newline.
use Prim.Native.Nat.{Ordering, compare}
use Prim.Native.Char.{Char, char, code, nul}
use zgent.Common.{
  ℕ, zero, suc, ◌+◌, ◌-◌, String, ◌≡◌, ◌≢◌, refl, ap, ◌∙◌, Option, none, some, List, [], ◌∷◌, ◌++◌,
  arith,
}
use zgent.Jobs.Events.{newline}
use zgent.Jobs.Events.Repair.{IsLineJson, HasNoNewline}
use zgent.Jobs.Models.{
  JobStatus, starting, running, succeeded, failed, cancelled, interrupted, JobEventType,
  job_started, job_succeeded, job_failed, job_cancelled, job_interrupted, JobEvent,
}

abbrev Both : Ordering → Ordering → Type 0
Both Ordering.lt Ordering.lt = Unit
Both _ _ = ⊥

abbrev Low : Ordering → Type 0
Low Ordering.lt = Unit
Low Ordering.eq = ⊥
Low Ordering.gt = ⊥

abbrev BothLt : Ordering → Ordering → Type 0
BothLt Ordering.lt o = Low o
BothLt Ordering.eq _ = ⊥
BothLt Ordering.gt _ = ⊥

abbrev Scalar : Ordering → Ordering → Ordering → Type 0
Scalar Ordering.lt _ _ = Unit
Scalar Ordering.eq o p = BothLt o p
Scalar Ordering.gt o p = BothLt o p

pick : (o p q : Ordering) → (Scalar o p q → Char) → Char
pick Ordering.lt p q k = k tt
pick Ordering.eq Ordering.lt Ordering.lt k = k tt
pick Ordering.gt Ordering.lt Ordering.lt k = k tt
pick _ _ _ k = nul

pick-proof : (o p q : Ordering) (k : Scalar o p q → Char) (s : Scalar o p q) → pick o p q k ≡ k s
unfolding pick
pick-proof Ordering.lt p q k s = refl
pick-proof Ordering.eq Ordering.lt Ordering.lt k s = refl
pick-proof Ordering.gt Ordering.lt Ordering.lt k s = refl
pick-proof Ordering.eq Ordering.lt Ordering.eq k s = elim s [ ]
pick-proof Ordering.eq Ordering.lt Ordering.gt k s = elim s [ ]
pick-proof Ordering.eq Ordering.eq q k s = elim s [ ]
pick-proof Ordering.eq Ordering.gt q k s = elim s [ ]
pick-proof Ordering.gt Ordering.lt Ordering.eq k s = elim s [ ]
pick-proof Ordering.gt Ordering.lt Ordering.gt k s = elim s [ ]
pick-proof Ordering.gt Ordering.eq q k s = elim s [ ]
pick-proof Ordering.gt Ordering.gt q k s = elim s [ ]

of_code : ℕ → Char
unfolding pick
of_code n = pick (compare n 55296) (compare 57343 n) (compare n 1114112) (λ s. char n s)

of_code-code : (c : Char) → of_code (code c) ≡ c
unfolding of_code
of_code-code (char n s) =
    pick-proof (compare n 55296) (compare 57343 n) (compare n 1114112) (λ s. char n s) s

put_text : String → List ℕ → List ℕ
put_text String.[] r = 0 ∷ r
put_text (String.◌∷◌ c s) r = suc (code c + 10) ∷ put_text s r

with_char : Char → Option (String × List ℕ) → Option (String × List ℕ)
with_char c none = none
with_char c (some (s, r)) = some (String.◌∷◌ c s, r)

get_text : List ℕ → Option (String × List ℕ)
unfolding with_char
get_text [] = none
get_text (zero ∷ r) = some (String.[], r)
get_text (suc n ∷ r) = with_char (of_code (n - 10)) (get_text r)

get_text-put : (s : String) (r : List ℕ) → get_text (put_text s r) ≡ some (s, r)
unfolding get_text put_text with_char
get_text-put String.[] r = refl
get_text-put (String.◌∷◌ c s) r =
    ap (λ n. with_char (of_code n) (get_text (put_text s r))) minus
    ∙ rw (of_code-code c) (rw (get_text-put s r) refl)
  where
    minus : (code c + 10) - 10 ≡ code c
    minus = omega arith

put_option : Option String → List ℕ → List ℕ
put_option none r = 0 ∷ r
put_option (some s) r = 1 ∷ put_text s r

text_only : Option (String × List ℕ) → Option (Option String)
text_only none = none
text_only (some (s, r)) = some (some s)

get_option : List ℕ → Option (Option String)
unfolding text_only
get_option [] = none
get_option (zero ∷ r) = some none
get_option (suc n ∷ r) = text_only (get_text r)

get_option-put : (o : Option String) (r : List ℕ) → get_option (put_option o r) ≡ some o
unfolding get_option put_option text_only
get_option-put none r = refl
get_option-put (some s) r = rw (get_text-put s r) refl

type_code : JobEventType → ℕ
type_code job_started = 0
type_code job_succeeded = 1
type_code job_failed = 2
type_code job_cancelled = 3
type_code job_interrupted = 4

type_at : ℕ → JobEventType
type_at zero = job_started
type_at (suc zero) = job_succeeded
type_at (suc (suc zero)) = job_failed
type_at (suc (suc (suc zero))) = job_cancelled
type_at _ = job_interrupted

type_at-code : (t : JobEventType) → type_at (type_code t) ≡ t
unfolding type_at type_code
type_at-code t = ground arith

status_code : JobStatus → ℕ
status_code starting = 0
status_code running = 1
status_code succeeded = 2
status_code failed = 3
status_code cancelled = 4
status_code interrupted = 5

status_at : ℕ → JobStatus
status_at zero = starting
status_at (suc zero) = running
status_at (suc (suc zero)) = succeeded
status_at (suc (suc (suc zero))) = failed
status_at (suc (suc (suc (suc zero)))) = cancelled
status_at _ = interrupted

status_at-code : (t : JobStatus) → status_at (status_code t) ≡ t
unfolding status_at status_code
status_at-code t = ground arith

body : JobEvent → List ℕ → List ℕ
body e r = put_text e.job_id (put_option e.attempt_id r)

unfoldable pub encode : JobEvent → List ℕ
unfolding type_code status_code body put_text put_option
encode e =
    suc (e.seq + 10)
    ∷ type_code e.type
    ∷ status_code e.status
    ∷ suc (e.occurred_at + 10)
    ∷ body e []

event_of : ℕ → JobEventType → JobStatus → ℕ → String → Option (Option String) → Option JobEvent
event_of n t s o j none = none
event_of n t s o j (some a) =
    some (record { seq = n; type = t; job_id = j; attempt_id = a; status = s; occurred_at = o })

rest_of : ℕ → JobEventType → JobStatus → ℕ → Option (String × List ℕ) → Option JobEvent
unfolding event_of
rest_of n t s o none = none
rest_of n t s o (some (j, r)) = event_of n t s o j (get_option r)

unfoldable pub decode : List ℕ → Option JobEvent
unfolding rest_of get_option type_at status_at get_text of_code pick
decode (n ∷ t ∷ s ∷ o ∷ r) = rest_of (n - 11) (type_at t) (status_at s) (o - 11) (get_text r)
decode _ = none

put_text-append : (s : String) (r t : List ℕ) → put_text s r ++ t ≡ put_text s (r ++ t)
unfolding put_text
put_text-append String.[] r t = refl
put_text-append (String.◌∷◌ c s) r t = ap (λ l. suc (code c + 10) ∷ l) (put_text-append s r t)

put_option-append : (o : Option String) (r t : List ℕ) → put_option o r ++ t ≡ put_option o (r ++ t)
unfolding put_option
put_option-append none r t = refl
put_option-append (some s) r t = ap (λ l. 1 ∷ l) (put_text-append s r t)

decode-body :
    (e : JobEvent) (r : List ℕ)
    → decode (
        suc (e.seq + 10)
        ∷ type_code e.type
        ∷ status_code e.status
        ∷ suc (e.occurred_at + 10)
        ∷ body e r)
      ≡ some e
unfolding decode body rest_of event_of
decode-body e r = rw (get_text-put e.job_id (put_option e.attempt_id r)) (
    rw (get_option-put e.attempt_id r) (
      rw (type_at-code e.type) (
        rw (status_at-code e.status) (
          ap some (
            ap (λ m. ap_seq m (suc (e.occurred_at + 10) - 11)) (added e.seq)
            ∙ ap (λ m. ap_seq e.seq m) (added e.occurred_at))))))
  where
    ap_seq : ℕ → ℕ → JobEvent
    ap_seq m n = record e { seq = m; occurred_at = n }

    added : (n : ℕ) → suc (n + 10) - 11 ≡ n
    added n = omega arith

put_text-lines : (s : String) (r : List ℕ) → HasNoNewline r → HasNoNewline (put_text s r)
unfolding put_text
put_text-lines String.[] r h = (λ e. omega (arith, e), h)
put_text-lines (String.◌∷◌ c s) r h = (λ e. omega (arith, e), put_text-lines s r h)

put_option-lines : (o : Option String) (r : List ℕ) → HasNoNewline r → HasNoNewline (put_option o r)
unfolding put_option
put_option-lines none r h = (λ e. omega (arith, e), h)
put_option-lines (some s) r h = (λ e. omega (arith, e), put_text-lines s r h)

type_code-small : (t : JobEventType) → type_code t ≢ newline
unfolding type_code
type_code-small t e = ground (arith, e)

status_code-small : (t : JobStatus) → status_code t ≢ newline
unfolding status_code
status_code-small t e = ground (arith, e)

pub encode-IsLineJson : IsLineJson encode decode
unfolding encode body
encode-IsLineJson = record {
  reads_line = λ e.
      ap
        (λ l. decode (
          suc (e.seq + 10)
          ∷ type_code e.type
          ∷ status_code e.status
          ∷ suc (e.occurred_at + 10)
          ∷ l))
        (put_text-append e.job_id (put_option e.attempt_id []) (newline ∷ [])
          ∙ ap (λ l. put_text e.job_id l) (put_option-append e.attempt_id [] (newline ∷ [])))
      ∙ decode-body e (newline ∷ []);
  reads_bare = λ e. decode-body e [];
  one_line = λ e. (
    λ h. omega (arith, h),
    (
      type_code-small e.type,
      (
        status_code-small e.status,
        (λ h. omega (arith, h), put_text-lines e.job_id _ (put_option-lines e.attempt_id [] tt)),
      ),
    ),
  );
}
