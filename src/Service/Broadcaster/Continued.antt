-- ===== src/Service/Broadcaster/Continued.antt =====
-- What an operation of the broadcaster leaves of a subscription
-- (cyan/service/transport/ipc_broadcaster.py): the same client and filter, with the state events of
-- before and those of an event.

use mathlib.Core.List.{append_assoc, append-nil}
use zgent.Service.Broadcaster.{
  Message, Subscription, overflows, takes, served, event_of, after_offer, QueuedEvent, keep_if,
  queued, overflow, offer, is_overflow, slow_writers, serve_all, is_in, write_head, change_first,
  Offer,
}
use zgent.Service.Broadcaster.Delivery.{states, states-append, offer-queued}
use zgent.Common.{
  ℕ, ◌≤◌, Bool, true, false, not, List, [], ◌∷◌, ◌++◌, length, ◌≡◌, refl, ap, sym, ◌∙◌, inl, inr,
  if◌then◌else◌, Bool-cases, arith, All-map, String, All, str_eq,
}

pub All-keep_if :
    {A : Type 0} (P : A → Type 0) (p : A → Bool) (l : List A) → All P l → All P (keep_if p l)
unfolding keep_if
All-keep_if P p [] h = tt
All-keep_if P p (a ∷ l) (h, hs) = elim (Bool-cases (p a)) [
  | inl e ↦ rw (e) (h, All-keep_if P p l hs)
  | inr e ↦ rw (e) (All-keep_if P p l hs)
]

pub All-change_first :
    {P Q : Subscription → Type 0} (f : Subscription → Subscription) (sub_id : String)
    (l : List Subscription)
    → ((s : Subscription) → P s → Q s)
    → ((s : Subscription) → P s → Q (f s))
    → All P l
    → All Q (change_first f sub_id l)
unfolding change_first
All-change_first f sub_id [] same changed h = tt
All-change_first f sub_id (s ∷ l) same changed (h, hs) =
    elim (Bool-cases (str_eq s.sub_id sub_id)) [
      | inl e ↦ rw (e) (changed s h, All-map same l hs)
      | inr e ↦ rw (e) (same s h, All-change_first f sub_id l same changed hs)
    ]

-- The state events of a subscription, pushed and then queued.
unfoldable pub all_states : Subscription → List QueuedEvent
all_states s = states (s.pushed ++ s.queue)

-- What becomes of a subscription that stays.
unfoldable pub IsContinued : (size : ℕ) → List QueuedEvent → Subscription → Subscription → Type 0
IsContinued size new s s' =
    (s'.sub_id ≡ s.sub_id)
    × (s'.writer ≡ s.writer)
    × (s'.topics ≡ s.topics)
    × (s'.scope ≡ s.scope)
    × (length s'.queue ≤ size)
    × (all_states s' ≡ all_states s ++ new)

pub same-IsContinued :
    (size : ℕ) (s : Subscription) → length s.queue ≤ size → IsContinued size [] s s
unfolding IsContinued
same-IsContinued size s h = (refl, refl, refl, refl, h, sym (append-nil (all_states s)))

offered-IsContinued :
    (size : ℕ) (item : QueuedEvent) (s : Subscription)
    → length s.queue ≤ size
    → (o : Offer) → offer size item s.queue ≡ o
    → is_overflow o ≡ false
    → IsContinued size (states (item ∷ [])) s (after_offer s o)
unfolding IsContinued after_offer is_overflow all_states
offered-IsContinued size item s h (queued q) e f =
    let (room, same) = offer-queued size item s.queue q h e in
    (
      refl,
      refl,
      refl,
      refl,
      room,
      states-append s.pushed q
          ∙ ap (λ l. states s.pushed ++ l) same
          ∙ sym (append_assoc (states s.pushed) (states s.queue) (states (item ∷ [])))
          ∙ ap (λ l. l ++ states (item ∷ [])) (sym (states-append s.pushed s.queue)),
    )
offered-IsContinued size item s h overflow e f = absurd (cc)

pub ready-IsContinued :
    (size : ℕ) (s : Subscription)
    → length s.queue ≤ size
    → IsContinued size [] s (record s { ready = true })
unfolding IsContinued all_states
ready-IsContinued size s h = (refl, refl, refl, refl, h, sym (append-nil (all_states s)))

head-IsContinued :
    (size : ℕ) (s : Subscription) (queue : List QueuedEvent)
    → s.queue ≡ queue
    → length s.queue ≤ size
    → IsContinued size [] s (write_head queue s)
unfolding IsContinued all_states write_head
head-IsContinued size s [] e h = same-IsContinued size s h
head-IsContinued size s (item ∷ queue) e h = (
  refl,
  refl,
  refl,
  refl,
  omega (arith, ap length e),
  ap states (append_assoc s.pushed (item ∷ []) queue ∙ ap (λ l. s.pushed ++ l) (sym e))
      ∙ sym (append-nil (all_states s)),
)

pub written-IsContinued :
    (size : ℕ) (ready : Bool) (s : Subscription)
    → length s.queue ≤ size
    → IsContinued size [] s (if ready then write_head s.queue s else s)
written-IsContinued size true s h = head-IsContinued size s s.queue refl h
written-IsContinued size false s h = same-IsContinued size s h

is_in-cons : (w v : ℕ) (l : List ℕ) → is_in w l ≡ true → is_in w (v ∷ l) ≡ true
unfolding is_in
is_in-cons w v l h = ground arith

is_in-head : (w : ℕ) (l : List ℕ) → is_in w (w ∷ l) ≡ true
unfolding is_in
is_in-head w l = ground arith

offered-writer : (s : Subscription) (o : Offer) → (after_offer s o).writer ≡ s.writer
unfolding after_offer
offered-writer s (queued q) = refl
offered-writer s overflow = refl

-- What an event adds to the state events of a subscription that takes it.
unfoldable pub added :
    (fnmatch : String → String → Bool) → List String → String → Message → List QueuedEvent
added fnmatch topics scope e = if takes fnmatch topics scope e then states (event_of e ∷ []) else []

module _ (fnmatch : String → String → Bool) (size : ℕ) where
  pub served-IsContinued :
      (e : Message) (s : Subscription)
      → length s.queue ≤ size
      → overflows fnmatch size e s ≡ false
      → IsContinued size (added fnmatch s.topics s.scope e) s (served fnmatch size e s)
  unfolding overflows added served
  served-IsContinued e s h f = elim (Bool-cases (takes fnmatch s.topics s.scope e)) [
    | inl t ↦ rw (t) (offered-IsContinued size (event_of e) s h _ refl (rw (t) at f))
    | inr t ↦ rw (t) (same-IsContinued size s h)
  ]

  served-writer : (e : Message) (s : Subscription) → (served fnmatch size e s).writer ≡ s.writer
  unfolding served
  served-writer e s = elim (Bool-cases (takes fnmatch s.topics s.scope e)) [
    | inl t ↦ rw (t) (offered-writer s (offer size (event_of e) s.queue))
    | inr t ↦ rw (t)
  ]

  -- The subscriptions that handle leaves: those whose writer is not cut off, each served.
  pub handle-All :
      {P : Subscription → Type 0} (Q : Subscription → Type 0) (e : Message) (slow : List ℕ)
      (l : List Subscription)
      → ((w : ℕ) → is_in w (slow_writers fnmatch size e l) ≡ true → is_in w slow ≡ true)
      → ((s : Subscription)
          → overflows fnmatch size e s ≡ false
          → P s
          → Q (served fnmatch size e s))
      → All P l
      → All Q
          (keep_if (λ (s : Subscription). not (is_in s.writer slow)) (serve_all fnmatch size e l))
  unfolding serve_all keep_if slow_writers
  handle-All Q e slow [] within step h = tt
  handle-All Q e slow (s ∷ l) within step (h, hs) = elim (Bool-cases (overflows fnmatch size e s)) [
    | inl cut ↦
        let is : is_in s.writer slow ≡ true =
          within s.writer (rw (cut) (is_in-head s.writer (slow_writers fnmatch size e l))) in
        rw (served-writer e s, is)
          (handle-All Q e slow l
            (λ w i. within w (rw (cut) (is_in-cons w s.writer (slow_writers fnmatch size e l) i)))
            step hs)
    | inr fine ↦
        let rest = handle-All Q e slow l (λ w i. within w (rw (fine) i)) step hs in
        elim (Bool-cases (is_in (served fnmatch size e s).writer slow)) [
          | inl gone ↦ rw (gone) rest
          | inr stays ↦ rw (stays) (step s fine h, rest)
        ]
  ]
