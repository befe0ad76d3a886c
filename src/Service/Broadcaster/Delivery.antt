-- ===== src/Service/Broadcaster/Delivery.antt =====
-- The queue of a subscription in handle (cyan/service/transport/ipc_broadcaster.py): what it holds
-- after an event, and when the connection ends.
use zgent.Service.Broadcaster.{
  Message, Subscription, overflows, takes, event_of, QueuedEvent, is_droppable, keep_if, evict,
  queued, made_room, offer, is_overflow,
}
use mathlib.Core.List.{append_assoc, append-nil}
use mathlib.Core.Bool.{true≢false}
use zgent.Common.{
  ℕ, suc, ◌+◌, ◌≤◌, Bool, true, false, not, List, [], ◌∷◌, ◌++◌, length, ltb, ◌≡◌, refl, ap, sym,
  ◌∙◌, ◌↔◌, String, inl, inr, Bool-cases, arith, length-append, subst,
}

-- The state events of a queue, in their order: those that may not be dropped.
unfoldable pub states : List QueuedEvent → List QueuedEvent
states queue = keep_if (λ (item : QueuedEvent). not (is_droppable item.event_type)) queue

pub keep_if-append :
    {A : Type 0} (p : A → Bool) (a b : List A) → keep_if p (a ++ b) ≡ keep_if p a ++ keep_if p b
unfolding keep_if
keep_if-append p [] b = refl
keep_if-append p (x ∷ a) b = elim (Bool-cases (p x)) [
  | inl e ↦ rw (e, keep_if-append p a b)
  | inr e ↦ rw (e, keep_if-append p a b)
]

pub states-append : (a b : List QueuedEvent) → states (a ++ b) ≡ states a ++ states b
unfolding states
states-append a b = keep_if-append (λ (item : QueuedEvent). not (is_droppable item.event_type)) a b

pub states-dropped :
    (item : QueuedEvent) → is_droppable item.event_type ≡ true → states (item ∷ []) ≡ []
unfolding states keep_if
states-dropped item e = rw (e)

pub states-kept :
    (item : QueuedEvent) → is_droppable item.event_type ≡ false → states (item ∷ []) ≡ item ∷ []
unfolding states keep_if
states-kept item e = rw (e)

pub states-none : states [] ≡ []
unfolding states keep_if
states-none = refl

states_drop_middle :
    (a b : List QueuedEvent) (item : QueuedEvent)
    → is_droppable item.event_type ≡ true
    → states (a ++ (item ∷ b)) ≡ states (a ++ b)
states_drop_middle a b item e = rw (
  states-append a (item ∷ b),
  states-append (item ∷ []) b,
  states-dropped item e,
  states-append a b,
)

evict-retained :
    (retained queue : List QueuedEvent) → evict true retained queue ≡ (true, retained ++ queue)
unfolding evict
evict-retained retained [] = ap (λ l. (true, l)) (sym (append-nil retained))
evict-retained retained (item ∷ queue) =
    evict-retained (retained ++ (item ∷ [])) queue
    ∙ ap (λ l. (true, l)) (append_assoc retained (item ∷ []) queue)

-- An eviction makes room for an event, and no state event is lost.
evict-room :
    (retained queue kept : List QueuedEvent)
    → evict false retained queue ≡ (true, kept)
    → (suc (length kept) ≡ length retained + length queue)
      × (states kept ≡ states (retained ++ queue))
unfolding evict
evict-room retained [] kept e = absurd (cc)
evict-room retained (item ∷ queue) kept e = elim (Bool-cases (is_droppable item.event_type)) [
  | inl drops ↦
      let is : retained ++ queue ≡ kept =
        ap (λ r. r.1) (sym (evict-retained retained queue) ∙ rw (drops) at e) in
      (
        rw (sym is) (omega (arith, length-append retained queue)),
        ap states (sym is) ∙ sym (states_drop_middle retained queue item drops),
      )
  | inr keeps ↦
      let (room, same) = evict-room (retained ++ (item ∷ [])) queue kept (rw (keeps) at e) in
      (
        omega (arith, room, length-append retained (item ∷ [])),
        same ∙ ap states (append_assoc retained (item ∷ []) queue),
      )
]

evict-full :
    (retained queue kept : List QueuedEvent)
    → evict false retained queue ≡ (false, kept)
    → states queue ≡ queue
unfolding evict
evict-full retained [] kept e = states-none
evict-full retained (item ∷ queue) kept e = elim (Bool-cases (is_droppable item.event_type)) [
  | inl drops ↦
      absurd (true≢false (ap (λ r. r.0) (sym (evict-retained retained queue) ∙ rw (drops) at e)))
  | inr keeps ↦
      states-append (item ∷ []) queue
      ∙ rw (
        states-kept item keeps,
        evict-full (retained ++ (item ∷ [])) queue kept (rw (keeps) at e),
      )
]

queued-injective : {q q' : List QueuedEvent} → queued q ≡ queued q' → q ≡ q'
queued-injective e = cc

into_room :
    (size : ℕ) (item : QueuedEvent) (queue queue' : List QueuedEvent)
    → length queue ≤ size
    → (r : Bool × List QueuedEvent) → evict false [] queue ≡ r
    → made_room item r ≡ queued queue'
    → (length queue' ≤ size) × (states queue' ≡ states queue ++ states (item ∷ []))
unfolding made_room
into_room size item queue queue' h (true, kept) found e =
    let (room, same) = evict-room [] queue kept found in
    let is : kept ++ (item ∷ []) ≡ queue' = queued-injective e in
    (
      rw (sym is) (ground (arith, room, length-append kept (item ∷ []))),
      ap states (sym is) ∙ states-append kept (item ∷ []) ∙ ap (λ l. l ++ states (item ∷ [])) same,
    )
into_room size item queue queue' h (false, kept) found e = absurd (cc)

-- A queue takes an event: it stays within its size, and its state events are those of before,
-- followed by the event if it is one.
pub offer-queued :
    (size : ℕ) (item : QueuedEvent) (queue queue' : List QueuedEvent)
    → length queue ≤ size
    → offer size item queue ≡ queued queue'
    → (length queue' ≤ size) × (states queue' ≡ states queue ++ states (item ∷ []))
unfolding offer
offer-queued size item queue queue' h e = elim (Bool-cases (ltb (length queue) size)) [
  | inl room ↦
      let is : queue ++ (item ∷ []) ≡ queue' = queued-injective (rw (room) at e) in
      (
        rw (sym is) (ground (arith, length-append queue (item ∷ []))),
        ap states (sym is) ∙ states-append queue (item ∷ []),
      )
  | inr full ↦ elim (Bool-cases (is_droppable item.event_type)) [
    | inl drops ↦
        let is : queue ≡ queue' = queued-injective (rw (full, drops) at e) in
        (
          subst (λ q. length q ≤ size) is h,
          rw (sym is, states-dropped item drops, append-nil (states queue)),
        )
    | inr keeps ↦ into_room size item queue queue' h _ refl (rw (full, keeps) at e)
  ]
]

into_none :
    (item : QueuedEvent) (queue : List QueuedEvent) (r : Bool × List QueuedEvent)
    → evict false [] queue ≡ r
    → is_overflow (made_room item r) ≡ true
    → states queue ≡ queue
unfolding made_room is_overflow
into_none item queue (true, kept) found h = absurd (cc)
into_none item queue (false, kept) found h = evict-full [] queue kept found

offer-overflow :
    (size : ℕ) (item : QueuedEvent) (queue : List QueuedEvent)
    → is_overflow (offer size item queue) ≡ true
    → (is_droppable item.event_type ≡ false) × (size ≤ length queue) × (states queue ≡ queue)
unfolding offer is_overflow
offer-overflow size item queue h = elim (Bool-cases (ltb (length queue) size)) [
  | inl room ↦ absurd (true≢false (sym h ∙ rw (room)))
  | inr full ↦ elim (Bool-cases (is_droppable item.event_type)) [
    | inl drops ↦ absurd (true≢false (sym h ∙ rw (full, drops)))
    | inr keeps ↦ (keeps, ground arith, into_none item queue _ refl (rw (full, keeps) at h))
  ]
]

length-states : (queue : List QueuedEvent) → length (states queue) ≤ length queue
unfolding states keep_if
length-states [] = omega arith
length-states (item ∷ queue) = ground (arith, length-states queue)

into_overflow :
    (item : QueuedEvent) (queue : List QueuedEvent) (r : Bool × List QueuedEvent)
    → evict false [] queue ≡ r
    → states queue ≡ queue
    → is_overflow (made_room item r) ≡ true
unfolding made_room is_overflow
into_overflow item queue (true, kept) found h =
    let (room, same) = evict-room [] queue kept found in
    absurd (omega (arith, room, length-states kept, ap length same, ap length h))
into_overflow item queue (false, kept) found h = refl

full_overflow :
    (size : ℕ) (item : QueuedEvent) (queue : List QueuedEvent)
    → (is_droppable item.event_type ≡ false) × (size ≤ length queue) × (states queue ≡ queue)
    → is_overflow (offer size item queue) ≡ true
unfolding offer
full_overflow size item queue (keeps, full, h) = elim (Bool-cases (ltb (length queue) size)) [
  | inl room ↦ absurd (ground arith)
  | inr is_full ↦ rw (is_full, keeps, into_overflow item queue _ refl h)
]

module _ (fnmatch : String → String → Bool) (size : ℕ) where
  -- An event overflows the queue of a subscription exactly when the subscription takes it, it is a
  -- state event, and the queue is full of state events.
  pub overflows-full :
      (e : Message) (s : Subscription)
      → (overflows fnmatch size e s ≡ true)
        ↔ (takes fnmatch s.topics s.scope e ≡ true)
          × (is_droppable e.event_type ≡ false)
          × (size ≤ length s.queue)
          × (states s.queue ≡ s.queue)
  unfolding overflows event_of
  overflows-full e s = (
    (λ h. elim (Bool-cases (takes fnmatch s.topics s.scope e)) [
      | inl t ↦
          let (keeps, full, same) = offer-overflow size (event_of e) s.queue (rw (t) at h) in
          (t, keeps, full, same)
      | inr f ↦ absurd (true≢false (sym h ∙ rw (f)))
    ]),
    λ (t, keeps, full, same). rw (t, full_overflow size (event_of e) s.queue (keeps, full, same)),
  )
