-- ===== src/Service/Broadcaster/Runs.antt =====
-- What a client is sent over a run of the broadcaster (cyan/service/transport/ipc_broadcaster.py):
-- the subscriptions of a history of its operations, and the state events of each.

use mathlib.Core.List.{append-nil}
use zgent.Service.Broadcaster.{
  Message, Subscription, Broadcaster, served, QueuedEvent, keep_if, opened, slow_writers, handle,
  write_head, write_next, activate, disconnect, unsubscribe, remove_writer, subscribe, is_replaced,
}
use zgent.Service.Broadcaster.Delivery.{states-none}
use zgent.Service.Broadcaster.Continued.{
  all_states, IsContinued, added, All-keep_if, All-change_first, handle-All, served-IsContinued,
  ready-IsContinued, written-IsContinued, same-IsContinued,
}
use zgent.Common.{
  ℕ, ◌≤◌, Bool, true, not, List, [], ◌∷◌, ◌++◌, length, ◌≡◌, refl, ap, sym, ◌∙◌, if◌then◌else◌,
  arith, All-map, All-append, ◌==◌, String, All,
}

-- An operation of the broadcaster: the public ones, the rounds of the write loops, and the end of a
-- connection.
pub data Action : Type 0 where
  opens : (sub_id : String) → ℕ → List String → String → (replay_pending : Bool) → Action
  activates : (sub_id : String) → Action
  unsubscribes : (writer : ℕ) → Action
  disconnects : (writer : ℕ) → Action
  handles : Message → Action
  writes : (sub_id : String) → Action

module _ (fnmatch : String → String → Bool) (size : ℕ) where
  unfoldable pub act : Action → Broadcaster → Broadcaster
  act (opens sub_id writer topics scope pending) b = subscribe sub_id writer topics scope pending b
  act (activates sub_id) b = activate sub_id b
  act (unsubscribes writer) b = unsubscribe writer b
  act (disconnects writer) b = disconnect writer b
  act (handles e) b = handle fnmatch size e b
  act (writes sub_id) b = write_next sub_id b

  -- The broadcaster after a history, the latest action first; __init__ has no subscription.
  unfoldable pub after : List Action → Broadcaster
  after [] = record { subscriptions = []; closed = [] }
  after (a ∷ before) = act a (after before)

  -- The state events that a history published for a filter, in the order of the events.
  unfoldable pub published : List String → String → List Action → List QueuedEvent
  published topics scope [] = []
  published topics scope (handles e ∷ before) =
      published topics scope before ++ added fnmatch topics scope e
  published topics scope (_ ∷ before) = published topics scope before

  -- A subscription was opened at some point of the history; its queue is within its size, and what it
  -- was pushed and holds are the state events that have been published for it since.
  unfoldable pub IsAccounted : List Action → Subscription → Type 0
  IsAccounted history s =
      (later earlier : List Action) × (pending : Bool) × (history
        ≡ later ++ (opens s.sub_id s.writer s.topics s.scope pending ∷ earlier))
      × (length s.queue ≤ size)
      × (all_states s ≡ published s.topics s.scope later)

  IsAccounted-size :
      (history : List Action) (s : Subscription) → IsAccounted history s → length s.queue ≤ size
  unfolding IsAccounted
  IsAccounted-size history s (later, earlier, pending, split, h, told) = h

  opened-IsAccounted :
      (sub_id : String) (writer : ℕ) (topics : List String) (scope : String) (pending : Bool)
      (history : List Action)
      → IsAccounted
          (opens sub_id writer topics scope pending ∷ history)
          (opened sub_id writer topics scope pending)
  unfolding IsAccounted opened all_states published
  opened-IsAccounted sub_id writer topics scope pending history =
      ([], history, pending, refl, omega arith, states-none)

  continue-IsAccounted :
      (a : Action) (history : List Action) (s s' : Subscription) (new : List QueuedEvent)
      → ((later : List Action)
          → published s.topics s.scope (a ∷ later) ≡ published s.topics s.scope later ++ new)
      → IsAccounted history s
      → IsContinued size new s s'
      → IsAccounted (a ∷ history) s'
  unfolding IsAccounted IsContinued all_states
  continue-IsAccounted a history s s' new grows (later, earlier, pending, split, h, told)
        (i, w, t, c, h', told') =
      (
        a ∷ later,
        earlier,
        pending,
        rw (i, w, t, c) (ap (λ l. a ∷ l) split),
        h',
        rw (t, c) (told' ∙ ap (λ l. l ++ new) told ∙ sym (grows later)),
      )

  -- An operation that adds no state event leaves a subscription accounted for.
  keep-IsAccounted :
      (a : Action) (history : List Action)
      → ((topics : List String) (scope : String) (later : List Action)
          → published topics scope (a ∷ later) ≡ published topics scope later)
      → (s s' : Subscription) → IsAccounted history s
      → (length s.queue ≤ size → IsContinued size [] s s')
      → IsAccounted (a ∷ history) s'
  keep-IsAccounted a history silent s s' h c =
      continue-IsAccounted a history s s' []
        (λ later.
          silent s.topics s.scope later ∙ sym (append-nil (published s.topics s.scope later)))
        h (c (IsAccounted-size history s h))

  retained-IsAccounted :
      (a : Action) (history : List Action)
      → ((topics : List String) (scope : String) (later : List Action)
          → published topics scope (a ∷ later) ≡ published topics scope later)
      → (p : Subscription → Bool) (l : List Subscription) → All (IsAccounted history) l
      → All (IsAccounted (a ∷ history)) (keep_if p l)
  retained-IsAccounted a history silent p l h =
      All-keep_if (IsAccounted (a ∷ history)) p l
        (All-map (λ s g. keep-IsAccounted a history silent s s g (same-IsContinued size s)) l h)

  act-IsAccounted :
      (a : Action) (history : List Action) (b : Broadcaster)
      → All (IsAccounted history) b.subscriptions
      → All (IsAccounted (a ∷ history)) (act a b).subscriptions
  unfolding act published subscribe activate unsubscribe disconnect remove_writer handle write_next
  act-IsAccounted (opens sub_id writer topics scope pending) history b h =
      All-append (IsAccounted (opens sub_id writer topics scope pending ∷ history)) _
        (opened sub_id writer topics scope pending ∷ [])
        (retained-IsAccounted (opens sub_id writer topics scope pending) history (λ _ _ _. refl)
          (λ s. not (is_replaced writer scope s)) b.subscriptions h)
        (opened-IsAccounted sub_id writer topics scope pending history, tt)
  act-IsAccounted (activates sub_id) history b h =
      let stays = keep-IsAccounted (activates sub_id) history (λ _ _ _. refl) in
      All-change_first (λ s. record s { ready = true }) sub_id b.subscriptions
        (λ s g. stays s s g (same-IsContinued size s))
        (λ s g. stays s (record s { ready = true }) g (ready-IsContinued size s)) h
  act-IsAccounted (unsubscribes writer) history b h =
      retained-IsAccounted (unsubscribes writer) history (λ _ _ _. refl)
        (λ (s : Subscription). not (s.writer == writer)) b.subscriptions h
  act-IsAccounted (disconnects writer) history b h =
      retained-IsAccounted (disconnects writer) history (λ _ _ _. refl)
        (λ (s : Subscription). not (s.writer == writer)) b.subscriptions h
  act-IsAccounted (handles e) history b h =
      handle-All fnmatch size (IsAccounted (handles e ∷ history)) e
        (slow_writers fnmatch size e b.subscriptions) b.subscriptions (λ w i. i)
        (λ s fine g.
          continue-IsAccounted (handles e) history s (served fnmatch size e s)
            (added fnmatch s.topics s.scope e) (λ later. refl) g
            (served-IsContinued fnmatch size e s (IsAccounted-size history s g) fine))
        h
  act-IsAccounted (writes sub_id) history b h =
      let stays = keep-IsAccounted (writes sub_id) history (λ _ _ _. refl) in
      All-change_first (λ (s : Subscription). if s.ready then write_head s.queue s else s) sub_id
        b.subscriptions (λ s g. stays s s g (same-IsContinued size s))
        (λ s g.
          stays s (if s.ready then write_head s.queue s else s) g
            (written-IsContinued size s.ready s))
        h

  -- Whatever history the broadcaster has, each of its subscriptions was opened at some point of it,
  -- with the id, the writer, the topics and the scope it has; its queue is at most `size` long; and
  -- the state events that its write loop has taken and those that wait in the queue are together those
  -- published since for its topics and scope, in the order of the events: none is lost, repeated or
  -- swapped.
  pub after-IsAccounted :
      (history : List Action) → All (IsAccounted history) (after history).subscriptions
  unfolding after
  after-IsAccounted [] = tt
  after-IsAccounted (a ∷ before) =
      act-IsAccounted a before (after before) (after-IsAccounted before)
