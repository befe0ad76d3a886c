-- ===== src/Service/Broadcaster.antt =====
-- The broadcaster of events to the clients (cyan/service/transport/ipc_broadcaster.py,
-- IpcEventBroadcaster): a bounded queue for each subscription. A writer, which is compared by
-- identity, is a number; an event is its payload. fnmatch.fnmatch is an argument.
pub mod Delivery
pub mod Continued
pub mod Runs
pub mod Families
use zgent.Common.{
  ℕ, ◌+◌, String, str_eq, Bool, true, false, not, ◌&&◌, ◌||◌, Option, none, some, List, [], ◌∷◌,
  ◌++◌, any, drop, length, ltb, ◌==◌, if◌then◌else◌,
}
use zgent.Common.Chars.{Text, chars, same, starts, text_of}

-- The words of an event that the broadcaster reads, with its payload.
pub record Message : Type 0 where
  pub event_type : String
  pub run_id : Option String
  pub job_id : Option String
  pub payload : String

-- _QueuedEvent
pub record QueuedEvent : Type 0 where
  pub payload : String
  pub event_type : String
  pub run_id : Option String

-- _Subscription; `pushed` are the events that its write loop has taken from the queue to write
pub record Subscription : Type 0 where
  pub sub_id : String
  pub writer : ℕ
  pub topics : List String
  pub scope : String
  pub queue : List QueuedEvent
  pub ready : Bool
  pub pushed : List QueuedEvent

pub record Broadcaster : Type 0 where
  pub subscriptions : List Subscription
  pub closed : List ℕ

-- _is_droppable, over _DROPPABLE_EVENT_TYPES
unfoldable pub is_droppable : String → Bool
is_droppable event_type = str_eq event_type "llm.token" || str_eq event_type "tool.call_finished"

same_id : Option String → String → Bool
same_id none scope = false
same_id (some k) scope = str_eq k scope

without : ℕ → String → String
without n scope = text_of (drop n (chars scope))

has_scope : String → String → Bool
has_scope prefix scope = starts (chars prefix) (chars scope)

-- _matches_scope
unfoldable pub matches_scope : Option String → Option String → String → Bool
unfolding same_id without has_scope
matches_scope run_id job_id scope =
    if str_eq scope "global"
    then true
    else if has_scope "run:" scope
    then same_id run_id (without 4 scope)
    else if has_scope "job:" scope
    then same_id job_id (without 4 scope)
    else false

-- _scope_family
pub data Family : Type 0 where
  global run job : Family

unfoldable pub scope_family : String → Family
unfolding has_scope
scope_family scope =
    if has_scope "job:" scope then job else if has_scope "run:" scope then run else global

unfoldable pub same_family : Family → Family → Bool
same_family global global = true
same_family run run = true
same_family job job = true
same_family _ _ = false

unfoldable pub keep_if : {A : Type 0} → (A → Bool) → List A → List A
keep_if p [] = []
keep_if p (a ∷ l) = let rest = keep_if p l in if p a then a ∷ rest else rest

-- The test of `replaced` in subscribe
unfoldable pub is_replaced : ℕ → String → Subscription → Bool
is_replaced writer scope s =
    s.writer == writer && same_family (scope_family s.scope) (scope_family scope)

unfoldable pub opened :
    (sub_id : String) → ℕ → List String → String → (replay_pending : Bool) → Subscription
opened sub_id writer topics scope pending = record {
  sub_id = sub_id;
  writer = writer;
  topics = topics;
  scope = scope;
  queue = [];
  ready = not pending;
  pushed = [];
}

-- subscribe, with the id that it draws; the replaced subscriptions are those of the same writer and
-- family
unfoldable pub subscribe :
    (sub_id : String)
    → ℕ
    → List String
    → String
    → (replay_pending : Bool) → Broadcaster
    → Broadcaster
subscribe sub_id writer topics scope pending b = record b {
  subscriptions =
      keep_if (λ s. not (is_replaced writer scope s)) b.subscriptions
      ++ (opened sub_id writer topics scope pending ∷ []);
}

-- A change of the first subscription with an id.
unfoldable pub change_first :
    (Subscription → Subscription) → String → List Subscription → List Subscription
change_first f sub_id [] = []
change_first f sub_id (s ∷ ss) =
    let rest = change_first f sub_id ss in if str_eq s.sub_id sub_id then f s ∷ ss else s ∷ rest

-- activate
unfoldable pub activate : String → Broadcaster → Broadcaster
activate sub_id b = record b {
  subscriptions = change_first (λ s. record s { ready = true }) sub_id b.subscriptions;
}

-- _remove_writer
unfoldable pub remove_writer : ℕ → Broadcaster → Broadcaster
remove_writer writer b = record b {
  subscriptions = keep_if (λ (s : Subscription). not (s.writer == writer)) b.subscriptions;
}

-- unsubscribe
unfoldable pub unsubscribe : ℕ → Broadcaster → Broadcaster
unsubscribe writer b = remove_writer writer b

-- _disconnect, and the end of a write loop or of a replay on a dead connection
unfoldable pub disconnect : ℕ → Broadcaster → Broadcaster
disconnect writer b = record (remove_writer writer b) { closed = writer ∷ b.closed }

-- _evict_droppable: the queue without its first droppable event, and whether there was one
unfoldable pub evict :
    (evicted : Bool) → (retained queue : List QueuedEvent) → Bool × List QueuedEvent
evict evicted retained [] = (evicted, retained)
evict evicted retained (item ∷ queue) =
    let drops = not evicted && is_droppable item.event_type in
    evict (evicted || drops) (if drops then retained else retained ++ (item ∷ [])) queue

-- What an event does to the subscription that takes it: a queue, or the end of the connection.
pub data Offer : Type 0 where
  queued : List QueuedEvent → Offer
  overflow : Offer

unfoldable pub made_room : QueuedEvent → Bool × List QueuedEvent → Offer
made_room item (evicted, retained) = if evicted then queued (retained ++ (item ∷ [])) else overflow

-- The body of the loop of handle, for a subscription whose queue holds at most `size` events.
unfoldable pub offer : (size : ℕ) → QueuedEvent → List QueuedEvent → Offer
offer size item queue =
    if ltb (length queue) size
    then queued (queue ++ (item ∷ []))
    else if is_droppable item.event_type
    then queued queue
    else made_room item (evict false [] queue)

unfoldable pub event_of : Message → QueuedEvent
event_of e = record { payload = e.payload; event_type = e.event_type; run_id = e.run_id }

unfoldable pub is_in : ℕ → List ℕ → Bool
is_in writer = any (λ w. w == writer)

unfoldable pub after_offer : Subscription → Offer → Subscription
after_offer s (queued q) = record s { queue = q }
after_offer s overflow = s

unfoldable pub is_overflow : Offer → Bool
is_overflow (queued q) = false
is_overflow overflow = true

-- _matches_topic and _matches_scope, of a subscription's topics and scope
unfoldable pub takes : (fnmatch : String → String → Bool) → List String → String → Message → Bool
takes fnmatch topics scope e =
    any (λ pattern. fnmatch e.event_type pattern) topics && matches_scope e.run_id e.job_id scope

module _ (fnmatch : String → String → Bool) (size : ℕ) where
  unfoldable pub served : Message → Subscription → Subscription
  served e s =
      if takes fnmatch s.topics s.scope e
      then after_offer s (offer size (event_of e) s.queue)
      else s

  unfoldable pub overflows : Message → Subscription → Bool
  overflows e s = takes fnmatch s.topics s.scope e && is_overflow (offer size (event_of e) s.queue)

  -- The writers that the loop of handle disconnects.
  unfoldable pub slow_writers : Message → List Subscription → List ℕ
  slow_writers e [] = []
  slow_writers e (s ∷ ss) =
      let rest = slow_writers e ss in if overflows e s then s.writer ∷ rest else rest

  unfoldable pub serve_all : Message → List Subscription → List Subscription
  serve_all e [] = []
  serve_all e (s ∷ ss) = served e s ∷ serve_all e ss

  -- handle: the loop goes over a copy of the list, so each subscription is offered the event, and
  -- those of a disconnected writer are gone at its end
  unfoldable pub handle : Message → Broadcaster → Broadcaster
  handle e b =
      let slow = slow_writers e b.subscriptions in
      record b {
        subscriptions =
            keep_if (λ (s : Subscription). not (is_in s.writer slow)) (serve_all e b.subscriptions);
        closed = slow ++ b.closed;
      }

unfoldable pub write_head : List QueuedEvent → Subscription → Subscription
write_head [] s = s
write_head (item ∷ queue) s = record s { queue = queue; pushed = s.pushed ++ (item ∷ []) }

-- The begin of a round of _write_loop: it takes the next event of the queue and writes it. If the
-- write fails, `disconnect` follows.
unfoldable pub write_next : String → Broadcaster → Broadcaster
write_next sub_id b = record b {
  subscriptions =
      change_first (λ (s : Subscription). if s.ready then write_head s.queue s else s) sub_id
        b.subscriptions;
}
