-- ===== src/Tests/Broadcaster.antt =====
-- A history of the broadcaster with a slow client, whose queue overflows, and one that keeps up.
use zgent.Common.{ℕ, String, Bool, true, false, some, none, List, [], ◌∷◌, ◌≡◌, refl, ◌↔◌, ◌≤◌, All}
use zgent.Service.Broadcaster.{Message, Subscription, QueuedEvent, overflows, takes, is_droppable}
use zgent.Service.Broadcaster.Delivery.{states, overflows-full}
use zgent.Service.Broadcaster.Families.{AreApart, after-AreApart}
use zgent.Service.Broadcaster.Runs.{
  Action, opens, handles, writes, activates, after, IsAccounted, after-IsAccounted,
}

any_topic : String → String → Bool
any_topic event_type pattern = true

message : String → String → Message
message event_type payload = record {
  event_type = event_type;
  run_id = some "r1";
  job_id = none;
  payload = payload;
}

abbrev history : List Action
unfolding message
history =
    handles (message "run.finished" "p4")
    ∷ handles (message "run.step" "p3")
    ∷ writes "sub-b"
    ∷ handles (message "llm.token" "p2")
    ∷ handles (message "run.started" "p1")
    ∷ opens "sub-b" 2 ("*" ∷ []) "run:r1" false
    ∷ opens "sub-a" 1 ("*" ∷ []) "global" true
    ∷ []

abbrev state_event : String → String → QueuedEvent
state_event event_type payload = record {
  event_type = event_type;
  run_id = some "r1";
  payload = payload;
}

-- The second event evicts the display event; the third overflows the queue of the first client only.
remaining :
    (after any_topic 2 history).subscriptions
    ≡ record {
      sub_id = "sub-b";
      writer = 2;
      topics = "*" ∷ [];
      scope = "run:r1";
      queue = state_event "run.step" "p3" ∷ state_event "run.finished" "p4" ∷ [];
      ready = true;
      pushed = state_event "run.started" "p1" ∷ [];
    }
      ∷ []
unfolding any_topic message zgent.Service.Broadcaster.Runs.act zgent.Service.Broadcaster.Runs.after
    zgent.Service.Broadcaster.opened zgent.Service.Broadcaster.subscribe
    zgent.Service.Broadcaster.activate zgent.Service.Broadcaster.handle
    zgent.Service.Broadcaster.served zgent.Service.Broadcaster.slow_writers
    zgent.Service.Broadcaster.serve_all zgent.Service.Broadcaster.keep_if
    zgent.Service.Broadcaster.is_in zgent.Service.Broadcaster.overflows
    zgent.Service.Broadcaster.is_overflow zgent.Service.Broadcaster.takes
    zgent.Service.Broadcaster.matches_scope zgent.Service.Broadcaster.offer
    zgent.Service.Broadcaster.evict zgent.Service.Broadcaster.is_droppable
    zgent.Service.Broadcaster.made_room zgent.Service.Broadcaster.event_of
    zgent.Service.Broadcaster.after_offer zgent.Service.Broadcaster.write_next
    zgent.Service.Broadcaster.write_head zgent.Service.Broadcaster.change_first
    zgent.Service.Broadcaster.is_replaced zgent.Service.Broadcaster.scope_family
    zgent.Service.Broadcaster.same_family zgent.Common.Chars.starts zgent.Common.Chars.same
remaining = refl

after-IsAccounted_example :
    All (IsAccounted any_topic 2 history) (after any_topic 2 history).subscriptions
after-IsAccounted_example = after-IsAccounted any_topic 2 history

abbrev slow_client : Subscription
slow_client = record {
  sub_id = "sub-a";
  writer = 1;
  topics = "*" ∷ [];
  scope = "global";
  queue = state_event "run.started" "p1" ∷ state_event "run.step" "p3" ∷ [];
  ready = false;
  pushed = [];
}

overflows-full_example :
    (overflows any_topic 2 (message "run.finished" "p4") slow_client ≡ true)
    ↔ (takes any_topic ("*" ∷ []) "global" (message "run.finished" "p4") ≡ true)
      × (is_droppable "run.finished" ≡ false)
      × (2 ≤ 2)
      × (states (state_event "run.started" "p1" ∷ state_event "run.step" "p3" ∷ [])
          ≡ state_event "run.started" "p1" ∷ state_event "run.step" "p3" ∷ [])
unfolding message
overflows-full_example = overflows-full any_topic 2 (message "run.finished" "p4") slow_client

after-AreApart_example :
    AreApart (after any_topic 2 (opens "sub-c" 2 ("*" ∷ []) "run:r2" false ∷ history)).subscriptions
after-AreApart_example =
    after-AreApart any_topic 2 (opens "sub-c" 2 ("*" ∷ []) "run:r2" false ∷ history)
