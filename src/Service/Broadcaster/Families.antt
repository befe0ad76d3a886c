-- ===== src/Service/Broadcaster/Families.antt =====
-- A client has one subscription for each family of scopes (cyan/service/transport/ipc_broadcaster.py,
-- subscribe and _scope_family).
use zgent.Common.{
  ℕ, Bool, true, false, not, List, [], ◌∷◌, ◌++◌, ◌≡◌, refl, sym, ◌∙◌, inl, inr, if◌then◌else◌,
  Bool-cases, arith, ◌==◌, String, All, All-append, str_eq,
}
use zgent.Service.Broadcaster.{
  Message, Subscription, Broadcaster, keep_if, served, serve_all, handle, write_head, write_next,
  change_first, activate, disconnect, unsubscribe, remove_writer, subscribe, is_replaced,
  same_family, scope_family, opened, Family, global, run, job, takes, offer, event_of, after_offer,
  Offer, queued, overflow, QueuedEvent,
}
use zgent.Service.Broadcaster.Continued.{All-keep_if}
use zgent.Service.Broadcaster.Runs.{
  Action, opens, activates, unsubscribes, disconnects, handles, writes, act, after,
}

-- No two subscriptions have the same writer and the same family.
unfoldable pub AreApart : List Subscription → Type 0
AreApart [] = Unit
AreApart (s ∷ l) = All (λ t. is_replaced s.writer s.scope t ≡ false) l × AreApart l

SameKey : Subscription → Subscription → Type 0
SameKey s t = (s.writer ≡ t.writer) × (s.scope ≡ t.scope)

SameKeys : List Subscription → List Subscription → Type 0
SameKeys [] [] = Unit
SameKeys (s ∷ l) (t ∷ m) = SameKey s t × SameKeys l m
SameKeys _ _ = ⊥

keys_refl : (l : List Subscription) → SameKeys l l
unfolding SameKeys SameKey
keys_refl [] = tt
keys_refl (s ∷ l) = ((refl, refl), keys_refl l)

All-keys :
    (writer : ℕ) (scope : String) (l m : List Subscription)
    → SameKeys l m
    → All (λ t. is_replaced writer scope t ≡ false) l
    → All (λ t. is_replaced writer scope t ≡ false) m
unfolding SameKeys SameKey is_replaced
All-keys writer scope [] [] k h = tt
All-keys writer scope [] (t ∷ m) k h = absurd k
All-keys writer scope (s ∷ l) [] k h = absurd k
All-keys writer scope (s ∷ l) (t ∷ m) ((w, c), k) (h, hs) =
    (rw (sym w, sym c) h, All-keys writer scope l m k hs)

keys-AreApart : (l m : List Subscription) → SameKeys l m → AreApart l → AreApart m
unfolding SameKeys SameKey AreApart
keys-AreApart [] [] k h = tt
keys-AreApart [] (t ∷ m) k h = absurd k
keys-AreApart (s ∷ l) [] k h = absurd k
keys-AreApart (s ∷ l) (t ∷ m) ((w, c), k) (h, hs) =
    (rw (sym w, sym c) (All-keys s.writer s.scope l m k h), keys-AreApart l m k hs)

keep_if-AreApart :
    (p : Subscription → Bool) (l : List Subscription) → AreApart l → AreApart (keep_if p l)
unfolding AreApart keep_if
keep_if-AreApart p [] h = tt
keep_if-AreApart p (s ∷ l) (h, hs) = elim (Bool-cases (p s)) [
  | inl e ↦
      rw (e)
        (All-keep_if (λ t. is_replaced s.writer s.scope t ≡ false) p l h, keep_if-AreApart p l hs)
  | inr e ↦ rw (e) (keep_if-AreApart p l hs)
]

change_first-keys :
    (f : Subscription → Subscription) (sub_id : String) (l : List Subscription)
    → ((s : Subscription) → SameKey s (f s))
    → SameKeys l (change_first f sub_id l)
unfolding SameKeys SameKey change_first
change_first-keys f sub_id [] k = tt
change_first-keys f sub_id (s ∷ l) k = elim (Bool-cases (str_eq s.sub_id sub_id)) [
  | inl e ↦ rw (e) (k s, keys_refl l)
  | inr e ↦ rw (e) ((refl, refl), change_first-keys f sub_id l k)
]

same_family_comm : (a b : Family) → same_family a b ≡ same_family b a
unfolding same_family
same_family_comm global global = refl
same_family_comm global run = refl
same_family_comm global job = refl
same_family_comm run global = refl
same_family_comm run run = refl
same_family_comm run job = refl
same_family_comm job global = refl
same_family_comm job run = refl
same_family_comm job job = refl

equal_comm : (a b : ℕ) → a == b ≡ (b == a)
equal_comm a b = ground arith

is_replaced_comm :
    (s t : Subscription) → is_replaced s.writer s.scope t ≡ is_replaced t.writer t.scope s
unfolding is_replaced
is_replaced_comm s t =
    rw
      (equal_comm t.writer s.writer, same_family_comm (scope_family t.scope) (scope_family s.scope))

retained-All :
    (p : Subscription → Bool) (l : List Subscription)
    → All (λ s. p s ≡ false) (keep_if (λ s. not (p s)) l)
unfolding keep_if
retained-All p [] = tt
retained-All p (s ∷ l) = elim (Bool-cases (p s)) [
  | inl e ↦ rw (e) (retained-All p l)
  | inr e ↦ rw (e) (e, retained-All p l)
]

last-AreApart :
    (l : List Subscription) (s : Subscription)
    → AreApart l
    → All (λ t. is_replaced s.writer s.scope t ≡ false) l
    → AreApart (l ++ (s ∷ []))
unfolding AreApart
last-AreApart [] s h g = (tt, tt)
last-AreApart (t ∷ l) s (h, hs) (g, gs) = (
  All-append (λ k. is_replaced t.writer t.scope k ≡ false) l (s ∷ []) h
      (is_replaced_comm t s ∙ g, tt),
  last-AreApart l s hs gs,
)

offered-key : (s : Subscription) (o : Offer) → SameKey s (after_offer s o)
unfolding SameKey after_offer
offered-key s (queued q) = (refl, refl)
offered-key s overflow = (refl, refl)

written-key :
    (ready : Bool) (s : Subscription) (queue : List QueuedEvent)
    → SameKey s (if ready then write_head queue s else s)
unfolding SameKey write_head
written-key false s queue = (refl, refl)
written-key true s [] = (refl, refl)
written-key true s (item ∷ queue) = (refl, refl)

module _ (fnmatch : String → String → Bool) (size : ℕ) where
  served-keys : (e : Message) (l : List Subscription) → SameKeys l (serve_all fnmatch size e l)
  unfolding SameKeys SameKey serve_all served
  served-keys e [] = tt
  served-keys e (s ∷ l) = elim (Bool-cases (takes fnmatch s.topics s.scope e)) [
    | inl t ↦ rw (t) (offered-key s (offer size (event_of e) s.queue), served-keys e l)
    | inr t ↦ rw (t) ((refl, refl), served-keys e l)
  ]

  act-AreApart :
      (a : Action) (b : Broadcaster)
      → AreApart b.subscriptions
      → AreApart (act fnmatch size a b).subscriptions
  unfolding act subscribe activate unsubscribe disconnect remove_writer handle write_next opened
      SameKey
  act-AreApart (opens sub_id writer topics scope pending) b h =
      last-AreApart (keep_if (λ s. not (is_replaced writer scope s)) b.subscriptions)
        (opened sub_id writer topics scope pending)
        (keep_if-AreApart (λ s. not (is_replaced writer scope s)) b.subscriptions h)
        (retained-All (is_replaced writer scope) b.subscriptions)
  act-AreApart (activates sub_id) b h =
      keys-AreApart b.subscriptions _
        (change_first-keys (λ s. record s { ready = true }) sub_id b.subscriptions
          (λ s. (refl, refl)))
        h
  act-AreApart (unsubscribes writer) b h =
      keep_if-AreApart (λ (s : Subscription). not (s.writer == writer)) b.subscriptions h
  act-AreApart (disconnects writer) b h =
      keep_if-AreApart (λ (s : Subscription). not (s.writer == writer)) b.subscriptions h
  act-AreApart (handles e) b h =
      keep_if-AreApart _ (serve_all fnmatch size e b.subscriptions)
        (keys-AreApart b.subscriptions _ (served-keys e b.subscriptions) h)
  act-AreApart (writes sub_id) b h =
      keys-AreApart b.subscriptions _
        (change_first-keys (λ (s : Subscription). if s.ready then write_head s.queue s else s)
          sub_id b.subscriptions (λ s. written-key s.ready s s.queue))
        h

  -- Whatever history the broadcaster has, no client has two subscriptions of the same family of scopes
  -- (global, run or job).
  pub after-AreApart : (history : List Action) → AreApart (after fnmatch size history).subscriptions
  unfolding after AreApart
  after-AreApart [] = tt
  after-AreApart (a ∷ before) = act-AreApart a (after fnmatch size before) (after-AreApart before)
