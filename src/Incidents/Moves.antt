-- ===== src/Incidents/Moves.antt =====
-- What every operation on incidents keeps: a snapshot stays under its own id, none is lost, and
-- its status moves only along the transitions of the state machine, by events that the actor may
-- bring about: an approval and a rejection are those of a decision on that incident, a successful
-- retry is that of an observation of its retry.
pub mod Rules
pub mod Writes
use zgent.Common.{
  String, str_eq, eq_iff, ◌≡◌, refl, sym, ◌∙◌, subst, ◌⊎◌, ◌&&◌, ℕ, Bool, true, false, Option,
  arith, inl, inr, if◌then◌else◌,
}
use zgent.Common.Exec.{
  Exec, Error, Result, ok, err, pure, raise, gets, lift, modify, ◌>>=◌, and_then, try_or_none,
  caught,
}
use zgent.Fsm.{Status, Event, initial_state, transition, approve, reject, retry_succeeded}
use zgent.World.{World, M, BusEvent, Task, Stored, stored, snapshot, now, publish, spawn}
use zgent.Incidents.Models.{Incident}
use zgent.Incidents.Store.{update_incident}
use zgent.Incidents.Store.Frames.{
  put_snapshot, snapshot-put_snapshot, at_clock, tick, update_incident_state,
}

-- On whose behalf an action runs: nobody's, that of an approval or a rejection of an incident, or
-- of the observation of its retry.
pub data Actor : Type 0 where
  nobody : Actor
  approves rejects observes : String → Actor

abbrev pub is_reserved : Event → Bool
is_reserved approve = true
is_reserved reject = true
is_reserved retry_succeeded = true
is_reserved _ = false

-- The events that an actor brings about for an incident.
pub data May : Actor → String → Event → Type 0 where
  approving : {k : String} → May (approves k) k approve
  rejecting : {k : String} → May (rejects k) k reject
  confirming : {k : String} → May (observes k) k retry_succeeded
  free : {who : Actor} {k : String} {e : Event} → is_reserved e ≡ false → May who k e

-- A path through the transition table, on events that the actor may bring about.
pub data Leads (who : Actor) (k : String) (s : Status) : Status → Type 0 where
  here : Leads who k s s
  step :
      {t u : Status}
      → Leads who k s t
      → (e : Event) → May who k e
      → transition t e ≡ ok u
      → Leads who k s u

pub Leads-trans :
    {who : Actor} {k : String} {s t u : Status}
    → Leads who k s t
    → Leads who k t u
    → Leads who k s u
Leads-trans p here = p
Leads-trans p (step q e m h) = step (Leads-trans p q) e m h

pub record IsKeyed (w : World) : Type 0 where
  pub at : (j k : String) (i : Incident) → snapshot w j k ≡ stored i → i.id ≡ k

pub record Moves (who : Actor) (w w' : World) : Type 0 where
  pub at :
      (j k : String) (i : Incident)
      → snapshot w j k ≡ stored i
      → (i' : Incident) × (snapshot w' j k ≡ stored i') × Leads who k i.status i'.status
  pub from :
      (j k : String) (i' : Incident)
      → snapshot w' j k ≡ stored i'
      → ((i : Incident) × (snapshot w j k ≡ stored i))
        ⊎ ((who ≡ nobody) × Leads who k initial_state i'.status)

pub record Keeps (who : Actor) {A : Type 0} (m : M A) : Type 0 where
  pub keyed : (w : World) → IsKeyed w → IsKeyed (m w).1
  pub moves : (w : World) → IsKeyed w → Moves who w (m w).1

pub Moves-refl : {who : Actor} → (w : World) → Moves who w w
Moves-refl w = record { at = λ j k i h. (i, h, here); from = λ j k i h. inl (i, h) }

stored-injective : {i i' : Incident} → stored i ≡ stored i' → i ≡ i'
stored-injective e = ground arith

pub Moves-trans : {who : Actor} → {u v w : World} → Moves who u v → Moves who v w → Moves who u w
Moves-trans {who} p q = record {
  at = λ j k i h.
      let (i', h', l) = p.at j k i h in
      let (i'', h'', l') = q.at j k i' h' in (i'', h'', Leads-trans l l');
  from = λ j k i'' h''. elim (q.from j k i'' h'') [
    | inr l ↦ inr l
    | inl (i', h') ↦ elim (p.from j k i' h') [
      | inl old ↦ inl old
      | inr (e, l) ↦
          let (i3, h3, l3) = q.at j k i' h' in
          inr (
            e,
            subst (λ (x : Incident). Leads who k initial_state x.status)
                (stored-injective (sym h3 ∙ h'')) (Leads-trans l l3),
          )
    ]
  ];
}

-- Two worlds with the same snapshots.
pub record Same (w w' : World) : Type 0 where
  pub at : (j k : String) → snapshot w' j k ≡ snapshot w j k

pub Same-IsKeyed : {w w' : World} → Same w w' → IsKeyed w → IsKeyed w'
Same-IsKeyed s h = record { at = λ j k i e. h.at j k i (sym (s.at j k) ∙ e) }

pub Same-Moves : {who : Actor} → {w w' : World} → Same w w' → Moves who w w'
Same-Moves s = record {
  at = λ j k i e. (i, s.at j k ∙ e, here);
  from = λ j k i e. inl (i, sym (s.at j k) ∙ e);
}

-- An action that leaves the snapshots as they are.
pub Keeps-quiet :
    {who : Actor} → {A : Type 0} (m : M A) → ((w : World) → Same w (m w).1) → Keeps who m
Keeps-quiet m h = record { keyed = λ w k. Same-IsKeyed (h w) k; moves = λ w k. Same-Moves (h w) }

module _ {A B : Type 0} where
  pub Keeps-and_then :
      {who : Actor}
      → (r : Result A) (w₀ w : World) (f : A → M B) → IsKeyed w
      → Moves who w₀ w
      → ((a : A) → Keeps who (f a))
      → IsKeyed (and_then (r, w) f).1 × Moves who w₀ (and_then (r, w) f).1
  Keeps-and_then (ok a) w₀ w f k m kf = ((kf a).keyed w k, Moves-trans m ((kf a).moves w k))
  Keeps-and_then (err e) w₀ w f k m kf = (k, m)

  pub Keeps-bind :
      {who : Actor}
      → (m : M A) (f : A → M B) → Keeps who m
      → ((a : A) → Keeps who (f a))
      → Keeps who (m >>= f)
  unfolding ◌>>=◌
  Keeps-bind m f km kf = record {
    keyed = λ w k. (Keeps-and_then (m w).0 w (m w).1 f (km.keyed w k) (km.moves w k) kf).0;
    moves = λ w k. (Keeps-and_then (m w).0 w (m w).1 f (km.keyed w k) (km.moves w k) kf).1;
  }

module _ {A : Type 0} where
  pub Keeps-pure : {who : Actor} → (a : A) → Keeps who (pure {S = World} a)
  unfolding pure
  Keeps-pure a = Keeps-quiet _ (λ w. record { at = λ j k. refl })

  pub Keeps-raise : {who : Actor} → (e : Error) → Keeps who (raise {S = World} {A = A} e)
  unfolding raise
  Keeps-raise e = Keeps-quiet _ (λ w. record { at = λ j k. refl })

  pub Keeps-gets : {who : Actor} → (f : World → A) → Keeps who (gets f)
  unfolding gets
  Keeps-gets f = Keeps-quiet _ (λ w. record { at = λ j k. refl })

  pub Keeps-lift : {who : Actor} → (r : Result A) → Keeps who (lift {S = World} r)
  unfolding lift
  Keeps-lift r = Keeps-quiet _ (λ w. record { at = λ j k. refl })

  pub Keeps-if :
      {who : Actor}
      → (b : Bool) (m n : M A) → Keeps who m
      → Keeps who n
      → Keeps who (if b then m else n)
  Keeps-if true m n km kn = km
  Keeps-if false m n km kn = kn

  world-try_or_none : (p : Error → Bool) (m : M A) (w : World) → (try_or_none p m w).1 ≡ (m w).1
  unfolding try_or_none
  world-try_or_none p m w = go (m w)
    where
      go : (x : Result A × World) → (caught p x).1 ≡ x.1
      go (ok a, s) = refl
      go (err e, s) = ground arith

  pub Keeps-try_or_none :
      {who : Actor} → (p : Error → Bool) (m : M A) → Keeps who m → Keeps who (try_or_none p m)
  Keeps-try_or_none p m km = record {
    keyed = λ w k. rw (world-try_or_none p m w) (km.keyed w k);
    moves = λ w k. rw (world-try_or_none p m w) (km.moves w k);
  }

pub Keeps-now : {who : Actor} → Keeps who now
unfolding now snapshot
Keeps-now = Keeps-quiet _ (λ w. record { at = λ j k. refl })

pub Keeps-publish : {who : Actor} → (e : BusEvent) → Keeps who (publish e)
unfolding publish snapshot
Keeps-publish e = Keeps-quiet _ (λ w. record { at = λ j k. refl })

pub Keeps-spawn : {who : Actor} → (t : Task) → Keeps who (spawn t)
unfolding spawn snapshot
Keeps-spawn t = Keeps-quiet _ (λ w. record { at = λ j k. refl })
