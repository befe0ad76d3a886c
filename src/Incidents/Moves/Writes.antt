-- ===== src/Incidents/Moves/Writes.antt =====
-- Writes of whole snapshots, over an old one or of a new incident.
use zgent.Common.{
  refl, String, str_eq, eq_iff, ◌≡◌, ap, ◌∙◌, ◌&&◌, subst, Bool-cases, true, arith, inl, inr,
}
use zgent.Common.Dict.{get}
use zgent.Common.Exec.{Result, ok, err, ◌>>=◌, and_then}
use zgent.Fsm.{initial_state}
use zgent.Incidents.Models.{Incident}
use zgent.Incidents.Moves.{
  Actor, nobody, IsKeyed, Moves, Leads, Moves-refl, Moves-trans, Keeps, Same, Same-IsKeyed,
  Same-Moves, here,
}
use zgent.Incidents.Moves.Rules.{put_over-IsKeyed, put_over-Moves}
use zgent.Incidents.Store.{write_incident}
use zgent.Incidents.Store.Frames.{put_snapshot, snapshot-put_snapshot}
use zgent.Incidents.Store.Names.{validate_id}
use zgent.World.{
  World, M, missing, stored, snapshot, incident_files, incident_dirs, or_empty, or_no_files,
}
use zgent.World.Leaves.{Leaves}

abbrev pub Fits : Actor → World → World → Type 0
Fits who w w' = IsKeyed w' × Moves who w w'

pub Fits-run :
    {who : Actor}
    → {A : Type 0} (m : M A) → Keeps who m
    → (w : World) → IsKeyed w
    → Fits who w (m w).1
Fits-run m km w h = (km.keyed w h, km.moves w h)

-- The rest of an action after a write that fits.
pub Fits-then :
    {who : Actor}
    → {A : Type 0} (w w' : World) (m : M A) → Keeps who m
    → Fits who w w'
    → Fits who w (m w').1
Fits-then w w' m km (h, l) = (km.keyed w' h, Moves-trans l (km.moves w' h))

pub rewrite_over :
    {who : Actor}
    → {A : Type 0} (j k : String) (i n : Incident) (w : World) (f : Unit {0} → M A) → n.id ≡ i.id
    → n.status ≡ i.status
    → snapshot w j k ≡ stored i
    → ((u : Unit {0}) → Keeps who (f u))
    → IsKeyed w
    → Fits who w ((write_incident j n >>= f) w).1
unfolding write_incident ◌>>=◌ put_snapshot
rewrite_over {who} j k i n w f same_id same_status found kf h = go (validate_id n.id)
  where
    go :
        (r : Result (Unit {0}))
        → Fits who w (and_then (and_then (r, w) (λ u w'. (ok tt, put_snapshot j n w'))) f).1
    go (err e) = (h, Moves-refl w)
    go (ok u) = Fits-then w _ (f tt) (kf tt) (
      put_over-IsKeyed j w i n same_id k found h,
      put_over-Moves j w i n same_id k found h (rw same_status here),
    )

put_new-Fits :
    (j : String) (n : Incident) (w : World)
    → snapshot w j n.id ≡ missing
    → Leads nobody n.id initial_state n.status
    → IsKeyed w
    → Fits nobody w (put_snapshot j n w)
put_new-Fits j n w new begun h = (
  record {
    at = λ j' k' i' e.
        ground
          (arith, snapshot-put_snapshot j n w j' k', h.at j' k' i', eq_iff n.id k', eq_iff j j');
  },
  record {
    at = λ j' k' i' e. (
      i',
      ground (arith, snapshot-put_snapshot j n w j' k', new, eq_iff n.id k', eq_iff j j'),
      here,
    );
    from = λ j' k' i' e. elim (Bool-cases (str_eq j j' && str_eq n.id k')) [
      | inl t ↦ inr (
        refl,
        subst (λ (x : Incident). Leads nobody k' initial_state x.status) (is_n j' k' i' e t)
            (subst (λ y. Leads nobody y initial_state n.status) (named j' k' t) begun),
      )
      | inr f ↦ inl (i', ground (arith, snapshot-put_snapshot j n w j' k'))
    ];
  },
)
  where
    named : (j' k' : String) → (str_eq j j' && str_eq n.id k') ≡ true → n.id ≡ k'
    named j' k' t = ground (arith, eq_iff n.id k')

    is_n :
        (j' k' : String) (i' : Incident)
        → snapshot (put_snapshot j n w) j' k' ≡ stored i'
        → (str_eq j j' && str_eq n.id k') ≡ true
        → n ≡ i'
    is_n j' k' i' e t = ground (arith, snapshot-put_snapshot j n w j' k')

pub write_new :
    {A : Type 0} (j : String) (n : Incident) (w : World) (f : Unit {0} → M A)
    → snapshot w j n.id ≡ missing
    → Leads nobody n.id initial_state n.status
    → ((u : Unit {0}) → Keeps nobody (f u))
    → IsKeyed w
    → Fits nobody w ((write_incident j n >>= f) w).1
unfolding write_incident ◌>>=◌ put_snapshot
write_new j n w f new begun kf h = go (validate_id n.id)
  where
    go :
        (r : Result (Unit {0}))
        → Fits nobody w (and_then (and_then (r, w) (λ u w'. (ok tt, put_snapshot j n w'))) f).1
    go (err e) = (h, Moves-refl w)
    go (ok u) = Fits-then w _ (f tt) (kf tt) (put_new-Fits j n w new begun h)

-- The reads before a new incident is opened.
pub prepared :
    {A B : Type 0} (j k : String) (m : M A) (f : A → M B)
    → Leaves (λ w. w.incidents) m
    → ((a : A) (w : World) → snapshot w j k ≡ missing → IsKeyed w → Fits nobody w (f a w).1)
    → (w : World) → snapshot w j k ≡ missing
    → IsKeyed w
    → Fits nobody w ((m >>= f) w).1
unfolding ◌>>=◌ snapshot incident_files incident_dirs
prepared {A = A} j k m f l next w new h = go (m w).0 (m w).1 same
  where
    same : Same w (m w).1
    same = record {
      at = λ j' k'. ap (λ d. (or_no_files (get (or_empty (get d j')) k')).snapshot) (l.at w);
    }

    go : (r : Result A) (w' : World) → Same w w' → Fits nobody w (and_then (r, w') f).1
    go (err e) w' s = (Same-IsKeyed s h, Same-Moves s)
    go (ok a) w' s =
        let (h', l') = next a w' (s.at j k ∙ new) (Same-IsKeyed s h) in
        (h', Moves-trans (Same-Moves s) l')
