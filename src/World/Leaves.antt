-- ===== src/World/Leaves.antt =====
-- Actions that leave a part of the state alone, one rule for each way to build an action.
use zgent.Common.{◌≡◌, refl, ap, ◌∙◌, arith, Bool, true, false, if◌then◌else◌}
use zgent.Common.Exec.{
  Error, Result, ok, err, pure, raise, gets, lift, modify, ◌>>=◌, and_then, try_or_none, caught,
}
use zgent.World.{World, M}

pub record Leaves {A X : Type 0} (g : World → X) (m : M A) : Type 0 where
  pub at : (w : World) → g (m w).1 ≡ g w

world-caught : {A : Type 0} (p : Error → Bool) (x : Result A × World) → (caught p x).1 ≡ x.1
unfolding caught
world-caught p (ok a, s) = refl
world-caught p (err e, s) = ground arith

module _ {A X : Type 0} {g : World → X} where
  pub Leaves-pure : (a : A) → Leaves g (pure {S = World} a)
  unfolding pure
  Leaves-pure a = record { at = λ w. refl }

  pub Leaves-raise : (e : Error) → Leaves g (raise {S = World} {A = A} e)
  unfolding raise
  Leaves-raise e = record { at = λ w. refl }

  pub Leaves-gets : (f : World → A) → Leaves g (gets f)
  unfolding gets
  Leaves-gets f = record { at = λ w. refl }

  pub Leaves-lift : (r : Result A) → Leaves g (lift {S = World} r)
  unfolding lift
  Leaves-lift r = record { at = λ w. refl }

  pub Leaves-if : (b : Bool) (m n : M A) → Leaves g m → Leaves g n → Leaves g (if b then m else n)
  Leaves-if true m n km kn = km
  Leaves-if false m n km kn = kn

  pub Leaves-try : (p : Error → Bool) (m : M A) → Leaves g m → Leaves g (try_or_none p m)
  unfolding try_or_none
  Leaves-try p m km = record { at = λ w. ap g (world-caught p (m w)) ∙ km.at w }

module _ {X : Type 0} {g : World → X} where
  pub Leaves-modify : (f : World → World) → ((w : World) → g (f w) ≡ g w) → Leaves g (modify f)
  unfolding modify
  Leaves-modify f h = record { at = h }

module _ {A B X : Type 0} {g : World → X} where
  Leaves-and_then :
      (r : Result A) (w : World) (f : A → M B)
      → ((a : A) → Leaves g (f a))
      → g (and_then (r, w) f).1 ≡ g w
  Leaves-and_then (ok a) w f kf = (kf a).at w
  Leaves-and_then (err e) w f kf = refl

  pub Leaves-bind :
      (m : M A) (f : A → M B) → Leaves g m → ((a : A) → Leaves g (f a)) → Leaves g (m >>= f)
  unfolding ◌>>=◌
  Leaves-bind m f km kf = record { at = λ w. Leaves-and_then (m w).0 (m w).1 f kf ∙ km.at w }

pub ruleset leaves_rules =
    (Leaves-pure, Leaves-raise, Leaves-gets, Leaves-lift, Leaves-if, Leaves-try, Leaves-bind)
