-- ===== src/World/Runs.antt =====
-- What a run of an action that has returned went through.
use zgent.Common.{◌≡◌, refl, arith}
use zgent.Common.Exec.{Result, ok, err, ◌>>=◌, and_then}
use zgent.World.{World, M}

-- What the parts of an action that returned have returned.
pub bind-inverted :
    {A B : Type 0} (m : M A) (f : A → M B) (w w' : World) (b : B)
    → (m >>= f) w ≡ (ok b, w')
    → (a : A) × (v : World) × (m w ≡ (ok a, v)) × (f a v ≡ (ok b, w'))
unfolding ◌>>=◌
bind-inverted {A} {B} m f w w' b e = go (m w).0 (m w).1 refl e
  where
    go :
        (r : Result A) (v : World)
        → m w ≡ (r, v)
        → and_then (r, v) f ≡ (ok b, w')
        → (a : A) × (v : World) × (m w ≡ (ok a, v)) × (f a v ≡ (ok b, w'))
    go (ok a) v run e = (a, v, run, e)
    go (err x) v run e = absurd (ground (arith, e))
