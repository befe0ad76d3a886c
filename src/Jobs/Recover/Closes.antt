-- ===== src/Jobs/Recover/Closes.antt =====
-- Actions that end with a job that is not active.
use zgent.Common.{
  String, str_eq, ◌≡◌, refl, sym, ap, ◌∙◌, Bool, true, false, some, arith, if◌then◌else◌,
}
use zgent.Common.Exec.{Result, ok, err, ◌>>=◌, and_then}
use zgent.Jobs.Models.{JobRecord}
use zgent.Jobs.Recover.{is_active}
use zgent.Jobs.Store.{job_files, component, write_job}
use zgent.World.{World, M}
use zgent.World.Leaves.{Leaves}
use zgent.Jobs.Recover.Frames.{job_at, job_at-set}

-- Between two states, no job becomes active, and the job of this id is not active in the second.
pub record Closed (k : String) (w w' : World) : Type 0 where
  pub at :
      (j : String) (r : JobRecord)
      → job_at j w' ≡ some r
      → is_active r.status ≡ true
      → (job_at j w ≡ some r) × (str_eq k j ≡ false)

-- An action that closes the job whenever it returns.
pub record Closes {A : Type 0} (k : String) (m : M A) : Type 0 where
  pub at : (w : World) (a : A) (w' : World) → m w ≡ (ok a, w') → Closed k w w'

pub write_job-job :
    (r : JobRecord) (w : World) (a : Unit {0}) (w' : World)
    → write_job r w ≡ (ok a, w')
    → (j : String) → job_at j w' ≡ (if str_eq r.id j then some r else job_at j w)
unfolding write_job ◌>>=◌ job_at
write_job-job r w a w' e j = go (component r.id) refl
  where
    go :
        (v : Result (Unit {0}))
        → component r.id ≡ v
        → (job_files w' j).job ≡ (if str_eq r.id j then some r else (job_files w j).job)
    go (err x) v = absurd (ground (arith, e, v))
    go (ok u) v =
        let fs = record (job_files w r.id) { job = some r } in
        ground (arith, e, v, job_at-set j r.id fs w)

pub write_job-Closes : (r : JobRecord) → is_active r.status ≡ false → Closes r.id (write_job r)
write_job-Closes r h = record {
  at = λ w a w' e. record { at = λ j q e' t. ground (arith, write_job-job r w a w' e j, h, e', t) };
}

module _ {A B : Type 0} (k : String) (m : M A) (f : A → M B) where
  pub Closes-after :
      ((j : String) → Leaves (job_at j) m) → ((a : A) → Closes k (f a)) → Closes k (m >>= f)
  unfolding ◌>>=◌
  Closes-after l c = record { at = λ w b w' e. go (m w).0 (m w).1 (λ j. (l j).at w) b w' e }
    where
      go :
          {w₀ : World} (r : Result A) (w : World)
          → ((j : String) → job_at j w ≡ job_at j w₀)
          → (b : B) (w' : World) → and_then (r, w) f ≡ (ok b, w')
          → Closed k w₀ w'
      go (ok a) w same b w' e = record {
        at = λ j q e' t.
            let (old, other) = ((c a).at w b w' e).at j q e' t in (sym (same j) ∙ old, other);
      }
      go (err x) w same b w' e = absurd (ground (arith, e))

  pub Closes-then :
      Closes k m → ((a : A) (j : String) → Leaves (job_at j) (f a)) → Closes k (m >>= f)
  unfolding ◌>>=◌
  Closes-then c l = record { at = λ w b w' e. go w (m w).0 (m w).1 refl b w' e }
    where
      go :
          (w₀ : World) (r : Result A) (w : World)
          → m w₀ ≡ (r, w)
          → (b : B) (w' : World) → and_then (r, w) f ≡ (ok b, w')
          → Closed k w₀ w'
      go w₀ (ok a) w run b w' e = record {
        at = λ j q e' t.
            (c.at w₀ a w run).at j q (sym ((l a j).at w) ∙ ap (λ y. job_at j y.1) e ∙ e') t;
      }
      go w₀ (err x) w run b w' e = absurd (ground (arith, e))

pub Closes-if :
    {A : Type 0} (k : String) (b : Bool) (m n : M A)
    → Closes k m
    → Closes k n
    → Closes k (if b then m else n)
Closes-if k true m n cm cn = cm
Closes-if k false m n cm cn = cn
