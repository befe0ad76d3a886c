-- ===== src/Common/Exec.antt =====
-- Methods that change state and may raise. What was written before a raise stays written, so the
-- state comes back beside the error too.

use mathlib.Core.Bool.{Bool, true, false}
use mathlib.Core.Option.{Option, none, some}
use zgent.Common.Tests.{if◌then◌else◌}

-- The exceptions of the program, by class. `PatchError`, `IllegalTransitionError` and pydantic's
-- `ValidationError` are subclasses of `ValueError`; `FileNotFoundError` is one of `OSError`.
pub data Error : Type 0 where
  value_error patch_error illegal_transition key_error file_not_found os_error runtime_error : Error

pub data Result {ℓ} (A : Type ℓ) : Type ℓ where
  ok : A → Result A
  err : Error → Result A

abbrev pub Exec : Type 0 → Type 0 → Type 0
Exec S A = S → Result A × S

module _ {S A : Type 0} where
  unfoldable pub pure : A → Exec S A
  pure a s = (ok a, s)

  unfoldable pub raise : Error → Exec S A
  raise e s = (err e, s)

  unfoldable pub gets : (S → A) → Exec S A
  gets f s = (ok (f s), s)

  unfoldable pub lift : Result A → Exec S A
  lift r s = (r, s)

unfoldable pub modify : {S : Type 0} → (S → S) → Exec S (Unit {0})
modify f s = (ok tt, f s)

module _ {S A B : Type 0} where
  abbrev pub and_then : Result A × S → (A → Exec S B) → Result B × S
  and_then (ok a, s) f = f a s
  and_then (err e, s) f = (err e, s)

  infixl 10 ◌>>=◌ ◌>>◌
  -- Opening this opens the actions above too.
  unfoldable pub ◌>>=◌ : Exec S A → (A → Exec S B) → Exec S B
  unfolding pure raise gets lift modify
  ◌>>=◌ m f s = and_then (m s) f

  abbrev pub ◌>>◌ : Exec S A → Exec S B → Exec S B
  m >> n = m >>= λ _. n

-- try: m; except: the exceptions of the set are handed on as values.
module _ {S A : Type 0} where
  unfoldable pub caught : (Error → Bool) → Result A × S → Result (Option A) × S
  caught p (ok a, s) = (ok (some a), s)
  caught p (err e, s) = if p e then (ok none, s) else (err e, s)

  -- try: return m, except the exceptions of `p`: return None
  unfoldable pub try_or_none : (Error → Bool) → Exec S A → Exec S (Option A)
  unfolding caught
  try_or_none p m s = caught p (m s)

-- (OSError, PatchError, ValueError) with their subclasses
unfoldable pub os_or_value_error : Error → Bool
os_or_value_error key_error = false
os_or_value_error runtime_error = false
os_or_value_error _ = true

unfoldable pub is_runtime_error : Error → Bool
is_runtime_error runtime_error = true
is_runtime_error _ = false
