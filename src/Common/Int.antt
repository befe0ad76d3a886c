-- ===== src/Common/Int.antt =====
-- Signed integers, as far as the program needs them: exit codes and offsets.
use Prim.Native.Nat.{ℕ, suc}
use mathlib.Core.Option.{Option, none, some}

-- `negsuc n` is -(n + 1).
pub data ℤ : Type 0 where
  pos : ℕ → ℤ
  negsuc : ℕ → ℤ

-- -n if n < 0, else None: the signal that an exit code stands for.
unfoldable pub negated : ℤ → Option ℕ
negated (pos n) = none
negated (negsuc n) = some (suc n)
