-- ===== src/Common/Decimal.antt =====
-- Decimal numerals as f"{n}" and f"{n:04d}" print them.
use Prim.Native.Nat.{ℕ, zero, suc, ◌-◌, ◌/◌, ◌%◌, ◌<◌}
use Prim.Native.String.{String, count}
use Prim.Native.String.{◌++◌ as str_append}
use mathlib.Core.Logic.{dite}
use mathlib.Core.WellFounded.{Acc}
use native.Mathlib.Decide.{dec_lt}
use native.Mathlib.Omega.{arith}
use zgent.Common.Tests.{◌==◌, if◌then◌else◌}

Acc-below : (k n : ℕ) → n < k → Acc ◌<◌ n
Acc-below zero n h = elim h [ ]
Acc-below (suc k) n h = Acc.intro n (λ m hm. Acc-below k m (omega arith))

digit : ℕ → String
digit n =
    if n == 0
    then "0"
    else if n == 1
    then "1"
    else if n == 2
    then "2"
    else if n == 3
    then "3"
    else if n == 4
    then "4"
    else if n == 5
    then "5"
    else if n == 6
    then "6"
    else if n == 7
    then "7"
    else if n == 8
    then "8"
    else "9"

-- The digits of n in front of a text.
digits_before : (n : ℕ) → String → Acc ◌<◌ n → String
unfolding digit
digits_before n rest (Acc.intro _ smaller) =
    dite (dec_lt 9 n)
      (λ h.
        digits_before (n / 10) (str_append (digit (n % 10)) rest) (smaller (n / 10) (omega arith)))
      (λ h. str_append (digit n) rest)

unfoldable pub decimal : ℕ → String
unfolding digits_before Acc-below dec_lt
decimal n = digits_before n "" (Acc-below (suc n) n (omega arith))

zeros : ℕ → String → String
zeros zero s = s
zeros (suc n) s = str_append "0" (zeros n s)

-- f"{n:04d}"
unfoldable pub padded4 : ℕ → String
unfolding decimal zeros
padded4 n = zeros (4 - count (decimal n)) (decimal n)
