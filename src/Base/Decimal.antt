-- ===== src/Base/Decimal.antt =====
-- `%d` and `strconv.Itoa`: the decimal text of a number. The fuel of a number above itself is
-- enough, since each round divides it by ten.
use debeasy.Base.Tests.{ltb}
use debeasy.Base.Text.{Text}
use debeasy.Base.Int.{ℤ, pos, negsuc}
use Prim.Native.Nat.{ℕ, zero, suc, ◌+◌, ◌/◌, ◌%◌}
use mathlib.Core.Bool.{true, false}
use mathlib.Core.List.{[], ◌∷◌}

-- The digits in front of those written so far.
abbrev pub digits : ℕ → ℕ → Text → Text
digits zero n written = written
digits (suc fuel) n written = elim (ltb n 10) [
  | true ↦ (b'0' + n) ∷ written
  | false ↦ digits fuel (n / 10) ((b'0' + n % 10) ∷ written)
]

unfoldable pub decimal : ℕ → Text
decimal n = digits (suc n) n []

unfoldable pub decimal_int : ℤ → Text
unfolding decimal
decimal_int (pos n) = decimal n
decimal_int (negsuc n) = b'-' ∷ decimal (suc n)
