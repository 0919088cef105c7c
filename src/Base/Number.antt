-- ===== src/Base/Number.antt =====
-- Go's `strconv.ParseInt` and `strconv.Atoi` in base ten on int64.
pub mod RoundTrip
use debeasy.Base.Tests.{ltb, leb, ◌==◌, if◌then◌else◌}
use debeasy.Base.Text.{Text}
use debeasy.Base.Int.{ℤ, pos, negsuc}
use Prim.Native.Nat.{ℕ, zero, suc, ◌+◌, ◌-◌, ◌*◌}
use mathlib.Core.Bool.{Bool, true, false, ◌&&◌}
use mathlib.Core.Option.{Option, none, some}
use mathlib.Core.List.{[], ◌∷◌}

-- The digits of a text after those of value `n`; nothing where one is none, unless the value has left
-- uint64 before.
unfoldable pub scan_digits : ℕ → Text → Option ℕ
scan_digits n [] = some n
scan_digits n (c ∷ s) =
    let value = n * 10 + (c - b'0') in
    let rest = scan_digits value s in
    if leb b'0' c && leb c b'9'
    then (if ltb 18446744073709551615 value then some value else rest)
    else none

abbrev pub unsigned : Text → Option ℕ
unsigned [] = none
unsigned (c ∷ s) = scan_digits 0 (c ∷ s)

abbrev pub negated : Option ℕ → Option ℤ
negated none = none
negated (some zero) = some (pos zero)
negated (some (suc n)) = some (negsuc n)

abbrev pub positive : Option ℕ → Option ℤ
positive none = none
positive (some n) = some (pos n)

-- A sign and digits, of any value.
abbrev pub signed : Text → Option ℤ
signed [] = none
signed (c ∷ s) =
    if c == b'+'
    then positive (unsigned s)
    else if c == b'-'
    then negated (unsigned s)
    else positive (unsigned (c ∷ s))

abbrev pub bound : ℕ
bound = 9223372036854775808

abbrev pub in_int64 : ℤ → Bool
in_int64 (pos n) = ltb n bound
in_int64 (negsuc n) = ltb n bound

abbrev in_range : Option ℤ → Option ℤ
in_range none = none
in_range (some z) = if in_int64 z then some z else none

-- `strconv.Atoi`, with nothing for an error.
unfoldable pub atoi : Text → Option ℤ
atoi s = in_range (signed s)

abbrev clip : Option ℤ → ℤ
clip none = pos 0
clip (some (pos n)) = if ltb n bound then pos n else pos (bound - 1)
clip (some (negsuc n)) = if ltb n bound then negsuc n else negsuc (bound - 1)

-- What `strconv.ParseInt` returns beside its error: 0 for a text that is no number, and the bound that
-- a number has passed.
unfoldable pub parse_int : Text → ℤ
parse_int s = clip (signed s)
