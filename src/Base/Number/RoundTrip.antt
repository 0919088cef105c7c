-- ===== src/Base/Number/RoundTrip.antt =====
-- What `strconv.FormatInt` prints, read back.
use debeasy.Base.Tests.{ltb→lt, ltb, ◌==◌, Bool-cases}
use debeasy.Base.Text.{Text}
use debeasy.Base.Int.{ℤ, pos, negsuc}
use debeasy.Base.Decimal.{digits, decimal, decimal_int}
use debeasy.Base.Number.{scan_digits, unsigned, negated, positive, signed, in_int64, parse_int}
use Prim.Native.Nat.{ℕ, zero, suc, ◌+◌, ◌*◌, ◌/◌, ◌%◌, ◌<◌, ◌≤◌}
use mathlib.Core.Bool.{true, false}
use mathlib.Core.Option.{some}
use mathlib.Core.Path.{◌≡◌, refl, ap, ◌∙◌}
use mathlib.Core.Logic.{inl, inr}
use mathlib.Core.List.{[], ◌∷◌}
use native.Mathlib.Omega.{arith}
use debeasy.Base.Lists.{is_empty}

-- One digit more.
scan_digit :
    (m d : ℕ) (w : Text)
    → d < 10
    → m * 10 + d < 18446744073709551616
    → scan_digits m ((b'0' + d) ∷ w) ≡ scan_digits (m * 10 + d) w
unfolding scan_digits
scan_digit m d w h k = ground arith

scan_digits-digits :
    (fuel n : ℕ) (w : Text)
    → n < fuel
    → n < 18446744073709551616
    → scan_digits 0 (digits fuel n w) ≡ scan_digits n w
scan_digits-digits zero n w h k = absurd (omega (arith, h))
scan_digits-digits (suc fuel) n w h k = elim (Bool-cases (ltb n 10)) [
  | inl e ↦ rw (digits, e) (one n (ltb→lt n 10 e))
  | inr e ↦
      rw (digits, e)
        (scan_digits-digits fuel (n / 10) ((b'0' + n % 10) ∷ w) (omega (arith, h, leb10 n e))
            (omega (arith, k))
          ∙ (scan_digit (n / 10) (n % 10) w (omega arith) (omega (arith, k))
              ∙ ap (λ m. scan_digits m w) (omega arith)))
]
  where
    one : (n : ℕ) → n < 10 → scan_digits 0 ((b'0' + n) ∷ w) ≡ scan_digits n w
    one n e = scan_digit 0 n w e (omega (arith, e)) ∙ ap (λ m. scan_digits m w) (omega arith)

    leb10 : (n : ℕ) → ltb n 10 ≡ false → 10 ≤ n
    leb10 n e = ground (arith, e)

-- A text that starts with a digit.
abbrev pub StartsDigit : Text → Type 0
StartsDigit s = (c : ℕ) × (t : Text) × (s ≡ c ∷ t) × (b'0' ≤ c) × (c < b':')

digits-StartsDigit : (fuel n : ℕ) (w : Text) → n < fuel → StartsDigit (digits fuel n w)
digits-StartsDigit zero n w h = absurd (omega (arith, h))
digits-StartsDigit (suc fuel) n w h = elim (Bool-cases (ltb n 10)) [
  | inl e ↦ rw (digits, e) (b'0' + n, w, refl, omega arith, below n e)
  | inr e ↦ rw (digits, e) (digits-StartsDigit fuel (n / 10) ((b'0' + n % 10) ∷ w) (smaller n e h))
]
  where
    below : (n : ℕ) → ltb n 10 ≡ true → b'0' + n < b':'
    below n e = ground (arith, e)

    smaller : (n : ℕ) → ltb n 10 ≡ false → n < suc fuel → n / 10 < fuel
    smaller n e h = ground (arith, e, h)

pub decimal-StartsDigit : (n : ℕ) → StartsDigit (decimal n)
unfolding decimal
decimal-StartsDigit n = digits-StartsDigit (suc n) n [] (omega arith)

signed_digit : (s : Text) → StartsDigit s → signed s ≡ positive (scan_digits 0 s)
signed_digit s (c, t, e, lo, hi) = rw (e, plus c lo, minus c lo) refl
  where
    plus : (c : ℕ) → b'0' ≤ c → (c == b'+') ≡ false
    plus c h = ground (arith, h)

    minus : (c : ℕ) → b'0' ≤ c → (c == b'-') ≡ false
    minus c h = ground (arith, h)

scan_digits-decimal : (n : ℕ) → n < 18446744073709551616 → scan_digits 0 (decimal n) ≡ some n
unfolding decimal scan_digits
scan_digits-decimal n h = scan_digits-digits (suc n) n [] (omega arith) h

signed-decimal : (n : ℕ) → n < 18446744073709551616 → signed (decimal n) ≡ some (pos n)
signed-decimal n h =
    signed_digit (decimal n) (decimal-StartsDigit n) ∙ ap positive (scan_digits-decimal n h)

signed-decimal_neg :
    (n : ℕ) → suc n < 18446744073709551616 → signed (b'-' ∷ decimal (suc n)) ≡ some (negsuc n)
signed-decimal_neg n h =
    ap negated
      (whole (decimal (suc n)) (decimal-StartsDigit (suc n)) ∙ scan_digits-decimal (suc n) h)
  where
    whole : (s : Text) → StartsDigit s → unsigned s ≡ scan_digits 0 s
    whole s (c, t, e, _, _) = rw e refl

-- Printing a number of int64 and reading the text gives the number.
pub parse_int-decimal_int : (z : ℤ) → in_int64 z ≡ true → parse_int (decimal_int z) ≡ z
unfolding parse_int decimal_int
parse_int-decimal_int (pos n) h = rw (signed-decimal n (ground (arith, h)), h) refl
parse_int-decimal_int (negsuc n) h = rw (signed-decimal_neg n (ground (arith, h)), h) refl

pub decimal_int-filled : (z : ℤ) → is_empty (decimal_int z) ≡ false
unfolding decimal_int
decimal_int-filled (pos n) = let (c, t, e, _, _) = decimal-StartsDigit n in rw e refl
decimal_int-filled (negsuc n) = refl
