-- ===== src/Updates/Numbers.antt =====
-- The numbers of a tag, which internal/updates/updates.go reads by strconv.Atoi: a decimal text is read as
-- its number.
use debeasy.Base.{
  ℕ, zero, suc, ◌+◌, ◌*◌, ◌/◌, ◌%◌, ◌<◌, ◌≤◌, ◌==◌, ◌≡◌, refl, ap, ◌∙◌, inl, inr, true, false, some,
  [], ◌∷◌, All, arith, ltb, ltb→lt, Bool-cases,
}
use debeasy.Base.Text.{Text}
use debeasy.Base.Text.Split.{Without}
use debeasy.Base.Decimal.{digits, decimal}
use debeasy.Base.Number.RoundTrip.{StartsDigit, decimal-StartsDigit}
use debeasy.Updates.{digits_value, atoi}

abbrev pub bound : ℕ
bound = 9223372036854775808

-- A digit, as a decimal text has it.
abbrev pub IsDigit : ℕ → Type 0
IsDigit c = (b'0' ≤ c) × (c < b':')

pub digits-IsDigit : (fuel n : ℕ) (w : Text) → All IsDigit w → All IsDigit (digits fuel n w)
digits-IsDigit zero n w h = h
digits-IsDigit (suc fuel) n w h = elim (Bool-cases (ltb n 10)) [
  | inl e ↦ rw (digits, e) ((omega arith, below n e), h)
  | inr e ↦
      rw (digits, e)
        (digits-IsDigit fuel (n / 10) ((b'0' + n % 10) ∷ w) ((omega arith, omega arith), h))
]
  where
    below : (n : ℕ) → ltb n 10 ≡ true → b'0' + n < b':'
    below n e = ground (arith, e)

pub decimal-IsDigit : (n : ℕ) → All IsDigit (decimal n)
unfolding decimal
decimal-IsDigit n = digits-IsDigit (suc n) n [] tt

-- What a digit is not.
pub digits_Without : (sep : ℕ) (s : Text) → sep < b'0' → All IsDigit s → Without sep s
digits_Without sep [] h k = tt
digits_Without sep (c ∷ s) h ((lo, hi), ks) = (other c lo, digits_Without sep s h ks)
  where
    other : (c : ℕ) → b'0' ≤ c → (c == sep) ≡ false
    other c lo = ground arith

value_digit :
    (m d : ℕ) (w : Text) → d < 10 → digits_value m ((b'0' + d) ∷ w) ≡ digits_value (m * 10 + d) w
unfolding digits_value
value_digit m d w h = ground arith

value-digits :
    (fuel n : ℕ) (w : Text) → n < fuel → digits_value 0 (digits fuel n w) ≡ digits_value n w
value-digits zero n w h = absurd (omega (arith, h))
value-digits (suc fuel) n w h = elim (Bool-cases (ltb n 10)) [
  | inl e ↦ rw (digits, e) (one n (ltb→lt n 10 e))
  | inr e ↦
      rw (digits, e)
        (value-digits fuel (n / 10) ((b'0' + n % 10) ∷ w) (smaller n e h)
          ∙ (value_digit (n / 10) (n % 10) w (omega arith)
              ∙ ap (λ m. digits_value m w) (omega arith)))
]
  where
    one : (n : ℕ) → n < 10 → digits_value 0 ((b'0' + n) ∷ w) ≡ digits_value n w
    one n e = value_digit 0 n w e ∙ ap (λ m. digits_value m w) (omega arith)

    smaller : (n : ℕ) → ltb n 10 ≡ false → n < suc fuel → n / 10 < fuel
    smaller n e h = ground (arith, e, h)

pub atoi-decimal : (n : ℕ) → n < bound → atoi (decimal n) ≡ some n
unfolding atoi decimal
atoi-decimal n h =
    whole (decimal n) (decimal-StartsDigit n)
    ∙ (value-digits (suc n) n [] (omega arith) ∙ small n h)
  where
    whole : (s : Text) → StartsDigit s → atoi s ≡ digits_value 0 s
    whole s (c, t, e, _, _) = rw e refl

    small : (n : ℕ) → n < bound → digits_value n [] ≡ some n
    small n h = unfold digits_value in ground arith
