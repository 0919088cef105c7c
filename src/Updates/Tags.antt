-- ===== src/Updates/Tags.antt =====
-- The tags that internal/updates/updates.go reads as versions.
use debeasy.Base.{
  ℕ, ◌<◌, ◌≤◌, ◌==◌, ◌≡◌, refl, ap, ◌∙◌, Bool, true, false, Option, none, some, [], ◌∷◌, ◌++◌, All,
  All-append, arith, is_empty, ◌||◌, if◌then◌else◌,
}
use debeasy.Base.Text.{Text, codes, join, split, trim_space}
use debeasy.Base.Text.Split.{Without, split-join}
use debeasy.Base.Decimal.{decimal}
use debeasy.Base.Number.RoundTrip.{StartsDigit, decimal-StartsDigit}
use debeasy.Updates.{Version, drop_v, before_suffix, of_parts, parse_semver}
use debeasy.Updates.Numbers.{bound, IsDigit, decimal-IsDigit, digits_Without, atoi-decimal}

abbrev is_mark : ℕ → Bool
is_mark c = c == b'-' || c == b'+'

-- A pre-release or a build, or nothing.
abbrev pub IsSuffix : Text → Type 0
IsSuffix [] = Unit
IsSuffix (c ∷ s) = is_mark c ≡ true

pub record Tag : Type 0 where
  pub with_v : Bool
  pub version : Version
  pub suffix : Text

abbrev pub numbers : Version → Text
numbers (a, b, c) = join (decimal a ∷ decimal b ∷ decimal c ∷ []) (b'.' ∷ [])

abbrev pub text_of : Tag → Text
text_of t = (if t.with_v then codes "v" else []) ++ (numbers t.version ++ t.suffix)

abbrev pub FitsInt : Version → Type 0
FitsInt (a, b, c) = (a < bound) × (b < bound) × (c < bound)

-- The numbers fit in an int64, and there is no space at either end.
pub record IsTag (t : Tag) : Type 0 where
  pub numbers : FitsInt t.version
  pub suffix : IsSuffix t.suffix
  pub trimmed : trim_space (text_of t) ≡ text_of t

abbrev Unmarked : Text → Type 0
Unmarked s = All (λ c. is_mark c ≡ false) s

digits-Unmarked : (s : Text) → All IsDigit s → Unmarked s
digits-Unmarked [] h = tt
digits-Unmarked (c ∷ s) ((lo, hi), hs) = (other c lo, digits-Unmarked s hs)
  where
    other : (c : ℕ) → b'0' ≤ c → is_mark c ≡ false
    other c lo = ground arith

decimal-Unmarked : (n : ℕ) → Unmarked (decimal n)
decimal-Unmarked n = digits-Unmarked (decimal n) (decimal-IsDigit n)

numbers-Unmarked : (v : Version) → Unmarked (numbers v)
unfolding join
numbers-Unmarked (a, b, c) =
    let P : ℕ → Type 0 = λ c. is_mark c ≡ false in
    All-append P (decimal a) _ (decimal-Unmarked a)
      (refl, All-append P (decimal b) _ (decimal-Unmarked b) (refl, decimal-Unmarked c))

before_suffix-append :
    (s suffix : Text) → Unmarked s → IsSuffix suffix → before_suffix (s ++ suffix) ≡ s
unfolding before_suffix
before_suffix-append [] [] h k = refl
before_suffix-append [] (c ∷ suffix) h k = rw k refl
before_suffix-append (c ∷ s) suffix (h, hs) k = rw (h, before_suffix-append s suffix hs k) refl

decimal-Without_dot : (n : ℕ) → Without b'.' (decimal n)
decimal-Without_dot n = digits_Without b'.' (decimal n) (omega arith) (decimal-IsDigit n)

split-numbers :
    (a b c : ℕ) → split (numbers (a, b, c)) b'.' ≡ decimal a ∷ decimal b ∷ decimal c ∷ []
unfolding split
split-numbers a b c =
    split-join b'.' (decimal a) (decimal b ∷ decimal c ∷ []) (decimal-Without_dot a)
      (decimal-Without_dot b, (decimal-Without_dot c, tt))

-- The text behind the letter starts with a digit.
numbers-StartsDigit : (v : Version) (suffix : Text) → StartsDigit (numbers v ++ suffix)
unfolding join
numbers-StartsDigit (a, b, c) suffix =
    let (d, s, e, lo, hi) = decimal-StartsDigit a in
    let rest = b'.' ∷ (decimal b ++ (b'.' ∷ decimal c)) in
    (d, (s ++ rest) ++ suffix, ap (λ x. (x ++ rest) ++ suffix) e, lo, hi)

drop_v-text_of : (t : Tag) → drop_v (text_of t) ≡ numbers t.version ++ t.suffix
drop_v-text_of t =
    dropped t.with_v (numbers t.version ++ t.suffix) (numbers-StartsDigit t.version t.suffix)
  where
    not_v : (c : ℕ) → c < b':' → (c == b'v') ≡ false
    not_v c hi = ground arith

    dropped :
        (b : Bool) (s : Text) → StartsDigit s → drop_v ((if b then codes "v" else []) ++ s) ≡ s
    dropped true s h = refl
    dropped false s (c, t, e, lo, hi) = rw (e, not_v c hi) refl

-- `parseSemver` behind the letter.
abbrev parse_numbers : Text → Option Version
unfolding of_parts
parse_numbers s = if is_empty s then none else of_parts (split (before_suffix s) b'.')

parse_numbers-numbers :
    (v : Version) (suffix : Text)
    → FitsInt v
    → IsSuffix suffix
    → parse_numbers (numbers v ++ suffix) ≡ some v
unfolding parse_numbers of_parts
parse_numbers-numbers (a, b, c) suffix (ha, hb, hc) k =
    rw
      (
        filled (numbers (a, b, c) ++ suffix) (numbers-StartsDigit (a, b, c) suffix),
        before_suffix-append (numbers (a, b, c)) suffix (numbers-Unmarked (a, b, c)) k,
        split-numbers a b c,
        atoi-decimal a ha,
        atoi-decimal b hb,
        atoi-decimal c hc,
      )
      refl
  where
    filled : (s : Text) → StartsDigit s → is_empty s ≡ false
    filled s (d, t, e, _, _) = rw e refl

-- A tag is read as its version, with or without the letter, whatever its suffix is.
pub parse_semver-text_of : (t : Tag) → IsTag t → parse_semver (text_of t) ≡ some t.version
unfolding parse_semver parse_numbers
parse_semver-text_of t h =
    ap parse_numbers (ap drop_v h.trimmed ∙ drop_v-text_of t)
    ∙ parse_numbers-numbers t.version t.suffix h.numbers h.suffix
