-- ===== src/Dbx/Sql/Placeholders.antt =====
-- How a database reads the placeholders of a statement: outside quoted names, `$n` stands for the
-- n-th argument and each `?` for the next one. The reader pairs each with the name in front of it.
use Prim.Native.Nat.{zero, ◌/◌, ◌%◌}
use debeasy.Base.{
  ℕ, suc, ◌+◌, ◌-◌, ◌*◌, ◌<◌, ◌≤◌, ◌≡◌, ◌≢◌, refl, ap, ◌∙◌, Bool, true, false, ◌&&◌, List, [], ◌∷◌,
  ◌++◌, ok, arith, if◌then◌else◌, ltb, leb, ◌==◌, append_assoc, append-nil, Bool-cases, inl, inr,
}
use debeasy.Base.Text.{Text, codes}
use debeasy.Base.Decimal.{digits, decimal}
use debeasy.Dbx.Driver.{Kind, postgres, mysql, sqlite}
use debeasy.Dbx.Identifier.{quote_ident}
use debeasy.Dbx.Identifier.Quoting.{quote_char, Lacks, quote_ident_iff}

abbrev pub Binding : Type 0
Binding = Text × ℕ

-- Outside quotes after a name, inside quotes, or in the digits of a `$n` after a name.
pub data Mode : Type 0 where
  plain quoted : Text → Mode
  number : Text → ℕ → Mode

pub record Reader : Type 0 where
  pub mode : Mode
  pub next : ℕ

abbrev is_digit : ℕ → Bool
is_digit c = leb b'0' c && leb c b'9'

-- The reader after a character outside quotes, and the bindings that this one ends.
abbrev read_plain : ℕ → Text → ℕ → ℕ → Reader × List Binding
read_plain q name next c =
    if c == q
    then (record { mode = quoted []; next = next }, [])
    else if c == b'$'
    then (record { mode = number name 0; next = next }, [])
    else if c == b'?'
    then (record { mode = plain name; next = suc next }, (name, next) ∷ [])
    else (record { mode = plain name; next = next }, [])

abbrev read_char : ℕ → Mode → ℕ → ℕ → Reader × List Binding
read_char q (plain name) next c = read_plain q name next c
read_char q (quoted name) next c =
    if c == q
    then (record { mode = plain name; next = next }, [])
    else (record { mode = quoted (name ++ c ∷ []); next = next }, [])
read_char q (number name n) next c =
    if is_digit c
    then (record { mode = number name (n * 10 + (c - b'0')); next = next }, [])
    else ((read_plain q name next c).0, (name, n) ∷ (read_plain q name next c).1)

abbrev read_end : Mode → List Binding
read_end (number name n) = (name, n) ∷ []
read_end _ = []

unfoldable pub bindings_from : ℕ → Mode → ℕ → Text → List Binding
bindings_from q mode next [] = read_end mode
bindings_from q mode next (c ∷ s) =
    let (r, out) = read_char q mode next c in out ++ bindings_from q r.mode r.next s

-- The bindings of a whole statement of a dialect; arguments count from 1.
unfoldable pub bindings : Kind → Text → List Binding
bindings k = bindings_from (quote_char k) (plain []) 1

quoted_run :
    (q next : ℕ) (name s rest : Text)
    → Lacks q s
    → bindings_from q (quoted name) next (s ++ q ∷ rest)
      ≡ bindings_from q (plain (name ++ s)) next rest
unfolding bindings_from
quoted_run q next name [] rest h = rw append-nil (ground arith)
quoted_run q next name (c ∷ s) rest (h, hs) =
    let ih : _ ≡ _ = quoted_run q next (name ++ c ∷ []) s rest hs in
    rw (differs q c h, ih, append_assoc) refl
  where
    differs : (q c : ℕ) → c ≢ q → (c == q) ≡ false
    differs q c h = ground arith

pub read_name :
    (k : Kind) (next : ℕ) (last name col rest : Text)
    → quote_ident k name ≡ ok col
    → bindings_from (quote_char k) (plain last) next (col ++ rest)
      ≡ bindings_from (quote_char k) (plain name) next rest
read_name k next last name col rest h =
    let (_, lacks, shape) = (quote_ident_iff k name col).0 h in
    rw (shape, append_assoc) (opened k _ ∙ quoted_run (quote_char k) next [] name rest lacks)
  where
    opened :
        (k : Kind) (s : Text)
        → bindings_from (quote_char k) (plain last) next (quote_char k ∷ s)
          ≡ bindings_from (quote_char k) (quoted []) next s
    opened postgres s = unfold bindings_from in refl
    opened mysql s = unfold bindings_from in refl
    opened sqlite s = unfold bindings_from in refl

-- The text does not go on with a digit.
abbrev pub EndsNumber : Text → Type 0
EndsNumber [] = Unit
EndsNumber (c ∷ s) = is_digit c ≡ false

read_digit :
    (q next n d : ℕ) (name s : Text)
    → d < 10
    → bindings_from q (number name n) next ((b'0' + d) ∷ s)
      ≡ bindings_from q (number name (n * 10 + d)) next s
unfolding bindings_from
read_digit q next n d name s h =
    let value : n * 10 + (b'0' + d - b'0') ≡ n * 10 + d = omega arith in rw (digit d h, value) refl
  where
    digit : (d : ℕ) → d < 10 → is_digit (b'0' + d) ≡ true
    digit d h = ground arith

digits_small :
    (fuel n : ℕ) (written : Text)
    → ltb n 10 ≡ true
    → digits (suc fuel) n written ≡ (b'0' + n) ∷ written
digits_small fuel n written h = ground arith

digits_large :
    (fuel n : ℕ) (written : Text)
    → ltb n 10 ≡ false
    → digits (suc fuel) n written ≡ digits fuel (n / 10) ((b'0' + n % 10) ∷ written)
digits_large fuel n written h = ground arith

read_digits :
    (q next fuel n : ℕ) (name written rest : Text)
    → n < fuel
    → bindings_from q (number name 0) next (digits fuel n written ++ rest)
      ≡ bindings_from q (number name n) next (written ++ rest)
read_digits q next zero n name written rest h = absurd (omega (arith, h))
read_digits q next (suc fuel) n name written rest h = elim (Bool-cases (ltb n 10)) [
  | inl small ↦
      let value : 0 * 10 + n ≡ n = omega arith in
      rw (digits_small fuel n written small) (
        read_digit q next 0 n name (written ++ rest) (ground arith)
        ∙ ap (λ (m : ℕ). bindings_from q (number name m) next (written ++ rest)) value)
  | inr large ↦
      let ten : 10 ≤ n = ground arith in
      let whole : n / 10 * 10 + n % 10 ≡ n = omega arith in
      let ih =
        read_digits q next fuel (n / 10) name ((b'0' + n % 10) ∷ written) rest
          (omega (arith, ten, h)) in
      rw (digits_large fuel n written large) (
        ih
        ∙ (read_digit q next (n / 10) (n % 10) name (written ++ rest) (omega arith)
            ∙ ap (λ (m : ℕ). bindings_from q (number name m) next (written ++ rest)) whole))
]

read_number_end :
    (k : Kind) (next n : ℕ) (name rest : Text)
    → EndsNumber rest
    → bindings_from (quote_char k) (number name n) next rest
      ≡ (name, n) ∷ bindings_from (quote_char k) (plain name) next rest
unfolding bindings_from
read_number_end k next n name [] h = refl
read_number_end k next n name (c ∷ s) h = rw h refl

pub read_placeholder :
    (next n : ℕ) (name rest : Text)
    → EndsNumber rest
    → bindings_from b'"' (plain name) next (codes "=$" ++ decimal n ++ rest)
      ≡ (name, n) ∷ bindings_from b'"' (plain name) next rest
read_placeholder next n name rest h =
    opened
    ∙ (read_digits b'"' next (suc n) n name [] rest (omega arith)
        ∙ read_number_end postgres next n name rest h)
  where
    opened :
        bindings_from b'"' (plain name) next (codes "=$" ++ decimal n ++ rest)
        ≡ bindings_from b'"' (number name 0) next (digits (suc n) n [] ++ rest)
    opened = unfold bindings_from decimal in refl

pub read_mark :
    (k : Kind) (next : ℕ) (name rest : Text)
    → bindings_from (quote_char k) (plain name) next (codes "=?" ++ rest)
      ≡ (name, next) ∷ bindings_from (quote_char k) (plain name) (suc next) rest
unfolding bindings_from
read_mark postgres next name rest = refl
read_mark mysql next name rest = refl
read_mark sqlite next name rest = refl
