-- ===== src/Command/Checksum/RoundTrip.antt =====
-- The checksum file of a release, as `sha256sum` prints it, read back.
use debeasy.Base.{
  ℕ, false, List, [], ◌∷◌, ◌++◌, Result, ok, err, if◌then◌else◌, ◌≡◌, refl, ap, sym, ◌∙◌,
  append_assoc, ◌==◌, arith, All, is_empty, All-append,
}
use debeasy.Base.Text.{Text, ◌≗◌, is_space, trim_space, trim_right, trim_left, has_prefix}
use debeasy.Command.Checksum.{
  FetchError, no_entry, raw_lines, drop_cr, too_long, word_split, fields, drop_star, parse_lines,
  parse_checksum,
}
use mathlib.Core.List.{reverse, reverse-append, reverse-reverse}

abbrev pub Entry : Type 0
Entry = Text × Text

-- "<sum>  <name>"
abbrev pub line : Entry → Text
line (sum, name) = sum ++ (32 ∷ 32 ∷ name)

abbrev pub checksums : List Entry → Text
checksums [] = []
checksums (e ∷ es) = line e ++ (10 ∷ checksums es)

abbrev pub IsSolid : ℕ → Type 0
IsSolid c = is_space c ≡ false

-- At least one code point, and none of them a space.
abbrev pub IsWord : Text → Type 0
IsWord w = is_empty w ≡ false × All IsSolid w

-- What the program's release build prints: no name starts with an asterisk, and no line is too long.
pub record IsEntry (e : Entry) : Type 0 where
  pub sum_IsWord : IsWord e.0
  pub name_IsWord : IsWord e.1
  pub unstarred : has_prefix e.1 (b'*' ∷ []) ≡ false
  pub short : too_long (line e) ≡ false

solid_newline : (c : ℕ) → IsSolid c → (c == 10) ≡ false
unfolding is_space
solid_newline c h = ground arith

solid_cr : (c : ℕ) → IsSolid c → (c == 13) ≡ false
unfolding is_space
solid_cr c h = ground arith

-- A line of code points other than the newline is cut off.
raw_lines-append :
    (l rest : Text)
    → All (λ c. (c == 10) ≡ false) l
    → raw_lines (l ++ (10 ∷ rest)) ≡ l ∷ raw_lines rest
unfolding raw_lines
raw_lines-append [] rest h = refl
raw_lines-append (c ∷ l) rest (h, hs) = rw (h, raw_lines-append l rest hs) refl

word_split-append : (w s : Text) → All IsSolid w → word_split (w ++ (32 ∷ s)) ≡ (w, fields s)
unfolding word_split fields is_space
word_split-append [] s h = refl
word_split-append (c ∷ w) s (h, hs) = rw (h, word_split-append w s hs) refl

word_split_solid : (w : Text) → All IsSolid w → word_split w ≡ (w, [])
unfolding word_split
word_split_solid [] h = refl
word_split_solid (c ∷ w) (h, hs) = rw (h, word_split_solid w hs) refl

fields-line : (e : Entry) → IsWord e.0 → IsWord e.1 → fields (line e) ≡ e.0 ∷ e.1 ∷ []
unfolding fields word_split is_space
fields-line ([], n) (h, _) k = cc
fields-line (c ∷ s, []) h (k, _) = cc
fields-line (c ∷ s, d ∷ n) (_, h) (_, k) =
    rw (word_split-append (c ∷ s) (32 ∷ d ∷ n) h, word_split_solid (d ∷ n) k) refl

-- The text ends with a code point that is no space.
abbrev EndsSolid : Text → Type 0
EndsSolid s = (t : Text) × (c : ℕ) × (s ≡ t ++ (c ∷ [])) × IsSolid c

word-EndsSolid : (w : Text) → IsWord w → EndsSolid w
word-EndsSolid [] (h, _) = cc
word-EndsSolid (c ∷ []) (_, h) = ([], c, refl, h.0)
word-EndsSolid (c ∷ d ∷ w) (_, h) =
    let (t, b, e, k) = word-EndsSolid (d ∷ w) (refl, h.1) in (c ∷ t, b, ap (λ x. c ∷ x) e, k)

append-EndsSolid : (a s : Text) → EndsSolid s → EndsSolid (a ++ s)
append-EndsSolid a s (t, c, e, k) = (a ++ t, c, rw (e, append_assoc a t (c ∷ [])) refl, k)

reverse_ends : (t : Text) (c : ℕ) → reverse (t ++ (c ∷ [])) ≡ c ∷ reverse t
reverse_ends t c = reverse-append t (c ∷ [])

drop_cr-EndsSolid : (s : Text) → EndsSolid s → drop_cr s ≡ s
unfolding drop_cr
drop_cr-EndsSolid s (t, c, e, k) =
    rw (e, reverse_ends t c, solid_cr c k)
      (ap reverse (sym (reverse_ends t c)) ∙ reverse-reverse (t ++ (c ∷ [])))

trim_right-EndsSolid : (s : Text) → EndsSolid s → trim_right is_space s ≡ s
unfolding trim_right trim_left
trim_right-EndsSolid s (t, c, e, k) =
    rw (e, reverse_ends t c, k)
      (ap reverse (sym (reverse_ends t c)) ∙ reverse-reverse (t ++ (c ∷ [])))

trim_left_solid : (c : ℕ) (s : Text) → IsSolid c → trim_left is_space (c ∷ s) ≡ c ∷ s
unfolding trim_left
trim_left_solid c s h = rw h refl

line-EndsSolid : (e : Entry) → IsWord e.1 → EndsSolid (line e)
line-EndsSolid (s, n) h =
    append-EndsSolid s (32 ∷ 32 ∷ n) (append-EndsSolid (32 ∷ 32 ∷ []) n (word-EndsSolid n h))

trim_space-line : (e : Entry) → IsWord e.0 → IsWord e.1 → trim_space (line e) ≡ line e
unfolding trim_space
trim_space-line ([], n) (h, _) k = cc
trim_space-line (c ∷ s, n) (_, (h, hs)) k =
    rw (trim_left_solid c (s ++ (32 ∷ 32 ∷ n)) h)
      (trim_right-EndsSolid (line (c ∷ s, n)) (line-EndsSolid (c ∷ s, n) k))

All-solid_newline : (w : Text) → All IsSolid w → All (λ c. (c == 10) ≡ false) w
All-solid_newline [] h = tt
All-solid_newline (c ∷ w) (h, hs) = (solid_newline c h, All-solid_newline w hs)

line-All : (e : Entry) → IsWord e.0 → IsWord e.1 → All (λ c. (c == 10) ≡ false) (line e)
line-All (s, n) (_, h) (_, k) =
    All-append (λ c. (c == 10) ≡ false) s (32 ∷ 32 ∷ n) (All-solid_newline s h)
      (refl, (refl, All-solid_newline n k))

unstarred_head : (c : ℕ) (n : Text) → has_prefix (c ∷ n) (b'*' ∷ []) ≡ false → (c == b'*') ≡ false
unfolding has_prefix
unstarred_head c n h = ground arith

drop_star_unstarred : (n : Text) → has_prefix n (b'*' ∷ []) ≡ false → drop_star n ≡ n
drop_star_unstarred [] h = refl
drop_star_unstarred (c ∷ n) h = rw (unstarred_head c n h) refl

-- The entry that a list of them has for a name.
abbrev pub entry_of : List Entry → Text → Result FetchError Text
entry_of [] asset = err (no_entry asset)
entry_of ((sum, name) ∷ es) asset =
    let rest = entry_of es asset in if name ≗ asset then ok sum else rest

-- Of the lines that `sha256sum` prints, the first one with the asset's name decides; without one there
-- is an error.
pub parse_checksum-checksums :
    (es : List Entry) (asset : Text)
    → All IsEntry es
    → parse_checksum (checksums es) asset ≡ entry_of es asset
unfolding parse_checksum raw_lines parse_lines
parse_checksum-checksums [] asset h = refl
parse_checksum-checksums ((s, n) ∷ es) asset (h, hs) =
    rw
      (
        raw_lines-append (line (s, n)) (checksums es) (line-All (s, n) h.sum_IsWord h.name_IsWord),
        h.short,
        drop_cr-EndsSolid (line (s, n)) (line-EndsSolid (s, n) h.name_IsWord),
        trim_space-line (s, n) h.sum_IsWord h.name_IsWord,
        fields-line (s, n) h.sum_IsWord h.name_IsWord,
        drop_star_unstarred n h.unstarred,
        parse_checksum-checksums es asset hs,
      )
      refl
