-- ===== src/Command/Checksum.antt =====
-- cmd/debeasy/update.go: `parseChecksum` and `readYes`, with what they take from Go's `bufio` and
-- `strings` packages. A text is scanned from its end, so that every line and word is a prefix of it.
pub mod RoundTrip
use debeasy.Base.{
  ℕ, ◌+◌, Bool, true, false, ◌||◌, ◌&&◌, List, [], ◌∷◌, Result, ok, err, if◌then◌else◌, ltb, leb,
  ◌==◌, map,
}
use debeasy.Base.Text.{Text, codes, ◌≗◌, is_space, trim_space, byte_length}
use mathlib.Core.List.{reverse}

-- Why a file of the release, or its tag, could not be fetched and read.
pub data FetchError : Type 0 where
  transport : Text → FetchError
  github_status : Text → FetchError
  http_status : Text → Text → FetchError
  no_tag_name : FetchError
  token_too_long : FetchError
  no_entry : Text → FetchError

-- A code point in front of the first line.
abbrev extend : ℕ → List Text → List Text
extend c [] = (c ∷ []) ∷ []
extend c (l ∷ ls) = (c ∷ l) ∷ ls

-- The lines that `bufio.ScanLines` cuts: what follows the last newline is a line unless it is empty.
unfoldable pub raw_lines : Text → List Text
raw_lines [] = []
raw_lines (c ∷ s) = let rest = raw_lines s in if c == 10 then [] ∷ rest else extend c rest

abbrev without_cr : Text → Text
without_cr [] = []
without_cr (c ∷ s) = if c == 13 then s else c ∷ s

-- The carriage return that `bufio.ScanLines` drops from the end of a line.
unfoldable pub drop_cr : Text → Text
drop_cr l = reverse (without_cr (reverse l))

-- The buffer of a `bufio.Scanner` holds 64 KB: a line that fills it is an error.
abbrev pub too_long : Text → Bool
too_long l = leb 65536 (byte_length l)

-- A word in front of the other words, if it has a code point.
abbrev pub push : Text → List Text → List Text
push [] ws = ws
push (c ∷ w) ws = (c ∷ w) ∷ ws

-- The word that the text starts with, and the words after it.
unfoldable pub word_split : Text → Text × List Text
word_split [] = ([], [])
word_split (c ∷ s) =
    let rest = word_split s in if is_space c then ([], push rest.0 rest.1) else (c ∷ rest.0, rest.1)

-- `strings.Fields`
unfoldable pub fields : Text → List Text
unfolding word_split
fields s = push (word_split s).0 (word_split s).1

-- `strings.TrimPrefix(s, "*")`
abbrev pub drop_star : Text → Text
drop_star [] = []
drop_star (c ∷ s) = if c == b'*' then s else c ∷ s

-- The fields of a line decide: the checksum, or what the lines after it give. A blank line has none.
abbrev pub entry : List Text → Text → Result FetchError Text → Result FetchError Text
entry (sum ∷ name ∷ more) asset rest = if drop_star name ≗ asset then ok sum else rest
entry _ asset rest = rest

unfoldable pub parse_lines : List Text → Text → Result FetchError Text
parse_lines [] asset = err (no_entry asset)
parse_lines (l ∷ ls) asset =
    let rest = parse_lines ls asset in
    if too_long l then err token_too_long else entry (fields (trim_space (drop_cr l))) asset rest

unfoldable pub parse_checksum : Text → Text → Result FetchError Text
parse_checksum body asset = parse_lines (raw_lines body) asset

-- `strings.ToLower` on the letters of ASCII and on the Kelvin sign, whose lower case is one; no other
-- code point has a lower case that the answers below contain.
abbrev lower : ℕ → ℕ
lower c = if leb b'A' c && leb c b'Z' then c + 32 else if c == 0x212a then b'k' else c

abbrev is_yes : Text → Bool
is_yes answer = answer ≗ codes "y" || answer ≗ codes "yes"

-- The first line decides.
abbrev first_yes : List Text → Bool
first_yes [] = false
first_yes (l ∷ ls) = if too_long l then false else is_yes (map lower (trim_space (drop_cr l)))

unfoldable pub read_yes : Text → Bool
read_yes input = first_yes (raw_lines input)
