-- ===== src/Updates.antt =====
-- internal/updates/updates.go: the comparison of versions, and the checker with its two caches. What
-- the releases API answers, the clock and the outcome of a write to the disk are arguments.
pub mod Numbers
pub mod Tags
pub mod Order
pub mod Checks
mod Tests
use debeasy.Base.{
  ℕ, ◌+◌, ◌-◌, ◌*◌, Bool, true, false, not, ◌||◌, ◌&&◌, Option, none, some, List, [], ◌∷◌, Result,
  ok, err, if◌then◌else◌, ltb, leb, ◌==◌, is_empty,
}
use debeasy.Base.Text.{Text, codes, trim_space, split}

-- `strings.TrimPrefix(s, "v")`
abbrev drop_v : Text → Text
drop_v [] = []
drop_v (c ∷ s) = if c == b'v' then s else c ∷ s

-- The part in front of a pre-release or build suffix.
before_suffix : Text → Text
before_suffix [] = []
before_suffix (c ∷ s) =
    let rest = before_suffix s in if c == b'-' || c == b'+' then [] else c ∷ rest

-- `strconv.Atoi` on a text without a sign, from the value read so far; more than an int64 is an error.
digits_value : ℕ → Text → Option ℕ
digits_value n [] = if ltb n 9223372036854775808 then some n else none
digits_value n (c ∷ s) =
    let rest = digits_value (n * 10 + (c - b'0')) s in
    if leb b'0' c && leb c b'9' then rest else none

pub atoi : Text → Option ℕ
unfolding digits_value
atoi [] = none
atoi (c ∷ s) = digits_value 0 (c ∷ s)

abbrev pub Version : Type 0
Version = ℕ × ℕ × ℕ

abbrev triple : Option ℕ → Option ℕ → Option ℕ → Option Version
triple (some a) (some b) (some c) = some (a, b, c)
triple _ _ _ = none

abbrev of_parts : List Text → Option Version
unfolding atoi
of_parts (a ∷ b ∷ c ∷ []) = triple (atoi a) (atoi b) (atoi c)
of_parts _ = none

unfoldable pub parse_semver : Text → Option Version
unfolding before_suffix of_parts
parse_semver s =
    let t = drop_v (trim_space s) in
    if is_empty t then none else of_parts (split (before_suffix t) b'.')

-- The first component that differs decides.
abbrev pub greater : Version → Version → Bool
greater (a, b, c) (a', b', c') =
    if a == a' then (if b == b' then ltb c' c else ltb b' b) else ltb a' a

abbrev pub newer_version : Option Version → Option Version → Bool
newer_version (some l) (some c) = greater l c
newer_version _ _ = false

unfoldable pub newer : Text → Text → Bool
newer latest current = newer_version (parse_semver latest) (parse_semver current)

pub record Release : Type 0 where
  pub tag : Text
  pub url : Text
  pub published_at : Text
  pub checked_at : ℕ

-- What the API answers.
pub record GithubRelease : Type 0 where
  pub tag_name : Text
  pub html_url : Text
  pub published_at : Text
  pub draft : Bool
  pub prerelease : Bool

-- `cached` is the file on the disk, if the checker has a path for one (`persists`).
pub record Checker : Type 0 where
  pub current_version : Text
  pub latest : Option Release
  pub persists : Bool
  pub cached : Option Release

-- `Load`, where the file can be read; a file that is no JSON is an error and changes nothing.
abbrev pub load_release : Checker → Option Release → Checker
load_release c none = c
load_release c (some r) = if newer r.tag c.current_version then record c { latest = some r } else c

unfoldable pub load : Checker → Checker
load c = if c.persists then load_release c c.cached else c

unfoldable pub clear : Checker → Checker
clear c = record c { latest = none; cached = if c.persists then none else c.cached }

abbrev pub release_of : GithubRelease → ℕ → Release
release_of g now = record {
  tag = g.tag_name;
  url = g.html_url;
  published_at = g.published_at;
  checked_at = now;
}

-- `writeCache`: the file has the release unless the disk refuses.
unfoldable pub write_cache : Checker → Release → Option Text → Option Text × Checker
write_cache c r failure =
    if c.persists
    then elim failure [ none ↦ (none, record c { cached = some r }) | some e ↦ (some e, c) ]
    else (none, c)

-- The result is a release, if there is a newer one, and an error, if there was one.
abbrev pub checked : Release → Option Text × Checker → (Option Release × Option Text) × Checker
checked r (failure, c) = ((some r, failure), c)

unfoldable pub check :
    Checker → Result Text GithubRelease → ℕ → Option Text → (Option Release × Option Text) × Checker
check c (err e) now failure = ((none, some e), c)
check c (ok g) now failure =
    if g.draft || (g.prerelease || is_empty g.tag_name)
    then ((none, none), c)
    else if not (newer g.tag_name c.current_version)
    then ((none, none), clear c)
    else let r = release_of g now in
      checked r (write_cache (record c { latest = some r }) r failure)
