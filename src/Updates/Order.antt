-- ===== src/Updates/Order.antt =====
-- The order of versions in internal/updates/updates.go.
use debeasy.Base.{◌<◌, ◌≡◌, ◌↔◌, ◌⊎◌, true, arith}
use debeasy.Updates.{Version, greater, newer}
use debeasy.Updates.Tags.{Tag, IsTag, text_of, parse_semver-text_of}

-- The first number that differs is larger.
abbrev pub Above : Version → Version → Type 0
Above (a, b, c) (a', b', c') = (a' < a) ⊎ ((a ≡ a') × ((b' < b) ⊎ ((b ≡ b') × (c' < c))))

greater_iff : (u v : Version) → (greater u v ≡ true) ↔ Above u v
greater_iff (a, b, c) (a', b', c') = ground arith

-- `Newer` of two tags is the order of their versions, by the first number that differs, whatever letter
-- and suffix they have: also a pre-release is not newer than the release of its version, nor older. The
-- numbers fit in an int64, a suffix starts with - or +, and the tags have no space at their ends.
pub newer-text_of :
    (t u : Tag)
    → IsTag t
    → IsTag u
    → (newer (text_of t) (text_of u) ≡ true) ↔ Above t.version u.version
unfolding newer
newer-text_of t u h k =
    rw (parse_semver-text_of t h, parse_semver-text_of u k) (greater_iff t.version u.version)
