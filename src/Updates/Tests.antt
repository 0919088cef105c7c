-- ===== src/Updates/Tests.antt =====
-- The theorems on versions and the checker, at concrete inputs.
use debeasy.Base.{arith, refl, ◌↔◌, [], ◌≡◌, true, false, none, ok}
use debeasy.Base.Text.{codes, join, trim_space, trim_left, trim_right, is_space}
use debeasy.Base.Decimal.{decimal}
use debeasy.Updates.{GithubRelease, Checker, newer, check, load}
use debeasy.Updates.Tags.{Tag, IsTag}
use debeasy.Updates.Order.{Above, newer-text_of}
use debeasy.Updates.Checks.{Announces, IsNewer, check-IsNewer}

abbrev release : Tag
release = record { with_v = true; version = (1, 10, 0); suffix = [] }

abbrev candidate : Tag
candidate = record { with_v = false; version = (1, 9, 3); suffix = codes "-rc1" }

release-IsTag : IsTag release
unfolding join decimal trim_space trim_left trim_right is_space
release-IsTag = record {
  numbers = (omega arith, omega arith, omega arith);
  suffix = tt;
  trimmed = refl;
}

candidate-IsTag : IsTag candidate
unfolding join decimal trim_space trim_left trim_right is_space
candidate-IsTag = record {
  numbers = (omega arith, omega arith, omega arith);
  suffix = refl;
  trimmed = refl;
}

newer-text_of_example :
    (newer (codes "v1.10.0") (codes "1.9.3-rc1") ≡ true) ↔ Above (1, 10, 0) (1, 9, 3)
unfolding join decimal
newer-text_of_example = newer-text_of release candidate release-IsTag candidate-IsTag

abbrev checker : Checker
checker = record { current_version = codes "1.2.3"; latest = none; persists = true; cached = none }

abbrev published : GithubRelease
published = record {
  tag_name = codes "v1.3.0";
  html_url = codes "u";
  published_at = codes "p";
  draft = false;
  prerelease = false;
}

check-IsNewer_example :
    Announces (codes "1.2.3") (check checker (ok published) 5 none).0.0
    × IsNewer (check checker (ok published) 5 none).1
    × IsNewer (load checker)
check-IsNewer_example = check-IsNewer checker (ok published) 5 none tt
