-- ===== src/Updates/Checks.antt =====
-- What the checker of internal/updates/updates.go announces.
use debeasy.Base.{
  ℕ, ◌≡◌, refl, Bool, true, false, not, ◌||◌, Option, none, some, Result, ok, err, if_cases,
  is_empty,
}
use debeasy.Base.Text.{Text}
use debeasy.Updates.{
  Release, GithubRelease, Checker, newer, load_release, load, clear, release_of, write_cache,
  checked, check,
}

-- Only a release newer than the running version is announced.
abbrev pub Announces : Text → Option Release → Type 0
Announces current none = Unit
Announces current (some r) = newer r.tag current ≡ true

abbrev pub IsNewer : Checker → Type 0
IsNewer c = Announces c.current_version c.latest

load_release-IsNewer : (c : Checker) (o : Option Release) → IsNewer c → IsNewer (load_release c o)
load_release-IsNewer c none v = v
load_release-IsNewer c (some r) v =
    if_cases IsNewer (newer r.tag c.current_version) (λ e. e) (λ _. v)

abbrev Sound : Text → (Option Release × Option Text) × Checker → Type 0
Sound current q = Announces current q.0.0 × IsNewer q.1

written-Sound :
    (c : Checker) (r : Release) (failure : Option Text)
    → newer r.tag c.current_version ≡ true
    → IsNewer c
    → Sound c.current_version (checked r (write_cache c r failure))
unfolding write_cache
written-Sound c r none e v =
    if_cases (λ (p : Option Text × Checker). Sound c.current_version (checked r p)) c.persists
      (λ _. (e, v)) (λ _. (e, v))
written-Sound c r (some msg) e v =
    if_cases (λ (p : Option Text × Checker). Sound c.current_version (checked r p)) c.persists
      (λ _. (e, v)) (λ _. (e, v))

negated : (b : Bool) → not b ≡ false → b ≡ true
negated true e = refl
negated false e = cc

check-Sound :
    (c : Checker) (answer : Result Text GithubRelease) (now : ℕ) (failure : Option Text)
    → IsNewer c
    → Sound c.current_version (check c answer now failure)
unfolding check clear
check-Sound c (err e) now failure v = (tt, v)
check-Sound c (ok g) now failure v =
    if_cases (Sound c.current_version) (g.draft || (g.prerelease || is_empty g.tag_name))
      (λ _. (tt, v))
      (λ _.
        if_cases (Sound c.current_version) (not (newer g.tag_name c.current_version))
          (λ _. (tt, tt))
          (λ e.
            let above = negated (newer g.tag_name c.current_version) e in
            let r = release_of g now in
            written-Sound (record c { latest = some r }) r failure above above))

-- Whatever the API answers and whether or not the disk takes the cache, a check reports and
-- announces only releases newer than the running version, and so does a load of the cache, if that
-- held before.
pub check-IsNewer :
    (c : Checker) (answer : Result Text GithubRelease) (now : ℕ) (failure : Option Text)
    → IsNewer c
    → Announces c.current_version (check c answer now failure).0.0
      × IsNewer (check c answer now failure).1
      × IsNewer (load c)
unfolding load
check-IsNewer c answer now failure v =
    let q = check-Sound c answer now failure v in
    (q.0, q.1, if_cases IsNewer c.persists (λ _. load_release-IsNewer c c.cached v) (λ _. v))
