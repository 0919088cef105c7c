-- ===== src/Server/RateLimit.antt =====
-- internal/server/middleware.go: the limit on login attempts, a bucket of tokens for each address.
-- Times are nanoseconds; the number of tokens that a span of time adds, which the program computes
-- in floating point, is the parameter `refill`.
pub mod Burst
use debeasy.Base.{
  ℕ, ◌+◌, ◌-◌, Bool, true, false, not, Option, none, some, List, [], ◌∷◌, if◌then◌else◌, ltb, ◌==◌,
}
use debeasy.Base.Text.{Text, ◌≗◌, trim_space}

pub record Bucket : Type 0 where
  pub tokens : ℕ
  pub last_fill : ℕ

-- `map[string]*ipBucket`
abbrev pub Limiter : Type 0
Limiter = List (Text × Bucket)

unfoldable pub lookup : Limiter → Text → Option Bucket
lookup [] ip = none
lookup ((k, b) ∷ l) ip = let rest = lookup l ip in if k ≗ ip then some b else rest

unfoldable pub store : Limiter → Text → Bucket → Limiter
store [] ip b = (ip, b) ∷ []
store ((k, b') ∷ l) ip b = let rest = store l ip b in if k ≗ ip then (k, b) ∷ l else (k, b') ∷ rest

abbrev pub max_tokens : ℕ
max_tokens = 10

abbrev pub bucket_at : ℕ → Option Bucket → Bucket
bucket_at now none = record { tokens = max_tokens; last_fill = now }
bucket_at now (some b) = b

-- `b.tokens += add`, up to the maximum, if there is something to add.
abbrev pub fill : ℕ → ℕ → Bucket → Bucket
fill add now b =
    if ltb 0 add
    then record {
      tokens = if ltb max_tokens (b.tokens + add) then max_tokens else b.tokens + add;
      last_fill = now;
    }
    else b

module _ (refill : ℕ → ℕ) where
  abbrev pub filled : ℕ → Option Bucket → Bucket
  filled now o = let b = bucket_at now o in fill (refill (now - b.last_fill)) now b

  -- One attempt on an address's bucket: whether it is allowed, and the bucket left.
  abbrev pub take_token : Bucket → Bool × Bucket
  take_token b = if b.tokens == 0 then (false, b) else (true, record b { tokens = b.tokens - 1 })

  unfoldable pub allow : Limiter → Text → ℕ → Bool × Limiter
  allow l ip now =
      let (allowed, b) = take_token (filled now (lookup l ip)) in (allowed, store l ip b)

-- The part in front of the first comma.
before_comma : Text → Text
before_comma [] = []
before_comma (c ∷ s) = let rest = before_comma s in if c == b',' then [] else c ∷ rest

-- The part in front of the last colon, if there is one.
before_colon : Text → Option Text
before_colon [] = none
before_colon (c ∷ s) = elim (before_colon s) [
  | some p ↦ some (c ∷ p)
  | none ↦ if c == b':' then some [] else none
]

-- `if i > 0`: a separator in front of everything does not count.
abbrev nonempty_or : Text → Text → Text
nonempty_or whole [] = whole
nonempty_or whole (c ∷ s) = c ∷ s

-- `clientIP`, from the X-Forwarded-For header and the remote address.
unfoldable pub client_ip : Text → Text → Text
unfolding before_comma before_colon
client_ip [] remote = elim (before_colon remote) [ none ↦ remote | some p ↦ nonempty_or remote p ]
client_ip (c ∷ forwarded) remote =
    trim_space (nonempty_or (c ∷ forwarded) (before_comma (c ∷ forwarded)))
