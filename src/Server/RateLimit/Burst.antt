-- ===== src/Server/RateLimit/Burst.antt =====
-- How many attempts the limiter of internal/server/middleware.go lets through.
use Prim.Native.Nat.{min}
use debeasy.Base.{
  ℕ, suc, ◌-◌, ◌≤◌, ◌≡◌, refl, ap, ◌∙◌, Bool, true, false, Option, none, some, List, [], ◌∷◌,
  if◌then◌else◌, ◌==◌, arith, All, length, Bool-cases, inl, inr,
}
use debeasy.Base.Text.{Text, ◌≗◌}
use debeasy.Base.Text.Laws.{≗_refl}
use debeasy.Server.RateLimit.{Bucket, Limiter, lookup, store, max_tokens, filled, take_token, allow}

lookup-store : (l : Limiter) (ip : Text) (b : Bucket) → lookup (store l ip b) ip ≡ some b
unfolding lookup store
lookup-store [] ip b = rw (≗_refl ip) refl
lookup-store ((k, b') ∷ l) ip b = elim (Bool-cases (k ≗ ip)) [
  | inl e ↦ rw (e, e) refl
  | inr e ↦ rw (e, e) (lookup-store l ip b)
]

module _ (refill : ℕ → ℕ) (ip : Text) where
  -- The attempts that are let through, of attempts at the given times.
  unfoldable pub allowed : Limiter → List ℕ → ℕ
  allowed l [] = 0
  allowed l (now ∷ times) =
      let rest = allowed (allow refill l ip now).1 times in
      if (allow refill l ip now).0 then suc rest else rest

  -- Nothing is added to a bucket that was filled at `start`.
  abbrev pub Within : ℕ → ℕ → Type 0
  Within start now = refill (now - start) ≡ 0

  -- The bucket of the address after an attempt.
  left :
      (l : Limiter) (now : ℕ)
      → lookup (allow refill l ip now).1 ip
        ≡ some (take_token refill (filled refill now (lookup l ip))).1
  unfolding allow
  left l now = lookup-store l ip (take_token refill (filled refill now (lookup l ip))).1

  filled-Within : (b : Bucket) (now : ℕ) → Within b.last_fill now → filled refill now (some b) ≡ b
  filled-Within b now h = rw h refl

  let_through :
      (l : Limiter) (o : Option Bucket) (b : Bucket) (now : ℕ)
      → lookup l ip ≡ o
      → filled refill now o ≡ b
      → ((allow refill l ip now).0 ≡ (take_token refill b).0)
        × (lookup (allow refill l ip now).1 ip ≡ some (take_token refill b).1)
  let_through l o b now e f =
      let same : filled refill now (lookup l ip) ≡ b = ap (filled refill now) e ∙ f in
      (
        unfold allow in ap (λ (x : Bucket). (take_token refill x).0) same,
        left l now ∙ ap (λ (x : Bucket). some (take_token refill x).1) same,
      )

  emptied : (b : Bucket) → (b.tokens == 0) ≡ true → take_token refill b ≡ (false, b)
  emptied b z = rw z refl

  taken :
      (b : Bucket)
      → (b.tokens == 0) ≡ false
      → take_token refill b ≡ (true, record b { tokens = b.tokens - 1 })
  taken b z = rw z refl

  -- One attempt more than `times`, where the bucket is `b` when it is looked at.
  count_one :
      (l : Limiter) (o : Option Bucket) (b : Bucket) (now : ℕ) (times : List ℕ)
      → lookup l ip ≡ o
      → filled refill now o ≡ b
      → ((l' : Limiter) (b' : Bucket)
          → lookup l' ip ≡ some b'
          → b'.last_fill ≡ b.last_fill
          → allowed l' times ≡ min b'.tokens (length times))
      → allowed l (now ∷ times) ≡ min b.tokens (suc (length times))
  unfolding allowed
  count_one l o b now times e f rest =
      let (verdict, next) = let_through l o b now e f in
      elim (Bool-cases (b.tokens == 0)) [
        | inl z ↦
            let verdict' = verdict ∙ ap (λ (q : Bool × Bucket). q.0) (emptied b z) in
            let next' = next ∙ ap (λ (q : Bool × Bucket). some q.1) (emptied b z) in
            rw verdict' (rest _ b next' refl ∙ none_left b.tokens (length times) z)
        | inr z ↦
            let verdict' = verdict ∙ ap (λ (q : Bool × Bucket). q.0) (taken b z) in
            let next' = next ∙ ap (λ (q : Bool × Bucket). some q.1) (taken b z) in
            rw verdict' (ap suc (rest _ _ next' refl) ∙ one_less b.tokens (length times) z)
      ]
    where
      none_left : (t n : ℕ) → (t == 0) ≡ true → min t n ≡ min t (suc n)
      none_left t n z = let empty : t ≡ 0 = ground arith in omega (arith, empty)

      one_less : (t n : ℕ) → (t == 0) ≡ false → suc (min (t - 1) n) ≡ min t (suc n)
      one_less t n z = let some_left : 1 ≤ t = ground arith in omega (arith, some_left)

  burst :
      (start : ℕ) (l : Limiter) (b : Bucket) (times : List ℕ)
      → lookup l ip ≡ some b
      → b.last_fill ≡ start
      → All (Within start) times
      → allowed l times ≡ min b.tokens (length times)
  burst start l b [] e s a = unfold allowed in omega arith
  burst start l b (now ∷ times) e s (w, a) =
      count_one l (some b) b now times e
        (filled-Within b now (ap (λ (x : ℕ). refill (now - x)) s ∙ w))
        λ l' b' e' s'. burst start l' b' times e' (s' ∙ s) a

  -- Of the attempts from an address that was not seen before, the first ten are let through and no
  -- more, as long as the time since the first one adds no token.
  pub allowed-min :
      (l : Limiter) (start : ℕ) (times : List ℕ)
      → lookup l ip ≡ none
      → All (Within start) (start ∷ times)
      → allowed l (start ∷ times) ≡ min 10 (suc (length times))
  allowed-min l start times e (w, a) =
      count_one l none (record { tokens = max_tokens; last_fill = start }) start times e
        (filled-Within (record { tokens = max_tokens; last_fill = start }) start w)
        λ l' b' e' s'. burst start l' b' times e' s' a
