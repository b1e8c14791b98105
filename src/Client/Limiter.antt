-- ===== src/Client/Limiter.antt =====
-- server/rate_limiter.py, the token bucket that each request of the API client passes through. A
-- time is a whole number of ticks and a token a number of parts, of which each tick brings a whole
-- number; the program's floats round these values. The lock makes the calls come one after the other.
use topology_maps.Prelude.{
  ℕ, zero, suc, ◌+◌, ◌-◌, ◌*◌, ◌≤◌, ◌<◌, ◌≡◌, refl, inl, inr, true, false, Option, none, some,
  arith, ltb, leb, if◌then◌else◌, Bool-cases, subst,
}

pub record RateLimiter : Type 0 where
  pub rate : ℕ
  pub capacity : ℕ
  pub token : ℕ

pub record Bucket : Type 0 where
  pub tokens : ℕ
  pub last_refill : ℕ

-- The time at the `n`-th reading of the clock, where the one before was `last` and a sleep until
-- `owed` parts more have come, or none for 0, lies between.
abbrev pub Clock : Type 0
Clock = (n last owed : ℕ) → ℕ

-- The clock never goes back, and a sleep lasts as long as it is asked to.
abbrev pub IsHonest : RateLimiter → Clock → Type 0
IsHonest l clock =
    (n last owed : ℕ) → (last ≤ clock n last owed) × (owed ≤ (clock n last owed - last) * l.rate)

min : ℕ → ℕ → ℕ
min a b = if ltb a b then a else b

module _ (l : RateLimiter) where
  unfoldable pub full : ℕ
  full = l.capacity * l.token

  unfoldable pub new_bucket : ℕ → Bucket
  unfolding full
  new_bucket now = record { tokens = full; last_refill = now }

  unfoldable pub refill : ℕ → Bucket → Bucket
  unfolding min full
  refill now b = record {
    tokens = min full (b.tokens + (now - b.last_refill) * l.rate);
    last_refill = now;
  }

  -- `while True`, on fuel: the bucket and the number of readings made, or `none` where it ran out.
  unfoldable pub acquire : Clock → ℕ → ℕ → ℕ → Bucket → Option (Bucket × ℕ)
  unfolding refill
  acquire clock zero owed n b = none
  acquire clock (suc fuel) owed n b =
      let b' = refill (clock n b.last_refill owed) b in
      let again = acquire clock fuel (l.token - b'.tokens) (suc n) b' in
      if leb l.token b'.tokens
      then some (record b' { tokens = b'.tokens - l.token }, suc n)
      else again

  -- `k` calls, one after the other.
  unfoldable pub acquire_all : Clock → ℕ → ℕ → ℕ → Bucket → Option (Bucket × ℕ)
  unfolding acquire
  acquire_all clock fuel zero n b = some (b, n)
  acquire_all clock fuel (suc k) n b = elim (acquire clock fuel 0 n b) [
    | none ↦ none
    | some (b', n') ↦ acquire_all clock fuel k n' b'
  ]

  -- Between two states of the bucket `k` tokens were taken.
  pub record Took (k : ℕ) (b b' : Bucket) : Type 0 where
    pub bounded : b'.tokens ≤ full
    pub forward : b.last_refill ≤ b'.last_refill
    pub spent : k * l.token + b'.tokens ≤ b.tokens + (b'.last_refill - b.last_refill) * l.rate

  elapsed_add : (a b c : ℕ) → a ≤ b → b ≤ c → (b - a) * l.rate + (c - b) * l.rate ≡ (c - a) * l.rate
  elapsed_add a b c h k = grind arith

  Took-trans : (j k : ℕ) (a b c : Bucket) → Took j a b → Took k b c → Took (j + k) a c
  Took-trans j k a b c s t = record {
    bounded = t.bounded;
    forward = omega arith;
    spent = grind (arith, elapsed_add a.last_refill b.last_refill c.last_refill);
  }

  refill-Took : (now : ℕ) (b : Bucket) → b.last_refill ≤ now → Took 0 b (refill now b)
  unfolding refill min
  refill-Took now b h = record { bounded = ground arith; forward = h; spent = ground arith }

  take-Took :
      (b : Bucket)
      → b.tokens ≤ full
      → l.token ≤ b.tokens
      → Took 1 b (record b { tokens = b.tokens - l.token })
  take-Took b h k = record { bounded = omega arith; forward = omega arith; spent = ground arith }

  full-token : 0 < l.capacity → l.token ≤ full
  unfolding full
  full-token h = grind arith

  module _ (clock : Clock) (honest : IsHonest l clock) where
    acquire_takes :
        (owed fuel n : ℕ) (b : Bucket)
        → l.token ≤ (refill (clock n b.last_refill owed) b).tokens
        → (b' : Bucket) × (n' : ℕ) × (acquire clock (suc fuel) owed n b ≡ some (b', n'))
          × Took 1 b b'
    unfolding acquire
    acquire_takes owed fuel n b h =
        let now = clock n b.last_refill owed in
        let b1 = refill now b in
        let e : leb l.token b1.tokens ≡ true = ground arith in
        let first = refill-Took now b ((honest n b.last_refill owed).0) in
        (
          record b1 { tokens = b1.tokens - l.token },
          suc n,
          rw (e, acquire) refl,
          Took-trans 0 1 b b1 (record b1 { tokens = b1.tokens - l.token }) first
              (take-Took b1 first.bounded h),
        )

    -- A refill after the sleep brings a token.
    refill_owed :
        (n : ℕ) (b : Bucket)
        → l.token ≤ full
        → l.token ≤ (refill (clock n b.last_refill (l.token - b.tokens)) b).tokens
    unfolding refill min
    refill_owed n b h = let (_, slept) = honest n b.last_refill (l.token - b.tokens) in ground arith

    -- A call returns after one sleep at most.
    acquire_returns :
        (fuel n : ℕ) (b : Bucket)
        → l.token ≤ full
        → (b' : Bucket) × (n' : ℕ) × (acquire clock (suc (suc fuel)) 0 n b ≡ some (b', n'))
          × Took 1 b b'
    unfolding acquire
    acquire_returns fuel n b h =
        let now = clock n b.last_refill 0 in
        let b1 = refill now b in
        elim (Bool-cases (leb l.token b1.tokens)) [
          | inl e ↦ acquire_takes 0 (suc fuel) n b (ground arith)
          | inr e ↦
              let (b', n', q, t) =
                acquire_takes (l.token - b1.tokens) fuel (suc n) b1 (refill_owed (suc n) b1 h) in
              let first = refill-Took now b ((honest n b.last_refill 0).0) in
              (b', n', rw (e, q, acquire) refl, Took-trans 0 1 b b1 b' first t)
        ]

    -- For a capacity of one token or more, calls made one after the other all return, each after one
    -- sleep at most. The bucket never holds more than its capacity, and from a state within it the
    -- tokens taken are at most those it held and those that the time passed has brought.
    pub acquire_all-Took :
        0 < l.capacity
        → (k n : ℕ) (b : Bucket) → b.tokens ≤ full
        → (b' : Bucket) × (n' : ℕ) × (acquire_all clock 2 k n b ≡ some (b', n')) × Took k b b'
    unfolding acquire_all
    acquire_all-Took h zero n b within =
        (b, n, refl, record { bounded = within; forward = omega arith; spent = omega arith })
    acquire_all-Took h (suc k) n b within =
        let (b1, n1, e, t) = acquire_returns 0 n b (full-token h) in
        let (b2, n2, f, u) = acquire_all-Took h k n1 b1 t.bounded in
        (
          b2,
          n2,
          rw (e, f, acquire_all) refl,
          subst (λ j. Took j b b2) (omega arith) (Took-trans 1 k b b1 b2 t u),
        )

  -- With a capacity of no token a call never returns, whatever the clock: any number of rounds ends
  -- in one more sleep.
  pub acquire_starves :
      l.capacity ≡ 0
      → 0 < l.token
      → (clock : Clock) (fuel owed n : ℕ) (b : Bucket) → acquire clock fuel owed n b ≡ none
  unfolding acquire refill min full
  acquire_starves h k clock zero owed n b = refl
  acquire_starves h k clock (suc fuel) owed n b =
      let now = clock n b.last_refill owed in
      let b' = refill now b in
      let empty : l.capacity * l.token ≡ 0 = rw h (omega arith) in
      let e : leb l.token b'.tokens ≡ false = ground arith in
      rw e (acquire_starves h k clock fuel (l.token - b'.tokens) (suc n) b')
