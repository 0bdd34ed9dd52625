-- ===== src/RateLimit/Rate.antt =====
-- `TokenBucket.consume` in mcp-server/server.py: what a bucket lets through over time.
use powerbrain.Base.{ℕ, ◌+◌, ◌-◌, ◌*◌, ◌/◌, ◌≤◌, ◌<◌, ◌≡◌, ap, List, [], ◌∷◌, arith}
use powerbrain.RateLimit.{
  TokenBucket, Verdict, allowed, retry_after, zero_division, consume, one, second, header,
}

-- A bucket never holds more than its capacity.
abbrev pub IsBounded : TokenBucket → Type 0
IsBounded b = b.tokens ≤ b.capacity

-- No call leaves more tokens than the capacity, and none changes the capacity or the rate.
pub consume-IsBounded :
    (now : ℕ) (b : TokenBucket)
    → let b' = (consume now b).0 in
      IsBounded b'
      × (b'.capacity ≡ b.capacity)
      × (b'.refill_rate ≡ b.refill_rate)
      × (b'.last_refill ≡ now)
unfolding consume
consume-IsBounded now b = ground arith

-- How many of a list of calls, made at the given times, are let through.
abbrev pub granted : Verdict → ℕ
granted allowed = 1
granted (retry_after _ _) = 0
granted zero_division = 0

unfoldable pub consume_all : List ℕ → TokenBucket → TokenBucket × ℕ
consume_all [] b = (b, 0)
consume_all (t ∷ ts) b =
    let (b', v) = consume t b in let (b'', n) = consume_all ts b' in (b'', granted v + n)

-- The times of the calls do not go back.
abbrev InOrder : ℕ → List ℕ → Type 0
InOrder t [] = Unit
InOrder t (u ∷ us) = (t ≤ u) × InOrder u us

-- One call pays for what it grants out of what the bucket held and what flowed in.
consume-pays :
    (now : ℕ) (b : TokenBucket)
    → granted (consume now b).1 * one + (consume now b).0.tokens
      ≤ b.tokens + (now - b.last_refill) * b.refill_rate
unfolding consume
consume-pays now b = ground arith

-- The last refill is at the last call.
abbrev last_of : ℕ → List ℕ → ℕ
last_of t [] = t
last_of t (u ∷ us) = last_of u us

le-last_of : (t : ℕ) (ts : List ℕ) → InOrder t ts → t ≤ last_of t ts
le-last_of t [] h = omega arith
le-last_of t (u ∷ us) h = omega (arith, le-last_of u us h.1)

split_rate : (a b c r : ℕ) → a ≤ b → b ≤ c → (b - a) * r + (c - b) * r ≡ (c - a) * r
split_rate a b c r h k = grind arith

-- Over any calls in the order of the clock, the tokens granted are at most what the bucket held
-- at first and what flowed in, at its rate, from its last refill to the last of the calls.
consume_all-rate :
    (ts : List ℕ) (b : TokenBucket)
    → InOrder b.last_refill ts
    → (consume_all ts b).1 * one + (consume_all ts b).0.tokens
      ≤ b.tokens + (last_of b.last_refill ts - b.last_refill) * b.refill_rate
unfolding consume_all
consume_all-rate [] b h = omega arith
consume_all-rate (t ∷ ts) b h =
    let kept = consume-IsBounded t b in
    let rest = rw (kept.3, kept.2) at (consume_all-rate ts (consume t b).0 (rw (kept.3) (h.1))) in
    omega (
      arith,
      rest,
      consume-pays t b,
      split_rate b.last_refill t (last_of t ts) b.refill_rate (h.0) (le-last_of t ts (h.1)),
    )

mul_mono : (a b r : ℕ) → a ≤ b → a * r ≤ b * r
mul_mono a b r h = grind arith

-- Whatever the bucket held, one call grants out of its capacity.
consume-capped :
    (now : ℕ) (b : TokenBucket)
    → granted (consume now b).1 * one + (consume now b).0.tokens ≤ b.capacity
unfolding consume
consume-capped now b = ground arith

-- Over any calls in the order of the clock, from any time on and within any span of time, a bucket
-- grants at most its capacity and what flows in during that span, however long it has been idle.
pub granted-le-capacity :
    (ts : List ℕ) (b : TokenBucket) (start span : ℕ)
    → InOrder start ts
    → last_of start ts ≤ start + span
    → (consume_all ts b).1 * one ≤ b.capacity + span * b.refill_rate
unfolding consume_all
granted-le-capacity [] b start span ordered within = omega arith
granted-le-capacity (t ∷ ts) b start span ordered within =
    let kept = consume-IsBounded t b in
    let rest =
      rw (kept.3, kept.2) at (consume_all-rate ts (consume t b).0 (rw (kept.3) (ordered.1))) in
    omega (
      arith,
      rest,
      consume-capped t b,
      mul_mono (last_of t ts - t) span b.refill_rate (omega (arith, within, ordered.0)),
    )

-- The wait that a header announces lets in at least the units that are missing.
header-covers :
    (units rate gap : ℕ) → 0 < rate → header units rate * second ≤ gap → units ≤ gap * rate
unfolding header
header-covers units rate gap pos h =
    let d : ℕ = rate * second in
    let e : units < (units / d + 1) * d = grind arith in
    omega (arith, e, mul_mono ((units / d + 1) * second) gap rate h)

-- What a refusal says of the bucket.
refused-lem :
    (now units rate : ℕ) (b : TokenBucket)
    → (consume now b).1 ≡ retry_after units rate
    → (0 < rate) × (rate ≡ b.refill_rate) × (units + (consume now b).0.tokens ≡ one)
unfolding consume
refused-lem now units rate b h = ground arith

allowed-lem :
    (later : ℕ) (b : TokenBucket)
    → one ≤ b.capacity
    → one ≤ b.tokens + (later - b.last_refill) * b.refill_rate
    → (consume later b).1 ≡ allowed
unfolding consume
allowed-lem later b h k = ground arith

-- A refused call tells how long to wait: a call at that time or later, with no other call in
-- between, is allowed, if the bucket has room for a token.
pub retry_after-suffices :
    (now later units rate : ℕ) (b : TokenBucket)
    → one ≤ b.capacity
    → (consume now b).1 ≡ retry_after units rate
    → now + header units rate * second ≤ later
    → (consume later (consume now b).0).1 ≡ allowed
retry_after-suffices now later units rate b room refused waited =
    let kept = consume-IsBounded now b in
    let cause = refused-lem now units rate b refused in
    allowed-lem later (consume now b).0 (rw (kept.1) room) (
      rw (kept.3, kept.2)
        (omega (
          arith,
          cause.2,
          cause.1,
          ap (λ (r : ℕ). (later - now) * r) (cause.1),
          header-covers units rate (later - now) (cause.0) (omega (arith, waited)),
        )))
