-- ===== src/RateLimit.antt =====
-- mcp-server/server.py, "Rate Limiting": the token bucket of each agent, the table of buckets with
-- its periodic sweep, and the middleware in front of the server.
-- The source counts in floats. Here the event loop's clock is in microseconds, and a bucket's
-- content in units of which one token has 60 million, so that a bucket of `rpm` tokens a minute
-- gains exactly `rpm` units a microsecond: the exact arithmetic, without the floats' rounding.
mod Rate
mod Table
mod Examples
use powerbrain.Base.{
  ℕ, ◌+◌, ◌-◌, ◌*◌, ◌/◌, min, String, Bool, true, false, ◌||◌, not, Option, none, some, List, [],
  ◌∷◌, ltb, leb, str_eq, truthy, if◌then◌else◌,
}
use powerbrain.Base.Dict.{Dict, lookup, insert, retain, has_key}

-- The clock's ticks in a second, and the units of one token.
abbrev pub second : ℕ
second = 1000000

abbrev pub one : ℕ
one = 60000000

pub record TokenBucket : Type 0 where
  pub capacity : ℕ
  pub tokens : ℕ
  pub refill_rate : ℕ
  pub last_refill : ℕ
  pub last_used : ℕ

-- `TokenBucket(capacity=float(rpm), refill_rate=rpm / 60.0)` at the clock's time.
pub new_bucket : ℕ → ℕ → TokenBucket
new_bucket now rpm = record {
  capacity = rpm * one;
  tokens = rpm * one;
  refill_rate = rpm;
  last_refill = now;
  last_used = now;
}

-- What `consume` returns: allowed, or the time to wait, as a number of units over a rate.
-- A rate of zero divides by zero.
pub data Verdict : Type 0 where
  allowed : Verdict
  retry_after : ℕ → ℕ → Verdict
  zero_division : Verdict

-- The refill at the head of `consume`.
pub refill : ℕ → TokenBucket → TokenBucket
refill now b = record b {
  tokens = min b.capacity (b.tokens + (now - b.last_refill) * b.refill_rate);
  last_refill = now;
  last_used = now;
}

abbrev take_token : TokenBucket → TokenBucket × Verdict
take_token b =
    if leb one b.tokens
    then (record b { tokens = b.tokens - one }, allowed)
    else if leb b.refill_rate 0
    then (b, zero_division)
    else (b, retry_after (one - b.tokens) b.refill_rate)

pub consume : ℕ → TokenBucket → TokenBucket × Verdict
unfolding refill
consume now b = take_token (refill now b)

-- RATE_LIMITS_BY_ROLE, read from the environment; another role has the analyst's rate.
pub record Limits : Type 0 where
  pub analyst : ℕ
  pub developer : ℕ
  pub admin : ℕ

pub limit_for : Limits → String → ℕ
limit_for l role =
    if str_eq role "developer"
    then l.developer
    else if str_eq role "admin"
    then l.admin
    else l.analyst

-- The module's globals.
pub record Limiter : Type 0 where
  pub buckets : Dict TokenBucket
  pub counter : ℕ

-- `now - v.last_used > 600`
abbrev pub is_stale : ℕ → TokenBucket → Bool
is_stale now b = ltb (600 * second) (now - b.last_used)

-- The first half of `_get_bucket`: make the bucket that is missing.
pub ensure : Limits → ℕ → String → String → Dict TokenBucket → Dict TokenBucket
unfolding new_bucket limit_for
ensure l now agent role d =
    if has_key agent d then d else insert agent (new_bucket now (limit_for l role)) d

-- The second half: every hundredth call drops what was not used for ten minutes.
pub sweep : ℕ → Limiter → Limiter
sweep now s =
    if leb 100 (s.counter + 1)
    then record { buckets = retain (λ b. not (is_stale now b)) s.buckets; counter = 0 }
    else record s { counter = s.counter + 1 }

-- `_get_bucket`; `none` is the KeyError of its last line.
pub get_bucket : Limits → ℕ → String → String → Limiter → Limiter × Option TokenBucket
unfolding ensure sweep lookup
get_bucket l now agent role s =
    let s' = sweep now (record s { buckets = ensure l now agent role s.buckets }) in
    (s', lookup agent s'.buckets)

-- The authenticated user that the server's framework puts into the scope; a text that is missing
-- there is empty here.
pub record User : Type 0 where
  pub username : String
  pub client_id : String
  pub scopes : List String

pub record Request : Type 0 where
  pub kind : String
  pub path : String
  pub user : Option User

-- The application is called, or the request is answered with 429 and a Retry-After in seconds.
pub data Answer : Type 0 where
  passed : Answer
  rejected : ℕ → Answer

-- `str(int(retry_after) + 1)`
pub header : ℕ → ℕ → ℕ
header units rate = units / (rate * second) + 1

abbrev pub agent_of : User → String
agent_of u = if truthy u.username then u.username else u.client_id

abbrev pub first_scope : List String → String
first_scope [] = "analyst"
first_scope (r ∷ _) = r

-- What a verdict does to the request; an exception fails open.
pub answer : Verdict → Answer
unfolding header
answer allowed = passed
answer (retry_after units rate) = rejected (header units rate)
answer zero_division = passed

-- The bucket that `_get_bucket` returned is the object in the table: `consume` writes there.
pub charge : ℕ → String → Limiter × Option TokenBucket → Limiter × Answer
unfolding consume answer insert
charge now agent (s, none) = (s, passed)
charge now agent (s, some b) =
    let (b', v) = consume now b in (record s { buckets = insert agent b' s.buckets }, answer v)

pub limit_user : Limits → ℕ → Option User → Limiter → Limiter × Answer
unfolding charge get_bucket
limit_user l now none s = (s, passed)
limit_user l now (some u) s =
    if truthy (agent_of u)
    then charge now (agent_of u) (get_bucket l now (agent_of u) (first_scope u.scopes) s)
    else (s, passed)

-- `RateLimitMiddleware.__call__`, with RATE_LIMIT_ENABLED as its first argument.
pub middleware : Bool → Limits → ℕ → Request → Limiter → Limiter × Answer
unfolding limit_user
middleware enabled l now r s =
    if not (str_eq r.kind "http") || not enabled
    then (s, passed)
    else if str_eq r.path "/health" || str_eq r.path "/metrics"
    then (s, passed)
    else limit_user l now r.user s
