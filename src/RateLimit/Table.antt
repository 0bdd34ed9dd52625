-- ===== src/RateLimit/Table.antt =====
-- The table of buckets and the middleware in mcp-server/server.py.
use powerbrain.Base.{
  ℕ, ◌+◌, ◌-◌, ◌*◌, ◌≤◌, ◌<◌, ◌≡◌, ◌≢◌, refl, String, Bool, true, false, not, Option, none, some,
  arith, Bool-cases, Option-cases, inl, inr, ◌∙◌, ◌↔◌, ◌&&◌, ◌||◌, ◌⊎◌, leb, str_eq, truthy, eq_iff,
  eq_refl, if◌then◌else◌,
}
use powerbrain.Base.Dict.{Dict, Values, Values-insert, Values-retain, lookup, lookup-insert}
use powerbrain.Base.Unique.{Unique, filtered, lookup-retain, Unique-insert, Unique-retain}
use powerbrain.RateLimit.Rate.{IsBounded, consume-IsBounded}
use powerbrain.RateLimit.{
  refill, one, TokenBucket, Limits, Limiter, User, Request, Answer, passed, rejected, consume,
  is_stale, ensure, sweep, get_bucket, middleware, charge, limit_user, agent_of, first_scope,
  second, new_bucket, limit_for,
}

-- The bucket with which a request of the agent is met.
pub bucket_of : Limits → ℕ → String → Option TokenBucket → TokenBucket
unfolding new_bucket limit_for
bucket_of l now role none = new_bucket now (limit_for l role)
bucket_of l now role (some b) = b

module _ (l : Limits) (now : ℕ) (agent role : String) where
  lookup-ensure :
      (j : String) (d : Dict TokenBucket)
      → lookup j (ensure l now agent role d)
        ≡ (if str_eq agent j then some (bucket_of l now role (lookup j d)) else lookup j d)
  unfolding ensure bucket_of
  lookup-ensure j d =
      ground (arith, eq_iff agent j, lookup-insert agent j (new_bucket now (limit_for l role)) d)

  ensure-Unique : (d : Dict TokenBucket) → Unique d → Unique (ensure l now agent role d)
  unfolding ensure
  ensure-Unique d u = ground (arith, Unique-insert agent (new_bucket now (limit_for l role)) d)

-- The sweep comes with every hundredth call, and takes what is stale.
abbrev pub remains : ℕ → Limiter → Option TokenBucket → Option TokenBucket
remains now s o = if leb 100 (s.counter + 1) then filtered (λ b. not (is_stale now b)) o else o

lookup-sweep :
    (now : ℕ) (s : Limiter) (j : String)
    → Unique s.buckets
    → lookup j (sweep now s).buckets ≡ remains now s (lookup j s.buckets)
unfolding sweep
lookup-sweep now s j u = ground (arith, lookup-retain (λ b. not (is_stale now b)) j s.buckets)

sweep-Unique : (now : ℕ) (s : Limiter) → Unique s.buckets → Unique (sweep now s).buckets
unfolding sweep
sweep-Unique now s u = ground (arith, Unique-retain (λ b. not (is_stale now b)) s.buckets)

-- `_get_bucket` returns the agent's bucket, or a new one, unless the sweep of this call takes it.
get_bucket-lem :
    (l : Limits) (now : ℕ) (agent role : String) (s : Limiter)
    → Unique s.buckets
    → (get_bucket l now agent role s).1
      ≡ remains now s (some (bucket_of l now role (lookup agent s.buckets)))
unfolding get_bucket
get_bucket-lem l now agent role s u =
    lookup-sweep now (record s { buckets = ensure l now agent role s.buckets }) agent
      (ensure-Unique l now agent role s.buckets u)
    ∙ rw lookup-ensure (rw (eq_refl agent))

lookup-get_bucket :
    (l : Limits) (now : ℕ) (agent role : String) (s : Limiter)
    → lookup agent (get_bucket l now agent role s).0.buckets ≡ (get_bucket l now agent role s).1
unfolding get_bucket
lookup-get_bucket l now agent role s = refl

get_bucket-others :
    (l : Limits) (now : ℕ) (agent role j : String) (s : Limiter)
    → j ≢ agent
    → Unique s.buckets
    → lookup j (get_bucket l now agent role s).0.buckets ≡ remains now s (lookup j s.buckets)
unfolding get_bucket
get_bucket-others l now agent role j s ne u =
    lookup-sweep now (record s { buckets = ensure l now agent role s.buckets }) j
      (ensure-Unique l now agent role s.buckets u)
    ∙ rw lookup-ensure (ground (arith, eq_iff agent j))

-- There is a bucket, and it has not been used for more than ten minutes.
abbrev pub Unused : ℕ → Option TokenBucket → Type 0
Unused now none = ⊥
Unused now (some b) = 600 * second < now - b.last_used

-- `_get_bucket` ends in a KeyError exactly if the call is a hundredth one and the agent's own
-- bucket, found at the start of the call, has not been used for more than ten minutes.
get_bucket-KeyError_iff :
    (l : Limits) (now : ℕ) (agent role : String) (s : Limiter)
    → Unique s.buckets
    → ((get_bucket l now agent role s).1 ≡ none)
      ↔ ((100 ≤ s.counter + 1) × Unused now (lookup agent s.buckets))
unfolding bucket_of
get_bucket-KeyError_iff l now agent role s u =
    rw (get_bucket-lem l now agent role s u) (ground (arith, Option-cases (lookup agent s.buckets)))

-- A request that does not count: another protocol, a limiter switched off, the health and the
-- metrics endpoint, or no authenticated user.
abbrev Exempt : Bool → Request → Type 0
Exempt enabled r =
    ((str_eq r.kind "http" && enabled) ≡ false)
    ⊎ ((str_eq r.path "/health" || str_eq r.path "/metrics") ≡ true)
    ⊎ (r.user ≡ none)

-- An exempt request is passed through, and neither reads nor writes a bucket.
middleware-Exempt :
    (enabled : Bool) (l : Limits) (now : ℕ) (r : Request) (s : Limiter)
    → Exempt enabled r
    → middleware enabled l now r s ≡ (s, passed)
unfolding middleware
middleware-Exempt enabled l now r s h = ground arith

-- The request is one that the limiter counts, and `agent` is whom it counts it for.
pub record Counts (enabled : Bool) (r : Request) (u : User) : Type 0 where
  pub http : (str_eq r.kind "http" && enabled) ≡ true
  pub path : (str_eq r.path "/health" || str_eq r.path "/metrics") ≡ false
  pub user : r.user ≡ some u
  pub named : truthy (agent_of u) ≡ true

abbrev charged : Limits → ℕ → User → Limiter → Limiter × Answer
charged l now u s = charge now (agent_of u) (get_bucket l now (agent_of u) (first_scope u.scopes) s)

middleware-Counts :
    (enabled : Bool) (l : Limits) (now : ℕ) (r : Request) (s : Limiter) (u : User)
    → Counts enabled r u
    → middleware enabled l now r s ≡ charged l now u s
unfolding middleware
middleware-Counts enabled l now r s u c = ground arith

-- Every bucket holds at most its capacity, no agent has two, and the counter is below 100.
pub record IsValid (s : Limiter) : Type 0 where
  pub unique : Unique s.buckets
  pub bounded : Values IsBounded s.buckets
  pub counter : s.counter < 100

get_bucket-IsValid :
    (l : Limits) (now : ℕ) (agent role : String) (s : Limiter)
    → IsValid s
    → IsValid (get_bucket l now agent role s).0
unfolding get_bucket
get_bucket-IsValid l now agent role s v = record {
  unique = sweep-Unique now (ensured s) (ensure-Unique l now agent role s.buckets v.unique);
  bounded = sweep-bounded (ensured s) (
      unfold ensure new_bucket in
      ground (arith, Values-insert IsBounded agent (new_bucket now (limit_for l role)) s.buckets));
  counter = unfold sweep in ground (arith, v.counter);
}
  where
    ensured : Limiter → Limiter
    ensured s = record s { buckets = ensure l now agent role s.buckets }

    sweep-bounded :
        (s : Limiter) → Values IsBounded s.buckets → Values IsBounded (sweep now s).buckets
    sweep-bounded s h =
        unfold sweep in
        ground (arith, Values-retain IsBounded (λ b. not (is_stale now b)) s.buckets)

charge-IsValid :
    (now : ℕ) (agent : String) (g : Limiter × Option TokenBucket)
    → IsValid g.0
    → IsValid (charge now agent g).0
unfolding charge
charge-IsValid now agent (s, none) v = v
charge-IsValid now agent (s, some b) v = record {
  unique = Unique-insert agent (consume now b).0 s.buckets v.unique;
  bounded =
      Values-insert IsBounded agent (consume now b).0 s.buckets ((consume-IsBounded now b).0)
        v.bounded;
  counter = v.counter;
}

limit_user-IsValid :
    (l : Limits) (now : ℕ) (o : Option User) (s : Limiter)
    → IsValid s
    → IsValid (limit_user l now o s).0
unfolding limit_user
limit_user-IsValid l now none s v = v
limit_user-IsValid l now (some u) s v = elim (Bool-cases (truthy (agent_of u))) [
  | inl e ↦ rw e (
      charge-IsValid now (agent_of u) (get_bucket l now (agent_of u) (first_scope u.scopes) s)
        (get_bucket-IsValid l now (agent_of u) (first_scope u.scopes) s v))
  | inr e ↦ rw e v
]

-- The middleware keeps the table valid, whatever the request.
middleware-IsValid :
    (enabled : Bool) (l : Limits) (now : ℕ) (r : Request) (s : Limiter)
    → IsValid s
    → IsValid (middleware enabled l now r s).0
unfolding middleware
middleware-IsValid enabled l now r s v =
    elim (Bool-cases (not (str_eq r.kind "http") || not enabled)) [
      | inl e ↦ rw e v
      | inr e ↦ rw e (elim (Bool-cases (str_eq r.path "/health" || str_eq r.path "/metrics")) [
        | inl f ↦ rw f v
        | inr f ↦ rw f (limit_user-IsValid l now r.user s v)
      ])
    ]

-- What `charge` does with the outcome of `_get_bucket`.
charge-rejected :
    (now wait : ℕ) (agent : String) (s : Limiter) (o : Option TokenBucket) {b : TokenBucket}
    → (charge now agent (s, o)).1 ≡ rejected wait
    → (o ≡ some b) ⊎ (o ≡ none)
    → (refill now b).tokens < one
unfolding charge
charge-rejected now wait agent s none h e = cc
charge-rejected now wait agent s (some c) {b} h (inl e) = ground arith
charge-rejected now wait agent s (some c) h (inr e) = cc

charge-none :
    (now : ℕ) (agent : String) (g : Limiter × Option TokenBucket)
    → g.1 ≡ none
    → charge now agent g ≡ (g.0, passed)
unfolding charge
charge-none now agent (s, none) e = refl
charge-none now agent (s, some b) e = cc

charge-others :
    (now : ℕ) (agent j : String) (g : Limiter × Option TokenBucket)
    → j ≢ agent
    → lookup j (charge now agent g).0.buckets ≡ lookup j g.0.buckets
unfolding charge
charge-others now agent j (s, none) ne = refl
charge-others now agent j (s, some b) ne =
    ground (arith, lookup-insert agent j (consume now b).0 s.buckets, eq_iff agent j)

remains-cases :
    (now : ℕ) (s : Limiter) (b : TokenBucket)
    → (remains now s (some b) ≡ some b) ⊎ (remains now s (some b) ≡ none)
remains-cases now s b = ground arith

-- A request is answered with 429 only if its agent's bucket, refilled up to now, held less than
-- one token.
pub rejected-needs_empty :
    (enabled : Bool) (l : Limits) (now wait : ℕ) (r : Request) (s : Limiter) (u : User)
    → IsValid s
    → Counts enabled r u
    → (middleware enabled l now r s).1 ≡ rejected wait
    → (refill now (bucket_of l now (first_scope u.scopes) (lookup (agent_of u) s.buckets))).tokens
      < one
rejected-needs_empty enabled l now wait r s u v c h =
    let role = first_scope u.scopes in
    let g = get_bucket l now (agent_of u) role s in
    charge-rejected now wait (agent_of u) g.0 g.1
      (rw (middleware-Counts enabled l now r s u c) at h)
      (rw (get_bucket-lem l now (agent_of u) role s v.unique)
        (remains-cases now s (bucket_of l now role (lookup (agent_of u) s.buckets))))

-- A hundredth request, by an agent whose bucket is unused for more than ten minutes, passes
-- uncounted: the sweep has taken the bucket that it was to be counted in.
pub middleware-fails_open :
    (enabled : Bool) (l : Limits) (now : ℕ) (r : Request) (s : Limiter) (u : User)
    → IsValid s
    → Counts enabled r u
    → 100 ≤ s.counter + 1
    → Unused now (lookup (agent_of u) s.buckets)
    → ((middleware enabled l now r s).1 ≡ passed)
      × (lookup (agent_of u) (middleware enabled l now r s).0.buckets ≡ none)
middleware-fails_open enabled l now r s u v c full stale =
    let role = first_scope u.scopes in
    let lost = (get_bucket-KeyError_iff l now (agent_of u) role s v.unique).1 (full, stale) in
    rw
      (
        middleware-Counts enabled l now r s u c,
        charge-none now (agent_of u) (get_bucket l now (agent_of u) role s) lost,
      )
      (refl, lookup-get_bucket l now (agent_of u) role s ∙ lost)

-- A request leaves the bucket of every other agent as it is, or sweeps it away as stale.
pub middleware-others :
    (enabled : Bool) (l : Limits) (now : ℕ) (r : Request) (s : Limiter) (u : User) (j : String)
    → IsValid s
    → Counts enabled r u
    → j ≢ agent_of u
    → lookup j (middleware enabled l now r s).0.buckets ≡ remains now s (lookup j s.buckets)
middleware-others enabled l now r s u j v c ne =
    let g = get_bucket l now (agent_of u) (first_scope u.scopes) s in
    rw (middleware-Counts enabled l now r s u c, charge-others now (agent_of u) j g ne)
      (get_bucket-others l now (agent_of u) (first_scope u.scopes) j s ne v.unique)
