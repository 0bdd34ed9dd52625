-- ===== src/RateLimit/Examples.antt =====
-- Runs of the rate limiter of mcp-server/server.py, and the theorems at concrete inputs.
use powerbrain.Base.{
  ℕ, ◌+◌, ◌*◌, ◌≤◌, ◌≡◌, ◌≢◌, refl, true, none, some, List, [], ◌∷◌, arith, eq_iff, String,
}
use powerbrain.Base.Dict.{lookup}
use powerbrain.RateLimit.{
  TokenBucket, allowed, consume, one, Limits, Limiter, User, Request, passed, rejected, middleware,
  header,
}
use powerbrain.RateLimit.Rate.{consume_all, granted-le-capacity, retry_after-suffices}
use powerbrain.RateLimit.Table.{Counts, IsValid, Unused, middleware-fails_open}

-- One token a minute, one token at most.
abbrev slow : TokenBucket
slow = record { capacity = one; tokens = one; refill_rate = 1; last_refill = 0; last_used = 0 }

abbrev calls : List ℕ
calls = 0 ∷ 10 ∷ 60000000 ∷ []

two_of_three : (consume_all calls slow).1 ≡ 2
unfolding consume_all consume
two_of_three = refl

granted-le-capacity_example : (consume_all calls slow).1 * one ≤ one + 60000000 * 1
granted-le-capacity_example = granted-le-capacity calls slow 0 60000000 (omega arith) (omega arith)

abbrev spent : TokenBucket
spent = record { capacity = one; tokens = 0; refill_rate = 1; last_refill = 0; last_used = 0 }

retry_after-suffices_example : (consume 60000010 (consume 10 spent).0).1 ≡ allowed
unfolding consume header
retry_after-suffices_example =
    retry_after-suffices 10 60000010 59999990 1 spent (omega arith) refl (omega arith)

abbrev limits : Limits
limits = record { analyst = 60; developer = 120; admin = 300 }

abbrev alice : User
alice = record { username = "alice"; client_id = ""; scopes = "analyst" ∷ [] }

abbrev call : Request
call = record { kind = "http"; path = "/mcp"; user = some alice }

abbrev table : Limiter
table = record { buckets = ("alice", spent) ∷ ("bob", slow) ∷ []; counter = 7 }

table-IsValid : IsValid table
unfolding lookup
table-IsValid = record { unique = (refl, (refl, tt)); bounded = omega arith; counter = omega arith }

call-Counts : Counts true call alice
call-Counts = record { http = refl; path = refl; user = refl; named = refl }

call_refused : (middleware true limits 10 call table).1 ≡ rejected 60
unfolding middleware
call_refused = refl

abbrev idle : Limiter
idle = record { buckets = ("alice", spent) ∷ []; counter = 99 }

idle-IsValid : IsValid idle
unfolding lookup
idle-IsValid = record { unique = (refl, tt); bounded = omega arith; counter = omega arith }

idle-Unused : Unused 700000000 (lookup "alice" idle.buckets)
unfolding lookup
idle-Unused = omega arith

middleware-fails_open_example :
    ((middleware true limits 700000000 call idle).1 ≡ passed)
    × (lookup "alice" (middleware true limits 700000000 call idle).0.buckets ≡ none)
middleware-fails_open_example =
    middleware-fails_open true limits 700000000 call idle alice idle-IsValid call-Counts
      (omega arith) idle-Unused

bob_not_alice : ◌≢◌ {A = String} "bob" "alice"
bob_not_alice = ground (arith, eq_iff "bob" "alice")
