-- ===== src/ProxyAuth/Examples.antt =====
-- The proxy's authentication (pb-proxy/auth.py, pb-proxy/middleware.py) on concrete requests, and the
-- theorems there.
use powerbrain.Base.{
  ℕ, ◌-◌, ◌≡◌, ◌<◌, ◌≤◌, ◌⊎◌, refl, String, true, Option, none, some, [], ◌∷◌, length, str_eq,
  if◌then◌else◌, arith,
}
use powerbrain.Base.Dict.{Dict, lookup, insert, erase}
use powerbrain.Base.Text.{starts_with}
use powerbrain.ProxyAuth.{
  VerifiedKey, Entry, Settings, KeyTable, verified, refused, verify, Request, Identity,
  bearer_token_of, call,
}
use powerbrain.ProxyAuth.Staleness.{Holds, Answered, verify-Answered}
use powerbrain.ProxyAuth.Size.{verify-size}
use powerbrain.ProxyAuth.Middleware.{call-known}

abbrev settings : Settings
settings = record { cache_ttl = 60; negative_cache_ttl = 10; max_cache_size = 2 }

abbrev alice : VerifiedKey
alice = record { agent_id = "alice"; agent_role = "analyst" }

abbrev rows : String → Option VerifiedKey
rows k = if str_eq k "pb_a" then some alice else none

abbrev hash : String → String
hash t = t

abbrev old : Dict Entry
old = ("pb_y", record { found = none; at = 9 }) ∷ ("pb_x", record { found = none; at = 5 }) ∷ []

-- The cache is full: the older entry goes, and a cached refusal is good for a while.
evict_run : verify settings hash (KeyTable.active_keys rows) 20 21 "pb_a" old ≡ (
  ("pb_y", record { found = none; at = 9 }) ∷ ("pb_a", record { found = some alice; at = 21 }) ∷ [],
  verified alice,
)
unfolding verify lookup insert erase starts_with
evict_run = refl

negative_run : verify settings hash (KeyTable.active_keys rows) 18 18 "pb_y" old ≡ (old, refused)
unfolding verify lookup starts_with
negative_run = refl

abbrev Said : String → ℕ → Option VerifiedKey → Type 0
Said k t o = o ≡ rows k

Holds-none : Holds Said []
unfolding lookup
Holds-none k e h = absurd cc

verify-Answered_example :
    let r = verify settings hash (KeyTable.active_keys rows) 0 0 "pb_a" [] in
    Holds Said r.0 × Answered Said settings (KeyTable.active_keys rows) 0 0 (hash "pb_a") r.1
unfolding starts_with
verify-Answered_example =
    verify-Answered Said settings hash (KeyTable.active_keys rows) 0 0 "pb_a" [] refl refl
      Holds-none

verify-size_example :
    length (verify settings hash (KeyTable.active_keys rows) 20 21 "pb_a" old).0 ≤ 2
verify-size_example =
    verify-size settings hash (KeyTable.active_keys rows) 20 21 "pb_a" old (omega arith)
      (omega arith)

abbrev request : Request
request = record {
  is_http = true;
  path = "/v1/chat";
  headers = ("authorization", "Bearer pb_a ") ∷ [];
}

abbrev identity : Identity
identity = record { agent_id = "alice"; agent_role = "analyst"; bearer_token = some "pb_a" }

call-known_example :
    (k : VerifiedKey) × ((t : ℕ) × Said (hash (bearer_token_of request.headers)) t (some k)
      × ((0 - t < 60) ⊎ (t ≡ 0)))
    × (identity ≡ record {
      agent_id = k.agent_id;
      agent_role = k.agent_role;
      bearer_token = some (bearer_token_of request.headers);
    })
unfolding call
call-known_example =
    call-known Said settings hash (KeyTable.active_keys rows) 0 0 request [] identity refl refl refl
      Holds-none refl
