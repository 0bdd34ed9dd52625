-- ===== src/ProxyAuth/Middleware.antt =====
-- ProxyAuthMiddleware of pb-proxy/middleware.py, over the verifier of pb-proxy/auth.py.
use powerbrain.Base.{
  ℕ, ◌-◌, ◌≡◌, ◌<◌, refl, sym, subst, ◌∙◌, ◌⊎◌, String, Bool, true, false, ◌||◌, not, Option, some,
  truthy, str_eq, Bool-cases, inl, inr, if◌then◌else◌,
}
use powerbrain.Base.Dict.{Dict, lookup}
use powerbrain.Base.Text.{starts_with}
use powerbrain.ProxyAuth.{
  VerifiedKey, Entry, Settings, KeyTable, Verdict, verified, refused, exception, cached_or_look_up,
  verify, Request, Identity, untouched, known, unauthorized, anonymous, bearer_token_of, passed,
  authenticate, call,
}
use powerbrain.ProxyAuth.Staleness.{Holds, Speaks, Answered, verify-Answered}

verify-prefixed :
    (cfg : Settings) (sha256 : String → String) (table : KeyTable) (now now' : ℕ) (token : String)
    (d : Dict Entry) (k : VerifiedKey)
    → (verify cfg sha256 table now now' token d).1 ≡ verified k
    → starts_with "pb_" token ≡ true
unfolding verify
verify-prefixed cfg sha256 table now now' token d k h =
    elim (Bool-cases (starts_with "pb_" token)) [
      | inl e ↦ e
      | inr e ↦ absurd (
          let h' =
            refuses (truthy token) (starts_with "pb_" token)
              (cached_or_look_up cfg table now now' (sha256 token) d (lookup (sha256 token) d)) e in
          let g = sym h' ∙ h in cc)
    ]
  where
    refuses :
        (a b : Bool) (r : Dict Entry × Verdict)
        → b ≡ false
        → (if not a || not b then (d, refused) else r).1 ≡ refused
    refuses true b r e = rw e refl
    refuses false b r e = refl

passed-known :
    (token : String) (r : Dict Entry × Verdict) (i : Identity)
    → (passed token r).1 ≡ known i
    → (k : VerifiedKey) × (r.1 ≡ verified k)
      × (i ≡ record { agent_id = k.agent_id; agent_role = k.agent_role; bearer_token = some token })
passed-known token (d, verified k) i h = (k, refl, known_injective _ _ h)
  where
    known_injective : (a b : Identity) → known a ≡ known b → b ≡ a
    known_injective a b e = cc
passed-known token (d, refused) i h = absurd cc
passed-known token (d, exception) i h = absurd cc

authenticate-known :
    (cfg : Settings) (sha256 : String → String) (table : KeyTable) (now now' : ℕ) (token : String)
    (d : Dict Entry) (i : Identity)
    → (authenticate cfg sha256 table now now' token d).1 ≡ known i
    → (k : VerifiedKey) × ((verify cfg sha256 table now now' token d).1 ≡ verified k)
      × (i ≡ record { agent_id = k.agent_id; agent_role = k.agent_role; bearer_token = some token })
unfolding authenticate
authenticate-known cfg sha256 table now now' token d i h = by_token (truthy token) h
  where
    by_token :
        (b : Bool)
        → (if b
            then passed token (verify cfg sha256 table now now' token d)
            else (d, unauthorized "Authentication required")).1
          ≡ known i
        → (k : VerifiedKey) × ((verify cfg sha256 table now now' token d).1 ≡ verified k)
          × (i ≡ record {
            agent_id = k.agent_id;
            agent_role = k.agent_role;
            bearer_token = some token;
          })
    by_token true e = passed-known token (verify cfg sha256 table now now' token d) i e
    by_token false e = absurd cc

module _ (Said : String → ℕ → Option VerifiedKey → Type 0) where
  -- With authentication required, an HTTP request for another path than /health reaches the
  -- handlers with an identity only if the key table gives this identity for the hash of the request's
  -- bearer token, now or not longer ago than the time to live; the token is handed on with it.
  pub call-known :
      (cfg : Settings) (sha256 : String → String) (table : KeyTable) (now now' : ℕ) (req : Request)
      (d : Dict Entry) (i : Identity)
      → req.is_http ≡ true
      → str_eq req.path "/health" ≡ false
      → Speaks Said table now' (sha256 (bearer_token_of req.headers))
      → Holds Said d
      → (call true cfg sha256 table now now' req d).1 ≡ known i
      → (k : VerifiedKey) × ((t : ℕ) × Said (sha256 (bearer_token_of req.headers)) t (some k)
          × ((now - t < cfg.cache_ttl) ⊎ (t ≡ now')))
        × (i ≡ record {
          agent_id = k.agent_id;
          agent_role = k.agent_role;
          bearer_token = some (bearer_token_of req.headers);
        })
  unfolding call
  call-known cfg sha256 table now now' req d i http path speaks holds h =
      let token = bearer_token_of req.headers in
      let (k, e, same) =
        authenticate-known cfg sha256 table now now' token d i
          (reaches req.is_http (str_eq req.path "/health") http path h) in
      let (holds', answered) =
        verify-Answered Said cfg sha256 table now now' token d
          (verify-prefixed cfg sha256 table now now' token d k e) speaks holds in
      (k, subst (Answered Said cfg table now now' (sha256 token)) e answered, same)
    where
      reaches :
          (a b : Bool)
          → a ≡ true
          → b ≡ false
          → (if not a
              then (d, untouched)
              else if b || not true
              then (d, known anonymous)
              else authenticate cfg sha256 table now now' (bearer_token_of req.headers) d).1
            ≡ known i
          → (authenticate cfg sha256 table now now' (bearer_token_of req.headers) d).1 ≡ known i
      reaches true false e f g = g
      reaches true true e f g = absurd cc
      reaches false b e f g = absurd cc
