-- ===== src/Opa/Caching.antt =====
-- The cache and the retry of `check_opa_policy` in mcp-server/server.py decide nothing themselves.
use powerbrain.Base.{ℕ, ◌≡◌, ◌⊎◌, inl, inr, String, Bool, true, false, some, Option-cases}
use powerbrain.Opa.Keys.{Plain, cache_key-injective}
use powerbrain.Opa.{
  cache_key, Engine, opa_query, Decision, decided, raised, decision, Cache, Access, key_of,
  access_input, check_attempt, check_opa_policy, again, remember,
}

module _ (cache : Cache Bool) (Said : String → String → String → Bool → Type 0) where
  open cache use {Store, get, put, get-put}

  -- What the cache would answer at any time, under the key of a role, a classification and an action,
  -- has been said of these three.
  pub record IsSound (c : Store) : Type 0 where
    pub at :
        (now : ℕ) (role class action : String) (x : Bool)
        → Plain role class
        → get now (cache_key role class action) c ≡ some x
        → Said role class action x

  -- What a decision says of an access.
  abbrev pub Agrees : Access → Decision → Type 0
  Agrees a (decided b) = Said a.agent_role a.classification a.action b
  Agrees a raised = Unit

  -- What the engine says about this access now.
  abbrev pub engine_says : Engine → Access → Decision
  engine_says engine a = decision (
      opa_query engine "pb/access/allow"
        (access_input a.agent_id a.agent_role a.resource a.classification a.action))

  put-IsSound :
      (now : ℕ) (a : Access) (b : Bool) (c : Store)
      → Plain a.agent_role a.classification
      → Said a.agent_role a.classification a.action b
      → IsSound c
      → IsSound (put now (key_of a) b c)
  put-IsSound now a b c plain said s = record {
    at = λ later r k n x p e.
        fresh_or_old r k n x p (get-put later now (cache_key r k n) (key_of a) b x c e)
          (s.at later r k n x p);
  }
    where
      fresh_or_old :
          (r k n : String) (x : Bool) {Old : Type 0}
          → Plain r k
          → ((cache_key r k n ≡ key_of a) × (x ≡ b)) ⊎ Old
          → (Old → Said r k n x)
          → Said r k n x
      fresh_or_old r k n x p (inl e) f =
          let same = cache_key-injective r k n a.agent_role a.classification a.action p plain e.0 in
          rw (same.0, same.1, same.2, e.1) said
      fresh_or_old r k n x p (inr o) f = f o

  remember-IsSound :
      (enabled : Bool) (now : ℕ) (a : Access) (d : Decision) (c : Store)
      → Plain a.agent_role a.classification
      → Agrees a d
      → IsSound c
      → IsSound (remember cache enabled now (key_of a) d c).0
        × Agrees a (remember cache enabled now (key_of a) d c).1
  remember-IsSound enabled now a raised c p h s = (s, tt)
  remember-IsSound true now a (decided b) c p h s = (put-IsSound now a b c p h s, h)
  remember-IsSound false now a (decided b) c p h s = (s, h)

  check_attempt-IsSound :
      (enabled : Bool) (now : ℕ) (engine : Engine) (a : Access) (c : Store)
      → Plain a.agent_role a.classification
      → Agrees a (engine_says engine a)
      → IsSound c
      → IsSound (check_attempt cache enabled now engine a c).0
        × Agrees a (check_attempt cache enabled now engine a c).1
  unfolding check_attempt
  check_attempt-IsSound false now engine a c p h s =
      remember-IsSound false now a (engine_says engine a) c p h s
  check_attempt-IsSound true now engine a c p h s = elim (Option-cases (get now (key_of a) c)) [
    | inl e ↦ rw (e, check_attempt) (remember-IsSound true now a (engine_says engine a) c p h s)
    | inr (b, e) ↦ rw (e, check_attempt) (s, s.at now a.agent_role a.classification a.action b p e)
  ]

  again-IsSound :
      (enabled : Bool) (now : ℕ) (engine : Engine) (a : Access) (r : Store × Decision)
      → Plain a.agent_role a.classification
      → Agrees a (engine_says engine a)
      → IsSound r.0 × Agrees a r.1
      → IsSound (again cache enabled now engine a r).0
        × Agrees a (again cache enabled now engine a r).1
  again-IsSound enabled now engine a (c, decided b) p h s = s
  again-IsSound enabled now engine a (c, raised) p h s =
      check_attempt-IsSound enabled now engine a c p h (s.0)

  -- Let the agent's role and the classification have no colon. If what the cache holds under the keys
  -- of such roles and classifications was said by the engine of this role, classification and
  -- action, and what the engine decides in either attempt counts as said of those of the access,
  -- then so does the decision of the check, whether it comes from the cache, from the first attempt
  -- or from the retry, and the cache holds nothing else afterwards.
  pub check_opa_policy-IsSound :
      (enabled : Bool) (now now' : ℕ) (engine engine' : Engine) (a : Access) (c : Store)
      → Plain a.agent_role a.classification
      → Agrees a (engine_says engine a)
      → Agrees a (engine_says engine' a)
      → IsSound c
      → let (c', d) = check_opa_policy cache enabled now engine now' engine' a c in
        IsSound c' × Agrees a d
  unfolding check_opa_policy
  check_opa_policy-IsSound enabled now now' engine engine' a c p h h' s =
      again-IsSound enabled now' engine' a (check_attempt cache enabled now engine a c) p h'
        (check_attempt-IsSound enabled now engine a c p h s)
