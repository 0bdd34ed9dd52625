-- ===== src/Oversight/Switch.antt =====
-- The kill switch of mcp-server/server.py and its cache.
use powerbrain.Base.{
  ℕ, ◌+◌, ◌≤◌, ◌≡◌, ◌⊎◌, String, Bool, true, Option, none, some, arith, Option-cases, inl, inr,
}
use powerbrain.Oversight.{
  Oversight, Breaker, get_circuit_breaker_state, fetch, set_circuit_breaker, cache_ttl,
}

-- What another process wrote is seen after five seconds: once the cache is that old, or empty,
-- the state that is returned is the row that the database has now.
pub get_circuit_breaker_state-fresh :
    (db : Bool) (now : ℕ) (s : Oversight)
    → (s.fetched_at + cache_ttl ≤ now) ⊎ (s.state ≡ none)
    → (get_circuit_breaker_state db now s).1 ≡ fetch db s.row
unfolding get_circuit_breaker_state
get_circuit_breaker_state-fresh db now s h = elim (Option-cases s.state) [
  | inl e ↦ rw e
  | inr (b, e) ↦ rw e (ground arith)
]

-- Throwing the switch writes the row and leaves the cache at what was written.
pub set_circuit_breaker-effect :
    (now : ℕ) (active : Bool) (reason : Option String) (set_by : String) (old : Breaker)
    (s t : Oversight) (b : Breaker)
    → s.row ≡ some old
    → set_circuit_breaker true now active reason set_by s ≡ some (t, b)
    → (t.state
        ≡ some
            (record { active = active; reason = reason; set_by = some set_by; set_at = some now }))
      × (t.row ≡ t.state)
      × (b.active ≡ active)
unfolding set_circuit_breaker
set_circuit_breaker-effect now active reason set_by old s t b stored done =
    let run = rw stored at done in ground arith
