-- ===== src/ProxyAuth/Size.antt =====
-- The cache of ProxyKeyVerifier in pb-proxy/auth.py is bounded.
use powerbrain.Base.{
  ℕ, suc, ◌-◌, ◌≡◌, ◌<◌, ◌≤◌, refl, sym, ap, ◌∙◌, String, Bool, true, false, ◌||◌, not, Option,
  none, some, [], ◌∷◌, length, take, any, ltb, leb, truthy, str_eq, eq_refl, Bool-cases, inl, inr,
  arith, if◌then◌else◌,
}
use powerbrain.Base.Dict.{Dict, lookup, insert, erase}
use powerbrain.Base.Text.{starts_with}
use powerbrain.ProxyAuth.{
  Entry, Settings, KeyTable, no_pool, raising, active_keys, refused, insert_oldest, oldest_first,
  erase_all, to_remove, evict_if_full, verdict_of, ttl_of, look_up_key, cached_or_look_up, verify,
}

abbrev is_of : String → String × Entry → Bool
is_of k x = str_eq x.0 k

length-insert-le :
    (k : String) (e : Entry) (d : Dict Entry) → length (insert k e d) ≤ suc (length d)
unfolding insert
length-insert-le k e [] = omega arith
length-insert-le k e (x ∷ d) = ground (arith, length-insert-le k e d)

length-erase-le : (k : String) (d : Dict Entry) → length (erase k d) ≤ length d
unfolding erase
length-erase-le k [] = omega arith
length-erase-le k (x ∷ d) = ground (arith, length-erase-le k d)

length-erase-less :
    (k : String) (d : Dict Entry) → any (is_of k) d ≡ true → length (erase k d) < length d
unfolding erase
length-erase-less k [] h = absurd cc
length-erase-less k (x ∷ d) h = ground (arith, length-erase-less k d, length-erase-le k d)

length-erase_all-le : (es d : Dict Entry) → length (erase_all es d) ≤ length d
unfolding erase_all
length-erase_all-le [] d = omega arith
length-erase_all-le ((k, e) ∷ es) d =
    omega (arith, length-erase_all-le es (erase k d), length-erase-le k d)

any-insert_oldest :
    (k : String) (e : String × Entry) (d : Dict Entry)
    → any (is_of k) (insert_oldest e d) ≡ (is_of k e || any (is_of k) d)
unfolding insert_oldest
any-insert_oldest k e [] = refl
any-insert_oldest k e (x ∷ d) = ground (arith, any-insert_oldest k e d)

any-oldest_first : (k : String) (d : Dict Entry) → any (is_of k) (oldest_first d) ≡ any (is_of k) d
unfolding oldest_first
any-oldest_first k [] = refl
any-oldest_first k (x ∷ d) =
    any-insert_oldest k x (oldest_first d) ∙ ap (λ b. is_of k x || b) (any-oldest_first k d)

length-insert_oldest :
    (e : String × Entry) (d : Dict Entry) → length (insert_oldest e d) ≡ suc (length d)
unfolding insert_oldest
length-insert_oldest e [] = refl
length-insert_oldest e (x ∷ d) = ground (arith, length-insert_oldest e d)

length-oldest_first : (d : Dict Entry) → length (oldest_first d) ≡ length d
unfolding oldest_first
length-oldest_first [] = refl
length-oldest_first (x ∷ d) =
    omega (arith, length-insert_oldest x (oldest_first d), length-oldest_first d)

-- Erasing the first of some entries that the dict has makes it smaller.
length-erase_first :
    (n : ℕ) (es d : Dict Entry)
    → 0 < length es
    → ((k : String) → any (is_of k) es ≡ true → any (is_of k) d ≡ true)
    → length (erase_all (take (suc n) es) d) < length d
unfolding erase_all
length-erase_first n [] d h f = absurd (omega arith)
length-erase_first n ((k, e) ∷ es) d h f = omega (
  arith,
  length-erase_all-le (take n es) (erase k d),
  length-erase-less k d (f k (rw (eq_refl k) refl)),
)

to_remove-suc : (n : ℕ) → (m : ℕ) × (to_remove n ≡ suc m)
to_remove-suc n = (to_remove n - 1, ground arith)

length-evict_if_full :
    (cfg : Settings) (d : Dict Entry)
    → 0 < cfg.max_cache_size
    → length d ≤ cfg.max_cache_size
    → length (evict_if_full cfg d) < cfg.max_cache_size
unfolding evict_if_full
length-evict_if_full cfg d h k = elim (Bool-cases (leb cfg.max_cache_size (length d))) [
  | inr e ↦ rw (evict_if_full, e) (ground arith)
  | inl e ↦
      let (m, s) = to_remove-suc (length d) in
      rw (evict_if_full, e, s)
        (omega (
          arith,
          length-erase_first m (oldest_first d) d (ground (arith, length-oldest_first d))
              (λ k a. sym (any-oldest_first k d) ∙ a),
        ))
]

look_up_key-size :
    (cfg : Settings) (table : KeyTable) (now : ℕ) (key : String) (d : Dict Entry)
    → 0 < cfg.max_cache_size
    → length d ≤ cfg.max_cache_size
    → length (look_up_key cfg table now key d).0 ≤ cfg.max_cache_size
unfolding look_up_key
look_up_key-size cfg no_pool now key d h k = k
look_up_key-size cfg raising now key d h k = k
look_up_key-size cfg (active_keys rows) now key d h k = omega (
  arith,
  length-evict_if_full cfg d h k,
  length-insert-le key (record { found = rows key; at = now }) (evict_if_full cfg d),
)

cached_or_look_up-size :
    (cfg : Settings) (table : KeyTable) (now now' : ℕ) (key : String) (d : Dict Entry)
    (o : Option Entry)
    → 0 < cfg.max_cache_size
    → length d ≤ cfg.max_cache_size
    → length (cached_or_look_up cfg table now now' key d o).0 ≤ cfg.max_cache_size
unfolding cached_or_look_up
cached_or_look_up-size cfg table now now' key d none h k = look_up_key-size cfg table now' key d h k
cached_or_look_up-size cfg table now now' key d (some e) h k =
    by_age (ltb (now - e.at) (ttl_of cfg e.found))
  where
    by_age :
        (b : Bool)
        → length (if b then (d, verdict_of e.found) else look_up_key cfg table now' key d).0
          ≤ cfg.max_cache_size
    by_age true = k
    by_age false = look_up_key-size cfg table now' key d h k

-- If the cache has room for an entry at all and is not above its size, no call of `verify` lets it
-- grow above its size.
pub verify-size :
    (cfg : Settings) (sha256 : String → String) (table : KeyTable) (now now' : ℕ) (token : String)
    (d : Dict Entry)
    → 0 < cfg.max_cache_size
    → length d ≤ cfg.max_cache_size
    → length (verify cfg sha256 table now now' token d).0 ≤ cfg.max_cache_size
unfolding verify
verify-size cfg sha256 table now now' token d h k =
    by_prefix (not (truthy token) || not (starts_with "pb_" token))
  where
    by_prefix :
        (b : Bool)
        → length
            (if b
              then (d, refused)
              else cached_or_look_up cfg table now now'
                  (sha256 token)
                  d
                  (lookup (sha256 token) d)).0
          ≤ cfg.max_cache_size
    by_prefix true = k
    by_prefix false =
        cached_or_look_up-size cfg table now now' (sha256 token) d (lookup (sha256 token) d) h k
