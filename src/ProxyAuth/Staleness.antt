-- ===== src/ProxyAuth/Staleness.antt =====
-- ProxyKeyVerifier of pb-proxy/auth.py: how old an answer can be that the cache gives.
use powerbrain.Base.{
  ℕ, ◌-◌, ◌≡◌, ◌<◌, refl, sym, ap, subst, ◌∙◌, ◌⊎◌, inl, inr, String, Bool, true, false, ◌||◌, not,
  Option, none, some, [], ◌∷◌, length, take, ltb, leb, truthy, str_eq, Bool-cases, some_injective,
  eq_iff, arith, if◌then◌else◌,
}
use powerbrain.Base.Dict.{Dict, lookup, insert, erase, lookup-insert, lookup-erase}
use powerbrain.Base.Text.{starts_with}
use powerbrain.ProxyAuth.{
  VerifiedKey, Entry, Settings, KeyTable, no_pool, raising, active_keys, Verdict, verified, refused,
  exception, oldest_first, erase_all, to_remove, evict_if_full, verdict_of, ttl_of, look_up_key,
  cached_or_look_up, verify,
}

empty_prefix : starts_with "pb_" "" ≡ false
unfolding starts_with
empty_prefix = refl

not_empty :
    (t : String)
    → starts_with "pb_" t ≡ true
    → (not (truthy t) || not (starts_with "pb_" t)) ≡ false
not_empty t e = elim (Bool-cases (str_eq t "")) [
  | inl f ↦ absurd (let g = sym e ∙ ap (starts_with "pb_") ((eq_iff t "").0 f) ∙ empty_prefix in cc)
  | inr f ↦ rw (f, e) refl
]

-- What the table has said of a key's hash, and when.
module _ (Said : String → ℕ → Option VerifiedKey → Type 0) where
  -- The cache holds what the table has said.
  abbrev pub Holds : Dict Entry → Type 0
  Holds d = (k : String) (e : Entry) → lookup k d ≡ some e → Said k e.at e.found

  erase-Holds : (k : String) (d : Dict Entry) → Holds d → Holds (erase k d)
  erase-Holds k d h j e f = elim (Bool-cases (str_eq k j)) [
    | inl t ↦ absurd (let f' = rw (lookup-erase k j d, t) at f in cc)
    | inr t ↦ h j e (rw (lookup-erase k j d, t) at f)
  ]

  erase_all-Holds : (es d : Dict Entry) → Holds d → Holds (erase_all es d)
  unfolding erase_all
  erase_all-Holds [] d h = h
  erase_all-Holds ((k, e) ∷ es) d h = erase_all-Holds es (erase k d) (erase-Holds k d h)

  evict_if_full-Holds : (cfg : Settings) (d : Dict Entry) → Holds d → Holds (evict_if_full cfg d)
  unfolding evict_if_full
  evict_if_full-Holds cfg d h = by_size (leb cfg.max_cache_size (length d))
    where
      by_size :
          (b : Bool)
          → Holds (if b then erase_all (take (to_remove (length d)) (oldest_first d)) d else d)
      by_size true = erase_all-Holds (take (to_remove (length d)) (oldest_first d)) d h
      by_size false = h

  insert-Holds :
      (k : String) (e : Entry) (d : Dict Entry)
      → Said k e.at e.found
      → Holds d
      → Holds (insert k e d)
  insert-Holds k e d said h j f g = elim (Bool-cases (str_eq k j)) [
    | inl t ↦
        let same = some_injective e f (rw (lookup-insert k j e d, t) at g) in
        rw (← (eq_iff k j).0 t, ← same) said
    | inr t ↦ h j f (rw (lookup-insert k j e d, t) at g)
  ]

  -- The table answers for itself.
  abbrev pub Speaks : KeyTable → ℕ → String → Type 0
  Speaks no_pool now key = Unit
  Speaks raising now key = Unit
  Speaks (active_keys rows) now key = Said key now (rows key)

  -- An answer that the table has given, now or not longer ago than the time to live. No answer is
  -- given without a table.
  abbrev pub Answered : Settings → KeyTable → ℕ → ℕ → String → Verdict → Type 0
  Answered cfg table now now' key (verified k) =
      (t : ℕ) × Said key t (some k) × ((now - t < cfg.cache_ttl) ⊎ (t ≡ now'))
  Answered cfg table now now' key refused =
      ((t : ℕ) × Said key t none × ((now - t < cfg.negative_cache_ttl) ⊎ (t ≡ now')))
      ⊎ (table ≡ no_pool)
  Answered cfg table now now' key exception = table ≡ raising

  verdict_of-Answered :
      (cfg : Settings) (table : KeyTable) (now now' t : ℕ) (key : String) (o : Option VerifiedKey)
      → Said key t o
      → ((now - t < ttl_of cfg o) ⊎ (t ≡ now'))
      → Answered cfg table now now' key (verdict_of o)
  verdict_of-Answered cfg table now now' t key none said age = inl (t, said, age)
  verdict_of-Answered cfg table now now' t key (some k) said age = (t, said, age)

  abbrev Kept : Settings → KeyTable → ℕ → ℕ → String → Dict Entry × Verdict → Type 0
  Kept cfg table now now' key r = Holds r.0 × Answered cfg table now now' key r.1

  look_up_key-Kept :
      (cfg : Settings) (table : KeyTable) (now now' : ℕ) (key : String) (d : Dict Entry)
      → Speaks table now' key
      → Holds d
      → Kept cfg table now now' key (look_up_key cfg table now' key d)
  unfolding look_up_key
  look_up_key-Kept cfg no_pool now now' key d s h = (h, inr refl)
  look_up_key-Kept cfg raising now now' key d s h = (h, refl)
  look_up_key-Kept cfg (active_keys rows) now now' key d s h = (
    insert-Holds key _ (evict_if_full cfg d) s (evict_if_full-Holds cfg d h),
    verdict_of-Answered cfg (active_keys rows) now now' now' key (rows key) s (inr refl),
  )

  cached_or_look_up-Kept :
      (cfg : Settings) (table : KeyTable) (now now' : ℕ) (key : String) (d : Dict Entry)
      (o : Option Entry)
      → lookup key d ≡ o
      → Speaks table now' key
      → Holds d
      → Kept cfg table now now' key (cached_or_look_up cfg table now now' key d o)
  unfolding cached_or_look_up
  cached_or_look_up-Kept cfg table now now' key d none e s h =
      look_up_key-Kept cfg table now now' key d s h
  cached_or_look_up-Kept cfg table now now' key d (some en) e s h =
      by_age (ltb (now - en.at) (ttl_of cfg en.found)) refl
    where
      by_age :
          (b : Bool)
          → ltb (now - en.at) (ttl_of cfg en.found) ≡ b
          → Kept cfg table now now' key
              (if b then (d, verdict_of en.found) else look_up_key cfg table now' key d)
      by_age true young = (
        h,
        verdict_of-Answered cfg table now now' en.at key en.found (h key en e) (inl (ground arith)),
      )
      by_age false old = look_up_key-Kept cfg table now now' key d s h

  -- If the cache holds what the table has said, `verify` keeps it so, and its answer to a token with
  -- the prefix is what the table says now, or said not longer ago than the time to live of such an
  -- answer; without a table it refuses, and an exception is the query's.
  pub verify-Answered :
      (cfg : Settings) (sha256 : String → String) (table : KeyTable) (now now' : ℕ) (token : String)
      (d : Dict Entry)
      → starts_with "pb_" token ≡ true
      → Speaks table now' (sha256 token)
      → Holds d
      → Holds (verify cfg sha256 table now now' token d).0
        × Answered cfg table now now' (sha256 token) (verify cfg sha256 table now now' token d).1
  unfolding verify
  verify-Answered cfg sha256 table now now' token d prefixed s h =
      subst
        (λ b. Kept cfg table now now' (sha256 token) (
          if b
          then (d, refused)
          else cached_or_look_up cfg table now now' (sha256 token) d (lookup (sha256 token) d)))
        (sym (not_empty token prefixed))
        (cached_or_look_up-Kept cfg table now now' (sha256 token) d (lookup (sha256 token) d) refl s
          h)
