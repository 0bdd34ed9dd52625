-- ===== src/ProxyAuth.antt =====
-- pb-proxy/auth.py, ProxyKeyVerifier with its cache, and pb-proxy/middleware.py, ProxyAuthMiddleware.
-- The hash, the clock (read once before and once after the query, in units of its own) and the rows of
-- the key table are arguments. `last_used_at` is left out: the query does not read it.
mod Staleness
mod Size
mod Middleware
mod Examples
use powerbrain.Base.{
  ℕ, suc, ◌+◌, ◌-◌, ◌/◌, String, Bool, true, false, ◌||◌, not, Option, none, some, List, [], ◌∷◌,
  length, take, ltb, leb, nat_beq, str_eq, truthy, get_or, if◌then◌else◌,
}
use powerbrain.Base.Dict.{Dict, lookup, insert, erase}
use powerbrain.Base.Text.{lower, strip, starts_with, text_drop}

pub record VerifiedKey : Type 0 where
  pub agent_id : String
  pub agent_role : String

-- What the cache holds of a key, and since when.
pub record Entry : Type 0 where
  pub found : Option VerifiedKey
  pub at : ℕ

pub record Settings : Type 0 where
  pub cache_ttl : ℕ
  pub negative_cache_ttl : ℕ
  pub max_cache_size : ℕ

-- The pool: not started, one whose query raises, or one that finds rows that are active.
pub data KeyTable : Type 0 where
  no_pool raising : KeyTable
  active_keys : (String → Option VerifiedKey) → KeyTable

-- What `verify` returns or raises.
pub data Verdict : Type 0 where
  verified : VerifiedKey → Verdict
  refused exception : Verdict

-- `sorted(self._cache.items(), key=lambda x: x[1][1])`
pub insert_oldest : String × Entry → Dict Entry → Dict Entry
insert_oldest e [] = e ∷ []
insert_oldest e (x ∷ xs) =
    let rest = insert_oldest e xs in if ltb x.1.at e.1.at then x ∷ rest else e ∷ x ∷ xs

pub oldest_first : Dict Entry → Dict Entry
unfolding insert_oldest
oldest_first [] = []
oldest_first (e ∷ es) = insert_oldest e (oldest_first es)

pub erase_all : Dict Entry → Dict Entry → Dict Entry
unfolding erase
erase_all [] d = d
erase_all ((k, e) ∷ es) d = erase_all es (erase k d)

-- `len(items) // 4 or 1`
abbrev pub to_remove : ℕ → ℕ
to_remove n = if nat_beq (n / 4) 0 then 1 else n / 4

pub evict_if_full : Settings → Dict Entry → Dict Entry
unfolding oldest_first erase_all
evict_if_full cfg d =
    if leb cfg.max_cache_size (length d)
    then erase_all (take (to_remove (length d)) (oldest_first d)) d
    else d

abbrev pub verdict_of : Option VerifiedKey → Verdict
verdict_of none = refused
verdict_of (some k) = verified k

abbrev pub ttl_of : Settings → Option VerifiedKey → ℕ
ttl_of cfg none = cfg.negative_cache_ttl
ttl_of cfg (some k) = cfg.cache_ttl

-- The query, and what is kept of it.
pub look_up_key : Settings → KeyTable → ℕ → String → Dict Entry → Dict Entry × Verdict
unfolding evict_if_full insert
look_up_key cfg no_pool now key d = (d, refused)
look_up_key cfg raising now key d = (d, exception)
look_up_key cfg (active_keys rows) now key d = (
  insert key (record { found = rows key; at = now }) (evict_if_full cfg d),
  verdict_of (rows key),
)

-- With what the cache holds of the key.
pub cached_or_look_up :
    Settings → KeyTable → ℕ → ℕ → String → Dict Entry → Option Entry → Dict Entry × Verdict
unfolding look_up_key
cached_or_look_up cfg table now now' key d none = look_up_key cfg table now' key d
cached_or_look_up cfg table now now' key d (some e) =
    if ltb (now - e.at) (ttl_of cfg e.found)
    then (d, verdict_of e.found)
    else look_up_key cfg table now' key d

pub verify :
    Settings → (String → String) → KeyTable → ℕ → ℕ → String → Dict Entry → Dict Entry × Verdict
unfolding cached_or_look_up lookup starts_with
verify cfg sha256 table now now' token d =
    if not (truthy token) || not (starts_with "pb_" token)
    then (d, refused)
    else cached_or_look_up cfg table now now' (sha256 token) d (lookup (sha256 token) d)

invalidate_cache : Dict Entry → Dict Entry
invalidate_cache d = []

-- A request, as far as the middleware reads it; `dict(headers)` has been made.
pub record Request : Type 0 where
  pub is_http : Bool
  pub path : String
  pub headers : Dict String

-- What the handlers behind the middleware find in the scope's state.
pub record Identity : Type 0 where
  pub agent_id : String
  pub agent_role : String
  pub bearer_token : Option String

-- Passed on as it is, passed on with an identity, answered with 401, or an exception.
pub data Passage : Type 0 where
  untouched : Passage
  known : Identity → Passage
  unauthorized : String → Passage
  crashed : Passage

abbrev pub anonymous : Identity
anonymous = record { agent_id = "anonymous"; agent_role = "developer"; bearer_token = none }

pub bearer_token_of : Dict String → String
unfolding lookup lower starts_with strip text_drop
bearer_token_of headers =
    let auth_value = get_or (lookup "authorization" headers) "" in
    if starts_with "bearer " (lower auth_value) then strip (text_drop 7 auth_value) else ""

abbrev passage : String → Verdict → Passage
passage token (verified k) =
    known (record { agent_id = k.agent_id; agent_role = k.agent_role; bearer_token = some token })
passage token refused = unauthorized "Invalid or expired API key"
passage token exception = crashed

abbrev pub passed : String → Dict Entry × Verdict → Dict Entry × Passage
passed token (d, v) = (d, passage token v)

pub authenticate :
    Settings → (String → String) → KeyTable → ℕ → ℕ → String → Dict Entry → Dict Entry × Passage
unfolding verify
authenticate cfg sha256 table now now' token d =
    if truthy token
    then passed token (verify cfg sha256 table now now' token d)
    else (d, unauthorized "Authentication required")

-- ProxyAuthMiddleware.__call__; the path of `/health` is the whole whitelist.
pub call :
    Bool
    → Settings
    → (String → String)
    → KeyTable
    → ℕ
    → ℕ
    → Request
    → Dict Entry
    → Dict Entry × Passage
unfolding authenticate bearer_token_of
call auth_required cfg sha256 table now now' req d =
    if not req.is_http
    then (d, untouched)
    else if str_eq req.path "/health" || not auth_required
    then (d, known anonymous)
    else authenticate cfg sha256 table now now' (bearer_token_of req.headers) d
