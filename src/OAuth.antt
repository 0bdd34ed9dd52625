-- ===== src/OAuth.antt =====
-- mcp-server/oauth_provider.py: the authorization server that maps OAuth tokens to pb_ API keys.
-- The pending logins, the codes and the access tokens are dicts of the provider; the registered
-- clients and the refresh tokens are tables of PostgreSQL, of which the model keeps the rows.
-- `db` says whether the database answers a call; a call that it does not answer raises. Times are
-- in microseconds. What `secrets.token_urlsafe` draws and what the API key verifier says are
-- arguments.
mod State
mod Steps
mod Codes
mod Tokens
mod Cleanup
mod Examples
pub use State.*
use powerbrain.Base.{
  ℕ, ◌+◌, ◌*◌, ◌/◌, String, Bool, true, false, Option, none, some, List, [], ◌∷◌, ltb, str_eq,
  truthy, not, get_or, if◌then◌else◌,
}
use powerbrain.Base.Dict.{Dict, lookup, insert, erase, retain}
use powerbrain.Base.Text.{strip}

-- `_cleanup`. The database drops the refresh tokens that expired before this second.
pub cleanup : Bool → ℕ → Provider → Provider
cleanup db now s = record s {
  pending_logins = retain (λ p. ltb now (p.created_at + pending_login_ttl)) s.pending_logins;
  auth_codes = retain (λ c. ltb now c.expires_at) s.auth_codes;
  access_tokens = retain (λ t. unexpired now t.expires_at) s.access_tokens;
  refresh_tokens =
      if db
      then retain (λ r. not (expired (int_seconds now) r.expires_at)) s.refresh_tokens
      else s.refresh_tokens;
}

get_client : Bool → String → Provider → Option ClientInfo
get_client false client_id s = none
get_client true client_id s = elim (lookup client_id s.clients) [
  | none ↦ none
  | some row ↦ some row.client_info
]

-- ON CONFLICT (client_id) DO UPDATE SET client_info: the other columns stay.
upsert_client : ClientInfo → Option ClientRow → ClientRow
upsert_client info none = record {
  client_secret = info.client_secret;
  client_name = get_or info.client_name "";
  redirect_uris = info.redirect_uris;
  client_info = info;
}
upsert_client info (some row) = record row { client_info = info }

-- `none` is the exception that is raised again.
pub register_client : Bool → ClientInfo → Provider → Option Provider
unfolding upsert_client
register_client false info s = none
register_client true info s = some (record s {
  clients = insert info.client_id (upsert_client info (lookup info.client_id s.clients)) s.clients;
})

-- `authorize`: the session under which the redirect to the login form carries the request.
pub authorize : String → ℕ → ClientInfo → AuthorizationParams → Provider → Provider × String
authorize session now client params s = (
  record s {
    pending_logins =
        insert session (record { client = client; params = params; created_at = now })
          s.pending_logins;
  },
  session,
)

pub data LoginError : Type 0 where
  session_expired missing_key invalid_key : LoginError

-- What `construct_redirect_uri` is given, or the message that the form shows again.
pub data LoginAnswer : Type 0 where
  redirect : String → String → Option String → LoginAnswer
  refused : LoginError → LoginAnswer

issue_code : String → ℕ → String → String → PendingLogin → Provider → Provider × LoginAnswer
issue_code code now session api_key pending s = (
  record s {
    pending_logins = erase session s.pending_logins;
    auth_codes =
        insert code
          (record {
            code = code;
            client_id = pending.client.client_id;
            redirect_uri = pending.params.redirect_uri;
            redirect_uri_provided_explicitly = pending.params.redirect_uri_provided_explicitly;
            code_challenge = pending.params.code_challenge;
            scopes = get_or pending.params.scopes [];
            expires_at = now + code_ttl;
            api_key = api_key;
            resource = pending.params.resource;
          })
          s.auth_codes;
  },
  redirect pending.params.redirect_uri code pending.params.state,
)

verified_login :
    String → ℕ → String → String → PendingLogin → Option Access → Provider → Provider × LoginAnswer
unfolding issue_code
verified_login code now session api_key pending none s = (s, refused invalid_key)
verified_login code now session api_key pending (some access) s =
    issue_code code now session api_key pending s

login_with :
    (String → Option Access)
    → String
    → ℕ
    → String
    → String
    → Option PendingLogin
    → Provider
    → Provider × LoginAnswer
unfolding verified_login
login_with verify code now session api_key none s = (s, refused session_expired)
login_with verify code now session api_key (some pending) s =
    let key = strip api_key in
    if truthy key
    then verified_login code now session key pending (verify key) s
    else (s, refused missing_key)

pub handle_login_callback :
    (String → Option Access) → String → ℕ → String → String → Provider → Provider × LoginAnswer
unfolding login_with
handle_login_callback verify code now session api_key s =
    login_with verify code now session api_key (lookup session s.pending_logins) s

load_code :
    ℕ
    → ClientInfo
    → String
    → Option AuthorizationCode
    → Provider
    → Provider × Option AuthorizationCode
load_code now client code none s = (s, none)
load_code now client code (some c) s =
    if not (str_eq c.client_id client.client_id)
    then (s, none)
    else if ltb c.expires_at now
    then (record s { auth_codes = erase code s.auth_codes }, none)
    else (s, some c)

pub load_authorization_code :
    ℕ → ClientInfo → String → Provider → Provider × Option AuthorizationCode
unfolding load_code
load_authorization_code now client code s = load_code now client code (lookup code s.auth_codes) s

-- ON CONFLICT (token) DO UPDATE SET expires_at: the other columns stay.
pub upsert_refresh : RefreshRow → Option RefreshRow → RefreshRow
upsert_refresh new none = new
upsert_refresh new (some row) = record row { expires_at = new.expires_at }

-- `_store_refresh_token`; false if it raises.
pub store_refresh_token : Bool → String → RefreshRow → Provider → Provider × Bool
unfolding upsert_refresh
store_refresh_token false token row s = (s, false)
store_refresh_token true token row s = (
  record s {
    refresh_tokens =
        insert token (upsert_refresh row (lookup token s.refresh_tokens)) s.refresh_tokens;
  },
  true,
)

-- The last step of both exchanges; what was written before a raise stays written.
abbrev pub granted : OAuthToken → Provider × Bool → Provider × Option OAuthToken
granted t (s, true) = (s, some t)
granted t (s, false) = (s, none)

pub exchange_authorization_code :
    Bool
    → ℕ
    → String
    → String
    → ClientInfo
    → AuthorizationCode
    → Provider
    → Provider × Option OAuthToken
unfolding store_refresh_token
exchange_authorization_code db now access refresh client c s =
    granted
      (record {
        access_token = access;
        expires_in = access_token_ttl;
        refresh_token = refresh;
        scope = c.scopes;
      })
      (store_refresh_token db refresh
        (record {
          client_id = client.client_id;
          api_key = c.api_key;
          scopes = c.scopes;
          expires_at = some (int_seconds (now + refresh_token_ttl));
        })
        (record s {
          auth_codes = erase c.code s.auth_codes;
          access_tokens =
              insert access
                (record {
                  token = access;
                  client_id = client.client_id;
                  scopes = c.scopes;
                  expires_at = some (int_seconds (now + access_token_ttl));
                  api_key = c.api_key;
                  resource = c.resource;
                })
                s.access_tokens;
        }))

load_refresh :
    ℕ → ClientInfo → String → Option RefreshRow → Provider → Provider × Option RefreshToken
load_refresh now client token none s = (s, none)
load_refresh now client token (some row) s =
    if not (str_eq row.client_id client.client_id)
    then (s, none)
    else if expired now row.expires_at
    then (record s { refresh_tokens = erase token s.refresh_tokens }, none)
    else (
      s,
      some (record {
        token = token;
        client_id = row.client_id;
        scopes = row.scopes;
        expires_at = row.expires_at;
        api_key = row.api_key;
      }),
    )

pub load_refresh_token : Bool → ℕ → ClientInfo → String → Provider → Provider × Option RefreshToken
unfolding load_refresh
load_refresh_token false now client token s = (s, none)
load_refresh_token true now client token s =
    load_refresh now client token (lookup token s.refresh_tokens) s

-- `scopes or refresh_token.scopes`
abbrev or_scopes : List String → List String → List String
or_scopes [] d = d
or_scopes (x ∷ xs) d = x ∷ xs

pub exchange_refresh_token :
    Bool
    → ℕ
    → String
    → ClientInfo
    → RefreshToken
    → List String
    → Provider
    → Provider × Option OAuthToken
unfolding store_refresh_token
exchange_refresh_token db now access client r scopes s =
    granted
      (record {
        access_token = access;
        expires_in = access_token_ttl;
        refresh_token = r.token;
        scope = or_scopes scopes r.scopes;
      })
      (store_refresh_token db r.token
        (record {
          client_id = client.client_id;
          api_key = r.api_key;
          scopes = or_scopes scopes r.scopes;
          expires_at = some (int_seconds (now + refresh_token_ttl));
        })
        (record s {
          access_tokens =
              insert access
                (record {
                  token = access;
                  client_id = client.client_id;
                  scopes = or_scopes scopes r.scopes;
                  expires_at = some (int_seconds (now + access_token_ttl));
                  api_key = r.api_key;
                  resource = none;
                })
                s.access_tokens;
        }))

load_access : ℕ → String → Option AccessToken → Provider → Provider × Option AccessToken
load_access now token none s = (s, none)
load_access now token (some t) s =
    if expired now t.expires_at
    then (record s { access_tokens = erase token s.access_tokens }, none)
    else (s, some t)

pub load_access_token : ℕ → String → Provider → Provider × Option AccessToken
unfolding load_access
load_access_token now token s = load_access now token (lookup token s.access_tokens) s

-- `revoke_token`; the flag says that the token is a refresh token. A failure is only logged.
pub revoke_token : Bool → Bool → String → Provider → Provider
revoke_token db is_refresh token s = record s {
  access_tokens = erase token s.access_tokens;
  refresh_tokens =
      if is_refresh
      then (if db then erase token s.refresh_tokens else s.refresh_tokens)
      else s.refresh_tokens;
}

-- `CombinedTokenVerifier.verify_token`
revalidate : (String → Option Access) → String → Option AccessToken → Option Access
revalidate verify token none = none
revalidate verify token (some t) = elim (verify t.api_key) [
  | none ↦ none
  | some a ↦ some (record {
    token = token;
    client_id = a.client_id;
    scopes = a.scopes;
    expires_at = t.expires_at;
  })
]

verify_or :
    (String → Option Access) → ℕ → String → Option Access → Provider → Provider × Option Access
unfolding revalidate load_access_token
verify_or verify now token (some a) s = (s, some a)
verify_or verify now token none s =
    let (s', t) = load_access_token now token s in (s', revalidate verify token t)

pub verify_token : (String → Option Access) → ℕ → String → Provider → Provider × Option Access
unfolding verify_or
verify_token verify now token s = verify_or verify now token (verify token) s
