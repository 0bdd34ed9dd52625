-- ===== src/OAuth/State.antt =====
-- The records of mcp-server/oauth_provider.py, the lifetimes, and the state of the provider.
use powerbrain.Base.{ℕ, ◌*◌, ◌/◌, String, Bool, true, false, Option, none, some, List, ltb}
use powerbrain.Base.Dict.{Dict}

abbrev pub second : ℕ
second = 1000000

abbrev pub pending_login_ttl : ℕ
pending_login_ttl = 600 * second

abbrev pub code_ttl : ℕ
code_ttl = 300 * second

abbrev pub access_token_ttl : ℕ
access_token_ttl = 3600 * second

abbrev pub refresh_token_ttl : ℕ
refresh_token_ttl = 604800 * second

-- `int(t)` of a time: whole seconds.
abbrev pub int_seconds : ℕ → ℕ
int_seconds t = t / second * second

-- `OAuthClientInformationFull`, as far as the provider reads it.
pub record ClientInfo : Type 0 where
  pub client_id : String
  pub client_secret : Option String
  pub client_name : Option String
  pub redirect_uris : List String

pub record AuthorizationParams : Type 0 where
  pub state : Option String
  pub scopes : Option (List String)
  pub code_challenge : String
  pub redirect_uri : String
  pub redirect_uri_provided_explicitly : Bool
  pub resource : Option String

pub record PendingLogin : Type 0 where
  pub client : ClientInfo
  pub params : AuthorizationParams
  pub created_at : ℕ

pub record AuthorizationCode : Type 0 where
  pub code : String
  pub client_id : String
  pub redirect_uri : String
  pub redirect_uri_provided_explicitly : Bool
  pub code_challenge : String
  pub scopes : List String
  pub expires_at : ℕ
  pub api_key : String
  pub resource : Option String

pub record AccessToken : Type 0 where
  pub token : String
  pub client_id : String
  pub scopes : List String
  pub expires_at : Option ℕ
  pub api_key : String
  pub resource : Option String

pub record RefreshToken : Type 0 where
  pub token : String
  pub client_id : String
  pub scopes : List String
  pub expires_at : Option ℕ
  pub api_key : String

-- The rows of oauth_clients and of oauth_refresh_tokens, under their keys.
pub record ClientRow : Type 0 where
  pub client_secret : Option String
  pub client_name : String
  pub redirect_uris : List String
  pub client_info : ClientInfo

pub record RefreshRow : Type 0 where
  pub client_id : String
  pub api_key : String
  pub scopes : List String
  pub expires_at : Option ℕ

pub record Provider : Type 0 where
  pub pending_logins : Dict PendingLogin
  pub auth_codes : Dict AuthorizationCode
  pub access_tokens : Dict AccessToken
  pub clients : Dict ClientRow
  pub refresh_tokens : Dict RefreshRow

-- `OAuthToken`; the type is always "bearer".
pub record OAuthToken : Type 0 where
  pub access_token : String
  pub expires_in : ℕ
  pub refresh_token : String
  pub scope : List String

-- What a token verifier returns.
pub record Access : Type 0 where
  pub token : String
  pub client_id : String
  pub scopes : List String
  pub expires_at : Option ℕ

abbrev pub unexpired : ℕ → Option ℕ → Bool
unexpired now none = true
unexpired now (some e) = ltb now e

abbrev pub expired : ℕ → Option ℕ → Bool
expired now none = false
expired now (some e) = ltb e now
