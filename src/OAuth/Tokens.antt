-- ===== src/OAuth/Tokens.antt =====
-- The access and refresh tokens of mcp-server/oauth_provider.py, and the combined verifier.
use powerbrain.Base.{
  ℕ, ◌+◌, ◌≤◌, ◌≡◌, ◌↔◌, ◌⊎◌, String, Bool, true, false, Option, none, some, arith, Option-cases,
  inl, inr, eq_refl, leb, if◌then◌else◌, is_some, List,
}
use powerbrain.Base.Dict.{lookup, lookup-insert, lookup-erase}
use powerbrain.OAuth.{
  Provider, ClientInfo, AuthorizationCode, AccessToken, RefreshToken, RefreshRow, Access,
  exchange_authorization_code, exchange_refresh_token, load_access_token, load_refresh_token,
  revoke_token, verify_token, expired, int_seconds, access_token_ttl, refresh_token_ttl,
}

-- The access token of an exchange is good until the second in which its hour ends, whether or not
-- the database stored the refresh token, and stands for the code's API key and client.
pub exchange-lifetime :
    (db : Bool) (now later : ℕ) (access refresh : String) (client : ClientInfo)
    (c : AuthorizationCode) (s : Provider)
    → (load_access_token later access
        (exchange_authorization_code db now access refresh client c s).0).1
      ≡ (if leb later (int_seconds (now + access_token_ttl))
          then some (record {
            token = access;
            client_id = client.client_id;
            scopes = c.scopes;
            expires_at = some (int_seconds (now + access_token_ttl));
            api_key = c.api_key;
            resource = c.resource;
          })
          else none)
unfolding exchange_authorization_code load_access_token
exchange-lifetime true now later access refresh client c s =
    rw (lookup-insert, eq_refl access) (ground arith)
exchange-lifetime false now later access refresh client c s =
    rw (lookup-insert, eq_refl access) (ground arith)

-- Using a refresh token slides its expiry: if the database answers, the token that was loaded for
-- a client loads for that client again until seven days, to the second, after the use, with the
-- key and the scopes of its row, whatever scopes the use asked for.
pub exchange_refresh-slides :
    (now later : ℕ) (access : String) (client : ClientInfo) (row : RefreshRow) (r : RefreshToken)
    (scopes : List String) (s : Provider)
    → lookup r.token s.refresh_tokens ≡ some row
    → row.client_id ≡ client.client_id
    → later ≤ int_seconds (now + refresh_token_ttl)
    → (load_refresh_token true later client r.token
        (exchange_refresh_token true now access client r scopes s).0).1
      ≡ some (record {
        token = r.token;
        client_id = row.client_id;
        scopes = row.scopes;
        expires_at = some (int_seconds (now + refresh_token_ttl));
        api_key = row.api_key;
      })
unfolding exchange_refresh_token load_refresh_token
exchange_refresh-slides now later access client row r scopes s stored own fresh =
    rw (stored, lookup-insert, eq_refl r.token, own, eq_refl client.client_id) (ground arith)

-- A revoked refresh token is neither a refresh token nor an access token for anybody, if the
-- database answered.
pub revoke-refresh :
    (later : ℕ) (client : ClientInfo) (token : String) (s : Provider)
    → ((load_refresh_token true later client token (revoke_token true true token s)).1 ≡ none)
      × ((load_access_token later token (revoke_token true true token s)).1 ≡ none)
unfolding revoke_token load_refresh_token load_access_token
revoke-refresh later client token s =
    (rw (lookup-erase, eq_refl token), rw (lookup-erase, eq_refl token))

-- What the combined verifier can rest on: the text itself is a valid API key, or it is a live
-- access token whose own API key is valid now.
abbrev pub LiveToken : (String → Option Access) → ℕ → Option AccessToken → Type 0
LiveToken verify now none = ⊥
LiveToken verify now (some t) =
    (expired now t.expires_at ≡ false) × (is_some (verify t.api_key) ≡ true)

-- The combined verifier accepts a token exactly if it is a valid API key, or a live access token
-- whose API key is still valid: a deactivated key shuts out all of its tokens at once.
pub verify_token_iff :
    (verify : String → Option Access) (now : ℕ) (token : String) (s : Provider)
    → (is_some (verify_token verify now token s).1 ≡ true)
      ↔ ((is_some (verify token) ≡ true) ⊎ LiveToken verify now (lookup token s.access_tokens))
unfolding verify_token
verify_token_iff verify now token s = elim (Option-cases (verify token)) [
  | inr (a, e) ↦ rw e (ground arith)
  | inl e ↦ elim (Option-cases (lookup token s.access_tokens)) [
    | inl f ↦ rw (e, f) (ground arith)
    | inr (t, f) ↦ rw (e, f) (ground arith)
  ]
]
