-- ===== src/OAuth/Steps.antt =====
-- Every run of the provider in mcp-server/oauth_provider.py, as a relation on its states.
use powerbrain.Base.{
  ℕ, ◌≡◌, String, ltb, not, truthy, Bool, true, false, Option, some, List, arith, Bool-cases,
  Option-cases, inl, inr,
}
use powerbrain.Base.Dict.{Values, Values-insert, Values-erase, Values-retain, Values-lookup, lookup}
use powerbrain.Base.Text.{strip}
use powerbrain.OAuth.{
  Provider, ClientInfo, AuthorizationParams, AuthorizationCode, AccessToken, RefreshToken,
  RefreshRow, Access, cleanup, register_client, authorize, handle_login_callback,
  load_authorization_code, exchange_authorization_code, load_refresh_token, exchange_refresh_token,
  revoke_token, store_refresh_token, upsert_refresh, granted, OAuthToken, unexpired, expired,
  int_seconds, verify_token,
}

-- One call of the provider. The framework exchanges a code or a refresh token that the provider
-- has just loaded for the same client. `Accepted` holds of the keys that the verifier accepts.
pub data Step (Accepted : String → Type 0) (s : Provider) : Provider → Type 0 where
  clean : (db : Bool) (now : ℕ) → Step Accepted s (cleanup db now s)
  register :
      (info : ClientInfo) {t : Provider} → register_client true info s ≡ some t → Step Accepted s t
  begin :
      (session : String) (now : ℕ) (client : ClientInfo) (params : AuthorizationParams)
      → Step Accepted s (authorize session now client params s).0
  login :
      (verify : String → Option Access) (code : String) (now : ℕ) (session key : String)
      → ((k : String) (a : Access) → verify k ≡ some a → Accepted k)
      → Step Accepted s (handle_login_callback verify code now session key s).0
  exchange :
      (db : Bool) (now : ℕ) (access fresh code : String) (client : ClientInfo)
      (c : AuthorizationCode)
      → (load_authorization_code now client code s).1 ≡ some c
      → Step Accepted s (exchange_authorization_code db now access fresh client c s).0
  refresh :
      (db : Bool) (now : ℕ) (access token : String) (client : ClientInfo) (r : RefreshToken)
      (scopes : List String)
      → (load_refresh_token true now client token s).1 ≡ some r
      → Step Accepted s (exchange_refresh_token db now access client r scopes s).0
  drop_code :
      (now : ℕ) (client : ClientInfo) (code : String)
      → Step Accepted s (load_authorization_code now client code s).0
  drop_refresh :
      (db : Bool) (now : ℕ) (client : ClientInfo) (token : String)
      → Step Accepted s (load_refresh_token db now client token s).0
  check :
      (verify : String → Option Access) (now : ℕ) (token : String)
      → Step Accepted s (verify_token verify now token s).0
  revoke :
      (db is_refresh : Bool) (token : String) → Step Accepted s (revoke_token db is_refresh token s)

pub data Reach (Accepted : String → Type 0) (s : Provider) : Provider → Type 0 where
  here : Reach Accepted s s
  next : {t u : Provider} → Reach Accepted s t → Step Accepted t u → Reach Accepted s u

-- Every credential that the provider holds stands for an accepted key.
pub record IsVouched (Accepted : String → Type 0) (s : Provider) : Type 0 where
  pub codes : Values (λ (c : AuthorizationCode). Accepted c.api_key) s.auth_codes
  pub access : Values (λ (t : AccessToken). Accepted t.api_key) s.access_tokens
  pub refresh : Values (λ (r : RefreshRow). Accepted r.api_key) s.refresh_tokens

abbrev CodeOk : (String → Type 0) → AuthorizationCode → Type 0
CodeOk A c = A c.api_key

abbrev AccessOk : (String → Type 0) → AccessToken → Type 0
AccessOk A t = A t.api_key

abbrev RefreshOk : (String → Type 0) → RefreshRow → Type 0
RefreshOk A r = A r.api_key

module _ (Accepted : String → Type 0) where
  clean-IsVouched :
      (db : Bool) (now : ℕ) (s : Provider)
      → IsVouched Accepted s
      → IsVouched Accepted (cleanup db now s)
  unfolding cleanup
  clean-IsVouched db now s v = record {
    codes = Values-retain (CodeOk Accepted) (λ c. ltb now c.expires_at) s.auth_codes v.codes;
    access =
        Values-retain (AccessOk Accepted) (λ t. unexpired now t.expires_at) s.access_tokens
          v.access;
    refresh = elim (Bool-cases db) [
      | inl e ↦ rw e (
          Values-retain (RefreshOk Accepted) (λ r. not (expired (int_seconds now) r.expires_at))
            s.refresh_tokens v.refresh)
      | inr e ↦ rw e v.refresh
    ];
  }

  register-tables :
      (info : ClientInfo) (s : Provider) {t : Provider}
      → register_client true info s ≡ some t
      → (t.auth_codes ≡ s.auth_codes)
        × (t.access_tokens ≡ s.access_tokens)
        × (t.refresh_tokens ≡ s.refresh_tokens)
  unfolding register_client
  register-tables info s e = ground arith

  -- The session's pending login does not matter: only an accepted key gets a code.
  login-IsVouched :
      (verify : String → Option Access) (code : String) (now : ℕ) (session key : String)
      (s : Provider)
      → ((k : String) (a : Access) → verify k ≡ some a → Accepted k)
      → IsVouched Accepted s
      → IsVouched Accepted (handle_login_callback verify code now session key s).0
  unfolding handle_login_callback
  login-IsVouched verify code now session key s h v =
      elim (Option-cases (lookup session s.pending_logins)) [
        | inl e ↦ rw e v
        | inr (p, e) ↦ elim (Bool-cases (truthy (strip key))) [
          | inr f ↦ rw (e, f) v
          | inl f ↦ elim (Option-cases (verify (strip key))) [
            | inl g ↦ rw (e, f, g) v
            | inr (a, g) ↦
                rw (e, f, g)
                  (record {
                    codes =
                        Values-insert (CodeOk Accepted) code _ s.auth_codes (h (strip key) a g)
                          v.codes;
                    access = v.access;
                    refresh = v.refresh;
                  })
          ]
        ]
      ]

  store-IsVouched :
      (db : Bool) (token : String) (row : RefreshRow) (s : Provider)
      → Accepted row.api_key
      → IsVouched Accepted s
      → IsVouched Accepted (store_refresh_token db token row s).0
  unfolding store_refresh_token
  store-IsVouched false token row s h v = v
  store-IsVouched true token row s h v = record {
    codes = v.codes;
    access = v.access;
    refresh =
        Values-insert (RefreshOk Accepted) token
          (upsert_refresh row (lookup token s.refresh_tokens)) s.refresh_tokens
          (elim (Option-cases (lookup token s.refresh_tokens)) [
            | inl e ↦ rw e h
            | inr (old, e) ↦
                rw e (Values-lookup (RefreshOk Accepted) token s.refresh_tokens v.refresh e)
          ])
          v.refresh;
  }

  granted-IsVouched :
      (t : OAuthToken) (p : Provider × Bool)
      → IsVouched Accepted p.0
      → IsVouched Accepted (granted t p).0
  granted-IsVouched t (s, true) v = v
  granted-IsVouched t (s, false) v = v

  exchange-IsVouched :
      (db : Bool) (now : ℕ) (access refresh_text : String) (client : ClientInfo)
      (c : AuthorizationCode) (s : Provider)
      → Accepted c.api_key
      → IsVouched Accepted s
      → IsVouched Accepted (exchange_authorization_code db now access refresh_text client c s).0
  unfolding exchange_authorization_code
  exchange-IsVouched db now access refresh_text client c s h v = granted-IsVouched _ _ (
      store-IsVouched db refresh_text _ _ h (record {
        codes = Values-erase (CodeOk Accepted) c.code s.auth_codes v.codes;
        access = Values-insert (AccessOk Accepted) access _ s.access_tokens h v.access;
        refresh = v.refresh;
      }))

  refresh-IsVouched :
      (db : Bool) (now : ℕ) (access : String) (client : ClientInfo) (r : RefreshToken)
      (scopes : List String) (s : Provider)
      → Accepted r.api_key
      → IsVouched Accepted s
      → IsVouched Accepted (exchange_refresh_token db now access client r scopes s).0
  unfolding exchange_refresh_token
  refresh-IsVouched db now access client r scopes s h v = granted-IsVouched _ _ (
      store-IsVouched db r.token _ _ h (record {
        codes = v.codes;
        access = Values-insert (AccessOk Accepted) access _ s.access_tokens h v.access;
        refresh = v.refresh;
      }))

  -- What is loaded stands in the table.
  loaded_code :
      (now : ℕ) (client : ClientInfo) (code : String) (s : Provider) {c : AuthorizationCode}
      → IsVouched Accepted s
      → (load_authorization_code now client code s).1 ≡ some c
      → Accepted c.api_key
  unfolding load_authorization_code
  loaded_code now client code s v e = elim (Option-cases (lookup code s.auth_codes)) [
    | inl f ↦ absurd (ground arith)
    | inr (d, f) ↦
        let k = Values-lookup (CodeOk Accepted) code s.auth_codes v.codes f in ground arith
  ]

  loaded_refresh :
      (now : ℕ) (client : ClientInfo) (token : String) (s : Provider) {r : RefreshToken}
      → IsVouched Accepted s
      → (load_refresh_token true now client token s).1 ≡ some r
      → Accepted r.api_key
  unfolding load_refresh_token
  loaded_refresh now client token s v e = elim (Option-cases (lookup token s.refresh_tokens)) [
    | inl f ↦ absurd (ground arith)
    | inr (d, f) ↦
        let k = Values-lookup (RefreshOk Accepted) token s.refresh_tokens v.refresh f in
        ground arith
  ]

  drop_code-IsVouched :
      (now : ℕ) (client : ClientInfo) (code : String) (s : Provider)
      → IsVouched Accepted s
      → IsVouched Accepted (load_authorization_code now client code s).0
  unfolding load_authorization_code
  drop_code-IsVouched now client code s v = elim (Option-cases (lookup code s.auth_codes)) [
    | inl f ↦ rw f v
    | inr (d, f) ↦ let k = Values-erase (CodeOk Accepted) code s.auth_codes v.codes in ground arith
  ]

  drop_refresh-IsVouched :
      (db : Bool) (now : ℕ) (client : ClientInfo) (token : String) (s : Provider)
      → IsVouched Accepted s
      → IsVouched Accepted (load_refresh_token db now client token s).0
  unfolding load_refresh_token
  drop_refresh-IsVouched false now client token s v = v
  drop_refresh-IsVouched true now client token s v =
      elim (Option-cases (lookup token s.refresh_tokens)) [
        | inl f ↦ rw f v
        | inr (d, f) ↦
            let k = Values-erase (RefreshOk Accepted) token s.refresh_tokens v.refresh in
            ground arith
      ]

  check-IsVouched :
      (verify : String → Option Access) (now : ℕ) (token : String) (s : Provider)
      → IsVouched Accepted s
      → IsVouched Accepted (verify_token verify now token s).0
  unfolding verify_token
  check-IsVouched verify now token s v =
      let k = Values-erase (AccessOk Accepted) token s.access_tokens v.access in ground arith

  revoke-IsVouched :
      (db is_refresh : Bool) (token : String) (s : Provider)
      → IsVouched Accepted s
      → IsVouched Accepted (revoke_token db is_refresh token s)
  unfolding revoke_token
  revoke-IsVouched db is_refresh token s v =
      let k = Values-erase (AccessOk Accepted) token s.access_tokens v.access in
      let r = Values-erase (RefreshOk Accepted) token s.refresh_tokens v.refresh in ground arith

  Step-IsVouched :
      {s t : Provider} → Step Accepted s t → IsVouched Accepted s → IsVouched Accepted t
  Step-IsVouched {s} (clean db now) v = clean-IsVouched db now s v
  Step-IsVouched {s} (register info e) v =
      let same = register-tables info s e in
      record {
        codes = rw (same.0) v.codes;
        access = rw (same.1) v.access;
        refresh = rw (same.2) v.refresh;
      }
  Step-IsVouched (begin session now client params) v =
      unfold authorize in record { codes = v.codes; access = v.access; refresh = v.refresh }
  Step-IsVouched {s} (login verify code now session key h) v =
      login-IsVouched verify code now session key s h v
  Step-IsVouched {s} (exchange db now access fresh code client c e) v =
      exchange-IsVouched db now access fresh client c s (loaded_code now client code s v e) v
  Step-IsVouched {s} (refresh db now access token client r scopes e) v =
      refresh-IsVouched db now access client r scopes s (loaded_refresh now client token s v e) v
  Step-IsVouched {s} (drop_code now client code) v = drop_code-IsVouched now client code s v
  Step-IsVouched {s} (drop_refresh db now client token) v =
      drop_refresh-IsVouched db now client token s v
  Step-IsVouched {s} (check verify now token) v = check-IsVouched verify now token s v
  Step-IsVouched {s} (revoke db is_refresh token) v = revoke-IsVouched db is_refresh token s v

  -- In every state that the calls can lead to, each code, access token and refresh token stands
  -- for an API key that a verifier has accepted, if that holds at the start.
  pub Reach-IsVouched :
      {s t : Provider} → Reach Accepted s t → IsVouched Accepted s → IsVouched Accepted t
  Reach-IsVouched here v = v
  Reach-IsVouched (next r st) v = Step-IsVouched st (Reach-IsVouched r v)
