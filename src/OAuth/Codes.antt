-- ===== src/OAuth/Codes.antt =====
-- The login form and the authorization codes of mcp-server/oauth_provider.py.
use powerbrain.Base.{
  ℕ, ◌+◌, ◌≤◌, ◌≡◌, refl, ◌↔◌, String, Bool, true, false, Option, none, some, arith, Bool-cases,
  Option-cases, inl, inr, truthy, eq_iff, eq_refl, get_or, is_some, [],
}
use powerbrain.Base.Dict.{lookup, erase, lookup-insert, lookup-erase}
use powerbrain.Base.Text.{strip}
use powerbrain.OAuth.{
  Provider, ClientInfo, AuthorizationParams, AuthorizationCode, Access, LoginAnswer, redirect,
  refused, authorize, handle_login_callback, load_authorization_code, exchange_authorization_code,
  granted, OAuthToken, code_ttl,
}

-- A code is handed out to a client exactly if it is stored, was issued to that client, and has
-- not expired.
pub load_authorization_code_iff :
    (now : ℕ) (client : ClientInfo) (code : String) (c : AuthorizationCode) (s : Provider)
    → ((load_authorization_code now client code s).1 ≡ some c) ↔ (
        (lookup code s.auth_codes ≡ some c)
        × (c.client_id ≡ client.client_id)
        × (now ≤ c.expires_at))
unfolding load_authorization_code
load_authorization_code_iff now client code c s = elim (Option-cases (lookup code s.auth_codes)) [
  | inl e ↦ rw e (ground arith)
  | inr (d, e) ↦ rw e (ground (arith, eq_iff d.client_id client.client_id))
]

-- The database's part of an exchange leaves the codes alone.
auth_codes-granted : (t : OAuthToken) (p : Provider × Bool) → (granted t p).0 ≡ p.0
auth_codes-granted t (s, true) = refl
auth_codes-granted t (s, false) = refl

auth_codes-exchange :
    (db : Bool) (now : ℕ) (access refresh : String) (client : ClientInfo) (c : AuthorizationCode)
    (s : Provider)
    → (exchange_authorization_code db now access refresh client c s).0.auth_codes
      ≡ erase c.code s.auth_codes
unfolding exchange_authorization_code
auth_codes-exchange true now access refresh client c s = refl
auth_codes-exchange false now access refresh client c s = refl

-- A code serves once: after its exchange, also one that failed in the database, no client is
-- handed that code at any time.
pub exchange-single_use :
    (db : Bool) (now later : ℕ) (access refresh : String) (client other : ClientInfo)
    (c : AuthorizationCode) (s : Provider)
    → (load_authorization_code later other c.code
        (exchange_authorization_code db now access refresh client c s).0).1
      ≡ none
unfolding load_authorization_code
exchange-single_use db now later access refresh client other c s = rw (
  auth_codes-exchange db now access refresh client c s,
  lookup-erase c.code c.code s.auth_codes,
  eq_refl c.code,
)

-- What the form may do, by its answer.
abbrev pub LoginOutcome :
    (String → Option Access) → String → String → Provider → Provider × LoginAnswer → Type 0
LoginOutcome verify session api_key s (s', refused e) = s' ≡ s
LoginOutcome verify session api_key s (s', redirect uri code state) =
    (is_some (lookup session s.pending_logins) ≡ true)
    × (truthy (strip api_key) ≡ true)
    × (is_some (verify (strip api_key)) ≡ true)
    × (lookup session s'.pending_logins ≡ none)

-- The login form redirects with a code only if the session is pending and the verifier accepts
-- the stripped key, which is not empty, and it ends the session then; when it shows a message it
-- leaves the provider as it was.
pub handle_login_callback-LoginOutcome :
    (verify : String → Option Access) (code : String) (now : ℕ) (session api_key : String)
    (s : Provider)
    → LoginOutcome verify session api_key s
        (handle_login_callback verify code now session api_key s)
unfolding handle_login_callback
handle_login_callback-LoginOutcome verify code now session api_key s =
    elim (Option-cases (lookup session s.pending_logins)) [
      | inl e ↦ rw e refl
      | inr (p, e) ↦ elim (Bool-cases (truthy (strip api_key))) [
        | inl f ↦ elim (Option-cases (verify (strip api_key))) [
          | inl g ↦ rw (e, f, g) refl
          | inr (a, g) ↦
              rw (e, f, g)
                (rw e, f, rw g, rw (lookup-erase session session s.pending_logins, eq_refl session))
        ]
        | inr f ↦ rw (e, f) refl
      ]
    ]

-- The whole login: after `authorize`, the form with a key that the verifier accepts leaves a code
-- which the client that asked for it is handed, until it expires, and which carries that key and
-- the client's own challenge, redirect and resource; the session is gone.
pub login_flow :
    (verify : String → Option Access) (session code : String) (start now later : ℕ)
    (client : ClientInfo) (params : AuthorizationParams) (api_key : String) (a : Access)
    (s : Provider)
    → truthy (strip api_key) ≡ true
    → verify (strip api_key) ≡ some a
    → later ≤ now + code_ttl
    → let s1 = (authorize session start client params s).0 in
      let s2 = (handle_login_callback verify code now session api_key s1).0 in
      ((load_authorization_code later client code s2).1
        ≡ some (record {
          code = code;
          client_id = client.client_id;
          redirect_uri = params.redirect_uri;
          redirect_uri_provided_explicitly = params.redirect_uri_provided_explicitly;
          code_challenge = params.code_challenge;
          scopes = get_or params.scopes [];
          expires_at = now + code_ttl;
          api_key = strip api_key;
          resource = params.resource;
        }))
      × (lookup session s2.pending_logins ≡ none)
unfolding authorize handle_login_callback load_authorization_code
login_flow verify session code start now later client params api_key a s named accepted fresh =
    rw (lookup-insert, eq_refl session, named, accepted)
      (
        rw (lookup-insert, eq_refl code) (rw (eq_refl client.client_id) (ground arith)),
        rw (lookup-erase, eq_refl session),
      )
