-- ===== src/OAuth/Cleanup.antt =====
-- `_cleanup` of mcp-server/oauth_provider.py: what it drops was no longer handed out.
use powerbrain.Base.{
  ℕ, ◌+◌, ◌<◌, ◌≡◌, String, Bool, true, not, arith, Bool-cases, Option-cases, inl, inr, ltb,
}
use powerbrain.Base.Dict.{lookup}
use powerbrain.Base.Unique.{Unique, lookup-retain, Unique-retain}
use powerbrain.OAuth.{
  Provider, ClientInfo, RefreshRow, cleanup, load_access_token, load_authorization_code,
  load_refresh_token, expired, unexpired, int_seconds, pending_login_ttl,
}

-- No key stands twice in a table of the provider.
pub record IsTidy (s : Provider) : Type 0 where
  pub pending_logins : Unique s.pending_logins
  pub auth_codes : Unique s.auth_codes
  pub access_tokens : Unique s.access_tokens
  pub refresh_tokens : Unique s.refresh_tokens

cleanup-IsTidy : (db : Bool) (now : ℕ) (s : Provider) → IsTidy s → IsTidy (cleanup db now s)
unfolding cleanup
cleanup-IsTidy db now s t = record {
  pending_logins =
      Unique-retain (λ p. ltb now (p.created_at + pending_login_ttl)) s.pending_logins
        t.pending_logins;
  auth_codes = Unique-retain (λ c. ltb now c.expires_at) s.auth_codes t.auth_codes;
  access_tokens = Unique-retain (λ a. unexpired now a.expires_at) s.access_tokens t.access_tokens;
  refresh_tokens = ground (
    arith,
    Unique-retain (λ (r : RefreshRow). not (expired (int_seconds now) r.expires_at))
        s.refresh_tokens,
  );
}

module _ (db : Bool) (now later : ℕ) (client : ClientInfo) (k : String) (s : Provider) where
  codes_unseen :
      Unique s.auth_codes
      → now < later
      → (load_authorization_code later client k (cleanup db now s)).1
        ≡ (load_authorization_code later client k s).1
  unfolding cleanup load_authorization_code
  codes_unseen u h =
      rw (lookup-retain (λ c. ltb now c.expires_at) k s.auth_codes u)
        (elim (Option-cases (lookup k s.auth_codes)) [
          | inl e ↦ rw e
          | inr (c, e) ↦ rw e (ground arith)
        ])

  access_unseen :
      Unique s.access_tokens
      → now < later
      → (load_access_token later k (cleanup db now s)).1 ≡ (load_access_token later k s).1
  unfolding cleanup load_access_token
  access_unseen u h =
      rw (lookup-retain (λ t. unexpired now t.expires_at) k s.access_tokens u)
        (elim (Option-cases (lookup k s.access_tokens)) [
          | inl e ↦ rw e
          | inr (c, e) ↦ rw e (ground arith)
        ])

  refresh_unseen :
      Unique s.refresh_tokens
      → now < later
      → (load_refresh_token true later client k (cleanup db now s)).1
        ≡ (load_refresh_token true later client k s).1
  unfolding cleanup load_refresh_token
  refresh_unseen u h = elim (Bool-cases db) [
    | inr f ↦ rw f (elim (Option-cases (lookup k s.refresh_tokens)) [
      | inl e ↦ rw e
      | inr (c, e) ↦ rw e (ground arith)
    ])
    | inl f ↦
        rw
          (
            f,
            lookup-retain (λ (r : RefreshRow). not (expired (int_seconds now) r.expires_at)) k
                s.refresh_tokens u,
          )
          (elim (Option-cases (lookup k s.refresh_tokens)) [
            | inl e ↦ rw e
            | inr (c, e) ↦ rw e (ground arith)
          ])
  ]

-- A cleanup changes no answer that is asked for later: codes, access tokens and refresh tokens
-- load after it as they would have loaded without it.
pub cleanup_unseen :
    (db : Bool) (now later : ℕ) (client : ClientInfo) (k : String) (s : Provider)
    → IsTidy s
    → now < later
    → ((load_authorization_code later client k (cleanup db now s)).1
        ≡ (load_authorization_code later client k s).1)
      × ((load_access_token later k (cleanup db now s)).1 ≡ (load_access_token later k s).1)
      × ((load_refresh_token true later client k (cleanup db now s)).1
          ≡ (load_refresh_token true later client k s).1)
cleanup_unseen db now later client k s t h = (
  codes_unseen db now later client k s t.auth_codes h,
  access_unseen db now later client k s t.access_tokens h,
  refresh_unseen db now later client k s t.refresh_tokens h,
)
