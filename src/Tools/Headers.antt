-- ===== src/Tools/Headers.antt =====
-- What `_mcp_headers` of pb-proxy/tool_injection.py sends to a server.
use powerbrain.Base.{
  ◌≡◌, refl, ◌∙◌, String, false, ◌||◌, Option, none, some, List, [], ◌∷◌, arith, eq_iff, str_eq,
  truthy, contains, Bool-cases, inl, inr,
}
use powerbrain.Base.Dict.{Dict, lookup, lookup-insert}
use powerbrain.Base.Text.{lower}
use powerbrain.Tools.{
  Server, put_value, forward, auth_headers, mcp_headers, bearer, static_token, user_or,
}

-- The headers that a server with another mode of authorization than "bearer" gets do not depend on
-- the token of the user.
pub mcp_headers-private :
    (getenv : String → String) (mcp_auth_token : String) (server : Server) (t u : Option String)
    (client : Dict String)
    → str_eq server.auth "bearer" ≡ false
    → mcp_headers getenv mcp_auth_token server t client
      ≡ mcp_headers getenv mcp_auth_token server u client
unfolding mcp_headers auth_headers
mcp_headers-private getenv mcp_auth_token server t u client h = rw h refl

lookup-put_value :
    (k x : String) (v : Option String) (d : Dict String)
    → str_eq k x ≡ false
    → lookup k (put_value x v d) ≡ lookup k d
lookup-put_value k x none d h = refl
lookup-put_value k x (some v) d h = elim (Bool-cases (truthy v)) [
  | inl y ↦ rw (put_value, y, lookup-insert x k v d) (ground (arith, eq_iff k x, eq_iff x k))
  | inr y ↦ rw (put_value, y) refl
]

lookup-bearer :
    (k token : String) → str_eq "Authorization" k ≡ false → lookup k (bearer token) ≡ none
unfolding lookup
lookup-bearer k token a = ground arith

lookup-static_token :
    (k : String) (getenv : String → String) (v : Option String)
    → str_eq "Authorization" k ≡ false
    → lookup k (static_token getenv v) ≡ none
unfolding lookup
lookup-static_token k getenv none a = refl
lookup-static_token k getenv (some v) a = ground (arith, lookup-bearer k (getenv v) a)

lookup-auth_headers :
    (getenv : String → String) (mcp_auth_token : String) (server : Server) (t : Option String)
    (k : String)
    → str_eq "Authorization" k ≡ false
    → lookup k (auth_headers getenv mcp_auth_token server t) ≡ none
unfolding lookup auth_headers
lookup-auth_headers getenv mcp_auth_token server t k a = ground (
  arith,
  lookup-bearer k (user_or t mcp_auth_token) a,
  lookup-static_token k getenv server.auth_token_env a,
)

lookup-forward :
    (k : String) (hs : List String) (client d : Dict String)
    → contains k hs ≡ false
    → lookup k (forward hs client d) ≡ lookup k d
unfolding forward
lookup-forward k [] client d h = refl
lookup-forward k (x ∷ xs) client d h =
    let apart : (str_eq x k || contains k xs) ≡ false = h in
    lookup-forward k xs client (put_value x (lookup (lower x) client) d) (ground arith)
    ∙ lookup-put_value k x (lookup (lower x) client) d (ground (arith, eq_iff k x, eq_iff x k))

-- A header that is sent is the authorization or one that the server's configuration names.
pub mcp_headers-Configured :
    (getenv : String → String) (mcp_auth_token : String) (server : Server) (t : Option String)
    (client : Dict String) (k : String)
    → str_eq "Authorization" k ≡ false
    → contains k server.forward_headers ≡ false
    → lookup k (mcp_headers getenv mcp_auth_token server t client) ≡ none
unfolding mcp_headers
mcp_headers-Configured getenv mcp_auth_token server t client k a h =
    lookup-forward k server.forward_headers client (auth_headers getenv mcp_auth_token server t) h
    ∙ lookup-auth_headers getenv mcp_auth_token server t k a
