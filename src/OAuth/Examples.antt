-- ===== src/OAuth/Examples.antt =====
-- A login, its tokens and their end in mcp-server/oauth_provider.py: runs, and the theorems at
-- concrete inputs.
use powerbrain.Base.{
  ◌≤◌, ◌≡◌, ◌↔◌, ◌⊎◌, refl, String, true, Option, none, some, [], ◌∷◌, arith, str_eq, if◌then◌else◌,
  is_some,
}
use powerbrain.Base.Dict.{lookup, insert, erase}
use powerbrain.Base.Text.{strip}
use powerbrain.OAuth.{
  Provider, ClientInfo, AuthorizationParams, AuthorizationCode, RefreshToken, RefreshRow, Access,
  authorize, handle_login_callback, load_authorization_code, exchange_authorization_code,
  load_access_token, load_refresh_token, verify_token, cleanup,
}
use powerbrain.OAuth.Steps.{Step, Reach, IsVouched, Reach-IsVouched}
use powerbrain.OAuth.Codes.{load_authorization_code_iff, exchange-single_use, login_flow}
use powerbrain.OAuth.Tokens.{LiveToken, verify_token_iff}
use powerbrain.OAuth.Cleanup.{IsTidy, cleanup_unseen}

abbrev init : Provider
init = record {
  pending_logins = [];
  auth_codes = [];
  access_tokens = [];
  clients = [];
  refresh_tokens = [];
}

abbrev desktop : ClientInfo
desktop = record {
  client_id = "desktop";
  client_secret = none;
  client_name = none;
  redirect_uris = [];
}

abbrev params : AuthorizationParams
params = record {
  state = some "xyz";
  scopes = none;
  code_challenge = "challenge";
  redirect_uri = "http://localhost/cb";
  redirect_uri_provided_explicitly = true;
  resource = none;
}

-- A verifier that knows one key.
abbrev knows : String → Option Access
knows k =
    if str_eq k "pb_1"
    then some
        (record { token = k; client_id = "alice"; scopes = "analyst" ∷ []; expires_at = none })
    else none

abbrev code1 : AuthorizationCode
code1 = record {
  code = "c1";
  client_id = "desktop";
  redirect_uri = "http://localhost/cb";
  redirect_uri_provided_explicitly = true;
  code_challenge = "challenge";
  scopes = [];
  expires_at = 300000005;
  api_key = "pb_1";
  resource = none;
}

abbrev coded : Provider
coded = record init { auth_codes = ("c1", code1) ∷ [] }

-- The key is stripped, and the form leaves just the code.
form_run :
    (handle_login_callback knows "c1" 5 "s1" " pb_1 " (authorize "s1" 0 desktop params init).0).0
    ≡ coded
unfolding handle_login_callback authorize lookup insert erase strip
form_run = refl

login_flow_example :
    let s1 = (authorize "s1" 0 desktop params init).0 in
    let s2 = (handle_login_callback knows "c1" 5 "s1" "pb_1" s1).0 in
    ((load_authorization_code 9 desktop "c1" s2).1 ≡ some (record code1 { api_key = strip "pb_1" }))
    × (lookup "s1" s2.pending_logins ≡ none)
unfolding strip
login_flow_example =
    login_flow knows "s1" "c1" 0 5 9 desktop params "pb_1"
      (record { token = "pb_1"; client_id = "alice"; scopes = "analyst" ∷ []; expires_at = none })
      init refl refl (omega arith)

load_authorization_code_iff_example :
    ((load_authorization_code 9 desktop "c1" coded).1 ≡ some code1) ↔ (
      (lookup "c1" coded.auth_codes ≡ some code1)
      × (code1.client_id ≡ desktop.client_id)
      × (9 ≤ code1.expires_at))
load_authorization_code_iff_example = load_authorization_code_iff 9 desktop "c1" code1 coded

exchange-single_use_example :
    (load_authorization_code 11 desktop "c1"
      (exchange_authorization_code true 10 "a1" "r1" desktop code1 coded).0).1
    ≡ none
exchange-single_use_example = exchange-single_use true 10 11 "a1" "r1" desktop desktop code1 coded

abbrev row1 : RefreshRow
row1 = record {
  client_id = "desktop";
  api_key = "pb_1";
  scopes = [];
  expires_at = some 604800000000;
}

abbrev refreshable : Provider
refreshable = record init { refresh_tokens = ("r1", row1) ∷ [] }

abbrev refresh1 : RefreshToken
refresh1 = record {
  token = "r1";
  client_id = "desktop";
  scopes = [];
  expires_at = some 604800000000;
  api_key = "pb_1";
}

abbrev holding : Provider
holding = (exchange_authorization_code true 10 "a1" "r1" desktop code1 coded).0

verify_token_iff_example :
    (is_some (verify_token knows 20 "a1" holding).1 ≡ true)
    ↔ ((is_some (knows "a1") ≡ true) ⊎ LiveToken knows 20 (lookup "a1" holding.access_tokens))
verify_token_iff_example = verify_token_iff knows 20 "a1" holding

coded-IsTidy : IsTidy coded
unfolding lookup
coded-IsTidy = record {
  pending_logins = tt;
  auth_codes = (refl, tt);
  access_tokens = tt;
  refresh_tokens = tt;
}

cleanup_unseen_example :
    ((load_authorization_code 400000000 desktop "c1" (cleanup true 350000000 coded)).1
      ≡ (load_authorization_code 400000000 desktop "c1" coded).1)
    × ((load_access_token 400000000 "c1" (cleanup true 350000000 coded)).1
        ≡ (load_access_token 400000000 "c1" coded).1)
    × ((load_refresh_token true 400000000 desktop "c1" (cleanup true 350000000 coded)).1
        ≡ (load_refresh_token true 400000000 desktop "c1" coded).1)
cleanup_unseen_example =
    cleanup_unseen true 350000000 400000000 desktop "c1" coded coded-IsTidy (omega arith)

abbrev OnlyOne : String → Type 0
OnlyOne k = str_eq k "pb_1" ≡ true

knows-OnlyOne : (k : String) (a : Access) → knows k ≡ some a → OnlyOne k
knows-OnlyOne k a e = ground arith

login_run :
    Reach OnlyOne init
      (handle_login_callback knows "c1" 5 "s1" "pb_1" (authorize "s1" 0 desktop params init).0).0
login_run =
    Reach.next (Reach.next Reach.here (Step.begin "s1" 0 desktop params))
      (Step.login knows "c1" 5 "s1" "pb_1" knows-OnlyOne)

init-IsVouched : IsVouched OnlyOne init
init-IsVouched = record { codes = tt; access = tt; refresh = tt }

Reach-IsVouched_example :
    IsVouched OnlyOne
      (handle_login_callback knows "c1" 5 "s1" "pb_1" (authorize "s1" 0 desktop params init).0).0
Reach-IsVouched_example = Reach-IsVouched OnlyOne login_run init-IsVouched
