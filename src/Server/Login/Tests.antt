-- ===== src/Server/Login/Tests.antt =====
-- A login and a request behind it, and the theorems at these inputs.
use etunl_cli.Base.{
  All, ◌+◌, ◌≡◌, ◌≢◌, ◌↔◌, refl, none, some, [], ◌∷◌, ◌++◌, arith, true, leb, if◌then◌else◌,
}
use etunl_cli.Base.Bytes.{Bytes, IsByte, Lacks, codes, bytes_eq}
use etunl_cli.Base.Int.{pos}
use etunl_cli.Tunnel.Auth.{RouteInfo, lookup_user}
use etunl_cli.Server.Session.{verify_session, session_ttl, safe_redirect_url_value}
use etunl_cli.Server.Session.Hex.{hex, decode-encode, encode-Lacks, mac-bytes}
use etunl_cli.Server.Http.{Request}
use etunl_cli.Server.Login.{
  answered, forward, see_other, session_cookie, session_cookie_of, cookie_value, login_path,
  login_target, logout_path, strip_session_cookie, handle_login, handle_session_auth,
}
use etunl_cli.Server.Login.Access.{handle_login_iff}
use etunl_cli.Server.Login.Forwarding.{
  handle_session_auth_iff, handle_session_auth-session_cookie_of,
}

abbrev ann : Bytes
ann = codes "ann"

ann_bytes : All IsByte ann
ann_bytes = (omega arith, (omega arith, (omega arith, tt)))

ann_plain : Lacks b'|' ann
ann_plain = ((λ e. omega arith), ((λ e. omega arith), ((λ e. omega arith), tt)))

abbrev key : Bytes
key = codes "k"

abbrev route : RouteInfo
route = record {
  name = codes "app";
  type = codes "http";
  local_port = pos 0;
  auth = some (record {
    bearer = [];
    header = [];
    value = [];
    users = record { user = ann; password = codes "pw" } ∷ [];
  });
}

abbrev form : Bytes → Bytes
form n = if bytes_eq n (codes "user") then ann else codes "pw"

abbrev posting : Request
posting = record {
  method = codes "POST";
  host = codes "h";
  path = login_path;
  request_uri = login_path;
  query_redirect = codes "/x";
  cookies = [];
  form = some form;
  header = λ n. [];
  connection = [];
  basic_auth = none;
  body = some [];
  tls = true;
}

abbrev browsing : Request
browsing = record {
  method = codes "GET";
  host = codes "h";
  path = codes "/x";
  request_uri = codes "/x";
  query_redirect = [];
  form = none;
  header = λ n. [];
  connection = [];
  basic_auth = none;
  body = some [];
  tls = true;
  cookies =
      record { name = session_cookie; value = (session_cookie_of hex posting ann key 1000).value }
      ∷ record { name = codes "lang"; value = codes "en" }
      ∷ [];
}

handle_login_iff_example :
    ((handle_login hex posting route key 1000).set_cookie
      ≡ some (session_cookie_of hex posting ann key 1000))
    ↔ ((value : Bytes → Bytes) × (codes "POST" ≡ codes "POST")
        × (some form ≡ some value)
        × (lookup_user route.auth (value (codes "user")) ≢ [])
        × (value (codes "password") ≡ lookup_user route.auth (value (codes "user")))
        × (session_cookie_of hex posting ann key 1000
            ≡ session_cookie_of hex posting (value (codes "user")) key 1000))
handle_login_iff_example =
    handle_login_iff hex posting route key 1000 (session_cookie_of hex posting ann key 1000)

handle_session_auth_iff_example :
    ((handle_session_auth hex browsing route key 1001
        ≡ forward (strip_session_cookie browsing.cookies))
      ↔ ((value : Bytes) × (codes "/x" ≢ login_path)
          × (codes "/x" ≢ logout_path)
          × (cookie_value session_cookie browsing.cookies ≡ some value)
          × (verify_session hex value key 1001 ≢ [])
          × (strip_session_cookie browsing.cookies ≡ strip_session_cookie browsing.cookies)))
    × (cookie_value session_cookie (strip_session_cookie browsing.cookies) ≡ none)
    × ((n : Bytes)
        → n ≢ session_cookie
        → cookie_value n (strip_session_cookie browsing.cookies) ≡ cookie_value n browsing.cookies)
handle_session_auth_iff_example =
    handle_session_auth_iff hex browsing route key 1001 (strip_session_cookie browsing.cookies)

carried :
    cookie_value session_cookie browsing.cookies
    ≡ some ((session_cookie_of hex posting ann key 1000).value)
unfolding cookie_value bytes_eq
carried = refl

handle_session_auth-session_cookie_of_example : handle_session_auth hex browsing route key 1001 ≡ (
    if leb (1000 + session_ttl) 1001
    then answered (see_other (login_target ++ safe_redirect_url_value (codes "/x")) none)
    else forward (strip_session_cookie browsing.cookies))
handle_session_auth-session_cookie_of_example =
    handle_session_auth-session_cookie_of hex posting browsing route ann key 1000 1001 decode-encode
      encode-Lacks mac-bytes ann_bytes ann_plain (λ e. cc) (omega arith) (λ e. cc) (λ e. cc) carried
