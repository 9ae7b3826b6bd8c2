-- ===== src/Server/Login.antt =====
-- internal/server/session_auth.go: the login form and the check of the session.
pub mod Access
pub mod Forwarding
mod Tests
use etunl_cli.Base.{
  ℕ, ◌+◌, Bool, true, false, not, ◌&&◌, ◌||◌, Option, none, some, List, [], ◌∷◌, ◌++◌, ◌=?◌,
  if◌then◌else◌,
}
use etunl_cli.Base.Bytes.{Bytes, codes, bytes_is_eq, is_empty}
use etunl_cli.Tunnel.Auth.{RouteInfo, lookup_user}
use etunl_cli.Server.Http.{Cookie, Request, SetCookie, Response, http_error, no_body, page}
use etunl_cli.Server.LoginPage.{login_page}
use etunl_cli.Server.Session.{
  Crypto, session_ttl, sign_session, verify_session, safe_redirect, safe_redirect_url_value,
}

abbrev pub login_path : Bytes
login_path = codes "/___login___"

abbrev pub logout_path : Bytes
logout_path = codes "/___logout___"

abbrev pub session_cookie : Bytes
session_cookie = codes "etunl_session"

-- `setSessionCookie`
pub session_cookie_of : Crypto → Request → Bytes → Bytes → ℕ → SetCookie
session_cookie_of c r user secret now = record {
  value = sign_session c user (now + session_ttl) secret;
  expires = some (now + session_ttl);
  secure = r.tls;
}

-- `clearSessionCookie`
pub cleared_cookie : Request → SetCookie
cleared_cookie r = record { value = []; expires = none; secure = r.tls }

-- `stripSessionCookie`
pub strip_session_cookie : List Cookie → List Cookie
strip_session_cookie [] = []
strip_session_cookie (k ∷ ks) =
    let rest = strip_session_cookie ks in if k.name =? session_cookie then rest else k ∷ rest

-- `r.Cookie(name)`: the first cookie of that name.
pub cookie_value : Bytes → List Cookie → Option Bytes
cookie_value n [] = none
cookie_value n (k ∷ ks) =
    let later = cookie_value n ks in if k.name =? n then some k.value else later

abbrev pub login_target : Bytes
login_target = login_path ++ codes "?redirect="

-- `renderLoginPage`
pub render_login_page : Bytes → Bytes → Bytes → Response
render_login_page host redirect err_msg = record {
  status = 200;
  location = none;
  set_cookie = none;
  www_authenticate = none;
  body = page (login_page host (login_target ++ safe_redirect_url_value redirect) err_msg);
}

-- `http.Redirect(w, r, target, http.StatusSeeOther)`
abbrev pub see_other : Bytes → Option SetCookie → Response
see_other target cookie = record {
  status = 303;
  location = some target;
  set_cookie = cookie;
  www_authenticate = none;
  body = no_body;
}

-- handleLogin behind the reading of the form.
pub log_in : Crypto → Request → RouteInfo → Bytes → ℕ → Bytes → Bytes → Response
unfolding session_cookie_of render_login_page
log_in c r route secret now user pass =
    let want = lookup_user route.auth user in
    if is_empty want || not (pass =? want)
    then render_login_page r.host (safe_redirect r.query_redirect)
        (codes "Invalid username or password")
    else see_other (safe_redirect r.query_redirect) (some (session_cookie_of c r user secret now))

-- `handleLogin`
pub handle_login : Crypto → Request → RouteInfo → Bytes → ℕ → Response
unfolding log_in
handle_login c r route secret now =
    if r.method =? codes "GET"
    then render_login_page r.host (safe_redirect r.query_redirect) []
    else if not (r.method =? codes "POST")
    then http_error 405 (codes "method not allowed")
    else elim r.form [
      | none ↦
          render_login_page r.host (safe_redirect r.query_redirect)
            (codes "Invalid form submission")
      | some value ↦ log_in c r route secret now (value (codes "user")) (value (codes "password"))
    ]

-- handleSessionAuth's two results: an answer is written, or the request goes on to the machine with
-- these cookies.
pub data Verdict : Type 0 where
  answered : Response → Verdict
  forward : List Cookie → Verdict

-- The user of the session cookie, empty without a valid one.
pub session_user : Crypto → Option Bytes → Bytes → ℕ → Bytes
session_user c none secret now = []
session_user c (some value) secret now = verify_session c value secret now

-- `handleSessionAuth`
pub handle_session_auth : Crypto → Request → RouteInfo → Bytes → ℕ → Verdict
unfolding handle_login cleared_cookie session_user cookie_value strip_session_cookie
handle_session_auth c r route secret now =
    if r.path =? login_path
    then answered (handle_login c r route secret now)
    else if r.path =? logout_path
    then answered (see_other (codes "/") (some (cleared_cookie r)))
    else if not (is_empty (session_user c (cookie_value session_cookie r.cookies) secret now))
    then forward (strip_session_cookie r.cookies)
    else answered (see_other (login_target ++ safe_redirect_url_value r.request_uri) none)
