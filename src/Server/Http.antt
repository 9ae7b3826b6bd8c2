-- ===== src/Server/Http.antt =====
-- Requests and answers as net/http gives and takes them, and the functions of
-- internal/server/http_proxy.go that only read a request.
pub mod Hosts
mod Tests
use etunl_cli.Base.{
  ℕ, ◌+◌, Bool, true, false, not, ◌&&◌, ◌||◌, Option, none, some, List, [], ◌∷◌, ◌++◌, leb, ◌==◌,
  ◌=?◌, if◌then◌else◌,
}
use etunl_cli.Base.Bytes.{Bytes, codes, bytes_is_eq, cut_first, cut_last}
use etunl_cli.Base.Space.{trim_space}

pub record Cookie : Type 0 where
  pub name : Bytes
  pub value : Bytes

-- `query_redirect` is `r.URL.Query().Get("redirect")`, `form` the parsed form, `none` where ParseForm
-- fails, `header` is `r.Header.Get`, `connection` is `r.Header.Values("Connection")`, `basic_auth` is
-- `r.BasicAuth()`, and `body` what reading the body gives, `none` where it fails.
pub record Request : Type 0 where
  pub method : Bytes
  pub host : Bytes
  pub path : Bytes
  pub request_uri : Bytes
  pub query_redirect : Bytes
  pub cookies : List Cookie
  pub form : Option (Bytes → Bytes)
  pub tls : Bool
  pub header : Bytes → Bytes
  pub connection : List Bytes
  pub basic_auth : Option (Bytes × Bytes)
  pub body : Option Bytes

-- The attributes of a cookie that the server sets; `Path`, `HttpOnly` and `SameSite` are constant.
pub record SetCookie : Type 0 where
  pub value : Bytes
  -- `none` is `MaxAge: -1`
  pub expires : Option ℕ
  pub secure : Bool

-- The body of an answer: nothing, a text, or an HTML page.
pub data Body : Type 0 where
  no_body : Body
  text : Bytes → Body
  page : Bytes → Body

pub record Response : Type 0 where
  pub status : ℕ
  pub location : Option Bytes
  pub set_cookie : Option SetCookie
  pub www_authenticate : Option Bytes
  pub body : Body

-- `http.Error(w, message, status)`
abbrev pub http_error : ℕ → Bytes → Response
http_error status message = record {
  status = status;
  location = none;
  set_cookie = none;
  www_authenticate = none;
  body = text message;
}

-- `host[:idx]` at the last `:`, and `host` where there is none.
unfoldable pub strip_port : Bytes → Bytes
strip_port host = elim (cut_last b':' host) [ none ↦ host | some before ↦ before ]

-- `extractSubdomain`
unfoldable pub extract_subdomain : Bytes → Bytes
unfolding strip_port
extract_subdomain host = elim (cut_first b'.' (strip_port host)) [
  | none ↦ []
  | some (sub, domain) ↦ sub
]

unfoldable pub lower : ℕ → ℕ
lower c = if leb b'A' c && leb c b'Z' then c + 32 else c

-- Case folding towards ASCII. Besides the capital letters, two other characters fold to a letter of
-- ASCII: U+017F, in UTF-8 0xc5 0xbf, to `s`, and U+212A, 0xe2 0x84 0xaa, to `k`.
unfoldable pub fold_case : Bytes → Bytes
unfolding lower
fold_case [] = []
fold_case (a ∷ []) = lower a ∷ []
fold_case (a ∷ b ∷ []) = if a == 0xc5 && b == 0xbf then b's' ∷ [] else lower a ∷ lower b ∷ []
fold_case (a ∷ b ∷ c ∷ s) =
    let behind_two = fold_case (c ∷ s) in
    let behind_three = fold_case s in
    let behind_one = fold_case (b ∷ c ∷ s) in
    if a == 0xc5 && b == 0xbf
    then b's' ∷ behind_two
    else if a == 0xe2 && b == 0x84 && c == 0xaa
    then b'k' ∷ behind_three
    else lower a ∷ behind_one

-- `strings.EqualFold(s, t)`, for a `t` of small letters of ASCII.
unfoldable pub equal_fold : Bytes → Bytes → Bool
unfolding fold_case
equal_fold s t = fold_case s =? t

-- Some part of `strings.Split(v, ",")` is `upgrade`; `part` holds the bytes of the current part.
unfoldable pub has_upgrade : Bytes → Bytes → Bool
unfolding equal_fold
has_upgrade part [] = equal_fold (trim_space part) (codes "upgrade")
has_upgrade part (c ∷ s) =
    let next = has_upgrade [] s in
    let same = has_upgrade (part ++ c ∷ []) s in
    if c == b',' then equal_fold (trim_space part) (codes "upgrade") || next else same

unfoldable pub any_upgrade : List Bytes → Bool
unfolding has_upgrade
any_upgrade [] = false
any_upgrade (v ∷ vs) = has_upgrade [] v || any_upgrade vs

-- `isWebSocketUpgrade`
unfoldable pub is_websocket_upgrade : Request → Bool
unfolding any_upgrade equal_fold
is_websocket_upgrade r =
    equal_fold (r.header (codes "Upgrade")) (codes "websocket") && any_upgrade r.connection
