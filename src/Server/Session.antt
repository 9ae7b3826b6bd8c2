-- ===== src/Server/Session.antt =====
-- internal/server/session_auth.go: the session cookie and the redirect target. HMAC-SHA256 and the URL
-- alphabet of encoding/base64 are a parameter, `Crypto`. Times are Unix seconds.
pub mod Signing
pub mod Redirect
pub mod Hex
mod Tests
use etunl_cli.Base.{
  ℕ, ◌+◌, ◌-◌, ◌/◌, ◌%◌, Bool, true, false, not, ◌&&◌, ◌||◌, Option, none, some, List, [], ◌∷◌,
  ◌++◌, ltb, leb, ◌==◌, ◌=?◌, if◌then◌else◌,
}
use etunl_cli.Base.Bytes.{Bytes, codes, bytes_is_eq, is_empty, has_prefix, cut_first}
use etunl_cli.Base.Int.{ℤ, pos, leb_ℤ}
use etunl_cli.Base.Decimal.{format_int, parse_int}

-- `24 * time.Hour`, in seconds
abbrev pub session_ttl : ℕ
session_ttl = 86400

-- `hmac.New(sha256.New, secret)` over a message, and base64.RawURLEncoding.
pub record Crypto : Type 0 where
  pub mac : Bytes → Bytes → Bytes
  pub encode64 : Bytes → Bytes
  pub decode64 : Bytes → Option Bytes

-- `user|exp`
pub payload_of : Bytes → ℕ → Bytes
payload_of user exp = user ++ b'|' ∷ format_int exp

-- `signSession`
pub sign_session : Crypto → Bytes → ℕ → Bytes → Bytes
unfolding payload_of
sign_session c user exp secret =
    c.encode64 (payload_of user exp) ++ b'.' ∷ c.encode64 (c.mac secret (payload_of user exp))

-- The part of verifySession behind the comparison of the signatures.
pub user_of : Bytes → ℕ → Bytes
user_of payload now = elim (cut_first b'|' payload) [
  | none ↦ []
  | some (user, exp) ↦ elim (parse_int exp) [
    | none ↦ []
    | some exp_unix ↦ if leb_ℤ exp_unix (pos now) then [] else user
  ]
]

-- The decoded halves of the cookie, the signature compared with the one of the payload.
pub verify_parts : Crypto → Option Bytes → Option Bytes → Bytes → ℕ → Bytes
unfolding user_of
verify_parts c none got secret now = []
verify_parts c (some payload) none secret now = []
verify_parts c (some payload) (some got) secret now =
    if got =? c.mac secret payload then user_of payload now else []

-- `verifySession`
pub verify_session : Crypto → Bytes → Bytes → ℕ → Bytes
unfolding verify_parts
verify_session c value secret now = elim (cut_first b'.' value) [
  | none ↦ []
  | some (payload64, sig64) ↦ verify_parts c (c.decode64 payload64) (c.decode64 sig64) secret now
]

-- `safeRedirect`
pub safe_redirect : Bytes → Bytes
safe_redirect raw =
    if is_empty raw || not (has_prefix raw (codes "/")) || has_prefix raw (codes "//")
    then codes "/"
    else raw

-- `hexNibble`
pub hex_nibble : ℕ → ℕ
hex_nibble d = if ltb d 10 then b'0' + d else b'a' + (d - 10)

-- The bytes that safeRedirectURLValue leaves as they are.
pub is_unreserved : ℕ → Bool
is_unreserved c =
    (c == b'/' || c == b'-' || c == b'_' || c == b'.' || c == b'~')
    || (leb b'a' c && leb c b'z')
    || (leb b'A' c && leb c b'Z')
    || (leb b'0' c && leb c b'9')

pub escape : Bytes → Bytes
unfolding is_unreserved hex_nibble
escape [] = []
escape (c ∷ s) =
    let rest = escape s in
    if is_unreserved c then c ∷ rest else b'%' ∷ hex_nibble (c / 16) ∷ hex_nibble (c % 16) ∷ rest

-- `safeRedirectURLValue`
pub safe_redirect_url_value : Bytes → Bytes
unfolding safe_redirect escape
safe_redirect_url_value s = escape (safe_redirect s)
