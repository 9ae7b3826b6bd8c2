-- ===== src/Tunnel/Auth.antt =====
-- internal/tunnel/auth.go, and the route types of internal/tunnel/stream.go. `Header.Get` of a
-- request is a function from header names to values.
use etunl_cli.Base.{Bool, true, false, not, Option, none, some, List, [], ◌∷◌, if◌then◌else◌, ◌=?◌}
use etunl_cli.Base.Bytes.{Bytes, codes, bytes_is_eq, is_empty, cut_prefix}
use etunl_cli.Base.Int.{ℤ}

pub record RouteAuthUser : Type 0 where
  pub user : Bytes
  pub password : Bytes

pub record RouteAuth : Type 0 where
  pub bearer : Bytes
  pub header : Bytes
  pub value : Bytes
  pub users : List RouteAuthUser

pub record RouteInfo : Type 0 where
  pub name : Bytes
  pub type : Bytes
  pub local_port : ℤ
  pub auth : Option RouteAuth

abbrev pub Headers : Type 0
Headers = Bytes → Bytes

abbrev pub bearer_prefix : Bytes
bearer_prefix = codes "Bearer "

abbrev pub authorization : Bytes
authorization = codes "Authorization"

-- The token behind "Bearer ", compared with the expected one.
unfoldable pub check_bearer : Bytes → Bytes → Bool
check_bearer bearer got = elim (cut_prefix bearer_prefix got) [
  | none ↦ false
  | some token ↦ token =? bearer
]

-- `RouteAuth.Check`; `none` is the nil receiver.
unfoldable pub check : Option RouteAuth → Headers → Bool
unfolding check_bearer
check none get = true
check (some a) get =
    if not (is_empty a.bearer)
    then check_bearer a.bearer (get authorization)
    else if not (is_empty a.header)
    then get a.header =? a.value
    else true

abbrev pub no_users : List RouteAuthUser → Bool
no_users [] = true
no_users (u ∷ us) = false

-- `RouteAuth.Scheme`
unfoldable pub scheme : Option RouteAuth → Bytes
scheme none = []
scheme (some a) =
    if not (is_empty a.bearer)
    then codes "bearer"
    else if not (no_users a.users)
    then codes "session"
    else a.header

-- `RouteAuth.HasSession`
unfoldable pub has_session : Option RouteAuth → Bool
has_session none = false
has_session (some a) = not (no_users a.users)

password_of : List RouteAuthUser → Bytes → Bytes
password_of [] user = []
password_of (u ∷ us) user = if u.user =? user then u.password else password_of us user

-- `RouteAuth.LookupUser`
unfoldable pub lookup_user : Option RouteAuth → Bytes → Bytes
unfolding password_of
lookup_user none user = []
lookup_user (some a) user = password_of a.users user
