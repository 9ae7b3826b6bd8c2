-- ===== src/Config/Auth.antt =====
-- internal/config/config.go: Auth.Validate and Route.validate. An `error` is an `Option`: `none` is nil.
pub mod Forms
mod Tests
use etunl_cli.Base.{
  ℕ, ◌+◌, Bool, true, false, not, ◌&&◌, ◌||◌, Option, none, some, List, [], ◌∷◌, ltb, ◌==◌, ◌=?◌,
  if◌then◌else◌,
}
use etunl_cli.Base.Bytes.{Bytes, codes, bytes_is_eq, is_empty}
use etunl_cli.Base.Int.{ℤ}

pub record AuthUser : Type 0 where
  pub user : Bytes
  pub password : Bytes

pub record Auth : Type 0 where
  pub bearer : Bytes
  pub header : Bytes
  pub value : Bytes
  pub users : List AuthUser

pub record Route : Type 0 where
  pub name : Bytes
  pub type : Bytes
  pub target : Bytes
  pub local_port : ℤ
  pub auth : Option Auth

pub data ConfigError : Type 0 where
  no_form several_forms header_incomplete auth_not_http : ConfigError
  user_incomplete : ℕ → ConfigError

abbrev pub none_given : List AuthUser → Bool
none_given [] = true
none_given (u ∷ us) = false

one_if : Bool → ℕ
one_if on = if on then 1 else 0

-- The loop over `[]bool{hasBearer, hasHeader, hasUsers}`.
count_on : List Bool → ℕ
unfolding one_if
count_on [] = 0
count_on (on ∷ rest) = one_if on + count_on rest

-- The first user without a name or a password, by index.
check_users : ℕ → List AuthUser → Option ConfigError
check_users i [] = none
check_users i (u ∷ us) =
    let rest = check_users (i + 1) us in
    if is_empty u.user || is_empty u.password then some (user_incomplete i) else rest

abbrev has_bearer : Auth → Bool
has_bearer a = not (is_empty a.bearer)

abbrev has_header : Auth → Bool
has_header a = not (is_empty a.header) || not (is_empty a.value)

abbrev has_users : Auth → Bool
has_users a = not (none_given a.users)

-- `Auth.Validate`; `none` is the nil receiver.
unfoldable pub validate : Option Auth → Option ConfigError
unfolding count_on check_users
validate none = none
validate (some a) =
    let forms = count_on (has_bearer a ∷ has_header a ∷ has_users a ∷ []) in
    if forms == 0
    then some no_form
    else if ltb 1 forms
    then some several_forms
    else if has_header a && (is_empty a.header || is_empty a.value)
    then some header_incomplete
    else if has_users a
    then check_users 0 a.users
    else none

abbrev pub http : Bytes
http = codes "http"

-- `Route.validate`
unfoldable pub validate_route : Route → Option ConfigError
validate_route r = elim r.auth [
  | none ↦ none
  | some a ↦ if not (r.type =? http) then some auth_not_http else validate (some a)
]
