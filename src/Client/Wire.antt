-- ===== src/Client/Wire.antt =====
-- internal/client/client.go: the routes as they go over the wire, and the delay before a new
-- connection. A time.Duration is an int64 number of nanoseconds.
pub mod Protection
mod Tests
use etunl_cli.Base.{
  ℕ, ◌-◌, ◌*◌, ◌%◌, ◌^◌, Bool, Option, none, some, List, [], ◌∷◌, ltb, if◌then◌else◌,
}
use etunl_cli.Base.Int.{ℤ, pos, negsuc, ltb_ℤ}
use etunl_cli.Config.Auth.{Auth, AuthUser, Route}
use etunl_cli.Tunnel.Auth.{RouteAuth, RouteAuthUser, RouteInfo}

unfoldable pub users_to_wire : List AuthUser → List RouteAuthUser
users_to_wire [] = []
users_to_wire (u ∷ us) = record { user = u.user; password = u.password } ∷ users_to_wire us

-- `authToWire`
unfoldable pub auth_to_wire : Option Auth → Option RouteAuth
unfolding users_to_wire
auth_to_wire none = none
auth_to_wire (some a) = some (record {
  bearer = a.bearer;
  header = a.header;
  value = a.value;
  users = users_to_wire a.users;
})

-- `configToRouteInfo`
pub config_to_route_info : List Route → List RouteInfo
unfolding auth_to_wire
config_to_route_info [] = []
config_to_route_info (r ∷ rs) =
    record { name = r.name; type = r.type; local_port = r.local_port; auth = auth_to_wire r.auth }
    ∷ config_to_route_info rs

abbrev pub second : ℕ
second = 1000000000

-- An int64 from its bits.
pub int64 : ℕ → ℤ
int64 n =
    let bits = n % 2 ^ 64 in if ltb bits (2 ^ 63) then pos bits else negsuc (2 ^ 64 - 1 - bits)

-- `backoff`, for attempts below 63: their power of two is an exact float64, and an int64.
unfoldable pub backoff : ℕ → ℤ
unfolding int64
backoff attempt =
    let d = int64 (2 ^ attempt * second) in
    if ltb_ℤ (pos (30 * second)) d then pos (30 * second) else d
