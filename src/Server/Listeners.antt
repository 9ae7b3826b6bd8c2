-- ===== src/Server/Listeners.antt =====
-- internal/server/tcp_proxy.go: syncTCPListeners. `net.Listen` is a function that says on which ports
-- listening succeeds.
pub mod Syncing
mod Tests
use etunl_cli.Base.{
  ℕ, Bool, true, false, ◌&&◌, ◌||◌, Option, none, some, List, [], ◌∷◌, Result, ok, err, ◌=?◌,
  if◌then◌else◌,
}
use etunl_cli.Base.Bytes.{Bytes, codes, bytes_is_eq}
use etunl_cli.Base.Dict.{Dict, lookup, insert, erase}
use etunl_cli.Tunnel.Auth.{RouteInfo}
use etunl_cli.Server.Routes.{ClientEntry, Clients}
use etunl_cli.Server.Ports.{Listeners, PortRange, allocate_port}

abbrev pub tcp : Bytes
tcp = codes "tcp"

has_tcp : Bytes → List RouteInfo → Bool
has_tcp name [] = false
has_tcp name (r ∷ rs) = r.type =? tcp && r.name =? name || has_tcp name rs

-- `tcpRoutes[name]`
pub claims_tcp : Clients → Bytes → Bool
unfolding has_tcp
claims_tcp [] name = false
claims_tcp ((m, e) ∷ d) name = has_tcp name e.routes || claims_tcp d name

-- "Stop listeners for removed routes"
pub stop_removed : (Bytes → Bool) → Listeners → Listeners
stop_removed tcp_routes [] = []
stop_removed tcp_routes ((name, port) ∷ d) =
    let rest = stop_removed tcp_routes d in if tcp_routes name then (name, port) ∷ rest else rest

-- The body of "Start listeners for new routes".
start_listener : (ℕ → Bool) → PortRange → Bytes → Listeners → Listeners
start_listener listen r name d = elim (lookup name d) [
  | some port ↦ d
  | none ↦ elim (allocate_port r d name) [
    | err e ↦ d
    | ok port ↦ if listen port then insert name port d else d
  ]
]

-- The loop, over the names in the order in which the map of TCP routes is iterated.
pub start_listeners : (ℕ → Bool) → PortRange → List Bytes → Listeners → Listeners
unfolding start_listener
start_listeners listen r [] d = d
start_listeners listen r (name ∷ names) d =
    start_listeners listen r names (start_listener listen r name d)

-- `syncTCPListeners`; `names` are the keys of `tcpRoutes`.
pub sync_tcp_listeners : (ℕ → Bool) → PortRange → List Bytes → Clients → Listeners → Listeners
unfolding claims_tcp stop_removed start_listeners
sync_tcp_listeners listen r names clients d =
    start_listeners listen r names (stop_removed (claims_tcp clients) d)
