-- ===== src/Server/Routes.antt =====
-- internal/server/server.go: the table of connected machines and the routes that they own.
pub mod Ownership
pub mod Finding
mod Tests
use etunl_cli.Base.{
  ℕ, Bool, true, false, not, ◌&&◌, Option, none, some, List, [], ◌∷◌, ◌++◌, ◌==◌, ◌=?◌,
  if◌then◌else◌,
}
use etunl_cli.Base.Bytes.{Bytes, bytes_eq, bytes_is_eq, is_empty}
use etunl_cli.Base.Dict.{Dict, lookup, insert, erase}
use etunl_cli.Tunnel.Auth.{RouteInfo}

-- A `*tunnel.Conn` is named by a number; each `clientEntry` has a connection of its own, so the
-- number tells entries of one machine apart as the pointers do.
pub record ClientEntry : Type 0 where
  pub machine_name : Bytes
  pub conn : ℕ
  pub routes : List RouteInfo
  pub remote_addr : Bytes

abbrev pub Clients : Type 0
Clients = Dict Bytes ClientEntry

-- The first route of the name.
unfoldable pub first_route : Bytes → List RouteInfo → Option RouteInfo
first_route name [] = none
first_route name (r ∷ rs) = if r.name =? name then some r else first_route name rs

pub has_route : Bytes → List RouteInfo → Bool
unfolding first_route
has_route name rs = elim (first_route name rs) [ none ↦ false | some r ↦ true ]

-- `findRoute`, over the entries in the order in which the map is iterated.
unfoldable pub find_route : Bytes → Clients → Option (RouteInfo × Bytes × ℕ)
find_route name [] = none
find_route name ((m, e) ∷ d) = elim (first_route name e.routes) [
  | some r ↦ some (r, e.machine_name, e.conn)
  | none ↦ find_route name d
]

-- `findOwnerLocked`; "" where no machine has the route.
pub find_owner : Bytes → Clients → Bytes
find_owner name [] = []
find_owner name ((m, e) ∷ d) = if has_route name e.routes then m else find_owner name d

-- `owner != "" && owner != machineName`
pub rejected : Bytes → Clients → Bytes → Bool
rejected machine d name =
    let owner = find_owner name d in not (is_empty owner) && not (owner =? machine)

-- The loop of the route sync handler: the routes that nobody else owns.
pub accept_routes : Bytes → Clients → List RouteInfo → List RouteInfo
accept_routes machine d [] = []
accept_routes machine d (r ∷ rs) =
    let rest = accept_routes machine d rs in if rejected machine d r.name then rest else r ∷ rest

-- `entry.routes = accepted`, for the entry of the given connection. An entry that a reconnect has
-- put out of the table is not in it any more, and nothing reads it.
pub set_routes : Bytes → ℕ → List RouteInfo → Clients → Clients
set_routes machine conn routes d = elim (lookup machine d) [
  | none ↦ d
  | some e ↦ if e.conn == conn then insert machine (record e { routes = routes }) d else d
]

-- The route sync handler of a connection, over what json.Unmarshal makes of the payload.
pub sync_routes : Bytes → ℕ → Option (List RouteInfo) → Clients → Clients
sync_routes machine conn none d = d
sync_routes machine conn (some routes) d =
    set_routes machine conn (accept_routes machine d routes) d

-- A machine connects: its entry, with no routes yet, takes the place of an older one, whose
-- connection is closed. The result is the table and the connections that are closed.
unfoldable pub register : Bytes → ℕ → Bytes → Clients → Clients × List ℕ
register machine conn addr d =
    let entry : ClientEntry = record {
      machine_name = machine;
      conn = conn;
      routes = [];
      remote_addr = addr;
    } in
    (insert machine entry d, elim (lookup machine d) [ none ↦ [] | some old ↦ old.conn ∷ [] ])

-- `if s.clients[machineName] == entry { delete(s.clients, machineName) }`
pub unregister : Bytes → ℕ → Clients → Clients
unregister machine conn d = elim (lookup machine d) [
  | none ↦ d
  | some e ↦ if e.conn == conn then erase machine d else d
]
