-- ===== src/Server/Endpoint.antt =====
-- internal/server/server.go: New, ServeHTTP, handleHealth and handleTunnel up to the read loop. The
-- upgrade to a WebSocket is an argument; the connection that NewConn gives has the number `conn`.
pub mod Tokens
mod Tests
use etunl_cli.Base.{
  ℕ, ◌+◌, Bool, true, false, not, ◌&&◌, Result, ok, err, Option, none, some, List, [], ◌∷◌, ◌++◌,
  length, ◌=?◌, if◌then◌else◌,
}
use etunl_cli.Base.Bytes.{Bytes, codes, bytes_is_eq, is_empty}
use etunl_cli.Base.Int.{ℤ, pos, pos_part}
use etunl_cli.Config.Server.{ServerConfig, RangeError, parse_tcp_port_range}
use etunl_cli.Tunnel.Auth.{RouteInfo}
use etunl_cli.Server.Http.{Request, Response, http_error, extract_subdomain}
use etunl_cli.Server.Routes.{ClientEntry, Clients, register}
use etunl_cli.Server.Ports.{Listeners, PortRange}
use etunl_cli.Server.Admin.{Panel, RouteView, redact_route_infos}

range_or_none : Result RangeError (ℤ × ℤ) → PortRange
range_or_none (err e) = record { start = 0; end = 0 }
range_or_none (ok (start, end)) = record { start = pos_part start; end = pos_part end }

-- The port range that New takes from the configuration, 0 and 0 where it is malformed. A range that
-- ParseTCPPortRange gives is of positive numbers.
pub new_range : ServerConfig → PortRange
unfolding range_or_none
new_range c = range_or_none (parse_tcp_port_range c)

-- New: the panel's part of the Server, and the range. `file` holds the bytes of the configuration file.
pub new_server : ServerConfig → Option Bytes → Panel × PortRange
unfolding new_range
new_server c file =
    (record { cfg = c; file = file; clients = []; tcp_listeners = []; metrics = [] }, new_range c)

pub data Destination : Type 0 where
  tunnel health admin proxied : Destination

-- `ServeHTTP`
pub serve_http : ServerConfig → Request → Destination
serve_http c r =
    let sub = extract_subdomain r.host in
    if r.path =? codes "/tunnel"
    then tunnel
    else if r.path =? codes "/health"
    then health
    else if not (is_empty sub) && sub =? c.admin_subdomain
    then admin
    else proxied

pub record HealthView : Type 0 where
  pub machines : List (Bytes × List RouteView)
  pub routes : ℕ
  pub tcp_ports : Listeners

-- The loop of handleHealth.
pub health_machines : Clients → List (Bytes × List RouteView) × ℕ
health_machines [] = ([], 0)
health_machines ((m, e) ∷ d) =
    let (machines, total) = health_machines d in
    ((e.machine_name, redact_route_infos e.routes) ∷ machines, length e.routes + total)

-- `handleHealth`
pub handle_health : Clients → Listeners → HealthView
unfolding health_machines
handle_health clients listeners =
    let (machines, total) = health_machines clients in
    record { machines = machines; routes = total; tcp_ports = listeners }

-- How handleTunnel comes to its read loop, or does not.
pub data Admission : Type 0 where
  denied : Response → Admission
  not_upgraded anonymous : Admission
  registered : (machine : Bytes) (conn : ℕ) → Admission

-- What the steps before the read loop leave: the admission, the table of machines, and the connections
-- that were closed.
pub record Admitted : Type 0 where
  pub admission : Admission
  pub clients : Clients
  pub closed : List ℕ

-- The part behind the upgrade.
pub admit : Bytes → Bytes → ℕ → Clients → Admitted
admit machine addr conn clients =
    let (clients', closed) = register machine conn addr clients in
    if is_empty machine
    then record { admission = anonymous; clients = clients; closed = [] }
    else record { admission = registered machine conn; clients = clients'; closed = closed }

-- handleTunnel before its read loop; `upgraded` tells whether the upgrade succeeds, `addr` is the
-- remote address.
pub handle_tunnel : ServerConfig → Request → Bool → Bytes → ℕ → Clients → Admitted
unfolding admit
handle_tunnel c r upgraded addr conn clients =
    if not (r.header (codes "Authorization") =? (codes "Bearer " ++ c.token))
    then record {
      admission = denied (http_error 401 (codes "unauthorized"));
      clients = clients;
      closed = [];
    }
    else if not upgraded
    then record { admission = not_upgraded; clients = clients; closed = [] }
    else admit (r.header (codes "X-Machine-Name")) addr conn clients
