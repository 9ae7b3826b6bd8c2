-- ===== src/Client/Agent.antt =====
-- internal/client/client.go and internal/config/watcher.go: the client's configuration, its connection
-- and what it tells the server. Loading the file, json.Marshal of the routes, os.Hostname and the
-- dialing are arguments.
pub mod Reloading
pub mod Greeting
pub mod Delays
mod Tests
use etunl_cli.Base.{
  ℕ, suc, Bool, true, false, not, Option, none, some, List, [], ◌∷◌, ◌++◌, Result, ok, err,
  if◌then◌else◌,
}
use etunl_cli.Base.Bytes.{Bytes, codes, is_empty}
use etunl_cli.Base.Int.{ℤ}
use etunl_cli.Config.Auth.{Route}
use etunl_cli.Config.Routes.{ClientConfig, LoadError}
use etunl_cli.Tunnel.Auth.{RouteInfo}
use etunl_cli.Tunnel.Mux.{Mux, new_mux, send_route_sync}
use etunl_cli.Tunnel.Conn.{Conn, close_conn}
use etunl_cli.Client.Wire.{config_to_route_info, backoff}

-- The Client with its Watcher and its LocalProxy: `w.current`, `lp.routes` and `c.conn`.
pub record Agent : Type 0 where
  pub current : ClientConfig
  pub local_routes : List Route
  pub conn : Option Conn

-- json.Marshal of the routes.
abbrev pub Marshal : Type 0
Marshal = List RouteInfo → Option Bytes

-- SendRouteSync on a connection.
pub sync_over : Marshal → List Route → Conn → Conn × Bool
sync_over marshal routes conn =
    let (mux, sent) = send_route_sync (marshal (config_to_route_info routes)) conn.mux in
    (record conn { mux = mux }, sent)

-- `onConfigChange`
pub on_config_change : Marshal → ClientConfig → Agent → Agent
unfolding sync_over
on_config_change marshal cfg a = record a {
  local_routes = cfg.routes;
  conn = elim a.conn [ none ↦ none | some conn ↦ some (sync_over marshal cfg.routes conn).0 ];
}

-- `Watcher.reload`, with onConfigChange as its callback; the argument is what LoadClientConfig gives.
pub reload : Marshal → Result LoadError ClientConfig → Agent → Agent
unfolding on_config_change
reload marshal (err e) a = a
reload marshal (ok cfg) a = on_config_change marshal cfg (record a { current = cfg })

-- What the goroutine of Watcher.Start takes from its channels.
pub data Event : Type 0 where
  changed : Result LoadError ClientConfig → Event
  other_event watch_error : Event
  stopped : Event

-- The loop of Watcher.Start: `changed` is an event with Write or Create.
pub watch : Marshal → List Event → Agent → Agent
unfolding reload
watch marshal [] a = a
watch marshal (changed loaded ∷ es) a = watch marshal es (reload marshal loaded a)
watch marshal (other_event ∷ es) a = watch marshal es a
watch marshal (watch_error ∷ es) a = watch marshal es a
watch marshal (stopped ∷ es) a = a

-- New, and Start up to the connection; there is no client where the file cannot be loaded.
pub start : Result LoadError ClientConfig → Result LoadError Agent
start (err e) = err e
start (ok cfg) = ok (record { current = cfg; local_routes = cfg.routes; conn = none })

pub data ConnectError : Type 0 where
  no_machine_name dial_failed route_sync_failed : ConnectError

-- The headers of the request that opens the tunnel.
pub record Hello : Type 0 where
  pub authorization : Bytes
  pub machine_name : Bytes

abbrev pub machine_name_of : ClientConfig → Bytes → Bytes
machine_name_of cfg hostname = if is_empty cfg.machine_name then hostname else cfg.machine_name

pub hello : ClientConfig → Bytes → Hello
hello cfg hostname = record {
  authorization = codes "Bearer " ++ cfg.token;
  machine_name = machine_name_of cfg hostname;
}

abbrev pub new_conn : Conn
new_conn = record { mux = new_mux true; done = false; ws_closed = false }

-- `if err := SendRouteSync(routes); err != nil { conn.Close() }`
synced_or_closed : Agent → Conn × Bool → Agent × Option ConnectError
synced_or_closed a (conn, true) = (record a { conn = some conn }, none)
synced_or_closed a (conn, false) =
    (record a { conn = some (close_conn conn) }, some route_sync_failed)

-- `connect` up to its read loop, with the error it ends with before; `dialed` tells whether the dial
-- succeeds.
pub connect : Marshal → Bytes → Bool → ClientConfig → Agent → Agent × Option ConnectError
unfolding synced_or_closed sync_over
connect marshal hostname dialed cfg a =
    if is_empty (machine_name_of cfg hostname)
    then (a, some no_machine_name)
    else if not dialed
    then (a, some dial_failed)
    else synced_or_closed a (sync_over marshal cfg.routes new_conn)

-- What happens around one round of connectLoop: the dial; the events of the watcher while the
-- connection stands, and what its read loop does to it, which ends with an error; and the events
-- during the delay. The client never stops its watcher.
pub record Round : Type 0 where
  pub dialed : Bool
  pub meanwhile : List Event
  pub reading : Conn → Conn
  pub later : List Event

abbrev read_by : (Conn → Conn) → Agent → Agent
read_by reading a = record a {
  conn = elim a.conn [ none ↦ none | some conn ↦ some (reading conn) ];
}

-- The agent behind connect, and behind the delay.
pub round : Marshal → Bytes → Round → ClientConfig → Agent → Agent
unfolding connect watch
round marshal hostname r cfg a =
    let (a', error) = connect marshal hostname r.dialed cfg a in
    watch marshal r.later
      (elim error [ some e ↦ a' | none ↦ read_by r.reading (watch marshal r.meanwhile a') ])

-- `connectLoop` over these rounds: the configurations that connect is called with, and the delays.
pub connect_loop : Marshal → Bytes → ℕ → List Round → ClientConfig → Agent → List (ClientConfig × ℤ)
unfolding round
connect_loop marshal hostname attempt [] cfg a = []
connect_loop marshal hostname attempt (r ∷ rs) cfg a =
    let a' = round marshal hostname r cfg a in
    (cfg, backoff (suc attempt)) ∷ connect_loop marshal hostname (suc attempt) rs a'.current a'
