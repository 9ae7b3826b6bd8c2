-- ===== src/Connect.antt =====
-- internal/connect/connect.go: one connection of `etunl connect`. What the dial gives and the steps of
-- the two loops and of the read loop are arguments; `behind` are those between the deferred CloseStream
-- and the deferred Close.
pub mod Life
mod Tests
use etunl_cli.Base.{ℕ, Bool, false, Option, none, some, List, ◌++◌, if◌then◌else◌}
use etunl_cli.Base.Bytes.{Bytes, codes}
use etunl_cli.Tunnel.Mux.{OpenJson, Mux, new_mux, open_stream}
use etunl_cli.Tunnel.Conn.{Conn, close_conn}
use etunl_cli.Tunnel.Pump.{Step, bridge_of, run_steps, end_stream}
use etunl_cli.Cli.{Options}

abbrev pub new_conn : Conn
new_conn = record { mux = new_mux false; done = false; ws_closed = false }

-- The header of the dial; there is no X-Machine-Name.
pub authorization_of : Options → Bytes
authorization_of o = codes "Bearer " ++ o.token

-- The two loops on the stream that was opened, and the deferred CloseStream.
pub carry : (id p : ℕ) → List Step → List Step → Mux → Mux
carry id p steps behind m = (end_stream id p behind (run_steps id p steps (bridge_of m))).mux

-- handleConn over the connection that a dial gives, with its deferred Close.
pub over_conn : OpenJson → Options → Conn → List Step → List Step → Conn
unfolding carry
over_conn json o c steps behind =
    let (m, stream) = open_stream json o.route_name c.mux in
    elim stream [
      | none ↦ close_conn (record c { mux = m })
      | some p ↦ close_conn (record c { mux = carry c.mux.next_id p steps behind m })
    ]

-- `handleConn`; `dialed` tells whether the dial succeeds.
pub handle_conn : OpenJson → Options → Bool → List Step → List Step → Option Conn
unfolding over_conn
handle_conn json o dialed steps behind =
    if dialed then some (over_conn json o new_conn steps behind) else none
