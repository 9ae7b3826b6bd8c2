-- ===== src/Client/Streams.antt =====
-- internal/client/router.go and handleStream of client.go: what the client does with a stream that
-- the server opens. What net.Dial and http.ReadRequest give, the steps of the copying loops and of all
-- other goroutines, and the bytes of the 502 answer are arguments. The connection stays the one that
-- the stream came from.
pub mod Wire
pub mod Arriving
pub mod Fitting
mod Tests
use etunl_cli.Base.{ℕ, Bool, true, false, Option, none, some, List, ◌=?◌, if◌then◌else◌}
use etunl_cli.Base.Bytes.{Bytes, bytes_is_eq}
use etunl_cli.Config.Auth.{Route, http}
use etunl_cli.Config.Routes.{ClientConfig, find_route}
use etunl_cli.Tunnel.Mux.{Mux, Stream, close_stream, send_data}
use etunl_cli.Tunnel.Pump.{Step, Bridge, bridge_of, run_steps, end_stream}
use etunl_cli.Server.Http.{Request, is_websocket_upgrade}

-- What the target does: it cannot be dialed, it does not take the request, or it is copied to and from
-- in these steps, up to the return of the handler.
pub data Target : Type 0 where
  unreachable rejects : Target
  answers : List Step → Target

-- The surroundings of a handler: the steps of the bridge and of the others before the request is
-- there, the request, the target, and the steps behind the handler's return.
pub record Around : Type 0 where
  pub waiting : List Step
  pub request : Option Request
  pub target : Target
  pub behind : List Step
  pub bad_gateway : Bytes

-- `handleTCPStream` up to its return. Its target is sent nothing before the loops, so it cannot turn a
-- request down.
pub tcp_loops : (id p : ℕ) → Target → Mux → Bridge
tcp_loops id p unreachable m = record (bridge_of m) { sending = false }
tcp_loops id p rejects m = record (bridge_of m) { sending = false }
tcp_loops id p (answers steps) m = run_steps id p steps (bridge_of m)

-- `handleTCPStream`
pub handle_tcp_stream : Around → (id p : ℕ) → Mux → Mux
unfolding tcp_loops
handle_tcp_stream a id p m = (end_stream id p a.behind (tcp_loops id p a.target m)).mux

-- `forwardHTTP`: the loop over the answer is in the handler itself, so it has ended at its return.
pub forward_http : Bytes → (id p : ℕ) → Target → Bridge → Bridge
forward_http bad_gateway id p unreachable b = record b { mux = (send_data id bad_gateway b.mux).0 }
forward_http bad_gateway id p rejects b = b
forward_http bad_gateway id p (answers steps) b =
    record (run_steps id p steps (record b { sending = true })) { sending = false }

-- `forwardWebSocket`; the bytes of the stream go through the bridge of handleHTTPStream, and the loop
-- from the target is a goroutine.
pub forward_websocket : (id p : ℕ) → Target → Bridge → Bridge
forward_websocket id p unreachable b = b
forward_websocket id p rejects b = b
forward_websocket id p (answers steps) b = run_steps id p steps (record b { sending = true })

-- What follows http.ReadRequest.
pub forward_request : Around → (id p : ℕ) → Option Request → Bridge → Bridge
unfolding forward_http forward_websocket
forward_request a id p none b = b
forward_request a id p (some r) b =
    if is_websocket_upgrade r
    then forward_websocket id p a.target b
    else forward_http a.bad_gateway id p a.target b

-- `handleHTTPStream`: the bridge takes the payloads out of the stream, then the request is forwarded.
pub handle_http_stream : Around → (id p : ℕ) → Mux → Mux
unfolding forward_request
handle_http_stream a id p m =
    let b = run_steps id p a.waiting (record (bridge_of m) { sending = false }) in
    (end_stream id p a.behind (forward_request a id p a.request b)).mux

-- `handleStream`, for the stream object at `p`, with the address that is dialed.
pub handle_stream : Around → ClientConfig → Stream → ℕ → Mux → Mux × Option Bytes
unfolding handle_tcp_stream handle_http_stream
handle_stream a c s p m = elim (find_route c s.route) [
  | none ↦ (close_stream s.id m, none)
  | some route ↦
      if route.type =? http
      then (handle_http_stream a s.id p m, some route.target)
      else (handle_tcp_stream a s.id p m, some route.target)
]
