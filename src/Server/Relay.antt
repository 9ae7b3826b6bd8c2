-- ===== src/Server/Relay.antt =====
-- internal/server/http_proxy.go and handlePlainTCPConn of tcp_proxy.go: what a request or a connection
-- does to the multiplexer of the machine and to the counters. The steps of the copying goroutines and
-- of all others, and what http.ReadResponse makes of the bytes written, are arguments.
pub mod Wire
pub mod Arriving
pub mod Serving
pub mod Life
mod Tests
use etunl_cli.Base.{ℕ, Bool, true, false, Option, none, some, List, [], ◌∷◌, length, if◌then◌else◌}
use etunl_cli.Base.Bytes.{Bytes, codes}
use etunl_cli.Base.Int.{ℤ, pos}
use etunl_cli.Tunnel.Mux.{OpenJson, Mux, open_stream, send_data, close_stream}
use etunl_cli.Tunnel.Pump.{
  Chunk, Step, reads, Entry, into, out_of, Bridge, bridge_of, run_steps, end_stream,
}
use etunl_cli.Server.Http.{Response, http_error}
use etunl_cli.Server.Metrics.{
  Registry, record_bytes_in, record_bytes_out, record_http_request, open_conn, close_conn,
}
use etunl_cli.Server.Proxy.{http}

-- The multiplexer of a machine's connection, and the counters.
pub record Backend : Type 0 where
  pub mux : Mux
  pub metrics : Registry

-- RecordBytesIn for the bytes that were sent, RecordBytesOut for those that were written.
pub count_entry : (machine route type : Bytes) → Entry → Registry → Registry
count_entry machine route type (into bytes at) reg =
    record_bytes_in at machine route type (pos (length bytes)) reg
count_entry machine route type (out_of bytes at) reg =
    record_bytes_out at machine route type (pos (length bytes)) reg

pub count_log : (machine route type : Bytes) → List Entry → Registry → Registry
unfolding count_entry
count_log machine route type [] reg = reg
count_log machine route type (e ∷ es) reg =
    count_log machine route type es (count_entry machine route type e reg)

-- What http.ReadResponse makes of the bytes written: the time the exchange took, or a failure.
pub data Answer : Type 0 where
  no_response : Answer
  response : (now : ℕ) (duration : ℤ) → Answer

pub count_request : Bytes → Bytes → Answer → Registry → Registry
count_request machine route no_response reg = reg
count_request machine route (response now duration) reg =
    record_http_request now machine route duration reg

-- The rest of handleHTTPProxy on the stream that OpenStream gave: `before` are the steps up to its
-- return, `behind` those of the goroutines that still run then.
pub exchange_http :
    (machine route : Bytes) (id p : ℕ) → List Step → Answer → List Step → Backend → Backend
unfolding count_log count_request
exchange_http machine route id p before answer behind b =
    let b1 = run_steps id p before (bridge_of b.mux) in
    let b2 = end_stream id p behind b1 in
    record {
      mux = b2.mux;
      metrics =
          count_log machine route http b2.log
            (count_request machine route answer (count_log machine route http b1.log b.metrics));
    }

-- handleHTTPProxy behind its guards; `true` where no stream could be opened, which is answered by 502.
pub proxy_http :
    OpenJson → (machine route : Bytes) → List Step → Answer → List Step → Backend → Backend × Bool
unfolding exchange_http
proxy_http json machine route before answer behind b =
    let (m, opened) = open_stream json route b.mux in
    elim opened [
      | none ↦ (record b { mux = m }, true)
      | some p ↦ (
        exchange_http machine route b.mux.next_id p before answer behind (record b { mux = m }),
        false,
      )
    ]

-- A connection that stays open, of the type `ws` or `tcp`: it is counted as open while its handler
-- runs. The times are those of OpenConn and CloseConn.
pub exchange_conn :
    (machine route type : Bytes) (id p opened closed : ℕ)
    → List Step
    → List Step
    → Backend
    → Backend
unfolding count_log
exchange_conn machine route type id p opened closed before behind b =
    let b1 = run_steps id p before (bridge_of b.mux) in
    let b2 = end_stream id p behind b1 in
    let reg = open_conn opened machine route type b.metrics in
    record {
      mux = b2.mux;
      metrics =
          count_log machine route type b2.log
            (close_conn closed machine route type (count_log machine route type b1.log reg));
    }

pub proxy_conn :
    OpenJson
    → (machine route type : Bytes) (opened closed : ℕ) → List Step
    → List Step
    → Backend
    → Backend × Bool
unfolding exchange_conn
proxy_conn json machine route type opened closed before behind b =
    let (m, stream) = open_stream json route b.mux in
    elim stream [
      | none ↦ (record b { mux = m }, true)
      | some p ↦ (
        exchange_conn machine route type b.mux.next_id p opened closed before behind
            (record b { mux = m }),
        false,
      )
    ]

-- What becomes of the public connection of a WebSocket: it cannot be taken over, the request cannot be
-- serialized, taking it over fails, or it is taken over, with the serialized request and the time at
-- which it is sent.
pub data Upgrade : Type 0 where
  not_hijackable not_serialized hijack_failed : Upgrade
  hijacked : (request : Bytes) (at : ℕ) → Upgrade

abbrev pub no_stream : Response
no_stream = http_error 502 (codes "failed to open tunnel stream")

-- A stream that is opened and closed with nothing between.
pub open_and_close : OpenJson → Bytes → Backend → Backend × Bool
open_and_close json route b =
    let (m, stream) = open_stream json route b.mux in
    elim stream [
      | none ↦ (record b { mux = m }, true)
      | some p ↦ (record b { mux = close_stream b.mux.next_id m }, false)
    ]

abbrev answer_failed : Backend × Bool → Backend × Option Response
answer_failed (b, failed) = (b, if failed then some no_stream else none)

-- The handler of a WebSocket sends the request first and returns where that fails, before its loops.
pub behind_request : OpenJson → (route request : Bytes) → Backend → List Step → List Step
behind_request json route request b steps =
    let m = (open_stream json route b.mux).0 in
    if (send_data b.mux.next_id request m).1 then steps else []

-- `handleWebSocketProxy`
pub proxy_websocket :
    OpenJson
    → (machine route : Bytes) (opened closed : ℕ) → Upgrade
    → List Step
    → List Step
    → Backend
    → Backend × Option Response
unfolding proxy_conn open_and_close behind_request
proxy_websocket json machine route opened closed not_hijackable before behind b =
    (b, some (http_error 500 (codes "websocket: response writer not hijackable")))
proxy_websocket json machine route opened closed not_serialized before behind b =
    (b, some (http_error 500 (codes "websocket: serialize request")))
proxy_websocket json machine route opened closed hijack_failed before behind b =
    answer_failed (open_and_close json route b)
proxy_websocket json machine route opened closed (hijacked request at) before behind b =
    let first = reads (record { bytes = request; ended = false; at = at }) in
    answer_failed (
      proxy_conn json machine route (codes "ws") opened closed
        (first ∷ behind_request json route request b before)
        (behind_request json route request b behind) b)

-- handlePlainTCPConn, where findRoute gives the machine of this connection.
pub proxy_tcp :
    OpenJson
    → (machine route : Bytes) (opened closed : ℕ) → List Step
    → List Step
    → Backend
    → Backend
unfolding proxy_conn
proxy_tcp json machine route opened closed before behind b =
    (proxy_conn json machine route (codes "tcp") opened closed before behind b).0
