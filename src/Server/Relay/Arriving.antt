-- ===== src/Server/Relay/Arriving.antt =====
-- A proxied request at the other end of the tunnel.
use etunl_cli.Base.{◌≤◌, ◌≡◌, ◌∙◌, refl, arith, Bool, true, some, List, [], length, All}
use etunl_cli.Base.Bytes.{Bytes}
use etunl_cli.Tunnel.Mux.{OpenJson, Mux, data_ch_cap, open_stream, open_frame}
use etunl_cli.Tunnel.Mux.Opening.{open_stream_ok, link-open_stream}
use etunl_cli.Tunnel.Mux.WellFormed.{IsWellFormed}
use etunl_cli.Tunnel.Pump.{Step, bridge_of, run_steps}
use etunl_cli.Tunnel.Pump.Copying.{mine, data_of, going_behind, IsQuiet, run_steps-Ran}
use etunl_cli.Tunnel.Pump.Fitting.{
  AllSent, Keeps, open_stream-AllSent, run_steps-AllSent, end_stream-AllSent,
}
use etunl_cli.Tunnel.Conn.{messages, read_messages}
use etunl_cli.Tunnel.Conn.Loop.{Fits}
use etunl_cli.Tunnel.Conn.Arriving.{Brings}
use etunl_cli.Tunnel.Conn.Arriving.Streams.{Carried, read_stream}
use etunl_cli.Server.Relay.{Answer, Backend, exchange_http, proxy_http}
use etunl_cli.Server.Relay.Wire.{proxy_http-sent}

-- All frames that the server has sent behind a request can be carried, if those before it can, and
-- those that the steps make.
proxy_http-AllSent :
    (json : OpenJson) (machine route : Bytes) (before behind : List Step) (answer : Answer)
    (b : Backend)
    → b.mux.link_up ≡ true
    → All (IsQuiet b.mux.next_id) before
    → Fits (open_frame json b.mux.next_id route)
    → All (Keeps Fits b.mux.next_id) before
    → All (Keeps Fits b.mux.next_id) behind
    → AllSent Fits b.mux
    → AllSent Fits (proxy_http json machine route before answer behind b).0.mux
unfolding proxy_http exchange_http
proxy_http-AllSent json machine route before behind answer b up quiet fit k1 k2 all =
    let id = b.mux.next_id in
    let p = length b.mux.heap in
    let m1 = (open_stream json route b.mux).0 in
    let up1 = link-open_stream json route b.mux ∙ up in
    let ran = run_steps-Ran id p true before (bridge_of m1) up1 refl quiet in
    let all1 = open_stream-AllSent Fits json route b.mux up fit all in
    rw (proxy_http, (open_stream_ok json route b.mux up).0)
      (end_stream-AllSent Fits id p behind (run_steps id p before (bridge_of m1))
        (ran.sends.link ∙ up1) (fit.0, omega arith) k2
        (run_steps-AllSent Fits id p before (bridge_of m1) k1 all1))

-- A request that the server hands to a machine arrives. The link works, encoding/json reads the route
-- back, the id of the stream has not been on the wire, the other goroutines are apart from the stream,
-- every frame sent, theirs included, has a 32-bit id and at most 1 MB, and the request comes in at most
-- 64 reads with bytes. Then a machine that has its callback set and a well-formed Mux reads the
-- messages of all frames that the server has sent, with those of other streams between them, and it
-- has a closed stream object with the id, the route and exactly the payloads of these reads, in order,
-- no entry of the id, and has started the handler of the object; or its read loop waits with a frame
-- of another stream. The machine's handlers do nothing meanwhile.
pub proxy_http-arrives :
    (json : OpenJson) (pick : Bytes → Bool) (machine route : Bytes) (before behind : List Step)
    (answer : Answer) (b : Backend) (far : Mux)
    → json.unmarshal (json.marshal route) ≡ some route
    → b.mux.link_up ≡ true
    → mine b.mux.next_id b.mux.sent ≡ []
    → All (IsQuiet b.mux.next_id) before
    → All (IsQuiet b.mux.next_id) behind
    → Fits (open_frame json b.mux.next_id route)
    → All (Keeps Fits b.mux.next_id) before
    → All (Keeps Fits b.mux.next_id) behind
    → AllSent Fits b.mux
    → length (data_of true before) ≤ data_ch_cap
    → IsWellFormed far
    → far.on_stream ≡ true
    → let id = b.mux.next_id in
      let sent = (proxy_http json machine route before answer behind b).0.mux.sent in
      Brings id
        (Carried id route (data_of true before))
        (read_messages json pick (messages sent) far)
proxy_http-arrives json pick machine route before behind answer b far inverse up new q1 q2 fit k1 k2
      all room w on =
    read_stream json pick b.mux.next_id route (data_of true before)
      (data_of (going_behind true before) behind)
      (proxy_http json machine route before answer behind b).0.mux.sent far inverse
      (proxy_http-AllSent json machine route before behind answer b up q1 fit k1 k2 all) w on room
      (rw new at (proxy_http-sent json machine route before behind answer b up q1 q2))
