-- ===== src/Server/Relay/Serving.antt =====
-- A proxied request at the machine's end, while handlers are at work there.
use etunl_cli.Base.{ℕ, ◌≡◌, true, none, some, List, [], ◌++◌, All}
use etunl_cli.Base.Bytes.{Bytes}
use etunl_cli.Tunnel.Mux.{OpenJson, Mux}
use etunl_cli.Tunnel.Mux.WellFormed.{IsWellFormed}
use etunl_cli.Tunnel.Mux.Apart.{Holds}
use etunl_cli.Tunnel.Pump.{Step}
use etunl_cli.Tunnel.Pump.Copying.{mine, data_of, going_behind, IsQuiet}
use etunl_cli.Tunnel.Conn.Arriving.{stream_with}
use etunl_cli.Tunnel.Conn.Serving.{Turn, turns, taken_from}
use etunl_cli.Tunnel.Conn.Serving.Stages.{Stage, all_read}
use etunl_cli.Tunnel.Conn.Serving.Order.{begins, turns-Stage}
use etunl_cli.Server.Relay.{Answer, Backend, proxy_http}
use etunl_cli.Server.Relay.Wire.{proxy_http-sent}

module _ (json : OpenJson) (machine route : Bytes) (before behind : List Step) (answer : Answer)
    (b : Backend) (far : Mux) (ts : List Turn)
    (inverse : json.unmarshal (json.marshal route) ≡ some route) (up : b.mux.link_up ≡ true)
    (new : mine b.mux.next_id b.mux.sent ≡ []) (q1 : All (IsQuiet b.mux.next_id) before)
    (q2 : All (IsQuiet b.mux.next_id) behind) (whole : IsWellFormed far) where
  -- The link works, encoding/json reads the route back, the id of the stream has not been on the wire,
  -- the server's other goroutines are apart from it, and the machine's Mux is well formed. Then,
  -- however the machine's read loop and the handlers of all its streams, which take payloads and do
  -- nothing else, take turns on the frames that the server has sent, with those of other streams
  -- between them, at every moment either the StreamOpen frame of the request is still to be read; or
  -- its stream is open with its id and route, and the payloads that its handler has taken, those in
  -- its channel and those still to be read are those of the request, in order; or it is closed, and
  -- the payloads taken and those in its channel are those of the request, in order.
  pub proxy_http-Stage :
      let sent = (proxy_http json machine route before answer behind b).0.mux.sent in
      Stage json b.mux.next_id route (data_of true before) (turns json ts (begins sent far))
  proxy_http-Stage =
      turns-Stage json b.mux.next_id route (data_of true before)
        (data_of (going_behind true before) behind)
        (proxy_http json machine route before answer behind b).0.mux.sent far ts inverse whole
        (rw new at (proxy_http-sent json machine route before behind answer b up q1 q2))

  -- Once all frames have been read, the handler has taken the whole request, or finds what is left of
  -- it in the channel of its closed stream.
  pub proxy_http_read :
      let sent = (proxy_http json machine route before answer behind b).0.mux.sent in
      let far' = turns json ts (begins sent far) in
      far'.wire ≡ []
      → (p : ℕ) × (ch : List Bytes) × Holds b.mux.next_id p
          (stream_with b.mux.next_id route ch true)
          none
          far'.mux
        × (taken_from p far'.taken ++ ch ≡ data_of true before)
  proxy_http_read done =
      all_read json b.mux.next_id route (data_of true before)
        (turns json ts
          (begins (proxy_http json machine route before answer behind b).0.mux.sent far))
        done proxy_http-Stage
