-- ===== src/Server/Relay/Wire.antt =====
-- What a proxied request puts on the wire.
use etunl_cli.Base.{◌≡◌, true, List, ◌∷◌, ◌++◌, nat_eq, All}
use etunl_cli.Base.Bytes.{Bytes}
use etunl_cli.Tunnel.Mux.{OpenJson, open_frame, close_frame}
use etunl_cli.Tunnel.Mux.Opening.{open_stream_ok}
use etunl_cli.Tunnel.Pump.{Step}
use etunl_cli.Tunnel.Pump.Copying.{mine, data_of, data_frames, going_behind, IsQuiet, sent-stream}
use etunl_cli.Server.Relay.{Answer, Backend, exchange_http, proxy_http}

-- Over a working link, with the steps of the others apart from the stream, the frames with the id of
-- the new stream are one StreamOpen frame with the route, a StreamData frame for each read of the
-- request's bytes that gave any, one StreamClose frame, and behind it only the reads of a goroutine
-- that had not come to the end of the request.
pub proxy_http-sent :
    (json : OpenJson) (machine route : Bytes) (before behind : List Step) (answer : Answer)
    (b : Backend)
    → b.mux.link_up ≡ true
    → All (IsQuiet b.mux.next_id) before
    → All (IsQuiet b.mux.next_id) behind
    → let id = b.mux.next_id in
      mine id (proxy_http json machine route before answer behind b).0.mux.sent
      ≡ mine id b.mux.sent
        ++ (open_frame json id route
            ∷ (data_frames id (data_of true before)
                ++ (close_frame id ∷ data_frames id (data_of (going_behind true before) behind))))
unfolding proxy_http exchange_http
proxy_http-sent json machine route before behind answer b up q1 q2 =
    rw (proxy_http, (open_stream_ok json route b.mux up).0)
      (sent-stream json route before behind b.mux up q1 q2)
