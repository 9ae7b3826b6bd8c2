-- ===== src/Client/Streams/Tests.antt =====
-- A stream whose target cannot be dialed, and the theorem at this input.
use etunl_cli.Base.{
  ◌≡◌, refl, true, false, none, some, [], ◌∷◌, ◌++◌, nat_eq, arith, Bool, ◌≤◌, length,
}
use etunl_cli.Base.Bytes.{Bytes, codes}
use etunl_cli.Base.Dict.{lookup}
use etunl_cli.Base.Int.{pos}
use etunl_cli.Config.Routes.{find_route, find_in, ClientConfig}
use etunl_cli.Server.Http.{is_websocket_upgrade, Request}
use etunl_cli.Tunnel.Mux.Opening.{open_stream_ok}
use etunl_cli.Tunnel.Mux.Preservation.{open_stream-IsWellFormed, new_mux-IsWellFormed}
use etunl_cli.Tunnel.Mux.{OpenJson, open_stream, data_ch_cap, Mux, new_mux, new_stream, close_frame}
use etunl_cli.Tunnel.Pump.{picks, others, takes}
use etunl_cli.Tunnel.Pump.Copying.{mine, data_of, data_frames, IsApart}
use etunl_cli.Tunnel.Mux.Apart.{Holds}
use etunl_cli.Tunnel.Conn.{messages, read_messages}
use etunl_cli.Tunnel.Conn.Loop.{Fits}
use etunl_cli.Tunnel.Conn.Arriving.{Brings, stream_with}
use etunl_cli.Client.Streams.Fitting.{KeepsAround}
use etunl_cli.Client.Streams.Arriving.{handle_stream-arrives}
use etunl_cli.Client.Streams.{Around, unreachable, handle_stream}
use etunl_cli.Client.Streams.Wire.{
  request_reply, http_reply, IsQuietAround, reply, behind_of, handle_stream-sent,
}

abbrev plain : OpenJson
plain = record { marshal = λ s. s; unmarshal = λ s. some s }

abbrev always : Bytes → Bool
always rest = true

abbrev app : Bytes
app = codes "app"

abbrev config : ClientConfig
config = record {
  server = codes "s";
  token = codes "t";
  machine_name = codes "m";
  routes =
      record {
        name = app;
        type = codes "http";
        target = codes "localhost:3000";
        local_port = pos 0;
        auth = none;
      }
      ∷ [];
}

abbrev plain_get : Request
plain_get = record {
  method = codes "GET";
  host = codes "app.x.io";
  path = codes "/";
  request_uri = codes "/";
  query_redirect = [];
  cookies = [];
  form = none;
  tls = false;
  header = λ n. [];
  connection = [];
  basic_auth = none;
  body = some [];
}

abbrev around : Around
around = record {
  waiting = picks (takes true 1) ∷ others (λ m. m) ∷ [];
  request = some plain_get;
  target = unreachable;
  behind = [];
  bad_gateway = codes "HTTP/1.1 502 Bad Gateway";
}

abbrev one_open : Mux
one_open = record (new_mux true) { heap = new_stream 1 app ∷ []; streams = (1, 0) ∷ [] }

idle-IsApart : IsApart 1 (λ m. m)
idle-IsApart = record { frames = λ m. refl; link = λ m. refl; entry = λ m. refl }

around-IsQuietAround : IsQuietAround 1 around
around-IsQuietAround = record { waiting = (tt, (idle-IsApart, tt)); target = tt; behind = tt }

found_one : lookup 1 one_open.streams ≡ some 0
unfolding lookup
found_one = refl

handle_stream-sent_example :
    let (payloads, going) = reply around config app in
    mine 1 (handle_stream around config (new_stream 1 app) 0 one_open).0.sent
    ≡ mine 1 []
      ++ (data_frames 1 payloads
          ++ (close_frame 1 ∷ data_frames 1 (data_of going (behind_of around config app))))
handle_stream-sent_example =
    handle_stream-sent around config (new_stream 1 app) 0 one_open refl found_one
      around-IsQuietAround

around-KeepsAround : KeepsAround Fits 1 around
around-KeepsAround = record {
  waiting = (tt, ((λ m all. all), tt));
  target = tt;
  behind = tt;
  answer = (omega arith, omega arith);
  end = (omega arith, omega arith);
}

-- The server's end: it has opened the stream, and nothing has come yet.
abbrev opened : Mux
opened = (open_stream plain app (new_mux false)).0

opened_held : Holds 1 0 (stream_with 1 app [] false) (some 0) opened
opened_held =
    let (_, whole) = open_stream_ok plain app (new_mux false) refl in
    record { entry = whole.registered; at = whole.object }

nothing_sent : mine 1 one_open.sent ≡ []
unfolding mine
nothing_sent = refl

one_payload : length (reply around config app).0 ≤ data_ch_cap
unfolding reply request_reply http_reply find_route find_in is_websocket_upgrade
    etunl_cli.Base.Bytes.bytes_eq
one_payload = omega arith

handle_stream-arrives_example :
    Brings 1 (Holds 1 0 (stream_with 1 app (reply around config app).0 true) none) (
      read_messages plain always
        (messages (handle_stream around config (new_stream 1 app) 0 one_open).0.sent)
        opened)
handle_stream-arrives_example =
    handle_stream-arrives plain always around config (new_stream 1 app) 0 0 app one_open opened refl
      found_one nothing_sent around-IsQuietAround around-KeepsAround tt one_payload
      (open_stream-IsWellFormed plain app (new_mux false) (new_mux-IsWellFormed false)) opened_held
