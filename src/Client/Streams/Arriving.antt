-- ===== src/Client/Streams/Arriving.antt =====
-- The client's answer at the server's end of the tunnel.
use etunl_cli.Base.{ℕ, ◌≤◌, ◌≡◌, Bool, true, false, none, some, [], length, nat_eq, arith}
use etunl_cli.Base.Bytes.{Bytes}
use etunl_cli.Base.Dict.{lookup}
use etunl_cli.Config.Routes.{ClientConfig}
use etunl_cli.Tunnel.Mux.{OpenJson, Mux, Stream, data_ch_cap}
use etunl_cli.Tunnel.Mux.WellFormed.{IsWellFormed}
use etunl_cli.Tunnel.Mux.Apart.{Holds}
use etunl_cli.Tunnel.Pump.Copying.{mine, data_of}
use etunl_cli.Tunnel.Pump.Fitting.{AllSent}
use etunl_cli.Tunnel.Conn.{messages, read_messages}
use etunl_cli.Tunnel.Conn.Loop.{Fits}
use etunl_cli.Tunnel.Conn.Arriving.{Brings, stream_with}
use etunl_cli.Tunnel.Conn.Arriving.Streams.{read_open}
use etunl_cli.Client.Streams.{Around, handle_stream}
use etunl_cli.Client.Streams.Fitting.{KeepsAround, handle_stream-AllSent}
use etunl_cli.Client.Streams.Wire.{IsQuietAround, reply, behind_of, handle_stream-sent}

-- What the client answers to a stream arrives. The link works, the client has the stream in its map
-- and has sent nothing on it yet, the other goroutines are apart from it, every frame sent, theirs
-- included, has a 32-bit id and at most 1 MB, and the reply has at most 64 payloads. Then a server with
-- a well-formed Mux that has an open stream of this id with an empty channel reads the messages of all
-- frames that the client has sent, with those of other streams between them, and the stream is closed
-- with exactly the payloads of the reply in its channel, in order, and out of the map; or its read loop
-- waits with a frame of another stream. The server's handlers do nothing meanwhile.
pub handle_stream-arrives :
    (json : OpenJson) (pick : Bytes → Bool) (a : Around) (c : ClientConfig) (s : Stream) (p q : ℕ)
    (route : Bytes) (m far : Mux)
    → m.link_up ≡ true
    → lookup s.id m.streams ≡ some p
    → mine s.id m.sent ≡ []
    → IsQuietAround s.id a
    → KeepsAround Fits s.id a
    → AllSent Fits m
    → length (reply a c s.route).0 ≤ data_ch_cap
    → IsWellFormed far
    → Holds s.id q (stream_with s.id route [] false) (some q) far
    → Brings s.id
        (Holds s.id q (stream_with s.id route (reply a c s.route).0 true) none)
        (read_messages json pick (messages (handle_stream a c s p m).0.sent) far)
handle_stream-arrives json pick a c s p q route m far up found new quiet keep all room w held =
    let (payloads, going) = reply a c s.route in
    read_open json pick s.id q route [] payloads (data_of going (behind_of a c s.route))
      (handle_stream a c s p m).0.sent far (handle_stream-AllSent Fits a c s p m keep up quiet all)
      w held (omega arith) (rw new at (handle_stream-sent a c s p m up found quiet))
