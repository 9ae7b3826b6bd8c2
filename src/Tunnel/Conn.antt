-- ===== src/Tunnel/Conn.antt =====
-- internal/tunnel/conn.go: the read loop of a connection over the messages that the websocket
-- delivers, Close, and the pings. A message is a list of bytes that holds frames back to back.
pub mod Loop
pub mod Closing
pub mod Arriving
pub mod Serving
mod Tests
use etunl_cli.Base.{
  ℕ, zero, suc, Bool, true, not, ◌&&◌, List, [], ◌∷◌, ◌++◌, Option, none, some, ok, err, length,
  if◌then◌else◌,
}
use etunl_cli.Base.Bytes.{Bytes}
use etunl_cli.Tunnel.Frame.{Frame, frame_ping, decode_frame, encode_frame}
use etunl_cli.Tunnel.Mux.{
  OpenJson, Mux, Handled, returned, blocked, handle_frame, send_frame, close_all, new_mux,
}

-- What becomes of the frames of a message: all are handled, or HandleFrame waits with a frame in its
-- hands and the rest of the message unread. `starved` is no Go value: the fuel ran out.
pub data Reading : Type 0 where
  drained : Mux → Reading
  waiting : Mux → Frame → Bytes → Reading
  starved : Reading

-- Frames back to back, as EncodeFrame writes them.
pub wire : List Frame → Bytes
wire [] = []
wire (f ∷ fs) = encode_frame f ++ wire fs

-- `pick` resolves the select of HandleFrame, for the frame in front of the given rest of the message.
module _ (json : OpenJson) (pick : Bytes → Bool) where
  -- `for reader.Len() > 0`: a decode error ends the message, an error of HandleFrame is logged.
  pub handle_message : ℕ → Bytes → Mux → Reading
  handle_message fuel [] m = drained m
  handle_message zero (b ∷ bs) m = starved
  handle_message (suc fuel) (b ∷ bs) m = elim (decode_frame (b ∷ bs)) [
    | err e ↦ drained m
    | ok (f, rest) ↦ elim (handle_frame json (pick rest) f m) [
      | returned m' e ↦ handle_message fuel rest m'
      | blocked ↦ waiting m f rest
    ]
  ]

  -- The frames one after another, each on what the one before it left.
  pub run_frames : List Frame → Mux → Reading
  run_frames [] m = drained m
  run_frames (f ∷ fs) m = elim (handle_frame json (pick (wire fs)) f m) [
    | returned m' e ↦ run_frames fs m'
    | blocked ↦ waiting m f (wire fs)
  ]

-- A websocket message: a binary one, or one of another type, which the loop skips.
pub data WsMessage : Type 0 where
  binary : Bytes → WsMessage
  other : WsMessage

-- `sendFrame` writes every frame as a binary message of its own.
unfoldable pub messages : List Frame → List WsMessage
messages [] = []
messages (f ∷ fs) = binary (encode_frame f) ∷ messages fs

pub record Conn : Type 0 where
  pub mux : Mux
  pub done : Bool
  pub ws_closed : Bool

-- `Conn.Close`
unfoldable pub close_conn : Conn → Conn
close_conn c = record { mux = close_all c.mux; done = true; ws_closed = true }

pub data LoopEnd : Type 0 where
  ended : Conn → LoopEnd
  stalled : LoopEnd

module _ (json : OpenJson) (pick : Bytes → Bool) where
  pub read_messages : List WsMessage → Mux → Reading
  read_messages [] m = drained m
  read_messages (other ∷ ms) m = read_messages ms m
  read_messages (binary msg ∷ ms) m = elim (handle_message json pick (length msg) msg m) [
    | drained m' ↦ read_messages ms m'
    | waiting m' f rest ↦ waiting m' f rest
    | starved ↦ starved
  ]

  -- `ReadLoop` over the messages that come before the websocket fails.
  pub read_loop : List WsMessage → Conn → LoopEnd
  unfolding close_conn
  read_loop ms c = elim (read_messages ms c.mux) [
    | drained m ↦ ended (close_conn (record c { mux = m }))
    | waiting m f rest ↦ stalled
    | starved ↦ stalled
  ]

abbrev ping_frame : Frame
ping_frame = record { type = frame_ping; stream_id = 0; payload = [] }

-- What the goroutine of StartPing and the others do: its ticker fires; it sees that the connection is
-- closed; or the others change the connection.
pub data PingStep : Type 0 where
  ticks sees_done : PingStep
  others : (Conn → Conn) → PingStep

ping : Conn → Conn × Bool
ping c = let (m, sent) = send_frame ping_frame c.mux in (record c { mux = m }, sent)

-- `StartPing`: the connection behind these steps, and whether the goroutine still runs. A frame that
-- cannot be sent ends it.
pub start_ping : List PingStep → Conn × Bool → Conn × Bool
unfolding ping
start_ping [] s = s
start_ping (ticks ∷ ps) (c, running) = start_ping ps (if running then ping c else (c, running))
start_ping (sees_done ∷ ps) (c, running) = start_ping ps (c, running && not c.done)
start_ping (others f ∷ ps) (c, running) = start_ping ps (f c, running)
