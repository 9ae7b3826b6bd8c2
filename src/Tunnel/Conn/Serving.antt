-- ===== src/Tunnel/Conn/Serving.antt =====
-- internal/tunnel/conn.go and the handlers of streams: the read loop and the handlers of one end at
-- work at once, on the frames that the other end has sent.
pub mod Stages
pub mod Reading
pub mod Taking
pub mod Order
pub mod Turning
pub mod Fairness
mod Tests
use etunl_cli.Base.{
  ℕ, Bool, none, some, Option, List, [], ◌∷◌, ◌++◌, ◌==◌, get_elem?, modify, if◌then◌else◌,
}
use etunl_cli.Base.Bytes.{Bytes}
use etunl_cli.Tunnel.Frame.{Frame}
use etunl_cli.Tunnel.Mux.{OpenJson, Mux, Stream, Handled, returned, blocked, handle_frame, receive}

-- The frames that are still to be read, the multiplexer, and what the handlers have taken out of the
-- streams, with the object that each payload came from.
pub record Peer : Type 0 where
  pub wire : List Frame
  pub mux : Mux
  pub taken : List (ℕ × Bytes)

-- The read loop handles its next frame, where `pick` resolves the select of HandleFrame; or the
-- handler of an object takes a payload from its channel; nothing else is done to the Mux.
pub data Turn : Type 0 where
  reads : (pick : Bool) → Turn
  takes : (p : ℕ) → Turn

-- The read loop waits with the frame where HandleFrame waits.
after_frame : Peer → List Frame → Handled → Peer
after_frame s fs (returned m e) = record s { wire = fs; mux = m }
after_frame s fs blocked = s

read_frame : OpenJson → Bool → List Frame → Peer → Peer
unfolding after_frame
read_frame json pick [] s = s
read_frame json pick (f ∷ fs) s = after_frame s fs (handle_frame json pick f s.mux)

-- A handler whose channel is empty waits.
take_payload : ℕ → List Bytes → Peer → Peer
unfolding receive
take_payload p [] s = s
take_payload p (payload ∷ rest) s = record s {
  mux = record s.mux { heap = modify receive p s.mux.heap };
  taken = s.taken ++ (p, payload) ∷ [];
}

take_from : ℕ → Option Stream → Peer → Peer
unfolding take_payload
take_from p none s = s
take_from p (some t) s = take_payload p t.data_ch s

pub turn : OpenJson → Turn → Peer → Peer
unfolding read_frame take_from
turn json (reads pick) s = read_frame json pick s.wire s
turn json (takes p) s = take_from p (get_elem? s.mux.heap p) s

-- The read loop and the handlers in any interleaving of their turns.
pub turns : OpenJson → List Turn → Peer → Peer
unfolding turn
turns json [] s = s
turns json (t ∷ ts) s = turns json ts (turn json t s)

-- What has been taken from one object.
unfoldable pub taken_from : ℕ → List (ℕ × Bytes) → List Bytes
taken_from p [] = []
taken_from p ((q, payload) ∷ log) =
    let rest = taken_from p log in if q == p then payload ∷ rest else rest
