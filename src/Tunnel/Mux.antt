-- ===== src/Tunnel/Mux.antt =====
-- internal/tunnel/stream.go: Stream and Mux. Streams are objects that the map and the goroutines
-- share, so they stand on a heap and a `*Stream` is an index into it. encoding/json is a parameter.
-- A frame that is sent is appended to `sent`; `link_up` says whether the websocket takes it.
-- A `go m.onStream(s)` is recorded in `started`, a call of the route sync handler in `synced`.
pub mod Opening
pub mod Closing
pub mod Delivery
pub mod Progress
pub mod Waiting
pub mod WellFormed
pub mod Preservation
pub mod Apart
pub mod Growing
mod Tests
use etunl_cli.Base.{
  ℕ, ◌+◌, ◌%◌, ◌^◌, Bool, true, false, Option, none, some, List, [], ◌∷◌, ◌++◌, Result, ok, err,
  length, get_elem?, modify, ltb, ◌==◌, if◌then◌else◌, nat_eq,
}
use etunl_cli.Base.Bytes.{Bytes}
use etunl_cli.Base.Dict.{Dict, lookup, insert, erase}
use etunl_cli.Tunnel.Frame.{
  Frame, frame_stream_open, frame_stream_data, frame_stream_close, frame_route_sync, frame_ping,
  frame_pong,
}

-- `closed` and the channel `Done` change together: `done` is both. `DataCh` holds 64 payloads.
pub record Stream : Type 0 where
  pub id : ℕ
  pub route : Bytes
  pub data_ch : List Bytes
  pub done : Bool

abbrev pub data_ch_cap : ℕ
data_ch_cap = 64

abbrev pub new_stream : ℕ → Bytes → Stream
new_stream id route = record { id = id; route = route; data_ch = []; done = false }

-- `Stream.Close`: the compare-and-swap makes every call but the first one do nothing.
pub close : Stream → Stream
close s = if s.done then s else record s { done = true }

-- `<-s.DataCh` in a handler takes the oldest payload out of the channel.
unfoldable pub receive : Stream → Stream
receive s = elim s.data_ch [ [] ↦ s | payload ∷ rest ↦ record s { data_ch = rest } ]

pub record Mux : Type 0 where
  pub heap : List Stream
  pub streams : Dict ℕ ℕ
  pub next_id : ℕ
  pub link_up : Bool
  pub sent : List Frame
  pub on_stream : Bool
  pub started : List ℕ
  pub on_route_sync : Bool
  pub synced : List Bytes

-- `NewMux`, over a link that takes frames; `on_stream` says whether the callback is set.
abbrev pub new_mux : Bool → Mux
new_mux on_stream = record {
  heap = [];
  streams = [];
  next_id = 1;
  link_up = true;
  sent = [];
  on_stream = on_stream;
  started = [];
  on_route_sync = false;
  synced = [];
}

-- json.Marshal and json.Unmarshal of a StreamOpenPayload.
pub record OpenJson : Type 0 where
  pub marshal : Bytes → Bytes
  pub unmarshal : Bytes → Option Bytes

unfoldable pub send_frame : Frame → Mux → Mux × Bool
send_frame f m = if m.link_up then (record m { sent = m.sent ++ f ∷ [] }, true) else (m, false)

pub remove_stream : ℕ → Mux → Mux
remove_stream id m = record m { streams = erase id m.streams }

-- `s := NewStream(id, route); m.streams[id] = s`
pub add_stream : ℕ → Bytes → Mux → Mux
add_stream id route m = record m {
  heap = m.heap ++ new_stream id route ∷ [];
  streams = insert id (length m.heap) m.streams;
}

abbrev pub open_frame : OpenJson → ℕ → Bytes → Frame
open_frame json id route = record {
  type = frame_stream_open;
  stream_id = id;
  payload = json.marshal route;
}

-- The state in which OpenStream sends its frame: the stream is registered, the counter advanced.
pub opening : Bytes → Mux → Mux
unfolding add_stream
opening route m = record (add_stream m.next_id route m) { next_id = (m.next_id + 2) % 2 ^ 32 }

-- `if err != nil { m.removeStream(id); return nil, err }; return s, nil`
finish_open : ℕ → ℕ → Mux × Bool → Mux × Option ℕ
unfolding remove_stream
finish_open id p (m, true) = (m, some p)
finish_open id p (m, false) = (remove_stream id m, none)

-- The pointer to the new stream, or `none` for the error.
pub open_stream : OpenJson → Bytes → Mux → Mux × Option ℕ
unfolding finish_open
open_stream json route m =
    finish_open m.next_id (length m.heap)
      (send_frame (open_frame json m.next_id route) (opening route m))

pub data HandleError : Type 0 where
  invalid_stream_open send_failed : HandleError

-- What a call of HandleFrame comes to: it returns, or it waits at the `select`, with nothing changed.
pub data Handled : Type 0 where
  returned : Mux → Option HandleError → Handled
  blocked : Handled

-- `select { case s.DataCh <- f.Payload: case <-s.Done: }`. Where both are ready Go picks: `pick`.
pub deliver : Bool → Bytes → Stream → Option Stream
deliver pick payload s =
    let sent = record s { data_ch = s.data_ch ++ payload ∷ [] } in
    if ltb (length s.data_ch) data_ch_cap
    then (if s.done then (if pick then some sent else some s) else some sent)
    else if s.done
    then some s
    else none

settle : Mux → ℕ → Option Stream → Handled
settle m p none = blocked
settle m p (some s) = returned (record m { heap = modify (λ _. s) p m.heap }) none

deliver_at : Bool → Bytes → Mux → ℕ → Option Stream → Handled
unfolding settle
deliver_at pick payload m p none = returned m none
deliver_at pick payload m p (some s) = settle m p (deliver pick payload s)

pub start : ℕ → Mux → Mux
start p m = if m.on_stream then record m { started = m.started ++ p ∷ [] } else m

open_remote : ℕ → Mux → Option Bytes → Handled
unfolding add_stream start
open_remote id m none = returned m (some invalid_stream_open)
open_remote id m (some route) = returned (start (length m.heap) (add_stream id route m)) none

pub handle_open : OpenJson → Frame → Mux → Handled
unfolding open_remote
handle_open json f m = open_remote f.stream_id m (json.unmarshal f.payload)

route_data : Bool → Bytes → Mux → Option ℕ → Handled
unfolding deliver_at
route_data pick payload m none = returned m none
route_data pick payload m (some p) = deliver_at pick payload m p (get_elem? m.heap p)

pub handle_data : Bool → Frame → Mux → Handled
unfolding route_data
handle_data pick f m = route_data pick f.payload m (lookup f.stream_id m.streams)

drop_at : ℕ → Mux → Option ℕ → Mux
unfolding close remove_stream
drop_at id m none = m
drop_at id m (some p) = remove_stream id (record m { heap = modify close p m.heap })

-- `s.Close(); m.removeStream(id)`, if the map has the id.
pub drop_stream : ℕ → Mux → Mux
unfolding drop_at
drop_stream id m = drop_at id m (lookup id m.streams)

abbrev pub pong_frame : ℕ → Frame
pong_frame id = record { type = frame_pong; stream_id = id; payload = [] }

pub handle_ping : Frame → Mux → Handled
unfolding send_frame
handle_ping f m =
    let (m', sent) = send_frame (pong_frame f.stream_id) m in
    returned m' (if sent then none else some send_failed)

pub route_sync : Bytes → Mux → Mux
route_sync payload m = if m.on_route_sync then record m { synced = m.synced ++ payload ∷ [] } else m

-- Mux.HandleFrame. Pong frames and unknown types are ignored.
pub handle_frame : OpenJson → Bool → Frame → Mux → Handled
handle_frame json pick f m =
    if f.type == frame_stream_open
    then handle_open json f m
    else if f.type == frame_stream_data
    then handle_data pick f m
    else if f.type == frame_stream_close
    then returned (drop_stream f.stream_id m) none
    else if f.type == frame_route_sync
    then returned (route_sync f.payload m) none
    else if f.type == frame_ping
    then handle_ping f m
    else returned m none

abbrev pub data_frame : ℕ → Bytes → Frame
data_frame id payload = record { type = frame_stream_data; stream_id = id; payload = payload }

unfoldable pub send_data : ℕ → Bytes → Mux → Mux × Bool
send_data id payload = send_frame (data_frame id payload)

abbrev pub close_frame : ℕ → Frame
close_frame id = record { type = frame_stream_close; stream_id = id; payload = [] }

close_at : ℕ → Mux → Option ℕ → Mux
unfolding drop_at send_frame
close_at id m none = m
close_at id m (some p) = (send_frame (close_frame id) (drop_at id m (some p))).0

-- Mux.CloseStream; the error of the send is dropped.
pub close_stream : ℕ → Mux → Mux
unfolding close_at
close_stream id m = close_at id m (lookup id m.streams)

-- The loop of CloseAll over the map.
pub close_each : Dict ℕ ℕ → List Stream → List Stream
unfolding close
close_each [] heap = heap
close_each ((id, p) ∷ rest) heap = close_each rest (modify close p heap)

unfoldable pub close_all : Mux → Mux
unfolding close_each
close_all m = record m { heap = close_each m.streams m.heap; streams = [] }

-- Mux.SendRouteSync, given what json.Marshal makes of the routes.
unfoldable pub send_route_sync : Option Bytes → Mux → Mux × Bool
send_route_sync none m = (m, false)
send_route_sync (some payload) m =
    send_frame (record { type = frame_route_sync; stream_id = 0; payload = payload }) m

pub set_route_sync_handler : Mux → Mux
set_route_sync_handler m = record m { on_route_sync = true }
