-- ===== src/Tunnel/Mux/Preservation.antt =====
-- Every operation of a Mux keeps its stream map well formed.
use mathlib.Core.Path.{subst}
use etunl_cli.Base.{
  ℕ, ◌≤◌, ◌≡◌, refl, Bool, true, false, Option, none, some, List, [], ◌∷◌, length, get_elem?,
  modify, nat_eq, arith, if◌then◌else◌, ◌==◌, length-append,
}
use etunl_cli.Base.Bytes.{Bytes}
use etunl_cli.Base.Dict.{Dict, lookup, lookup-nil}
use etunl_cli.Tunnel.Frame.{Frame}
use etunl_cli.Tunnel.Mux.{
  OpenJson, Mux, close, close_each, receive, set_route_sync_handler, drop_at, close_at, settle,
  opening, finish_open, open_remote, start, deliver_at, route_data, route_sync, pong_frame,
  close_frame, Stream, Handled, HandleError, returned, blocked, open_stream, open_frame, new_mux,
  data_ch_cap, add_stream, send_frame, deliver, handle_open, handle_data, drop_stream, handle_ping,
  handle_frame, close_stream, close_all,
}
use etunl_cli.Tunnel.Mux.WellFormed.{
  IsWellFormed, IsBounded, bounded-modify, erase-IsTable, insert-IsTable, modify-IsTable,
  close-IsTable,
}

drop_at-IsWellFormed :
    (id : ℕ) (m : Mux) (o : Option ℕ) → IsWellFormed m → IsWellFormed (drop_at id m o)
unfolding drop_at
drop_at-IsWellFormed id m none w = w
drop_at-IsWellFormed id m (some q) w = erase-IsTable id (close-IsTable q w)

-- Sending changes neither the heap nor the map.
module _ (f : Frame) (m : Mux) where
  pub heap-send_frame : (send_frame f m).0.heap ≡ m.heap
  unfolding send_frame
  heap-send_frame = ground arith

  pub streams-send_frame : (send_frame f m).0.streams ≡ m.streams
  unfolding send_frame
  streams-send_frame = ground arith

  send_frame-IsWellFormed : IsWellFormed m → IsWellFormed (send_frame f m).0
  send_frame-IsWellFormed w = rw (heap-send_frame, streams-send_frame) w

pub opening-IsWellFormed :
    (route : Bytes) (m : Mux) → IsWellFormed m → IsWellFormed (opening route m)
unfolding opening
opening-IsWellFormed route m w = insert-IsTable m.next_id route w

finish_open-IsWellFormed :
    (id p : ℕ) (r : Mux × Bool) → IsWellFormed r.0 → IsWellFormed (finish_open id p r).0
unfolding finish_open
finish_open-IsWellFormed id p (m, true) w = w
finish_open-IsWellFormed id p (m, false) w = erase-IsTable id w

pub open_stream-IsWellFormed :
    (json : OpenJson) (route : Bytes) (m : Mux)
    → IsWellFormed m
    → IsWellFormed (open_stream json route m).0
unfolding open_stream
open_stream-IsWellFormed json route m w =
    let f = open_frame json m.next_id route in
    finish_open-IsWellFormed m.next_id (length m.heap) (send_frame f (opening route m))
      (send_frame-IsWellFormed f (opening route m) (opening-IsWellFormed route m w))

-- What HandleFrame leaves when it returns.
abbrev pub Leaves : (Mux → Type 0) → Handled → Type 0
Leaves P (returned m e) = P m
Leaves P blocked = Unit

module _ (p : ℕ) (m : Mux) where
  pub heap-start : (start p m).heap ≡ m.heap
  unfolding start
  heap-start = ground arith

  pub streams-start : (start p m).streams ≡ m.streams
  unfolding start
  streams-start = ground arith

  start-IsWellFormed : IsWellFormed m → IsWellFormed (start p m)
  start-IsWellFormed w = rw (heap-start, streams-start) w

module _ (payload : Bytes) (m : Mux) where
  pub heap-route_sync : (route_sync payload m).heap ≡ m.heap
  unfolding route_sync
  heap-route_sync = ground arith

  pub streams-route_sync : (route_sync payload m).streams ≡ m.streams
  unfolding route_sync
  streams-route_sync = ground arith

open_remote-IsWellFormed :
    (id : ℕ) (m : Mux) (o : Option Bytes)
    → IsWellFormed m
    → Leaves IsWellFormed (open_remote id m o)
unfolding open_remote add_stream
open_remote-IsWellFormed id m none w = w
open_remote-IsWellFormed id m (some route) w =
    start-IsWellFormed (length m.heap) (add_stream id route m) (insert-IsTable id route w)

deliver-keeps :
    (pick : Bool) (payload : Bytes) (s s' : Stream)
    → deliver pick payload s ≡ some s'
    → length s.data_ch ≤ data_ch_cap
    → (s'.id ≡ s.id) × (length s'.data_ch ≤ data_ch_cap)
unfolding deliver
deliver-keeps pick payload s s' h room = ground (arith, length-append s.data_ch (payload ∷ []))

deliver_at-IsWellFormed :
    (pick : Bool) (payload : Bytes) (m : Mux) (p : ℕ) (o : Option Stream)
    → get_elem? m.heap p ≡ o
    → IsWellFormed m
    → Leaves IsWellFormed (deliver_at pick payload m p o)
unfolding deliver_at
deliver_at-IsWellFormed pick payload m p none at w = w
deliver_at-IsWellFormed pick payload m p (some s) at w = go (deliver pick payload s) refl
  where
    go : (r : Option Stream) → deliver pick payload s ≡ r → Leaves IsWellFormed (settle m p r)
    go none e = tt
    go (some s') e =
        modify-IsTable (λ _. s') p (λ t at' room. ground (arith, deliver-keeps pick payload s s')) w

route_data-IsWellFormed :
    (pick : Bool) (payload : Bytes) (m : Mux) (o : Option ℕ)
    → IsWellFormed m
    → Leaves IsWellFormed (route_data pick payload m o)
unfolding route_data
route_data-IsWellFormed pick payload m none w = w
route_data-IsWellFormed pick payload m (some p) w =
    deliver_at-IsWellFormed pick payload m p (get_elem? m.heap p) refl w

pub Leaves-if :
    (P : Mux → Type 0) (b : Bool) (x y : Handled)
    → Leaves P x
    → Leaves P y
    → Leaves P (if b then x else y)
Leaves-if P true x y wx wy = wx
Leaves-if P false x y wx wy = wy

-- Whatever frame arrives, HandleFrame leaves a well-formed Mux.
pub handle_frame-IsWellFormed :
    (json : OpenJson) (pick : Bool) (f : Frame) (m : Mux)
    → IsWellFormed m
    → Leaves IsWellFormed (handle_frame json pick f m)
unfolding handle_frame
handle_frame-IsWellFormed json pick f m w =
    Leaves-if IsWellFormed (f.type == 1) _ _
      (unfold handle_open in open_remote-IsWellFormed f.stream_id m (json.unmarshal f.payload) w)
      (Leaves-if IsWellFormed (f.type == 2) _ _
        (unfold handle_data in
          route_data-IsWellFormed pick f.payload m (lookup f.stream_id m.streams) w)
        (Leaves-if IsWellFormed (f.type == 3) _ _
          (unfold drop_stream in
            drop_at-IsWellFormed f.stream_id m (lookup f.stream_id m.streams) w)
          (Leaves-if IsWellFormed (f.type == 4) _ _ (rw (heap-route_sync, streams-route_sync) w) (
            Leaves-if IsWellFormed (f.type == 5) _ _
              (unfold handle_ping in send_frame-IsWellFormed (pong_frame f.stream_id) m w) w))))

close_at-IsWellFormed :
    (id : ℕ) (m : Mux) (o : Option ℕ) → IsWellFormed m → IsWellFormed (close_at id m o)
unfolding close_at
close_at-IsWellFormed id m none w = w
close_at-IsWellFormed id m (some p) w =
    send_frame-IsWellFormed (close_frame id) (drop_at id m (some p))
      (drop_at-IsWellFormed id m (some p) w)

pub close_stream-IsWellFormed :
    (id : ℕ) (m : Mux) → IsWellFormed m → IsWellFormed (close_stream id m)
unfolding close_stream
close_stream-IsWellFormed id m w = close_at-IsWellFormed id m (lookup id m.streams) w

close_each-bounded :
    (d : Dict ℕ ℕ) (heap : List Stream) → IsBounded heap → IsBounded (close_each d heap)
unfolding close_each close
close_each-bounded [] heap h = h
close_each-bounded ((id, p) ∷ d) heap h =
    close_each-bounded d (modify close p heap)
      (bounded-modify close p heap h (λ s at room. ground arith))

pub close_all-IsWellFormed : (m : Mux) → IsWellFormed m → IsWellFormed (close_all m)
unfolding close_all
close_all-IsWellFormed m w = record {
  once = tt;
  entry = λ id p h. cc (lookup-nil {V = ℕ} id);
  bounded = close_each-bounded m.streams m.heap w.bounded;
}

pub new_mux-IsWellFormed : (b : Bool) → IsWellFormed (new_mux b)
new_mux-IsWellFormed b = record {
  once = tt;
  entry = λ id p h. cc (lookup-nil {V = ℕ} id);
  bounded = λ p s at. absurd (cc);
}

-- One step of a Mux: a call of a method, a frame that arrives, a handler that takes a payload from
-- its stream or closes it, a handler that is set, or a link that fails.
pub data Step (json : OpenJson) (m : Mux) : Mux → Type 0 where
  opens : (route : Bytes) → Step json m (open_stream json route m).0
  arrives :
      (pick : Bool) (f : Frame) {m' : Mux} (e : Option HandleError)
      → handle_frame json pick f m ≡ returned m' e
      → Step json m m'
  sends : (f : Frame) → Step json m (send_frame f m).0
  receives : (p : ℕ) → Step json m (record m { heap = modify receive p m.heap })
  closes : (id : ℕ) → Step json m (close_stream id m)
  closes_all : Step json m (close_all m)
  sets_handler : Step json m (set_route_sync_handler m)
  loses_link : Step json m (record m { link_up = false })

pub data Reach (json : OpenJson) (m : Mux) : Mux → Type 0 where
  here : Reach json m m
  next : {t u : Mux} → Reach json m t → Step json t u → Reach json m u

receive-keeps :
    (s : Stream)
    → length s.data_ch ≤ data_ch_cap
    → ((receive s).id ≡ s.id) × (length (receive s).data_ch ≤ data_ch_cap)
unfolding receive
receive-keeps s room = ground arith

pub Leaves-returned :
    (P : Mux → Type 0) {h : Handled} {m' : Mux} (e : Option HandleError)
    → h ≡ returned m' e
    → Leaves P h
    → P m'
Leaves-returned P e eq w = subst (Leaves P) eq w

pub Step-IsWellFormed :
    (json : OpenJson) {m m' : Mux} → Step json m m' → IsWellFormed m → IsWellFormed m'
Step-IsWellFormed json {m} (opens route) w = open_stream-IsWellFormed json route m w
Step-IsWellFormed json {m} (arrives pick f e eq) w =
    Leaves-returned IsWellFormed e eq (handle_frame-IsWellFormed json pick f m w)
Step-IsWellFormed json {m} (sends f) w = send_frame-IsWellFormed f m w
Step-IsWellFormed json {m} (receives p) w = modify-IsTable receive p (λ s at. receive-keeps s) w
Step-IsWellFormed json {m} (closes id) w = close_stream-IsWellFormed id m w
Step-IsWellFormed json {m} closes_all w = close_all-IsWellFormed m w
Step-IsWellFormed json {m} sets_handler w = unfold set_route_sync_handler in w
Step-IsWellFormed json {m} loses_link w = w

-- In every state that a Mux reaches from NewMux, whatever frames arrive and however the calls
-- interleave, an id is mapped once, every entry of the map points to a stream object of its id, and
-- no channel holds more than 64 payloads, be its stream in the map, closed or replaced.
pub Reach-IsWellFormed :
    (json : OpenJson) (b : Bool) {m : Mux} → Reach json (new_mux b) m → IsWellFormed m
Reach-IsWellFormed json b here = new_mux-IsWellFormed b
Reach-IsWellFormed json b (next r s) = Step-IsWellFormed json s (Reach-IsWellFormed json b r)
