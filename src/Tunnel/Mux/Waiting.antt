-- ===== src/Tunnel/Mux/Waiting.antt =====
-- What it means that HandleFrame waits.
use etunl_cli.Base.{
  ℕ, ◌≡◌, refl, ap, Bool, Option, none, some, get_elem?, if_split, nat_eq, ◌==◌, ==_iff,
}
use etunl_cli.Base.Bytes.{Bytes}
use etunl_cli.Base.Dict.{lookup}
use etunl_cli.Tunnel.Frame.{Frame}
use etunl_cli.Tunnel.Mux.{
  OpenJson, Mux, Stream, Handled, returned, blocked, data_frame, handle_frame, handle_open,
  open_remote, handle_data, route_data, deliver_at, settle, deliver, handle_ping,
}

-- The frame is a payload for a stream in the map that is not closed and whose channel is full.
pub record Waits (f : Frame) (m : Mux) : Type 0 where
  pub place : ℕ
  pub stream : Stream
  pub is : f ≡ data_frame f.stream_id f.payload
  pub entry : lookup f.stream_id m.streams ≡ some place
  pub at : get_elem? m.heap place ≡ some stream

-- A call that returns tells nothing.
abbrev pub Stops : Type 0 → Handled → Type 0
Stops A (returned m e) = Unit
Stops A blocked = A

module _ (pick : Bool) (f : Frame) (m : Mux) (is : f ≡ data_frame f.stream_id f.payload) where
  Waits-settle :
      (p : ℕ) (s : Stream) (o : Option Stream)
      → lookup f.stream_id m.streams ≡ some p
      → get_elem? m.heap p ≡ some s
      → Stops (Waits f m) (settle m p o)
  unfolding settle
  Waits-settle p s none found there = record {
    place = p;
    stream = s;
    is = is;
    entry = found;
    at = there;
  }
  Waits-settle p s (some t) found there = tt

  Waits-deliver_at :
      (p : ℕ) (o : Option Stream)
      → lookup f.stream_id m.streams ≡ some p
      → get_elem? m.heap p ≡ o
      → Stops (Waits f m) (deliver_at pick f.payload m p o)
  unfolding deliver_at
  Waits-deliver_at p none found there = tt
  Waits-deliver_at p (some s) found there = Waits-settle p s (deliver pick f.payload s) found there

  Waits-route_data :
      (o : Option ℕ)
      → lookup f.stream_id m.streams ≡ o
      → Stops (Waits f m) (route_data pick f.payload m o)
  unfolding route_data
  Waits-route_data none found = tt
  Waits-route_data (some p) found = Waits-deliver_at p (get_elem? m.heap p) found refl

as_data : (f : Frame) → f.type ≡ 2 → f ≡ data_frame f.stream_id f.payload
as_data f h = ap (λ t. record f { type = t }) h

open_remote-Stops :
    (A : Type 0) (id : ℕ) (m : Mux) (o : Option Bytes) → Stops A (open_remote id m o)
unfolding open_remote
open_remote-Stops A id m none = tt
open_remote-Stops A id m (some route) = tt

-- HandleFrame waits only with a payload for a stream that is in the map.
pub handle_frame-Waits :
    (json : OpenJson) (pick : Bool) (f : Frame) (m : Mux)
    → Stops (Waits f m) (handle_frame json pick f m)
unfolding handle_frame handle_open handle_data handle_ping
handle_frame-Waits json pick f m =
    let S = Stops (Waits f m) in
    if_split S (f.type == 1)
      (λ _. open_remote-Stops (Waits f m) f.stream_id m (json.unmarshal f.payload))
      (λ _.
        if_split S (f.type == 2)
          (λ sends.
            Waits-route_data pick f m (as_data f ((==_iff f.type 2).0 sends))
              (lookup f.stream_id m.streams) refl)
          (λ _.
            if_split S (f.type == 3) (λ _. tt)
              (λ _.
                if_split S (f.type == 4) (λ _. tt)
                  (λ _. if_split S (f.type == 5) (λ _. tt) (λ _. tt)))))
