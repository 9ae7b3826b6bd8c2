-- ===== src/Tunnel/Mux/Tests.antt =====
-- Runs of the multiplexer, and its theorems at concrete inputs.
use etunl_cli.Base.{ℕ, ◌%◌, ◌≡◌, ◌≢◌, refl, true, some, List, [], ◌∷◌, nat_eq, arith, replicate}
use etunl_cli.Base.Bytes.{Bytes, codes}
use etunl_cli.Base.Dict.{lookup}
use etunl_cli.Tunnel.Mux.{
  OpenJson, Mux, Stream, blocked, new_mux, new_stream, open_stream, data_frame, handle_frame,
  close_all, deliver,
}
use etunl_cli.Tunnel.Mux.Opening.{HandsOut, open_streams, open_streams_ids}
use etunl_cli.Tunnel.Mux.Preservation.{Step, Reach, Reach-IsWellFormed}
use etunl_cli.Tunnel.Mux.WellFormed.{IsWellFormed}
use etunl_cli.Tunnel.Mux.Delivery.{data_blocks_iff, Event, exchange}

-- A stand-in for encoding/json that writes the route as it is.
abbrev plain : OpenJson
plain = record { marshal = λ s. s; unmarshal = λ s. some s }

abbrev app : Bytes
app = codes "app"

abbrev fresh : Mux
fresh = new_mux true

-- A Mux with one open stream of id 1, at pointer 0.
abbrev one_open : Mux
one_open = record fresh { heap = new_stream 1 app ∷ []; streams = (1, 0) ∷ []; next_id = 3 }

open_streams_ids_example :
    let before = open_streams plain (app ∷ []) fresh in
    let later = open_streams plain (app ∷ app ∷ []) before in
    (id : ℕ) × (id' : ℕ) × HandsOut plain app before id
    × HandsOut plain app later id'
    × (id % 2 ≡ 1)
    × (id' % 2 ≡ 1)
    × (id' ≢ id)
open_streams_ids_example =
    open_streams_ids plain (app ∷ []) app (app ∷ []) app fresh refl (omega arith) (omega arith)
      (omega arith)

Reach-IsWellFormed_example : IsWellFormed (close_all (open_stream plain app fresh).0)
Reach-IsWellFormed_example =
    Reach-IsWellFormed plain true
      (Reach.next (Reach.next Reach.here (Step.opens app)) Step.closes_all)

found_one : lookup 1 one_open.streams ≡ some 0
unfolding lookup
found_one = refl

abbrev two_chunks : List Event
two_chunks = Event.arrives true (7 ∷ []) ∷ Event.takes ∷ Event.arrives true (8 ∷ []) ∷ []

two_chunks_run :
    exchange two_chunks (new_stream 1 app) []
    ≡ some (record (new_stream 1 app) { data_ch = (8 ∷ []) ∷ [] }, (7 ∷ []) ∷ [])
unfolding exchange deliver
two_chunks_run = refl

-- A Mux whose stream 1 has a full channel.
abbrev full_stream : Stream
full_stream = record (new_stream 1 app) { data_ch = replicate 64 (9 ∷ []) }

abbrev full_mux : Mux
full_mux = record one_open { heap = full_stream ∷ [] }

full_blocks : handle_frame plain true (data_frame 1 (7 ∷ [])) full_mux ≡ blocked
full_blocks =
    (data_blocks_iff plain true 1 0 (7 ∷ []) full_stream full_mux found_one refl).1
      (refl, omega arith)
