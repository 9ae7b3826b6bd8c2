-- ===== src/Tunnel/Conn/Serving/Tests.antt =====
-- A read loop that waits for a handler whose channel is full, and the theorem at this state.
use etunl_cli.Base.{zero, suc, ◌≡◌, refl, Bool, true, some, List, [], ◌∷◌, replicate, nat_eq, arith}
use etunl_cli.Base.Bytes.{codes}
use etunl_cli.Base.Dict.{insert}
use etunl_cli.Tunnel.Mux.{OpenJson, Mux, Stream, new_mux, new_stream, data_frame}
use etunl_cli.Tunnel.Mux.WellFormed.{IsWellFormed, insert-IsTable, modify-IsTable}
use etunl_cli.Tunnel.Mux.Preservation.{new_mux-IsWellFormed}
use etunl_cli.Tunnel.Conn.Serving.{Peer, Turn, takes, turns}
use etunl_cli.Tunnel.Conn.Serving.Order.{begins}
use etunl_cli.Tunnel.Conn.Serving.Fairness.{Serves, schedule, turns-Fair}

abbrev plain : OpenJson
plain = record { marshal = λ s. s; unmarshal = λ s. some s }

abbrev fill : Stream → Stream
fill s = record s { data_ch = replicate 64 (7 ∷ []) }

-- One stream, whose channel is full.
abbrev full : Mux
full = record (new_mux true) {
  heap = fill (new_stream 1 (codes "app")) ∷ [];
  streams = insert 1 0 [];
}

abbrev waiting : Peer
waiting = begins (data_frame 1 (8 ∷ []) ∷ []) full

abbrev rounds : List (List Turn × Bool)
rounds = (takes 0 ∷ [], true) ∷ []

full-IsWellFormed : IsWellFormed full
full-IsWellFormed =
    modify-IsTable fill 0 (λ s at room. (refl, omega arith))
      (insert-IsTable 1 (codes "app") (new_mux-IsWellFormed true))

waiting-Serves : Serves waiting (takes 0 ∷ [])
waiting-Serves zero t at alive = refl
waiting-Serves (suc p) t at alive = absurd (cc)

turns-Fair_example : (turns plain (schedule rounds) waiting).wire ≡ []
turns-Fair_example =
    turns-Fair plain rounds waiting full-IsWellFormed (omega arith) (waiting-Serves, tt)
