-- ===== src/Tunnel/Conn/Tests.antt =====
-- The read loop at concrete messages.
use etunl_cli.Base.{◌≡◌, Bool, true, some, List, [], ◌∷◌, length, arith}
use etunl_cli.Base.Bytes.{Bytes, codes}
use etunl_cli.Tunnel.Frame.{Frame}
use etunl_cli.Tunnel.Mux.{OpenJson, open_frame, data_frame, new_mux}
use etunl_cli.Tunnel.Conn.{wire, handle_message, run_frames}
use etunl_cli.Tunnel.Conn.Loop.{handle_message-wire}

abbrev plain : OpenJson
plain = record { marshal = λ s. s; unmarshal = λ s. some s }

abbrev always : Bytes → Bool
always rest = true

abbrev opened_then_sent : List Frame
opened_then_sent = open_frame plain 1 (codes "app") ∷ data_frame 1 (7 ∷ 8 ∷ []) ∷ []

handle_message-wire_example :
    handle_message plain always
      (length (wire opened_then_sent))
      (wire opened_then_sent)
      (new_mux true)
    ≡ run_frames plain always opened_then_sent (new_mux true)
handle_message-wire_example =
    handle_message-wire plain always opened_then_sent (length (wire opened_then_sent))
      (new_mux true) (omega arith) (omega arith)
