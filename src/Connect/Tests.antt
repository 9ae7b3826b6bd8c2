-- ===== src/Connect/Tests.antt =====
-- One local connection, and the theorem at this input.
use etunl_cli.Base.{◌≡◌, refl, true, some, List, [], ◌∷◌, ◌++◌}
use etunl_cli.Base.Bytes.{codes}
use etunl_cli.Base.Int.{pos}
use etunl_cli.Tunnel.Mux.{OpenJson, open_frame, close_frame}
use etunl_cli.Tunnel.Conn.{Conn}
use etunl_cli.Tunnel.Pump.{Step, reads, picks, others, takes}
use etunl_cli.Tunnel.Pump.Copying.{mine, data_frames, data_of, going_behind, IsApart}
use etunl_cli.Cli.{Options}
use etunl_cli.Connect.{handle_conn}
use etunl_cli.Connect.Life.{handle_conn-sent}

abbrev plain : OpenJson
plain = record { marshal = λ s. s; unmarshal = λ s. some s }

abbrev options : Options
options = record {
  server = codes "s";
  token = codes "t";
  route_name = codes "db";
  local_port = pos 1;
}

abbrev steps : List Step
steps =
    reads (record { bytes = codes "SELECT"; ended = true; at = 5 })
    ∷ others (λ m. m)
    ∷ picks (takes true 6)
    ∷ []

idle-IsApart : IsApart 1 (λ m. m)
idle-IsApart = record { frames = λ m. refl; link = λ m. refl; entry = λ m. refl }

handle_conn-sent_example :
    (c : Conn) × (handle_conn plain options true steps [] ≡ some c)
    × (mine 1 c.mux.sent
        ≡ open_frame plain 1 (codes "db")
          ∷ (data_frames 1 (data_of true steps)
              ++ (close_frame 1 ∷ data_frames 1 (data_of (going_behind true steps) []))))
    × (c.mux.streams ≡ [])
    × (c.done ≡ true)
    × (c.ws_closed ≡ true)
handle_conn-sent_example = handle_conn-sent plain options steps [] (tt, (idle-IsApart, (tt, tt))) tt
