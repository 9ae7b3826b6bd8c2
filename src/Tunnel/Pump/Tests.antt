-- ===== src/Tunnel/Pump/Tests.antt =====
-- Runs of the copying loops.
use etunl_cli.Base.{◌≡◌, refl, true, false, List, [], ◌∷◌}
use etunl_cli.Base.Bytes.{codes}
use etunl_cli.Tunnel.Mux.{Mux, Stream, new_stream, new_mux, receive}
use etunl_cli.Tunnel.Pump.{Step, picks, reads, takes, out_of, into, Bridge, bridge_of, run_steps}

-- A stream with three payloads, and two steps: one payload is written, the write of the second fails.
abbrev three : Stream
three = record (new_stream 1 (codes "app")) { data_ch = (1 ∷ []) ∷ (2 ∷ []) ∷ (3 ∷ []) ∷ [] }

abbrev start_of : Bridge
start_of = bridge_of (record (new_mux true) { heap = three ∷ []; streams = (1, 0) ∷ [] })

abbrev steps : List Step
steps =
    picks (takes true 10)
    ∷ reads (record { bytes = 7 ∷ []; ended = false; at = 11 })
    ∷ picks (takes false 12)
    ∷ picks (takes true 13)
    ∷ []

log_run : (run_steps 1 0 steps start_of).log ≡ out_of (1 ∷ []) 10 ∷ into (7 ∷ []) 11 ∷ []
unfolding run_steps etunl_cli.Tunnel.Mux.send_data etunl_cli.Tunnel.Mux.send_frame
log_run = refl
