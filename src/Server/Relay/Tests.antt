-- ===== src/Server/Relay/Tests.antt =====
-- A request and a connection over a fresh multiplexer, and the theorems at these inputs.
use etunl_cli.Base.{
  All, length, ◌≤◌, ◌≡◌, ◌+◌, ◌%◌, ◌^◌, refl, true, false, some, List, [], ◌∷◌, ◌++◌, arith,
}
use etunl_cli.Base.Bytes.{Bytes, codes}
use etunl_cli.Base.Dict.{lookup}
use etunl_cli.Base.Int.{pos}
use etunl_cli.Tunnel.Mux.{data_ch_cap, OpenJson, new_mux, open_stream, open_frame, close_frame}
use etunl_cli.Tunnel.Mux.Opening.{open_stream_ok}
use etunl_cli.Tunnel.Pump.{Step, reads, picks, others, takes, bridge_of, run_steps, end_stream}
use etunl_cli.Tunnel.Pump.Copying.{mine, data_of, data_frames, going_behind, IsApart}
use etunl_cli.Server.Metrics.Counters.{tally_of, IsWord}
use etunl_cli.Tunnel.Mux.Preservation.{new_mux-IsWellFormed}
use etunl_cli.Tunnel.Pump.Fitting.{Keeps}
use etunl_cli.Tunnel.Conn.{messages, read_messages}
use etunl_cli.Tunnel.Conn.Loop.{Fits}
use etunl_cli.Tunnel.Conn.Arriving.{Brings}
use etunl_cli.Tunnel.Conn.Arriving.Streams.{Carried}
use etunl_cli.Tunnel.Conn.Serving.{Turn, reads, takes, turns}
use etunl_cli.Tunnel.Conn.Serving.Stages.{Stage}
use etunl_cli.Tunnel.Conn.Serving.Order.{begins}
use etunl_cli.Server.Relay.Serving.{proxy_http-Stage}
use etunl_cli.Server.Relay.Arriving.{proxy_http-arrives}
use etunl_cli.Server.Relay.{Backend, response, proxy_http, proxy_conn}
use etunl_cli.Server.Relay.Wire.{proxy_http-sent}
use etunl_cli.Server.Relay.Life.{bytes_in, bytes_out, exchange-tally}

abbrev plain : OpenJson
plain = record { marshal = λ s. s; unmarshal = λ s. some s }

abbrev app : Bytes
app = codes "app"

abbrev fresh : Backend
fresh = record { mux = new_mux false; metrics = [] }

-- A read with bytes, an answer that comes, and an empty read that ends.
abbrev steps : List Step
steps =
    reads (record { bytes = codes "GET"; ended = false; at = 5 })
    ∷ others (λ m. m)
    ∷ picks (takes true 7)
    ∷ reads (record { bytes = []; ended = true; at = 6 })
    ∷ []

idle-IsApart : IsApart 1 (λ m. m)
idle-IsApart = record { frames = λ m. refl; link = λ m. refl; entry = λ m. refl }

proxy_http-sent_example :
    mine 1 (proxy_http plain (codes "box") app steps (response 8 (pos 9)) [] fresh).0.mux.sent
    ≡ mine 1 []
      ++ (open_frame plain 1 app
          ∷ (data_frames 1 (data_of true steps)
              ++ (close_frame 1 ∷ data_frames 1 (data_of (going_behind true steps) []))))
proxy_http-sent_example =
    proxy_http-sent plain (codes "box") app steps [] (response 8 (pos 9)) fresh refl
      (tt, (idle-IsApart, (tt, (tt, tt)))) tt

zero_words : IsWord (tally_of app fresh.metrics)
unfolding IsWord tally_of lookup
zero_words = (omega arith, omega arith, omega arith, omega arith, omega arith)

exchange-tally_example :
    let b1 = run_steps 1 0 steps (bridge_of (open_stream plain app fresh.mux).0) in
    let b2 = end_stream 1 0 [] b1 in
    let after = proxy_conn plain (codes "box") app (codes "tcp") 3 9 steps [] fresh in
    let old = tally_of app fresh.metrics in
    let now = tally_of app after.0.metrics in
    (after.1 ≡ false)
    × (now.requests ≡ (old.requests + 1) % 2 ^ 64)
    × (now.bytes_in ≡ (old.bytes_in + (bytes_in b1.log + bytes_in b2.log)) % 2 ^ 64)
    × (now.bytes_out ≡ (old.bytes_out + (bytes_out b1.log + bytes_out b2.log)) % 2 ^ 64)
    × (now.total ≡ (old.total + 1) % 2 ^ 64)
    × (now.active ≡ old.active)
exchange-tally_example =
    exchange-tally plain (codes "box") app (codes "tcp") 3 9 steps [] fresh 0 zero_words
      (open_stream_ok plain app fresh.mux refl).0

steps_kept : All (Keeps Fits 1) steps
steps_kept = ((omega arith, omega arith), ((λ m all. all), (tt, ((omega arith, omega arith), tt))))

nothing_sent : mine 1 fresh.mux.sent ≡ []
unfolding mine
nothing_sent = refl

one_payload : length (data_of true steps) ≤ data_ch_cap
unfolding data_of
one_payload = omega arith

proxy_http-arrives_example :
    let sent =
      (proxy_http plain (codes "box") app steps (response 8 (pos 9)) [] fresh).0.mux.sent in
    Brings 1
      (Carried 1 app (data_of true steps))
      (read_messages plain (λ rest. true) (messages sent) (new_mux true))
proxy_http-arrives_example =
    proxy_http-arrives plain (λ rest. true) (codes "box") app steps [] (response 8 (pos 9)) fresh
      (new_mux true) refl refl nothing_sent (tt, (idle-IsApart, (tt, (tt, tt)))) tt
      (omega arith, omega arith) steps_kept tt tt one_payload (new_mux-IsWellFormed true) refl

abbrev served : List Turn
served = reads true ∷ takes 0 ∷ reads true ∷ takes 0 ∷ reads true ∷ []

proxy_http-Stage_example :
    let sent =
      (proxy_http plain (codes "box") app steps (response 8 (pos 9)) [] fresh).0.mux.sent in
    Stage plain 1 app (data_of true steps) (turns plain served (begins sent (new_mux true)))
proxy_http-Stage_example =
    proxy_http-Stage plain (codes "box") app steps [] (response 8 (pos 9)) fresh (new_mux true)
      served refl refl nothing_sent (tt, (idle-IsApart, (tt, (tt, tt)))) tt
      (new_mux-IsWellFormed true)
