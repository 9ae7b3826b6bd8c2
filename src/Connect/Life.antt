-- ===== src/Connect/Life.antt =====
-- One connection of `etunl connect`, from its StreamOpen to its end.
use etunl_cli.Base.{◌≡◌, refl, true, false, some, List, [], ◌∷◌, ◌++◌, All}
use etunl_cli.Tunnel.Mux.{OpenJson, new_mux, open_stream, open_frame, close_frame, close_all}
use etunl_cli.Tunnel.Mux.Opening.{open_stream_ok}
use etunl_cli.Tunnel.Conn.{Conn, close_conn}
use etunl_cli.Tunnel.Pump.{Step}
use etunl_cli.Tunnel.Pump.Copying.{mine, data_of, data_frames, going_behind, IsQuiet, sent-stream}
use etunl_cli.Cli.{Options}
use etunl_cli.Connect.{new_conn, carry, over_conn, handle_conn}

-- Over a dial that succeeds, with the steps of the read loop apart from the stream, one connection of
-- `connect` sends, of the frames with the id of its stream, one StreamOpen frame with the route, a
-- StreamData frame for each read of the local connection that gave any bytes, one StreamClose frame,
-- and behind it only the reads of a goroutine that still runs; at its end the connection is closed and
-- no stream is left.
pub handle_conn-sent :
    (json : OpenJson) (o : Options) (steps behind : List Step)
    → All (IsQuiet 1) steps
    → All (IsQuiet 1) behind
    → (c : Conn) × (handle_conn json o true steps behind ≡ some c)
      × (mine 1 c.mux.sent
          ≡ open_frame json 1 o.route_name
            ∷ (data_frames 1 (data_of true steps)
                ++ (close_frame 1 ∷ data_frames 1 (data_of (going_behind true steps) behind))))
      × (c.mux.streams ≡ [])
      × (c.done ≡ true)
      × (c.ws_closed ≡ true)
unfolding handle_conn over_conn carry close_conn close_all data_frames data_of mine
handle_conn-sent json o steps behind quiet late =
    let m0 = new_mux false in
    let m = (open_stream json o.route_name m0).0 in
    let opened = (open_stream_ok json o.route_name m0 refl).0 in
    (
      close_conn (record new_conn { mux = carry 1 0 steps behind m }),
      rw (over_conn, opened) refl,
      sent-stream json o.route_name steps behind m0 refl quiet late,
      refl,
      refl,
      refl,
    )
