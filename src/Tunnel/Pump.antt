-- ===== src/Tunnel/Pump.antt =====
-- The loops that copy between a connection and a stream: internal/server/http_proxy.go and
-- tcp_proxy.go, internal/client/router.go and internal/connect/connect.go have each of them several
-- times. Two goroutines run them, one for each direction, so a run is a list of steps in any order:
-- what a `Read` returns, what `select` picks, and what the read loop and all other goroutines do to the
-- multiplexer.
pub mod Copying
pub mod Draining
pub mod Fitting
mod Tests
use etunl_cli.Base.{
  ℕ, Bool, true, false, not, ◌&&◌, Option, none, some, List, [], ◌∷◌, ◌++◌, get_elem?, modify,
  if◌then◌else◌,
}
use etunl_cli.Base.Bytes.{Bytes, is_empty}
use etunl_cli.Tunnel.Mux.{Mux, Stream, receive, send_data, close_stream}

-- One `n, err := c.Read(buf)`: `buf[:n]`, whether `err` is set, and the time behind it.
pub record Chunk : Type 0 where
  pub bytes : Bytes
  pub ended : Bool
  pub at : ℕ

-- What the `select` of the other direction picks: the data channel, with the result of the write
-- that follows and the time behind it; the channel Done of the stream; or the channel that the first
-- goroutine closes at its end, which the bridge of an HTTP request does not have.
pub data Pick : Type 0 where
  takes : Bool → ℕ → Pick
  sees_done sees_ended : Pick

pub data Step : Type 0 where
  reads : Chunk → Step
  picks : Pick → Step
  others : (Mux → Mux) → Step

-- What the loops have done, for the counters: bytes sent into the stream, or written out of it.
pub data Entry : Type 0 where
  into out_of : (bytes : Bytes) (at : ℕ) → Entry

-- The two goroutines at work: the multiplexer, whether each still runs, and what they have done.
pub record Bridge : Type 0 where
  pub mux : Mux
  pub sending : Bool
  pub copying : Bool
  pub log : List Entry

abbrev pub bridge_of : Mux → Bridge
bridge_of m = record { mux = m; sending = true; copying = true; log = [] }

-- `if n > 0 { if sendErr := SendData(id, buf[:n]); sendErr != nil { return } }`
unfoldable pub send_chunk : ℕ → Bytes → Mux → Mux × Bool
send_chunk id bytes m = if is_empty bytes then (m, true) else send_data id bytes m

-- One round of the loop from the connection to the tunnel.
unfoldable pub read_step : ℕ → Chunk → Bridge → Bridge
unfolding send_chunk
read_step id c b =
    let (m, went) = send_chunk id c.bytes b.mux in
    if b.sending
    then record b {
      mux = m;
      sending = went && not c.ended;
      log = b.log ++ (if went && not (is_empty c.bytes) then into c.bytes c.at ∷ [] else []);
    }
    else b

-- `case data := <-DataCh`, with what is in the channel, and the write that follows.
take_step : ℕ → Bool → ℕ → List Bytes → Bridge → Bridge
unfolding receive
take_step p good at [] b = b
take_step p good at (payload ∷ rest) b =
    let m = record b.mux { heap = modify receive p b.mux.heap } in
    if good
    then record b { mux = m; log = b.log ++ out_of payload at ∷ [] }
    else record b { mux = m; copying = false }

-- One round of the loop from the tunnel to the connection; a case that is not ready is not picked.
picked : ℕ → Pick → Stream → Bridge → Bridge
unfolding take_step
picked p sees_done s b = if s.done then record b { copying = false } else b
picked p sees_ended s b = if b.sending then b else record b { copying = false }
picked p (takes good at) s b = take_step p good at s.data_ch b

pub pick_step : ℕ → Pick → Bridge → Bridge
unfolding picked
pick_step p pick b =
    if b.copying then elim (get_elem? b.mux.heap p) [ none ↦ b | some s ↦ picked p pick s b ] else b

-- The steps of the goroutines on the stream with this id, whose object is at `p`.
unfoldable pub run_steps : (id p : ℕ) → List Step → Bridge → Bridge
unfolding read_step pick_step
run_steps id p [] b = b
run_steps id p (reads c ∷ ss) b = run_steps id p ss (read_step id c b)
run_steps id p (picks k ∷ ss) b = run_steps id p ss (pick_step p k b)
run_steps id p (others f ∷ ss) b = run_steps id p ss (record b { mux = f b.mux })

-- `defer CloseStream(id)`, with the steps that the goroutines do behind it. The log starts anew.
unfoldable pub end_stream : (id p : ℕ) → List Step → Bridge → Bridge
unfolding run_steps
end_stream id p behind b =
    run_steps id p behind (record b { mux = close_stream id b.mux; log = [] })
