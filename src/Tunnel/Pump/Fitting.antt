-- ===== src/Tunnel/Pump/Fitting.antt =====
-- Which frames the loops add to those that were sent.
use etunl_cli.Base.{
  ℕ, ◌≡◌, Bool, true, List, [], ◌∷◌, All, All-append, if_split, Option-cases, inl, inr, nat_eq,
  arith,
}
use etunl_cli.Base.Bytes.{Bytes}
use etunl_cli.Base.Dict.{lookup}
use etunl_cli.Tunnel.Frame.{Frame}
use etunl_cli.Tunnel.Mux.{
  OpenJson, Mux, Stream, open_stream, open_frame, data_frame, close_frame, send_frame, send_data,
  close_stream,
}
use etunl_cli.Tunnel.Mux.Opening.{open_stream_ok}
use etunl_cli.Tunnel.Mux.Closing.{sent-close_stream, close_stream_absent}
use etunl_cli.Tunnel.Pump.{
  Chunk, Pick, takes, sees_done, sees_ended, Step, reads, picks, others, Bridge, send_chunk,
  read_step, picked, take_step, pick_step, run_steps, end_stream,
}

-- The loop from the tunnel to the connection sends nothing.
sent-picked : (p : ℕ) (k : Pick) (s : Stream) (b : Bridge) → (picked p k s b).mux.sent ≡ b.mux.sent
unfolding picked take_step
sent-picked p (takes good at) s b = ground arith
sent-picked p sees_done s b = ground arith
sent-picked p sees_ended s b = ground arith

sent-pick_step : (p : ℕ) (k : Pick) (b : Bridge) → (pick_step p k b).mux.sent ≡ b.mux.sent
unfolding pick_step
sent-pick_step p k b = ground (arith, sent-picked p k)

module _ (Q : Frame → Type 0) where
  abbrev pub AllSent : Mux → Type 0
  AllSent m = All Q m.sent

  -- A read makes such a frame, and the others send such frames only.
  abbrev pub Keeps : ℕ → Step → Type 0
  Keeps id (reads c) = Q (data_frame id c.bytes)
  Keeps id (picks k) = Unit
  Keeps id (others f) = (m : Mux) → AllSent m → AllSent (f m)

  send_frame-AllSent : (f : Frame) (m : Mux) → Q f → AllSent m → AllSent (send_frame f m).0
  unfolding send_frame
  send_frame-AllSent f m q all =
      if_split (λ (x : Mux × Bool). AllSent x.0) m.link_up
        (λ _. All-append Q m.sent (f ∷ []) all (q, tt)) (λ _. all)

  pub send_data-AllSent :
      (id : ℕ) (bytes : Bytes) (m : Mux)
      → Q (data_frame id bytes)
      → AllSent m
      → AllSent (send_data id bytes m).0
  unfolding send_data
  send_data-AllSent id bytes m q all = send_frame-AllSent (data_frame id bytes) m q all

  pub open_stream-AllSent :
      (json : OpenJson) (route : Bytes) (m : Mux)
      → m.link_up ≡ true
      → Q (open_frame json m.next_id route)
      → AllSent m
      → AllSent (open_stream json route m).0
  open_stream-AllSent json route m up q all =
      rw (open_stream_ok json route m up).1.frame
        (All-append Q m.sent (open_frame json m.next_id route ∷ []) all (q, tt))

  pub close_stream-AllSent :
      (id : ℕ) (m : Mux)
      → m.link_up ≡ true
      → Q (close_frame id)
      → AllSent m
      → AllSent (close_stream id m)
  close_stream-AllSent id m up q all = elim (Option-cases (lookup id m.streams)) [
    | inl absent ↦ rw (close_stream_absent id m absent) all
    | inr (p, found) ↦
        rw (sent-close_stream id p m up found)
          (All-append Q m.sent (close_frame id ∷ []) all (q, tt))
  ]

  send_chunk-AllSent :
      (id : ℕ) (bytes : Bytes) (m : Mux)
      → Q (data_frame id bytes)
      → AllSent m
      → AllSent (send_chunk id bytes m).0
  unfolding send_chunk
  send_chunk-AllSent id [] m q all = all
  send_chunk-AllSent id (b ∷ bs) m q all = send_data-AllSent id (b ∷ bs) m q all

  read_step-AllSent :
      (id : ℕ) (c : Chunk) (b : Bridge)
      → Q (data_frame id c.bytes)
      → AllSent b.mux
      → AllSent (read_step id c b).mux
  unfolding read_step
  read_step-AllSent id c b q all =
      if_split (λ (x : Bridge). AllSent x.mux) b.sending
        (λ _. send_chunk-AllSent id c.bytes b.mux q all) (λ _. all)

  pub run_steps-AllSent :
      (id p : ℕ) (ss : List Step) (b : Bridge)
      → All (Keeps id) ss
      → AllSent b.mux
      → AllSent (run_steps id p ss b).mux
  unfolding run_steps
  run_steps-AllSent id p [] b keep all = all
  run_steps-AllSent id p (reads c ∷ ss) b (q, keep) all =
      run_steps-AllSent id p ss (read_step id c b) keep (read_step-AllSent id c b q all)
  run_steps-AllSent id p (picks k ∷ ss) b (_, keep) all =
      run_steps-AllSent id p ss (pick_step p k b) keep (rw (sent-pick_step p k b) all)
  run_steps-AllSent id p (others f ∷ ss) b (q, keep) all =
      run_steps-AllSent id p ss (record b { mux = f b.mux }) keep (q b.mux all)

  pub end_stream-AllSent :
      (id p : ℕ) (ss : List Step) (b : Bridge)
      → b.mux.link_up ≡ true
      → Q (close_frame id)
      → All (Keeps id) ss
      → AllSent b.mux
      → AllSent (end_stream id p ss b).mux
  unfolding end_stream
  end_stream-AllSent id p ss b up q keep all =
      run_steps-AllSent id p ss (record b { mux = close_stream id b.mux; log = [] }) keep
        (close_stream-AllSent id b.mux up q all)
