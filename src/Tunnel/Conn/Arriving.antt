-- ===== src/Tunnel/Conn/Arriving.antt =====
-- The read loop over messages of one frame each: what one of them does.
pub mod Streams
use etunl_cli.Base.{
  ℕ, suc, ◌+◌, ◌≤◌, ◌≡◌, ◌≢◌, ◌∙◌, ◌⊎◌, refl, sym, Bool, true, false, Option, none, some, List, [],
  ◌∷◌, ◌++◌, ◌==◌, length, nat_eq, arith, All, Bool-cases, inl, inr, append-nil, append_assoc,
  ==_iff, length-append,
}
use etunl_cli.Base.Bytes.{Bytes}
use etunl_cli.Tunnel.Frame.{Frame, encode_frame}
use etunl_cli.Tunnel.Mux.{
  OpenJson, Mux, Stream, HandleError, returned, blocked, handle_frame, open_frame, data_frame,
  close_frame, data_ch_cap,
}
use etunl_cli.Tunnel.Mux.WellFormed.{IsWellFormed}
use etunl_cli.Tunnel.Mux.Preservation.{Leaves-returned, handle_frame-IsWellFormed}
use etunl_cli.Tunnel.Mux.Delivery.{open_arrives, data_arrives}
use etunl_cli.Tunnel.Mux.Apart.{Holds, handle_frame-Holds, data_dropped, close_arrives}
use etunl_cli.Tunnel.Pump.Copying.{mine, data_frames}
use etunl_cli.Tunnel.Conn.{
  Reading, drained, waiting, starved, wire, messages, handle_message, run_frames, read_messages,
}
use etunl_cli.Tunnel.Conn.Loop.{Fits, handle_message-wire, Handled-cases, run_returned, run_blocked}

-- Where the messages are all read this holds; where the loop waits, it is with a frame of another id.
abbrev pub Brings : ℕ → (Mux → Type 0) → Reading → Type 0
Brings id P (drained m) = P m
Brings id P (waiting m f rest) = f.stream_id ≢ id
Brings id P starved = ⊥

module _ (json : OpenJson) (pick : Bytes → Bool) (f : Frame) (fs : List Frame) (m : Mux)
    (fits : Fits f) where
  message :
      handle_message json pick (length (encode_frame f)) (encode_frame f) m
      ≡ run_frames json pick (f ∷ []) m
  unfolding wire
  message =
      let all = handle_message-wire json pick (f ∷ []) (length (wire (f ∷ []))) m (fits, tt) in
      rw (append-nil (encode_frame f)) at (all (omega arith))

  one_drained :
      (m' : Mux) (e : Option HandleError)
      → handle_frame json (pick []) f m ≡ returned m' e
      → handle_message json pick (length (encode_frame f)) (encode_frame f) m ≡ drained m'
  unfolding run_frames wire
  one_drained m' e went = message ∙ run_returned json pick f [] m m' e went

  one_waiting :
      handle_frame json (pick []) f m ≡ blocked
      → handle_message json pick (length (encode_frame f)) (encode_frame f) m ≡ waiting m f []
  unfolding run_frames wire
  one_waiting stuck = message ∙ run_blocked json pick f [] m stuck

  pub read_returned :
      (m' : Mux) (e : Option HandleError)
      → handle_frame json (pick []) f m ≡ returned m' e
      → read_messages json pick (messages (f ∷ fs)) m ≡ read_messages json pick (messages fs) m'
  unfolding read_messages messages
  read_returned m' e went = rw (one_drained m' e went, read_messages) refl

  pub read_blocked :
      handle_frame json (pick []) f m ≡ blocked
      → read_messages json pick (messages (f ∷ fs)) m ≡ waiting m f []
  unfolding read_messages messages
  read_blocked stuck = rw (one_waiting stuck, read_messages) refl

pub mine-cases :
    (id : ℕ) (f : Frame) (fs : List Frame)
    → ((f.stream_id ≡ id) × (mine id (f ∷ fs) ≡ f ∷ mine id fs))
      ⊎ ((f.stream_id ≢ id) × (mine id (f ∷ fs) ≡ mine id fs))
unfolding mine
mine-cases id f fs = elim (Bool-cases (f.stream_id == id)) [
  | inl same ↦ inl ((==_iff f.stream_id id).0 same, rw same refl)
  | inr other ↦ inr ((λ e. ground (arith, ==_iff f.stream_id id)), rw other refl)
]

module _ (json : OpenJson) (pick : Bytes → Bool) (id : ℕ) (P : Mux → Type 0) (f : Frame)
    (fs : List Frame) (m : Mux) (fits : Fits f) where
  pub read_own :
      (m' : Mux)
      → handle_frame json (pick []) f m ≡ returned m' none
      → Brings id P (read_messages json pick (messages fs) m')
      → Brings id P (read_messages json pick (messages (f ∷ fs)) m)
  read_own m' went rest = rw (read_returned json pick f fs m fits m' none went) rest

  pub read_other :
      f.stream_id ≢ id
      → ((m' : Mux) (e : Option HandleError)
          → handle_frame json (pick []) f m ≡ returned m' e
          → Brings id P (read_messages json pick (messages fs) m'))
      → Brings id P (read_messages json pick (messages (f ∷ fs)) m)
  read_other other rest = elim (Handled-cases (handle_frame json (pick []) f m)) [
    | inl stuck ↦ rw (read_blocked json pick f fs m fits stuck) other
    | inr (m', e, went) ↦ rw (read_returned json pick f fs m fits m' e went) (rest m' e went)
  ]

-- A stream of this id and route, with these payloads in its channel.
abbrev pub stream_with : (id : ℕ) (route : Bytes) (got : List Bytes) (done : Bool) → Stream
stream_with id route got done = record { id = id; route = route; data_ch = got; done = done }

module _ (id : ℕ) where
  pub data_frames-uncons :
      (bs : List Bytes) (f : Frame) (gs : List Frame)
      → f ∷ gs ≡ data_frames id bs
      → (b : Bytes) × (cs : List Bytes) × (f ≡ data_frame id b) × (gs ≡ data_frames id cs)
  unfolding data_frames
  data_frames-uncons [] f gs e = absurd (cc)
  data_frames-uncons (b ∷ bs) f gs e = (b, bs, cc, cc)

  pub own_none :
      (ps late : List Bytes) → [] ≢ data_frames id ps ++ (close_frame id ∷ data_frames id late)
  unfolding data_frames
  own_none [] late e = cc
  own_none (b ∷ ps) late e = cc

  pub own_frames-uncons :
      (ps late : List Bytes) (f : Frame) (gs : List Frame)
      → f ∷ gs ≡ data_frames id ps ++ (close_frame id ∷ data_frames id late)
      → ((ps ≡ []) × (f ≡ close_frame id) × (gs ≡ data_frames id late))
        ⊎ ((b : Bytes) × (bs : List Bytes) × (ps ≡ b ∷ bs)
            × (f ≡ data_frame id b)
            × (gs ≡ data_frames id bs ++ (close_frame id ∷ data_frames id late)))
  unfolding data_frames
  own_frames-uncons [] late f gs e = inl (refl, cc, cc)
  own_frames-uncons (b ∷ bs) late f gs e = inr (b, bs, refl, cc, cc)
