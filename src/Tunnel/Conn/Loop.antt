-- ===== src/Tunnel/Conn/Loop.antt =====
-- The read loop handles the frames of a message in order, and always ends.
use etunl_cli.Base.{
  ℕ, zero, suc, ◌^◌, ◌<◌, ◌≤◌, ◌≡◌, refl, Bool, List, [], ◌∷◌, ◌++◌, Option, ok, length, All, arith,
  length-append, inl, inr, ◌⊎◌,
}
use etunl_cli.Base.Bytes.{Bytes}
use etunl_cli.Tunnel.Frame.{Frame, decode_frame, encode_frame, max_frame_size}
use etunl_cli.Tunnel.Frame.RoundTrip.{decode-encode, length-encode, encode-cons}
use etunl_cli.Tunnel.Mux.{OpenJson, Mux, Handled, HandleError, returned, blocked, handle_frame}
use etunl_cli.Tunnel.Conn.{waiting, wire, handle_message, run_frames}

pub Handled-cases :
    (h : Handled) → (h ≡ blocked) ⊎ ((m : Mux) × (e : Option HandleError) × (h ≡ returned m e))
Handled-cases (returned m e) = inr (m, e, refl)
Handled-cases blocked = inl refl

module _ (json : OpenJson) (pick : Bytes → Bool) where
  message_returned :
      (fuel b : ℕ) (bs : Bytes) (m : Mux) (f : Frame) (rest : Bytes) (m' : Mux)
      (e : Option HandleError)
      → decode_frame (b ∷ bs) ≡ ok (f, rest)
      → handle_frame json (pick rest) f m ≡ returned m' e
      → handle_message json pick (suc fuel) (b ∷ bs) m ≡ handle_message json pick fuel rest m'
  unfolding handle_message
  message_returned fuel b bs m f rest m' e d h = rw (d, h, handle_message)

  message_blocked :
      (fuel b : ℕ) (bs : Bytes) (m : Mux) (f : Frame) (rest : Bytes)
      → decode_frame (b ∷ bs) ≡ ok (f, rest)
      → handle_frame json (pick rest) f m ≡ blocked
      → handle_message json pick (suc fuel) (b ∷ bs) m ≡ waiting m f rest
  unfolding handle_message
  message_blocked fuel b bs m f rest d h = rw (d, h, handle_message)

-- A frame that the wire format can carry.
abbrev pub Fits : Frame → Type 0
Fits f = (f.stream_id < 2 ^ 32) × (length f.payload ≤ max_frame_size)

module _ (json : OpenJson) (pick : Bytes → Bool) where
  pub run_returned :
      (f : Frame) (fs : List Frame) (m m' : Mux) (e : Option HandleError)
      → handle_frame json (pick (wire fs)) f m ≡ returned m' e
      → run_frames json pick (f ∷ fs) m ≡ run_frames json pick fs m'
  unfolding run_frames
  run_returned f fs m m' e h = rw (h, run_frames)

  pub run_blocked :
      (f : Frame) (fs : List Frame) (m : Mux)
      → handle_frame json (pick (wire fs)) f m ≡ blocked
      → run_frames json pick (f ∷ fs) m ≡ waiting m f (wire fs)
  unfolding run_frames
  run_blocked f fs m h = rw (h, run_frames)

  -- A message of frames of at most 1 MB, written back to back, is handled frame by frame, in order,
  -- up to the first one that has to wait.
  pub handle_message-wire :
      (fs : List Frame) (fuel : ℕ) (m : Mux)
      → All Fits fs
      → length (wire fs) ≤ fuel
      → handle_message json pick fuel (wire fs) m ≡ run_frames json pick fs m
  handle_message-wire [] fuel m _ h = unfold handle_message wire run_frames in refl
  handle_message-wire (f ∷ fs) zero m _ h =
      absurd
        (unfold wire in omega (arith, length-encode f, length-append (encode_frame f) (wire fs)))
  handle_message-wire (f ∷ fs) (suc fuel) m ((hid, hlen), hs) h =
      let (b, bs, shape) = encode-cons f in
      let d : decode_frame (b ∷ (bs ++ wire fs)) ≡ ok (f, wire fs) =
        rw shape at (decode-encode f (wire fs) hid hlen) in
      let fits : length (wire fs) ≤ fuel =
        unfold wire in omega (arith, length-encode f, length-append (encode_frame f) (wire fs)) in
      let split : wire (f ∷ fs) ≡ b ∷ (bs ++ wire fs) = unfold wire in rw shape in
      elim (Handled-cases (handle_frame json (pick (wire fs)) f m)) [
        | inl stop ↦ rw (
          split,
          message_blocked json pick fuel b (bs ++ wire fs) m f (wire fs) d stop,
          run_blocked f fs m stop,
        )
        | inr (m', e, go) ↦
            rw
              (
                split,
                message_returned json pick fuel b (bs ++ wire fs) m f (wire fs) m' e d go,
                run_returned f fs m m' e go,
              )
              (handle_message-wire fs fuel m' hs fits)
      ]
