-- ===== src/Tunnel/Conn/Serving/Order.antt =====
-- What the handler of a stream gets, while the read loop and all handlers are at work.
use etunl_cli.Base.{
  ℕ, ◌≡◌, ◌∙◌, refl, sym, ap, Bool, Option, none, some, List, [], ◌∷◌, ◌++◌, get_elem?, nat_eq, inl,
  inr,
}
use etunl_cli.Base.Bytes.{Bytes}
use etunl_cli.Tunnel.Frame.{Frame}
use etunl_cli.Tunnel.Mux.{OpenJson, Mux, Stream, handle_frame, open_frame, close_frame}
use etunl_cli.Tunnel.Mux.WellFormed.{IsWellFormed}
use etunl_cli.Tunnel.Pump.Copying.{mine, data_frames}
use etunl_cli.Tunnel.Conn.Arriving.{mine-cases}
use etunl_cli.Tunnel.Conn.Loop.{Handled-cases}
use etunl_cli.Tunnel.Conn.Serving.{
  Peer, Turn, reads, takes, after_frame, read_frame, take_payload, take_from, turn, turns,
}
use etunl_cli.Tunnel.Conn.Serving.Stages.{Stage, coming, IsSound}
use etunl_cli.Tunnel.Conn.Serving.Reading.{behind-IsSound, Stage-other, Stage-own}
use etunl_cli.Tunnel.Conn.Serving.Taking.{taken-IsSound, taken-Stage}

module _ (json : OpenJson) (id : ℕ) (route : Bytes) (ps : List Bytes)
    (inverse : json.unmarshal (json.marshal route) ≡ some route) where
  abbrev IsOnTheWay : Peer → Type 0
  IsOnTheWay s = IsSound s × Stage json id route ps s

  after_frame-IsOnTheWay :
      (pick : Bool) (f : Frame) (fs : List Frame) (s : Peer)
      → s.wire ≡ f ∷ fs
      → IsOnTheWay s
      → IsOnTheWay (after_frame s fs (handle_frame json pick f s.mux))
  unfolding after_frame
  after_frame-IsOnTheWay pick f fs s wire (sound, stage) =
      elim (Handled-cases (handle_frame json pick f s.mux)) [
        | inl stuck ↦ rw (after_frame, stuck) (sound, stage)
        | inr (m', e, went) ↦
            rw (after_frame, went)
              (
                behind-IsSound json pick id route ps f fs s m' e went sound,
                elim (mine-cases id f fs) [
                  | inl (own, more) ↦
                      Stage-own json pick id route ps f fs s m' e went sound inverse
                        (sym more ∙ ap (mine id) (sym wire)) stage
                  | inr (other, less) ↦
                      Stage-other json pick id route ps f fs s m' e went sound other
                        (ap (mine id) wire ∙ less) stage
                ],
              )
      ]

  take_payload-IsOnTheWay :
      (q : ℕ) (t : Stream) (ch : List Bytes) (s : Peer)
      → get_elem? s.mux.heap q ≡ some t
      → t.data_ch ≡ ch
      → IsOnTheWay s
      → IsOnTheWay (take_payload q ch s)
  unfolding take_payload
  take_payload-IsOnTheWay q t [] s at_q filled (sound, stage) = (sound, stage)
  take_payload-IsOnTheWay q t (payload ∷ rest) s at_q filled (sound, stage) = (
    taken-IsSound id q route t payload rest s at_q filled json sound,
    taken-Stage id q route t payload rest s at_q filled json ps stage,
  )

  read_frame-IsOnTheWay :
      (pick : Bool) (fs : List Frame) (s : Peer)
      → s.wire ≡ fs
      → IsOnTheWay s
      → IsOnTheWay (read_frame json pick fs s)
  unfolding read_frame
  read_frame-IsOnTheWay pick [] s wire way = way
  read_frame-IsOnTheWay pick (f ∷ fs) s wire way = after_frame-IsOnTheWay pick f fs s wire way

  take_from-IsOnTheWay :
      (q : ℕ) (o : Option Stream) (s : Peer)
      → get_elem? s.mux.heap q ≡ o
      → IsOnTheWay s
      → IsOnTheWay (take_from q o s)
  unfolding take_from
  take_from-IsOnTheWay q none s at_q way = way
  take_from-IsOnTheWay q (some t) s at_q way = take_payload-IsOnTheWay q t t.data_ch s at_q refl way

  turns-IsOnTheWay : (ts : List Turn) (s : Peer) → IsOnTheWay s → IsOnTheWay (turns json ts s)
  unfolding turns turn
  turns-IsOnTheWay [] s way = way
  turns-IsOnTheWay (reads pick ∷ ts) s way =
      turns-IsOnTheWay ts (read_frame json pick s.wire s)
        (read_frame-IsOnTheWay pick s.wire s refl way)
  turns-IsOnTheWay (takes q ∷ ts) s way =
      turns-IsOnTheWay ts (take_from q (get_elem? s.mux.heap q) s)
        (take_from-IsOnTheWay q (get_elem? s.mux.heap q) s refl way)

-- One end that begins to read, with nothing taken yet.
abbrev pub begins : List Frame → Mux → Peer
begins fs m = record { wire = fs; mux = m; taken = [] }

-- However the read loop and the handlers of all streams take turns, a stream goes through its stages.
pub turns-Stage :
    (json : OpenJson) (id : ℕ) (route : Bytes) (ps late : List Bytes) (fs : List Frame) (m : Mux)
    (ts : List Turn)
    → json.unmarshal (json.marshal route) ≡ some route
    → IsWellFormed m
    → mine id fs
      ≡ open_frame json id route ∷ (data_frames id ps ++ (close_frame id ∷ data_frames id late))
    → Stage json id route ps (turns json ts (begins fs m))
turns-Stage json id route ps late fs m ts inverse w frames =
    (turns-IsOnTheWay json id route ps inverse ts (begins fs m)
      (record { whole = w; known = tt }, coming late frames)).1
