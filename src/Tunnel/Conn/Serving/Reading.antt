-- ===== src/Tunnel/Conn/Serving/Reading.antt =====
-- A stream while the read loop handles frames.
use etunl_cli.Base.{
  ℕ, ◌<◌, ◌≤◌, ◌≡◌, ◌≢◌, ◌∙◌, ◌⊎◌, refl, sym, ap, Bool, true, false, Option, none, some, List, [],
  ◌∷◌, ◌++◌, length, nat_eq, arith, Bool-cases, inl, inr, append-nil, append_assoc, ltb,
}
use etunl_cli.Base.Bytes.{Bytes}
use etunl_cli.Tunnel.Frame.{Frame}
use etunl_cli.Tunnel.Mux.{
  OpenJson, Mux, HandleError, returned, handle_frame, open_frame, data_frame, close_frame,
  data_ch_cap,
}
use etunl_cli.Tunnel.Mux.Preservation.{Leaves-returned, Step-IsWellFormed, arrives}
use etunl_cli.Tunnel.Mux.Delivery.{open_arrives, data_arrives, data_blocks_iff}
use etunl_cli.Tunnel.Mux.Apart.{Holds, handle_frame-Holds, data_dropped, close_arrives}
use etunl_cli.Tunnel.Mux.Growing.{Grows, handle_frame-Grows}
use etunl_cli.Tunnel.Pump.Copying.{mine}
use etunl_cli.Tunnel.Conn.Arriving.{stream_with, data_frames-uncons, own_frames-uncons}
use etunl_cli.Tunnel.Conn.Serving.{Peer, taken_from}
use etunl_cli.Tunnel.Conn.Serving.Stages.{
  body, Stage, coming, running, ended, IsSound, taken_from_new, known_wider,
}

room_or_full : (n : ℕ) → (n < data_ch_cap) ⊎ (data_ch_cap ≤ n)
room_or_full n = elim (Bool-cases (ltb n data_ch_cap)) [
  | inl less ↦ inl (ground arith)
  | inr full ↦ inr (ground arith)
]

module _ (json : OpenJson) (pick : Bool) (id : ℕ) (route : Bytes) (ps : List Bytes) (f : Frame)
    (fs : List Frame) (s : Peer) (m' : Mux) (e : Option HandleError)
    (went : handle_frame json pick f s.mux ≡ returned m' e) (sound : IsSound s) where
  -- The state behind the frame.
  abbrev pub behind : Peer
  behind = record s { wire = fs; mux = m' }

  pub behind-IsSound : IsSound behind
  behind-IsSound =
      let g = Leaves-returned (Grows s.mux) e went (handle_frame-Grows json pick f s.mux) in
      record {
        whole = Step-IsWellFormed json (arrives pick f e went) sound.whole;
        known = known_wider (length s.mux.heap) (length m'.heap) s.taken g.wide sound.known;
      }

  -- A frame of another stream.
  pub Stage-other :
      f.stream_id ≢ id
      → mine id s.wire ≡ mine id fs
      → Stage json id route ps s
      → Stage json id route ps behind
  Stage-other other same (coming late e) = coming late (sym same ∙ e)
  Stage-other other same (running p ch left late h all e) =
      running p ch left late
        (Leaves-returned (Holds id p (stream_with id route ch false) (some p)) _ went
          (handle_frame-Holds json pick id p _ (some p) f s.mux other refl sound.whole h))
        all (sym same ∙ e)
  Stage-other other same (ended p ch late h all e) =
      ended p ch late
        (Leaves-returned (Holds id p (stream_with id route ch true) none) _ went
          (handle_frame-Holds json pick id p _ none f s.mux other refl sound.whole h))
        all (sym same ∙ e)

  -- What this frame leaves, given that it is another one.
  went_as :
      (g : Frame) (m1 : Mux) → f ≡ g → handle_frame json pick g s.mux ≡ returned m1 none → m' ≡ m1
  went_as g m1 is there =
      let here : handle_frame json pick g s.mux ≡ returned m' e = rw is at went in cc

  -- A payload is there to be taken.
  Stage-data :
      (p : ℕ) (ch : List Bytes) (b : Bytes) (bs late : List Bytes)
      → Holds id p (stream_with id route ch false) (some p) s.mux
      → f ≡ data_frame id b
      → (taken_from p s.taken ++ ch) ++ (b ∷ bs) ≡ ps
      → mine id fs ≡ body id bs late
      → Stage json id route ps behind
  Stage-data p ch b bs late h is all rest =
      let now = stream_with id route ch false in
      elim (room_or_full (length ch)) [
        | inr full ↦
            let stuck = (data_blocks_iff json pick id p b now s.mux h.entry h.at).1 (refl, full) in
            let here : handle_frame json pick (data_frame id b) s.mux ≡ returned m' e =
              rw is at went in
            absurd (cc)
        | inl room ↦
            let (m1, there, at1, _, kept) =
              data_arrives json pick id p b now s.mux h.entry h.at refl room in
            let same = went_as (data_frame id b) m1 is there in
            running p (ch ++ b ∷ []) bs late
              (record { entry = rw (same, kept) h.entry; at = rw same at1 })
              (simp append_assoc (simp append_assoc at all)) rest
      ]

  -- A frame of the stream itself.
  pub Stage-own :
      json.unmarshal (json.marshal route) ≡ some route
      → f ∷ mine id fs ≡ mine id s.wire
      → Stage json id route ps s
      → Stage json id route ps behind
  Stage-own inverse first (coming late e1) =
      let all = first ∙ e1 in
      let is : f ≡ open_frame json id route = cc in
      let rest : mine id fs ≡ body id ps late = cc in
      let (m1, there, new) = open_arrives json pick id route s.mux inverse in
      let same = went_as (open_frame json id route) m1 is there in
      let p = length s.mux.heap in
      running p [] ps late (record { entry = rw same new.registered; at = rw same new.object })
        (rw (taken_from_new p s.taken sound.known) refl) rest
  Stage-own inverse first (running p ch left late h all e1) =
      elim (own_frames-uncons id left late f (mine id fs) (first ∙ e1)) [
        | inl (none_left, is, rest) ↦
            let (m1, there, h1) =
              close_arrives json pick id s.mux p (stream_with id route ch false) refl h in
            let same = went_as (close_frame id) m1 is there in
            ended p ch late (rw same h1)
              (sym (append-nil (taken_from p s.taken ++ ch)) ∙ rw none_left at all) rest
        | inr (b, bs, split, is, rest) ↦
            Stage-data p ch b bs late h is
              (ap (λ l. (taken_from p s.taken ++ ch) ++ l) (sym split) ∙ all) rest
      ]
  Stage-own inverse first (ended p ch late h all e1) =
      let (b, bs, is, rest) = data_frames-uncons id late f (mine id fs) (first ∙ e1) in
      let same = went_as (data_frame id b) s.mux is (data_dropped json pick id s.mux b h.entry) in
      ended p ch bs (rw same h) all rest
