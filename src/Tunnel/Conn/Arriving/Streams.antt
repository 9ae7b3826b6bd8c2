-- ===== src/Tunnel/Conn/Arriving/Streams.antt =====
-- A stream at the end where its frames arrive.
use mathlib.Core.List.{Mem, mem-append_left, mem-append_right, mem-cons_self}
use etunl_cli.Base.{
  ℕ, suc, ◌+◌, ◌≤◌, ◌≡◌, ◌≢◌, ◌∙◌, refl, sym, Bool, true, false, Option, none, some, List, [], ◌∷◌,
  ◌++◌, length, nat_eq, arith, All, inl, inr, append-nil, append_assoc, length-append,
}
use etunl_cli.Base.Bytes.{Bytes}
use etunl_cli.Tunnel.Frame.{Frame}
use etunl_cli.Tunnel.Mux.{
  OpenJson, Mux, Stream, HandleError, returned, handle_frame, open_frame, close_frame, data_ch_cap,
}
use etunl_cli.Tunnel.Mux.WellFormed.{IsWellFormed}
use etunl_cli.Tunnel.Mux.Preservation.{Leaves-returned, handle_frame-IsWellFormed}
use etunl_cli.Tunnel.Mux.Delivery.{open_arrives, data_arrives}
use etunl_cli.Tunnel.Mux.Apart.{Holds, handle_frame-Holds, data_dropped, close_arrives}
use etunl_cli.Tunnel.Mux.Growing.{Grows, handle_frame-Grows}
use etunl_cli.Tunnel.Pump.Copying.{mine, data_frames}
use etunl_cli.Tunnel.Conn.{Reading, drained, waiting, starved, messages, read_messages}
use etunl_cli.Tunnel.Conn.Loop.{Fits, Handled-cases}
use etunl_cli.Tunnel.Conn.Arriving.{
  Brings, stream_with, mine-cases, read_returned, read_blocked, read_own, read_other,
  data_frames-uncons, own_none, own_frames-uncons,
}

module _ (json : OpenJson) (pick : Bytes → Bool) (id : ℕ) where
  whole_behind :
      (f : Frame) (m m' : Mux) (e : Option HandleError)
      → handle_frame json (pick []) f m ≡ returned m' e
      → IsWellFormed m
      → IsWellFormed m'
  whole_behind f m m' e went w =
      Leaves-returned IsWellFormed e went (handle_frame-IsWellFormed json (pick []) f m w)

  held_behind :
      (p : ℕ) (s : Stream) (o : Option ℕ) (f : Frame) (m m' : Mux) (e : Option HandleError)
      → handle_frame json (pick []) f m ≡ returned m' e
      → f.stream_id ≢ id
      → s.id ≡ id
      → IsWellFormed m
      → Holds id p s o m
      → Holds id p s o m'
  held_behind p s o f m m' e went other same w h =
      Leaves-returned (Holds id p s o) e went
        (handle_frame-Holds json (pick []) id p s o f m other same w h)

  -- Behind its StreamClose frame a stream stays as it is.
  read_closed :
      (p : ℕ) (s : Stream) (late : List Bytes) (fs : List Frame) (m : Mux)
      → s.id ≡ id
      → All Fits fs
      → IsWellFormed m
      → Holds id p s none m
      → mine id fs ≡ data_frames id late
      → Brings id (Holds id p s none) (read_messages json pick (messages fs) m)
  read_closed p s late [] m same fits w h e = unfold read_messages messages in h
  read_closed p s late (f ∷ fs) m same (fit, fits) w h e = elim (mine-cases id f fs) [
    | inr (other, less) ↦
        read_other json pick id (Holds id p s none) f fs m fit other (λ m' err went.
          read_closed p s late fs m' same fits (whole_behind f m m' err went w)
            (held_behind p s none f m m' err went other same w h) (sym less ∙ e))
    | inl (own, more) ↦
        let (b, bs, is, rest) = data_frames-uncons id late f (mine id fs) (sym more ∙ e) in
        read_own json pick id (Holds id p s none) f fs m fit m
          (rw is (data_dropped json (pick []) id m b h.entry))
          (read_closed p s bs fs m same fits w h rest)
  ]

  -- A stream that is not closed takes its payloads in order, and then its StreamClose frame.
  pub read_open :
      (p : ℕ) (route : Bytes) (got ps late : List Bytes) (fs : List Frame) (m : Mux)
      → All Fits fs
      → IsWellFormed m
      → Holds id p (stream_with id route got false) (some p) m
      → length got + length ps ≤ data_ch_cap
      → mine id fs ≡ data_frames id ps ++ (close_frame id ∷ data_frames id late)
      → Brings id
          (Holds id p (stream_with id route (got ++ ps) true) none)
          (read_messages json pick (messages fs) m)
  unfolding mine
  read_open p route got ps late [] m fits w h room e = absurd (own_none id ps late e)
  read_open p route got ps late (f ∷ fs) m (fit, fits) w h room e =
      let now = stream_with id route got false in
      let P : Mux → Type 0 = Holds id p (stream_with id route (got ++ ps) true) none in
      elim (mine-cases id f fs) [
        | inr (other, less) ↦ read_other json pick id P f fs m fit other (λ m' err went.
            read_open p route got ps late fs m' fits (whole_behind f m m' err went w)
              (held_behind p now (some p) f m m' err went other refl w h) room (sym less ∙ e))
        | inl (own, more) ↦ elim (own_frames-uncons id ps late f (mine id fs) (sym more ∙ e)) [
          | inl (none_left, is, rest) ↦
              let (m', went, h') = close_arrives json (pick []) id m p now refl h in
              let went' = rw (← is) at went in
              rw (none_left, append-nil got)
                (read_own json pick id _ f fs m fit m' went' (
                  read_closed p (stream_with id route got true) late fs m' refl fits
                    (whole_behind f m m' none went' w) h' rest))
          | inr (b, bs, split, is, rest) ↦
              let less : length got + suc (length bs) ≤ data_ch_cap = rw split at room in
              let (m', went, at', _, kept) =
                data_arrives json (pick []) id p b now m h.entry h.at refl (omega arith) in
              let went' = rw (← is) at went in
              let h' : Holds id p (stream_with id route (got ++ b ∷ []) false) (some p) m' =
                record { entry = rw kept h.entry; at = at' } in
              let grown = length-append got (b ∷ []) in
              rw (split, ← append_assoc got (b ∷ []) bs)
                (read_own json pick id _ f fs m fit m' went' (
                  read_open p route (got ++ b ∷ []) bs late fs m' fits
                    (whole_behind f m m' none went' w) h' (omega arith) rest))
        ]
      ]

-- Where the messages are all read this holds.
abbrev Drains : (Mux → Type 0) → Reading → Type 0
Drains R (drained m) = R m
Drains R (waiting m f rest) = Unit
Drains R starved = Unit

Brings-with :
    (id : ℕ) (P R Q : Mux → Type 0) (r : Reading)
    → ((m : Mux) → P m → R m → Q m)
    → Brings id P r
    → Drains R r
    → Brings id Q r
Brings-with id P R Q (drained m) h b d = h m b d
Brings-with id P R Q (waiting m f rest) h b d = b
Brings-with id P R Q starved h b d = b

-- A handler that was started stays so.
read_started :
    (json : OpenJson) (pick : Bytes → Bool) (p : ℕ) (fs : List Frame) (m : Mux)
    → All Fits fs
    → Mem p m.started
    → Drains (λ m'. Mem p m'.started) (read_messages json pick (messages fs) m)
read_started json pick p [] m fits begun = unfold read_messages messages in begun
read_started json pick p (f ∷ fs) m (fit, fits) begun =
    elim (Handled-cases (handle_frame json (pick []) f m)) [
      | inl stuck ↦ rw (read_blocked json pick f fs m fit stuck) tt
      | inr (m', e, went) ↦
          let g = Leaves-returned (Grows m) e went (handle_frame-Grows json (pick []) f m) in
          rw (read_returned json pick f fs m fit m' e went)
            (read_started json pick p fs m' fits (rw g.more (mem-append_left g.extra begun)))
    ]

-- A stream that has come and gone: its object is closed, with these payloads in its channel, its
-- handler has been started, and its entry is out of the map.
pub record Carried (id : ℕ) (route : Bytes) (ps : List Bytes) (m : Mux) : Type 0 where
  pub object : ℕ
  pub held : Holds id object (stream_with id route ps true) none m
  pub handler : Mem object m.started

-- The frames of a stream from its opening on, with frames of others between them, open it, start its
-- handler, put exactly the payloads before the StreamClose frame into its channel, and close it.
pub read_stream :
    (json : OpenJson) (pick : Bytes → Bool) (id : ℕ) (route : Bytes) (ps late : List Bytes)
    (fs : List Frame) (m : Mux)
    → json.unmarshal (json.marshal route) ≡ some route
    → All Fits fs
    → IsWellFormed m
    → m.on_stream ≡ true
    → length ps ≤ data_ch_cap
    → mine id fs
      ≡ open_frame json id route ∷ (data_frames id ps ++ (close_frame id ∷ data_frames id late))
    → Brings id (Carried id route ps) (read_messages json pick (messages fs) m)
unfolding mine
read_stream json pick id route ps late [] m inverse fits w on room e = absurd (cc)
read_stream json pick id route ps late (f ∷ fs) m inverse (fit, fits) w on room e =
    let P : Mux → Type 0 = Carried id route ps in
    elim (mine-cases id f fs) [
      | inr (other, less) ↦ read_other json pick id P f fs m fit other (λ m' err went.
          let g = Leaves-returned (Grows m) err went (handle_frame-Grows json (pick []) f m) in
          read_stream json pick id route ps late fs m' inverse fits
            (whole_behind json pick id f m m' err went w) (g.on ∙ on) room (sym less ∙ e))
      | inl (own, more) ↦
          let is : f ≡ open_frame json id route = cc in
          let rest : mine id fs ≡ data_frames id ps ++ (close_frame id ∷ data_frames id late) =
            cc in
          let (m', went, new) = open_arrives json (pick []) id route m inverse in
          let went' = rw (← is) at went in
          let p = length m.heap in
          let h : Holds id p (stream_with id route [] false) (some p) m' = record {
            entry = new.registered;
            at = new.object;
          } in
          let begun : Mem p m'.started =
            rw (new.handler, on) (mem-append_right m.started mem-cons_self) in
          read_own json pick id P f fs m fit m' went' (
            Brings-with id (Holds id p (stream_with id route ps true) none) (λ t. Mem p t.started) P
              (read_messages json pick (messages fs) m')
              (λ t held handler. record { object = p; held = held; handler = handler })
              (read_open json pick id p route [] ps late fs m' fits
                (whole_behind json pick id f m m' none went' w) h (omega arith) rest)
              (read_started json pick p fs m' fits begun))
    ]
