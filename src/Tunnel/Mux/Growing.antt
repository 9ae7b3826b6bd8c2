-- ===== src/Tunnel/Mux/Growing.antt =====
-- A Mux keeps its callback, its objects, and the handlers that it has started.
use etunl_cli.Base.{
  ℕ, ◌≡◌, refl, sym, Bool, Option, none, some, List, [], ◌∷◌, ◌++◌, length, get_elem?, if_split,
  append-nil, ◌==◌, nat_eq, ◌∙◌, ◌≤◌, modify, length-modify, length-append, arith,
}
use etunl_cli.Base.Bytes.{Bytes}
use etunl_cli.Base.Dict.{lookup}
use etunl_cli.Tunnel.Frame.{Frame}
use etunl_cli.Tunnel.Mux.{
  OpenJson, Mux, Stream, new_stream, close, handle_frame, open_remote, add_stream, start, deliver,
  deliver_at, route_data, settle, drop_at, handle_open, handle_data, drop_stream, handle_ping,
  send_frame, pong_frame, route_sync, remove_stream,
}
use etunl_cli.Tunnel.Mux.Preservation.{Leaves, Leaves-if}

pub record Grows (m m' : Mux) : Type 0 where
  pub on : m'.on_stream ≡ m.on_stream
  pub extra : List ℕ
  pub more : m'.started ≡ m.started ++ extra
  pub wide : length m.heap ≤ length m'.heap

module _ (m : Mux) where
  Grows-kept :
      (m' : Mux)
      → m'.on_stream ≡ m.on_stream
      → m'.started ≡ m.started
      → length m.heap ≤ length m'.heap
      → Grows m m'
  Grows-kept m' on same wide = record {
    on = on;
    extra = [];
    more = same ∙ sym (append-nil m.started);
    wide = wide;
  }

  -- A heap with one object changed is as wide.
  Grows-modify : (f : Stream → Stream) (q : ℕ) → length m.heap ≤ length (modify f q m.heap)
  Grows-modify f q = omega (arith, length-modify f q m.heap)

  Grows-start : (p : ℕ) (m1 : Mux) → Grows m m1 → m1.started ≡ m.started → Grows m (start p m1)
  unfolding start
  Grows-start p m1 g same =
      if_split (Grows m) m1.on_stream
        (λ _. record { on = g.on; extra = p ∷ []; more = rw same refl; wide = g.wide }) (λ _. g)

  Grows-open_remote : (id : ℕ) (r : Option Bytes) → Leaves (Grows m) (open_remote id m r)
  unfolding open_remote add_stream
  Grows-open_remote id none = Grows-kept m refl refl (omega arith)
  Grows-open_remote id (some route) =
      Grows-start (length m.heap) (add_stream id route m)
        (Grows-kept (add_stream id route m) refl refl
          (omega (arith, length-append m.heap (new_stream id route ∷ []))))
        refl

  Grows-settle : (q : ℕ) (r : Option Stream) → Leaves (Grows m) (settle m q r)
  unfolding settle
  Grows-settle q none = tt
  Grows-settle q (some t) = Grows-kept _ refl refl (Grows-modify (λ _. t) q)

  Grows-deliver_at :
      (pick : Bool) (payload : Bytes) (q : ℕ) (r : Option Stream)
      → Leaves (Grows m) (deliver_at pick payload m q r)
  unfolding deliver_at
  Grows-deliver_at pick payload q none = Grows-kept m refl refl (omega arith)
  Grows-deliver_at pick payload q (some t) = Grows-settle q (deliver pick payload t)

  Grows-route_data :
      (pick : Bool) (payload : Bytes) (r : Option ℕ)
      → Leaves (Grows m) (route_data pick payload m r)
  unfolding route_data
  Grows-route_data pick payload none = Grows-kept m refl refl (omega arith)
  Grows-route_data pick payload (some q) = Grows-deliver_at pick payload q (get_elem? m.heap q)

  Grows-drop_at : (id : ℕ) (r : Option ℕ) → Grows m (drop_at id m r)
  unfolding drop_at remove_stream
  Grows-drop_at id none = Grows-kept m refl refl (omega arith)
  Grows-drop_at id (some q) = Grows-kept _ refl refl (Grows-modify close q)

  Grows-send_frame : (f : Frame) → Grows m (send_frame f m).0
  unfolding send_frame
  Grows-send_frame f =
      if_split (λ (x : Mux × Bool). Grows m x.0) m.link_up
        (λ _. Grows-kept _ refl refl (omega arith)) (λ _. Grows-kept m refl refl (omega arith))

  Grows-route_sync : (payload : Bytes) → Grows m (route_sync payload m)
  unfolding route_sync
  Grows-route_sync payload =
      if_split (Grows m) m.on_route_sync (λ _. Grows-kept _ refl refl (omega arith))
        (λ _. Grows-kept m refl refl (omega arith))

-- Whatever frame arrives, HandleFrame forgets no handler that was started.
pub handle_frame-Grows :
    (json : OpenJson) (pick : Bool) (f : Frame) (m : Mux)
    → Leaves (Grows m) (handle_frame json pick f m)
unfolding handle_frame
handle_frame-Grows json pick f m =
    let P : Mux → Type 0 = Grows m in
    let ping : Leaves P (handle_ping f m) =
      unfold handle_ping in Grows-send_frame m (pong_frame f.stream_id) in
    Leaves-if P (f.type == 1) _ _
      (unfold handle_open in Grows-open_remote m f.stream_id (json.unmarshal f.payload))
      (Leaves-if P (f.type == 2) _ _
        (unfold handle_data in Grows-route_data m pick f.payload (lookup f.stream_id m.streams))
        (Leaves-if P (f.type == 3) _ _
          (unfold drop_stream in Grows-drop_at m f.stream_id (lookup f.stream_id m.streams))
          (Leaves-if P (f.type == 4) _ _ (Grows-route_sync m f.payload)
            (Leaves-if P (f.type == 5) _ _ ping (Grows-kept m m refl refl (omega arith))))))
