-- ===== src/Tunnel/Mux/Apart.antt =====
-- What a frame of one stream does to the stream of another id.
use etunl_cli.Base.{
  ℕ, ◌≡◌, ◌≢◌, ◌∙◌, ap, refl, Bool, true, false, Option, none, some, [], ◌∷◌, length, get_elem?,
  modify, nat_eq, arith, get_elem?-append_lt, get_elem?-lt, get_elem?-modify_ne,
  get_elem?-modify_self, ◌==◌,
}
use etunl_cli.Base.Bytes.{Bytes}
use etunl_cli.Base.Dict.{lookup, lookup-insert, lookup-erase, lookup-erase_self}
use etunl_cli.Tunnel.Frame.{Frame}
use etunl_cli.Tunnel.Mux.{
  OpenJson, Mux, Stream, new_stream, close, handle_frame, open_remote, add_stream, deliver,
  deliver_at, route_data, settle, drop_at, handle_open, handle_data, drop_stream, handle_ping,
  send_frame, pong_frame, data_frame, close_frame, returned, remove_stream,
}
use etunl_cli.Tunnel.Mux.Progress.{close_open}
use etunl_cli.Tunnel.Mux.WellFormed.{IsWellFormed}
use etunl_cli.Tunnel.Mux.Preservation.{
  Leaves, Leaves-if, heap-start, streams-start, heap-send_frame, streams-send_frame,
  heap-route_sync, streams-route_sync,
}

-- The stream object of an id: `o` is the entry of the id in the map, none once it is taken out.
pub record Holds (id p : ℕ) (s : Stream) (o : Option ℕ) (m : Mux) : Type 0 where
  pub entry : lookup id m.streams ≡ o
  pub at : get_elem? m.heap p ≡ some s

Holds-kept :
    (id p : ℕ) (s : Stream) (o : Option ℕ) {m m' : Mux}
    → Holds id p s o m
    → m'.streams ≡ m.streams
    → m'.heap ≡ m.heap
    → Holds id p s o m'
Holds-kept id p s o h e1 e2 = record { entry = rw e1 h.entry; at = rw e2 h.at }

module _ (id p : ℕ) (s : Stream) (o : Option ℕ) (m : Mux) (j : ℕ) (other : j ≢ id)
    (same : s.id ≡ id) (whole : IsWellFormed m) (h : Holds id p s o m) where
  apart : (q : ℕ) → lookup j m.streams ≡ some q → q ≢ p
  apart q found =
      let e = whole.entry j q found in
      let e_at = e.at in let e_id = e.same_id in let h_at = h.at in λ eq. other (cc)

  Holds-modify :
      (f : Stream → Stream) (q : ℕ)
      → lookup j m.streams ≡ some q
      → get_elem? (modify f q m.heap) p ≡ some s
  Holds-modify f q found = get_elem?-modify_ne f q p m.heap (apart q found) ∙ h.at

  Holds-open_remote : (r : Option Bytes) → Leaves (Holds id p s o) (open_remote j m r)
  unfolding open_remote add_stream
  Holds-open_remote none = h
  Holds-open_remote (some route) = record {
    entry =
        rw (streams-start (length m.heap) (add_stream j route m))
          (ground (arith, lookup-insert j id (length m.heap) m.streams, h.entry));
    at = rw (heap-start (length m.heap) (add_stream j route m)) (
        get_elem?-append_lt m.heap (new_stream j route ∷ []) p (get_elem?-lt m.heap p s h.at)
        ∙ h.at);
  }

  Holds-drop_at : (r : Option ℕ) → lookup j m.streams ≡ r → Holds id p s o (drop_at j m r)
  unfolding drop_at
  Holds-drop_at none found = h
  Holds-drop_at (some q) found = record {
    entry = ground (arith, lookup-erase j id m.streams, h.entry);
    at = Holds-modify close q found;
  }

  Holds-settle :
      (q : ℕ) (r : Option Stream)
      → lookup j m.streams ≡ some q
      → Leaves (Holds id p s o) (settle m q r)
  unfolding settle
  Holds-settle q none found = tt
  Holds-settle q (some t) found = record { entry = h.entry; at = Holds-modify (λ _. t) q found }

  Holds-deliver_at :
      (pick : Bool) (payload : Bytes) (q : ℕ) (r : Option Stream)
      → lookup j m.streams ≡ some q
      → Leaves (Holds id p s o) (deliver_at pick payload m q r)
  unfolding deliver_at
  Holds-deliver_at pick payload q none found = h
  Holds-deliver_at pick payload q (some t) found = Holds-settle q (deliver pick payload t) found

  Holds-route_data :
      (pick : Bool) (payload : Bytes) (r : Option ℕ)
      → lookup j m.streams ≡ r
      → Leaves (Holds id p s o) (route_data pick payload m r)
  unfolding route_data
  Holds-route_data pick payload none found = h
  Holds-route_data pick payload (some q) found =
      Holds-deliver_at pick payload q (get_elem? m.heap q) found

-- A frame with another id leaves the stream, its entry and its payloads as they are.
pub handle_frame-Holds :
    (json : OpenJson) (pick : Bool) (id p : ℕ) (s : Stream) (o : Option ℕ) (f : Frame) (m : Mux)
    → f.stream_id ≢ id
    → s.id ≡ id
    → IsWellFormed m
    → Holds id p s o m
    → Leaves (Holds id p s o) (handle_frame json pick f m)
unfolding handle_frame
handle_frame-Holds json pick id p s o f m other same w h =
    let P : Mux → Type 0 = Holds id p s o in
    let j = f.stream_id in
    let after : Mux = (send_frame (pong_frame j) m).0 in
    let ping : Leaves P (handle_ping f m) =
      unfold handle_ping in
      Holds-kept id p s o {m = m} {m' = after} h (streams-send_frame (pong_frame j) m)
        (heap-send_frame (pong_frame j) m) in
    Leaves-if P (f.type == 1) _ _
      (unfold handle_open in
        Holds-open_remote id p s o m j other same w h (json.unmarshal f.payload))
      (Leaves-if P (f.type == 2) _ _
        (unfold handle_data in
          Holds-route_data id p s o m j other same w h pick f.payload (lookup j m.streams) refl)
        (Leaves-if P (f.type == 3) _ _
          (unfold drop_stream in
            Holds-drop_at id p s o m j other same w h (lookup j m.streams) refl)
          (Leaves-if P (f.type == 4) _ _
            (Holds-kept id p s o h (streams-route_sync f.payload m) (heap-route_sync f.payload m))
            (Leaves-if P (f.type == 5) _ _ ping h))))

module _ (json : OpenJson) (pick : Bool) (id : ℕ) (m : Mux) where
  -- A payload for an id that is not in the map is dropped.
  pub data_dropped :
      (payload : Bytes)
      → lookup id m.streams ≡ none
      → handle_frame json pick (data_frame id payload) m ≡ returned m none
  unfolding handle_frame handle_data route_data
  data_dropped payload gone = rw gone refl

  -- A StreamClose frame closes the stream and takes its entry out of the map; the payloads stay.
  pub close_arrives :
      (p : ℕ) (s : Stream)
      → s.done ≡ false
      → Holds id p s (some p) m
      → (m' : Mux) × (handle_frame json pick (close_frame id) m ≡ returned m' none)
        × Holds id p (record s { done = true }) none m'
  unfolding handle_frame drop_stream drop_at
  close_arrives p s alive h = (
    remove_stream id (record m { heap = modify close p m.heap }),
    rw h.entry refl,
    unfold remove_stream in
        record {
          entry = lookup-erase_self id m.streams;
          at = get_elem?-modify_self close p m.heap s h.at ∙ ap some (close_open s alive);
        },
  )
