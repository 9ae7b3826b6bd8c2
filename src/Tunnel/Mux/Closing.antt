-- ===== src/Tunnel/Mux/Closing.antt =====
-- CloseStream, StreamClose frames and CloseAll.
use etunl_cli.Base.{
  ℕ, ◌≡◌, ◌≢◌, refl, ap, sym, ◌∙◌, Bool, true, Option, none, some, List, [], ◌∷◌, ◌++◌, get_elem?,
  modify, arith, nat_eq, ◌==◌, ==_iff, get_elem?-modify_self, get_elem?-modify_ne, Bool-cases, inl,
  inr, if_split, Option-cases,
}
use etunl_cli.Base.Bytes.{Bytes}
use etunl_cli.Base.Dict.{Dict, lookup, lookup-erase, lookup-erase_self, lookup-nil, lookup-cons}
use etunl_cli.Tunnel.Mux.{
  OpenJson, Mux, Stream, close, returned, drop_stream, drop_at, close_at, close_stream, close_frame,
  remove_stream, data_frame, close_each, close_all, send_frame, handle_frame, handle_data,
  route_data,
}

close-done : (s : Stream) → (close s).done ≡ true
unfolding close
close-done s = ground arith

-- Everything that CloseStream does to a registered stream over a working link.
pub record Closed (id p : ℕ) (s : Stream) (m m' : Mux) : Type 0 where
  pub gone : lookup id m'.streams ≡ none
  pub object : get_elem? m'.heap p ≡ some (record s { done = true })
  pub frame : m'.sent ≡ m.sent ++ close_frame id ∷ []
  pub others : (j : ℕ) → j ≢ id → lookup j m'.streams ≡ lookup j m.streams
  pub objects : (q : ℕ) → q ≢ p → get_elem? m'.heap q ≡ get_elem? m.heap q

close-eq : (s : Stream) → close s ≡ record s { done = true }
unfolding close
close-eq s = ground arith

module _ (id p : ℕ) (s : Stream) (m : Mux) where
  -- CloseStream on a registered stream closes its Done channel, takes it out of the map and tells the
  -- peer with exactly one StreamClose frame; no other stream changes.
  pub close_stream_lem :
      m.link_up ≡ true
      → lookup id m.streams ≡ some p
      → get_elem? m.heap p ≡ some s
      → Closed id p s m (close_stream id m)
  unfolding close_stream send_frame
  close_stream_lem up found at =
      rw (found, close_at, up)
        (record {
          gone = lookup-erase_self id m.streams;
          object = get_elem?-modify_self close p m.heap s at ∙ ap some (close-eq s);
          frame = refl;
          others = λ j ne. ground (arith, lookup-erase id j m.streams);
          objects = λ q ne. get_elem?-modify_ne close p q m.heap (λ e. ne (sym e));
        })

module _ (id : ℕ) (m : Mux) where
  gone-drop_at :
      (o : Option ℕ) → lookup id m.streams ≡ o → lookup id (drop_at id m o).streams ≡ none
  unfolding drop_at
  gone-drop_at none h = h
  gone-drop_at (some p) h = lookup-erase_self id m.streams

  gone-drop_stream : lookup id (drop_stream id m).streams ≡ none
  unfolding drop_stream
  gone-drop_stream = gone-drop_at (lookup id m.streams) refl

  gone-close_at :
      (o : Option ℕ) → lookup id m.streams ≡ o → lookup id (close_at id m o).streams ≡ none
  unfolding close_at send_frame
  gone-close_at none h = h
  gone-close_at (some p) h = ground (arith, gone-drop_at (some p) h)

  pub gone-close_stream : lookup id (close_stream id m).streams ≡ none
  unfolding close_stream
  gone-close_stream = gone-close_at (lookup id m.streams) refl

-- The frame that CloseStream sends over a working link for an id in the map.
pub sent-close_stream :
    (id p : ℕ) (m : Mux)
    → m.link_up ≡ true
    → lookup id m.streams ≡ some p
    → (close_stream id m).sent ≡ m.sent ++ close_frame id ∷ []
unfolding close_stream close_at drop_at send_frame
sent-close_stream id p m up found = rw (found, close_at, up) refl

pub link-close_stream : (id : ℕ) (m : Mux) → (close_stream id m).link_up ≡ m.link_up
unfolding close_stream close_at drop_at send_frame remove_stream
link-close_stream id m = elim (Option-cases (lookup id m.streams)) [
  | inl absent ↦ rw (close_stream, close_at, absent) refl
  | inr (p, found) ↦
      rw found
        (if_split (λ (x : Mux × Bool). x.0.link_up ≡ m.link_up) m.link_up (λ _. refl) (λ _. refl))
]

pub close_stream_absent : (id : ℕ) (m : Mux) → lookup id m.streams ≡ none → close_stream id m ≡ m
unfolding close_stream close_at
close_stream_absent id m h = rw h

-- A second CloseStream does nothing: no second frame is sent, whether the link works or not.
pub close_stream_idem : (id : ℕ) (m : Mux) → close_stream id (close_stream id m) ≡ close_stream id m
close_stream_idem id m = close_stream_absent id (close_stream id m) (gone-close_stream id m)

-- A StreamClose frame for an id makes HandleFrame return without an error, and a StreamData frame
-- for that id that comes next is ignored.
pub data_after_close :
    (json : OpenJson) (pick : Bool) (id : ℕ) (payload : Bytes) (m : Mux)
    → (handle_frame json pick (close_frame id) m ≡ returned (drop_stream id m) none)
      × (handle_frame json pick (data_frame id payload) (drop_stream id m)
          ≡ returned (drop_stream id m) none)
unfolding handle_frame handle_data
data_after_close json pick id payload m = (refl, rw gone-drop_stream (unfold route_data in refl))

-- The object at `p` has its Done channel closed.
abbrev pub IsDone : List Stream → ℕ → Type 0
IsDone heap p = (s : Stream) × (get_elem? heap p ≡ some s) × (s.done ≡ true)

IsDone-close : (heap : List Stream) (p q : ℕ) → IsDone heap p → IsDone (modify close q heap) p
IsDone-close heap p q (s, at, done) = elim (Bool-cases (q == p)) [
  | inl same ↦
      let eq : q ≡ p = (==_iff q p).0 same in
      (close s, rw eq (get_elem?-modify_self close p heap s at), close-done s)
  | inr differ ↦
      (s, get_elem?-modify_ne close q p heap (λ e. ground (arith, ==_iff q p)) ∙ at, done)
]

IsDone-close_each :
    (d : Dict ℕ ℕ) (heap : List Stream) (p : ℕ) → IsDone heap p → IsDone (close_each d heap) p
unfolding close_each
IsDone-close_each [] heap p h = h
IsDone-close_each ((id, q) ∷ d) heap p h =
    IsDone-close_each d (modify close q heap) p (IsDone-close heap p q h)

get_elem?-close :
    (heap : List Stream) (p q : ℕ) (s : Stream)
    → get_elem? heap p ≡ some s
    → (s' : Stream) × (get_elem? (modify close q heap) p ≡ some s')
get_elem?-close heap p q s at = elim (Bool-cases (q == p)) [
  | inl same ↦
      let eq : q ≡ p = (==_iff q p).0 same in
      (close s, rw eq (get_elem?-modify_self close p heap s at))
  | inr differ ↦ (s, get_elem?-modify_ne close q p heap (λ e. ground (arith, ==_iff q p)) ∙ at)
]

close_each-IsDone :
    (d : Dict ℕ ℕ) (heap : List Stream) (id p : ℕ) (s : Stream)
    → lookup id d ≡ some p
    → get_elem? heap p ≡ some s
    → IsDone (close_each d heap) p
unfolding close_each
close_each-IsDone [] heap id p s found at = cc (lookup-nil {V = ℕ} id)
close_each-IsDone ((j, q) ∷ d) heap id p s found at = elim (Bool-cases (j == id)) [
  | inl same ↦
      let eq : q ≡ p = ground (arith, lookup-cons id j q d) in
      IsDone-close_each d (modify close q heap) p
        (close s, rw eq (get_elem?-modify_self close p heap s at), close-done s)
  | inr differ ↦
      let (s', at') = get_elem?-close heap p q s at in
      close_each-IsDone d (modify close q heap) id p s' (ground (arith, lookup-cons id j q d)) at'
]

-- CloseAll empties the map, and every stream object that the map pointed to has its Done channel
-- closed afterwards.
pub close_all_lem :
    (m : Mux) (id p : ℕ) (s : Stream)
    → lookup id m.streams ≡ some p
    → get_elem? m.heap p ≡ some s
    → ((close_all m).streams ≡ []) × IsDone (close_all m).heap p
unfolding close_all
close_all_lem m id p s found at = (refl, close_each-IsDone m.streams m.heap id p s found at)
