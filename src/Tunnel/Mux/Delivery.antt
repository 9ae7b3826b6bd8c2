-- ===== src/Tunnel/Mux/Delivery.antt =====
-- What arrives at a Mux: StreamOpen and StreamData frames, and the order of the payloads.
use etunl_cli.Base.{
  ℕ, ◌≡◌, ◌≢◌, ◌↔◌, ◌∙◌, ◌<◌, ◌≤◌, refl, Bool, false, Option, none, some, List, [], ◌∷◌, ◌++◌,
  get_elem?, length, All, Option-cases, inl, inr, modify, arith, nat_eq, get_elem?-modify_self,
  get_elem?-modify_ne, get_elem?-append_length, get_elem?-append_lt, append_assoc, append-nil,
  if◌then◌else◌,
}
use etunl_cli.Base.Bytes.{Bytes}
use etunl_cli.Base.Dict.{lookup, lookup-insert, lookup-insert_self}
use etunl_cli.Tunnel.Mux.{
  OpenJson, Mux, Stream, new_stream, close, returned, blocked, data_ch_cap, open_frame, data_frame,
  add_stream, start, handle_open, handle_frame, handle_data, route_data, deliver, deliver_at,
  settle, receive,
}

-- What the far end of a StreamOpen has done when HandleFrame returns.
pub record Accepted (id : ℕ) (route : Bytes) (m m' : Mux) : Type 0 where
  pub registered : lookup id m'.streams ≡ some (length m.heap)
  pub object : get_elem? m'.heap (length m.heap) ≡ some (new_stream id route)
  pub handler : m'.started ≡ (if m.on_stream then m.started ++ length m.heap ∷ [] else m.started)
  pub others : (j : ℕ) → j ≢ id → lookup j m'.streams ≡ lookup j m.streams
  pub objects : (p : ℕ) → p < length m.heap → get_elem? m'.heap p ≡ get_elem? m.heap p

module _ (json : OpenJson) (pick : Bool) (id : ℕ) (route : Bytes) (m : Mux) where
  -- The frame that OpenStream sends makes the peer register a new stream with the same id and the
  -- same route, and start its handler on it if it has one. An object that had the id before is left
  -- on the heap as it was, so its Done channel is not closed.
  pub open_arrives :
      json.unmarshal (json.marshal route) ≡ some route
      → (m' : Mux) × (handle_frame json pick (open_frame json id route) m ≡ returned m' none)
        × Accepted id route m m'
  unfolding handle_frame handle_open add_stream start
  open_arrives inverse = (
    start (length m.heap) (add_stream id route m),
    rw inverse,
    record {
      registered = ground (arith, lookup-insert_self id (length m.heap) m.streams);
      object = ground (arith, get_elem?-append_length m.heap (new_stream id route));
      handler = ground arith;
      others = λ j ne. ground (arith, lookup-insert id j (length m.heap) m.streams);
      objects = λ p lt. ground (arith, get_elem?-append_lt m.heap (new_stream id route ∷ []) p lt);
    },
  )

module _ (pick : Bool) (payload : Bytes) (s : Stream) where
  deliver_open :
      s.done ≡ false
      → length s.data_ch < data_ch_cap
      → deliver pick payload s ≡ some (record s { data_ch = s.data_ch ++ payload ∷ [] })
  unfolding deliver
  deliver_open alive room = ground arith

  deliver-none_iff :
      (deliver pick payload s ≡ none) ↔ ((s.done ≡ false) × (data_ch_cap ≤ length s.data_ch))
  unfolding deliver
  deliver-none_iff = ground arith

settle-blocked_iff : (m : Mux) (p : ℕ) (o : Option Stream) → (settle m p o ≡ blocked) ↔ (o ≡ none)
unfolding settle
settle-blocked_iff m p none = (λ _. refl, λ _. refl)
settle-blocked_iff m p (some s) = (λ h. cc, λ h. cc)

module _ (json : OpenJson) (pick : Bool) (id p : ℕ) (payload : Bytes) (s : Stream) (m : Mux) where
  -- A payload for a registered stream that is not closed is appended to its channel, if that has room.
  pub data_arrives :
      lookup id m.streams ≡ some p
      → get_elem? m.heap p ≡ some s
      → s.done ≡ false
      → length s.data_ch < data_ch_cap
      → (m' : Mux) × (handle_frame json pick (data_frame id payload) m ≡ returned m' none)
        × (get_elem? m'.heap p ≡ some (record s { data_ch = s.data_ch ++ payload ∷ [] }))
        × ((q : ℕ) → q ≢ p → get_elem? m'.heap q ≡ get_elem? m.heap q)
        × (m'.streams ≡ m.streams)
  unfolding handle_frame handle_data route_data deliver_at
  data_arrives found at alive room =
      let s' : Stream = record s { data_ch = s.data_ch ++ payload ∷ [] } in
      (
        record m { heap = modify (λ _. s') p m.heap },
        rw (found, at) (unfold settle in rw (deliver_open pick payload s alive room)),
        get_elem?-modify_self (λ _. s') p m.heap s at,
        (λ q ne. get_elem?-modify_ne (λ _. s') p q m.heap (λ e. ne (cc))),
        refl,
      )

  -- HandleFrame, and with it the read loop, waits exactly where the channel of a stream that is not
  -- closed holds 64 payloads.
  pub data_blocks_iff :
      lookup id m.streams ≡ some p
      → get_elem? m.heap p ≡ some s
      → (handle_frame json pick (data_frame id payload) m ≡ blocked)
        ↔ ((s.done ≡ false) × (data_ch_cap ≤ length s.data_ch))
  unfolding handle_frame handle_data route_data deliver_at
  data_blocks_iff found at =
      let (a, b) = settle-blocked_iff m p (deliver pick payload s) in
      let (c, d) = deliver-none_iff pick payload s in rw (found, at) (λ h. c (a h), λ h. b (d h))

-- What happens to one stream object: a payload arrives, its handler takes one, or it is closed.
pub data Event : Type 0 where
  arrives : Bool → Bytes → Event
  takes : Event
  closes : Event

abbrev IsOpen : Event → Type 0
IsOpen (arrives pick payload) = Unit
IsOpen takes = Unit
IsOpen closes = ⊥

pub payloads : List Event → List Bytes
payloads [] = []
payloads (arrives pick payload ∷ es) = payload ∷ payloads es
payloads (takes ∷ es) = payloads es
payloads (closes ∷ es) = payloads es

oldest : Stream → List Bytes
oldest s = elim s.data_ch [ [] ↦ [] | payload ∷ rest ↦ payload ∷ [] ]

-- The stream and what its handler has taken, after the events; `none` where HandleFrame waits.
unfoldable pub exchange : List Event → Stream → List Bytes → Option (Stream × List Bytes)
unfolding receive close oldest
exchange [] s got = some (s, got)
exchange (arrives pick payload ∷ es) s got = elim (deliver pick payload s) [
  | none ↦ none
  | some s' ↦ exchange es s' got
]
exchange (takes ∷ es) s got = exchange es (receive s) (got ++ oldest s)
exchange (closes ∷ es) s got = exchange es (close s) got

oldest-receive : (s : Stream) → oldest s ++ (receive s).data_ch ≡ s.data_ch
unfolding oldest receive
oldest-receive s = ground arith

done-receive : (s : Stream) → (receive s).done ≡ s.done
unfolding receive
done-receive s = ground arith

deliver_inv :
    (pick : Bool) (payload : Bytes) (s s' : Stream)
    → s.done ≡ false
    → deliver pick payload s ≡ some s'
    → (s'.data_ch ≡ s.data_ch ++ payload ∷ []) × (s'.done ≡ false)
unfolding deliver
deliver_inv pick payload s s' alive h = ground arith

exchange_arrives :
    (pick : Bool) (payload : Bytes) (es : List Event) (s : Stream) (got : List Bytes) {s' : Stream}
    {got' : List Bytes}
    → exchange (arrives pick payload ∷ es) s got ≡ some (s', got')
    → (t : Stream) × (deliver pick payload s ≡ some t) × (exchange es t got ≡ some (s', got'))
unfolding exchange
exchange_arrives pick payload es s got h = elim (Option-cases (deliver pick payload s)) [
  | inl stuck ↦ absurd (cc (rw (stuck, exchange) at h))
  | inr (t, e) ↦ (t, e, rw (e, exchange) at h)
]

regroup : (g o r p d : List Bytes) → o ++ r ≡ d → (g ++ o) ++ (r ++ p) ≡ g ++ (d ++ p)
regroup g o r p d e = rw (← e) (simp append_assoc)

-- While a stream is not closed, what its handler has taken, followed by what waits in the channel, is
-- exactly what has arrived, in order: no payload is lost, doubled or moved.
pub exchange_order :
    (es : List Event) (s s' : Stream) (got got' : List Bytes)
    → All IsOpen es
    → s.done ≡ false
    → exchange es s got ≡ some (s', got')
    → got' ++ s'.data_ch ≡ got ++ (s.data_ch ++ payloads es)
unfolding exchange payloads
exchange_order [] s s' got got' _ alive h = ground (arith, append-nil s.data_ch)
exchange_order (arrives pick payload ∷ es) s s' got got' (_, hs) alive h =
    let (t, d, rest) = exchange_arrives pick payload es s got h in
    let (queue, alive') = deliver_inv pick payload s t alive d in
    exchange_order es t s' got got' hs alive' rest ∙ rw queue (simp append_assoc)
exchange_order (takes ∷ es) s s' got got' (_, hs) alive h =
    exchange_order es (receive s) s' (got ++ oldest s) got' hs (done-receive s ∙ alive) h
    ∙ regroup got (oldest s) (receive s).data_ch (payloads es) s.data_ch (oldest-receive s)
exchange_order (closes ∷ es) s s' got got' (bad, hs) alive h = absurd bad
