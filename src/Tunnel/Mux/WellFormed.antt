-- ===== src/Tunnel/Mux/WellFormed.antt =====
-- Every entry of the stream map points to a stream object of that id, the channel of every object, also
-- of one that is in the map no longer, holds at most 64 payloads, and every operation keeps it so.
use etunl_cli.Base.{
  ℕ, zero, suc, refl, some_inj, ◌≤◌, ◌≡◌, ◌∙◌, some, List, [], ◌∷◌, ◌++◌, length, get_elem?, modify,
  nat_eq, arith, ==_iff, get_elem?-append_length, get_elem?-append_lt, get_elem?-lt,
  get_elem?-modify_self, get_elem?-modify_ne, ◌==◌, Bool-cases, inl, inr,
}
use etunl_cli.Base.Bytes.{Bytes}
use etunl_cli.Base.Dict.{
  Dict, NodupKeys, insert-NodupKeys, erase-NodupKeys, lookup, insert, erase, lookup-insert,
  lookup-erase,
}
use etunl_cli.Tunnel.Mux.{Mux, Stream, new_stream, close, data_ch_cap}

-- What an entry `id ↦ p` of the map promises of the heap.
pub record IsEntry (heap : List Stream) (id p : ℕ) : Type 0 where
  pub stream : Stream
  pub at : get_elem? heap p ≡ some stream
  pub same_id : stream.id ≡ id
  pub room : length stream.data_ch ≤ data_ch_cap

-- The channel of every object holds at most 64 payloads.
abbrev pub IsBounded : List Stream → Type 0
IsBounded heap = (p : ℕ) (s : Stream) → get_elem? heap p ≡ some s → length s.data_ch ≤ data_ch_cap

pub record IsTable (heap : List Stream) (streams : Dict ℕ ℕ) : Type 0 where
  pub once : NodupKeys streams
  pub entry : (id p : ℕ) → lookup id streams ≡ some p → IsEntry heap id p
  pub bounded : IsBounded heap

abbrev pub IsWellFormed : Mux → Type 0
IsWellFormed m = IsTable m.heap m.streams

IsEntry-append :
    {heap : List Stream} {id p : ℕ} (s : Stream) → IsEntry heap id p → IsEntry (heap ++ s ∷ []) id p
IsEntry-append {heap} {id} {p} s e = record {
  stream = e.stream;
  at = get_elem?-append_lt heap (s ∷ []) p (get_elem?-lt heap p e.stream e.at) ∙ e.at;
  same_id = e.same_id;
  room = e.room;
}

-- A change of one object that keeps its id and its bound keeps every entry.
IsEntry-modify :
    {heap : List Stream} {id p : ℕ} (f : Stream → Stream) (q : ℕ)
    → ((s : Stream)
        → get_elem? heap q ≡ some s
        → length s.data_ch ≤ data_ch_cap
        → ((f s).id ≡ s.id) × (length (f s).data_ch ≤ data_ch_cap))
    → IsEntry heap id p
    → IsEntry (modify f q heap) id p
IsEntry-modify {heap} {id} {p} f q keep e = elim (Bool-cases (q == p)) [
  | inl same ↦
      let eq : q ≡ p = (==_iff q p).0 same in
      let here : get_elem? heap q ≡ some e.stream = rw eq e.at in
      record {
        stream = f e.stream;
        at = rw (← eq) (get_elem?-modify_self f q heap e.stream here);
        same_id = (keep e.stream here e.room).0 ∙ e.same_id;
        room = (keep e.stream here e.room).1;
      }
  | inr differ ↦ record {
    stream = e.stream;
    at = get_elem?-modify_ne f q p heap (λ eq. ground (arith, ==_iff q p)) ∙ e.at;
    same_id = e.same_id;
    room = e.room;
  }
]

IsEntry-close :
    {heap : List Stream} {id p : ℕ} (q : ℕ) → IsEntry heap id p → IsEntry (modify close q heap) id p
unfolding close
IsEntry-close q e = IsEntry-modify close q (λ s at room. ground arith) e

bounded-append :
    (t : Stream) (heap : List Stream)
    → IsBounded heap
    → length t.data_ch ≤ data_ch_cap
    → IsBounded (heap ++ t ∷ [])
bounded-append t [] h room zero s at = rw (some_inj at) at room
bounded-append t [] h room (suc p) s at = absurd (cc)
bounded-append t (x ∷ heap) h room zero s at = h zero s at
bounded-append t (x ∷ heap) h room (suc p) s at =
    bounded-append t heap (λ q u e. h (suc q) u e) room p s at

pub bounded-modify :
    (f : Stream → Stream) (q : ℕ) (heap : List Stream)
    → IsBounded heap
    → ((s : Stream)
        → get_elem? heap q ≡ some s
        → length s.data_ch ≤ data_ch_cap
        → length (f s).data_ch ≤ data_ch_cap)
    → IsBounded (modify f q heap)
bounded-modify f q [] h keep p s at = h p s at
bounded-modify f zero (x ∷ heap) h keep zero s at =
    rw (some_inj at) at (keep x refl (h zero x refl))
bounded-modify f zero (x ∷ heap) h keep (suc p) s at = h (suc p) s at
bounded-modify f (suc q) (x ∷ heap) h keep zero s at = h zero s at
bounded-modify f (suc q) (x ∷ heap) h keep (suc p) s at =
    bounded-modify f q heap (λ r u e. h (suc r) u e) keep p s at

pub erase-IsTable :
    {heap : List Stream} (id : ℕ) {streams : Dict ℕ ℕ}
    → IsTable heap streams
    → IsTable heap (erase id streams)
erase-IsTable id {streams} w = record {
  once = erase-NodupKeys id streams w.once;
  entry = λ j p h. w.entry j p (ground (arith, lookup-erase id j streams));
  bounded = w.bounded;
}

pub insert-IsTable :
    {heap : List Stream} (id : ℕ) (route : Bytes) {streams : Dict ℕ ℕ}
    → IsTable heap streams
    → IsTable (heap ++ new_stream id route ∷ []) (insert id (length heap) streams)
insert-IsTable {heap} id route {streams} w = record {
  once = insert-NodupKeys id (length heap) streams w.once;
  entry = λ j p h. elim (Bool-cases (id == j)) [
    | inl same ↦ record {
      stream = new_stream id route;
      at = ground (
        arith,
        lookup-insert id j (length heap) streams,
        get_elem?-append_length heap (new_stream id route),
      );
      same_id = (==_iff id j).0 same;
      room = omega arith;
    }
    | inr differ ↦
        IsEntry-append (new_stream id route)
          (w.entry j p (ground (arith, lookup-insert id j (length heap) streams)))
  ];
  bounded = bounded-append (new_stream id route) heap w.bounded (omega arith);
}

pub modify-IsTable :
    {heap : List Stream} {streams : Dict ℕ ℕ} (f : Stream → Stream) (q : ℕ)
    → ((s : Stream)
        → get_elem? heap q ≡ some s
        → length s.data_ch ≤ data_ch_cap
        → ((f s).id ≡ s.id) × (length (f s).data_ch ≤ data_ch_cap))
    → IsTable heap streams
    → IsTable (modify f q heap) streams
modify-IsTable {heap} f q keep w = record {
  once = w.once;
  entry = λ j p h. IsEntry-modify f q keep (w.entry j p h);
  bounded = bounded-modify f q heap w.bounded (λ s at room. (keep s at room).1);
}

pub close-IsTable :
    {heap : List Stream} {streams : Dict ℕ ℕ} (q : ℕ)
    → IsTable heap streams
    → IsTable (modify close q heap) streams
unfolding close
close-IsTable q w = modify-IsTable close q (λ s at room. ground arith) w
