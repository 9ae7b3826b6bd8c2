-- ===== src/Tunnel/Mux/Progress.antt =====
-- How a read loop that waits in HandleFrame comes on.
use etunl_cli.Base.{
  ℕ, suc, ◌≡◌, ◌∙◌, ◌≤◌, ◌<◌, refl, ap, Bool, true, false, none, some, List, [], ◌∷◌, ◌++◌, length,
  get_elem?, modify, get_elem?-modify_self, arith, nat_eq,
}
use etunl_cli.Base.Bytes.{Bytes}
use etunl_cli.Base.Dict.{lookup}
use etunl_cli.Tunnel.Mux.{
  OpenJson, Mux, Stream, returned, blocked, data_ch_cap, data_frame, handle_frame, receive, close,
  handle_data, route_data, deliver_at, deliver, settle,
}
use etunl_cli.Tunnel.Mux.Delivery.{data_arrives, data_blocks_iff}

-- The objects of the heap that one of the handlers has worked on.
abbrev pub on_heap : (Stream → Stream) → ℕ → Mux → Mux
on_heap f p m = record m { heap = modify f p m.heap }

pub receive-cons :
    (s : Stream) (first : Bytes) (rest : List Bytes)
    → s.data_ch ≡ first ∷ rest
    → receive s ≡ record s { data_ch = rest }
unfolding receive
receive-cons s first rest h = rw (receive, h) refl

pub close_open : (s : Stream) → s.done ≡ false → close s ≡ record s { done = true }
unfolding close
close_open s h = rw h refl

deliver_closed :
    (pick : Bool) (payload : Bytes) (s : Stream)
    → s.done ≡ true
    → data_ch_cap ≤ length s.data_ch
    → deliver pick payload s ≡ some s
unfolding deliver
deliver_closed pick payload s closed full = ground arith

module _ (json : OpenJson) (pick : Bool) (id p : ℕ) (payload : Bytes) (s : Stream) (m : Mux)
    (found : lookup id m.streams ≡ some p) (at : get_elem? m.heap p ≡ some s)
    (alive : s.done ≡ false) (full : data_ch_cap ≤ length s.data_ch) where
  after_receive :
      length s.data_ch ≤ data_ch_cap
      → (ch : List Bytes) → s.data_ch ≡ ch
      → (m' : Mux) × (first : Bytes) × (rest : List Bytes) × (handle_frame json pick
            (data_frame id payload)
            (on_heap receive p m)
          ≡ returned m' none)
        × (s.data_ch ≡ first ∷ rest)
        × (get_elem? m'.heap p ≡ some (record s { data_ch = rest ++ payload ∷ [] }))
  after_receive bounded [] e =
      let none_there : data_ch_cap ≤ 0 = rw e at full in absurd (omega arith)
  after_receive bounded (first ∷ rest) e =
      let fits : suc (length rest) ≤ data_ch_cap = rw e at bounded in
      let room : length rest < data_ch_cap = omega arith in
      let s1 : Stream = record s { data_ch = rest } in
      let at1 =
        get_elem?-modify_self receive p m.heap s at ∙ ap some (receive-cons s first rest e) in
      let (m', went, there, _, _) =
        data_arrives json pick id p payload s1 (on_heap receive p m) found at1 alive room in
      (m', first, rest, went, e, there)

  after_close :
      (m' : Mux) × (handle_frame json pick (data_frame id payload) (on_heap close p m)
        ≡ returned m' none)
      × (get_elem? m'.heap p ≡ some (record s { done = true }))
  unfolding handle_frame handle_data route_data deliver_at settle
  after_close =
      let s1 : Stream = record s { done = true } in
      let at1 = get_elem?-modify_self close p m.heap s at ∙ ap some (close_open s alive) in
      let m1 = on_heap close p m in
      (
        record m1 { heap = modify (λ _. s1) p m1.heap },
        rw (found, at1, deliver_closed pick payload s1 refl full) refl,
        get_elem?-modify_self (λ _. s1) p m1.heap s1 at1,
      )

-- Where HandleFrame waits with a payload for a stream of at most 64 payloads, one receive of the
-- stream's handler is enough for it to return: the oldest payload is out of the channel and the new
-- one at its end. It is also enough that the stream is closed: then the payload is dropped.
pub data_resumes :
    (json : OpenJson) (pick : Bool) (id p : ℕ) (payload : Bytes) (s : Stream) (m : Mux)
    → lookup id m.streams ≡ some p
    → get_elem? m.heap p ≡ some s
    → length s.data_ch ≤ data_ch_cap
    → handle_frame json pick (data_frame id payload) m ≡ blocked
    → ((m' : Mux) × (first : Bytes) × (rest : List Bytes) × (handle_frame json pick
            (data_frame id payload)
            (on_heap receive p m)
          ≡ returned m' none)
        × (s.data_ch ≡ first ∷ rest)
        × (get_elem? m'.heap p ≡ some (record s { data_ch = rest ++ payload ∷ [] })))
      × ((m' : Mux) × (handle_frame json pick (data_frame id payload) (on_heap close p m)
            ≡ returned m' none)
          × (get_elem? m'.heap p ≡ some (record s { done = true })))
data_resumes json pick id p payload s m found at bounded waits =
    let (alive, full) = (data_blocks_iff json pick id p payload s m found at).0 waits in
    (
      after_receive json pick id p payload s m found at alive full bounded s.data_ch refl,
      after_close json pick id p payload s m found at alive full,
    )
