-- ===== src/Tunnel/Mux/Opening.antt =====
-- OpenStream, and the stream ids that it hands out.
use etunl_cli.Base.{
  ℕ, ◌∙◌, ◌+◌, ◌*◌, ◌%◌, ◌^◌, ◌<◌, ◌≡◌, ◌≢◌, refl, true, false, none, some, List, [], ◌∷◌, ◌++◌,
  length, get_elem?, nat_eq, arith, Bool-cases, inl, inr, get_elem?-append_length,
  get_elem?-append_lt,
}
use etunl_cli.Base.Bytes.{Bytes}
use etunl_cli.Base.Dict.{
  lookup, lookup-insert, insert, lookup-erase_self, lookup-insert_self, insert_ne_erase,
}
use etunl_cli.Tunnel.Mux.{OpenJson, Mux, open_stream, opening, send_frame, open_frame, new_stream}

-- Everything that a successful OpenStream does.
pub record Opened (json : OpenJson) (route : Bytes) (m m' : Mux) : Type 0 where
  pub registered : lookup m.next_id m'.streams ≡ some (length m.heap)
  pub object : get_elem? m'.heap (length m.heap) ≡ some (new_stream m.next_id route)
  pub frame : m'.sent ≡ m.sent ++ open_frame json m.next_id route ∷ []
  pub counter : m'.next_id ≡ (m.next_id + 2) % 2 ^ 32
  pub others : (j : ℕ) → j ≢ m.next_id → lookup j m'.streams ≡ lookup j m.streams
  pub objects : (p : ℕ) → p < length m.heap → get_elem? m'.heap p ≡ get_elem? m.heap p

module _ (json : OpenJson) (route : Bytes) (m : Mux) where
  -- Over a link that takes frames OpenStream returns the new stream, registers it under the next id
  -- alone, sends exactly one StreamOpen frame with the route, and leaves every other stream as it was.
  pub open_stream_ok :
      m.link_up ≡ true
      → ((open_stream json route m).1 ≡ some (length m.heap))
        × Opened json route m (open_stream json route m).0
  unfolding open_stream opening send_frame
  open_stream_ok up = rw up (
    refl,
    record {
      registered = lookup-insert_self m.next_id (length m.heap) m.streams;
      object = get_elem?-append_length m.heap (new_stream m.next_id route);
      frame = refl;
      counter = refl;
      others = λ j ne. ground (arith, lookup-insert m.next_id j (length m.heap) m.streams);
      objects = λ p lt. get_elem?-append_lt m.heap (new_stream m.next_id route ∷ []) p lt;
    },
  )

  pub link-open_stream : (open_stream json route m).0.link_up ≡ m.link_up
  unfolding open_stream opening send_frame
  link-open_stream = elim (Bool-cases m.link_up) [ inl up ↦ ground arith | inr down ↦ ground arith ]

  -- Where OpenStream fails, the id that it took is not in the map.
  pub open_stream-none :
      (open_stream json route m).1 ≡ none
      → lookup m.next_id (open_stream json route m).0.streams ≡ none
  unfolding open_stream opening send_frame
  open_stream-none failed =
      ground (arith, lookup-erase_self m.next_id (insert m.next_id (length m.heap) m.streams))

  -- Where the link fails OpenStream returns the error and has sent nothing; it takes the new entry
  -- back, so a map that did not hold the id is as before.
  pub open_stream_failed :
      m.link_up ≡ false
      → lookup m.next_id m.streams ≡ none
      → ((open_stream json route m).1 ≡ none)
        × ((open_stream json route m).0.sent ≡ m.sent)
        × ((open_stream json route m).0.streams ≡ m.streams)
  unfolding open_stream opening send_frame
  open_stream_failed down fresh =
      rw down (refl, refl, insert_ne_erase m.next_id (length m.heap) m.streams fresh)

  pub next_id-open_stream : (open_stream json route m).0.next_id ≡ (m.next_id + 2) % 2 ^ 32
  unfolding open_stream opening send_frame
  next_id-open_stream = ground arith

-- A run of OpenStream calls, whether they succeed or fail.
pub open_streams : OpenJson → List Bytes → Mux → Mux
open_streams json [] m = m
open_streams json (r ∷ rs) m = open_streams json rs (open_stream json r m).0

module _ (json : OpenJson) where
  next_id-open_streams :
      (rs : List Bytes) (m : Mux)
      → m.next_id < 2 ^ 32
      → (open_streams json rs m).next_id ≡ (m.next_id + 2 * length rs) % 2 ^ 32
  unfolding open_streams
  next_id-open_streams [] m h = omega arith
  next_id-open_streams (r ∷ rs) m h =
      let step = next_id-open_stream json r m in
      omega (arith, next_id-open_streams rs (open_stream json r m).0 (omega arith))

  link-open_streams : (rs : List Bytes) (m : Mux) → (open_streams json rs m).link_up ≡ m.link_up
  unfolding open_streams
  link-open_streams [] m = refl
  link-open_streams (r ∷ rs) m =
      link-open_streams rs (open_stream json r m).0 ∙ link-open_stream json r m

  -- OpenStream hands out this id: it returns an object of the id, which the map has under the id, and
  -- sends the StreamOpen frame of the id.
  pub record HandsOut (r : Bytes) (m : Mux) (id : ℕ) : Type 0 where
    pub place : ℕ
    pub returned : (open_stream json r m).1 ≡ some place
    pub object : get_elem? (open_stream json r m).0.heap place ≡ some (new_stream id r)
    pub entry : lookup id (open_stream json r m).0.streams ≡ some place
    pub frame : (open_stream json r m).0.sent ≡ m.sent ++ open_frame json id r ∷ []

  open_stream-HandsOut : (r : Bytes) (m : Mux) → m.link_up ≡ true → HandsOut r m m.next_id
  open_stream-HandsOut r m up =
      let (opened, whole) = open_stream_ok json r m up in
      record {
        place = length m.heap;
        returned = opened;
        object = whole.object;
        entry = whole.registered;
        frame = whole.frame;
      }

  -- From a Mux over a link that takes frames, with a next id that is odd and below 2 ^ 32, as a new
  -- one's is: behind any calls of OpenStream a call hands out an odd id, and a later call hands out
  -- another odd id, where fewer than 2 ^ 31 - 1 calls stand between the two. To hand out an id is to
  -- return an object of the id, to have it in the map under the id, and to send its StreamOpen frame.
  pub open_streams_ids :
      (rs : List Bytes) (r : Bytes) (ss : List Bytes) (t : Bytes) (m : Mux)
      → m.link_up ≡ true
      → m.next_id < 2 ^ 32
      → m.next_id % 2 ≡ 1
      → length ss + 1 < 2 ^ 31
      → let before = open_streams json rs m in
        let later = open_streams json (r ∷ ss) before in
        (id : ℕ) × (id' : ℕ) × HandsOut r before id
        × HandsOut t later id'
        × (id % 2 ≡ 1)
        × (id' % 2 ≡ 1)
        × (id' ≢ id)
  open_streams_ids rs r ss t m up fits odd few =
      let before = open_streams json rs m in
      let later = open_streams json (r ∷ ss) before in
      let first = next_id-open_streams rs m fits in
      let second = next_id-open_streams (r ∷ ss) before (omega arith) in
      let up1 = link-open_streams rs m ∙ up in
      let up2 = link-open_streams (r ∷ ss) before ∙ up1 in
      (
        before.next_id,
        later.next_id,
        open_stream-HandsOut r before up1,
        open_stream-HandsOut t later up2,
        omega arith,
        omega arith,
        omega arith,
      )
