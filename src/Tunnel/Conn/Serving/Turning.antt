-- ===== src/Tunnel/Conn/Serving/Turning.antt =====
-- What one turn of the read loop or of a handler does to the frames that are left and to the streams.
use etunl_cli.Base.{
  ℕ, zero, suc, ◌≤◌, ◌<◌, ◌≡◌, ◌≢◌, ◌⊎◌, ◌∙◌, refl, sym, ap, inl, inr, Bool, Option, none, some,
  some_inj, List, [], ◌∷◌, length, get_elem?, modify, nat_eq, arith,
}
use etunl_cli.Base.Bytes.{Bytes}
use etunl_cli.Tunnel.Frame.{Frame}
use etunl_cli.Tunnel.Mux.{OpenJson, Stream, handle_frame, receive, data_ch_cap}
use etunl_cli.Tunnel.Mux.WellFormed.{IsWellFormed, IsBounded}
use etunl_cli.Tunnel.Mux.Preservation.{Step-IsWellFormed, arrives, receives}
use etunl_cli.Tunnel.Conn.Loop.{Handled-cases}
use etunl_cli.Tunnel.Conn.Serving.{
  Peer, Turn, reads, takes, after_frame, read_frame, take_payload, take_from, turn, turns,
}

module _ {A : Type 0} where
  modified :
      (f : A → A) (q p : ℕ) (xs : List A) (y : A)
      → get_elem? (modify f q xs) p ≡ some y
      → (x : A) × (get_elem? xs p ≡ some x) × (((q ≡ p) × (y ≡ f x)) ⊎ ((q ≢ p) × (y ≡ x)))
  modified f q p [] y h = absurd (cc)
  modified f zero zero (x ∷ xs) y h = (x, refl, inl (refl, sym (some_inj h)))
  modified f zero (suc p) (x ∷ xs) y h = (y, h, inr ((λ e. omega arith), refl))
  modified f (suc q) zero (x ∷ xs) y h = (y, h, inr ((λ e. omega arith), refl))
  modified f (suc q) (suc p) (x ∷ xs) y h =
      let (z, at, either) = modified f q p xs y h in
      (
        z,
        at,
        elim either [
          | inl (same, e) ↦ inl (ap suc same, e)
          | inr (differ, e) ↦ inr ((λ same. differ (omega arith)), e)
        ],
      )

-- What the object of a stream that is open was like before a turn of the handler of `q`.
pub record Before (q p : ℕ) (s : Peer) (t : Stream) : Type 0 where
  pub stream : Stream
  pub at : get_elem? s.mux.heap p ≡ some stream
  pub same : t.done ≡ stream.done
  pub shrinks : length t.data_ch ≤ length stream.data_ch
  pub room : q ≡ p → length t.data_ch < data_ch_cap

receive-shrinks :
    (s : Stream)
    → length s.data_ch ≤ data_ch_cap
    → ((receive s).done ≡ s.done)
      × (length (receive s).data_ch ≤ length s.data_ch)
      × (length (receive s).data_ch < data_ch_cap)
unfolding receive
receive-shrinks s room = ground arith

module _ (json : OpenJson) where
  take_payload-Before :
      (q p : ℕ) (u t : Stream) (ch : List Bytes) (s : Peer)
      → get_elem? s.mux.heap q ≡ some u
      → u.data_ch ≡ ch
      → IsBounded s.mux.heap
      → get_elem? (take_payload q ch s).mux.heap p ≡ some t
      → Before q p s t
  unfolding take_payload
  take_payload-Before q p u t [] s there empty bounded at = record {
    stream = t;
    at = at;
    same = refl;
    shrinks = omega arith;
    room = λ e.
        let same : u ≡ t = some_inj (sym there ∙ ap (get_elem? s.mux.heap) e ∙ at) in
        let none_left : t.data_ch ≡ [] = rw (← same) empty in rw none_left (omega arith);
  }
  take_payload-Before q p u t (first ∷ rest) s there filled bounded at =
      let (x, at', either) = modified receive q p s.mux.heap t at in
      let (same, shrinks, room) = receive-shrinks x (bounded p x at') in
      elim either [
        | inl (e, changed) ↦
            rw changed
              (record { stream = x; at = at'; same = same; shrinks = shrinks; room = λ _. room })
        | inr (differ, kept) ↦ rw kept (record {
          stream = x;
          at = at';
          same = refl;
          shrinks = omega arith;
          room = λ e. absurd (differ e);
        })
      ]

  take_from-Before :
      (q p : ℕ) (t : Stream) (o : Option Stream) (s : Peer)
      → get_elem? s.mux.heap q ≡ o
      → IsBounded s.mux.heap
      → get_elem? (take_from q o s).mux.heap p ≡ some t
      → Before q p s t
  unfolding take_from
  take_from-Before q p t none s there bounded at = record {
    stream = t;
    at = at;
    same = refl;
    shrinks = omega arith;
    room = λ e. absurd (cc);
  }
  take_from-Before q p t (some u) s there bounded at =
      take_payload-Before q p u t u.data_ch s there refl bounded at

  pub takes-Before :
      (q p : ℕ) (t : Stream) (s : Peer)
      → IsBounded s.mux.heap
      → get_elem? (turn json (takes q) s).mux.heap p ≡ some t
      → Before q p s t
  unfolding turn
  takes-Before q p t s bounded at =
      take_from-Before q p t (get_elem? s.mux.heap q) s refl bounded at

  take_payload-wire : (q : ℕ) (ch : List Bytes) (s : Peer) → (take_payload q ch s).wire ≡ s.wire
  unfolding take_payload
  take_payload-wire q [] s = refl
  take_payload-wire q (first ∷ rest) s = refl

  take_from-wire : (q : ℕ) (o : Option Stream) (s : Peer) → (take_from q o s).wire ≡ s.wire
  unfolding take_from
  take_from-wire q none s = refl
  take_from-wire q (some u) s = take_payload-wire q u.data_ch s

  pub takes-wire : (q : ℕ) (s : Peer) → (turn json (takes q) s).wire ≡ s.wire
  unfolding turn
  takes-wire q s = take_from-wire q (get_elem? s.mux.heap q) s

  take_payload-IsWellFormed :
      (q : ℕ) (ch : List Bytes) (s : Peer)
      → IsWellFormed s.mux
      → IsWellFormed (take_payload q ch s).mux
  unfolding take_payload
  take_payload-IsWellFormed q [] s whole = whole
  take_payload-IsWellFormed q (first ∷ rest) s whole =
      Step-IsWellFormed json {m = s.mux} (receives q) whole

  take_from-IsWellFormed :
      (q : ℕ) (o : Option Stream) (s : Peer)
      → IsWellFormed s.mux
      → IsWellFormed (take_from q o s).mux
  unfolding take_from
  take_from-IsWellFormed q none s whole = whole
  take_from-IsWellFormed q (some u) s whole = take_payload-IsWellFormed q u.data_ch s whole

  -- A turn of the read loop: it comes on by a frame, or its frame has to wait, or none is left.
  reads-cases :
      (pick : Bool) (s : Peer) (fs : List Frame)
      → s.wire ≡ fs
      → IsWellFormed s.mux
      → (length (read_frame json pick fs s).wire < length fs)
          × IsWellFormed (read_frame json pick fs s).mux
        ⊎ (read_frame json pick fs s ≡ s)
  unfolding read_frame after_frame
  reads-cases pick s [] wire whole = inr refl
  reads-cases pick s (f ∷ fs) wire whole = elim (Handled-cases (handle_frame json pick f s.mux)) [
    | inl waits ↦ inr (rw (read_frame, waits) refl)
    | inr (m', e, went) ↦
        let next : read_frame json pick (f ∷ fs) s ≡ record s { wire = fs; mux = m' } =
          rw (read_frame, went) refl in
        inl (rw next (omega arith, Step-IsWellFormed json (arrives pick f e went) whole))
  ]

  pub reads-turn :
      (pick : Bool) (s : Peer)
      → IsWellFormed s.mux
      → (length (turn json (reads pick) s).wire < length s.wire)
          × IsWellFormed (turn json (reads pick) s).mux
        ⊎ (turn json (reads pick) s ≡ s)
  unfolding turn
  reads-turn pick s whole = reads-cases pick s s.wire refl whole

  -- A turn keeps the Mux well formed and the frames that are left no more than they were.
  pub turn_sound :
      (t : Turn) (s : Peer)
      → IsWellFormed s.mux
      → (length (turn json t s).wire ≤ length s.wire) × IsWellFormed (turn json t s).mux
  turn_sound (reads pick) s whole = elim (reads-turn pick s whole) [
    | inl (shorter, whole') ↦ (omega arith, whole')
    | inr same ↦ rw same (omega arith, whole)
  ]
  turn_sound (takes q) s whole = (
    rw (takes-wire q s) (omega arith),
    unfold turn in take_from-IsWellFormed q (get_elem? s.mux.heap q) s whole,
  )

  pub turns_sound :
      (us : List Turn) (s : Peer)
      → IsWellFormed s.mux
      → (length (turns json us s).wire ≤ length s.wire) × IsWellFormed (turns json us s).mux
  unfolding turns
  turns_sound [] s whole = (omega arith, whole)
  turns_sound (t ∷ us) s whole =
      let (less, whole') = turn_sound t s whole in
      let (less', whole'') = turns_sound us (turn json t s) whole' in (omega arith, whole'')
