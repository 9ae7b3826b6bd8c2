-- ===== src/Tunnel/Conn/Serving/Fairness.antt =====
-- A read loop whose handlers all get their turns.
use mathlib.Core.Path.{subst}
use etunl_cli.Base.{
  ℕ, suc, ◌≤◌, ◌<◌, ◌≡◌, ◌≢◌, ◌⊎◌, ◌∙◌, refl, sym, ap, inl, inr, Bool, true, false, ◌||◌, some,
  List, [], ◌∷◌, ◌++◌, length, get_elem?, nat_eq, arith, ◌==◌, ==_iff, Bool-cases,
}
use etunl_cli.Tunnel.Frame.{Frame}
use etunl_cli.Tunnel.Mux.{OpenJson, Stream, blocked, handle_frame, data_ch_cap}
use etunl_cli.Tunnel.Mux.WellFormed.{IsWellFormed, IsBounded}
use etunl_cli.Tunnel.Mux.Delivery.{data_blocks_iff}
use etunl_cli.Tunnel.Mux.Waiting.{Waits, Stops, handle_frame-Waits}
use etunl_cli.Tunnel.Conn.Loop.{Handled-cases}
use etunl_cli.Tunnel.Conn.Serving.{Peer, Turn, reads, takes, after_frame, read_frame, turn, turns}
use etunl_cli.Tunnel.Conn.Serving.Turning.{
  takes-Before, takes-wire, reads-turn, turn_sound, turns_sound,
}

-- The handler of the object has a turn.
abbrev pub has_take : ℕ → List Turn → Bool
has_take p [] = false
has_take p (reads pick ∷ us) = has_take p us
has_take p (takes q ∷ us) = q == p || has_take p us

-- The handler of every stream that is not closed has a turn.
abbrev pub Serves : Peer → List Turn → Type 0
Serves s us =
    (p : ℕ) (t : Stream) → get_elem? s.mux.heap p ≡ some t → t.done ≡ false → has_take p us ≡ true

-- Rounds of turns, each with a turn of the read loop at its end.
abbrev pub schedule : List (List Turn × Bool) → List Turn
schedule [] = []
schedule ((us, pick) ∷ rounds) = us ++ reads pick ∷ schedule rounds

module _ (json : OpenJson) where
  -- Every round serves the streams that are open when it begins.
  abbrev pub Fair : List (List Turn × Bool) → Peer → Type 0
  Fair [] s = Unit
  Fair ((us, pick) ∷ rounds) s =
      Serves s us × Fair rounds (turn json (reads pick) (turns json us s))

  -- What an open stream was like before the turns: it was open, its channel held no less, and where
  -- its handler had a turn the channel has room now.
  record WasServed (us : List Turn) (p : ℕ) (s : Peer) (t : Stream) : Type 0 where
    stream : Stream
    at : get_elem? s.mux.heap p ≡ some stream
    alive : stream.done ≡ false
    shrinks : length t.data_ch ≤ length stream.data_ch
    room : has_take p us ≡ true → length t.data_ch < data_ch_cap

  -- The read loop has not come on, and the handlers have been served.
  record Still (us : List Turn) (s s' : Peer) : Type 0 where
    wire : s'.wire ≡ s.wire
    served :
        (p : ℕ) (t : Stream)
        → get_elem? s'.mux.heap p ≡ some t
        → t.done ≡ false
        → WasServed us p s t

  WasServed-takes :
      (q p : ℕ) (us : List Turn) (s : Peer) (t : Stream)
      → IsBounded s.mux.heap
      → WasServed us p (turn json (takes q) s) t
      → WasServed (takes q ∷ us) p s t
  WasServed-takes q p us s t bounded v =
      let b = takes-Before json q p v.stream s bounded v.at in
      let less = v.shrinks in
      let less' = b.shrinks in
      record {
        stream = b.stream;
        at = b.at;
        alive = sym b.same ∙ v.alive;
        shrinks = omega arith;
        room = λ h. elim (Bool-cases (q == p)) [
          | inl same ↦ (let fits = b.room ((==_iff q p).0 same) in omega arith)
          | inr differ ↦ v.room (rw differ at h)
        ];
      }

  Still-reads :
      (pick : Bool) (us : List Turn) (s s' : Peer) → Still us s s' → Still (reads pick ∷ us) s s'
  Still-reads pick us s s' still = record {
    wire = still.wire;
    served = λ p t at alive.
        (let v = still.served p t at alive in
          record {
            stream = v.stream;
            at = v.at;
            alive = v.alive;
            shrinks = v.shrinks;
            room = v.room;
          });
  }

  abbrev Block : List Turn → Peer → Peer → Type 0
  Block us s s' = (length s'.wire < length s.wire) ⊎ Still us s s'

  block : (us : List Turn) (s : Peer) → IsWellFormed s.mux → Block us s (turns json us s)
  unfolding turns
  block [] s whole = inr (record {
    wire = refl;
    served = λ p t at alive. record {
      stream = t;
      at = at;
      alive = alive;
      shrinks = omega arith;
      room = λ h. absurd (cc);
    };
  })
  block (reads pick ∷ us) s whole = elim (reads-turn json pick s whole) [
    | inl (shorter, whole') ↦
        let (less, _) = turns_sound json us (turn json (reads pick) s) whole' in inl (omega arith)
    | inr same ↦
        subst (λ (s1 : Peer). Block (reads pick ∷ us) s (turns json us s1)) (sym same)
          (elim (block us s whole) [
            | inl shorter ↦ inl shorter
            | inr still ↦ inr (Still-reads pick us s (turns json us s) still)
          ])
  ]
  block (takes q ∷ us) s whole =
      let same = takes-wire json q s in
      elim (block us (turn json (takes q) s) (turn_sound json (takes q) s whole).1) [
        | inl shorter ↦ inl (rw same at shorter)
        | inr still ↦ inr (record {
          wire = still.wire ∙ same;
          served =
              λ p t at alive. WasServed-takes q p us s t whole.bounded (still.served p t at alive);
        })
      ]

  -- A frame that waits has room where the handler of its stream has been served.
  no_wait :
      (pick : Bool) (f : Frame) (us : List Turn) (s s' : Peer)
      → Serves s us
      → Still us s s'
      → handle_frame json pick f s'.mux ≢ blocked
  no_wait pick f us s s' serves still stuck =
      let w = subst (Stops (Waits f s'.mux)) stuck (handle_frame-Waits json pick f s'.mux) in
      let (alive, full) =
        (data_blocks_iff json pick f.stream_id w.place f.payload w.stream s'.mux w.entry w.at).0
          (subst (λ g. handle_frame json pick g s'.mux ≡ blocked) w.is stuck) in
      let v = still.served w.place w.stream w.at alive in
      let fits = v.room (serves w.place v.stream v.at v.alive) in omega arith

  reads-on :
      (pick : Bool) (s : Peer) (f : Frame) (fs : List Frame)
      → s.wire ≡ f ∷ fs
      → handle_frame json pick f s.mux ≢ blocked
      → (turn json (reads pick) s).wire ≡ fs
  unfolding turn read_frame after_frame
  reads-on pick s f fs wire free = elim (Handled-cases (handle_frame json pick f s.mux)) [
    | inl waits ↦ absurd (free waits)
    | inr (m', e, went) ↦ rw (turn, wire, read_frame, went) refl
  ]

  -- A round that serves the open streams brings the read loop on.
  round_shortens :
      (us : List Turn) (pick : Bool) (s : Peer) (f : Frame) (fs : List Frame)
      → s.wire ≡ f ∷ fs
      → IsWellFormed s.mux
      → Serves s us
      → length (turn json (reads pick) (turns json us s)).wire ≤ length fs
  round_shortens us pick s f fs wire whole serves =
      let s' = turns json us s in
      let (_, whole') = turns_sound json us s whole in
      elim (block us s whole) [
        | inl shorter ↦
            let (less, _) = turn_sound json (reads pick) s' whole' in
            let all_left : length s.wire ≡ suc (length fs) = ap length wire in omega arith
        | inr still ↦
            rw (reads-on pick s' f fs (still.wire ∙ wire) (no_wait pick f us s s' serves still))
              (omega arith)
      ]

  round_less :
      (us : List Turn) (pick : Bool) (n : ℕ) (s : Peer) (fs : List Frame)
      → s.wire ≡ fs
      → length fs ≤ suc n
      → IsWellFormed s.mux
      → Serves s us
      → length (turn json (reads pick) (turns json us s)).wire ≤ n
  round_less us pick n s [] wire few whole serves =
      let (less, whole') = turns_sound json us s whole in
      let (less', _) = turn_sound json (reads pick) (turns json us s) whole' in
      let none_left : length s.wire ≡ 0 = ap length wire in omega arith
  round_less us pick n s (f ∷ fs) wire few whole serves =
      let less = round_shortens us pick s f fs wire whole serves in omega arith

  turns-schedule :
      (us : List Turn) (t : Turn) (ts : List Turn) (s : Peer)
      → turns json (us ++ t ∷ ts) s ≡ turns json ts (turn json t (turns json us s))
  unfolding turns
  turns-schedule [] t ts s = refl
  turns-schedule (u ∷ us) t ts s = turns-schedule us t ts (turn json u s)

  length-nil : (fs : List Frame) → length fs ≤ 0 → fs ≡ []
  length-nil [] h = refl
  length-nil (f ∷ fs) h = absurd (omega arith)

  -- From every state with a well-formed Mux, in rounds that are at least as many as the frames that
  -- are still to be read, each of any turns and then one of the read loop: where every round has a turn
  -- of the handler of each stream that is open when the round begins, the read loop has read all frames
  -- behind the last round, whatever the order of the turns is and whatever each select picks. Streams
  -- that are closed need no handler.
  pub turns-Fair :
      (rounds : List (List Turn × Bool)) (s : Peer)
      → IsWellFormed s.mux
      → length s.wire ≤ length rounds
      → Fair rounds s
      → (turns json (schedule rounds) s).wire ≡ []
  unfolding turns
  turns-Fair [] s whole few fair = length-nil s.wire few
  turns-Fair ((us, pick) ∷ rounds) s whole few (serves, fair) =
      let s1 = turn json (reads pick) (turns json us s) in
      let (_, whole1) =
        turn_sound json (reads pick) (turns json us s) (turns_sound json us s whole).1 in
      let fewer = round_less us pick (length rounds) s s.wire refl few whole serves in
      rw (turns-schedule us (reads pick) (schedule rounds) s)
        (turns-Fair rounds s1 whole1 fewer fair)
