-- ===== src/Tunnel/Pump/Draining.antt =====
-- What comes out of a stream.
use etunl_cli.Base.{
  not, ◌&&◌, ℕ, ◌≡◌, ◌∙◌, refl, sym, ap, Bool, true, false, some, List, [], ◌∷◌, ◌++◌, length,
  append_assoc, append-nil, if◌then◌else◌, if_split, true_ne_false, ◌⊎◌, inl, inr, get_elem?,
  modify, get_elem?-modify_self, All,
}
use etunl_cli.Base.Bytes.{Bytes, is_empty}
use etunl_cli.Tunnel.Mux.{Mux, Stream, receive, send_data, send_frame}
use etunl_cli.Tunnel.Mux.Progress.{receive-cons}
use etunl_cli.Tunnel.Pump.{
  Chunk, Pick, takes, sees_done, sees_ended, Step, reads, picks, others, Entry, into, out_of,
  Bridge, send_chunk, read_step, take_step, picked, pick_step, run_steps,
}

-- The payloads that were written, in order.
pub written : List Entry → List Bytes
written [] = []
written (into bytes at ∷ es) = written es
written (out_of bytes at ∷ es) = bytes ∷ written es

written-append : (es fs : List Entry) → written (es ++ fs) ≡ written es ++ written fs
unfolding written
written-append [] fs = refl
written-append (into bytes at ∷ es) fs = written-append es fs
written-append (out_of bytes at ∷ es) fs = ap (◌∷◌ bytes) (written-append es fs)

-- What was in the channel of the stream at `p` is what was written since, then at most one payload
-- whose write failed, which ends the loop, then what is still there.
pub record Drained (p : ℕ) (ch : List Bytes) (from b : Bridge) : Type 0 where
  pub out : List Bytes
  pub lost : List Bytes
  pub stream : Stream
  pub at : get_elem? b.mux.heap p ≡ some stream
  pub log : written b.log ≡ written from.log ++ out
  pub split : ch ≡ out ++ (lost ++ stream.data_ch)
  pub few : (lost ≡ []) ⊎ ((length lost ≡ 1) × (b.copying ≡ false))

-- What the loop from the tunnel works on is left as it is.
record IsIdle (b b' : Bridge) : Type 0 where
  heap : b'.mux.heap ≡ b.mux.heap
  copying : b'.copying ≡ b.copying
  log : written b'.log ≡ written b.log

IsIdle-refl : (b : Bridge) → IsIdle b b
IsIdle-refl b = record { heap = refl; copying = refl; log = refl }

send_chunk-heap : (id : ℕ) (bytes : Bytes) (m : Mux) → (send_chunk id bytes m).0.heap ≡ m.heap
unfolding send_chunk send_data send_frame
send_chunk-heap id [] m = refl
send_chunk-heap id (b ∷ bs) m =
    if_split (λ (x : Mux × Bool). x.0.heap ≡ m.heap) m.link_up (λ _. refl) (λ _. refl)

sent_entry-written :
    (went : Bool) (bytes : Bytes) (at : ℕ) → written (if went then into bytes at ∷ [] else []) ≡ []
unfolding written
sent_entry-written true bytes at = refl
sent_entry-written false bytes at = refl

read_step-IsIdle : (id : ℕ) (c : Chunk) (b : Bridge) → IsIdle b (read_step id c b)
unfolding read_step
read_step-IsIdle id c b =
    if_split (IsIdle b) b.sending
      (λ _. record {
        heap = send_chunk-heap id c.bytes b.mux;
        copying = refl;
        log =
            written-append b.log _
            ∙ ap (◌++◌ (written b.log)) (
                sent_entry-written ((send_chunk id c.bytes b.mux).1 && not (is_empty c.bytes))
                  c.bytes c.at)
            ∙ append-nil (written b.log);
      })
      (λ _. IsIdle-refl b)

-- The steps of the two goroutines themselves.
abbrev pub IsOwn : Step → Type 0
IsOwn (reads c) = Unit
IsOwn (picks k) = Unit
IsOwn (others f) = ⊥

pick_step-stopped : (p : ℕ) (k : Pick) (b : Bridge) → b.copying ≡ false → pick_step p k b ≡ b
unfolding pick_step
pick_step-stopped p k b h =
    if_split (λ x. x ≡ b) b.copying (λ t. absurd (true_ne_false (sym t ∙ h))) (λ _. refl)

-- Behind its end the loop from the tunnel does nothing.
run_steps-stopped :
    (id p : ℕ) (ss : List Step) (b : Bridge)
    → b.copying ≡ false
    → All IsOwn ss
    → IsIdle b (run_steps id p ss b)
unfolding run_steps
run_steps-stopped id p [] b h own = IsIdle-refl b
run_steps-stopped id p (reads c ∷ ss) b h (_, own) =
    let first = read_step-IsIdle id c b in
    let rest = run_steps-stopped id p ss (read_step id c b) (first.copying ∙ h) own in
    record {
      heap = rest.heap ∙ first.heap;
      copying = rest.copying ∙ first.copying;
      log = rest.log ∙ first.log;
    }
run_steps-stopped id p (picks k ∷ ss) b h (_, own) =
    rw (pick_step-stopped p k b h) (run_steps-stopped id p ss b h own)
run_steps-stopped id p (others f ∷ ss) b h (bad, own) = absurd bad

-- What one pick does to the stream at `p`.
data Picked (p : ℕ) (s : Stream) (b : Bridge) : Bridge → Type 0 where
  nothing : Picked p s b b
  stops : Picked p s b (record b { copying = false })
  writes :
      (payload : Bytes) (rest : List Bytes) (at : ℕ)
      → s.data_ch ≡ payload ∷ rest
      → Picked p s b (record b {
        mux = record b.mux { heap = modify receive p b.mux.heap };
        log = b.log ++ out_of payload at ∷ [];
      })
  fails :
      (payload : Bytes) (rest : List Bytes)
      → s.data_ch ≡ payload ∷ rest
      → Picked p s b
          (record b { mux = record b.mux { heap = modify receive p b.mux.heap }; copying = false })

take_step-Picked :
    (p : ℕ) (good : Bool) (at : ℕ) (ch : List Bytes) (s : Stream) (b : Bridge)
    → s.data_ch ≡ ch
    → Picked p s b (take_step p good at ch b)
unfolding take_step
take_step-Picked p good at [] s b h = Picked.nothing
take_step-Picked p true at (payload ∷ rest) s b h = Picked.writes payload rest at h
take_step-Picked p false at (payload ∷ rest) s b h = Picked.fails payload rest h

picked-Picked : (p : ℕ) (k : Pick) (s : Stream) (b : Bridge) → Picked p s b (picked p k s b)
unfolding picked
picked-Picked p sees_done s b =
    if_split (Picked p s b) s.done (λ _. Picked.stops) (λ _. Picked.nothing)
picked-Picked p sees_ended s b =
    if_split (Picked p s b) b.sending (λ _. Picked.nothing) (λ _. Picked.stops)
picked-Picked p (takes good at) s b = take_step-Picked p good at s.data_ch s b refl

pick_step-Picked :
    (p : ℕ) (k : Pick) (s : Stream) (b : Bridge)
    → get_elem? b.mux.heap p ≡ some s
    → Picked p s b (pick_step p k b)
unfolding pick_step
pick_step-Picked p k s b at =
    if_split (Picked p s b) b.copying (λ _. rw at (picked-Picked p k s b)) (λ _. Picked.nothing)

after_pick :
    (id p : ℕ) (ss : List Step) (s : Stream) (b b1 : Bridge)
    → get_elem? b.mux.heap p ≡ some s
    → All IsOwn ss
    → ((c : Bridge) (t : Stream)
        → get_elem? c.mux.heap p ≡ some t
        → Drained p t.data_ch c (run_steps id p ss c))
    → Picked p s b b1
    → Drained p s.data_ch b (run_steps id p ss b1)
unfolding written
after_pick id p ss s b _ at own later Picked.nothing = later b s at
after_pick id p ss s b _ at own later Picked.stops =
    let rest = later (record b { copying = false }) s at in
    record {
      out = rest.out;
      lost = rest.lost;
      stream = rest.stream;
      at = rest.at;
      log = rest.log;
      split = rest.split;
      few = rest.few;
    }
after_pick id p ss s b _ at own later (Picked.writes payload behind time h) =
    let t : Stream = record s { data_ch = behind } in
    let b1 : Bridge = record b {
      mux = record b.mux { heap = modify receive p b.mux.heap };
      log = b.log ++ out_of payload time ∷ [];
    } in
    let at1 =
      get_elem?-modify_self receive p b.mux.heap s at ∙ ap some (receive-cons s payload behind h) in
    let rest = later b1 t at1 in
    record {
      out = payload ∷ rest.out;
      lost = rest.lost;
      stream = rest.stream;
      at = rest.at;
      log =
          rest.log
          ∙ ap (λ ws. ws ++ rest.out) (written-append b.log (out_of payload time ∷ []))
          ∙ append_assoc (written b.log) (payload ∷ []) rest.out;
      split = h ∙ ap (◌∷◌ payload) rest.split;
      few = rest.few;
    }
after_pick id p ss s b _ at own later (Picked.fails payload behind h) =
    let t : Stream = record s { data_ch = behind } in
    let b1 : Bridge = record b {
      mux = record b.mux { heap = modify receive p b.mux.heap };
      copying = false;
    } in
    let at1 =
      get_elem?-modify_self receive p b.mux.heap s at ∙ ap some (receive-cons s payload behind h) in
    let idle = run_steps-stopped id p ss b1 refl own in
    record {
      out = [];
      lost = payload ∷ [];
      stream = t;
      at = ap (λ heap. get_elem? heap p) idle.heap ∙ at1;
      log = idle.log ∙ sym (append-nil (written b.log));
      split = h;
      few = inr (refl, idle.copying);
    }

-- While nothing else works on the stream, the loop writes out what stood in the channel, from the
-- oldest payload on; what it has not written is still there, but for one payload whose write failed,
-- with which it ended.
pub run_steps-Drained :
    (id p : ℕ) (ss : List Step) (b : Bridge) (s : Stream)
    → get_elem? b.mux.heap p ≡ some s
    → All IsOwn ss
    → Drained p s.data_ch b (run_steps id p ss b)
unfolding run_steps
run_steps-Drained id p [] b s at own = record {
  out = [];
  lost = [];
  stream = s;
  at = at;
  log = sym (append-nil (written b.log));
  split = refl;
  few = inl refl;
}
run_steps-Drained id p (reads c ∷ ss) b s at (_, own) =
    let first = read_step-IsIdle id c b in
    let b1 = read_step id c b in
    let at1 = ap (λ heap. get_elem? heap p) first.heap ∙ at in
    let rest = run_steps-Drained id p ss b1 s at1 own in
    record {
      out = rest.out;
      lost = rest.lost;
      stream = rest.stream;
      at = rest.at;
      log = rest.log ∙ ap (λ ws. ws ++ rest.out) first.log;
      split = rest.split;
      few = rest.few;
    }
run_steps-Drained id p (picks k ∷ ss) b s at (_, own) =
    after_pick id p ss s b (pick_step p k b) at own
      (λ c t there. run_steps-Drained id p ss c t there own) (pick_step-Picked p k s b at)
run_steps-Drained id p (others f ∷ ss) b s at (bad, own) = absurd bad
