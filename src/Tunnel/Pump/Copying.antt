-- ===== src/Tunnel/Pump/Copying.antt =====
-- What the loops put on the wire.
use etunl_cli.Base.{
  ℕ, ◌≡◌, ◌∙◌, refl, sym, ap, Bool, true, false, not, ◌&&◌, some, List, [], ◌∷◌, ◌++◌, ◌==◌,
  append_assoc, append-nil, if◌then◌else◌, if_split, Bool-cases, Option-cases, inl, inr, get_elem?,
  nat_eq, All, length, beq_refl, true_ne_false,
}
use etunl_cli.Base.Bytes.{Bytes, is_empty}
use etunl_cli.Base.Dict.{lookup}
use etunl_cli.Tunnel.Frame.{Frame}
use etunl_cli.Tunnel.Mux.{
  Mux, Stream, OpenJson, open_stream, open_frame, data_frame, close_frame, send_frame, send_data,
  close_stream,
}
use etunl_cli.Tunnel.Mux.Opening.{open_stream_ok, link-open_stream}
use etunl_cli.Tunnel.Mux.Closing.{sent-close_stream, link-close_stream}
use etunl_cli.Tunnel.Pump.{
  Chunk, Pick, takes, sees_done, sees_ended, Step, reads, picks, others, Bridge, send_chunk,
  read_step, picked, take_step, pick_step, run_steps, end_stream, bridge_of,
}

-- The frames with this id, in order.
unfoldable pub mine : ℕ → List Frame → List Frame
mine id [] = []
mine id (f ∷ fs) = let rest = mine id fs in if f.stream_id == id then f ∷ rest else rest

mine-append : (id : ℕ) (fs gs : List Frame) → mine id (fs ++ gs) ≡ mine id fs ++ mine id gs
unfolding mine
mine-append id [] gs = refl
mine-append id (f ∷ fs) gs = elim (Bool-cases (f.stream_id == id)) [
  | inl same ↦ rw same (ap (◌∷◌ f) (mine-append id fs gs))
  | inr other ↦ rw other (mine-append id fs gs)
]

-- The payload of a read, none for an empty one.
abbrev pub payload_of : Bytes → List Bytes
payload_of bytes = if is_empty bytes then [] else bytes ∷ []

-- The payloads of the reads, in order, up to the read that ends; none where the goroutine that sends
-- has ended before.
unfoldable pub data_of : Bool → List Step → List Bytes
data_of going [] = []
data_of going (reads c ∷ ss) =
    let more = data_of (not c.ended) ss in
    let over = data_of false ss in if going then payload_of c.bytes ++ more else over
data_of going (picks k ∷ ss) = data_of going ss
data_of going (others f ∷ ss) = data_of going ss

-- Whether it still runs behind these steps.
unfoldable pub going_behind : Bool → List Step → Bool
going_behind going [] = going
going_behind going (reads c ∷ ss) =
    let more = going_behind (not c.ended) ss in
    let over = going_behind false ss in if going then more else over
going_behind going (picks k ∷ ss) = going_behind going ss
going_behind going (others f ∷ ss) = going_behind going ss

unfoldable pub data_frames : ℕ → List Bytes → List Frame
data_frames id [] = []
data_frames id (b ∷ bs) = data_frame id b ∷ data_frames id bs

data_frames-append :
    (id : ℕ) (bs cs : List Bytes)
    → data_frames id (bs ++ cs) ≡ data_frames id bs ++ data_frames id cs
unfolding data_frames
data_frames-append id [] cs = refl
data_frames-append id (b ∷ bs) cs = ap (◌∷◌ (data_frame id b)) (data_frames-append id bs cs)

-- A step of the other goroutines that has nothing to do with the stream: it sends no frame with the
-- id, leaves its entry in the map, and does not end the connection.
pub record IsApart (id : ℕ) (f : Mux → Mux) : Type 0 where
  pub frames : (m : Mux) → mine id (f m).sent ≡ mine id m.sent
  pub link : (m : Mux) → (f m).link_up ≡ m.link_up
  pub entry : (m : Mux) → lookup id (f m).streams ≡ lookup id m.streams

abbrev pub IsQuiet : ℕ → Step → Type 0
IsQuiet id (reads c) = Unit
IsQuiet id (picks k) = Unit
IsQuiet id (others f) = IsApart id f

-- From `m` to `m'` these frames with the id were sent, and the link and the entry of the id are as before.
pub record Sends (id : ℕ) (fs : List Frame) (m m' : Mux) : Type 0 where
  pub sent : mine id m'.sent ≡ mine id m.sent ++ fs
  pub link : m'.link_up ≡ m.link_up
  pub entry : lookup id m'.streams ≡ lookup id m.streams

pub Sends-nothing : (id : ℕ) (m : Mux) → Sends id [] m m
Sends-nothing id m = record { sent = sym (append-nil (mine id m.sent)); link = refl; entry = refl }

pub Sends-then :
    (id : ℕ) (fs gs : List Frame) (m m1 m2 : Mux)
    → Sends id fs m m1
    → Sends id gs m1 m2
    → Sends id (fs ++ gs) m m2
Sends-then id fs gs m m1 m2 first second = record {
  sent = second.sent ∙ ap (λ xs. xs ++ gs) first.sent ∙ append_assoc (mine id m.sent) fs gs;
  link = second.link ∙ first.link;
  entry = second.entry ∙ first.entry;
}

pub Sends-data :
    (id : ℕ) (bytes : Bytes) (m : Mux)
    → m.link_up ≡ true
    → Sends id (data_frame id bytes ∷ []) m (send_data id bytes m).0
      × ((send_data id bytes m).1 ≡ true)
unfolding send_data send_frame mine
Sends-data id bytes m up = rw up (
  record {
    sent = mine-append id m.sent (data_frame id bytes ∷ []) ∙ rw (beq_refl id) refl;
    link = refl;
    entry = refl;
  },
  refl,
)

Sends-chunk :
    (id : ℕ) (bytes : Bytes) (m : Mux)
    → m.link_up ≡ true
    → Sends id (data_frames id (payload_of bytes)) m (send_chunk id bytes m).0
      × ((send_chunk id bytes m).1 ≡ true)
unfolding send_chunk data_frames
Sends-chunk id [] m up = (Sends-nothing id m, refl)
Sends-chunk id (b ∷ bs) m up = Sends-data id (b ∷ bs) m up

read_step_ended : (id : ℕ) (c : Chunk) (b : Bridge) → b.sending ≡ false → read_step id c b ≡ b
unfolding read_step
read_step_ended id c b h =
    if_split (λ x. x ≡ b) b.sending (λ t. absurd (true_ne_false (sym t ∙ h))) (λ _. refl)

-- One round of the goroutine that sends, over a link that takes frames.
read_step_going :
    (id : ℕ) (c : Chunk) (b : Bridge)
    → b.sending ≡ true
    → b.mux.link_up ≡ true
    → Sends id (data_frames id (payload_of c.bytes)) b.mux (read_step id c b).mux
      × ((read_step id c b).sending ≡ not c.ended)
unfolding read_step
read_step_going id c b going up =
    let (sends, went) = Sends-chunk id c.bytes b.mux up in
    if_split
      (λ (x : Bridge).
        Sends id (data_frames id (payload_of c.bytes)) b.mux x.mux × (x.sending ≡ not c.ended))
      b.sending (λ _. (sends, ap (λ w. w && not c.ended) went))
      (λ t. absurd (true_ne_false (sym going ∙ t)))

-- A step that changes neither what is on the wire nor whether the goroutine that sends still runs.
abbrev IsSilent : ℕ → Bridge → Bridge → Type 0
IsSilent id b x = Sends id [] b.mux x.mux × (x.sending ≡ b.sending)

stays : (id : ℕ) (b : Bridge) → IsSilent id b b
stays id b = (Sends-nothing id b.mux, refl)

take_step-IsSilent :
    (id p : ℕ) (good : Bool) (at : ℕ) (ch : List Bytes) (b : Bridge)
    → IsSilent id b (take_step p good at ch b)
unfolding take_step
take_step-IsSilent id p good at [] b = stays id b
take_step-IsSilent id p true at (payload ∷ rest) b =
    (record { sent = sym (append-nil (mine id b.mux.sent)); link = refl; entry = refl }, refl)
take_step-IsSilent id p false at (payload ∷ rest) b =
    (record { sent = sym (append-nil (mine id b.mux.sent)); link = refl; entry = refl }, refl)

picked-IsSilent : (id p : ℕ) (k : Pick) (s : Stream) (b : Bridge) → IsSilent id b (picked p k s b)
unfolding picked
picked-IsSilent id p sees_done s b =
    if_split (IsSilent id b) s.done (λ _. (Sends-nothing id b.mux, refl)) (λ _. stays id b)
picked-IsSilent id p sees_ended s b =
    if_split (IsSilent id b) b.sending (λ _. stays id b) (λ _. (Sends-nothing id b.mux, refl))
picked-IsSilent id p (takes good at) s b = take_step-IsSilent id p good at s.data_ch b

pick_step-IsSilent : (id p : ℕ) (k : Pick) (b : Bridge) → IsSilent id b (pick_step p k b)
unfolding pick_step
pick_step-IsSilent id p k b =
    if_split (IsSilent id b) b.copying
      (λ _. elim (Option-cases (get_elem? b.mux.heap p)) [
        | inl gone ↦ rw gone (stays id b)
        | inr (s, at) ↦ rw at (picked-IsSilent id p k s b)
      ])
      (λ _. stays id b)

-- What a run has done: the frames with the id that it sent, and whether the goroutine that sends
-- still runs.
pub record Ran (id : ℕ) (fs : List Frame) (on : Bool) (m : Mux) (b : Bridge) : Type 0 where
  pub sends : Sends id fs m b.mux
  pub going : b.sending ≡ on

-- Over a link that takes frames, with the others apart, a run puts the bytes of every read on the
-- wire, in order, up to the read that ends, and nothing else with the id of the stream.
pub run_steps-Ran :
    (id p : ℕ) (going : Bool) (ss : List Step) (b : Bridge)
    → b.mux.link_up ≡ true
    → b.sending ≡ going
    → All (IsQuiet id) ss
    → Ran id (data_frames id (data_of going ss)) (going_behind going ss) b.mux (run_steps id p ss b)
unfolding run_steps data_of going_behind data_frames
run_steps-Ran id p going [] b up h q = record { sends = Sends-nothing id b.mux; going = h }
run_steps-Ran id p true (reads c ∷ ss) b up h (_, q) =
    let (sends, on) = read_step_going id c b h up in
    let b1 = read_step id c b in
    let rest = run_steps-Ran id p (not c.ended) ss b1 (sends.link ∙ up) on q in
    record {
      sends = rw (data_frames-append id (payload_of c.bytes) (data_of (not c.ended) ss)) (
          Sends-then id (data_frames id (payload_of c.bytes))
            (data_frames id (data_of (not c.ended) ss)) b.mux b1.mux (run_steps id p ss b1).mux
            sends rest.sends);
      going = rest.going;
    }
run_steps-Ran id p false (reads c ∷ ss) b up h (_, q) =
    rw (read_step_ended id c b h) (run_steps-Ran id p false ss b up h q)
run_steps-Ran id p going (picks k ∷ ss) b up h (_, q) =
    let (silent, same) = pick_step-IsSilent id p k b in
    let b1 = pick_step p k b in
    let rest = run_steps-Ran id p going ss b1 (silent.link ∙ up) (same ∙ h) q in
    record {
      sends = Sends-then id [] _ b.mux b1.mux (run_steps id p ss b1).mux silent rest.sends;
      going = rest.going;
    }
run_steps-Ran id p going (others f ∷ ss) b up h (apart, q) =
    let b1 = record b { mux = f b.mux } in
    let rest = run_steps-Ran id p going ss b1 (apart.link b.mux ∙ up) h q in
    let silent : Sends id [] b.mux (f b.mux) = record {
      sent = apart.frames b.mux ∙ sym (append-nil (mine id b.mux.sent));
      link = apart.link b.mux;
      entry = apart.entry b.mux;
    } in
    record {
      sends = Sends-then id [] _ b.mux b1.mux (run_steps id p ss b1).mux silent rest.sends;
      going = rest.going;
    }

-- CloseStream for an entry in the map, and what is sent behind it.
pub end_stream-Ran :
    (id p q : ℕ) (going : Bool) (behind : List Step) (b : Bridge)
    → b.mux.link_up ≡ true
    → lookup id b.mux.streams ≡ some q
    → b.sending ≡ going
    → All (IsQuiet id) behind
    → mine id (end_stream id p behind b).mux.sent
      ≡ mine id b.mux.sent ++ (close_frame id ∷ data_frames id (data_of going behind))
unfolding end_stream mine
end_stream-Ran id p q going behind b up found h quiet =
    let m = close_stream id b.mux in
    let b1 = record b { mux = m; log = [] } in
    let ran = run_steps-Ran id p going behind b1 (link-close_stream id b.mux ∙ up) h quiet in
    ran.sends.sent
    ∙ ap (λ fs. mine id fs ++ data_frames id (data_of going behind))
        (sent-close_stream id q b.mux up found)
    ∙ ap (λ fs. fs ++ data_frames id (data_of going behind))
        (mine-append id b.mux.sent (close_frame id ∷ []) ∙ rw (beq_refl id) refl)
    ∙ append_assoc (mine id b.mux.sent) (close_frame id ∷ []) _

-- The same behind what was sent before.
pub end_stream-sent :
    (id p q : ℕ) (fs : List Frame) (on : Bool) (behind : List Step) (m : Mux) (b : Bridge)
    → m.link_up ≡ true
    → lookup id m.streams ≡ some q
    → Ran id fs on m b
    → All (IsQuiet id) behind
    → mine id (end_stream id p behind b).mux.sent
      ≡ mine id m.sent ++ (fs ++ (close_frame id ∷ data_frames id (data_of on behind)))
end_stream-sent id p q fs on behind m b up found ran quiet =
    let late = close_frame id ∷ data_frames id (data_of on behind) in
    end_stream-Ran id p q on behind b (ran.sends.link ∙ up) (ran.sends.entry ∙ found) ran.going
      quiet
    ∙ ap (λ xs. xs ++ late) ran.sends.sent
    ∙ append_assoc (mine id m.sent) fs late

-- A goroutine that has ended reads nothing.
pub data_of-ended : (ss : List Step) → data_of false ss ≡ []
unfolding data_of
data_of-ended [] = refl
data_of-ended (reads c ∷ ss) = data_of-ended ss
data_of-ended (picks k ∷ ss) = data_of-ended ss
data_of-ended (others f ∷ ss) = data_of-ended ss

pub going_behind-ended : (ss : List Step) → going_behind false ss ≡ false
unfolding going_behind
going_behind-ended [] = refl
going_behind-ended (reads c ∷ ss) = going_behind-ended ss
going_behind-ended (picks k ∷ ss) = going_behind-ended ss
going_behind-ended (others f ∷ ss) = going_behind-ended ss

-- A stream from its opening to its end, and behind it.
pub sent-stream :
    (json : OpenJson) (route : Bytes) (before behind : List Step) (m : Mux)
    → m.link_up ≡ true
    → All (IsQuiet m.next_id) before
    → All (IsQuiet m.next_id) behind
    → let id = m.next_id in
      let b = bridge_of (open_stream json route m).0 in
      mine id
        (end_stream id (length m.heap) behind (run_steps id (length m.heap) before b)).mux.sent
      ≡ mine id m.sent
        ++ (open_frame json id route
            ∷ (data_frames id (data_of true before)
                ++ (close_frame id ∷ data_frames id (data_of (going_behind true before) behind))))
unfolding mine
sent-stream json route before behind m up q1 q2 =
    let id = m.next_id in
    let p = length m.heap in
    let (opened, whole) = open_stream_ok json route m up in
    let m1 = (open_stream json route m).0 in
    let up1 = link-open_stream json route m ∙ up in
    let ran = run_steps-Ran id p true before (bridge_of m1) up1 refl q1 in
    let b1 = run_steps id p before (bridge_of m1) in
    let late = close_frame id ∷ data_frames id (data_of (going_behind true before) behind) in
    let body = data_frames id (data_of true before) in
    let opening : mine id m1.sent ≡ mine id m.sent ++ open_frame json id route ∷ [] =
      ap (mine id) whole.frame
      ∙ mine-append id m.sent (open_frame json id route ∷ [])
      ∙ rw (beq_refl id) refl in
    end_stream-sent id p p body (going_behind true before) behind m1 b1 up1 whole.registered ran q2
    ∙ ap (λ fs. fs ++ (body ++ late)) opening
    ∙ append_assoc (mine id m.sent) (open_frame json id route ∷ []) (body ++ late)
