-- ===== src/Tunnel/Conn/Serving/Stages.antt =====
-- How far a stream has come at the end where its frames arrive.
use etunl_cli.Base.{
  ℕ, ◌<◌, ◌≤◌, ◌≡◌, refl, true, false, none, some, List, [], ◌∷◌, ◌++◌, length, nat_eq, arith, All,
}
use etunl_cli.Base.Bytes.{Bytes}
use etunl_cli.Tunnel.Frame.{Frame}
use etunl_cli.Tunnel.Mux.{OpenJson, open_frame, close_frame}
use etunl_cli.Tunnel.Mux.WellFormed.{IsWellFormed}
use etunl_cli.Tunnel.Mux.Apart.{Holds}
use etunl_cli.Tunnel.Pump.Copying.{mine, data_frames}
use etunl_cli.Tunnel.Conn.Arriving.{stream_with, own_none}
use etunl_cli.Tunnel.Conn.Serving.{Peer, taken_from}

-- The frames of a stream behind its StreamOpen frame.
abbrev pub body : ℕ → List Bytes → List Bytes → List Frame
body id ps late = data_frames id ps ++ (close_frame id ∷ data_frames id late)

-- How far a stream with these payloads has come: its StreamOpen frame is still to be read; or it is
-- open, and what its handler has taken, its channel and the frames to be read are its payloads, in
-- order; or its StreamClose frame has been read, and its handler has taken, or finds in the channel,
-- all of them.
pub data Stage (json : OpenJson) (id : ℕ) (route : Bytes) (ps : List Bytes) (s : Peer)
    : Type 0 where
  coming :
      (late : List Bytes)
      → mine id s.wire ≡ open_frame json id route ∷ body id ps late
      → Stage json id route ps s
  running :
      (p : ℕ) (ch left late : List Bytes)
      → Holds id p (stream_with id route ch false) (some p) s.mux
      → (taken_from p s.taken ++ ch) ++ left ≡ ps
      → mine id s.wire ≡ body id left late
      → Stage json id route ps s
  ended :
      (p : ℕ) (ch late : List Bytes)
      → Holds id p (stream_with id route ch true) none s.mux
      → taken_from p s.taken ++ ch ≡ ps
      → mine id s.wire ≡ data_frames id late
      → Stage json id route ps s

-- The payloads taken so far come from objects that exist.
pub record IsSound (s : Peer) : Type 0 where
  pub whole : IsWellFormed s.mux
  pub known : All (λ (e : ℕ × Bytes). e.0 < length s.mux.heap) s.taken

pub taken_from-append :
    (p : ℕ) (xs ys : List (ℕ × Bytes))
    → taken_from p (xs ++ ys) ≡ taken_from p xs ++ taken_from p ys
unfolding taken_from
taken_from-append p [] ys = refl
taken_from-append p ((q, b) ∷ xs) ys = ground (arith, taken_from-append p xs ys)

-- Nothing has come from an object that is not there yet.
pub taken_from_new :
    (p : ℕ) (log : List (ℕ × Bytes)) → All (λ (e : ℕ × Bytes). e.0 < p) log → taken_from p log ≡ []
unfolding taken_from
taken_from_new p [] h = refl
taken_from_new p ((q, b) ∷ log) (lt, h) = ground (arith, taken_from_new p log h)

pub known_wider :
    (n k : ℕ) (log : List (ℕ × Bytes))
    → n ≤ k
    → All (λ (e : ℕ × Bytes). e.0 < n) log
    → All (λ (e : ℕ × Bytes). e.0 < k) log
known_wider n k [] le h = tt
known_wider n k ((q, b) ∷ log) le (lt, h) = (omega arith, known_wider n k log le h)

-- Once all frames have been read, a stream is at its last stage.
pub all_read :
    (json : OpenJson) (id : ℕ) (route : Bytes) (ps : List Bytes) (s : Peer)
    → s.wire ≡ []
    → Stage json id route ps s
    → (p : ℕ) × (ch : List Bytes) × Holds id p (stream_with id route ch true) none s.mux
      × (taken_from p s.taken ++ ch ≡ ps)
unfolding mine
all_read json id route ps s done (coming late e) =
    let nothing : [] ≡ open_frame json id route ∷ body id ps late = rw done at e in absurd (cc)
all_read json id route ps s done (running p ch left late h all e) =
    absurd (own_none id left late (rw done at e))
all_read json id route ps s done (ended p ch late h all e) = (p, ch, h, all)
