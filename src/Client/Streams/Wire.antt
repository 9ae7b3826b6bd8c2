-- ===== src/Client/Streams/Wire.antt =====
-- What the client answers to a stream, and that it always ends it.
use etunl_cli.Base.{
  ℕ, ◌≡◌, ◌∙◌, refl, Bool, true, false, Option, none, some, List, [], ◌∷◌, ◌++◌, ◌=?◌,
  if◌then◌else◌, if_split, Bool-cases, Option-cases, inl, inr, nat_eq, All,
}
use etunl_cli.Base.Bytes.{Bytes, bytes_is_eq}
use etunl_cli.Base.Dict.{lookup}
use etunl_cli.Config.Auth.{http}
use etunl_cli.Config.Routes.{ClientConfig, find_route}
use etunl_cli.Tunnel.Mux.{Mux, Stream, close_frame}
use etunl_cli.Tunnel.Pump.{Step, Bridge, bridge_of, run_steps, end_stream}
use etunl_cli.Tunnel.Pump.Copying.{
  mine, data_of, data_of-ended, data_frames, going_behind, going_behind-ended, IsQuiet, Ran, Sends,
  Sends-nothing, Sends-then, Sends-data, run_steps-Ran, end_stream-sent,
}
use etunl_cli.Server.Http.{Request, is_websocket_upgrade}
use etunl_cli.Client.Streams.{
  Around, Target, unreachable, rejects, answers, tcp_loops, handle_tcp_stream, forward_http,
  forward_websocket, forward_request, handle_http_stream, handle_stream,
}

-- What a handler sends back, and whether its goroutine that sends still runs at its return.
abbrev pub Answered : Type 0
Answered = List Bytes × Bool

unfoldable pub http_reply : Around → Request → Target → Answered
http_reply a r unreachable = (if is_websocket_upgrade r then [] else a.bad_gateway ∷ [], false)
http_reply a r rejects = ([], false)
http_reply a r (answers steps) =
    (data_of true steps, if is_websocket_upgrade r then going_behind true steps else false)

pub tcp_reply : Target → Answered
tcp_reply unreachable = ([], false)
tcp_reply rejects = ([], false)
tcp_reply (answers steps) = (data_of true steps, going_behind true steps)

unfoldable pub request_reply : Around → Option Request → Answered
unfolding http_reply
request_reply a none = ([], false)
request_reply a (some r) = http_reply a r a.target

unfoldable pub reply : Around → ClientConfig → Bytes → Answered
unfolding request_reply tcp_reply
reply a c name = elim (find_route c name) [
  | none ↦ ([], false)
  | some route ↦ if route.type =? http then request_reply a a.request else tcp_reply a.target
]

-- The steps behind the handler's return; there are none where no handler is run.
pub behind_of : Around → ClientConfig → Bytes → List Step
behind_of a c name = elim (find_route c name) [ none ↦ [] | some route ↦ a.behind ]

-- The steps of the others are apart from the stream.
abbrev pub IsQuietTarget : ℕ → Target → Type 0
IsQuietTarget id unreachable = Unit
IsQuietTarget id rejects = Unit
IsQuietTarget id (answers steps) = All (IsQuiet id) steps

pub record IsQuietAround (id : ℕ) (a : Around) : Type 0 where
  pub waiting : All (IsQuiet id) a.waiting
  pub target : IsQuietTarget id a.target
  pub behind : All (IsQuiet id) a.behind

abbrev pub Answers : ℕ → Answered → Mux → Bridge → Type 0
Answers id r m b = Ran id (data_frames id r.0) r.1 m b

pub tcp-Answers :
    (id p : ℕ) (t : Target) (m : Mux)
    → m.link_up ≡ true
    → IsQuietTarget id t
    → Answers id (tcp_reply t) m (tcp_loops id p t m)
unfolding tcp_loops tcp_reply data_frames
tcp-Answers id p unreachable m up q = record { sends = Sends-nothing id m; going = refl }
tcp-Answers id p rejects m up q = record { sends = Sends-nothing id m; going = refl }
tcp-Answers id p (answers steps) m up q = run_steps-Ran id p true steps (bridge_of m) up refl q

silent : (id : ℕ) (b : Bridge) → b.sending ≡ false → Ran id [] false b.mux b
silent id b h = record { sends = Sends-nothing id b.mux; going = h }

websocket-Answers :
    (id p : ℕ) (a : Around) (r : Request) (t : Target) (b : Bridge)
    → is_websocket_upgrade r ≡ true
    → b.mux.link_up ≡ true
    → b.sending ≡ false
    → IsQuietTarget id t
    → Answers id (http_reply a r t) b.mux (forward_websocket id p t b)
unfolding http_reply forward_websocket data_frames
websocket-Answers id p a r unreachable b ws up off q = rw ws (silent id b off)
websocket-Answers id p a r rejects b ws up off q = silent id b off
websocket-Answers id p a r (answers steps) b ws up off q =
    rw ws (run_steps-Ran id p true steps (record b { sending = true }) up refl q)

plain-Answers :
    (id p : ℕ) (a : Around) (r : Request) (t : Target) (b : Bridge)
    → is_websocket_upgrade r ≡ false
    → b.mux.link_up ≡ true
    → b.sending ≡ false
    → IsQuietTarget id t
    → Answers id (http_reply a r t) b.mux (forward_http a.bad_gateway id p t b)
unfolding http_reply forward_http data_frames
plain-Answers id p a r unreachable b plain up off q =
    rw plain (record { sends = (Sends-data id a.bad_gateway b.mux up).0; going = off })
plain-Answers id p a r rejects b plain up off q = silent id b off
plain-Answers id p a r (answers steps) b plain up off q =
    let ran = run_steps-Ran id p true steps (record b { sending = true }) up refl q in
    rw plain (record { sends = ran.sends; going = refl })

pub request-Answers :
    (id p : ℕ) (a : Around) (request : Option Request) (b : Bridge)
    → b.mux.link_up ≡ true
    → b.sending ≡ false
    → IsQuietTarget id a.target
    → Answers id (request_reply a request) b.mux (forward_request a id p request b)
unfolding request_reply forward_request data_frames
request-Answers id p a none b up off q = silent id b off
request-Answers id p a (some r) b up off q =
    if_split (Answers id (http_reply a r a.target) b.mux) (is_websocket_upgrade r)
      (λ ws. websocket-Answers id p a r a.target b ws up off q)
      (λ plain. plain-Answers id p a r a.target b plain up off q)

pub http-Answers :
    (id p : ℕ) (a : Around) (m : Mux)
    → m.link_up ≡ true
    → IsQuietAround id a
    → Answers id (request_reply a a.request) m (
        forward_request a id p a.request
          (run_steps id p a.waiting (record (bridge_of m) { sending = false })))
unfolding data_frames
http-Answers id p a m up q =
    let b = record (bridge_of m) { sending = false } in
    let waited = run_steps-Ran id p false a.waiting b up refl q.waiting in
    let b1 = run_steps id p a.waiting b in
    let up1 = waited.sends.link ∙ up in
    let off = waited.going ∙ going_behind-ended a.waiting in
    let ran = request-Answers id p a a.request b1 up1 off q.target in
    let idle : Sends id [] m b1.mux = rw (data_of-ended a.waiting) at waited.sends in
    record {
      sends =
          Sends-then id [] (data_frames id (request_reply a a.request).0) m b1.mux _ idle ran.sends;
      going = ran.going;
    }

-- Over a working link, with the stream in the map and the others apart from it, the frames with its id
-- that the client sends are a StreamData frame for each payload of the reply, then one StreamClose
-- frame, and behind it only the reads of a goroutine that still runs. The reply is empty for an unknown
-- route, an unreadable request and a target that cannot be dialed or does not take the request; but
-- where a target cannot be dialed for a plain HTTP request, it is the 502 answer. Else it is what the
-- target sends.
pub handle_stream-sent :
    (a : Around) (c : ClientConfig) (s : Stream) (p : ℕ) (m : Mux)
    → m.link_up ≡ true
    → lookup s.id m.streams ≡ some p
    → IsQuietAround s.id a
    → let (payloads, going) = reply a c s.route in
      mine s.id (handle_stream a c s p m).0.sent
      ≡ mine s.id m.sent
        ++ (data_frames s.id payloads
            ++ (close_frame s.id ∷ data_frames s.id (data_of going (behind_of a c s.route))))
unfolding handle_stream handle_tcp_stream handle_http_stream reply end_stream data_frames behind_of
handle_stream-sent a c s p m up found q = elim (Option-cases (find_route c s.route)) [
  | inl unknown ↦
      rw (handle_stream, reply, behind_of, unknown)
        (end_stream-sent s.id p p [] false [] m (record (bridge_of m) { sending = false }) up found
          (silent s.id (record (bridge_of m) { sending = false }) refl) tt)
  | inr (route, known) ↦ elim (Bool-cases (route.type =? http)) [
    | inl over_http ↦
        rw (handle_stream, reply, behind_of, known, over_http)
          (end_stream-sent s.id p p _ _ a.behind m _ up found (http-Answers s.id p a m up q)
            q.behind)
    | inr over_tcp ↦
        rw (handle_stream, reply, behind_of, known, over_tcp)
          (end_stream-sent s.id p p _ _ a.behind m _ up found
            (tcp-Answers s.id p a.target m up q.target) q.behind)
  ]
]
