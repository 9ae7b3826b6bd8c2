-- ===== src/Client/Streams/Fitting.antt =====
-- Which frames a handler of the client adds to those that were sent.
use etunl_cli.Base.{
  ℕ, ◌≡◌, ◌∙◌, true, false, Option, none, some, ◌=?◌, All, if_split, Option-cases, inl, inr, nat_eq,
}
use etunl_cli.Base.Bytes.{Bytes, bytes_is_eq}
use etunl_cli.Config.Auth.{http}
use etunl_cli.Config.Routes.{ClientConfig, find_route}
use etunl_cli.Tunnel.Frame.{Frame}
use etunl_cli.Tunnel.Mux.{Mux, Stream, data_frame, close_frame}
use etunl_cli.Tunnel.Pump.{Bridge, bridge_of, run_steps}
use etunl_cli.Tunnel.Pump.Fitting.{
  AllSent, Keeps, send_data-AllSent, close_stream-AllSent, run_steps-AllSent, end_stream-AllSent,
}
use etunl_cli.Server.Http.{Request, is_websocket_upgrade}
use etunl_cli.Client.Streams.{
  Around, Target, unreachable, rejects, answers, tcp_loops, handle_tcp_stream, forward_http,
  forward_websocket, forward_request, handle_http_stream, handle_stream,
}
use etunl_cli.Client.Streams.Wire.{IsQuietAround, tcp-Answers, http-Answers}

abbrev KeepsTarget : (Frame → Type 0) → ℕ → Target → Type 0
KeepsTarget Q id unreachable = Unit
KeepsTarget Q id rejects = Unit
KeepsTarget Q id (answers steps) = All (Keeps Q id) steps

module _ (Q : Frame → Type 0) (id p : ℕ) where
  tcp_loops-AllSent :
      (t : Target) (m : Mux) → KeepsTarget Q id t → AllSent Q m → AllSent Q (tcp_loops id p t m).mux
  unfolding tcp_loops
  tcp_loops-AllSent unreachable m k all = all
  tcp_loops-AllSent rejects m k all = all
  tcp_loops-AllSent (answers steps) m k all = run_steps-AllSent Q id p steps (bridge_of m) k all

  forward_http-AllSent :
      (bad_gateway : Bytes) (t : Target) (b : Bridge)
      → Q (data_frame id bad_gateway)
      → KeepsTarget Q id t
      → AllSent Q b.mux
      → AllSent Q (forward_http bad_gateway id p t b).mux
  unfolding forward_http
  forward_http-AllSent bad_gateway unreachable b q k all =
      send_data-AllSent Q id bad_gateway b.mux q all
  forward_http-AllSent bad_gateway rejects b q k all = all
  forward_http-AllSent bad_gateway (answers steps) b q k all =
      run_steps-AllSent Q id p steps (record b { sending = true }) k all

  forward_websocket-AllSent :
      (t : Target) (b : Bridge)
      → KeepsTarget Q id t
      → AllSent Q b.mux
      → AllSent Q (forward_websocket id p t b).mux
  unfolding forward_websocket
  forward_websocket-AllSent unreachable b k all = all
  forward_websocket-AllSent rejects b k all = all
  forward_websocket-AllSent (answers steps) b k all =
      run_steps-AllSent Q id p steps (record b { sending = true }) k all

-- The frames that a handler's surroundings make.
pub record KeepsAround (Q : Frame → Type 0) (id : ℕ) (a : Around) : Type 0 where
  pub waiting : All (Keeps Q id) a.waiting
  pub target : KeepsTarget Q id a.target
  pub behind : All (Keeps Q id) a.behind
  pub answer : Q (data_frame id a.bad_gateway)
  pub end : Q (close_frame id)

module _ (Q : Frame → Type 0) (id p : ℕ) (a : Around) (keep : KeepsAround Q id a) where
  forward_request-AllSent :
      (request : Option Request) (b : Bridge)
      → AllSent Q b.mux
      → AllSent Q (forward_request a id p request b).mux
  unfolding forward_request
  forward_request-AllSent none b all = all
  forward_request-AllSent (some r) b all =
      if_split (λ (x : Bridge). AllSent Q x.mux) (is_websocket_upgrade r)
        (λ _. forward_websocket-AllSent Q id p a.target b keep.target all)
        (λ _. forward_http-AllSent Q id p a.bad_gateway a.target b keep.answer keep.target all)

  handle_http_stream-AllSent :
      (m : Mux)
      → m.link_up ≡ true
      → IsQuietAround id a
      → AllSent Q m
      → AllSent Q (handle_http_stream a id p m)
  unfolding handle_http_stream
  handle_http_stream-AllSent m up quiet all =
      let b = record (bridge_of m) { sending = false } in
      let b1 = run_steps id p a.waiting b in
      end_stream-AllSent Q id p a.behind (forward_request a id p a.request b1)
        ((http-Answers id p a m up quiet).sends.link ∙ up) keep.end keep.behind
        (forward_request-AllSent a.request b1
          (run_steps-AllSent Q id p a.waiting b keep.waiting all))

  handle_tcp_stream-AllSent :
      (m : Mux)
      → m.link_up ≡ true
      → IsQuietAround id a
      → AllSent Q m
      → AllSent Q (handle_tcp_stream a id p m)
  unfolding handle_tcp_stream
  handle_tcp_stream-AllSent m up quiet all =
      end_stream-AllSent Q id p a.behind (tcp_loops id p a.target m)
        ((tcp-Answers id p a.target m up quiet.target).sends.link ∙ up) keep.end keep.behind
        (tcp_loops-AllSent Q id p a.target m keep.target all)

-- All frames that the client has sent behind a stream's handler are such frames, if those before it
-- are, and those that its surroundings make.
pub handle_stream-AllSent :
    (Q : Frame → Type 0) (a : Around) (c : ClientConfig) (s : Stream) (p : ℕ) (m : Mux)
    → KeepsAround Q s.id a
    → m.link_up ≡ true
    → IsQuietAround s.id a
    → AllSent Q m
    → AllSent Q (handle_stream a c s p m).0
unfolding handle_stream
handle_stream-AllSent Q a c s p m keep up quiet all = elim (Option-cases (find_route c s.route)) [
  | inl unknown ↦ rw (handle_stream, unknown) (close_stream-AllSent Q s.id m up keep.end all)
  | inr (route, known) ↦
      rw (handle_stream, known)
        (if_split (λ (x : Mux × Option Bytes). AllSent Q x.0) (route.type =? http)
          (λ _. handle_http_stream-AllSent Q s.id p a keep m up quiet all)
          (λ _. handle_tcp_stream-AllSent Q s.id p a keep m up quiet all))
]
