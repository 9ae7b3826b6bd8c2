-- ===== src/Server/Proxy.antt =====
-- internal/server/http_proxy.go: the guards of handleHTTPProxy, and who is let through to a machine.
pub mod Guard
mod Tests
use etunl_cli.Base.{
  ℕ, Bool, true, false, not, ◌&&◌, Option, none, some, List, [], ◌∷◌, ◌++◌, length, ◌=?◌,
  if◌then◌else◌,
}
use etunl_cli.Base.Bytes.{Bytes, codes, bytes_is_eq, is_empty}
use etunl_cli.Base.Int.{ℤ, pos}
use etunl_cli.Tunnel.Auth.{RouteInfo, RouteAuth, check, has_session}
use etunl_cli.Tunnel.Mux.{OpenJson, Mux, open_stream, close_stream}
use etunl_cli.Server.Http.{
  Cookie, Request, Response, http_error, text, extract_subdomain, is_websocket_upgrade,
}
use etunl_cli.Server.Session.{Crypto}
use etunl_cli.Server.Login.{answered, forward, Verdict, handle_session_auth}
use etunl_cli.Server.Routes.{Clients, find_route}
use etunl_cli.Server.Metrics.{
  Registry, record_bytes_in, record_bytes_out, record_http_request, open_conn, close_conn,
}

abbrev pub http : Bytes
http = codes "http"

realm : RouteAuth → Option Bytes
realm a = if is_empty a.bearer then none else some (codes "Bearer realm=\"etunl\"")

-- `RouteAuth.WriteUnauthorized`
pub write_unauthorized : Option RouteAuth → Response
unfolding realm
write_unauthorized none = http_error 401 (codes "unauthorized")
write_unauthorized (some a) = record (http_error 401 (codes "unauthorized")) {
  www_authenticate = realm a;
}

-- How handleHTTPProxy goes on: it answers, or the request goes to a machine's connection with these
-- cookies, as a WebSocket or as a plain request.
pub data Decision : Type 0 where
  refuse : Response → Decision
  proxy : (websocket : Bool) (machine : Bytes) (conn : ℕ) (cookies : List Cookie) → Decision

go_on : Request → Bytes → ℕ → List Cookie → Decision
go_on r machine conn cookies = proxy (is_websocket_upgrade r) machine conn cookies

on_verdict : Request → Bytes → ℕ → Verdict → Decision
unfolding go_on
on_verdict r machine conn (answered response) = refuse response
on_verdict r machine conn (forward cookies) = go_on r machine conn cookies

-- The guards on a route that was found.
pub guard_route : Crypto → Request → Bytes → ℕ → RouteInfo → Bytes → ℕ → Decision
unfolding on_verdict write_unauthorized
guard_route c r secret now route machine conn =
    if not (route.type =? http)
    then refuse (http_error 400 (codes "route is not HTTP: " ++ extract_subdomain r.host))
    else if has_session route.auth
    then on_verdict r machine conn (handle_session_auth c r route secret now)
    else if not (check route.auth r.header)
    then refuse (write_unauthorized route.auth)
    else go_on r machine conn r.cookies

-- handleHTTPProxy up to the opening of the stream. findRoute gives a connection with every route.
pub decide : Crypto → Clients → Bytes → ℕ → Request → Decision
unfolding guard_route
decide c clients secret now r =
    let sub = extract_subdomain r.host in
    if is_empty sub
    then refuse (http_error 400 (codes "no subdomain specified"))
    else elim (find_route sub clients) [
      | none ↦ refuse (http_error 404 (codes "route not found: " ++ sub))
      | some (route, machine, conn) ↦ guard_route c r secret now route machine conn
    ]
