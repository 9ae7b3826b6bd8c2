-- ===== src/Client/LocalProxy.antt =====
-- internal/client/local_proxy.go: the HTTP proxy for the machine itself, and its TCP proxies. Parsing
-- the target's URL, and on which ports listening succeeds, are arguments.
pub mod Choice
pub mod Copying
mod Tests
use etunl_cli.Base.{
  ℕ, Bool, true, false, not, ◌&&◌, Option, none, some, List, [], ◌∷◌, ◌++◌, ◌=?◌, if◌then◌else◌,
}
use etunl_cli.Base.Bytes.{Bytes, codes, bytes_is_eq, is_empty, cut_first}
use etunl_cli.Base.Int.{ℤ, pos, ltb_ℤ}
use etunl_cli.Config.Auth.{Auth, Route, http}
use etunl_cli.Tunnel.Auth.{RouteAuth, check, has_session}
use etunl_cli.Server.Http.{Request, Response, http_error, strip_port}
use etunl_cli.Server.Proxy.{write_unauthorized}
use etunl_cli.Server.Listeners.{tcp}
use etunl_cli.Client.Wire.{auth_to_wire}

-- `extractLocalSubdomain`
pub extract_local_subdomain : Bytes → Bytes
extract_local_subdomain host = elim (cut_first b'.' (strip_port host)) [
  | none ↦ []
  | some (sub, domain) ↦ sub
]

-- The loop of startHTTP: the first route of the name that is of the type http.
unfoldable pub local_route : Bytes → List Route → Option Route
local_route sub [] = none
local_route sub (r ∷ rs) =
    let later = local_route sub rs in if r.name =? sub && r.type =? http then some r else later

-- The handler of startHTTP answers, or hands the request to the reverse proxy for a target.
pub data LocalDecision : Type 0 where
  refuse : Response → LocalDecision
  forward : (target : Bytes) → LocalDecision

to_target : (Bytes → Bool) → Bytes → LocalDecision
to_target parses target =
    if parses (codes "http://" ++ target)
    then forward target
    else refuse (http_error 500 (codes "invalid target"))

-- `if !wireAuth.HasSession() && !wireAuth.Check(r)`, for a route with an auth block.
pub guard_local : (Bytes → Bool) → Request → Route → LocalDecision
unfolding to_target
guard_local parses r route = elim route.auth [
  | none ↦ to_target parses route.target
  | some a ↦
      let wire_auth = auth_to_wire (some a) in
      if not (has_session wire_auth) && not (check wire_auth r.header)
      then refuse (write_unauthorized wire_auth)
      else to_target parses route.target
]

-- The handler of startHTTP.
pub local_decide : (Bytes → Bool) → List Route → Request → LocalDecision
unfolding extract_local_subdomain local_route guard_local
local_decide parses routes r =
    let sub = extract_local_subdomain r.host in
    if is_empty sub
    then refuse (http_error 400 (codes "no subdomain"))
    else elim (local_route sub routes) [
      | none ↦ refuse (http_error 404 (codes "route not found: " ++ sub))
      | some route ↦ guard_local parses r route
    ]

-- `startTCPProxies`, with startTCPProxy up to its accept loop: the ports that are proxied, and where
-- to.
pub tcp_proxies : (ℤ → Bool) → List Route → List (ℤ × Bytes)
tcp_proxies listen [] = []
tcp_proxies listen (r ∷ rs) =
    let rest = tcp_proxies listen rs in
    if r.type =? tcp && ltb_ℤ (pos 0) r.local_port && listen r.local_port
    then (r.local_port, r.target) ∷ rest
    else rest
