-- ===== src/Server/Proxy/Guard.antt =====
-- Which requests reach a machine.
use mathlib.Core.Path.{subst}
use etunl_cli.Base.{
  ℕ, ◌≡◌, ◌≢◌, ◌⊎◌, ◌↔◌, ◌∙◌, refl, sym, ap, inl, inr, Bool, true, false, none, some, List, [],
  ◌=?◌, Bool-cases, Option-cases, true_ne_false,
}
use etunl_cli.Base.Bytes.{Bytes, bytes_is_eq, is_empty}
use etunl_cli.Tunnel.Auth.{RouteInfo, check, has_session}
use etunl_cli.Config.Auth.{Auth, validate}
use etunl_cli.Client.Wire.{auth_to_wire}
use etunl_cli.Client.Wire.Protection.{Carries, auth_to_wire-protects}
use etunl_cli.Server.Http.{Cookie, Request, Response, extract_subdomain, is_websocket_upgrade}
use etunl_cli.Server.Session.{Crypto, verify_session}
use etunl_cli.Server.Login.{
  answered, forward, Verdict, handle_session_auth, session_cookie, cookie_value,
}
use etunl_cli.Server.Login.Forwarding.{handle_session_auth_iff}
use etunl_cli.Server.Login.Access.{not_empty_iff}
use etunl_cli.Server.Routes.{Clients, find_route}
use etunl_cli.Server.Proxy.{refuse, proxy, http, go_on, on_verdict, guard_route, decide}

-- A request that its route lets through, with the cookies that go on.
pub data IsAllowed (c : Crypto) (secret : Bytes) (now : ℕ) (r : Request) (route : RouteInfo)
    (cookies : List Cookie) : Type 0 where
  by_session :
      has_session route.auth ≡ true
      → handle_session_auth c r route secret now ≡ forward cookies
      → IsAllowed c secret now r route cookies
  by_header :
      has_session route.auth ≡ false
      → check route.auth r.header ≡ true
      → cookies ≡ r.cookies
      → IsAllowed c secret now r route cookies

refuse_ne_proxy :
    {a : Response} {ws : Bool} {machine : Bytes} {conn : ℕ} {ks : List Cookie}
    → ¬ (refuse a ≡ proxy ws machine conn ks)
refuse_ne_proxy h = cc

on_verdict_proxy :
    (r : Request) (machine m : Bytes) (conn n : ℕ) (ws : Bool) (v : Verdict) (ks : List Cookie)
    → on_verdict r machine conn v ≡ proxy ws m n ks
    → (v ≡ forward ks) × (ws ≡ is_websocket_upgrade r) × (m ≡ machine) × (n ≡ conn)
unfolding on_verdict go_on
on_verdict_proxy r machine m conn n ws (answered a) ks h = absurd (refuse_ne_proxy h)
on_verdict_proxy r machine m conn n ws (forward js) ks h = (cc, cc, cc, cc)

guard_route_proxy :
    (c : Crypto) (r : Request) (secret : Bytes) (now : ℕ) (route : RouteInfo) (machine m : Bytes)
    (conn n : ℕ) (ws : Bool) (ks : List Cookie)
    → guard_route c r secret now route machine conn ≡ proxy ws m n ks
    → (route.type ≡ http)
      × IsAllowed c secret now r route ks
      × (ws ≡ is_websocket_upgrade r)
      × (m ≡ machine)
      × (n ≡ conn)
unfolding guard_route go_on
guard_route_proxy c r secret now route machine m conn n ws ks h =
    elim (Bool-cases (route.type =? http)) [
      | inr other ↦ absurd (refuse_ne_proxy (rw (guard_route, other) at h))
      | inl web ↦
          let typed = (bytes_is_eq.beq_iff route.type http).0 web in
          elim (Bool-cases (has_session route.auth)) [
            | inl session ↦
                let (verdict, upgrade, same_machine, same_conn) =
                  on_verdict_proxy r machine m conn n ws (handle_session_auth c r route secret now)
                    ks (rw (guard_route, web, session) at h) in
                (typed, by_session session verdict, upgrade, same_machine, same_conn)
            | inr open_route ↦ elim (Bool-cases (check route.auth r.header)) [
              | inr failed ↦
                  absurd (refuse_ne_proxy (rw (guard_route, web, open_route, failed) at h))
              | inl passed ↦
                  let e = rw (guard_route, web, open_route, passed) at h in
                  (typed, by_header open_route passed cc, cc, cc, cc)
            ]
          ]
    ]

guard_route_allowed :
    (c : Crypto) (r : Request) (secret : Bytes) (now : ℕ) (route : RouteInfo) (machine : Bytes)
    (conn : ℕ) (ks : List Cookie)
    → route.type ≡ http
    → IsAllowed c secret now r route ks
    → guard_route c r secret now route machine conn ≡ proxy (is_websocket_upgrade r) machine conn ks
unfolding guard_route go_on on_verdict
guard_route_allowed c r secret now route machine conn ks typed
      (IsAllowed.by_session session verdict) =
    rw (guard_route, (bytes_is_eq.beq_iff route.type http).1 typed, session, verdict) refl
guard_route_allowed c r secret now route machine conn ks typed
      (IsAllowed.by_header open_route passed same) =
    rw (guard_route, (bytes_is_eq.beq_iff route.type http).1 typed, open_route, passed)
      (ap (proxy (is_websocket_upgrade r) machine conn) (sym same))

-- What lets a request through a route with a valid auth block.
protected :
    (c : Crypto) (secret : Bytes) (now : ℕ) (r : Request) (route : RouteInfo) (a : Auth)
    (ks : List Cookie)
    → route.auth ≡ auth_to_wire (some a)
    → validate (some a) ≡ none
    → IsAllowed c secret now r route ks
    → Carries a r.header
      ⊎ ((value : Bytes) × (cookie_value session_cookie r.cookies ≡ some value)
          × (verify_session c value secret now ≢ []))
protected c secret now r route a ks wire valid (IsAllowed.by_session session verdict) =
    let (value, _, _, carried, verified, _) =
      (handle_session_auth_iff c r route secret now ks).0.0 verdict in
    inr (value, carried, verified)
protected c secret now r route a ks wire valid (IsAllowed.by_header open_route passed _) =
    elim (auth_to_wire-protects a r.header valid (rw wire at passed)) [
      | inl session ↦ absurd (true_ne_false (sym session ∙ rw wire at open_route))
      | inr carries ↦ inl carries
    ]

-- handleHTTPProxy proxies a request to a machine exactly where the subdomain of its host is a route
-- that this machine has on this connection, the route is of type http, and the route lets the request
-- through: by the session check, which also gives the cookies that go on, or by RouteAuth.Check. It
-- takes it for a WebSocket where the headers ask for one.
pub decide_proxy_iff :
    (c : Crypto) (clients : Clients) (secret : Bytes) (now : ℕ) (r : Request) (ws : Bool)
    (machine : Bytes) (conn : ℕ) (ks : List Cookie)
    → (decide c clients secret now r ≡ proxy ws machine conn ks) ↔ (
        (route : RouteInfo) × (extract_subdomain r.host ≢ [])
        × (find_route (extract_subdomain r.host) clients ≡ some (route, machine, conn))
        × (route.type ≡ http)
        × IsAllowed c secret now r route ks
        × (ws ≡ is_websocket_upgrade r))
unfolding decide
decide_proxy_iff c clients secret now r ws machine conn ks =
    let sub = extract_subdomain r.host in
    (
      λ h. elim (Bool-cases (is_empty sub)) [
        | inl nameless ↦ absurd (refuse_ne_proxy (rw (decide, nameless) at h))
        | inr named ↦ elim (Option-cases (find_route sub clients)) [
          | inl unknown ↦ absurd (refuse_ne_proxy (rw (decide, named, unknown) at h))
          | inr ((route, m, n), found) ↦
              let (typed, allowed, upgrade, same_machine, same_conn) =
                guard_route_proxy c r secret now route m machine n conn ws ks
                  (rw (decide, named, found) at h) in
              (
                route,
                (not_empty_iff sub).0 named,
                rw (same_machine, same_conn) found,
                typed,
                allowed,
                upgrade,
              )
        ]
      ],
      λ (route, named, found, typed, allowed, upgrade).
          rw (decide, (not_empty_iff sub).1 named, found)
            (guard_route_allowed c r secret now route machine conn ks typed allowed
              ∙ ap (λ w. proxy w machine conn ks) (sym upgrade)),
    )

-- A request that reaches a machine over a route whose auth block passed the client's validation carries
-- the bearer token of the block, or its value in its header, or a session cookie that verifySession
-- takes.
pub decide-protected :
    (c : Crypto) (clients : Clients) (secret : Bytes) (now : ℕ) (r : Request) (ws : Bool)
    (machine : Bytes) (conn : ℕ) (ks : List Cookie) (route : RouteInfo) (a : Auth)
    → decide c clients secret now r ≡ proxy ws machine conn ks
    → find_route (extract_subdomain r.host) clients ≡ some (route, machine, conn)
    → route.auth ≡ auth_to_wire (some a)
    → validate (some a) ≡ none
    → Carries a r.header
      ⊎ ((value : Bytes) × (cookie_value session_cookie r.cookies ≡ some value)
          × (verify_session c value secret now ≢ []))
decide-protected c clients secret now r ws machine conn ks route a h found wire valid =
    let (route', named, found', typed, allowed, upgrade) =
      (decide_proxy_iff c clients secret now r ws machine conn ks).0 h in
    let same : route' ≡ route = cc in
    protected c secret now r route a ks wire valid
      (subst (λ t. IsAllowed c secret now r t ks) same allowed)
