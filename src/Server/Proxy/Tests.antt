-- ===== src/Server/Proxy/Tests.antt =====
-- A request for a guarded route, and the theorems at this input.
use etunl_cli.Base.{◌≡◌, ◌≢◌, ◌⊎◌, ◌↔◌, refl, true, false, none, some, [], ◌∷◌, if◌then◌else◌}
use etunl_cli.Base.Bytes.{Bytes, codes, bytes_eq, cut_first, cut_last, cut_prefix}
use etunl_cli.Base.Int.{pos}
use etunl_cli.Config.Auth.{Auth, validate}
use etunl_cli.Client.Wire.{auth_to_wire}
use etunl_cli.Client.Wire.Protection.{Carries}
use etunl_cli.Tunnel.Auth.{RouteInfo, check, has_session}
use etunl_cli.Server.Session.{verify_session}
use etunl_cli.Server.Session.Hex.{hex}
use etunl_cli.Server.Http.{Request, extract_subdomain, strip_port, is_websocket_upgrade, equal_fold}
use etunl_cli.Server.Login.{session_cookie, cookie_value}
use etunl_cli.Server.Routes.{Clients, find_route, first_route}
use etunl_cli.Server.Proxy.{proxy, http, decide}
use etunl_cli.Server.Proxy.Guard.{IsAllowed, decide_proxy_iff, decide-protected}

abbrev token_auth : Auth
token_auth = record { bearer = codes "tok"; header = []; value = []; users = [] }

abbrev web : RouteInfo
web = record {
  name = codes "app";
  type = codes "http";
  local_port = pos 0;
  auth = auth_to_wire (some token_auth);
}

abbrev machines : Clients
machines =
    (
      codes "box",
      record {
        machine_name = codes "box";
        conn = 7;
        routes = web ∷ [];
        remote_addr = codes "1.2.3.4:5";
      },
    )
    ∷ []

abbrev headers : Bytes → Bytes
headers n = if bytes_eq n (codes "Authorization") then codes "Bearer tok" else []

abbrev visit : Request
visit = record {
  method = codes "GET";
  host = codes "app.x.io:443";
  path = codes "/";
  request_uri = codes "/";
  query_redirect = [];
  cookies = [];
  form = none;
  tls = true;
  header = headers;
  connection = [];
  basic_auth = none;
  body = some [];
}

found_web : find_route (extract_subdomain visit.host) machines ≡ some (web, codes "box", 7)
unfolding find_route first_route extract_subdomain bytes_eq cut_first cut_last
found_web = refl

visit-IsAllowed : IsAllowed hex (codes "k") 1000 visit web []
unfolding has_session check auth_to_wire cut_prefix bytes_eq
visit-IsAllowed = IsAllowed.by_header refl refl refl

not_websocket : false ≡ is_websocket_upgrade visit
unfolding is_websocket_upgrade equal_fold bytes_eq
not_websocket = refl

decide_proxy_iff_example :
    (decide hex machines (codes "k") 1000 visit ≡ proxy false (codes "box") 7 []) ↔ (
      (route : RouteInfo) × (extract_subdomain visit.host ≢ [])
      × (find_route (extract_subdomain visit.host) machines ≡ some (route, codes "box", 7))
      × (route.type ≡ http)
      × IsAllowed hex (codes "k") 1000 visit route []
      × (false ≡ is_websocket_upgrade visit))
decide_proxy_iff_example =
    decide_proxy_iff hex machines (codes "k") 1000 visit false (codes "box") 7 []

visit_named : extract_subdomain visit.host ≢ []
unfolding extract_subdomain strip_port cut_first cut_last
visit_named h = cc

visit_proxied : decide hex machines (codes "k") 1000 visit ≡ proxy false (codes "box") 7 []
visit_proxied =
    (decide_proxy_iff hex machines (codes "k") 1000 visit false (codes "box") 7 []).1
      (web, visit_named, found_web, refl, visit-IsAllowed, not_websocket)

token_valid : validate (some token_auth) ≡ none
unfolding validate
token_valid = refl

decide-protected_example :
    Carries token_auth headers
    ⊎ ((value : Bytes) × (cookie_value session_cookie [] ≡ some value)
        × (verify_session hex value (codes "k") 1000 ≢ []))
decide-protected_example =
    decide-protected hex machines (codes "k") 1000 visit false (codes "box") 7 [] web token_auth
      visit_proxied found_web refl token_valid
