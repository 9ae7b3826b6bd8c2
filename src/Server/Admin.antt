-- ===== src/Server/Admin.antt =====
-- internal/server/admin.go: the API of the admin panel. Decoding JSON, the new token and the writing of
-- the configuration file are arguments. A call runs without the steps of another between its own, but
-- for the credentials: `seen` is the configuration when they were read, the state is the one when the
-- handler goes on. Times and the encoding of the answers are left out.
pub mod Gate
pub mod Change
pub mod Setup
pub mod Domain
mod Tests
use etunl_cli.Base.{
  ℕ, Bool, true, false, not, ◌&&◌, ◌||◌, Option, none, some, List, [], ◌∷◌, ◌++◌, length, ltb, ◌=?◌,
  if◌then◌else◌,
}
use etunl_cli.Base.Bytes.{Bytes, codes, bytes_is_eq, is_empty, cut_prefix}
use etunl_cli.Base.Int.{ℤ}
use etunl_cli.Base.Space.{trim_space}
use etunl_cli.Config.Server.{ServerConfig}
use etunl_cli.Config.Files.{Saving, SaveError, save_config}
use etunl_cli.Tunnel.Auth.{RouteInfo, scheme}
use etunl_cli.Server.Http.{Request, Response, http_error, strip_port}
use etunl_cli.Server.Routes.{ClientEntry, Clients}
use etunl_cli.Server.Ports.{Listeners}
use etunl_cli.Server.Metrics.{Registry}

-- `routeView`
pub record RouteView : Type 0 where
  pub name : Bytes
  pub type : Bytes
  pub local_port : ℤ
  pub auth : Bytes

-- `redactRouteInfos`
unfoldable pub redact_route_infos : List RouteInfo → List RouteView
redact_route_infos [] = []
redact_route_infos (r ∷ rs) =
    record { name = r.name; type = r.type; local_port = r.local_port; auth = scheme r.auth }
    ∷ redact_route_infos rs

-- `derivePublicDomain`
pub derive_public_domain : Bytes → Bytes → Bytes
derive_public_domain host admin_sub =
    let host' = strip_port host in
    elim (cut_prefix (admin_sub ++ b'.' ∷ []) host') [ none ↦ host' | some domain ↦ domain ]

pub record MachineView : Type 0 where
  pub machine_name : Bytes
  pub remote_addr : Bytes
  pub routes : List RouteView

-- The machines that adminStatus lists.
pub machine_views : Clients → List MachineView
unfolding redact_route_infos
machine_views [] = []
machine_views ((m, e) ∷ d) =
    record {
      machine_name = e.machine_name;
      remote_addr = e.remote_addr;
      routes = redact_route_infos e.routes;
    }
    ∷ machine_views d

-- What adminStatus answers with.
pub record Status : Type 0 where
  pub machines : List MachineView
  pub tcp_ports : Listeners
  pub token : Bytes
  pub public_domain : Bytes

-- The fields of the Server that the panel reads and writes, and the bytes of the configuration file.
pub record Panel : Type 0 where
  pub cfg : ServerConfig
  pub file : Option Bytes
  pub clients : Clients
  pub tcp_listeners : Listeners
  pub metrics : Registry

pub data Reply : Type 0 where
  page setup_required created : Reply
  failed : Response → Reply
  status : Status → Reply
  metrics_of : Registry → Reply
  token : Bytes → Reply

-- What the handlers take from outside: json.Unmarshal of the body into a user and a password,
-- GenerateToken, and the calls of SaveServerConfig.
pub record Outside : Type 0 where
  pub unmarshal : Bytes → Option (Bytes × Bytes)
  pub new_token : Option Bytes
  pub saving : Saving ServerConfig

abbrev pub is_configured : ServerConfig → Bool
is_configured c = not (is_empty c.admin_user || is_empty c.admin_password)

abbrev pub with_admin : Bytes → Bytes → Panel → Panel
with_admin user password p = record p {
  cfg = record p.cfg { admin_user = user; admin_password = password };
}

abbrev pub already_configured : Reply
already_configured = failed (http_error 409 (codes "admin already configured"))

-- The text of the error is left out.
abbrev pub not_saved : Reply
not_saved = failed (http_error 500 (codes "save config: "))

-- adminSetup behind SaveServerConfig: an error empties the credentials again.
pub after_setup : Panel → Option Bytes × Option SaveError → Panel × Reply
after_setup p (file, none) = (record p { file = file }, created)
after_setup p (file, some e) = (with_admin [] [] (record p { file = file }), not_saved)

-- adminSetup from where it takes the lock.
pub set_admin : Outside → Bytes → Bytes → Panel → Panel × Reply
unfolding save_config after_setup
set_admin o user password p =
    let p' = with_admin user password p in
    if is_configured p.cfg
    then (p, already_configured)
    else after_setup p' (save_config o.saving p'.cfg p'.file)

abbrev pub bad_request : Bytes → Reply
bad_request message = failed (http_error 400 message)

-- `adminSetup` behind the decoding of the body
pub checked_setup : Outside → Bytes → Bytes → Panel → Panel × Reply
unfolding set_admin
checked_setup o user password p =
    if is_empty (trim_space user)
    then (p, bad_request (codes "username is required"))
    else if ltb (length password) 8
    then (p, bad_request (codes "password must be at least 8 characters"))
    else set_admin o (trim_space user) password p

pub decoded_setup : Outside → Option (Bytes × Bytes) → Panel → Panel × Reply
unfolding checked_setup
decoded_setup o none p = (p, bad_request (codes "invalid JSON"))
decoded_setup o (some (user, password)) p = checked_setup o user password p

abbrev pub method_not_allowed : Reply
method_not_allowed = failed (http_error 405 (codes "method not allowed"))

-- `adminSetup`
pub admin_setup : Outside → Request → Panel → Panel × Reply
unfolding decoded_setup
admin_setup o r p =
    if not (r.method =? codes "POST") then (p, method_not_allowed) else elim r.body [
      | none ↦ (p, bad_request (codes "bad request"))
      | some body ↦ decoded_setup o (o.unmarshal body) p
    ]

-- `adminStatus`
pub admin_status : Request → Panel → Reply
unfolding machine_views derive_public_domain
admin_status r p = status (record {
  machines = machine_views p.clients;
  tcp_ports = p.tcp_listeners;
  token = p.cfg.token;
  public_domain = derive_public_domain r.host p.cfg.admin_subdomain;
})

abbrev pub with_token : Bytes → Panel → Panel
with_token new p = record p { cfg = record p.cfg { token = new } }

-- adminRotateToken behind SaveServerConfig: the new token stays in force, whatever the outcome is.
pub after_rotation : Bytes → Panel → Option Bytes × Option SaveError → Panel × Reply
after_rotation new_token p (file, none) = (record p { file = file }, token new_token)
after_rotation new_token p (file, some e) = (record p { file = file }, not_saved)

-- adminRotateToken behind GenerateToken.
pub set_token : Outside → Bytes → Panel → Panel × Reply
unfolding save_config after_rotation
set_token o new_token p =
    let p' = with_token new_token p in
    after_rotation new_token p' (save_config o.saving p'.cfg p'.file)

-- `adminRotateToken`, with the text of the errors left out
pub admin_rotate_token : Outside → Request → Panel → Panel × Reply
unfolding set_token
admin_rotate_token o r p =
    if not (r.method =? codes "POST") then (p, method_not_allowed) else elim o.new_token [
      | none ↦ (p, failed (http_error 500 []))
      | some new_token ↦ set_token o new_token p
    ]

-- The basic auth of the request against the credentials.
pub is_admin : ServerConfig → Request → Bool
is_admin c r = elim r.basic_auth [
  | none ↦ false
  | some (user, password) ↦ user =? c.admin_user && password =? c.admin_password
]

abbrev pub admin_realm : Response
admin_realm = record (http_error 401 (codes "unauthorized")) {
  www_authenticate = some (codes "Basic realm=\"etunl admin\"");
}

-- The `switch` at the end of handleAdmin.
pub admin_api : Outside → Request → Panel → Panel × Reply
unfolding admin_status admin_rotate_token
admin_api o r p =
    if r.path =? codes "/api/status"
    then (p, admin_status r p)
    else if r.path =? codes "/api/metrics"
    then (p, metrics_of p.metrics)
    else if r.path =? codes "/api/rotate-token"
    then admin_rotate_token o r p
    else (p, failed (http_error 404 (codes "404 page not found")))

-- "admin not yet configured - visit / to set up", with U+2014 for the dash
abbrev not_configured : Bytes
not_configured =
    codes "admin not yet configured " ++ 0xe2 ∷ 0x80 ∷ 0x94 ∷ codes " visit / to set up"

-- handleAdmin behind `/api/setup`.
pub admin_behind_setup : Outside → ServerConfig → Request → Panel → Panel × Reply
unfolding is_admin admin_api
admin_behind_setup o seen r p =
    if r.path =? codes "/api/status" && not (is_configured seen)
    then (p, setup_required)
    else if not (is_configured seen)
    then (p, failed (http_error 503 not_configured))
    else if not (is_admin seen r)
    then (p, failed admin_realm)
    else admin_api o r p

-- `handleAdmin`
unfoldable pub handle_admin : Outside → ServerConfig → Request → Panel → Panel × Reply
unfolding admin_setup admin_behind_setup
handle_admin o seen r p =
    if r.path =? codes "/" || r.path =? codes "/index.html"
    then (p, page)
    else if r.path =? codes "/api/setup"
    then if is_configured seen then (p, already_configured) else admin_setup o r p
    else admin_behind_setup o seen r p
