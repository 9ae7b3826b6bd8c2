-- ===== src/Client/Dashboard.antt =====
-- internal/client/dashboard.go: the routes that the dashboard shows and edits. Decoding JSON and the
-- writing of the configuration file are arguments. The handlers edit the configuration of the watcher
-- in place. The path is the one that http.ServeMux has cleaned.
pub mod Editing
mod Tests
use etunl_cli.Base.{
  ℕ, Bool, true, false, not, ◌||◌, Option, none, some, List, [], ◌∷◌, ◌++◌, Result, ok, err, length,
  ◌=?◌, if◌then◌else◌,
}
use etunl_cli.Base.Bytes.{Bytes, codes, bytes_is_eq, is_empty, cut_prefix}
use etunl_cli.Base.Int.{ℤ}
use etunl_cli.Config.Auth.{Route, Auth, AuthUser, ConfigError, none_given, http, validate}
use etunl_cli.Config.Files.{Saving, SaveError, save_config}
use etunl_cli.Config.Routes.{ClientConfig, add_route, remove_route}
use etunl_cli.Server.Http.{Request}

-- `routeView`
pub record RouteView : Type 0 where
  pub name : Bytes
  pub type : Bytes
  pub target : Bytes
  pub local_port : ℤ
  pub auth : Bytes

auth_label : Option Auth → Bytes
auth_label none = []
auth_label (some a) =
    if not (is_empty a.bearer)
    then codes "bearer"
    else if not (none_given a.users)
    then codes "session"
    else a.header

-- `redactRoutes`
pub redact_routes : List Route → List RouteView
unfolding auth_label
redact_routes [] = []
redact_routes (r ∷ rs) =
    record {
      name = r.name;
      type = r.type;
      target = r.target;
      local_port = r.local_port;
      auth = auth_label r.auth;
    }
    ∷ redact_routes rs

-- The configuration of the watcher, and the bytes of the configuration file.
pub record Board : Type 0 where
  pub cfg : ClientConfig
  pub file : Option Bytes
  pub connected : Bool

pub record Outside : Type 0 where
  pub unmarshal : Bytes → Option Route
  pub saving : Saving ClientConfig
  pub hostname : Bytes

pub record Status : Type 0 where
  pub tunnel_connected : Bool
  pub routes : ℕ
  pub server : Bytes
  pub machine_name : Bytes

-- A text of an error that another package makes is left out.
pub data Reply : Type 0 where
  page created done unauthorized : Reply
  status : Status → Reply
  routes : List RouteView → Reply
  failed : (code : ℕ) → Reply

after_save : Board → Reply → Option Bytes × Option SaveError → Board × Reply
after_save b reply (file, none) = (record b { file = file }, reply)
after_save b reply (file, some e) = (record b { file = file }, failed 500)

-- SaveClientConfig behind a change of the configuration, which stays whatever the outcome is.
saved : Outside → Board → Reply → Board × Reply
unfolding save_config after_save
saved o b reply = after_save b reply (save_config o.saving b.cfg b.file)

abbrev or_http : Route → Route
or_http r = record r { type = if is_empty r.type then http else r.type }

-- The checks of the auth block.
pub auth_allowed : Route → Bool
auth_allowed r = elim r.auth [
  | none ↦ true
  | some a ↦
      if not (r.type =? http)
      then false
      else elim (validate (some a)) [ none ↦ true | some e ↦ false ]
]

insert_route : Outside → Route → Board → Board × Reply
unfolding saved
insert_route o r b = elim (add_route b.cfg r) [
  | err e ↦ (b, failed 409)
  | ok cfg ↦ saved o (record b { cfg = cfg }) created
]

checked_post : Outside → Route → Board → Board × Reply
unfolding insert_route auth_allowed
checked_post o r b = if not (auth_allowed r) then (b, failed 400) else insert_route o r b

decoded_post : Outside → Option Route → Board → Board × Reply
unfolding checked_post
decoded_post o none b = (b, failed 400)
decoded_post o (some r) b =
    if is_empty r.name || is_empty r.target then (b, failed 400) else checked_post o (or_http r) b

-- A POST to `/api/routes`.
pub post_route : Outside → Request → Board → Board × Reply
unfolding decoded_post
post_route o r b = elim r.body [
  | none ↦ (b, failed 400)
  | some body ↦ decoded_post o (o.unmarshal body) b
]

-- `/api/routes`
pub api_routes : Outside → Request → Board → Board × Reply
unfolding redact_routes post_route
api_routes o r b =
    if r.method =? codes "GET"
    then (b, routes (redact_routes b.cfg.routes))
    else if r.method =? codes "POST"
    then post_route o r b
    else (b, failed 405)

deleted : Outside → Bytes → Board → Board × Reply
unfolding saved
deleted o name b = elim (remove_route b.cfg name) [
  | err e ↦ (b, failed 404)
  | ok cfg ↦ saved o (record b { cfg = cfg }) done
]

-- `/api/routes/` with the name behind it
pub api_route : Outside → Request → Bytes → Board → Board × Reply
unfolding deleted
api_route o r name b =
    if not (r.method =? codes "DELETE")
    then (b, failed 405)
    else if is_empty name
    then (b, failed 400)
    else deleted o name b

-- `/api/status`
pub api_status : Outside → Board → Reply
api_status o b = status (record {
  tunnel_connected = b.connected;
  routes = length b.cfg.routes;
  server = b.cfg.server;
  machine_name = if is_empty b.cfg.machine_name then o.hostname else b.cfg.machine_name;
})

-- The handlers of startDashboard, behind basicAuth.
pub serve_board : Outside → Request → Board → Board × Reply
unfolding api_routes api_route api_status
serve_board o r b =
    if r.path =? codes "/api/status"
    then (b, api_status o b)
    else if r.path =? codes "/api/routes"
    then api_routes o r b
    else elim (cut_prefix (codes "/api/routes/") r.path) [
      | some name ↦ api_route o r name b
      | none ↦ (b, page)
    ]

-- The password of the request is the token.
pub knows_token : ClientConfig → Request → Bool
knows_token c r = elim r.basic_auth [ none ↦ false | some (user, password) ↦ password =? c.token ]

-- `basicAuth` around the handlers
pub handle_board : Outside → Request → Board → Board × Reply
unfolding knows_token serve_board
handle_board o r b = if not (knows_token b.cfg r) then (b, unauthorized) else serve_board o r b
