-- ===== src/Cli.antt =====
-- cmd/etunl/main.go: what the commands do to the configuration files, and the options that `connect`
-- runs with. cobra, the random bytes of a token, os.Hostname and the files are arguments; what is
-- printed is left out, but for the rows of `list`.
pub mod Files
pub mod Running
mod Tests
use etunl_cli.Base.{
  ℕ, Bool, true, false, not, ◌&&◌, ◌||◌, Option, none, some, List, [], ◌∷◌, ◌++◌, Result, ok, err,
  ◌=?◌, if◌then◌else◌,
}
use etunl_cli.Base.Bytes.{Bytes, codes, bytes_is_eq, is_empty}
use etunl_cli.Base.Int.{ℤ, pos, ltb_ℤ, leb_ℤ}
use etunl_cli.Base.Decimal.{format_int}
use etunl_cli.Config.Auth.{Route, http}
use etunl_cli.Config.Routes.{ClientConfig, RouteError, LoadError, add_route, remove_route}
use etunl_cli.Config.Server.{ServerConfig}

pub data CliError : Type 0 where
  no_random not_saved missing_options : CliError
  not_loaded : LoadError → CliError
  not_edited : RouteError → CliError

-- `init --mode server`: the configuration that is saved.
pub init_server : Bytes → ServerConfig
init_server token = record {
  listen_http = codes ":80";
  tcp_port_range = codes "15000-15100";
  token = token;
  session_secret = [];
  admin_subdomain = [];
  admin_user = [];
  admin_password = [];
}

abbrev admin_route : Route
admin_route = record {
  name = codes "admin";
  type = codes "http";
  target = codes "localhost:8080";
  local_port = pos 0;
  auth = none;
}

-- `init` for the client: the configuration that is saved.
pub init_client : Bytes → Bytes → Bytes → ClientConfig
init_client server_addr hostname token = record {
  server = if is_empty server_addr then codes "tunnel.yourdomain.com" else server_addr;
  token = token;
  machine_name = if is_empty hostname then codes "client" else hostname;
  routes = admin_route ∷ [];
}

pub data Saved : Type 0 where
  server_file : ServerConfig → Saved
  client_file : ClientConfig → Saved

-- The command line of `init`: its argument and its flags.
pub record InitArgs : Type 0 where
  pub token : Option Bytes
  pub server_addr : Bytes
  pub mode : Bytes

init_file : InitArgs → Bytes → Bytes → Saved
unfolding init_server init_client
init_file a hostname token =
    if a.mode =? codes "server"
    then server_file (init_server token)
    else client_file (init_client a.server_addr hostname token)

saved_as : (Saved → Bool) → Saved → Result CliError Saved
saved_as save f = if save f then ok f else err not_saved

-- `initCmd`; `random` is the hexadecimal text of 32 random bytes, `none` where there are none.
pub init_cmd : InitArgs → Option Bytes → Bytes → (Saved → Bool) → Result CliError Saved
unfolding init_file saved_as
init_cmd a random hostname save = elim a.token [
  | some token ↦ saved_as save (init_file a hostname token)
  | none ↦ elim random [
    | none ↦ err no_random
    | some token ↦ saved_as save (init_file a hostname token)
  ]
]

edited : (ClientConfig → Bool) → Result RouteError ClientConfig → Result CliError ClientConfig
edited save (err e) = err (not_edited e)
edited save (ok cfg) = if save cfg then ok cfg else err not_saved

-- `addCmd`, over what LoadClientConfig gives; the result is the configuration that is saved.
pub add_cmd :
    Result LoadError ClientConfig
    → (name type target : Bytes) (local_port : ℤ) → (ClientConfig → Bool)
    → Result CliError ClientConfig
unfolding edited
add_cmd (err e) name type target local_port save = err (not_loaded e)
add_cmd (ok cfg) name type target local_port save = edited save (
    add_route cfg
      (record { name = name; type = type; target = target; local_port = local_port; auth = none }))

-- `removeCmd`
pub remove_cmd :
    Result LoadError ClientConfig → Bytes → (ClientConfig → Bool) → Result CliError ClientConfig
unfolding edited
remove_cmd (err e) name save = err (not_loaded e)
remove_cmd (ok cfg) name save = edited save (remove_route cfg name)

-- The columns of a row of `list`.
pub record Row : Type 0 where
  pub name : Bytes
  pub type : Bytes
  pub target : Bytes
  pub local_port : Bytes

port_column : ℤ → Bytes
port_column (pos n) = if ltb_ℤ (pos 0) (pos n) then format_int n else codes "-"
port_column port = codes "-"

rows : List Route → List Row
unfolding port_column
rows [] = []
rows (r ∷ rs) =
    record {
      name = r.name;
      type = r.type;
      target = r.target;
      local_port = port_column r.local_port;
    }
    ∷ rows rs

-- `listCmd`
pub list_cmd : Result LoadError ClientConfig → Result CliError (List Row)
unfolding rows
list_cmd (err e) = err (not_loaded e)
list_cmd (ok cfg) = ok (rows cfg.routes)

-- `connect.Options`
pub record Options : Type 0 where
  pub server : Bytes
  pub token : Bytes
  pub route_name : Bytes
  pub local_port : ℤ

-- The defaults that connectCmd takes from the file, which need not be there.
pub defaulted : Result LoadError ClientConfig → Options → Options
defaulted (err e) o = o
defaulted (ok cfg) o = record o {
  server = if is_empty o.server then cfg.server else o.server;
  token = if is_empty o.token then cfg.token else o.token;
}

is_zero : ℤ → Bool
is_zero n = leb_ℤ n (pos 0) && leb_ℤ (pos 0) n

-- `connectCmd` up to connect.Run
pub connect_cmd : Result LoadError ClientConfig → Options → Result CliError Options
unfolding defaulted is_zero
connect_cmd file o =
    let full = if is_empty o.server || is_empty o.token then defaulted file o else o in
    if is_empty full.server
      || is_empty full.token
      || is_empty full.route_name
      || is_zero full.local_port
    then err missing_options
    else ok full
