-- ===== src/Client/Agent/Tests.antt =====
-- A file that is changed twice, and a client at the door of the server.
use etunl_cli.Base.{
  replicate, ◌≡◌, refl, false, none, some, List, [], ◌∷◌, ◌++◌, ok, err, if◌then◌else◌,
}
use etunl_cli.Base.Bytes.{Bytes, codes, bytes_eq, bytes_is_eq}
use etunl_cli.Base.Int.{pos}
use etunl_cli.Config.Routes.{ClientConfig, unparsable}
use etunl_cli.Config.Server.{ServerConfig}
use etunl_cli.Server.Http.{Request}
use etunl_cli.Client.Agent.{
  Agent, Marshal, Round, Event, changed, other_event, watch, hello, new_conn,
}
use etunl_cli.Client.Agent.Reloading.{accepted, latest, watch-current}
use etunl_cli.Client.Agent.Greeting.{Carries}

abbrev config : ClientConfig
config = record { server = codes "s"; token = codes "t"; machine_name = []; routes = [] }

abbrev next : ClientConfig
next = record config {
  routes =
      record {
        name = codes "app";
        type = codes "http";
        target = codes "localhost:3000";
        local_port = pos 0;
        auth = none;
      }
      ∷ [];
}

abbrev agent : Agent
agent = record { current = config; local_routes = []; conn = some new_conn }

-- A stand-in for json.Marshal that writes the number of routes.
abbrev count : Marshal
count routes = some (codes "routes")

abbrev events : List Event
events = changed (err unparsable) ∷ other_event ∷ changed (ok next) ∷ []

watch-current_example :
    let a' = watch count events agent in
    (a'.current ≡ latest config (accepted events)) × (a'.local_routes ≡ a'.current.routes)
watch-current_example = watch-current count events agent refl

abbrev server : ServerConfig
server = record {
  listen_http = codes ":80";
  tcp_port_range = codes "15000-15100";
  token = codes "t";
  session_secret = codes "s";
  admin_subdomain = codes "manage";
  admin_user = [];
  admin_password = [];
}

abbrev headers : Bytes → Bytes
headers n = if bytes_eq n (codes "Authorization") then codes "Bearer " ++ codes "t" else codes "box"

abbrev dial : Request
dial = record {
  method = codes "GET";
  host = codes "s";
  path = codes "/tunnel";
  request_uri = codes "/tunnel";
  query_redirect = [];
  cookies = [];
  form = none;
  tls = false;
  header = headers;
  connection = [];
  basic_auth = none;
  body = some [];
}

dial-Carries : Carries (hello config (codes "box")) dial
unfolding hello bytes_eq
dial-Carries = record { authorization = refl; machine_name = refl }

-- A server that cannot be reached.
abbrev unreachable : Round
unreachable = record { dialed = false; meanwhile = []; reading = λ c. c; later = [] }

abbrev rounds : List Round
rounds = replicate 34 unreachable
