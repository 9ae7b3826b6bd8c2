-- ===== src/Config/Routes/Tests.antt =====
-- Routes added and removed.
use etunl_cli.Base.{◌≡◌, refl, none, [], ◌∷◌, ok}
use etunl_cli.Base.Bytes.{codes, bytes_eq}
use etunl_cli.Base.Int.{pos}
use etunl_cli.Config.Auth.{Route}
use etunl_cli.Config.Routes.{ClientConfig, with_routes, find_in, add_route, remove_route}
use etunl_cli.Config.Routes.Editing.{NodupNames}

abbrev web : Route
web = record {
  name = codes "web";
  type = codes "http";
  target = codes "localhost:3000";
  local_port = pos 0;
  auth = none;
}

abbrev db : Route
db = record {
  name = codes "db";
  type = codes "tcp";
  target = codes "localhost:5432";
  local_port = pos 5432;
  auth = none;
}

abbrev one : ClientConfig
one = record { server = codes "s"; token = codes "t"; machine_name = codes "m"; routes = web ∷ [] }

abbrev two : ClientConfig
two = with_routes one (web ∷ db ∷ [])

unique : NodupNames two.routes
unfolding find_in bytes_eq
unique = (refl, (refl, tt))

added : add_route one db ≡ ok two
unfolding add_route find_in bytes_eq
added = refl

removed : remove_route two (codes "db") ≡ ok one
unfolding remove_route bytes_eq
removed = refl
