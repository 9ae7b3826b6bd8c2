-- ===== src/Cli/Tests.antt =====
-- A route that is added and removed on the command line, and the theorem at this input.
use etunl_cli.Base.{◌≡◌, refl, true, none, [], ◌∷◌, ok}
use etunl_cli.Base.Bytes.{codes}
use etunl_cli.Base.Int.{pos}
use etunl_cli.Config.Routes.{ClientConfig, add_route}
use etunl_cli.Config.Routes.Checking.{IsLoadable}
use etunl_cli.Cli.{add_cmd, connect_cmd}

abbrev config : ClientConfig
config = record { server = codes "s"; token = codes "t"; machine_name = codes "m"; routes = [] }

abbrev with_db : ClientConfig
with_db = record config {
  routes =
      record {
        name = codes "db";
        type = codes "tcp";
        target = codes "localhost:5432";
        local_port = pos 5432;
        auth = none;
      }
      ∷ [];
}

add_run :
    add_cmd (ok config) (codes "db") (codes "tcp") (codes "localhost:5432") (pos 5432) (λ c. true)
    ≡ ok with_db
unfolding add_cmd add_route
add_run = refl

-- The options that the flags leave out come from the file.
connect_run :
    connect_cmd
      (ok config)
      (record { server = []; token = []; route_name = codes "db"; local_port = pos 1 })
    ≡ ok (record {
      server = codes "s";
      token = codes "t";
      route_name = codes "db";
      local_port = pos 1;
    })
unfolding connect_cmd
connect_run = refl

config-IsLoadable : IsLoadable config
config-IsLoadable = record { nodup = tt; valid = tt }
