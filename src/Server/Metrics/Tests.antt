-- ===== src/Server/Metrics/Tests.antt =====
-- A connection of a route that was seen before.
use etunl_cli.Base.{◌≡◌, refl, [], ◌∷◌}
use etunl_cli.Base.Bytes.{Bytes, codes, bytes_is_eq, bytes_eq}
use etunl_cli.Base.Dict.{lookup, insert}
use etunl_cli.Server.Metrics.{Registry, RouteMetrics, new_metrics, open_conn}
use etunl_cli.Server.Metrics.Counters.{tally_of}

abbrev app : Bytes
app = codes "app"

abbrev seen : RouteMetrics
seen = new_metrics 1000 (codes "m") app (codes "tcp")

abbrev reg : Registry
reg = (app, seen) ∷ []

opened_run : (tally_of app (open_conn 1001 (codes "m") app (codes "tcp") reg)).active ≡ 1
unfolding tally_of open_conn lookup insert bytes_eq
opened_run = refl
