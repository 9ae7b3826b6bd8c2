-- ===== src/Server/Routes/Tests.antt =====
-- Runs of the route table, and its theorems at concrete inputs.
use mathlib.Core.Path.{subst}
use etunl_cli.Base.{◌≡◌, refl, none, some, [], ◌∷◌}
use etunl_cli.Base.Bytes.{Bytes, codes, bytes_eq, bytes_is_eq}
use etunl_cli.Base.Dict.{lookup, insert}
use etunl_cli.Base.Int.{pos}
use etunl_cli.Tunnel.Auth.{RouteInfo}
use etunl_cli.Server.Routes.{
  ClientEntry, Clients, first_route, find_owner, has_route, rejected, accept_routes, set_routes,
  sync_routes, register,
}
use etunl_cli.Server.Routes.Ownership.{IsOwned, Step, Reach, Reach-IsOwned}

abbrev lab : Bytes
lab = codes "lab"

abbrev app : RouteInfo
app = record { name = codes "app"; type = codes "http"; local_port = pos 0; auth = none }

abbrev lab_entry : ClientEntry
lab_entry = record { machine_name = lab; conn = 7; routes = app ∷ []; remote_addr = [] }

abbrev table : Clients
table = (lab, lab_entry) ∷ []

lab_connects : Reach [] (register lab 7 [] []).0
lab_connects = Reach.next Reach.here (Step.connects lab 7 [] (λ e. cc))

lab_syncs : Reach [] (sync_routes lab 7 (some (app ∷ [])) (register lab 7 [] []).0)
lab_syncs = Reach.next lab_connects (Step.syncs lab 7 (some (app ∷ [])))

Reach-IsOwned_example : IsOwned (sync_routes lab 7 (some (app ∷ [])) (register lab 7 [] []).0)
Reach-IsOwned_example = Reach-IsOwned lab_syncs

table_reached : sync_routes lab 7 (some (app ∷ [])) (register lab 7 [] []).0 ≡ table
unfolding register insert sync_routes set_routes lookup bytes_eq accept_routes rejected find_owner
    has_route first_route
table_reached = refl

table-IsOwned : IsOwned table
table-IsOwned = subst IsOwned table_reached (Reach-IsOwned lab_syncs)

lab_at : lookup lab table ≡ some lab_entry
unfolding lookup bytes_eq
lab_at = refl
