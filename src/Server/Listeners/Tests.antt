-- ===== src/Server/Listeners/Tests.antt =====
-- syncTCPListeners at concrete inputs.
use etunl_cli.Base.{ℕ, ◌≡◌, ◌↔◌, Bool, true, none, [], ◌∷◌, arith}
use etunl_cli.Base.Bytes.{Bytes, codes, bytes_eq, bytes_is_eq}
use etunl_cli.Base.Dict.{contains, lookup-nil}
use etunl_cli.Base.Int.{pos}
use etunl_cli.Tunnel.Auth.{RouteInfo}
use etunl_cli.Server.Routes.{Clients}
use etunl_cli.Server.Ports.{PortRange}
use etunl_cli.Server.Listeners.{claims_tcp, sync_tcp_listeners}
use etunl_cli.Server.Listeners.Syncing.{IsAllocated, IsSynced, sync-IsSynced}

abbrev always : ℕ → Bool
always port = true

abbrev two_ports : PortRange
two_ports = record { start = 15000; end = 15002 }

abbrev db : RouteInfo
db = record { name = codes "db"; type = codes "tcp"; local_port = pos 5432; auth = none }

abbrev table : Clients
table =
    (
      codes "lab",
      record { machine_name = codes "lab"; conn = 7; routes = db ∷ []; remote_addr = [] },
    )
    ∷ []

none-IsAllocated : IsAllocated two_ports []
none-IsAllocated = record {
  once = tt;
  apart = λ n m p at at'. absurd (cc (lookup-nil {V = ℕ} n));
  within = λ n p at. absurd (cc (lookup-nil {V = ℕ} n));
}

db_is_the_key : (n : Bytes) → (contains n (codes "db" ∷ []) ≡ true) ↔ (claims_tcp table n ≡ true)
unfolding claims_tcp bytes_eq
db_is_the_key n = ground arith

sync-IsSynced_example :
    IsSynced always two_ports table []
      (sync_tcp_listeners always two_ports (codes "db" ∷ []) table [])
sync-IsSynced_example =
    sync-IsSynced always two_ports (codes "db" ∷ []) table [] (omega arith) none-IsAllocated
      db_is_the_key
