-- ===== src/Client/Agent/Greeting.antt =====
-- The client at the door of the server: internal/client/client.go against internal/server/server.go.
use etunl_cli.Base.{ℕ, ◌≡◌, ◌∙◌, ap, true, false, some, [], ◌++◌, nat_eq}
use etunl_cli.Base.Bytes.{Bytes, codes, bytes_is_eq, is_empty}
use etunl_cli.Base.Dict.{lookup}
use etunl_cli.Config.Server.{ServerConfig}
use etunl_cli.Config.Routes.{ClientConfig}
use etunl_cli.Server.Http.{Request}
use etunl_cli.Server.Routes.{Clients}
use etunl_cli.Server.Endpoint.{registered, handle_tunnel}
use etunl_cli.Server.Endpoint.Tokens.{handle_tunnel-admit, admit-registered}
use etunl_cli.Client.Agent.{Hello, hello, machine_name_of}

-- The request carries the headers of the client's dial.
pub record Carries (h : Hello) (r : Request) : Type 0 where
  pub authorization : r.header (codes "Authorization") ≡ h.authorization
  pub machine_name : r.header (codes "X-Machine-Name") ≡ h.machine_name

-- A client that has a machine name and the token of the server is registered under that name, with
-- its new connection and no routes yet.
pub hello-registered :
    (c : ServerConfig) (cfg : ClientConfig) (hostname : Bytes) (r : Request) (addr : Bytes)
    (conn : ℕ) (clients : Clients)
    → is_empty (machine_name_of cfg hostname) ≡ false
    → cfg.token ≡ c.token
    → Carries (hello cfg hostname) r
    → let name = machine_name_of cfg hostname in
      let out = handle_tunnel c r true addr conn clients in
      (out.admission ≡ registered name conn)
      × (lookup name out.clients
          ≡ some (record { machine_name = name; conn = conn; routes = []; remote_addr = addr }))
unfolding hello
hello-registered c cfg hostname r addr conn clients named same carries =
    let let_in = carries.authorization ∙ ap (λ t. codes "Bearer " ++ t) same in
    rw (handle_tunnel-admit c r addr conn clients let_in, carries.machine_name)
      (admit-registered (machine_name_of cfg hostname) addr conn clients named)
