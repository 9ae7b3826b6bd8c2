-- ===== src/Cli/Running.antt =====
-- cmd/etunl/main.go with internal/config/config.go: the paths of the configuration files, and what the
-- commands `server` and `client` start. filepath.Join, the home directory and the files are arguments.
use etunl_cli.Base.{Bool, not, Option, none, some, List, [], ◌∷◌, Result, ok, err, if◌then◌else◌}
use etunl_cli.Base.Bytes.{Bytes, codes, is_empty}
use etunl_cli.Config.Routes
use etunl_cli.Config.Routes.{ClientConfig}
use etunl_cli.Config.Server
use etunl_cli.Config.Server.{ServerConfig}
use etunl_cli.Server.Admin.{Panel}
use etunl_cli.Server.Endpoint.{new_server}
use etunl_cli.Server.Ports.{PortRange}
use etunl_cli.Client.Agent.{Agent, start}

-- filepath.Join, and what os.UserHomeDir gives.
pub record Paths : Type 0 where
  pub join : List Bytes → Bytes
  pub home : Bytes

-- `DefaultConfigPath`
pub default_config_path : Paths → Bytes
default_config_path p = p.join (p.home ∷ codes ".etunl" ∷ codes "config.yaml" ∷ [])

-- `DefaultServerConfigPath`
pub default_server_config_path : Paths → Bytes
default_server_config_path p = p.join (p.home ∷ codes ".etunl" ∷ codes "server.yaml" ∷ [])

-- `if cfgPath == ""`
abbrev or_path : Bytes → Bytes → Bytes
or_path flag default = if is_empty flag then default else flag

-- `serverCmd` up to Start: the server that New makes of the configuration that LoadServerConfig gives.
pub server_cmd :
    Paths
    → (Bytes → Result Server.LoadError ServerConfig)
    → (Bytes → Option Bytes)
    → Bytes
    → Result Server.LoadError (Panel × PortRange)
unfolding default_server_config_path
server_cmd p load file flag =
    let path = or_path flag (default_server_config_path p) in
    elim (load path) [ err e ↦ err e | ok cfg ↦ ok (new_server cfg (file path)) ]

-- The flags of `client`.
pub record ClientArgs : Type 0 where
  pub config : Bytes
  pub dashboard : Bytes

-- What `Client.Start` has started behind connectLoop's back.
pub record Started : Type 0 where
  pub agent : Agent
  pub dashboard_addr : Option Bytes

pub data ClientError : Type 0 where
  not_loaded : Routes.LoadError → ClientError
  not_watched : ClientError

-- `clientCmd`, with New and with Start up to connectLoop; `watching` tells whether Watcher.Start
-- succeeds.
pub client_cmd :
    Paths
    → (Bytes → Result Routes.LoadError ClientConfig)
    → (watching : Bool) → ClientArgs
    → Result ClientError Started
unfolding default_config_path
client_cmd p load watching args =
    elim (start (load (or_path args.config (default_config_path p)))) [
      | err e ↦ err (not_loaded e)
      | ok agent ↦
          if not watching
          then err not_watched
          else ok (record {
            agent = agent;
            dashboard_addr = if not (is_empty args.dashboard) then some args.dashboard else none;
          })
    ]
