-- ===== src/Config/Files/Tests.antt =====
-- A save that is torn, and one that succeeds. The codec of the test keeps the token alone.
use etunl_cli.Base.{◌≡◌, refl, true, none, some, []}
use etunl_cli.Base.Bytes.{codes}
use etunl_cli.Config.Routes.{ClientConfig}
use etunl_cli.Config.Files.{Write, written, torn, not_written, Saving, save_config}

abbrev saving : Write → Saving ClientConfig
saving w = record { mkdir = true; marshal = λ c. some c.token; write = w }

abbrev config : ClientConfig
config = record { server = []; token = codes "secret"; machine_name = []; routes = [] }

torn_run :
    save_config (saving (torn 3)) config (some (codes "old"))
    ≡ (some (codes "sec"), some not_written)
unfolding save_config
torn_run = refl

written_run :
    save_config (saving written) config (some (codes "old")) ≡ (some (codes "secret"), none)
unfolding save_config
written_run = refl
