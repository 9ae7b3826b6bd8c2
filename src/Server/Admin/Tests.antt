-- ===== src/Server/Admin/Tests.antt =====
-- A setup that is stored and one that is torn, a rotation that cannot be saved, and the theorems at these inputs.
use etunl_cli.Base.{
  ◌≡◌, refl, sym, ap, ◌∙◌, some_inj, true, Option, none, some, [], ◌∷◌, ◌++◌, length, take, drop,
  take-append, drop-append,
}
use etunl_cli.Base.Bytes.{Bytes, codes, bytes_eq}
use etunl_cli.Config.Server.{ServerConfig}
use etunl_cli.Config.Files.{Write, written, not_opened, torn}
use etunl_cli.Config.Files.Fields.{put, field}
use etunl_cli.Server.Http.{Request}
use etunl_cli.Server.Admin.{
  Panel, created, not_saved, Outside, with_admin, with_token, handle_admin,
}
use etunl_cli.Server.Admin.Gate.{Access, handle_admin-Access}
use etunl_cli.Server.Admin.Setup.{InSync, IsClean, Behind, handle_admin-InSync}

abbrev config : ServerConfig
config = record {
  listen_http = codes ":80";
  tcp_port_range = codes "15000-15100";
  token = codes "t0";
  session_secret = codes "s";
  admin_subdomain = codes "manage";
  admin_user = [];
  admin_password = [];
}

-- The codec of the test.
abbrev stored_as : ServerConfig → Bytes
stored_as c = put c.listen_http (
    put c.tcp_port_range (
      put c.token (
        put c.session_secret (put c.admin_subdomain (put c.admin_user (put c.admin_password []))))))

abbrev read_config : Bytes → Option ServerConfig
read_config = field (λ listen_http. field (λ tcp_port_range. field (λ token.
    field (λ session_secret. field (λ admin_subdomain. field (λ admin_user.
      field (λ admin_password rest. some (record {
        listen_http = listen_http;
        tcp_port_range = tcp_port_range;
        token = token;
        session_secret = session_secret;
        admin_subdomain = admin_subdomain;
        admin_user = admin_user;
        admin_password = admin_password;
      }))))))))

read_config-stored_as : (c : ServerConfig) → read_config (stored_as c) ≡ some c
read_config-stored_as c = simp (take-append, drop-append)

abbrev panel : Panel
panel = record {
  cfg = config;
  file = some (stored_as config);
  clients = [];
  tcp_listeners = [];
  metrics = [];
}

abbrev outside : Write → Outside
outside w = record {
  unmarshal = λ body. some (codes " root ", codes "12345678");
  new_token = some (codes "t1");
  saving = record { mkdir = true; marshal = λ c. some (stored_as c); write = w };
}

abbrev post : Bytes → Request
post path = record {
  method = codes "POST";
  host = codes "manage.x.io";
  path = path;
  request_uri = path;
  query_redirect = [];
  cookies = [];
  form = none;
  tls = true;
  header = λ n. [];
  connection = [];
  basic_auth = some (codes "root", codes "12345678");
  body = some [];
}

abbrev set_up : Panel
set_up = with_admin (codes "root") (codes "12345678") panel

setup_run :
    handle_admin (outside written) config (post (codes "/api/setup")) panel
    ≡ (record set_up { file = some (stored_as set_up.cfg) }, created)
unfolding handle_admin bytes_eq etunl_cli.Base.Space.trim_space
setup_run = refl

-- A setup whose write fails behind two bytes.
torn_run :
    handle_admin (outside (torn 2)) config (post (codes "/api/setup")) panel
    ≡ (record panel { file = some (take 2 (stored_as set_up.cfg)) }, not_saved)
unfolding handle_admin bytes_eq etunl_cli.Base.Space.trim_space
torn_run = refl

-- A new token that cannot be saved is in force.
unsaved_run :
    (handle_admin (outside not_opened) set_up.cfg (post (codes "/api/rotate-token")) set_up).0
    ≡ with_token (codes "t1") set_up
unfolding handle_admin bytes_eq
unsaved_run = refl

handle_admin-Access_example :
    Access
      (outside written)
      config
      (post (codes "/api/setup"))
      panel
      (handle_admin (outside written) config (post (codes "/api/setup")) panel)
handle_admin-Access_example =
    handle_admin-Access (outside written) config (post (codes "/api/setup")) panel

panel-InSync : InSync read_config panel
unfolding IsClean
panel-InSync = record {
  bytes = stored_as config;
  there = refl;
  read = refl;
  clean = λ unset. (refl, refl);
}

stored_codec :
    (w : Write) (c : ServerConfig) (bytes : Bytes)
    → (outside w).saving.marshal c ≡ some bytes
    → read_config bytes ≡ some c
stored_codec w c bytes h = ap read_config (sym (some_inj h)) ∙ read_config-stored_as c

handle_admin-InSync_example :
    let o = outside (torn 2) in
    Behind read_config o panel (handle_admin o config (post (codes "/api/setup")) panel).0
handle_admin-InSync_example =
    handle_admin-InSync read_config (outside (torn 2)) panel (stored_codec (torn 2)) panel-InSync
      config (post (codes "/api/setup"))
