-- ===== src/Server/Endpoint/Tests.antt =====
-- A rotation of the token and a machine that comes behind it.
use etunl_cli.Base.{
  ◌≡◌, ◌≢◌, ◌↔◌, refl, true, false, none, some, List, [], ◌∷◌, ◌++◌, if◌then◌else◌,
}
use etunl_cli.Base.Bytes.{Bytes, codes, bytes_eq}
use etunl_cli.Config.Server.{ServerConfig}
use etunl_cli.Config.Files.{Saving, written}
use etunl_cli.Server.Http.{Request, http_error}
use etunl_cli.Server.Admin.{Panel, Outside, token, handle_admin}
use etunl_cli.Server.Endpoint.{serve_http, admin, proxied}

abbrev config : ServerConfig
config = record {
  listen_http = codes ":80";
  tcp_port_range = codes "15000-15100";
  token = codes "t0";
  session_secret = codes "s";
  admin_subdomain = codes "manage";
  admin_user = codes "root";
  admin_password = codes "12345678";
}

abbrev panel : Panel
panel = record { cfg = config; file = none; clients = []; tcp_listeners = []; metrics = [] }

abbrev saving : Saving ServerConfig
saving = record { mkdir = true; marshal = λ c. some c.token; write = written }

abbrev outside : Outside
outside = record { unmarshal = λ body. none; new_token = some (codes "t1"); saving = saving }

abbrev headers : Bytes → Bytes
headers n =
    if bytes_eq n (codes "Authorization") then codes "Bearer " ++ codes "t0" else codes "box"

abbrev ask : Bytes → Bytes → Request
ask host path = record {
  method = codes "POST";
  host = host;
  path = path;
  request_uri = path;
  query_redirect = [];
  cookies = [];
  form = none;
  tls = true;
  header = headers;
  connection = [];
  basic_auth = some (codes "root", codes "12345678");
  body = some [];
}

admin_run : serve_http config (ask (codes "manage.x.io") (codes "/")) ≡ admin
unfolding serve_http bytes_eq etunl_cli.Server.Http.extract_subdomain etunl_cli.Base.Bytes.cut_first
    etunl_cli.Base.Bytes.cut_last
admin_run = refl

proxied_run : serve_http config (ask (codes "app.x.io") (codes "/")) ≡ proxied
unfolding serve_http bytes_eq etunl_cli.Server.Http.extract_subdomain etunl_cli.Base.Bytes.cut_first
    etunl_cli.Base.Bytes.cut_last
proxied_run = refl

rotated :
    (handle_admin outside config (ask (codes "manage.x.io") (codes "/api/rotate-token")) panel).1
    ≡ token (codes "t1")
unfolding handle_admin bytes_eq
rotated = refl

bearer_t0 : headers (codes "Authorization") ≡ codes "Bearer " ++ codes "t0"
unfolding bytes_eq
bearer_t0 = refl
