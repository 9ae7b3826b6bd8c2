-- ===== src/Client/Dashboard/Tests.antt =====
-- A route that the dashboard adds, and the theorem at this input.
use etunl_cli.Base.{
  ◌≡◌, ◌⊎◌, ◌∙◌, refl, sym, ap, some_inj, none_ne_some, true, false, Option, none, some, List, [],
  ◌∷◌, ok, zero, suc, take-append, drop-append,
}
use etunl_cli.Base.Bytes.{Bytes, codes, bytes_eq}
use etunl_cli.Base.Int.{ℤ, pos, negsuc}
use etunl_cli.Config.Auth.{Auth, Route}
use etunl_cli.Config.Files.{Saving, written, load_file}
use etunl_cli.Config.Files.Fields.{put, field}
use etunl_cli.Config.Files.Outcomes.{Torn}
use etunl_cli.Config.Routes.{ClientConfig, add_route}
use etunl_cli.Config.Routes.Checking.{IsLoadable}
use etunl_cli.Server.Http.{Request}
use etunl_cli.Client.Dashboard.{Board, Outside, handle_board, created}
use etunl_cli.Client.Dashboard.Editing.{handle_board-IsGood}

abbrev web : Route
web = record {
  name = codes "web";
  type = codes "http";
  target = codes "localhost:3000";
  local_port = pos 0;
  auth = none;
}

abbrev config : ClientConfig
config = record { server = codes "s"; token = codes "t"; machine_name = codes "m"; routes = [] }

abbrev board : Board
board = record { cfg = config; file = none; connected = true }

-- The codec of the test is of the configurations with one route, of port 0 and without an auth block.
abbrev marshal_route : ClientConfig → Route → ℤ → Option Auth → Option Bytes
marshal_route c r (pos zero) none =
    some
      (put c.server (put c.token (put c.machine_name (put r.name (put r.type (put r.target []))))))
marshal_route c r port auth = none

abbrev marshal_routes : ClientConfig → List Route → Option Bytes
marshal_routes c (r ∷ []) = marshal_route c r r.local_port r.auth
marshal_routes c rs = none

abbrev with_route : ClientConfig → Route → ClientConfig
with_route c r = record c { routes = r ∷ [] }

abbrev read_config : Bytes → Option ClientConfig
read_config = field (λ server. field (λ token. field (λ machine_name. field (λ name. field (λ type.
    field (λ target rest. some (record {
      server = server;
      token = token;
      machine_name = machine_name;
      routes =
          record { name = name; type = type; target = target; local_port = pos 0; auth = none }
          ∷ [];
    })))))))

marshal_route-read :
    (c : ClientConfig) (r : Route) (port : ℤ) (auth : Option Auth) (bytes : Bytes)
    → marshal_route c r port auth ≡ some bytes
    → read_config bytes ≡ some (with_route c (record r { local_port = port; auth = auth }))
marshal_route-read c r (pos zero) none bytes h =
    ap read_config (sym (some_inj h)) ∙ simp (take-append, drop-append)
marshal_route-read c r (pos zero) (some a) bytes h = absurd (none_ne_some h)
marshal_route-read c r (pos (suc n)) auth bytes h = absurd (none_ne_some h)
marshal_route-read c r (negsuc n) auth bytes h = absurd (none_ne_some h)

marshal_routes-read :
    (c : ClientConfig) (rs : List Route) (bytes : Bytes)
    → marshal_routes c rs ≡ some bytes
    → read_config bytes ≡ some (record c { routes = rs })
marshal_routes-read c [] bytes h = absurd (none_ne_some h)
marshal_routes-read c (r ∷ []) bytes h = marshal_route-read c r r.local_port r.auth bytes h
marshal_routes-read c (r ∷ s ∷ rs) bytes h = absurd (none_ne_some h)

abbrev saving : Saving ClientConfig
saving = record { mkdir = true; marshal = λ c. marshal_routes c c.routes; write = written }

abbrev outside : Outside
outside = record { unmarshal = λ body. some web; saving = saving; hostname = codes "box" }

abbrev post : Request
post = record {
  method = codes "POST";
  host = codes "localhost:8080";
  path = codes "/api/routes";
  request_uri = codes "/api/routes";
  query_redirect = [];
  cookies = [];
  form = none;
  tls = false;
  header = λ n. [];
  connection = [];
  basic_auth = some (codes "any", codes "t");
  body = some [];
}

abbrev posted : ClientConfig
posted = with_route config web

post_run :
    handle_board outside post board
    ≡ (record board { cfg = posted; file = marshal_routes posted posted.routes }, created)
unfolding handle_board bytes_eq add_route
post_run = refl

handle_board-IsGood_example :
    let b' = (handle_board outside post board).0 in
    IsLoadable b'.cfg
    × ((b'.file ≡ none) ⊎ (load_file read_config b'.file ≡ ok b'.cfg) ⊎ Torn saving b'.cfg b'.file)
handle_board-IsGood_example =
    handle_board-IsGood read_config outside post board
      (λ c bytes h. marshal_routes-read c c.routes bytes h) (record { nodup = tt; valid = tt })
