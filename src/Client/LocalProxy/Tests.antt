-- ===== src/Client/LocalProxy/Tests.antt =====
-- A visit to a route without an auth block, and the theorem at this input.
use etunl_cli.Base.{◌≡◌, refl, true, false, none, some, [], ◌∷◌}
use etunl_cli.Base.Bytes.{codes, bytes_eq, cut_first, cut_last}
use etunl_cli.Base.Int.{pos}
use etunl_cli.Config.Auth.{Route}
use etunl_cli.Server.Http.{Request}
use etunl_cli.Client.LocalProxy.{forward, local_decide, tcp_proxies}

abbrev web : Route
web = record {
  name = codes "web";
  type = codes "http";
  target = codes "localhost:3000";
  local_port = pos 0;
  auth = none;
}

abbrev db : Route
db = record web { name = codes "db"; type = codes "tcp"; local_port = pos 5432 }

abbrev visit : Request
visit = record {
  method = codes "GET";
  host = codes "web.local";
  path = codes "/";
  request_uri = codes "/";
  query_redirect = [];
  cookies = [];
  form = none;
  tls = false;
  header = λ n. [];
  connection = [];
  basic_auth = none;
  body = some [];
}

tcp_run : tcp_proxies (λ port. true) (web ∷ db ∷ []) ≡ (pos 5432, codes "localhost:3000") ∷ []
unfolding tcp_proxies bytes_eq
tcp_run = refl

visit_run : local_decide (λ url. true) (db ∷ web ∷ []) visit ≡ forward (codes "localhost:3000")
unfolding local_decide cut_first etunl_cli.Server.Http.strip_port cut_last bytes_eq
visit_run = refl
