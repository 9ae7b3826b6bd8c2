-- ===== src/Config/Routes.antt =====
-- internal/config/config.go: ClientConfig with FindRoute, AddRoute, RemoveRoute and the checks of
-- LoadClientConfig. The file and the YAML decoder are the first argument of `load_client`.
pub mod Editing
pub mod Checking
mod Tests
use etunl_cli.Base.{
  Bool, true, false, Option, none, some, List, [], ◌∷◌, ◌++◌, Result, ok, err, ◌=?◌, if◌then◌else◌,
}
use etunl_cli.Base.Bytes.{Bytes, bytes_is_eq}
use etunl_cli.Config.Auth.{Route, ConfigError, validate_route}

pub record ClientConfig : Type 0 where
  pub server : Bytes
  pub token : Bytes
  pub machine_name : Bytes
  pub routes : List Route

unfoldable pub find_in : Bytes → List Route → Option Route
find_in n [] = none
find_in n (r ∷ rs) = let later = find_in n rs in if r.name =? n then some r else later

-- `ClientConfig.FindRoute`
unfoldable pub find_route : ClientConfig → Bytes → Option Route
unfolding find_in
find_route c n = find_in n c.routes

pub data RouteError : Type 0 where
  route_exists route_not_found : RouteError

abbrev pub with_routes : ClientConfig → List Route → ClientConfig
with_routes c rs = record {
  server = c.server;
  token = c.token;
  machine_name = c.machine_name;
  routes = rs;
}

-- `ClientConfig.AddRoute`
unfoldable pub add_route : ClientConfig → Route → Result RouteError ClientConfig
unfolding find_route
add_route c r = elim (find_route c r.name) [
  | some old ↦ err route_exists
  | none ↦ ok (with_routes c (c.routes ++ r ∷ []))
]

-- The routes without the first of that name, where there is one.
unfoldable pub remove_in : Bytes → List Route → Option (List Route)
remove_in n [] = none
remove_in n (r ∷ rs) =
    let later = remove_in n rs in
    if r.name =? n then some rs else elim later [ none ↦ none | some kept ↦ some (r ∷ kept) ]

-- `ClientConfig.RemoveRoute`
unfoldable pub remove_route : ClientConfig → Bytes → Result RouteError ClientConfig
unfolding remove_in
remove_route c n = elim (remove_in n c.routes) [
  | none ↦ err route_not_found
  | some rs ↦ ok (with_routes c rs)
]

pub data LoadError : Type 0 where
  unreadable unparsable : LoadError
  bad_route : Bytes → ConfigError → LoadError

-- The loop over the routes of LoadClientConfig.
pub check_routes : List Route → Option LoadError
check_routes [] = none
check_routes (r ∷ rs) =
    let later = check_routes rs in
    elim (validate_route r) [ some e ↦ some (bad_route r.name e) | none ↦ later ]

-- `LoadClientConfig`, from what reading and decoding the file gave.
pub load_client : Result LoadError ClientConfig → Result LoadError ClientConfig
unfolding check_routes
load_client (err e) = err e
load_client (ok c) = elim (check_routes c.routes) [ some e ↦ err e | none ↦ ok c ]
