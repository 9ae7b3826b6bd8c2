-- ===== src/Client/Sharing/Tests.antt =====
-- A route that is removed and one that is added, and the theorems at these inputs.
use etunl_cli.Base.{◌≡◌, ◌≢◌, refl, none, some, [], ◌∷◌, ◌++◌, ok, ℕ}
use etunl_cli.Base.Bytes.{Bytes, codes}
use etunl_cli.Base.Int.{pos}
use etunl_cli.Config.Auth.{Route, http}
use etunl_cli.Config.Routes.{find_in}
use etunl_cli.Config.Slices.{view}
use etunl_cli.Client.LocalProxy.{local_route}
use etunl_cli.Client.Sharing.{Shared, reloaded, board_add, board_remove, local_view}
use etunl_cli.Client.Sharing.Serving.{board_remove-local_view, board_add-local_view}

abbrev web : Route
web = record {
  name = codes "web";
  type = http;
  target = codes "localhost:3000";
  local_port = pos 0;
  auth = none;
}

abbrev api : Route
api = record {
  name = codes "api";
  type = http;
  target = codes "localhost:4000";
  local_port = pos 0;
  auth = none;
}

abbrev empty : Shared
empty = record {
  arrays = [];
  current = record { array = 0; len = 0 };
  local = record { array = 0; len = 0 };
}

board_remove-local_view_example :
    (b' : Shared) × (board_remove [] api.name (reloaded (web ∷ api ∷ []) empty) ≡ ok b')
    × ((sub : Bytes)
        → sub ≢ api.name
        → local_route sub (local_view b') ≡ local_route sub (web ∷ api ∷ []))
    × (local_route api.name (local_view b') ≡ some api)
unfolding find_in etunl_cli.Base.Bytes.bytes_eq local_route
board_remove-local_view_example = board_remove-local_view [] (web ∷ []) [] api empty refl refl

board_add-local_view_example :
    (b' : Shared) × (board_add [] api (reloaded (web ∷ []) empty) ≡ ok b')
    × (view b'.arrays b'.current ≡ web ∷ api ∷ [])
    × (local_view b' ≡ web ∷ [])
unfolding find_in etunl_cli.Base.Bytes.bytes_eq
board_add-local_view_example = board_add-local_view [] (web ∷ []) api empty refl
