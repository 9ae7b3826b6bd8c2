-- ===== src/Client/Sharing.antt =====
-- internal/client: the array of routes that the configuration of the watcher and the local proxy share.
-- The dashboard edits it in place, through the slice of the configuration, and the local proxy goes on
-- looking at it through its own.
pub mod Serving
mod Tests
use etunl_cli.Base.{ℕ, List, [], ◌∷◌, ◌++◌, Result, ok, err, length}
use etunl_cli.Base.Bytes.{Bytes}
use etunl_cli.Config.Auth.{Route}
use etunl_cli.Config.Routes.{RouteError}
use etunl_cli.Config.Slices.{Arrays, Slice, view, add_shared, remove_shared}

-- `w.current.Routes` and `lp.routes`
pub record Shared : Type 0 where
  pub arrays : Arrays
  pub current : Slice
  pub local : Slice

-- `LocalProxy.UpdateRoutes`
pub update_routes : Slice → Shared → Shared
update_routes routes b = record b { local = routes }

-- Start, or onConfigChange behind a reload: LoadClientConfig gives a new array, the watcher takes it,
-- and the local proxy is given the same slice.
pub reloaded : List Route → Shared → Shared
unfolding update_routes
reloaded routes b =
    let s : Slice = record { array = length b.arrays; len = length routes } in
    update_routes s (record b { arrays = b.arrays ++ routes ∷ []; current = s })

edited : Shared → Result RouteError (Arrays × Slice) → Result RouteError Shared
edited b (err e) = err e
edited b (ok (arrays, s)) = ok (record b { arrays = arrays; current = s })

-- AddRoute of the dashboard.
pub board_add : List Route → Route → Shared → Result RouteError Shared
unfolding edited
board_add spare r b = edited b (add_shared spare r b.current b.arrays)

-- RemoveRoute of the dashboard.
pub board_remove : List Route → Bytes → Shared → Result RouteError Shared
unfolding edited
board_remove spare name b = edited b (remove_shared spare name b.current b.arrays)

-- The routes that startHTTP of the local proxy looks through.
pub local_view : Shared → List Route
local_view b = view b.arrays b.local
