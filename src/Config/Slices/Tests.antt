-- ===== src/Config/Slices/Tests.antt =====
-- Two routes in one array, and the theorems at this input.
use etunl_cli.Base.{ℕ, ◌+◌, ◌<◌, ◌≡◌, refl, none, [], ◌∷◌, ok, get_elem?, arith}
use etunl_cli.Base.Bytes.{Bytes, codes}
use etunl_cli.Base.Int.{pos}
use etunl_cli.Config.Auth.{Route, http}
use etunl_cli.Config.Routes.{ClientConfig, find_in, remove_route, add_route}
use etunl_cli.Config.Slices.{Arrays, Slice, view, add_shared, remove_shared, deref}
use etunl_cli.Config.Slices.Sharing.{shown, shared_refines, remove_shared-seen}

abbrev named : Bytes → Route
named n = record {
  name = n;
  type = http;
  target = codes "localhost:3000";
  local_port = pos 0;
  auth = none;
}

abbrev a : Route
a = named (codes "a")

abbrev b : Route
b = named (codes "b")

abbrev heap : Arrays
heap = (a ∷ b ∷ []) ∷ []

abbrev both : Slice
both = record { array = 0; len = 2 }

abbrev config : ClientConfig
config = record { server = []; token = []; machine_name = []; routes = a ∷ b ∷ [] }

shared_refines_example :
    ((n : Bytes) → shown config (remove_shared [] n both heap) ≡ remove_route config n)
    × ((r : Route) → shown config (add_shared [] r both heap) ≡ add_route config r)
shared_refines_example =
    shared_refines [] config heap both (record { there = omega arith; fits = omega arith }) refl

remove_shared-seen_example :
    (heap' : Arrays) × (remove_shared [] (codes "a") both heap
      ≡ ok (heap', record { array = 0; len = 0 + 1 }))
    × (view heap' both ≡ b ∷ b ∷ [])
    × ((i : ℕ) → i < 1 → deref heap' 0 (0 + i) ≡ get_elem? (b ∷ []) i)
unfolding find_in
remove_shared-seen_example =
    remove_shared-seen [] [] (b ∷ []) a heap both
      (record { there = omega arith; fits = omega arith }) refl refl
