-- ===== src/Config/Slices.antt =====
-- internal/config/config.go: AddRoute and RemoveRoute on Go slices, which share their arrays: the
-- configuration of the watcher, the local proxy and the pointers of FindRoute look at one array. The
-- arrays are a list of lists of routes, each of the length of its capacity; all slices of routes start
-- at the first element.
pub mod Appending
pub mod Sharing
mod Tests
use etunl_cli.Base.{
  ℕ, zero, suc, ◌+◌, Option, none, some, List, [], ◌∷◌, ◌++◌, Result, ok, err, leb, length, get_or,
  take, drop, modify, get_elem?, ◌=?◌, if◌then◌else◌,
}
use etunl_cli.Base.Bytes.{Bytes, bytes_is_eq}
use etunl_cli.Config.Auth.{Route}
use etunl_cli.Config.Routes.{RouteError, route_exists, route_not_found, find_in}

abbrev pub Arrays : Type 0
Arrays = List (List Route)

pub record Slice : Type 0 where
  pub array : ℕ
  pub len : ℕ

abbrev pub array_at : Arrays → ℕ → List Route
array_at heap a = get_or heap a []

-- The routes that a slice shows.
abbrev pub view : Arrays → Slice → List Route
view heap s = take s.len (array_at heap s.array)

-- `copy` of the routes into an array, from an index on.
pub overwrite : ℕ → List Route → List Route → List Route
overwrite i xs [] = []
overwrite zero [] (y ∷ ys) = y ∷ ys
overwrite zero (x ∷ xs) (y ∷ ys) = x ∷ overwrite zero xs ys
overwrite (suc i) xs (y ∷ ys) = y ∷ overwrite i xs ys

in_place : List Route → Slice → Arrays → Arrays × Slice
unfolding overwrite
in_place xs s heap =
    (modify (overwrite s.len xs) s.array heap, record { array = s.array; len = s.len + length xs })

moved : List Route → List Route → Slice → Arrays → Arrays × Slice
moved spare xs s heap = (
  heap ++ (view heap s ++ (xs ++ spare)) ∷ [],
  record { array = length heap; len = s.len + length xs },
)

-- `append(s, xs...)`: in place where the capacity is enough; else in a new array, with the routes that
-- the runtime leaves spare.
pub append_slice : List Route → List Route → Slice → Arrays → Arrays × Slice
unfolding in_place moved
append_slice spare xs s heap =
    if leb (s.len + length xs) (length (array_at heap s.array))
    then in_place xs s heap
    else moved spare xs s heap

-- `for i := range c.Routes`, up to the first route of the name.
pub index_of : Bytes → List Route → Option ℕ
index_of n [] = none
index_of n (r ∷ rs) =
    let later = index_of n rs in
    if r.name =? n then some 0 else elim later [ none ↦ none | some i ↦ some (suc i) ]

-- `AddRoute` on the slice of the configuration.
pub add_shared : List Route → Route → Slice → Arrays → Result RouteError (Arrays × Slice)
unfolding append_slice
add_shared spare r s heap = elim (find_in r.name (view heap s)) [
  | some old ↦ err route_exists
  | none ↦ ok (append_slice spare (r ∷ []) s heap)
]

-- `RemoveRoute` on the slice of the configuration: `append(c.Routes[:i], c.Routes[i+1:]...)`.
pub remove_shared : List Route → Bytes → Slice → Arrays → Result RouteError (Arrays × Slice)
unfolding append_slice index_of
remove_shared spare n s heap = elim (index_of n (view heap s)) [
  | none ↦ err route_not_found
  | some i ↦ ok (append_slice spare (drop (suc i) (view heap s)) (record s { len = i }) heap)
]

-- What a pointer into an array reads: `&c.Routes[i]` of FindRoute.
pub deref : Arrays → (a i : ℕ) → Option Route
deref heap a i = get_elem? (array_at heap a) i
