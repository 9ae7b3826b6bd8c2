-- ===== src/Client/Sharing/Serving.antt =====
-- What the local proxy serves between an edit of the dashboard and the reload of the file.
use etunl_cli.Base.{
  ◌+◌, ◌≡◌, ◌≢◌, ◌∙◌, refl, sym, ap, inl, inr, Option, none, some, List, [], ◌∷◌, ◌++◌, ok, length,
  drop, take, take-append, Option-cases, Bool-cases, ◌=?◌, ◌&&◌, append-nil, length-append, arith,
}
use etunl_cli.Base.Bytes.{Bytes, bytes_is_eq, bytes_eq_iff}
use etunl_cli.Config.Auth.{Route, http}
use etunl_cli.Config.Routes.{find_in}
use etunl_cli.Config.Slices.{Slice, view, array_at, append_slice}
use etunl_cli.Config.Slices.Appending.{IsSlice, append_slice-Appended, array_at-append_length}
use etunl_cli.Config.Slices.Sharing.{add_shared_ok, remove_shared-seen}
use etunl_cli.Client.LocalProxy.{local_route}
use etunl_cli.Client.Sharing.{Shared, reloaded, edited, board_add, board_remove, local_view}

abbrev or_else : Option Route → Option Route → Option Route
or_else (some r) o = some r
or_else none o = o

local_route-append :
    (sub : Bytes) (rs ts : List Route)
    → local_route sub (rs ++ ts) ≡ or_else (local_route sub rs) (local_route sub ts)
unfolding local_route
local_route-append sub [] ts = refl
local_route-append sub (r ∷ rs) ts = elim (Bool-cases (r.name =? sub && r.type =? http)) [
  | inl hit ↦ rw hit refl
  | inr miss ↦ rw miss (local_route-append sub rs ts)
]

local_route-skip :
    (sub : Bytes) (rs ts : List Route)
    → local_route sub rs ≡ none
    → local_route sub (rs ++ ts) ≡ local_route sub ts
local_route-skip sub rs ts h =
    local_route-append sub rs ts ∙ ap (λ o. or_else o (local_route sub ts)) h

local_route-other :
    (sub : Bytes) (r : Route) (rs : List Route)
    → sub ≢ r.name
    → local_route sub (r ∷ rs) ≡ local_route sub rs
unfolding local_route
local_route-other sub r rs h = ground (arith, bytes_eq_iff r.name sub)

local_route-unknown : (n : Bytes) (rs : List Route) → find_in n rs ≡ none → local_route n rs ≡ none
unfolding local_route find_in
local_route-unknown n [] h = refl
local_route-unknown n (r ∷ rs) h = ground (arith, local_route-unknown n rs)

local_route-last :
    (sub : Bytes) (y : Route) (ys : List Route)
    → local_route sub (y ∷ ys) ≡ none
    → local_route sub (drop (length ys) (y ∷ ys)) ≡ none
unfolding local_route
local_route-last sub y [] h = h
local_route-last sub y (z ∷ ys) h = local_route-last sub z ys (ground arith)

-- The last route is there once more, which no lookup sees.
local_route-again :
    (sub : Bytes) (ys : List Route) (r : Route)
    → sub ≢ r.name
    → or_else (local_route sub ys) (local_route sub (drop (length ys) (r ∷ ys)))
      ≡ local_route sub ys
unfolding local_route
local_route-again sub [] r h = local_route-other sub r [] h
local_route-again sub (y ∷ ys) r h = elim (Option-cases (local_route sub (y ∷ ys))) [
  | inl absent ↦ rw absent (local_route-last sub y ys absent)
  | inr (x, present) ↦ rw present refl
]

module _ (sub : Bytes) (xs ys : List Route) (r : Route) where
  seen-other :
      sub ≢ r.name
      → local_route sub (xs ++ (ys ++ drop (length ys) (r ∷ ys))) ≡ local_route sub (xs ++ r ∷ ys)
  seen-other h =
      local_route-append sub xs _
      ∙ ap (or_else (local_route sub xs)) (
          local_route-append sub ys _
          ∙ local_route-again sub ys r h
          ∙ sym (local_route-other sub r ys h))
      ∙ sym (local_route-append sub xs (r ∷ ys))

  seen-removed :
      find_in r.name xs ≡ none
      → find_in r.name ys ≡ none
      → local_route r.name (xs ++ (ys ++ drop (length ys) (r ∷ ys)))
        ≡ local_route r.name (drop (length ys) (r ∷ ys))
  seen-removed first only =
      local_route-skip r.name xs _ (local_route-unknown r.name xs first)
      ∙ local_route-skip r.name ys _ (local_route-unknown r.name ys only)

-- The removed route is served on where it was the last one.
abbrev pub left_over : Route → List Route → Option Route
left_over r [] = local_route r.name (r ∷ [])
left_over r (y ∷ ys) = none

left_over_lem :
    (r : Route) (ys : List Route)
    → find_in r.name ys ≡ none
    → local_route r.name (drop (length ys) (r ∷ ys)) ≡ left_over r ys
left_over_lem r [] only = refl
left_over_lem r (y ∷ ys) only =
    local_route-last r.name y ys (local_route-unknown r.name (y ∷ ys) only)

module _ (routes : List Route) (b : Shared) where
  abbrev fresh : Slice
  fresh = record { array = length b.arrays; len = length routes }

  reloaded-array : array_at (b.arrays ++ routes ∷ []) (length b.arrays) ≡ routes
  reloaded-array = array_at-append_length b.arrays routes

  reloaded-IsSlice : IsSlice (b.arrays ++ routes ∷ []) fresh
  reloaded-IsSlice = record {
    there = omega (arith, length-append b.arrays (routes ∷ []));
    fits = rw reloaded-array (omega arith);
  }

  reloaded-view : view (b.arrays ++ routes ∷ []) fresh ≡ routes
  reloaded-view =
      rw reloaded-array
        (ap (take (length routes)) (sym (append-nil routes)) ∙ take-append routes [])

-- Behind a removal through the dashboard, until the file is loaded again: the local proxy serves the
-- other routes as before, and the removed one no more; but where it was the last one, it is still
-- served.
pub board_remove-local_view :
    (spare xs ys : List Route) (r : Route) (b : Shared)
    → find_in r.name xs ≡ none
    → find_in r.name ys ≡ none
    → (b' : Shared) × (board_remove spare r.name (reloaded (xs ++ r ∷ ys) b) ≡ ok b')
      × ((sub : Bytes)
          → sub ≢ r.name
          → local_route sub (local_view b') ≡ local_route sub (xs ++ r ∷ ys))
      × (local_route r.name (local_view b') ≡ left_over r ys)
unfolding board_remove reloaded local_view
board_remove-local_view spare xs ys r b first only =
    let routes = xs ++ r ∷ ys in
    let b0 = reloaded routes b in
    let (heap, done, shows, _) =
      remove_shared-seen spare xs ys r b0.arrays b0.current (reloaded-IsSlice routes b)
        (reloaded-view routes b) first in
    (
      record {
        arrays = heap;
        current = record { array = b0.current.array; len = length xs + length ys };
        local = b0.local;
      },
      rw (board_remove, done) refl,
      λ sub h. ap (local_route sub) shows ∙ seen-other sub xs ys r h,
      ap (local_route r.name) shows
          ∙ seen-removed r.name xs ys r first only
          ∙ left_over_lem r ys only,
    )

-- A route that the dashboard adds is served by the local proxy only when the file is loaded again.
pub board_add-local_view :
    (spare routes : List Route) (r : Route) (b : Shared)
    → find_in r.name routes ≡ none
    → (b' : Shared) × (board_add spare r (reloaded routes b) ≡ ok b')
      × (view b'.arrays b'.current ≡ routes ++ r ∷ [])
      × (local_view b' ≡ routes)
unfolding board_add reloaded local_view
board_add-local_view spare routes r b new =
    let b0 = reloaded routes b in
    let shows = reloaded-view routes b in
    let good = reloaded-IsSlice routes b in
    let (heap', s') = append_slice spare (r ∷ []) b0.current b0.arrays in
    let (_, appended, others) = append_slice-Appended (r ∷ []) b0.current b0.arrays good spare in
    (
      record { arrays = heap'; current = s'; local = b0.local },
      ap (edited b0) (add_shared_ok spare r b0.current b0.arrays (ap (find_in r.name) shows ∙ new)),
      appended ∙ ap (λ rs. rs ++ r ∷ []) shows,
      others b0.local good (omega arith) ∙ shows,
    )
