-- ===== src/Config/Routes/Checking.antt =====
-- The checks of LoadClientConfig over the changes of the routes.
use etunl_cli.Base.{
  ◌≡◌, ◌↔◌, refl, sym, ◌∙◌, inl, inr, Bool-cases, Option-cases, some, none, List, [], ◌∷◌, ◌++◌, ok,
  ◌=?◌, arith, All, All-append, none_ne_some, ◌⊎◌, false,
}
use etunl_cli.Base.Bytes.{Bytes, bytes_is_eq}
use etunl_cli.Config.Auth.{Route, validate_route}
use etunl_cli.Config.Routes.{
  ClientConfig, with_routes, find_in, find_route, add_route, remove_in, remove_route, check_routes,
  load_client,
}
use etunl_cli.Config.Routes.Editing.{NodupNames, add_route_ok}

abbrev pub IsValid : Route → Type 0
IsValid r = validate_route r ≡ none

-- The loop of LoadClientConfig finds nothing just where no route has an error.
pub check_routes_iff : (rs : List Route) → (check_routes rs ≡ none) ↔ All IsValid rs
unfolding check_routes
check_routes_iff [] = (λ _. tt, λ _. refl)
check_routes_iff (r ∷ rs) = elim (Option-cases (validate_route r)) [
  | inl valid ↦ (
    λ h. (valid, (check_routes_iff rs).0 (rw (check_routes, valid) at h)),
    λ h. rw (check_routes, valid) ((check_routes_iff rs).1 h.1),
  )
  | inr (e, bad) ↦ (
    λ h. absurd (none_ne_some (sym (rw (check_routes, bad) at h))),
    λ h. absurd (none_ne_some (sym h.0 ∙ bad)),
  )
]

-- The names are unique and no route has an error.
pub record IsLoadable (c : ClientConfig) : Type 0 where
  pub nodup : NodupNames c.routes
  pub valid : All IsValid c.routes

-- Such a file can be loaded.
pub load_client-IsLoadable : (c : ClientConfig) → IsLoadable c → load_client (ok c) ≡ ok c
unfolding load_client
load_client-IsLoadable c h = rw (load_client, (check_routes_iff c.routes).1 h.valid) refl

pub add_route-IsLoadable :
    (c c' : ClientConfig) (r : Route)
    → IsLoadable c
    → IsValid r
    → add_route c r ≡ ok c'
    → IsLoadable c'
unfolding add_route
add_route-IsLoadable c c' r good valid h =
    let (_, _, _, _, nodup) = add_route_ok c c' r good.nodup h in
    elim (Option-cases (find_route c r.name)) [
      | inr (old, found) ↦ absurd (ground arith)
      | inl fresh ↦
          let same : with_routes c (c.routes ++ r ∷ []) ≡ c' = ground arith in
          record {
            nodup = nodup;
            valid = rw (← same) (All-append IsValid c.routes (r ∷ []) good.valid (valid, tt));
          }
    ]

find_in-rest :
    (m : Bytes) (s : Route) (rs : List Route)
    → find_in m (s ∷ rs) ≡ none
    → ((s.name =? m) ≡ false) × (find_in m rs ≡ none)
unfolding find_in
find_in-rest m s rs h = ground arith

-- What a removal leaves of the routes: the last one taken apart.
remove_in-rest :
    (n : Bytes) (s : Route) (rs kept : List Route)
    → remove_in n (s ∷ rs) ≡ some kept
    → (rs ≡ kept) ⊎ ((later : List Route) × (remove_in n rs ≡ some later) × (s ∷ later ≡ kept))
unfolding remove_in
remove_in-rest n s rs kept h = elim (Bool-cases (s.name =? n)) [
  | inl t ↦ inl (ground arith)
  | inr f ↦ elim (Option-cases (remove_in n rs)) [
    | inl nothing ↦ absurd (ground arith)
    | inr (later, found) ↦ inr (later, found, ground arith)
  ]
]

find_in-remove_in :
    (m n : Bytes) (rs kept : List Route)
    → find_in m rs ≡ none
    → remove_in n rs ≡ some kept
    → find_in m kept ≡ none
unfolding find_in remove_in
find_in-remove_in m n [] kept h e = cc
find_in-remove_in m n (s ∷ rs) kept h e =
    let (other, behind) = find_in-rest m s rs h in
    elim (remove_in-rest n s rs kept e) [
      | inl same ↦ rw (← same) behind
      | inr (later, found, same) ↦
          rw (← same) (rw other (find_in-remove_in m n rs later behind found))
    ]

NodupNames-remove_in :
    (n : Bytes) (rs kept : List Route)
    → NodupNames rs
    → remove_in n rs ≡ some kept
    → NodupNames kept
unfolding remove_in
NodupNames-remove_in n [] kept nd e = cc
NodupNames-remove_in n (s ∷ rs) kept (fresh, nd) e = elim (remove_in-rest n s rs kept e) [
  | inl same ↦ rw (← same) nd
  | inr (later, found, same) ↦
      rw (← same)
        (find_in-remove_in s.name n rs later fresh found, NodupNames-remove_in n rs later nd found)
]

All-remove_in :
    (n : Bytes) (rs kept : List Route)
    → All IsValid rs
    → remove_in n rs ≡ some kept
    → All IsValid kept
unfolding remove_in
All-remove_in n [] kept hs e = cc
All-remove_in n (s ∷ rs) kept (h, hs) e = elim (remove_in-rest n s rs kept e) [
  | inl same ↦ rw (← same) hs
  | inr (later, found, same) ↦ rw (← same) (h, All-remove_in n rs later hs found)
]

pub remove_route-IsLoadable :
    (c c' : ClientConfig) (n : Bytes) → IsLoadable c → remove_route c n ≡ ok c' → IsLoadable c'
unfolding remove_route
remove_route-IsLoadable c c' n good h = elim (Option-cases (remove_in n c.routes)) [
  | inl nothing ↦ absurd (ground arith)
  | inr (kept, found) ↦
      let same : with_routes c kept ≡ c' = ground arith in
      rw (← same) (record {
        nodup = NodupNames-remove_in n c.routes kept good.nodup found;
        valid = All-remove_in n c.routes kept good.valid found;
      })
]
