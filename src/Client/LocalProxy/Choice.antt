-- ===== src/Client/LocalProxy/Choice.antt =====
-- Which requests the local proxy forwards.
use etunl_cli.Base.{
  ◌≡◌, ◌⊎◌, refl, inl, inr, Bool, true, false, not, ◌&&◌, Option, some, none, List, [], ◌∷◌, ◌++◌,
  ◌=?◌, Option-cases, Bool-cases, true_ne_false, and_true, none_ne_some, some_inj,
}
use etunl_cli.Base.Bytes.{Bytes, codes, bytes_is_eq, bytes_eq_iff, is_empty}
use etunl_cli.Config.Auth.{Auth, Route, http}
use etunl_cli.Tunnel.Auth.{check, has_session}
use etunl_cli.Server.Http.{Request, Response}
use etunl_cli.Client.Wire.{auth_to_wire}
use etunl_cli.Client.LocalProxy.{
  refuse, forward, extract_local_subdomain, local_route, guard_local, local_decide, to_target,
}

-- A request is let to the target where the route has no auth block, where it has the login form, which
-- only the server asks for, or where the request passes RouteAuth.Check.
pub IsLet : Option Auth → Request → Type 0
IsLet a r =
    (a ≡ none) ⊎ (has_session (auth_to_wire a) ≡ true) ⊎ (check (auth_to_wire a) r.header ≡ true)

refuse_ne : (x : Response) (t : Bytes) → ¬ (refuse x ≡ forward t)
refuse_ne x t h = cc

forward_inj : (s t : Bytes) → forward s ≡ forward t → s ≡ t
forward_inj s t h = cc

to_target-forward : (parses : Bytes → Bool) (s t : Bytes) → to_target parses s ≡ forward t → s ≡ t
unfolding to_target
to_target-forward parses s t h = elim (Bool-cases (parses (codes "http://" ++ s))) [
  | inl good ↦ forward_inj s t (rw (to_target, good) at h)
  | inr bad ↦ absurd (refuse_ne _ t (rw (to_target, bad) at h))
]

either_true : (a b : Bool) → (not a && not b) ≡ false → (a ≡ true) ⊎ (b ≡ true)
either_true true b h = inl refl
either_true false true h = inr refl
either_true false false h = absurd (true_ne_false h)

guard_local-forward :
    (parses : Bytes → Bool) (r : Request) (route : Route) (t : Bytes)
    → guard_local parses r route ≡ forward t
    → (route.target ≡ t) × IsLet route.auth r
unfolding guard_local IsLet
guard_local-forward parses r route t h = elim (Option-cases route.auth) [
  | inl plain ↦ (to_target-forward parses route.target t (rw (guard_local, plain) at h), inl plain)
  | inr (a, guarded) ↦
      let w = auth_to_wire (some a) in
      elim (Bool-cases (not (has_session w) && not (check w r.header))) [
        | inl refused ↦ absurd (refuse_ne _ t (rw (guard_local, guarded, refused) at h))
        | inr passed ↦ (
          to_target-forward parses route.target t (rw (guard_local, guarded, passed) at h),
          rw guarded (inr (either_true _ _ passed)),
        )
      ]
]

-- The name and the type of the route that is found.
local_route_sound :
    (sub : Bytes) (rs : List Route) (route : Route)
    → local_route sub rs ≡ some route
    → (route.name ≡ sub) × (route.type ≡ http)
unfolding local_route
local_route_sound sub [] route h = absurd (none_ne_some h)
local_route_sound sub (r ∷ rs) route h = elim (Bool-cases (r.name =? sub && r.type =? http)) [
  | inl here ↦
      let same : r ≡ route = some_inj (rw here at h) in
      let (named, typed) = and_true here in
      rw (← same) ((bytes_eq_iff r.name sub).0 named, (bytes_eq_iff r.type http).0 typed)
  | inr later ↦ local_route_sound sub rs route (rw later at h)
]

-- A request that goes to a target goes to that of the first HTTP route with the name in the host, and
-- is let through by that route.
pub local_decide-forward :
    (parses : Bytes → Bool) (routes : List Route) (r : Request) (t : Bytes)
    → local_decide parses routes r ≡ forward t
    → (route : Route) × (local_route (extract_local_subdomain r.host) routes ≡ some route)
      × (route.name ≡ extract_local_subdomain r.host)
      × (route.type ≡ http)
      × (route.target ≡ t)
      × IsLet route.auth r
unfolding local_decide
local_decide-forward parses routes r t h =
    let sub = extract_local_subdomain r.host in
    elim (Bool-cases (is_empty sub)) [
      | inl bare ↦ absurd (refuse_ne _ t (rw (local_decide, bare) at h))
      | inr named ↦ elim (Option-cases (local_route sub routes)) [
        | inl unknown ↦ absurd (refuse_ne _ t (rw (local_decide, named, unknown) at h))
        | inr (route, known) ↦
            let (same_name, http_type) = local_route_sound sub routes route known in
            let (same_target, let_in) =
              guard_local-forward parses r route t (rw (local_decide, named, known) at h) in
            (route, known, same_name, http_type, same_target, let_in)
      ]
    ]
