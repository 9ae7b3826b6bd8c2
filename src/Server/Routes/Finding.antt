-- ===== src/Server/Routes/Finding.antt =====
-- findRoute and the claims of a route sync, on a table in which names are owned.
use mathlib.Core.Path.{ap₂, subst}
use etunl_cli.Base.{
  ℕ, ◌≡◌, ◌≢◌, refl, sym, ◌↔◌, ◌∙◌, true, not, ◌&&◌, Option, none, some, List, [], ◌∷◌, ◌=?◌, inl,
  inr, arith, Bool-cases, Option-cases, beq_refl,
}
use etunl_cli.Base.Bytes.{Bytes, bytes_eq_iff, bytes_is_eq, is_empty}
use etunl_cli.Base.Dict.{
  NodupKeys, lookup, insert, erase, lookup-nil, lookup-cons, lookup-insert, lookup_later,
  lookup-cons_self, lookup-insert_self, lookup-erase_self,
}
use etunl_cli.Tunnel.Auth.{RouteInfo}
use etunl_cli.Server.Routes.{
  ClientEntry, Clients, first_route, has_route, find_route, find_owner, rejected, accept_routes,
  set_routes, sync_routes, register, unregister,
}
use etunl_cli.Server.Routes.Ownership.{IsOwned, IsHolder, IsHolder-cons, not_rejected}

has_first :
    (n : Bytes) (rs : List RouteInfo) {r : RouteInfo}
    → first_route n rs ≡ some r
    → has_route n rs ≡ true
unfolding has_route
has_first n rs h = rw (h, has_route)

-- `d` is read in any order of its entries: only what `lookup` shows of it is used.
find_route_walk :
    (n : Bytes) (d : Clients) (m : Bytes) (e : ClientEntry) (r : RouteInfo)
    → NodupKeys d
    → ((k : Bytes) (f : ClientEntry) → lookup k d ≡ some f → has_route n f.routes ≡ true → k ≡ m)
    → lookup m d ≡ some e
    → first_route n e.routes ≡ some r
    → find_route n d ≡ some (r, e.machine_name, e.conn)
unfolding find_route
find_route_walk n [] m e r once only at first = cc (lookup-nil {V = ClientEntry} m)
find_route_walk n ((k, f) ∷ d) m e r (fresh, once) only at first =
    elim (Option-cases (first_route n f.routes)) [
      | inr (q, here) ↦
          let same : k ≡ m = only k f (rw (lookup-cons, beq_refl)) (has_first n f.routes here) in
          let eq : f ≡ e = ground (arith, lookup-cons m k f d, bytes_eq_iff k m) in
          rw (here, find_route) (cc)
      | inl absent ↦
          let below : lookup m d ≡ some e = ground (arith, lookup-cons m k f d) in
          rw (absent, find_route)
            (find_route_walk n d m e r once
              (λ k' f' at'. only k' f' (lookup_later k k' f f' d fresh at')) below first)
    ]

find_route_found :
    (n : Bytes) (d : Clients) (r : RouteInfo) (m : Bytes) (conn : ℕ)
    → NodupKeys d
    → ((k : Bytes) (f : ClientEntry) → lookup k d ≡ some f → f.machine_name ≡ k)
    → find_route n d ≡ some (r, m, conn)
    → (e : ClientEntry) × (lookup m d ≡ some e)
      × (first_route n e.routes ≡ some r)
      × (e.conn ≡ conn)
unfolding find_route
find_route_found n [] r m conn once named found = cc
find_route_found n ((k, f) ∷ d) r m conn (fresh, once) named found =
    elim (Option-cases (first_route n f.routes)) [
      | inr (q, here) ↦
          let parts : ◌≡◌ {A = Option (RouteInfo × Bytes × ℕ)} (some (q, f.machine_name, f.conn))
              (some (r, m, conn)) =
            rw (here, find_route) at found in
          let name : f.machine_name ≡ k = named k f (rw (lookup-cons, beq_refl)) in
          let key : k ≡ m = cc in
          (
            f,
            subst (λ (x : Bytes). lookup x ((k, f) ∷ d) ≡ some f) key (lookup-cons_self k f d),
            here ∙ cc,
            cc,
          )
      | inl absent ↦
          let (e, at, first, same) =
            find_route_found n d r m conn once
              (λ k' f' at'. named k' f' (lookup_later k k' f f' d fresh at'))
              (rw (absent, find_route) at found) in
          (e, lookup_later k m f e d fresh at, first, same)
    ]

-- In a table that the server reaches, findRoute returns a route, a machine and a connection exactly
-- where that machine is in the table, on that connection, and the route is its first one of the
-- name. So the answer does not depend on the order in which the map of machines is iterated.
pub find_route_iff :
    (n : Bytes) (d : Clients) (r : RouteInfo) (m : Bytes) (conn : ℕ)
    → IsOwned d
    → (find_route n d ≡ some (r, m, conn)) ↔ (
        (e : ClientEntry) × (lookup m d ≡ some e)
        × (first_route n e.routes ≡ some r)
        × (e.conn ≡ conn))
find_route_iff n d r m conn o = (
  find_route_found n d r m conn o.once (λ k f at. (o.named k f at).0),
  λ (e, at, first, same).
      find_route_walk n d m e r o.once
        (λ k f at' has. o.exclusive n k m f e at' at has (has_first n e.routes first)) at first
      ∙ ap₂ (λ (k : Bytes) (c : ℕ). some (r, k, c)) (o.named m e at).0 same,
)

find_owner_found :
    (n : Bytes) (d : Clients) → NodupKeys d → find_owner n d ≢ [] → IsHolder n d (find_owner n d)
unfolding find_owner
find_owner_found n [] once ne = absurd (ne refl)
find_owner_found n ((k, f) ∷ d) (fresh, once) ne = elim (Bool-cases (has_route n f.routes)) [
  | inl here ↦ rw here (record { entry = f; at = lookup-cons_self k f d; has = here })
  | inr absent ↦
      rw absent (IsHolder-cons k f fresh (find_owner_found n d once (λ e. ne (rw absent e))))
]

owner_not :
    (machine owner : Bytes)
    → (not (is_empty owner) && not (owner =? machine)) ≡ true
    → (owner ≢ []) × (owner ≢ machine)
owner_not machine [] h = absurd (cc h)
owner_not machine (c ∷ s) h = (λ e. cc, λ e. ground (arith, bytes_eq_iff (c ∷ s) machine))

-- A route name of a payload is turned down exactly where another machine in the table holds it.
pub rejected_iff :
    (machine n : Bytes) (d : Clients)
    → IsOwned d
    → (rejected machine d n ≡ true) ↔ ((m : Bytes) × IsHolder n d m × (m ≢ machine))
unfolding rejected
rejected_iff machine n d o = (
  λ h.
      let (nonempty, other) = owner_not machine (find_owner n d) h in
      (find_owner n d, find_owner_found n d o.once nonempty, other),
  λ (m, h, ne). elim (Bool-cases (rejected machine d n)) [
    | inl t ↦ t
    | inr f ↦ absurd (ne (not_rejected machine n m d o f h))
  ],
)

set_routes_here :
    (machine : Bytes) (e : ClientEntry) (rs : List RouteInfo) (d : Clients)
    → lookup machine d ≡ some e
    → set_routes machine e.conn rs d ≡ insert machine (record e { routes = rs }) d
unfolding set_routes
set_routes_here machine e rs d at = ground (arith, at)

unregister_other :
    (machine : Bytes) (e : ClientEntry) (conn : ℕ) (d : Clients)
    → lookup machine d ≡ some e
    → e.conn ≢ conn
    → unregister machine conn d ≡ d
unfolding unregister
unregister_other machine e conn d at ne = ground (arith, at)

unregister_same :
    (machine : Bytes) (e : ClientEntry) (d : Clients)
    → lookup machine d ≡ some e
    → unregister machine e.conn d ≡ erase machine d
unfolding unregister
unregister_same machine e d at = ground (arith, at)

-- What a machine syncs over its current connection becomes its routes, less those of other machines
-- and in the order sent; the other machines keep their entries.
pub sync_routes_lem :
    (machine : Bytes) (e : ClientEntry) (rs : List RouteInfo) (d : Clients)
    → lookup machine d ≡ some e
    → (lookup machine (sync_routes machine e.conn (some rs) d)
        ≡ some (record e { routes = accept_routes machine d rs }))
      × ((m : Bytes) → m ≢ machine → lookup m (sync_routes machine e.conn (some rs) d) ≡ lookup m d)
unfolding sync_routes
sync_routes_lem machine e rs d at =
    let e' : ClientEntry = record e { routes = accept_routes machine d rs } in
    rw (set_routes_here machine e (accept_routes machine d rs) d at) (
      lookup-insert_self machine e' d,
      λ m ne. ground (arith, lookup-insert machine m e' d, bytes_eq_iff machine m),
    )

-- A machine that reconnects is not taken out of the table when its old connection ends, and is when
-- the new one does; the old connection is closed.
pub reconnect :
    (machine : Bytes) (old : ClientEntry) (conn : ℕ) (addr : Bytes) (d : Clients)
    → lookup machine d ≡ some old
    → old.conn ≢ conn
    → ((register machine conn addr d).1 ≡ old.conn ∷ [])
      × (unregister machine old.conn (register machine conn addr d).0
          ≡ (register machine conn addr d).0)
      × (lookup machine (unregister machine conn (register machine conn addr d).0) ≡ none)
unfolding register
reconnect machine old conn addr d at ne =
    let e : ClientEntry = record {
      machine_name = machine;
      conn = conn;
      routes = [];
      remote_addr = addr;
    } in
    let here = lookup-insert_self machine e d in
    (
      rw (at, register),
      unregister_other machine e old.conn (insert machine e d) here (λ q. ne (sym q)),
      rw (unregister_same machine e (insert machine e d) here)
          (lookup-erase_self machine (insert machine e d)),
    )
