-- ===== src/Server/Routes/Ownership.antt =====
-- A route name belongs to one machine at most, and every change of the table keeps it so.
use etunl_cli.Base.{
  ℕ, ◌≡◌, ◌≢◌, refl, sym, ◌∙◌, true, false, not, ◌&&◌, Option, none, some, List, [], ◌∷◌, ◌==◌,
  ◌=?◌, inl, inr, arith, Bool-cases, Option-cases, beq_refl,
}
use etunl_cli.Base.Bytes.{Bytes, bytes_eq_iff, bytes_is_eq, is_empty}
use etunl_cli.Base.Dict.{
  NodupKeys, lookup, insert, erase, lookup-nil, lookup-cons, lookup_later, insert_inv, erase_inv,
  insert-NodupKeys, erase-NodupKeys,
}
use etunl_cli.Tunnel.Auth.{RouteInfo}
use etunl_cli.Server.Routes.{
  ClientEntry, Clients, first_route, has_route, find_owner, rejected, accept_routes, set_routes,
  sync_routes, register, unregister,
}

-- The table is a map, each entry carries its machine's name, which is not empty, and no route name
-- is held by two machines.
pub record IsOwned (d : Clients) : Type 0 where
  pub once : NodupKeys d
  pub named : (m : Bytes) (e : ClientEntry) → lookup m d ≡ some e → (e.machine_name ≡ m) × (m ≢ [])
  pub exclusive :
      (n m m' : Bytes) (e e' : ClientEntry)
      → lookup m d ≡ some e
      → lookup m' d ≡ some e'
      → has_route n e.routes ≡ true
      → has_route n e'.routes ≡ true
      → m ≡ m'

-- `m` is in the table with a route of the name.
pub record IsHolder (n : Bytes) (d : Clients) (m : Bytes) : Type 0 where
  pub entry : ClientEntry
  pub at : lookup m d ≡ some entry
  pub has : has_route n entry.routes ≡ true

pub IsHolder-cons :
    {n m : Bytes} (k : Bytes) (f : ClientEntry) {d : Clients}
    → lookup k d ≡ none
    → IsHolder n d m
    → IsHolder n ((k, f) ∷ d) m
IsHolder-cons {m = m} k f {d = d} fresh h = record {
  entry = h.entry;
  at = lookup_later k m f h.entry d fresh h.at;
  has = h.has;
}

-- Where a machine has the route, the owner that is found has it too.
pub find_owner-IsHolder :
    (n : Bytes) (d : Clients) (m : Bytes)
    → NodupKeys d
    → IsHolder n d m
    → IsHolder n d (find_owner n d)
unfolding find_owner
find_owner-IsHolder n [] m once h = cc (lookup-nil {V = ClientEntry} m, h.at)
find_owner-IsHolder n ((k, f) ∷ d) m (fresh, once) h = elim (Bool-cases (has_route n f.routes)) [
  | inl here ↦ rw here (record { entry = f; at = rw (lookup-cons, beq_refl); has = here })
  | inr absent ↦
      let below : lookup m d ≡ some h.entry = ground (arith, h.at, h.has, lookup-cons m k f d) in
      rw absent (
        IsHolder-cons k f fresh
          (find_owner-IsHolder n d m once (record { entry = h.entry; at = below; has = h.has })))
]

owner_is :
    (machine owner : Bytes)
    → owner ≢ []
    → (not (is_empty owner) && not (owner =? machine)) ≡ false
    → owner ≡ machine
owner_is machine [] nonempty h = absurd (nonempty refl)
owner_is machine (c ∷ s) nonempty h = ground (arith, bytes_eq_iff (c ∷ s) machine)

-- A name that is not rejected is held by no other machine.
pub not_rejected :
    (machine n m : Bytes) (d : Clients)
    → IsOwned d
    → rejected machine d n ≡ false
    → IsHolder n d m
    → m ≡ machine
unfolding rejected
not_rejected machine n m d o free h =
    let w = find_owner-IsHolder n d m o.once h in
    let same : m ≡ find_owner n d =
      o.exclusive n m (find_owner n d) h.entry w.entry h.at w.at h.has w.has in
    let (_, nonempty) = o.named (find_owner n d) w.entry w.at in
    same ∙ owner_is machine (find_owner n d) nonempty free

accept_free :
    (machine n : Bytes) (d : Clients) (rs : List RouteInfo)
    → has_route n (accept_routes machine d rs) ≡ true
    → rejected machine d n ≡ false
unfolding accept_routes has_route first_route
accept_free machine n d [] h = cc
accept_free machine n d (r ∷ rs) h =
    ground (arith, accept_free machine n d rs, bytes_eq_iff r.name n)

-- An entry whose routes nobody else holds may be put in the place of the machine's entry.
insert-IsOwned :
    (machine : Bytes) (e : ClientEntry) (d : Clients)
    → e.machine_name ≡ machine
    → machine ≢ []
    → ((n m : Bytes) → has_route n e.routes ≡ true → IsHolder n d m → m ≡ machine)
    → IsOwned d
    → IsOwned (insert machine e d)
insert-IsOwned machine e d name nonempty free o = record {
  once = insert-NodupKeys machine e d o.once;
  named = λ m f at. elim (insert_inv machine m e f d at) [
    | inl (same, eq) ↦ (rw (eq, same) name, rw same nonempty)
    | inr old ↦ o.named m f old
  ];
  exclusive = λ n m m' f f' at at' h h'. elim (insert_inv machine m e f d at) [
    | inl (same, eq) ↦ elim (insert_inv machine m' e f' d at') [
      | inl (same', eq') ↦ same ∙ sym same'
      | inr old' ↦ same ∙ sym (free n m' (rw eq at h) (record { entry = f'; at = old'; has = h' }))
    ]
    | inr old ↦ elim (insert_inv machine m' e f' d at') [
      | inl (same', eq') ↦
          free n m (rw eq' at h') (record { entry = f; at = old; has = h }) ∙ sym same'
      | inr old' ↦ o.exclusive n m m' f f' old old' h h'
    ]
  ];
}

erase-IsOwned : (machine : Bytes) (d : Clients) → IsOwned d → IsOwned (erase machine d)
erase-IsOwned machine d o = record {
  once = erase-NodupKeys machine d o.once;
  named = λ m f at. o.named m f (erase_inv machine m f d at).1;
  exclusive = λ n m m' f f' at at'.
      o.exclusive n m m' f f' (erase_inv machine m f d at).1 (erase_inv machine m' f' d at').1;
}

set_routes-IsOwned :
    (machine : Bytes) (conn : ℕ) (rs : List RouteInfo) (d : Clients)
    → ((n m : Bytes) → has_route n rs ≡ true → IsHolder n d m → m ≡ machine)
    → IsOwned d
    → IsOwned (set_routes machine conn rs d)
unfolding set_routes
set_routes-IsOwned machine conn rs d free o = elim (Option-cases (lookup machine d)) [
  | inl absent ↦ rw (absent, set_routes) o
  | inr (e, at) ↦ elim (Bool-cases (e.conn == conn)) [
    | inr other ↦ rw (at, other, set_routes) o
    | inl mine ↦
        let (name, nonempty) = o.named machine e at in
        rw (at, mine, set_routes)
          (insert-IsOwned machine (record e { routes = rs }) d name nonempty free o)
  ]
]

-- The route sync handler keeps every route name with one machine.
sync_routes-IsOwned :
    (machine : Bytes) (conn : ℕ) (payload : Option (List RouteInfo)) (d : Clients)
    → IsOwned d
    → IsOwned (sync_routes machine conn payload d)
unfolding sync_routes
sync_routes-IsOwned machine conn none d o = o
sync_routes-IsOwned machine conn (some rs) d o =
    set_routes-IsOwned machine conn (accept_routes machine d rs) d
      (λ n m has. not_rejected machine n m d o (accept_free machine n d rs has)) o

register-IsOwned :
    (machine : Bytes) (conn : ℕ) (addr : Bytes) (d : Clients)
    → machine ≢ []
    → IsOwned d
    → IsOwned (register machine conn addr d).0
unfolding register
register-IsOwned machine conn addr d nonempty o =
    insert-IsOwned machine
      (record { machine_name = machine; conn = conn; routes = []; remote_addr = addr }) d refl
      nonempty (λ n m has. absurd (unfold has_route first_route in cc has)) o

unregister-IsOwned :
    (machine : Bytes) (conn : ℕ) (d : Clients) → IsOwned d → IsOwned (unregister machine conn d)
unfolding unregister
unregister-IsOwned machine conn d o = elim (Option-cases (lookup machine d)) [
  | inl absent ↦ rw (absent, unregister) o
  | inr (e, at) ↦ elim (Bool-cases (e.conn == conn)) [
    | inr other ↦ rw (at, other, unregister) o
    | inl mine ↦ rw (at, mine, unregister) (erase-IsOwned machine d o)
  ]
]

-- One critical section of the server: a machine connects under a name, a connection syncs its
-- routes (whatever its payload, and also after a reconnect has replaced it), or a connection ends.
pub data Step (d : Clients) : Clients → Type 0 where
  connects :
      (machine : Bytes) (conn : ℕ) (addr : Bytes)
      → machine ≢ []
      → Step d (register machine conn addr d).0
  syncs :
      (machine : Bytes) (conn : ℕ) (payload : Option (List RouteInfo))
      → Step d (sync_routes machine conn payload d)
  ends : (machine : Bytes) (conn : ℕ) → Step d (unregister machine conn d)

pub data Reach (d : Clients) : Clients → Type 0 where
  here : Reach d d
  next : {t u : Clients} → Reach d t → Step t u → Reach d u

Step-IsOwned : {d d' : Clients} → Step d d' → IsOwned d → IsOwned d'
Step-IsOwned {d} (connects machine conn addr nonempty) o =
    register-IsOwned machine conn addr d nonempty o
Step-IsOwned {d} (syncs machine conn payload) o = sync_routes-IsOwned machine conn payload d o
Step-IsOwned {d} (ends machine conn) o = unregister-IsOwned machine conn d o

IsOwned-nil : IsOwned []
IsOwned-nil = record {
  once = tt;
  named = λ m e at. absurd (cc (lookup-nil {V = ClientEntry} m, at));
  exclusive = λ n m m' e e' at at' h h'. absurd (cc (lookup-nil {V = ClientEntry} m, at));
}

-- From the empty table, however machines connect, reconnect, sync and leave, a route name is never
-- held by two machines, a machine has one entry, and the entry carries the machine's name.
pub Reach-IsOwned : {d : Clients} → Reach [] d → IsOwned d
Reach-IsOwned here = IsOwned-nil
Reach-IsOwned (next r s) = Step-IsOwned s (Reach-IsOwned r)
