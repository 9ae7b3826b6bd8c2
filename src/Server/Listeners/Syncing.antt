-- ===== src/Server/Listeners/Syncing.antt =====
-- syncTCPListeners keeps the ports of the listeners apart, stops what nobody claims, and starts what
-- is claimed.
use mathlib.Core.Path.{subst}
use etunl_cli.Base.{
  ◌↔◌, ℕ, ◌<◌, ◌≤◌, ◌≡◌, sym, ◌∙◌, Bool, true, none, some, List, [], ◌∷◌, ok, ◌=?◌, if◌then◌else◌,
  arith, Bool-cases, Option-cases, inl, inr, ◌⊎◌, ap, Result-cases,
}
use etunl_cli.Base.Bytes.{Bytes, bytes_is_eq, bytes_eq_iff}
use etunl_cli.Base.Dict.{
  NodupKeys, insert-NodupKeys, lookup, insert, lookup-nil, lookup-cons, lookup-insert,
  lookup-insert_self, insert_inv, contains,
}
use etunl_cli.Server.Routes.{Clients}
use etunl_cli.Server.Ports.{Listeners, PortRange, allocate_port}
use etunl_cli.Server.Ports.Allocation.{allocate_port_ok, allocate_port_err}
use etunl_cli.Server.Listeners.{
  claims_tcp, stop_removed, start_listener, start_listeners, sync_tcp_listeners,
}

-- One listener to a route, no two on one port, all within the configured range.
pub record IsAllocated (r : PortRange) (d : Listeners) : Type 0 where
  pub once : NodupKeys d
  pub apart : (n m : Bytes) (p : ℕ) → lookup n d ≡ some p → lookup m d ≡ some p → n ≡ m
  pub within : (n : Bytes) (p : ℕ) → lookup n d ≡ some p → (r.start ≤ p) × (p < r.end)

lookup-stop_removed :
    (keep : Bytes → Bool) (n : Bytes) (d : Listeners)
    → NodupKeys d
    → lookup n (stop_removed keep d) ≡ (if keep n then lookup n d else none)
unfolding stop_removed
lookup-stop_removed keep n [] once = ground (arith, lookup-nil {V = ℕ} n)
lookup-stop_removed keep n ((m, p) ∷ d) (fresh, once) = ground (
  arith,
  lookup-cons n m p d,
  lookup-cons n m p (stop_removed keep d),
  lookup-stop_removed keep n d once,
  bytes_eq_iff m n,
)

stop_removed-NodupKeys :
    (keep : Bytes → Bool) (d : Listeners) → NodupKeys d → NodupKeys (stop_removed keep d)
unfolding stop_removed
stop_removed-NodupKeys keep [] once = tt
stop_removed-NodupKeys keep ((m, p) ∷ d) (fresh, once) =
    ground (arith, stop_removed-NodupKeys keep d once, lookup-stop_removed keep m d once)

-- What one round of the start loop does for its own name, and for the others.
module _ (listen : ℕ → Bool) (r : PortRange) (name : Bytes) (d : Listeners) where
  start_cases :
      (start_listener listen r name d ≡ d)
      ⊎ ((port : ℕ) × (allocate_port r d name ≡ ok port)
          × (lookup name d ≡ none)
          × (listen port ≡ true)
          × (start_listener listen r name d ≡ insert name port d))
  unfolding start_listener
  start_cases = elim (Option-cases (lookup name d)) [
    | inr (port, at) ↦ inl (rw (at, start_listener))
    | inl fresh ↦ elim (Result-cases (allocate_port r d name)) [
      | inr (e, failed) ↦ inl (rw (fresh, failed, start_listener))
      | inl (port, found) ↦ elim (Bool-cases (listen port)) [
        | inr refused ↦ inl (rw (fresh, found, refused, start_listener))
        | inl up ↦ inr (port, found, fresh, up, rw (fresh, found, up, start_listener))
      ]
    ]
  ]

  start-IsAllocated :
      r.start < r.end → IsAllocated r d → IsAllocated r (start_listener listen r name d)
  start-IsAllocated range a = elim start_cases [
    | inl same ↦ rw same a
    | inr (port, found, fresh, up, eq) ↦
        let (lo, hi, alone) = allocate_port_ok r d name port range found in
        rw eq (record {
          once = insert-NodupKeys name port d a.once;
          apart = λ n m p at at'. elim (insert_inv name n port p d at) [
            | inl (here, on) ↦ elim (insert_inv name m port p d at') [
              | inl (here', _) ↦ here ∙ sym here'
              | inr old' ↦ here ∙ sym (alone m (old' ∙ ap some on))
            ]
            | inr old ↦ elim (insert_inv name m port p d at') [
              | inl (here', on') ↦ alone n (old ∙ ap some on') ∙ sym here'
              | inr old' ↦ a.apart n m p old old'
            ]
          ];
          within = λ n p at. elim (insert_inv name n port p d at) [
            | inl (_, on) ↦ (omega arith, omega arith)
            | inr old ↦ a.within n p old
          ];
        })
  ]

  start_keeps :
      (n : Bytes) (p : ℕ) → lookup n d ≡ some p → lookup n (start_listener listen r name d) ≡ some p
  start_keeps n p at = elim start_cases [
    | inl same ↦ rw same at
    | inr (port, found, fresh, up, eq) ↦
        rw eq (ground (arith, lookup-insert name n port d, bytes_eq_iff name n))
  ]

  start_only :
      (n : Bytes) (p : ℕ)
      → lookup n (start_listener listen r name d) ≡ some p
      → (n ≡ name) ⊎ (lookup n d ≡ some p)
  start_only n p at = elim start_cases [
    | inl same ↦ inr (rw same at at)
    | inr (port, found, fresh, up, eq) ↦ elim (insert_inv name n port p d (rw eq at at)) [
      | inl (here, _) ↦ inl here
      | inr old ↦ inr old
    ]
  ]

-- Every port of the range has a listener.
abbrev pub IsFull : PortRange → Listeners → Type 0
IsFull r d = (p : ℕ) → r.start ≤ p → p < r.end → (n : Bytes) × (lookup n d ≡ some p)

module _ (listen : ℕ → Bool) (r : PortRange) (range : r.start < r.end) where
  start_starts :
      (name : Bytes) (d : Listeners)
      → NodupKeys d
      → ((p : ℕ) → listen p ≡ true)
      → ((p : ℕ) × (lookup name (start_listener listen r name d) ≡ some p)) ⊎ IsFull r d
  unfolding start_listener
  start_starts name d once up = elim (Option-cases (lookup name d)) [
    | inr (port, at) ↦ inl (port, start_keeps listen r name d name port at)
    | inl fresh ↦ elim (Result-cases (allocate_port r d name)) [
      | inr (e, failed) ↦ inr (allocate_port_err r d name e range once failed).1
      | inl (port, found) ↦
          inl (port, rw (fresh, found, up port, start_listener) (lookup-insert_self name port d))
    ]
  ]

  starts-IsAllocated :
      (names : List Bytes) (d : Listeners)
      → IsAllocated r d
      → IsAllocated r (start_listeners listen r names d)
  unfolding start_listeners
  starts-IsAllocated [] d a = a
  starts-IsAllocated (name ∷ names) d a =
      starts-IsAllocated names (start_listener listen r name d)
        (start-IsAllocated listen r name d range a)

  starts_keep :
      (names : List Bytes) (d : Listeners) (n : Bytes) (p : ℕ)
      → lookup n d ≡ some p
      → lookup n (start_listeners listen r names d) ≡ some p
  unfolding start_listeners
  starts_keep [] d n p at = at
  starts_keep (name ∷ names) d n p at =
      starts_keep names (start_listener listen r name d) n p (start_keeps listen r name d n p at)

  starts_only :
      (names : List Bytes) (d : Listeners) (n : Bytes) (p : ℕ)
      → lookup n (start_listeners listen r names d) ≡ some p
      → (contains n names ≡ true) ⊎ (lookup n d ≡ some p)
  unfolding start_listeners
  starts_only [] d n p at = inr at
  starts_only (name ∷ names) d n p at =
      elim (starts_only names (start_listener listen r name d) n p at) [
        | inl among ↦ inl (ground arith)
        | inr there ↦ elim (start_only listen r name d n p there) [
          | inl same ↦ inl (ground (arith, bytes_eq_iff name n))
          | inr old ↦ inr old
        ]
      ]

  starts_start :
      (names : List Bytes) (d : Listeners) (n : Bytes)
      → IsAllocated r d
      → ((p : ℕ) → listen p ≡ true)
      → contains n names ≡ true
      → ((p : ℕ) × (lookup n (start_listeners listen r names d) ≡ some p))
        ⊎ IsFull r (start_listeners listen r names d)
  unfolding start_listeners
  starts_start [] d n a up among = absurd (cc among)
  starts_start (name ∷ names) d n a up among = elim (Bool-cases (name =? n)) [
    | inr differ ↦
        starts_start names (start_listener listen r name d) n
          (start-IsAllocated listen r name d range a) up (ground arith)
    | inl same ↦ elim (start_starts name d a.once up) [
      | inl (p, at) ↦ inl (
        p,
        starts_keep names (start_listener listen r name d) n p (
            subst (λ (k : Bytes). lookup k (start_listener listen r name d) ≡ some p)
              ((bytes_eq_iff name n).0 same) at),
      )
      | inr full ↦ inr λ p lo hi.
          let (m, at) = full p lo hi in
          (
            m,
            starts_keep names (start_listener listen r name d) m p
                (start_keeps listen r name d m p at),
          )
    ]
  ]

-- What a run of syncTCPListeners makes of the listeners, for the machines that are connected.
pub record IsSynced (listen : ℕ → Bool) (r : PortRange) (clients : Clients) (d d' : Listeners)
    : Type 0 where
  pub claimed : (n : Bytes) (p : ℕ) → lookup n d' ≡ some p → claims_tcp clients n ≡ true
  pub kept :
      (n : Bytes) (p : ℕ) → lookup n d ≡ some p → claims_tcp clients n ≡ true → lookup n d' ≡ some p
  pub started :
      (n : Bytes)
      → ((p : ℕ) → listen p ≡ true)
      → claims_tcp clients n ≡ true
      → ((p : ℕ) × (lookup n d' ≡ some p)) ⊎ IsFull r d'

module _ (listen : ℕ → Bool) (r : PortRange) (names : List Bytes) (clients : Clients)
    (d : Listeners) where
  stopped-IsAllocated :
      (keep : Bytes → Bool) → IsAllocated r d → IsAllocated r (stop_removed keep d)
  stopped-IsAllocated keep a =
      let back : (n : Bytes) (p : ℕ)
          → lookup n (stop_removed keep d) ≡ some p
          → lookup n d ≡ some p =
        λ n p at. ground (arith, lookup-stop_removed keep n d a.once) in
      record {
        once = stop_removed-NodupKeys keep d a.once;
        apart = λ n m p at at'. a.apart n m p (back n p at) (back m p at');
        within = λ n p at. a.within n p (back n p at);
      }

  -- After syncTCPListeners, as before it, no two routes listen on one port, and every port lies in
  -- the configured range.
  pub sync-IsAllocated :
      r.start < r.end
      → IsAllocated r d
      → IsAllocated r (sync_tcp_listeners listen r names clients d)
  unfolding sync_tcp_listeners
  sync-IsAllocated range a =
      starts-IsAllocated listen r range names (stop_removed (claims_tcp clients) d)
        (stopped-IsAllocated (claims_tcp clients) a)

  -- After syncTCPListeners, in whatever order it goes through the names of the claimed TCP routes,
  -- every listener serves a route that a connected machine claims, a listener whose route is still
  -- claimed has kept its port, and, if listening succeeds, every claimed route has a listener unless
  -- every port of the range is taken.
  pub sync-IsSynced :
      r.start < r.end
      → IsAllocated r d
      → ((n : Bytes) → (contains n names ≡ true) ↔ (claims_tcp clients n ≡ true))
      → IsSynced listen r clients d (sync_tcp_listeners listen r names clients d)
  unfolding sync_tcp_listeners
  sync-IsSynced range a keys =
      let stopped = stop_removed (claims_tcp clients) d in
      record {
        claimed = λ n p at. elim (starts_only listen r range names stopped n p at) [
          | inl among ↦ (keys n).0 among
          | inr old ↦ ground (arith, lookup-stop_removed (claims_tcp clients) n d a.once)
        ];
        kept = λ n p at claim.
            starts_keep listen r range names stopped n p
              (ground (arith, lookup-stop_removed (claims_tcp clients) n d a.once));
        started = λ n up claim.
            starts_start listen r range names stopped n (stopped-IsAllocated (claims_tcp clients) a)
              up ((keys n).1 claim);
      }
