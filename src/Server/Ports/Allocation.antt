-- ===== src/Server/Ports/Allocation.antt =====
-- What allocatePort returns.
use mathlib.Core.Bool.{false≢true}
use etunl_cli.Base.{
  ◌⊎◌, sym, ◌∙◌, ℕ, zero, suc, ◌+◌, ◌-◌, ◌<◌, ◌≤◌, ◌≡◌, true, false, none, some, [], ◌∷◌, ok, err,
  ◌==◌, arith, Bool-cases, inl, inr,
}
use etunl_cli.Base.Bytes.{Bytes, bytes_is_eq, bytes_eq_iff}
use etunl_cli.Base.Dict.{NodupKeys, lookup, lookup-nil, lookup-cons, lookup-cons_self, lookup_later}
use etunl_cli.Server.Ports.{
  Listeners, taken, taken_by_other, scan, PortError, no_free_ports, PortRange, hashed_port,
  allocate_port,
}

pub taken_complete : (d : Listeners) (n : Bytes) (p : ℕ) → lookup n d ≡ some p → taken p d ≡ true
unfolding taken
taken_complete [] n p h = absurd (cc (lookup-nil {V = ℕ} n))
taken_complete ((m, q) ∷ d) n p h = ground (arith, lookup-cons n m q d, taken_complete d n p)

pub taken_sound :
    (d : Listeners) (p : ℕ) → NodupKeys d → taken p d ≡ true → (n : Bytes) × (lookup n d ≡ some p)
unfolding taken
taken_sound [] p once h = absurd (cc h)
taken_sound ((m, q) ∷ d) p (fresh, once) h = elim (Bool-cases (q == p)) [
  | inl here ↦ (m, ground (arith, lookup-cons_self m q d))
  | inr other ↦
      let (n, at) = taken_sound d p once (ground arith) in (n, lookup_later m n q p d fresh at)
]

pub other_complete :
    (d : Listeners) (n route : Bytes) (p : ℕ)
    → lookup n d ≡ some p
    → taken_by_other p route d ≡ false
    → n ≡ route
unfolding taken_by_other
other_complete [] n route p h free = absurd (cc (lookup-nil {V = ℕ} n))
other_complete ((m, q) ∷ d) n route p h free =
    ground (
      arith,
      lookup-cons n m q d,
      other_complete d n route p,
      bytes_eq_iff m route,
      bytes_eq_iff m n,
    )

scan-some :
    (rounds p : ℕ) (d : Listeners) (q : ℕ)
    → scan rounds p d ≡ some q
    → (p ≤ q) × (q < p + rounds) × (taken q d ≡ false)
unfolding scan
scan-some zero p d q h = absurd (cc h)
scan-some (suc rounds) p d q h = ground (arith, scan-some rounds (p + 1) d q)

scan-none :
    (rounds p : ℕ) (d : Listeners) (q : ℕ)
    → scan rounds p d ≡ none
    → p ≤ q
    → q < p + rounds
    → taken q d ≡ true
unfolding scan
scan-none zero p d q h lo hi = absurd (omega arith)
scan-none (suc rounds) p d q h lo hi = elim (Bool-cases (p == q)) [
  | inl same ↦ ground arith
  | inr differ ↦ scan-none rounds (p + 1) d q (ground arith) (ground arith) (omega arith)
]

module _ (r : PortRange) (d : Listeners) (route : Bytes) where
  hashed_port_range :
      r.start < r.end → (r.start ≤ hashed_port r route) × (hashed_port r route < r.end)
  unfolding hashed_port
  hashed_port_range range = omega arith

  -- The two ways in which allocatePort succeeds over a configured range, and the one in which it fails.
  allocate_cases :
      (p : ℕ)
      → r.start < r.end
      → allocate_port r d route ≡ ok p
      → ((taken_by_other p route d ≡ false) × (hashed_port r route ≡ p))
        ⊎ (scan (r.end - r.start) r.start d ≡ some p)
  unfolding allocate_port
  allocate_cases p range h = ground arith

  allocate_fails :
      (e : PortError)
      → r.start < r.end
      → allocate_port r d route ≡ err e
      → (e ≡ no_free_ports)
        × (taken_by_other (hashed_port r route) route d ≡ true)
        × (scan (r.end - r.start) r.start d ≡ none)
  unfolding allocate_port
  allocate_fails e range h = ground arith

  -- A port that allocatePort returns lies in the configured range, and no other route listens on it.
  pub allocate_port_ok :
      (p : ℕ)
      → r.start < r.end
      → allocate_port r d route ≡ ok p
      → (r.start ≤ p) × (p < r.end) × ((n : Bytes) → lookup n d ≡ some p → n ≡ route)
  allocate_port_ok p range h = elim (allocate_cases p range h) [
    | inl (free, eq) ↦
        let (lo, hi) = hashed_port_range range in
        (omega arith, omega arith, λ n at. other_complete d n route p at free)
    | inr found ↦
        let (lo, hi, free) = scan-some (r.end - r.start) r.start d p found in
        (lo, omega arith, λ n at. absurd (false≢true (sym free ∙ taken_complete d n p at)))
  ]

  -- allocatePort fails over a configured range only where every port of the range is taken by a
  -- running listener; the error says that no port is free.
  pub allocate_port_err :
      (e : PortError)
      → r.start < r.end
      → NodupKeys d
      → allocate_port r d route ≡ err e
      → (e ≡ no_free_ports)
        × ((p : ℕ) → r.start ≤ p → p < r.end → (n : Bytes) × (lookup n d ≡ some p))
  allocate_port_err e range once h =
      let (eq, _, full) = allocate_fails e range h in
      (
        eq,
        λ p lo hi.
            taken_sound d p once (scan-none (r.end - r.start) r.start d p full lo (omega arith)),
      )
