-- ===== src/Server/Metrics/Ordering.antt =====
-- The order that Snapshot sorts by, as sort.Slice wants it.
use etunl_cli.Base.{◌≡◌, ◌⊎◌, inl, inr, refl, true, false, [], ◌∷◌, arith}
use etunl_cli.Base.Bytes.{Bytes}
use etunl_cli.Server.Metrics.{Activity, bytes_lt, more_active}

bytes_lt_irrefl : (xs : Bytes) → bytes_lt xs xs ≡ false
unfolding bytes_lt
bytes_lt_irrefl [] = refl
bytes_lt_irrefl (x ∷ xs) = ground (arith, bytes_lt_irrefl xs)

bytes_lt_trans :
    (xs ys zs : Bytes) → bytes_lt xs ys ≡ true → bytes_lt ys zs ≡ true → bytes_lt xs zs ≡ true
unfolding bytes_lt
bytes_lt_trans [] [] zs h k = cc
bytes_lt_trans [] (y ∷ ys) [] h k = cc
bytes_lt_trans [] (y ∷ ys) (z ∷ zs) h k = refl
bytes_lt_trans (x ∷ xs) [] zs h k = cc
bytes_lt_trans (x ∷ xs) (y ∷ ys) [] h k = cc
bytes_lt_trans (x ∷ xs) (y ∷ ys) (z ∷ zs) h k = ground (arith, bytes_lt_trans xs ys zs)

bytes_lt_total : (xs ys : Bytes) → (bytes_lt xs ys ≡ true) ⊎ (xs ≡ ys) ⊎ (bytes_lt ys xs ≡ true)
unfolding bytes_lt
bytes_lt_total [] [] = inr (inl refl)
bytes_lt_total [] (y ∷ ys) = inl refl
bytes_lt_total (x ∷ xs) [] = inr (inr refl)
bytes_lt_total (x ∷ xs) (y ∷ ys) = ground (arith, bytes_lt_total xs ys)

-- Snapshot's comparison is a strict order, as sort.Slice wants it, and two entries that it leaves
-- undecided are of one route: the order of a snapshot is determined.
pub more_active_order :
    (a b c : Activity)
    → (more_active a a ≡ false)
      × (more_active a b ≡ true → more_active b c ≡ true → more_active a c ≡ true)
      × ((more_active a b ≡ true) ⊎ (a.route ≡ b.route) ⊎ (more_active b a ≡ true))
unfolding more_active
more_active_order a b c = (
  ground (arith, bytes_lt_irrefl a.route),
  λ h k. ground (arith, bytes_lt_trans a.route b.route c.route),
  ground (arith, bytes_lt_total a.route b.route),
)
