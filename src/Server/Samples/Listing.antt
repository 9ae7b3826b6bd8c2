-- ===== src/Server/Samples/Listing.antt =====
-- The order in which a snapshot lists the buckets.
use etunl_cli.Base.{ℕ, zero, suc, ◌+◌, ◌-◌, ◌%◌, ◌≤◌, ◌<◌, ◌≡◌, refl, ◌∙◌, arith, get_elem?, some}
use etunl_cli.Server.Samples.{Ring, ordered_from, ordered_samples}
use etunl_cli.Server.Samples.Window.{slot, IsRing}

ordered_from-get :
    (left i j : ℕ) (r : Ring)
    → r.head < 60
    → i + left ≤ 60
    → j < left
    → get_elem? (ordered_from left i r) j ≡ some (slot r (59 - (i + j)))
unfolding ordered_from
ordered_from-get zero i j r hh hl hj = absurd (omega arith)
ordered_from-get (suc left) i zero r hh hl hj =
    let same : (r.head + 1 + i) % 60 ≡ (r.head + 60 - (59 - (i + 0))) % 60 = omega arith in
    rw same refl
ordered_from-get (suc left) i (suc j) r hh hl hj =
    let same : i + 1 + j ≡ i + suc j = omega arith in
    rw (ordered_from-get left (i + 1) j r hh (omega arith) (omega arith), same) refl

-- A snapshot lists the sixty buckets from the oldest to the newest.
pub ordered_samples-get :
    (r : Ring) (j : ℕ)
    → IsRing r
    → j < 60
    → get_elem? (ordered_samples r) j ≡ some (slot r (59 - j))
unfolding ordered_samples
ordered_samples-get r j (hl, hh) hj =
    let at : 0 + j ≡ j = omega arith in ordered_from-get 60 0 j r hh (omega arith) hj ∙ rw at refl
