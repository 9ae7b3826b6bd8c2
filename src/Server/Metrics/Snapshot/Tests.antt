-- ===== src/Server/Metrics/Snapshot/Tests.antt =====
-- Two routes, gone through in both orders, and the theorem at this input. The floats of the test are
-- numbers.
use mathlib.Core.List.{Perm, Pairwise, Pairwise-singleton, mem-cons, not-mem-nil}
use mathlib.Core.List.Perm
use mathlib.Core.Logic.Or
use mathlib.Core.Bool.{Bool-set}
use native.Mathlib.Nat.{ℕ_set}
use etunl_cli.Base.{
  ℕ, ◌/◌, ◌≡◌, ◌∙◌, sym, Bool, true, false, List, [], ◌∷◌, if◌then◌else◌, Bool-cases, inl, inr,
  true_ne_false,
}
use etunl_cli.Base.Bytes.{codes, bytes_eq}
use etunl_cli.Base.Dict.{insert}
use etunl_cli.Base.Int.{pos}
use etunl_cli.Server.Metrics.{Registry, open_conn, record_bytes_in}
use etunl_cli.Server.Metrics.Ordering.{more_active_order}
use etunl_cli.Server.Metrics.Snapshot.{
  Floats, Traffic, opened, went_in, counted_in, registry_after, activity_of, comes_first,
  all_snapshots, snapshots,
}
use etunl_cli.Server.Metrics.Snapshot.Ordered.{Snap, InOrder, IsSortOf}
use etunl_cli.Server.Metrics.Snapshot.Determined.{snapshots-determined}

abbrev whole : Floats
whole = record { Float = ℕ; of_nat = λ n. n; div = λ a b. a / b; is_set = ℕ_set }

-- A sort of at most two elements.
sort_two : (Snap whole → Snap whole → Bool) → List (Snap whole) → List (Snap whole)
sort_two less (a ∷ b ∷ []) = if less b a then b ∷ a ∷ [] else a ∷ b ∷ []
sort_two less xs = xs

asymmetric : (a b : Snap whole) → comes_first whole b a ≡ true → comes_first whole a b ≡ false
unfolding comes_first
asymmetric a b h = elim (Bool-cases (comes_first whole a b)) [
  | inr no_less ↦ no_less
  | inl less ↦
      let x = activity_of whole a in
      let y = activity_of whole b in
      absurd
        (true_ne_false (sym ((more_active_order x y x).1 less h) ∙ (more_active_order x y x).0))
]

less-prop : (a x : Snap whole) → IsProp (InOrder whole a x)
less-prop a x = hlevel Bool-set

pair-InOrder : (a b : Snap whole) → InOrder whole a b → Pairwise (InOrder whole) (a ∷ b ∷ [])
pair-InOrder a b h =
    Pairwise.cons
      (λ x m.
        Or.elim (less-prop a x) (mem-cons.0 m) (λ same. rw same h)
          (λ deep. absurd (not-mem-nil deep)))
      (Pairwise-singleton _ b)

two-IsSortOf :
    (a b : Snap whole) → IsSortOf whole (sort_two (comes_first whole) (a ∷ b ∷ [])) (a ∷ b ∷ [])
unfolding sort_two
two-IsSortOf a b = elim (Bool-cases (comes_first whole b a)) [
  | inl less ↦
      rw less (record { perm = Perm.swap a b []; ordered = pair-InOrder b a (asymmetric a b less) })
  | inr rest ↦ rw rest (record { perm = Perm.refl (a ∷ b ∷ []); ordered = pair-InOrder a b rest })
]

abbrev traffic : List Traffic
traffic =
    opened 7 (codes "m") (codes "a") (codes "tcp")
    ∷ went_in 8 (codes "m") (codes "b") (codes "http") (pos 5)
    ∷ []

-- The map gone through from its second entry on.
abbrev other_way : Registry → Registry
other_way (a ∷ b ∷ reg) = b ∷ a ∷ reg
other_way reg = reg

other_way-perm : (reg : Registry) → Perm (other_way reg) reg
other_way-perm [] = Perm.refl []
other_way-perm (a ∷ []) = Perm.refl (a ∷ [])
other_way-perm (a ∷ b ∷ reg) = Perm.swap a b reg

snapshots-determined_example :
    snapshots whole sort_two (registry_after traffic)
    ≡ snapshots whole sort_two (other_way (registry_after traffic))
unfolding registry_after counted_in snapshots all_snapshots open_conn record_bytes_in insert
    bytes_eq
snapshots-determined_example =
    snapshots-determined whole traffic (registry_after traffic) (other_way (registry_after traffic))
      sort_two sort_two (Perm.refl (registry_after traffic))
      (other_way-perm (registry_after traffic)) (two-IsSortOf _ _) (two-IsSortOf _ _)
