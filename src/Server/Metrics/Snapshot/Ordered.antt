-- ===== src/Server/Metrics/Snapshot/Ordered.antt =====
-- What sort.Slice may make of the snapshots of the routes: there is one order only.
use mathlib.Core.Logic.Or
use mathlib.Core.Bool.{Bool-set}
use mathlib.Core.List.{Mem, Perm, Pairwise, mem-cons, mem-cons_self}
use mathlib.Core.List.Pairwise
use mathlib.Core.List.Perm
use etunl_cli.Base.{◌≡◌, ◌≢◌, ◌∙◌, sym, ap, false, List, [], ◌∷◌, inl, inr, true_ne_false}
use etunl_cli.Base.Bytes.{bytes_is_eq}
use etunl_cli.Server.Metrics.Ordering.{more_active_order}
use etunl_cli.Server.Metrics.Snapshot.{Floats, RouteSnapshot, activity_of, comes_first}

module _ (fl : Floats) where
  abbrev pub Snap : Type 0
  Snap = RouteSnapshot fl

  Snap-set : IsSet Snap
  Snap-set = hlevel fl.is_set

  -- `sort.Slice` leaves no element before one that is less.
  abbrev pub InOrder : Snap → Snap → Type 0
  InOrder a b = comes_first fl b a ≡ false

  abbrev pub Apart : Snap → Snap → Type 0
  Apart a b = a.route ≢ b.route

  InOrder-prop : (a b : Snap) → IsProp (InOrder a b)
  InOrder-prop a b = hlevel Bool-set

  pub Apart-prop : (a b : Snap) → IsProp (Apart a b)
  Apart-prop a b = hlevel

  -- What sort.Slice makes of a list.
  pub record IsSortOf (xs ys : List Snap) : Type 0 where
    pub perm : Perm xs ys
    pub ordered : Pairwise InOrder xs

  irreflexive : (a : Snap) → InOrder a a
  unfolding comes_first
  irreflexive a = (more_active_order (activity_of fl a) (activity_of fl a) (activity_of fl a)).0

  undecided : (a b : Snap) → InOrder a b → InOrder b a → a.route ≡ b.route
  unfolding comes_first activity_of
  undecided a b h k =
      elim (more_active_order (activity_of fl a) (activity_of fl b) (activity_of fl a)).2 [
        | inl first ↦ absurd (true_ne_false (sym first ∙ k))
        | inr (inl same) ↦ same
        | inr (inr second) ↦ absurd (true_ne_false (sym second ∙ h))
      ]

  head-InOrder :
      {a b : Snap} {l : List Snap} → Pairwise InOrder (a ∷ l) → Mem b (a ∷ l) → InOrder a b
  head-InOrder {a} {b} (Pairwise.cons h _) m =
      Or.elim (InOrder-prop a b) (mem-cons.0 m)
        (λ same. ap (λ x. comes_first fl x a) same ∙ irreflexive a) (h b)

  head-Apart :
      {a b : Snap} {l : List Snap}
      → Pairwise Apart (a ∷ l)
      → Mem b (a ∷ l)
      → a.route ≡ b.route
      → b ≡ a
  head-Apart {a} {b} (Pairwise.cons h _) m e =
      Or.elim (Snap-set b a) (mem-cons.0 m) (λ same. same) (λ deep. absurd (h b deep e))

  -- The first elements of two orders of one list are the same.
  heads_same :
      (a b : Snap) (l r : List Snap)
      → Pairwise Apart (a ∷ l)
      → Pairwise InOrder (a ∷ l)
      → Pairwise InOrder (b ∷ r)
      → Perm (a ∷ l) (b ∷ r)
      → b ≡ a
  heads_same a b l r apart first second same =
      let b_there = (Perm.mem_iff (Perm.symm same)).0 mem-cons_self in
      let a_there = (Perm.mem_iff same).0 mem-cons_self in
      head-Apart apart b_there
        (undecided a b (head-InOrder first b_there) (head-InOrder second a_there))

  -- A list has one order in which nothing stands before what is less, if no two routes are the same.
  pub InOrder-eq_of_perm :
      (l r : List Snap)
      → Pairwise Apart l
      → Pairwise InOrder l
      → Pairwise InOrder r
      → Perm l r
      → l ≡ r
  InOrder-eq_of_perm [] r _ _ _ same = Perm.nil-eq same
  InOrder-eq_of_perm (a ∷ l) [] _ _ _ same = Perm.eq-nil same
  InOrder-eq_of_perm (a ∷ l) (b ∷ r) apart first second same =
      let one = heads_same a b l r apart first second same in
      let moved : Perm (b ∷ l) (b ∷ r) = rw one (rw one at same) in
      rw one (
        ap (◌∷◌ a) (
          InOrder-eq_of_perm l r (Pairwise.of_cons apart) (Pairwise.of_cons first)
            (Pairwise.of_cons second) (Perm.cons_inv moved)))
