-- ===== src/Server/Metrics/Snapshot/Determined.antt =====
-- Why the order in which Go goes through the map of the routes does not show in a snapshot.
use mathlib.Core.Logic.Or
use mathlib.Core.List.{map, Mem, Perm, Pairwise, mem-cons, not-mem-nil}
use mathlib.Core.List.Perm
use etunl_cli.Base.{
  ◌≡◌, ◌≢◌, ◌∙◌, refl, sym, ap, Bool, Option, List, [], ◌∷◌, true_ne_false, none, ◌=?◌,
  none_ne_some, if_split,
}
use etunl_cli.Base.Bytes.{Bytes, bytes_is_eq, bytes_eq_iff}
use etunl_cli.Base.Dict.{lookup}
use etunl_cli.Server.Metrics.{RouteMetrics, Registry}
use etunl_cli.Server.Metrics.Snapshot.{
  Traffic, registry_after, Floats, snapshot, all_snapshots, snapshots,
}
use etunl_cli.Server.Metrics.Snapshot.Ordered.{
  Snap, Apart, Apart-prop, IsSortOf, InOrder-eq_of_perm,
}
use etunl_cli.Server.Metrics.Snapshot.Entries.{IsKeyed, IsRegistry, registry_after-IsRegistry}

ne-none-prop : (o : Option RouteMetrics) → IsProp (o ≢ none)
ne-none-prop o = hlevel

module _ (fl : Floats) where
  lookup-ne-none :
      (x : Snap fl) (reg : Registry)
      → IsKeyed reg
      → Mem x (all_snapshots fl reg)
      → lookup x.route reg ≢ none
  unfolding all_snapshots lookup snapshot
  lookup-ne-none x [] h m = absurd (not-mem-nil m)
  lookup-ne-none x ((k, n) ∷ reg) (keyed, h) m =
      Or.elim (ne-none-prop _) (mem-cons.0 m)
        (λ same.
          let e : k ≡ x.route = sym (ap (λ (y : Snap fl). y.route) same ∙ keyed) in
          if_split (λ o. o ≢ none) (k =? x.route) (λ _ bad. none_ne_some (sym bad))
            (λ other. absurd (true_ne_false (sym ((bytes_eq_iff k x.route).1 e) ∙ other))))
        (λ deep.
          if_split (λ o. o ≢ none) (k =? x.route) (λ _ bad. none_ne_some (sym bad))
            (λ _. lookup-ne-none x reg h deep))

  snapshots-Apart : (reg : Registry) → IsRegistry reg → Pairwise (Apart fl) (all_snapshots fl reg)
  unfolding all_snapshots snapshot
  snapshots-Apart [] h = Pairwise.nil
  snapshots-Apart ((k, m) ∷ reg) ((fresh, once), (keyed, h)) =
      Pairwise.cons (λ x mem e. lookup-ne-none x reg h mem (rw (← (sym keyed ∙ e)) fresh))
        (snapshots-Apart reg (once, h))

  all_snapshots-map :
      (reg : Registry)
      → all_snapshots fl reg ≡ map (λ (e : Bytes × RouteMetrics). snapshot fl e.1) reg
  unfolding all_snapshots
  all_snapshots-map [] = refl
  all_snapshots-map ((k, m) ∷ reg) = ap (◌∷◌ (snapshot fl m)) (all_snapshots-map reg)

  all_snapshots-perm :
      (reg reg' : Registry) → Perm reg reg' → Perm (all_snapshots fl reg) (all_snapshots fl reg')
  all_snapshots-perm reg reg' p =
      rw (all_snapshots-map reg, all_snapshots-map reg')
        (Perm.map (λ (e : Bytes × RouteMetrics). snapshot fl e.1) p)

-- Behind any calls, a snapshot is the same in whatever order Go goes through the map of the routes, and
-- however sort.Slice treats what it may put in any order.
pub snapshots-determined :
    (fl : Floats) (ts : List Traffic) (r s : Registry)
    (sort sort' : (Snap fl → Snap fl → Bool) → List (Snap fl) → List (Snap fl))
    → Perm r (registry_after ts)
    → Perm s (registry_after ts)
    → IsSortOf fl (snapshots fl sort r) (all_snapshots fl r)
    → IsSortOf fl (snapshots fl sort' s) (all_snapshots fl s)
    → snapshots fl sort r ≡ snapshots fl sort' s
snapshots-determined fl ts r s sort sort' p q sorted sorted' =
    let reg = registry_after ts in
    let left = Perm.trans sorted.perm (all_snapshots-perm fl r reg p) in
    let right = Perm.trans sorted'.perm (all_snapshots-perm fl s reg q) in
    InOrder-eq_of_perm fl _ _
      (Perm.pairwise (Apart-prop fl) (λ x y h e. h (sym e)) (Perm.symm left)
        (snapshots-Apart fl reg (registry_after-IsRegistry ts)))
      sorted.ordered sorted'.ordered (Perm.trans left (Perm.symm right))
