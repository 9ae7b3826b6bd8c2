-- ===== src/Server/Metrics/Snapshot/Entries.antt =====
-- The map of a Registry has a route once, under its name.
use etunl_cli.Base.{
  ℕ, ◌≡◌, ◌∙◌, refl, List, [], ◌∷◌, inl, inr, some, arith, ◌=?◌, none_ne_some, if_split,
  Option-cases, ◌==◌,
}
use etunl_cli.Base.Bytes.{Bytes, codes, bytes_is_eq, bytes_eq_iff}
use etunl_cli.Base.Dict.{lookup, insert, NodupKeys, insert-NodupKeys}
use etunl_cli.Base.Int.{ℤ, pos_part}
use etunl_cli.Server.Metrics.{
  RouteMetrics, Registry, get, new_metrics, record_latency, counted, sampled, record_http_request,
  record_bytes_in, record_bytes_out, open_conn, close_conn,
}
use etunl_cli.Server.Metrics.Snapshot.{
  Traffic, http_done, went_in, went_out, opened, closed, counted_in, registry_after,
}

-- The entry of a route carries its name.
abbrev pub IsKeyed : Registry → Type 0
IsKeyed [] = Unit
IsKeyed ((route, m) ∷ reg) = (m.route ≡ route) × IsKeyed reg

lookup-IsKeyed :
    (route : Bytes) (m : RouteMetrics) (reg : Registry)
    → IsKeyed reg
    → lookup route reg ≡ some m
    → m.route ≡ route
unfolding lookup
lookup-IsKeyed route m [] h e = absurd (none_ne_some e)
lookup-IsKeyed route m ((k, n) ∷ reg) (keyed, h) e =
    ground (arith, bytes_eq_iff k route, lookup-IsKeyed route m reg h)

insert-IsKeyed :
    (route : Bytes) (m : RouteMetrics) (reg : Registry)
    → m.route ≡ route
    → IsKeyed reg
    → IsKeyed (insert route m reg)
unfolding insert
insert-IsKeyed route m [] e h = (e, tt)
insert-IsKeyed route m ((k, n) ∷ reg) e (keyed, h) =
    if_split IsKeyed (k =? route) (λ _. (e, h)) (λ _. (keyed, insert-IsKeyed route m reg e h))

get-route :
    (now : ℕ) (reg : Registry) (machine route type : Bytes)
    → IsKeyed reg
    → (get now reg machine route type).route ≡ route
unfolding get new_metrics
get-route now reg machine route type h = elim (Option-cases (lookup route reg)) [
  | inl fresh ↦ rw (get, fresh) refl
  | inr (m, known) ↦ rw (get, known) (lookup-IsKeyed route m reg h known)
]

abbrev pub IsRegistry : Registry → Type 0
IsRegistry reg = NodupKeys reg × IsKeyed reg

insert-IsRegistry :
    (route : Bytes) (m : RouteMetrics) (reg : Registry)
    → m.route ≡ route
    → IsRegistry reg
    → IsRegistry (insert route m reg)
insert-IsRegistry route m reg e (once, keyed) =
    (insert-NodupKeys route m reg once, insert-IsKeyed route m reg e keyed)

record_latency-route : (d : ℤ) (m : RouteMetrics) → (record_latency d m).route ≡ m.route
unfolding record_latency
record_latency-route d m = ground arith

counted_in-IsRegistry :
    (t : Traffic) (reg : Registry) → IsRegistry reg → IsRegistry (counted_in t reg)
unfolding counted_in record_http_request record_bytes_in record_bytes_out open_conn close_conn
    counted sampled
counted_in-IsRegistry (http_done now machine route dur) reg h =
    insert-IsRegistry route _ reg
      (record_latency-route dur _ ∙ get-route now reg machine route (codes "http") h.1) h
counted_in-IsRegistry (went_in now machine route type n) reg h =
    if_split IsRegistry (pos_part n == 0) (λ _. h)
      (λ _. insert-IsRegistry route _ reg (get-route now reg machine route type h.1) h)
counted_in-IsRegistry (went_out now machine route type n) reg h =
    if_split IsRegistry (pos_part n == 0) (λ _. h)
      (λ _. insert-IsRegistry route _ reg (get-route now reg machine route type h.1) h)
counted_in-IsRegistry (opened now machine route type) reg h =
    insert-IsRegistry route _ reg (get-route now reg machine route type h.1) h
counted_in-IsRegistry (closed now machine route type) reg h =
    insert-IsRegistry route _ reg (get-route now reg machine route type h.1) h

pub registry_after-IsRegistry : (ts : List Traffic) → IsRegistry (registry_after ts)
unfolding registry_after
registry_after-IsRegistry [] = (tt, tt)
registry_after-IsRegistry (t ∷ ts) =
    counted_in-IsRegistry t (registry_after ts) (registry_after-IsRegistry ts)
