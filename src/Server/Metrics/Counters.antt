-- ===== src/Server/Metrics/Counters.antt =====
-- The counters of a route over a connection's life and over an HTTP request.
use etunl_cli.Base.{
  ℕ, ◌+◌, ◌%◌, ◌^◌, ◌<◌, ◌≡◌, ◌≢◌, refl, ◌∙◌, ap, sym, none, some, inl, inr, arith, Option-cases,
  Bool-cases, ◌==◌, ==_iff,
}
use native.Mathlib.Nat.{add-zero}
use etunl_cli.Base.Int.{pos}
use etunl_cli.Base.Bytes.{Bytes, bytes_is_eq}
use etunl_cli.Base.Dict.{lookup, insert, lookup-insert_ne, lookup-insert_self}
use etunl_cli.Server.Samples.{MetricSample, add64}
use etunl_cli.Server.Metrics.{
  Registry, RouteMetrics, new_metrics, get, one_request, counted, sampled, open_conn, close_conn,
  minus_one, record_bytes_in, record_bytes_out,
}

get-known :
    (now : ℕ) (reg : Registry) (machine route type : Bytes) (m : RouteMetrics)
    → lookup route reg ≡ some m
    → get now reg machine route type ≡ m
unfolding get
get-known now reg machine route type m h = rw (get, h) refl

open_conn-known :
    (now : ℕ) (machine route type : Bytes) (reg : Registry) (m : RouteMetrics)
    → lookup route reg ≡ some m
    → open_conn now machine route type reg
      ≡ insert route (sampled now one_request (counted 1 0 0 1 1 m)) reg
unfolding open_conn
open_conn-known now machine route type reg m h = rw (get-known now reg machine route type m h) refl

close_conn-known :
    (now : ℕ) (machine route type : Bytes) (reg : Registry) (m : RouteMetrics)
    → lookup route reg ≡ some m
    → close_conn now machine route type reg ≡ insert route (counted 0 0 0 0 minus_one m) reg
unfolding close_conn
close_conn-known now machine route type reg m h = rw (get-known now reg machine route type m h) refl

-- A connection that is opened and closed leaves the number of active connections of its route, and
-- adds one to its connections and its requests; the byte counters and the entries of the other
-- routes stay.
pub open_conn-close_conn :
    (t u : ℕ) (machine route type : Bytes) (reg : Registry) (m : RouteMetrics)
    → lookup route reg ≡ some m
    → m.active_conns < 2 ^ 64
    → m.bytes_in < 2 ^ 64
    → let reg' = close_conn u machine route type (open_conn t machine route type reg) in
      ((m' : RouteMetrics) × (lookup route reg' ≡ some m')
        × (m'.active_conns ≡ m.active_conns)
        × (m'.total_conns ≡ (m.total_conns + 1) % 2 ^ 64)
        × (m'.requests ≡ (m.requests + 1) % 2 ^ 64)
        × (m'.bytes_in ≡ m.bytes_in))
      × ((other : Bytes) → other ≢ route → lookup other reg' ≡ lookup other reg)
unfolding counted sampled
open_conn-close_conn t u machine route type reg m h ha hr =
    let opened = sampled t one_request (counted 1 0 0 1 1 m) in
    let closed = counted 0 0 0 0 minus_one opened in
    let reg' = insert route opened reg in
    let same : close_conn u machine route type (open_conn t machine route type reg)
        ≡ insert route closed reg' =
      rw (open_conn-known t machine route type reg m h)
        (close_conn-known u machine route type reg' opened (lookup-insert_self route opened reg)) in
    rw same (
      (
        closed,
        lookup-insert_self route closed reg',
        omega arith,
        omega arith,
        omega arith,
        omega arith,
      ),
      λ other ne.
          lookup-insert_ne route other closed reg' ne ∙ lookup-insert_ne route other opened reg ne,
    )

-- The counters of a route that the admin panel shows, zero for a route that has no entry.
pub record Tally : Type 0 where
  pub requests : ℕ
  pub bytes_in : ℕ
  pub bytes_out : ℕ
  pub total : ℕ
  pub active : ℕ

abbrev pub tally : RouteMetrics → Tally
tally m = record {
  requests = m.requests;
  bytes_in = m.bytes_in;
  bytes_out = m.bytes_out;
  total = m.total_conns;
  active = m.active_conns;
}

abbrev pub no_tally : Tally
no_tally = record { requests = 0; bytes_in = 0; bytes_out = 0; total = 0; active = 0 }

unfoldable pub tally_of : Bytes → Registry → Tally
tally_of route reg = elim (lookup route reg) [ none ↦ no_tally | some m ↦ tally m ]

abbrev pub plus : (r i o t a : ℕ) → Tally → Tally
plus r i o t a x = record {
  requests = add64 x.requests r;
  bytes_in = add64 x.bytes_in i;
  bytes_out = add64 x.bytes_out o;
  total = add64 x.total t;
  active = add64 x.active a;
}

tally-get :
    (now : ℕ) (reg : Registry) (machine route type : Bytes)
    → tally (get now reg machine route type) ≡ tally_of route reg
unfolding get new_metrics tally_of
tally-get now reg machine route type = elim (Option-cases (lookup route reg)) [
  | inl fresh ↦ rw (get, tally_of, fresh) refl
  | inr (m, known) ↦ rw (get, tally_of, known) refl
]

tally_of-insert :
    (route : Bytes) (m : RouteMetrics) (reg : Registry)
    → tally_of route (insert route m reg) ≡ tally m
unfolding tally_of
tally_of-insert route m reg = rw (tally_of, lookup-insert_self route m reg) refl

tally-counted :
    (route : Bytes) (r i o t a : ℕ) (m : RouteMetrics) (reg : Registry)
    → tally m ≡ tally_of route reg
    → tally_of route (insert route (counted r i o t a m) reg) ≡ plus r i o t a (tally_of route reg)
unfolding counted
tally-counted route r i o t a m reg h =
    tally_of-insert route (counted r i o t a m) reg ∙ ap (plus r i o t a) h

tally-sampled :
    (route : Bytes) (now : ℕ) (s : MetricSample) (r i o t a : ℕ) (m : RouteMetrics) (reg : Registry)
    → tally m ≡ tally_of route reg
    → tally_of route (insert route (sampled now s (counted r i o t a m)) reg)
      ≡ plus r i o t a (tally_of route reg)
unfolding counted sampled
tally-sampled route now s r i o t a m reg h =
    tally_of-insert route (sampled now s (counted r i o t a m)) reg ∙ ap (plus r i o t a) h

module _ (now : ℕ) (machine route type : Bytes) (reg : Registry) where
  pub tally-open_conn :
      tally_of route (open_conn now machine route type reg) ≡ plus 1 0 0 1 1 (tally_of route reg)
  unfolding open_conn
  tally-open_conn =
      tally-sampled route now one_request 1 0 0 1 1 (get now reg machine route type) reg
        (tally-get now reg machine route type)

  pub tally-close_conn :
      tally_of route (close_conn now machine route type reg)
      ≡ plus 0 0 0 0 minus_one (tally_of route reg)
  unfolding close_conn
  tally-close_conn =
      tally-counted route 0 0 0 0 minus_one (get now reg machine route type) reg
        (tally-get now reg machine route type)

-- Every counter is below 2^64, as an atomic uint64 is.
unfoldable pub IsWord : Tally → Type 0
IsWord x =
    (x.requests < 2 ^ 64)
    × (x.bytes_in < 2 ^ 64)
    × (x.bytes_out < 2 ^ 64)
    × (x.total < 2 ^ 64)
    × (x.active < 2 ^ 64)

add64_zero : (x : ℕ) → x < 2 ^ 64 → add64 x 0 ≡ x
add64_zero x h = omega arith

pub plus_zero : (x : Tally) → IsWord x → plus 0 0 0 0 0 x ≡ x
unfolding IsWord
plus_zero x (r, i, o, t, a) =
    rw
      (
        add64_zero x.requests r,
        add64_zero x.bytes_in i,
        add64_zero x.bytes_out o,
        add64_zero x.total t,
        add64_zero x.active a,
      )
      refl

pub plus-IsWord : (r i o t a : ℕ) (x : Tally) → IsWord (plus r i o t a x)
unfolding IsWord
plus-IsWord r i o t a x = (omega arith, omega arith, omega arith, omega arith, omega arith)

add64_twice : (x a b : ℕ) → add64 (add64 x a) b ≡ add64 x (a + b)
add64_twice x a b = omega arith

pub plus_twice :
    (r i o t a r' i' o' t' a' : ℕ) (x : Tally)
    → plus r' i' o' t' a' (plus r i o t a x) ≡ plus (r + r') (i + i') (o + o') (t + t') (a + a') x
plus_twice r i o t a r' i' o' t' a' x =
    rw
      (
        add64_twice x.requests r r',
        add64_twice x.bytes_in i i',
        add64_twice x.bytes_out o o',
        add64_twice x.total t t',
        add64_twice x.active a a',
      )
      refl

module _ (r i o t a : ℕ) (x : Tally) where
  pub plus_in : (n : ℕ) → plus 0 n 0 0 0 (plus r i o t a x) ≡ plus r (i + n) o t a x
  plus_in n = plus_twice r i o t a 0 n 0 0 0 x ∙ simp add-zero

  pub plus_out : (n : ℕ) → plus 0 0 n 0 0 (plus r i o t a x) ≡ plus r i (o + n) t a x
  plus_out n = plus_twice r i o t a 0 0 n 0 0 x ∙ simp add-zero

  pub plus_active : (n : ℕ) → plus 0 0 0 0 n (plus r i o t a x) ≡ plus r i o t (a + n) x
  plus_active n = plus_twice r i o t a 0 0 0 0 n x ∙ simp add-zero

module _ (now : ℕ) (machine route type : Bytes) (reg : Registry)
    (w : IsWord (tally_of route reg)) where
  pub tally-record_bytes_in :
      (n : ℕ)
      → tally_of route (record_bytes_in now machine route type (pos n) reg)
        ≡ plus 0 n 0 0 0 (tally_of route reg)
  unfolding record_bytes_in
  tally-record_bytes_in n = elim (Bool-cases (n == 0)) [
    | inl zero_bytes ↦
        rw (record_bytes_in, zero_bytes)
          (sym (plus_zero _ w)
            ∙ ap (λ k. plus 0 k 0 0 0 (tally_of route reg)) (sym ((==_iff n 0).0 zero_bytes)))
    | inr some_bytes ↦
        rw (record_bytes_in, some_bytes)
          (tally-sampled route now (record { bytes_in = n; bytes_out = 0; requests = 0 }) 0 n 0 0 0
            (get now reg machine route type) reg (tally-get now reg machine route type))
  ]

  pub tally-record_bytes_out :
      (n : ℕ)
      → tally_of route (record_bytes_out now machine route type (pos n) reg)
        ≡ plus 0 0 n 0 0 (tally_of route reg)
  unfolding record_bytes_out
  tally-record_bytes_out n = elim (Bool-cases (n == 0)) [
    | inl zero_bytes ↦
        rw (record_bytes_out, zero_bytes)
          (sym (plus_zero _ w)
            ∙ ap (λ k. plus 0 0 k 0 0 (tally_of route reg)) (sym ((==_iff n 0).0 zero_bytes)))
    | inr some_bytes ↦
        rw (record_bytes_out, some_bytes)
          (tally-sampled route now (record { bytes_in = 0; bytes_out = n; requests = 0 }) 0 0 n 0 0
            (get now reg machine route type) reg (tally-get now reg machine route type))
  ]
