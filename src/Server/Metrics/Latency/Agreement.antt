-- ===== src/Server/Metrics/Latency/Agreement.antt =====
-- What the counters hold when all calls have returned.
use etunl_cli.Base.{
  ℕ, zero, suc, ◌<◌, ◌≡◌, ◌∙◌, refl, sym, ap, Bool, true, false, List, [], ◌∷◌, leb, ◌==◌,
  if◌then◌else◌, All, arith, Bool-cases, inl, inr, if_split,
}
use etunl_cli.Base.Int.{ℤ, pos_part}
use etunl_cli.Server.Samples.{add64}
use etunl_cli.Server.Metrics.{RouteMetrics, record_latency}
use etunl_cli.Server.Metrics.Latency.{
  Latency, latency_of, Recorder, counts, sums, loads, swaps, finished, called, step, step_at, run,
  calls, in_turn,
}

-- What a call has still to do.
owes_count : Recorder → Bool
owes_count (counts ns) = true
owes_count (sums ns) = false
owes_count (loads ns) = false
owes_count (swaps ns old) = false
owes_count finished = false

owes_sum : Recorder → Bool
owes_sum (counts ns) = true
owes_sum (sums ns) = true
owes_sum (loads ns) = false
owes_sum (swaps ns old) = false
owes_sum finished = false

-- The duration of a call, zero where it is done.
ns_of : Recorder → ℕ
ns_of (counts ns) = ns
ns_of (sums ns) = ns
ns_of (loads ns) = ns
ns_of (swaps ns old) = ns
ns_of finished = 0

abbrev max : ℕ → ℕ → ℕ
max a b = if leb b a then a else b

-- The counters behind the rest of a call that nothing disturbs.
finish : Recorder → Latency → Latency
unfolding owes_count owes_sum ns_of
finish r l = record {
  count = if owes_count r then add64 l.count 1 else l.count;
  sum_ns = if owes_sum r then add64 l.sum_ns (ns_of r) else l.sum_ns;
  max_ns = max l.max_ns (ns_of r);
}

add64_comm : (x a b : ℕ) → add64 (add64 x a) b ≡ add64 (add64 x b) a
add64_comm x a b = omega arith

finish_comm : (r s : Recorder) (l : Latency) → finish r (finish s l) ≡ finish s (finish r l)
unfolding finish
finish_comm r s l = ground (arith, add64_comm l.count 1 1, add64_comm l.sum_ns (ns_of r) (ns_of s))

-- A swap is tried only where the duration is above the maximum that was loaded.
abbrev IsSound : Recorder → Type 0
IsSound (swaps ns old) = old < ns
IsSound (counts ns) = Unit
IsSound (sums ns) = Unit
IsSound (loads ns) = Unit
IsSound finished = Unit

lt_of_not_leb : (a b : ℕ) → leb a b ≡ false → b < a
lt_of_not_leb a b h = ground arith

step-IsSound : (r : Recorder) (l : Latency) → IsSound r → IsSound (step r l).0
unfolding step
step-IsSound (counts ns) l h = tt
step-IsSound (sums ns) l h = tt
step-IsSound (loads ns) l h =
    if_split (λ (x : Recorder × Latency). IsSound x.0) (leb ns l.max_ns) (λ _. tt)
      (λ above. lt_of_not_leb ns l.max_ns above)
step-IsSound (swaps ns old) l h =
    if_split (λ (x : Recorder × Latency). IsSound x.0) (l.max_ns == old) (λ _. tt) (λ _. tt)
step-IsSound finished l h = tt

finish-step :
    (r : Recorder) (l : Latency) → IsSound r → finish (step r l).0 (step r l).1 ≡ finish r l
unfolding finish step
finish-step (counts ns) l h = refl
finish-step (sums ns) l h = refl
finish-step (loads ns) l h = ground arith
finish-step (swaps ns old) l h = ground arith
finish-step finished l h = refl

-- The counters behind the rest of all calls.
settle : List Recorder → Latency → Latency
settle [] l = l
settle (r ∷ rs) l = finish r (settle rs l)

settle-finish :
    (rs : List Recorder) (r : Recorder) (l : Latency)
    → settle rs (finish r l) ≡ finish r (settle rs l)
unfolding settle
settle-finish [] r l = refl
settle-finish (s ∷ rs) r l = ap (finish s) (settle-finish rs r l) ∙ finish_comm s r (settle rs l)

-- No step changes what the calls will have done.
settle-step_at :
    (i : ℕ) (rs : List Recorder) (l : Latency)
    → All IsSound rs
    → (All IsSound (step_at i rs l).0)
      × (settle (step_at i rs l).0 (step_at i rs l).1 ≡ settle rs l)
unfolding settle step_at
settle-step_at i [] l h = (tt, refl)
settle-step_at zero (r ∷ rs) l (sound, h) = (
  (step-IsSound r l sound, h),
  sym (settle-finish rs (step r l).0 (step r l).1)
      ∙ ap (settle rs) (finish-step r l sound)
      ∙ settle-finish rs r l,
)
settle-step_at (suc i) (r ∷ rs) l (sound, h) =
    let (sound', same) = settle-step_at i rs l h in ((sound, sound'), ap (finish r) same)

settle-run :
    (is : List ℕ) (rs : List Recorder) (l : Latency)
    → All IsSound rs
    → settle (run is rs l).0 (run is rs l).1 ≡ settle rs l
unfolding run
settle-run [] rs l h = refl
settle-run (i ∷ is) rs l h =
    let (sound, same) = settle-step_at i rs l h in
    settle-run is (step_at i rs l).0 (step_at i rs l).1 sound ∙ same

-- All calls have returned.
abbrev pub AllFinished : List Recorder → Type 0
AllFinished = All (λ r. r ≡ finished)

finish_finished : (l : Latency) → finish finished l ≡ l
unfolding finish
finish_finished l = ground arith

settle-AllFinished : (rs : List Recorder) (l : Latency) → AllFinished rs → settle rs l ≡ l
unfolding settle
settle-AllFinished [] l h = refl
settle-AllFinished (r ∷ rs) l (done, h) =
    rw (settle-AllFinished rs l h) (ap (λ s. finish s l) done ∙ finish_finished l)

calls-IsSound : (ds : List ℤ) → All IsSound (calls ds)
unfolding calls called
calls-IsSound [] = tt
calls-IsSound (d ∷ ds) = (if_split IsSound (pos_part d == 0) (λ _. tt) (λ _. tt), calls-IsSound ds)

finish-called :
    (d : ℤ) (m : RouteMetrics) → finish (called d) (latency_of m) ≡ latency_of (record_latency d m)
unfolding finish called latency_of record_latency
finish-called d m = elim (Bool-cases (pos_part d == 0)) [
  | inl none_given ↦ rw (called, record_latency, none_given) (finish_finished (latency_of m))
  | inr given ↦ rw (called, record_latency, given) refl
]

settle-calls :
    (ds : List ℤ) (m : RouteMetrics) → settle (calls ds) (latency_of m) ≡ latency_of (in_turn ds m)
unfolding settle calls in_turn
settle-calls [] m = refl
settle-calls (d ∷ ds) m =
    ap (finish (called d)) (settle-calls ds m) ∙ finish-called d (in_turn ds m)

-- However the steps of the calls of recordLatency are interleaved: when all calls have returned, the
-- counters hold what the same calls leave one after another.
pub run-in_turn :
    (is : List ℕ) (ds : List ℤ) (m : RouteMetrics)
    → AllFinished (run is (calls ds) (latency_of m)).0
    → (run is (calls ds) (latency_of m)).1 ≡ latency_of (in_turn ds m)
run-in_turn is ds m done =
    sym (settle-AllFinished _ _ done)
    ∙ settle-run is (calls ds) (latency_of m) (calls-IsSound ds)
    ∙ settle-calls ds m
