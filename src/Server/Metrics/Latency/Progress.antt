-- ===== src/Server/Metrics/Latency/Progress.antt =====
-- How long concurrent calls of recordLatency can take.
use etunl_cli.Base.{
  ℕ, zero, suc, ◌+◌, ◌*◌, ◌≤◌, ◌≡◌, refl, ap, Bool, true, false, List, [], ◌∷◌, leb, ◌==◌,
  if◌then◌else◌, arith, inl, inr, if_split, length, ◌⊎◌,
}
use etunl_cli.Base.Int.{ℤ, pos_part}
use etunl_cli.Server.Metrics.Latency.Agreement.{AllFinished}
use etunl_cli.Server.Metrics.Latency.{
  Latency, Recorder, counts, sums, loads, swaps, finished, called, step, step_at, run, calls,
}

abbrev is_busy : Recorder → Bool
is_busy finished = false
is_busy (counts ns) = true
is_busy (sums ns) = true
is_busy (loads ns) = true
is_busy (swaps ns old) = true

-- The goroutine with this number has not returned.
abbrev pub busy_at : ℕ → List Recorder → Bool
busy_at i [] = false
busy_at zero (r ∷ rs) = is_busy r
busy_at (suc i) (r ∷ rs) = busy_at i rs

-- A schedule that picks only goroutines that have not returned.
unfoldable pub NoneIdle : List ℕ → List Recorder → Latency → Type 0
unfolding step_at
NoneIdle [] rs l = Unit
NoneIdle (i ∷ is) rs l = (busy_at i rs ≡ true) × NoneIdle is (step_at i rs l).0 (step_at i rs l).1

-- The steps to the end of a call that nothing disturbs, with two more where its swap will fail; `w` is
-- for what its own swap does to the others.
cost : (w m : ℕ) → Recorder → ℕ
cost w m (counts ns) = 4 + w
cost w m (sums ns) = 3 + w
cost w m (loads ns) = 2 + w
cost w m (swaps ns old) = if m == old then 1 + w else 3 + w
cost w m finished = 0

total : (w m : ℕ) → List Recorder → ℕ
total w m [] = 0
total w m (r ∷ rs) = cost w m r + total w m rs

cost_other : (w m m' : ℕ) (r : Recorder) → cost w m' r ≤ cost w m r + 2
unfolding cost
cost_other w m m' (counts ns) = omega arith
cost_other w m m' (sums ns) = omega arith
cost_other w m m' (loads ns) = omega arith
cost_other w m m' (swaps ns old) = ground arith
cost_other w m m' finished = omega arith

total_other : (w m m' : ℕ) (rs : List Recorder) → total w m' rs ≤ total w m rs + 2 * length rs
unfolding total
total_other w m m' [] = omega arith
total_other w m m' (r ∷ rs) = omega (arith, cost_other w m m' r, total_other w m m' rs)

-- A step leaves the maximum and brings its call on, or it ends the call.
abbrev Forward : (w : ℕ) → Recorder → Latency → Recorder × Latency → Type 0
Forward w r l out =
    ((out.1.max_ns ≡ l.max_ns) × (suc (cost w l.max_ns out.0) ≤ cost w l.max_ns r))
    ⊎ (suc (cost w out.1.max_ns out.0 + w) ≤ cost w l.max_ns r)

step-Forward : (w : ℕ) (r : Recorder) (l : Latency) → is_busy r ≡ true → Forward w r l (step r l)
unfolding step cost
step-Forward w (counts ns) l h = inl (refl, omega arith)
step-Forward w (sums ns) l h = inl (refl, omega arith)
step-Forward w (loads ns) l h =
    if_split (Forward w (loads ns) l) (leb ns l.max_ns) (λ _. inl (refl, omega arith))
      (λ _. inl (refl, ground arith))
step-Forward w (swaps ns old) l h =
    if_split (Forward w (swaps ns old) l) (l.max_ns == old) (λ same. inr (ground arith))
      (λ other. inl (refl, ground arith))
step-Forward w finished l h = cc

-- The same for all calls, where one that ends may set the others back.
abbrev AllForward : (w : ℕ) → List Recorder → Latency → List Recorder × Latency → Type 0
AllForward w rs l out =
    ((out.1.max_ns ≡ l.max_ns) × (suc (total w l.max_ns out.0) ≤ total w l.max_ns rs))
    ⊎ (suc (total w out.1.max_ns out.0 + w) ≤ total w l.max_ns rs + 2 * length rs)

step_at-Forward :
    (w i : ℕ) (rs : List Recorder) (l : Latency)
    → busy_at i rs ≡ true
    → AllForward w rs l (step_at i rs l)
unfolding step_at total
step_at-Forward w i [] l h = cc
step_at-Forward w zero (r ∷ rs) l h = elim (step-Forward w r l h) [
  | inl (same, less) ↦ inl (same, omega arith)
  | inr less ↦ inr (omega (arith, total_other w l.max_ns (step r l).1.max_ns rs))
]
step_at-Forward w (suc i) (r ∷ rs) l h = elim (step_at-Forward w i rs l h) [
  | inl (same, less) ↦ inl (same, omega arith)
  | inr less ↦ inr (omega (arith, cost_other w l.max_ns (step_at i rs l).1.max_ns r))
]

length-step_at : (i : ℕ) (rs : List Recorder) (l : Latency) → length (step_at i rs l).0 ≡ length rs
unfolding step_at
length-step_at i [] l = refl
length-step_at zero (r ∷ rs) l = refl
length-step_at (suc i) (r ∷ rs) l = ap suc (length-step_at i rs l)

step_at-total :
    (w i : ℕ) (rs : List Recorder) (l : Latency)
    → 2 * length rs ≤ w
    → busy_at i rs ≡ true
    → suc (total w (step_at i rs l).1.max_ns (step_at i rs l).0) ≤ total w l.max_ns rs
step_at-total w i rs l fits h = elim (step_at-Forward w i rs l h) [
  | inl (same, less) ↦ rw same less
  | inr less ↦ omega arith
]

run_length :
    (w : ℕ) (is : List ℕ) (rs : List Recorder) (l : Latency)
    → 2 * length rs ≤ w
    → NoneIdle is rs l
    → length is ≤ total w l.max_ns rs
unfolding NoneIdle
run_length w [] rs l fits h = omega arith
run_length w (i ∷ is) rs l fits (busy, h) =
    let (rs', l') = step_at i rs l in
    omega (
      arith,
      step_at-total w i rs l fits busy,
      run_length w is rs' l' (rw (length-step_at i rs l) fits) h,
    )

cost-called : (w m : ℕ) (d : ℤ) → cost w m (called d) ≤ 4 + w
unfolding called cost
cost-called w m d =
    if_split (λ r. cost w m r ≤ 4 + w) (pos_part d == 0) (λ _. omega arith) (λ _. omega arith)

total-calls : (w m : ℕ) (ds : List ℤ) → total w m (calls ds) ≤ length ds * (4 + w)
unfolding total calls
total-calls w m [] = omega arith
total-calls w m (d ∷ ds) =
    let first = cost-called w m d in let rest = total-calls w m ds in grind arith

length-calls : (ds : List ℤ) → length (calls ds) ≡ length ds
unfolding calls
length-calls [] = refl
length-calls (d ∷ ds) = ap suc (length-calls ds)

busy_or_finished : (rs : List Recorder) → ((i : ℕ) × (busy_at i rs ≡ true)) ⊎ AllFinished rs
busy_or_finished [] = inr tt
busy_or_finished (finished ∷ rs) = elim (busy_or_finished rs) [
  | inl (i, busy) ↦ inl (suc i, busy)
  | inr done ↦ inr (refl, done)
]
busy_or_finished (counts ns ∷ rs) = inl (0, refl)
busy_or_finished (sums ns ∷ rs) = inl (0, refl)
busy_or_finished (loads ns ∷ rs) = inl (0, refl)
busy_or_finished (swaps ns old ∷ rs) = inl (0, refl)

-- However n calls of recordLatency are interleaved, together they take at most n (2 n + 4) steps; and
-- as long as not all have returned, one of them can take a step. So the loops around the
-- compare-and-swap end under every scheduler.
pub calls_end :
    (is : List ℕ) (ds : List ℤ) (l : Latency)
    → NoneIdle is (calls ds) l
    → (length is ≤ length ds * (4 + 2 * length ds))
      × (((i : ℕ) × (busy_at i (run is (calls ds) l).0 ≡ true))
          ⊎ AllFinished (run is (calls ds) l).0)
calls_end is ds l h =
    let n = length ds in
    let few = run_length (2 * n) is (calls ds) l (omega (arith, length-calls ds)) h in
    (omega (arith, few, total-calls (2 * n) l.max_ns ds), busy_or_finished (run is (calls ds) l).0)
