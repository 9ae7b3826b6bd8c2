-- ===== src/Server/Samples/Window.antt =====
-- The ring of sixty buckets seen as a window over the last hour: `slot i` is the bucket of i minutes
-- ago. What recordSample does to the window.
use etunl_cli.Base.{
  ℕ, zero, suc, ◌+◌, ◌-◌, ◌*◌, ◌/◌, ◌%◌, ◌≤◌, ◌<◌, ◌≡◌, ◌≢◌, refl, ap, ◌∙◌, List, [], ◌∷◌, ltb, leb,
  ◌==◌, if◌then◌else◌, get_or, set, replicate, length, length-set, arith, Bool-cases, inl, inr, ◌⊎◌,
  true, false,
}
use etunl_cli.Server.Samples.{
  MetricSample, Ring, add_sample, metrics_buckets, metrics_bucket_duration, record_sample,
  zero_sample, advance, advance_by, restart, started, buckets_elapsed, moved_on, add_at_head,
}

abbrev pub slot : Ring → ℕ → MetricSample
slot r i = get_or r.samples ((r.head + 60 - i) % 60) zero_sample

-- What every Ring keeps.
abbrev pub IsRing : Ring → Type 0
IsRing r = (length r.samples ≡ 60) × (r.head < 60)

get_or-set_self :
    (xs : List MetricSample) (i : ℕ) (v d : MetricSample)
    → i < length xs
    → get_or (set xs i v) i d ≡ v
get_or-set_self [] i v d h = absurd (omega arith)
get_or-set_self (x ∷ xs) zero v d h = refl
get_or-set_self (x ∷ xs) (suc i) v d h = get_or-set_self xs i v d (omega arith)

get_or-set_ne :
    (xs : List MetricSample) (i j : ℕ) (v d : MetricSample)
    → i ≢ j
    → get_or (set xs i v) j d ≡ get_or xs j d
get_or-set_ne [] i j v d h = refl
get_or-set_ne (x ∷ xs) zero zero v d h = absurd (h refl)
get_or-set_ne (x ∷ xs) zero (suc j) v d h = refl
get_or-set_ne (x ∷ xs) (suc i) zero v d h = refl
get_or-set_ne (x ∷ xs) (suc i) (suc j) v d h = get_or-set_ne xs i j v d (λ e. h (ap suc e))

compare_cases : (i k : ℕ) → (i < k) ⊎ (i ≡ k) ⊎ (k < i)
compare_cases i k = ground arith

get_or-replicate : (n i : ℕ) (d : MetricSample) → get_or (replicate n d) i d ≡ d
get_or-replicate zero i d = refl
get_or-replicate (suc n) zero d = refl
get_or-replicate (suc n) (suc i) d = get_or-replicate n i d

advance-IsRing : (r : Ring) → IsRing r → IsRing (advance r)
unfolding advance
advance-IsRing r (hl, hh) = (length-set r.samples ((r.head + 1) % 60) zero_sample ∙ hl, omega arith)

slot-advance_first : (r : Ring) → IsRing r → slot (advance r) 0 ≡ zero_sample
unfolding advance
slot-advance_first r (hl, hh) =
    let here : ((r.head + 1) % 60 + 60 - 0) % 60 ≡ (r.head + 1) % 60 = omega arith in
    rw here (get_or-set_self r.samples ((r.head + 1) % 60) zero_sample zero_sample (omega arith))

slot-advance_later :
    (r : Ring) (i : ℕ) → IsRing r → suc i < 60 → slot (advance r) (suc i) ≡ slot r i
unfolding advance
slot-advance_later r i (hl, hh) hi =
    let there : ((r.head + 1) % 60 + 60 - suc i) % 60 ≡ (r.head + 60 - i) % 60 = omega arith in
    rw there (
      get_or-set_ne r.samples ((r.head + 1) % 60) ((r.head + 60 - i) % 60) zero_sample zero_sample
        (λ e. omega arith))

advance_by-IsRing : (k : ℕ) (r : Ring) → IsRing r → IsRing (advance_by k r)
unfolding advance_by
advance_by-IsRing zero r h = h
advance_by-IsRing (suc k) r h = advance_by-IsRing k (advance r) (advance-IsRing r h)

-- One round more, on both sides of the border between the empty buckets and the old ones.
one_round :
    (k i : ℕ) (r : Ring)
    → IsRing r
    → i < 60
    → (if ltb i k then zero_sample else slot (advance r) (i - k))
      ≡ (if ltb i (suc k) then zero_sample else slot r (i - suc k))
one_round k i r h hi = elim (compare_cases i k) [
  | inl below ↦ ground arith
  | inr (inl at) ↦
      let origin : i - k ≡ 0 = omega arith in
      let first : slot (advance r) (i - k) ≡ zero_sample = rw origin (slot-advance_first r h) in
      ground arith
  | inr (inr above) ↦
      let next : i - k ≡ suc (i - suc k) = omega arith in
      let shifted : slot (advance r) (i - k) ≡ slot r (i - suc k) =
        rw next (slot-advance_later r (i - suc k) h (omega arith)) in
      ground arith
]

restart-IsRing : (now : ℕ) → IsRing (restart now)
unfolding restart
restart-IsRing now = (refl, omega arith)

slot-restart : (now i : ℕ) → slot (restart now) i ≡ zero_sample
unfolding restart
slot-restart now i = get_or-replicate 60 ((0 + 60 - i) % 60) zero_sample

slot-add_at_head :
    (i : ℕ) (s : MetricSample) (r : Ring)
    → IsRing r
    → i < 60
    → slot (add_at_head s r) i ≡ (if i == 0 then add_sample (slot r i) s else slot r i)
unfolding add_at_head
slot-add_at_head zero s r (hl, hh) hi =
    let here : (r.head + 60 - 0) % 60 ≡ r.head = omega arith in
    rw here (get_or-set_self r.samples r.head _ zero_sample (omega arith))
slot-add_at_head (suc i) s r (hl, hh) hi =
    let not_newest : (suc i == 0) ≡ false = ground arith in
    rw not_newest
      (get_or-set_ne r.samples r.head ((r.head + 60 - suc i) % 60) _ zero_sample (λ e. omega arith))

started-known : (now : ℕ) (r : Ring) → r.bucket_start ≢ 0 → started now r ≡ r
unfolding started
started-known now r h = let known : (r.bucket_start == 0) ≡ false = ground arith in rw known refl

started-IsRing :
    (now : ℕ) (r : Ring)
    → IsRing r
    → r.bucket_start ≤ now
    → IsRing (started now r) × ((started now r).bucket_start ≤ now)
unfolding started
started-IsRing now r h hb = elim (Bool-cases (r.bucket_start == 0)) [
  | inl unset ↦ rw unset (h, omega arith)
  | inr known ↦ rw known (h, hb)
]

-- k rounds shift the window by k, with empty buckets in front.
slot-advance_by :
    (k i : ℕ) (r : Ring)
    → IsRing r
    → i < 60
    → slot (advance_by k r) i ≡ (if ltb i k then zero_sample else slot r (i - k))
unfolding advance_by
slot-advance_by zero i r h hi = ground arith
slot-advance_by (suc k) i r h hi =
    slot-advance_by k i (advance r) (advance-IsRing r h) hi ∙ one_round k i r h hi

moved_on-IsRing : (now k : ℕ) (r : Ring) → IsRing r → IsRing (moved_on now k r)
unfolding moved_on
moved_on-IsRing now k r h = elim (Bool-cases (leb metrics_buckets k)) [
  | inl long ↦ rw long (restart-IsRing now)
  | inr short ↦ rw short (advance_by-IsRing k r h)
]

slot-moved_on :
    (now k i : ℕ) (r : Ring)
    → IsRing r
    → i < 60
    → slot (moved_on now k r) i ≡ (if ltb i k then zero_sample else slot r (i - k))
unfolding moved_on
slot-moved_on now k i r h hi = elim (Bool-cases (leb metrics_buckets k)) [
  | inl long ↦
      let all_new : ltb i k ≡ true = ground arith in rw (long, all_new) (slot-restart now i)
  | inr short ↦ rw short (slot-advance_by k i r h hi)
]

add_at_head-start : (s : MetricSample) (r : Ring) → (add_at_head s r).bucket_start ≡ r.bucket_start
unfolding add_at_head
add_at_head-start s r = refl

-- The start of the newest bucket behind k whole minutes.
moved_on_at :
    (now k : ℕ) (r : Ring)
    → (moved_on now k r).bucket_start
      ≡ (if leb metrics_buckets k then now else r.bucket_start + k * metrics_bucket_duration)
unfolding moved_on restart
moved_on_at now k r = elim (Bool-cases (leb metrics_buckets k)) [
  | inl long ↦ rw long refl
  | inr short ↦ rw short refl
]

-- Where the start of the newest bucket is known, recordSample shifts the window by the whole minutes
-- since then, with empty buckets for the minutes without a sample, and adds the sample to the newest
-- bucket: the buckets of the last hour stay, the older ones are dropped. The start of the newest bucket
-- moves by exactly these minutes, or to the time of the sample behind a gap of an hour or more.
pub slot-record_sample :
    (now i : ℕ) (s : MetricSample) (r : Ring)
    → IsRing r
    → r.bucket_start ≢ 0
    → i < 60
    → let k = (now - r.bucket_start) / metrics_bucket_duration in
      let old = if ltb i k then zero_sample else slot r (i - k) in
      (slot (record_sample now s r) i ≡ (if i == 0 then add_sample old s else old))
      × ((record_sample now s r).bucket_start
          ≡ (if leb metrics_buckets k then now else r.bucket_start + k * metrics_bucket_duration))
unfolding record_sample buckets_elapsed
slot-record_sample now i s r h hb hi =
    let k = (now - r.bucket_start) / metrics_bucket_duration in
    rw (started-known now r hb) (
      slot-add_at_head i s (moved_on now k r) (moved_on-IsRing now k r h) hi
          ∙ ap (λ old. if i == 0 then add_sample old s else old) (slot-moved_on now k i r h hi),
      add_at_head-start s (moved_on now k r) ∙ moved_on_at now k r,
    )

add_at_head-IsRing : (s : MetricSample) (r : Ring) → IsRing r → IsRing (add_at_head s r)
unfolding add_at_head
add_at_head-IsRing s r (hl, hh) = (length-set r.samples r.head _ ∙ hl, hh)

moved_on-start :
    (now : ℕ) (r : Ring)
    → r.bucket_start ≤ now
    → ((moved_on now (buckets_elapsed now r) r).bucket_start ≤ now)
      × (now < (moved_on now (buckets_elapsed now r) r).bucket_start + metrics_bucket_duration)
unfolding moved_on buckets_elapsed restart
moved_on-start now r h =
    elim (Bool-cases (leb metrics_buckets ((now - r.bucket_start) / metrics_bucket_duration))) [
      | inl long ↦ rw long (omega arith, omega arith)
      | inr short ↦ rw short (omega arith, omega arith)
    ]

-- recordSample keeps sixty buckets and a head inside them; the newest bucket starts at most a minute
-- before the sample, and not after it.
pub record_sample-IsRing :
    (now : ℕ) (s : MetricSample) (r : Ring)
    → IsRing r
    → r.bucket_start ≤ now
    → IsRing (record_sample now s r)
      × ((record_sample now s r).bucket_start ≤ now)
      × (now < (record_sample now s r).bucket_start + metrics_bucket_duration)
unfolding record_sample
record_sample-IsRing now s r h hb =
    let r' = started now r in
    let k = buckets_elapsed now r' in
    let (ring, late) = started-IsRing now r h hb in
    let (start, within) = moved_on-start now r' late in
    (
      add_at_head-IsRing s (moved_on now k r') (moved_on-IsRing now k r' ring),
      rw (add_at_head-start s (moved_on now k r')) start,
      rw (add_at_head-start s (moved_on now k r')) within,
    )
