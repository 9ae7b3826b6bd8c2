-- ===== src/Base/Decimal.antt =====
-- strconv.FormatInt, ParseInt and Atoi, in base 10 and 64 bits. The program asks only whether a parse
-- failed, so the errors are one `none`.
use native.Mathlib.Nat.{pow-suc}
use Prim.Native.Nat.{ℕ, zero, suc, ◌+◌, ◌-◌, ◌*◌, ◌/◌, ◌%◌, ◌^◌, ◌≤◌, ◌<◌}
use mathlib.Core.Path.{◌≡◌, subst}
use native.Mathlib.Decide.{dec_lt}
use mathlib.Core.Bool.{◌||◌}
use mathlib.Core.Option.{Option, none, some}
use mathlib.Core.List.{[], ◌∷◌}
use native.Mathlib.Omega.{arith}
use etunl_cli.Base.Tests.{ltb, leb, ◌==◌, if◌then◌else◌}
use etunl_cli.Base.Lists.{All}
use etunl_cli.Base.Bytes.{Bytes, Lacks}
use etunl_cli.Base.Int.{ℤ, pos, negsuc}

abbrev pub IsDigit : ℕ → Type 0
IsDigit c = (b'0' ≤ c) × (c ≤ b'9')

-- The digits of `n` in front of `out`, with fuel for the number of digits.
unfoldable pub digits : ℕ → ℕ → Bytes → Bytes
digits zero n out = out
digits (suc fuel) n out =
    let more = digits fuel (n / 10) ((b'0' + n % 10) ∷ out) in
    if ltb n 10 then (b'0' + n) ∷ out else more

-- `strconv.FormatInt(n, 10)` of an int64 that is not negative: it has at most 19 digits.
unfoldable pub format_int : ℕ → Bytes
unfolding digits
format_int n = digits 19 n []

-- The value of the digits behind `n`.
unfoldable pub scan_digits : ℕ → Bytes → Option ℕ
scan_digits n [] = some n
scan_digits n (c ∷ s) =
    let rest = scan_digits (n * 10 + (c - b'0')) s in
    if ltb c b'0' || ltb b'9' c then none else rest

unfoldable pub unsigned : Bytes → Option ℕ
unfolding scan_digits
unsigned [] = none
unsigned (c ∷ s) = scan_digits 0 (c ∷ s)

abbrev pub negate : ℕ → ℤ
negate zero = pos 0
negate (suc n) = negsuc n

bounded : Option ℕ → Option ℤ
bounded none = none
bounded (some n) = if ltb n (2 ^ 63) then some (pos n) else none

bounded_negative : Option ℕ → Option ℤ
bounded_negative none = none
bounded_negative (some n) = if leb n (2 ^ 63) then some (negate n) else none

-- `strconv.ParseInt(s, 10, 64)`, and `strconv.Atoi` where an int has 64 bits.
unfoldable pub parse_int : Bytes → Option ℤ
unfolding unsigned bounded bounded_negative
parse_int [] = none
parse_int (c ∷ s) =
    if c == b'-'
    then bounded_negative (unsigned s)
    else if c == b'+'
    then bounded (unsigned s)
    else bounded (unsigned (c ∷ s))

module _ (fuel n : ℕ) (out : Bytes) where
  digits_small : n < 10 → digits (suc fuel) n out ≡ (b'0' + n) ∷ out
  unfolding digits
  digits_small h = ground arith

  digits_more : ¬ (n < 10) → digits (suc fuel) n out ≡ digits fuel (n / 10) ((b'0' + n % 10) ∷ out)
  unfolding digits
  digits_more h = ground arith

scan_step :
    (n d : ℕ) (out : Bytes)
    → d < 10
    → scan_digits n ((b'0' + d) ∷ out) ≡ scan_digits (n * 10 + d) out
unfolding scan_digits
scan_step n d out h = ground arith

scan_first : (d : ℕ) (out : Bytes) → d < 10 → scan_digits 0 ((b'0' + d) ∷ out) ≡ scan_digits d out
unfolding scan_digits
scan_first d out h = ground arith

tenth : (fuel n : ℕ) → n < 10 ^ suc (suc fuel) → n / 10 < 10 ^ suc fuel
tenth fuel n h = omega (arith, pow-suc 10 (suc fuel))

one_digit : (n : ℕ) → n < 10 ^ suc zero → n < 10
one_digit n h = omega arith

last_digit : (n : ℕ) → n / 10 * 10 + n % 10 ≡ n
last_digit n = omega arith

-- Digits that are written are digits, and at least one stands in front of `out`.
pub digits-shape :
    (fuel n : ℕ) (out : Bytes)
    → n < 10 ^ suc fuel
    → All IsDigit out
    → (c : ℕ) × (s : Bytes) × (digits (suc fuel) n out ≡ c ∷ s) × All IsDigit (c ∷ s)
digits-shape zero n out h hs =
    let small = one_digit n h in (b'0' + n, out, digits_small zero n out small, (omega arith, hs))
digits-shape (suc fuel) n out h hs = elim (dec_lt n 10) [
  | yes small ↦ (b'0' + n, out, digits_small (suc fuel) n out small, (omega arith, hs))
  | no large ↦
      rw (digits_more (suc fuel) n out large)
        (digits-shape fuel (n / 10) ((b'0' + n % 10) ∷ out) (tenth fuel n h) (omega arith, hs))
]

scan-digits :
    (fuel n : ℕ) (out : Bytes)
    → n < 10 ^ suc fuel
    → scan_digits 0 (digits (suc fuel) n out) ≡ scan_digits n out
scan-digits zero n out h =
    let small = one_digit n h in rw (digits_small zero n out small) (scan_first n out small)
scan-digits (suc fuel) n out h = elim (dec_lt n 10) [
  | yes small ↦ rw (digits_small (suc fuel) n out small) (scan_first n out small)
  | no large ↦ rw (
    digits_more (suc fuel) n out large,
    scan-digits fuel (n / 10) ((b'0' + n % 10) ∷ out) (tenth fuel n h),
    scan_step (n / 10) (n % 10) out (omega arith),
    last_digit n,
  )
]

pub format_int-shape :
    (n : ℕ) → n < 2 ^ 63 → (c : ℕ) × (s : Bytes) × (format_int n ≡ c ∷ s) × All IsDigit (c ∷ s)
unfolding format_int
format_int-shape n h = unfold format_int in digits-shape 18 n [] (omega arith) tt

-- A text that begins with a digit has no sign.
parse_digits :
    (c n : ℕ) (s : Bytes)
    → IsDigit c
    → scan_digits 0 (c ∷ s) ≡ some n
    → n < 2 ^ 63
    → parse_int (c ∷ s) ≡ some (pos n)
unfolding parse_int
parse_digits c n s d scanned fits = ground (arith, scanned)

-- A non-negative int64 is read back from its decimal print.
pub parse_int-format_int : (n : ℕ) → n < 2 ^ 63 → parse_int (format_int n) ≡ some (pos n)
parse_int-format_int n h =
    let (c, s, shape, (d, ds)) = format_int-shape n h in
    let scanned : scan_digits 0 (format_int n) ≡ some n =
      unfold format_int scan_digits in scan-digits 18 n [] (omega arith) in
    rw shape (parse_digits c n s d (rw shape at scanned) h)

digits-Lacks : (b : ℕ) (s : Bytes) → ¬ IsDigit b → All IsDigit s → Lacks b s
digits-Lacks b [] nd h = tt
digits-Lacks b (c ∷ s) nd (d, h) = ((λ e. nd (subst IsDigit e d)), digits-Lacks b s nd h)

-- A decimal print holds no byte but digits.
pub format_int-Lacks : (b n : ℕ) → ¬ IsDigit b → n < 2 ^ 63 → Lacks b (format_int n)
format_int-Lacks b n nd h =
    let (c, s, shape, ds) = format_int-shape n h in rw shape (digits-Lacks b (c ∷ s) nd ds)
