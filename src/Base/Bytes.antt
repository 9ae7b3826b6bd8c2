-- ===== src/Base/Bytes.antt =====
-- Go strings and byte slices as lists of numbers, and the functions of package strings that the
-- program calls on them.
use Prim.Native.Char.{code}
use etunl_cli.Base.Tests.{◌==◌, if◌then◌else◌, Eq}
use etunl_cli.Base.Lists.{All}
use Prim.Native.Nat.{ℕ, ◌<◌}
use Prim.Native.String.{String}
use mathlib.Core.Path.{◌≡◌, refl}
use mathlib.Core.Logic.{◌≢◌, ◌↔◌}
use mathlib.Core.Bool.{Bool, true, false, ◌&&◌}
use mathlib.Core.Option.{Option, none, some}
use mathlib.Core.List.{List, [], ◌∷◌, ◌++◌}
use native.Mathlib.Omega.{arith}

abbrev pub Bytes : Type 0
Bytes = List ℕ

-- The code points of a literal: its bytes, as every literal here is ASCII.
abbrev pub codes : String → Bytes
codes String.[] = []
codes (String.◌∷◌ c s) = code c ∷ codes s

abbrev pub IsByte : ℕ → Type 0
IsByte c = c < 256

abbrev pub Lacks : ℕ → Bytes → Type 0
Lacks b = All (λ c. c ≢ b)

unfoldable pub bytes_eq : Bytes → Bytes → Bool
bytes_eq [] [] = true
bytes_eq [] (y ∷ ys) = false
bytes_eq (x ∷ xs) [] = false
bytes_eq (x ∷ xs) (y ∷ ys) = x == y && bytes_eq xs ys

pub bytes_eq_iff : (xs ys : Bytes) → (bytes_eq xs ys ≡ true) ↔ (xs ≡ ys)
unfolding bytes_eq
bytes_eq_iff [] [] = (λ _. refl, λ _. refl)
bytes_eq_iff [] (y ∷ ys) = (λ h. cc, λ h. cc)
bytes_eq_iff (x ∷ xs) [] = (λ h. cc, λ h. cc)
bytes_eq_iff (x ∷ xs) (y ∷ ys) = ground (arith, bytes_eq_iff xs ys)

instance abbrev pub bytes_is_eq : Eq Bytes
bytes_is_eq = record { beq = bytes_eq; beq_iff = bytes_eq_iff }

-- `s == ""`
abbrev pub is_empty : Bytes → Bool
is_empty [] = true
is_empty (c ∷ s) = false

-- `strings.HasPrefix` with the rest behind the prefix: `s[len(prefix):]`.
unfoldable pub cut_prefix : Bytes → Bytes → Option Bytes
cut_prefix [] s = some s
cut_prefix (p ∷ ps) [] = none
cut_prefix (p ∷ ps) (c ∷ s) = if p == c then cut_prefix ps s else none

abbrev pub has_prefix : Bytes → Bytes → Bool
has_prefix s p = elim (cut_prefix p s) [ none ↦ false | some rest ↦ true ]

pub cut_prefix-append : (p s : Bytes) → cut_prefix p (p ++ s) ≡ some s
unfolding cut_prefix
cut_prefix-append [] s = refl
cut_prefix-append (c ∷ p) s = ground (arith, cut_prefix-append p s)

pub cut_prefix_sound : (p s rest : Bytes) → cut_prefix p s ≡ some rest → s ≡ p ++ rest
unfolding cut_prefix
cut_prefix_sound [] s rest h = ground arith
cut_prefix_sound (c ∷ p) [] rest h = cc
cut_prefix_sound (c ∷ p) (d ∷ s) rest h = ground (arith, cut_prefix_sound p s rest)

-- The text before the first `b` and the text behind it: `strings.IndexByte` with the two slices,
-- and `strings.SplitN(s, b, 2)` where it gives two parts.
unfoldable pub cut_first : ℕ → Bytes → Option (Bytes × Bytes)
cut_first b [] = none
cut_first b (c ∷ s) =
    let rest = cut_first b s in
    if c == b
    then some ([], s)
    else elim rest [ none ↦ none | some (before, behind) ↦ some (c ∷ before, behind) ]

-- The text before the last `b`: `strings.LastIndex` with `s[:idx]`, and `s` where there is none.
unfoldable pub cut_last : ℕ → Bytes → Option Bytes
cut_last b [] = none
cut_last b (c ∷ s) = elim (cut_last b s) [
  | some before ↦ some (c ∷ before)
  | none ↦ if c == b then some [] else none
]

pub cut_first-append :
    (b : ℕ) (before behind : Bytes)
    → Lacks b before
    → cut_first b (before ++ b ∷ behind) ≡ some (before, behind)
unfolding cut_first
cut_first-append b [] behind h = ground arith
cut_first-append b (c ∷ before) behind (hc, h) = ground (arith, cut_first-append b before behind h)

pub cut_first_sound :
    (b : ℕ) (s before behind : Bytes)
    → cut_first b s ≡ some (before, behind)
    → (s ≡ before ++ b ∷ behind) × Lacks b before
unfolding cut_first
cut_first_sound b [] before behind h = cc
cut_first_sound b (c ∷ s) [] behind h = ground (arith)
cut_first_sound b (c ∷ s) (d ∷ before) behind h = ground (arith, cut_first_sound b s before behind)

pub cut_first-none : (b : ℕ) (s : Bytes) → Lacks b s → cut_first b s ≡ none
unfolding cut_first
cut_first-none b [] h = refl
cut_first-none b (c ∷ s) (hc, h) = ground (arith, cut_first-none b s h)

pub cut_last-none : (b : ℕ) (s : Bytes) → Lacks b s → cut_last b s ≡ none
unfolding cut_last
cut_last-none b [] h = refl
cut_last-none b (c ∷ s) (hc, h) = ground (arith, cut_last-none b s h)

pub cut_last-append :
    (b : ℕ) (before behind : Bytes)
    → Lacks b behind
    → cut_last b (before ++ b ∷ behind) ≡ some before
unfolding cut_last
cut_last-append b [] behind h = ground (arith, cut_last-none b behind h)
cut_last-append b (c ∷ before) behind h = ground (arith, cut_last-append b before behind h)
