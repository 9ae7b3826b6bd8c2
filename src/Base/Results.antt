-- ===== src/Base/Results.antt =====
-- Go's `(value, error)` pairs.
use mathlib.Core.Logic.{◌⊎◌, inl, inr}
use mathlib.Core.Path.{◌≡◌, refl}

pub data Result {ε α} (E : Type ε) (V : Type α) : Type (ε ⊔ α) where
  err : E → Result E V
  ok : V → Result E V

-- `if err != nil { return err }` before the rest of a function.
infixl 5 ◌>>=◌
abbrev pub ◌>>=◌ {ε α β} :
    {E : Type ε} {V : Type α} {W : Type β} → Result E V → (V → Result E W) → Result E W
err problem >>= rest = err problem
ok v >>= rest = rest v

pub Result-cases {ε α} :
    {E : Type ε} {V : Type α} (r : Result E V) → ((v : V) × (r ≡ ok v)) ⊎ ((e : E) × (r ≡ err e))
Result-cases (err problem) = inr (problem, refl)
Result-cases (ok v) = inl (v, refl)
