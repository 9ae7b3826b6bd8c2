-- ===== src/Base/Dict.antt =====
-- Go's maps as association lists, under any order of iteration: the theorems hold for each order
-- of the entries. Proofs elsewhere go by the laws below.
use mathlib.Core.Logic.{◌≢◌, ◌⊎◌, inl, inr}
use etunl_cli.Base.Tests.{Bool-cases, if◌then◌else◌, Eq, ◌=?◌, beq_refl, beq_ne}
use mathlib.Core.Path.{◌≡◌, refl, sym, ◌∙◌}
use mathlib.Core.Bool.{Bool, false, ◌||◌}
use mathlib.Core.Option.{Option, none, some}
use mathlib.Core.List.{List, [], ◌∷◌}
use native.Mathlib.Omega.{arith}

abbrev pub Dict {ℓ κ} : Type ℓ → Type κ → Type (ℓ ⊔ κ)
Dict K V = List (K × V)

module _ {ℓ κ} {K : Type ℓ} {V : Type κ} ⦃e : Eq K⦄ where
  unfoldable pub lookup : K → Dict K V → Option V
  lookup k [] = none
  lookup k ((j, v) ∷ d) = if j =? k then some v else lookup k d

  -- `d[k] = v`
  unfoldable pub insert : K → V → Dict K V → Dict K V
  insert k v [] = (k, v) ∷ []
  insert k v ((j, w) ∷ d) = if j =? k then (k, v) ∷ d else (j, w) ∷ insert k v d

  -- `delete(d, k)`
  unfoldable pub erase : K → Dict K V → Dict K V
  erase k [] = []
  erase k ((j, w) ∷ d) = let rest = erase k d in if j =? k then rest else (j, w) ∷ rest

  -- A Go map holds a key once.
  abbrev pub NodupKeys : Dict K V → Type κ
  NodupKeys [] = Unit
  NodupKeys ((k, _) ∷ d) = (lookup k d ≡ none) × NodupKeys d

  pub lookup-nil : (k : K) → lookup k [] ≡ none
  unfolding lookup
  lookup-nil k = refl

  pub lookup-cons :
      (k j : K) (w : V) (d : Dict K V)
      → lookup k ((j, w) ∷ d) ≡ (if j =? k then some w else lookup k d)
  unfolding lookup
  lookup-cons k j w d = refl

  pub lookup-insert :
      (k j : K) (v : V) (d : Dict K V)
      → lookup j (insert k v d) ≡ (if k =? j then some v else lookup j d)
  unfolding lookup insert
  lookup-insert k j v [] = refl
  lookup-insert k j v ((i, w) ∷ d) =
      ground (arith, e.beq_iff k j, e.beq_iff i k, e.beq_iff i j, lookup-insert k j v d)

  pub lookup-erase :
      (k j : K) (d : Dict K V) → lookup j (erase k d) ≡ (if k =? j then none else lookup j d)
  unfolding lookup erase
  lookup-erase k j [] = ground arith
  lookup-erase k j ((i, w) ∷ d) =
      ground (arith, e.beq_iff k j, e.beq_iff i k, e.beq_iff i j, lookup-erase k j d)

  pub lookup-insert_self : (k : K) (v : V) (d : Dict K V) → lookup k (insert k v d) ≡ some v
  lookup-insert_self k v d = rw (lookup-insert, beq_refl)

  pub lookup-insert_ne :
      (k j : K) (v : V) (d : Dict K V) → j ≢ k → lookup j (insert k v d) ≡ lookup j d
  lookup-insert_ne k j v d ne = lookup-insert k j v d ∙ rw (beq_ne k j (λ same. ne (sym same))) refl

  pub lookup-cons_self : (k : K) (w : V) (d : Dict K V) → lookup k ((k, w) ∷ d) ≡ some w
  lookup-cons_self k w d = rw (lookup-cons, beq_refl)

  pub lookup-erase_self : (k : K) (d : Dict K V) → lookup k (erase k d) ≡ none
  lookup-erase_self k d = rw (lookup-erase, beq_refl)

  pub insert-NodupKeys : (k : K) (v : V) (d : Dict K V) → NodupKeys d → NodupKeys (insert k v d)
  unfolding insert
  insert-NodupKeys k v [] _ = (lookup-nil k, tt)
  insert-NodupKeys k v ((j, w) ∷ d) (fresh, u) =
      ground (arith, insert-NodupKeys k v d u, lookup-insert k j v d, e.beq_iff j k, e.beq_iff k j)

  pub erase-NodupKeys : (k : K) (d : Dict K V) → NodupKeys d → NodupKeys (erase k d)
  unfolding erase
  erase-NodupKeys k [] _ = tt
  erase-NodupKeys k ((j, w) ∷ d) (fresh, u) =
      ground (arith, erase-NodupKeys k d u, lookup-erase k j d)

  pub insert_ne_erase :
      (k : K) (v : V) (d : Dict K V) → lookup k d ≡ none → erase k (insert k v d) ≡ d
  unfolding insert erase lookup
  insert_ne_erase k v [] h = ground (arith, beq_refl k)
  insert_ne_erase k v ((j, w) ∷ d) h = ground (arith, insert_ne_erase k v d)

  pub insert_inv :
      (k j : K) (v w : V) (d : Dict K V)
      → lookup j (insert k v d) ≡ some w
      → ((j ≡ k) × (w ≡ v)) ⊎ (lookup j d ≡ some w)
  insert_inv k j v w d h = elim (Bool-cases (k =? j)) [
    | inl same ↦ inl (ground (arith, e.beq_iff k j), ground (arith, lookup-insert k j v d))
    | inr differ ↦ inr (ground (arith, lookup-insert k j v d))
  ]

  pub erase_inv :
      (k j : K) (w : V) (d : Dict K V)
      → lookup j (erase k d) ≡ some w
      → (j ≢ k) × (lookup j d ≡ some w)
  erase_inv k j w d h =
      ((λ q. ground (arith, lookup-erase k j d, e.beq_iff k j)), ground (arith, lookup-erase k j d))

  -- An entry in front, under a key that the rest does not hold, hides nothing.
  pub lookup_later :
      (k j : K) (v w : V) (d : Dict K V)
      → lookup k d ≡ none
      → lookup j d ≡ some w
      → lookup j ((k, v) ∷ d) ≡ some w
  lookup_later k j v w d fresh h = ground (arith, lookup-cons j k v d, e.beq_iff k j)

module _ {ℓ} {K : Type ℓ} ⦃e : Eq K⦄ where
  abbrev pub contains : K → List K → Bool
  contains k [] = false
  contains k (j ∷ js) = j =? k || contains k js
