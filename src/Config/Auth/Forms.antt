-- ===== src/Config/Auth/Forms.antt =====
-- What Auth.Validate accepts.
use etunl_cli.Base.{ℕ, ◌+◌, ◌≡◌, ◌≢◌, ◌↔◌, ◌⊎◌, refl, none, some, List, [], ◌∷◌, arith, All}
use etunl_cli.Base.Bytes.{Bytes}
use etunl_cli.Config.Auth.{Auth, AuthUser, check_users, validate}

abbrev pub IsComplete : AuthUser → Type 0
IsComplete u = (u.user ≢ []) × (u.password ≢ [])

-- The three forms, of which exactly one may be set.
abbrev pub IsBearerForm : Auth → Type 0
IsBearerForm a = (a.bearer ≢ []) × (a.header ≡ []) × (a.value ≡ []) × (a.users ≡ [])

abbrev pub IsHeaderForm : Auth → Type 0
IsHeaderForm a = (a.bearer ≡ []) × (a.header ≢ []) × (a.value ≢ []) × (a.users ≡ [])

abbrev pub IsUsersForm : Auth → Type 0
IsUsersForm a =
    (a.bearer ≡ []) × (a.header ≡ []) × (a.value ≡ []) × (a.users ≢ []) × All IsComplete a.users

check_users_iff : (i : ℕ) (us : List AuthUser) → (check_users i us ≡ none) ↔ All IsComplete us
unfolding check_users
check_users_iff i [] = (λ _. tt, λ _. refl)
check_users_iff i (u ∷ us) = ground (arith, check_users_iff (i + 1) us)

-- The same over the four fields, so that each of them can be taken apart.
fields_iff :
    (b h v : Bytes) (us : List AuthUser)
    → let a : Auth = record { bearer = b; header = h; value = v; users = us } in
      (validate (some a) ≡ none) ↔ (IsBearerForm a ⊎ IsHeaderForm a ⊎ IsUsersForm a)
unfolding validate
fields_iff [] [] [] [] = ground arith
fields_iff [] [] [] (u ∷ us) = ground (arith, check_users_iff 0 (u ∷ us))
fields_iff [] [] (c ∷ v) [] = ground arith
fields_iff [] [] (c ∷ v) (u ∷ us) = ground arith
fields_iff [] (d ∷ h) [] [] = ground arith
fields_iff [] (d ∷ h) [] (u ∷ us) = ground arith
fields_iff [] (d ∷ h) (c ∷ v) [] = ground arith
fields_iff [] (d ∷ h) (c ∷ v) (u ∷ us) = ground arith
fields_iff (e ∷ b) [] [] [] = ground arith
fields_iff (e ∷ b) [] [] (u ∷ us) = ground arith
fields_iff (e ∷ b) [] (c ∷ v) [] = ground arith
fields_iff (e ∷ b) [] (c ∷ v) (u ∷ us) = ground arith
fields_iff (e ∷ b) (d ∷ h) v [] = ground arith
fields_iff (e ∷ b) (d ∷ h) v (u ∷ us) = ground arith

-- Auth.Validate accepts an auth block exactly where one of the three forms is set, completely, and
-- nothing of the other two.
pub validate_iff :
    (a : Auth) → (validate (some a) ≡ none) ↔ (IsBearerForm a ⊎ IsHeaderForm a ⊎ IsUsersForm a)
validate_iff a = fields_iff a.bearer a.header a.value a.users
