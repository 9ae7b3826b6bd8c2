-- ===== src/Client/Wire/Protection.antt =====
-- A route that the client's configuration protects is protected at the server.
use etunl_cli.Base.{
  ◌≡◌, ◌≢◌, ◌⊎◌, refl, ap, sym, ◌∙◌, inl, inr, true, false, none, some, List, [], ◌∷◌, ◌++◌, ◌=?◌,
  Option-cases, true_ne_false,
}
use etunl_cli.Base.Bytes.{Bytes, bytes_is_eq, cut_prefix, cut_prefix_sound}
use etunl_cli.Config.Auth.{Auth, AuthUser, validate}
use etunl_cli.Config.Auth.Forms.{IsBearerForm, IsHeaderForm, IsUsersForm, validate_iff}
use etunl_cli.Tunnel.Auth.{Headers, authorization, bearer_prefix, check, check_bearer, has_session}
use etunl_cli.Client.Wire.{auth_to_wire, users_to_wire}

check_bearer_sound :
    (bearer got : Bytes) → check_bearer bearer got ≡ true → got ≡ bearer_prefix ++ bearer
unfolding check_bearer
check_bearer_sound bearer got h = elim (Option-cases (cut_prefix bearer_prefix got)) [
  | inl without ↦ absurd (
      let at : check_bearer bearer got ≡ false = rw (check_bearer, without) refl in
      true_ne_false (sym h ∙ at))
  | inr (token, found) ↦
      let at : check_bearer bearer got ≡ (token =? bearer) = rw (check_bearer, found) refl in
      let same = (bytes_is_eq.beq_iff token bearer).0 (sym at ∙ h) in
      cut_prefix_sound bearer_prefix got token found ∙ ap (λ t. bearer_prefix ++ t) same
]

-- What a request must carry to pass RouteAuth.Check.
abbrev pub Carries : Auth → Headers → Type 0
Carries a get =
    ((a.bearer ≢ []) × (get authorization ≡ bearer_prefix ++ a.bearer))
    ⊎ ((a.header ≢ []) × (get a.header ≡ a.value))

-- The same over the four fields, so that each of them can be taken apart.
fields_protected :
    (b h v : Bytes) (us : List AuthUser) (get : Headers)
    → let a : Auth = record { bearer = b; header = h; value = v; users = us } in
      (IsBearerForm a ⊎ IsHeaderForm a ⊎ IsUsersForm a)
      → check (auth_to_wire (some a)) get ≡ true
      → (has_session (auth_to_wire (some a)) ≡ true) ⊎ Carries a get
unfolding auth_to_wire check has_session users_to_wire
fields_protected (c ∷ b) h v us get form passed =
    inr (inl ((λ e. cc), check_bearer_sound (c ∷ b) (get authorization) passed))
fields_protected [] (c ∷ h) v us get form passed =
    inr (inr ((λ e. cc), (bytes_is_eq.beq_iff (get (c ∷ h)) v).0 passed))
fields_protected [] [] v (u ∷ us) get form passed = inl refl
fields_protected [] [] v [] get (inl (set, _, _, _)) passed = absurd (set refl)
fields_protected [] [] v [] get (inr (inl (_, set, _, _))) passed = absurd (set refl)
fields_protected [] [] v [] get (inr (inr (_, _, _, set, _))) passed = absurd (set refl)

-- An auth block that the configuration accepts is enforced behind the wire: where RouteAuth.Check
-- lets a request through, the route has the login form, or the request carries the block's bearer
-- token, or the block's value in the block's header.
pub auth_to_wire-protects :
    (a : Auth) (get : Headers)
    → validate (some a) ≡ none
    → check (auth_to_wire (some a)) get ≡ true
    → (has_session (auth_to_wire (some a)) ≡ true) ⊎ Carries a get
auth_to_wire-protects a get h passed =
    fields_protected a.bearer a.header a.value a.users get ((validate_iff a).0 h) passed
