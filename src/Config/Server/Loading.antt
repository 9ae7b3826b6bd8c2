-- ===== src/Config/Server/Loading.antt =====
-- What LoadServerConfig gives is complete, and its secrets are on disk.
use etunl_cli.Base.{
  ℕ, ◌≡◌, ◌≢◌, ◌⊎◌, refl, sym, ◌∙◌, inl, inr, Bool, true, false, Option, some, [], ◌∷◌, Result, ok,
  err, Bool-cases, Option-cases, true_ne_false,
}
use etunl_cli.Base.Bytes.{Bytes, is_empty}
use etunl_cli.Config.Server.{
  ServerConfig, ServerFile, LoadError, missing, unreadable, unparsable, parsed, no_token,
  save_failed, or_default, with_defaults, saved, fresh_config, with_secret, with_token, created,
  load_server,
}

-- The settings that have a default are set.
abbrev pub HasSettings : ServerConfig → Type 0
HasSettings c = (c.listen_http ≢ []) × (c.tcp_port_range ≢ []) × (c.admin_subdomain ≢ [])

abbrev pub HasSecrets : ServerConfig → Type 0
HasSecrets c = (c.token ≢ []) × (c.session_secret ≢ [])

err_ne_ok : {e : LoadError} {c : ServerConfig} → ¬ (err e ≡ ok c)
err_ne_ok h = cc

ok_inj : {a b : ServerConfig} → Path (Result LoadError ServerConfig) (ok a) (ok b) → a ≡ b
ok_inj h = cc

not_empty : (s : Bytes) → is_empty s ≡ false → s ≢ []
not_empty [] h = cc
not_empty (c ∷ s) h = λ e. cc

or_default-set : (s d : Bytes) → d ≢ [] → or_default s d ≢ []
or_default-set [] d h = h
or_default-set (c ∷ s) d h = λ e. cc

with_defaults-HasSettings : (c : ServerConfig) → HasSettings (with_defaults c)
unfolding with_defaults
with_defaults-HasSettings c = (
  or_default-set c.listen_http _ (λ e. cc),
  or_default-set c.tcp_port_range _ (λ e. cc),
  or_default-set c.admin_subdomain _ (λ e. cc),
)

saved_ok :
    (save : ServerConfig → Bool) (c c' : ServerConfig)
    → saved save c ≡ ok c'
    → (c ≡ c') × (save c' ≡ true)
unfolding saved
saved_ok save c c' h = elim (Bool-cases (save c)) [
  | inr failed ↦
      let at : saved save c ≡ err save_failed = rw (saved, failed) refl in
      absurd (err_ne_ok (sym at ∙ h))
  | inl written ↦
      let at : saved save c ≡ ok c = rw (saved, written) refl in
      let same = ok_inj (sym at ∙ h) in (same, rw (← same) written)
]

module _ (gen : ℕ → Option Bytes) (save : ServerConfig → Bool)
    (gen-set : (k : ℕ) (t : Bytes) → gen k ≡ some t → t ≢ []) where
  with_secret_ok :
      (k : ℕ) (persist : Bool) (c c' : ServerConfig)
      → c.token ≢ []
      → HasSettings c
      → with_secret gen save k persist c ≡ ok c'
      → HasSettings c' × HasSecrets c' × ((save c' ≡ true) ⊎ ((persist ≡ false) × (c ≡ c')))
  unfolding with_secret
  with_secret_ok k persist c c' ht hs h = elim (Bool-cases (is_empty c.session_secret)) [
    | inl unset ↦ elim (Option-cases (gen k)) [
      | inl failed ↦
          let at : with_secret gen save k persist c ≡ err no_token =
            rw (with_secret, unset, failed) refl in
          absurd (err_ne_ok (sym at ∙ h))
      | inr (secret, made) ↦
          let full = record c { session_secret = secret } in
          let at : with_secret gen save k persist c ≡ saved save full =
            rw (with_secret, unset, made) refl in
          let (same, written) = saved_ok save full c' (sym at ∙ h) in
          rw (← same) (hs, (ht, gen-set k secret made), inl (rw same written))
    ]
    | inr set ↦
        let secret = not_empty c.session_secret set in
        elim (Bool-cases persist) [
          | inl asked ↦
              let at : with_secret gen save k persist c ≡ saved save c =
                rw (with_secret, set, asked) refl in
              let (same, written) = saved_ok save c c' (sym at ∙ h) in
              rw (← same) (hs, (ht, secret), inl (rw same written))
          | inr unasked ↦
              let at : with_secret gen save k persist c ≡ ok c =
                rw (with_secret, set, unasked) refl in
              let same = ok_inj (sym at ∙ h) in rw (← same) (hs, (ht, secret), inr (unasked, refl))
        ]
  ]

  with_token_ok :
      (c c' : ServerConfig)
      → HasSettings c
      → with_token gen save c ≡ ok c'
      → HasSettings c' × HasSecrets c' × ((save c' ≡ true) ⊎ (c ≡ c'))
  unfolding with_token
  with_token_ok c c' hs h = elim (Bool-cases (is_empty c.token)) [
    | inl unset ↦ elim (Option-cases (gen 0)) [
      | inl failed ↦
          let at : with_token gen save c ≡ err no_token = rw (with_token, unset, failed) refl in
          absurd (err_ne_ok (sym at ∙ h))
      | inr (token, made) ↦
          let full = record c { token = token } in
          let at : with_token gen save c ≡ with_secret gen save 1 true full =
            rw (with_token, unset, made) refl in
          let (settings, secrets, kept) =
            with_secret_ok 1 true full c' (gen-set 0 token made) hs (sym at ∙ h) in
          (
            settings,
            secrets,
            elim kept [ inl written ↦ inl written | inr (e, _) ↦ absurd (true_ne_false e) ],
          )
    ]
    | inr set ↦
        let at : with_token gen save c ≡ with_secret gen save 0 false c =
          rw (with_token, set) refl in
        let (settings, secrets, kept) =
          with_secret_ok 0 false c c' (not_empty c.token set) hs (sym at ∙ h) in
        (settings, secrets, elim kept [ inl written ↦ inl written | inr (_, same) ↦ inr same ])
  ]

  created_ok :
      (c' : ServerConfig)
      → created (gen 0) (gen 1) save ≡ ok c'
      → HasSettings c' × HasSecrets c' × (save c' ≡ true)
  unfolding created fresh_config
  created_ok c' h = elim (Option-cases (gen 0)) [
    | inl failed ↦
        let at : created (gen 0) (gen 1) save ≡ err no_token = rw failed refl in
        absurd (err_ne_ok (sym at ∙ h))
    | inr (token, made) ↦ elim (Option-cases (gen 1)) [
      | inl failed ↦
          let at : created (gen 0) (gen 1) save ≡ err no_token = rw (made, failed) refl in
          absurd (err_ne_ok (sym at ∙ h))
      | inr (secret, made') ↦
          let at : created (gen 0) (gen 1) save ≡ saved save (fresh_config token secret) =
            rw (made, made') refl in
          let (same, written) = saved_ok save (fresh_config token secret) c' (sym at ∙ h) in
          rw (← same) (
            ((λ e. cc), (λ e. cc), λ e. cc),
            (gen-set 0 token made, gen-set 1 secret made'),
            rw same written,
          )
    ]
  ]

  -- Where GenerateToken never gives an empty token: a configuration that LoadServerConfig returns has
  -- every setting and both secrets, and it is what SaveServerConfig wrote, or what the file held with
  -- the defaults filled in.
  pub load_server_ok :
      (file : ServerFile) (c' : ServerConfig)
      → load_server file gen save ≡ ok c'
      → HasSettings c'
        × HasSecrets c'
        × ((save c' ≡ true) ⊎ ((c : ServerConfig) × (file ≡ parsed c) × (with_defaults c ≡ c')))
  unfolding load_server
  load_server_ok missing c' h =
      let (settings, secrets, written) = created_ok c' h in (settings, secrets, inl written)
  load_server_ok unreadable c' h = absurd (err_ne_ok h)
  load_server_ok unparsable c' h = absurd (err_ne_ok h)
  load_server_ok (parsed c) c' h =
      let (settings, secrets, kept) =
        with_token_ok (with_defaults c) c' (with_defaults-HasSettings c) h in
      (settings, secrets, elim kept [ inl written ↦ inl written | inr same ↦ inr (c, refl, same) ])
