-- ===== src/Server/Admin/Setup.antt =====
-- The credentials and the configuration file over the calls of the admin panel.
use mathlib.Core.Path.{subst}
use etunl_cli.Base.{
  ◌≤◌, ◌≡◌, ◌⊎◌, inl, inr, refl, sym, ap, ◌∙◌, true, false, Option, some, [], ◌∷◌, length, arith,
  true_ne_false,
}
use etunl_cli.Base.Bytes.{Bytes, bytes_is_eq, is_empty}
use etunl_cli.Config.Server.{ServerConfig}
use etunl_cli.Config.Files.{SaveError, save_config}
use etunl_cli.Config.Files.Outcomes.{Written, Torn, save_config-Written, save_config-failed}
use etunl_cli.Server.Http.{Request}
use etunl_cli.Server.Admin.{
  Panel, Reply, created, token, Outside, is_configured, with_admin, with_token, handle_admin,
}
use etunl_cli.Server.Admin.Change.{
  Change, nothing, stored, rolled_back, rotated, unsaved, plain-created, plain-token,
  handle_admin-Change,
}

-- Both credentials are set, or none is.
unfoldable pub IsClean : ServerConfig → Type 0
IsClean c = is_configured c ≡ false → (c.admin_user ≡ []) × (c.admin_password ≡ [])

-- yaml.Unmarshal gives, of the file, the configuration that the server runs with.
pub record InSync (unmarshal : Bytes → Option ServerConfig) (p : Panel) : Type 0 where
  pub bytes : Bytes
  pub there : p.file ≡ some bytes
  pub read : unmarshal bytes ≡ some p.cfg
  pub clean : IsClean p.cfg

configured_ne : (p : Panel) → is_configured p.cfg ≡ true → ¬ (is_configured p.cfg ≡ false)
configured_ne p known unset = true_ne_false (sym known ∙ unset)

length-set : (s : Bytes) → 8 ≤ length s → is_empty s ≡ false
length-set [] h = absurd (omega arith)
length-set (c ∷ s) h = refl

-- Credentials that are set stay as they are, whatever the request is and whatever was seen.
pub handle_admin-credentials :
    (o : Outside) (seen : ServerConfig) (r : Request) (p : Panel)
    → is_configured p.cfg ≡ true
    → let p' = (handle_admin o seen r p).0 in
      (p'.cfg.admin_user ≡ p.cfg.admin_user) × (p'.cfg.admin_password ≡ p.cfg.admin_password)
handle_admin-credentials o seen r p known = kept (handle_admin-Change o seen r p)
  where
    kept :
        {out : Panel × Reply}
        → Change o p out
        → (out.0.cfg.admin_user ≡ p.cfg.admin_user)
          × (out.0.cfg.admin_password ≡ p.cfg.admin_password)
    kept (nothing h) = (refl, refl)
    kept (stored user password unset named long file clean) = absurd (configured_ne p known unset)
    kept (rolled_back user password unset h file e lost) = absurd (configured_ne p known unset)
    kept (rotated new file clean) = (refl, refl)
    kept (unsaved new h file e lost) = (refl, refl)

-- A setup that is answered by 201 found no credentials, and leaves a panel with a user and a password
-- of at least 8 bytes, in a configuration that is written to the file.
pub handle_admin-created :
    (o : Outside) (seen : ServerConfig) (r : Request) (p : Panel)
    → (handle_admin o seen r p).1 ≡ created
    → let p' = (handle_admin o seen r p).0 in
      (is_configured p.cfg ≡ false)
      × (is_configured p'.cfg ≡ true)
      × (8 ≤ length p'.cfg.admin_password)
      × Written o.saving p'.cfg p'.file
handle_admin-created o seen r p = made (handle_admin-Change o seen r p)
  where
    made :
        {out : Panel × Reply}
        → Change o p out
        → out.1 ≡ created
        → (is_configured p.cfg ≡ false)
          × (is_configured out.0.cfg ≡ true)
          × (8 ≤ length out.0.cfg.admin_password)
          × Written o.saving out.0.cfg out.0.file
    made (nothing h) e = absurd (plain-created h e)
    made (stored user password unset named long file clean) h = (
      unset,
      rw (named, length-set password long) refl,
      long,
      save_config-Written o.saving (with_admin user password p).cfg p.file file clean,
    )
    made (rolled_back user password unset h file e lost) h' = absurd (plain-created h h')
    made (rotated new file clean) h = cc
    made (unsaved new h file e lost) h' = absurd (plain-created h h')

no_admin :
    (cfg : ServerConfig)
    → IsClean cfg
    → is_configured cfg ≡ false
    → record cfg { admin_user = []; admin_password = [] } ≡ cfg
unfolding IsClean
no_admin cfg clean unset =
    let (no_user, no_password) = clean unset in
    sym (
      ap (λ u. record cfg { admin_user = u }) no_user
      ∙ ap (λ w. record cfg { admin_user = []; admin_password = w }) no_password)

-- The file and the memory behind a call, where they were in sync before it.
pub data Behind (unmarshal : Bytes → Option ServerConfig) (o : Outside) (p p' : Panel)
    : Type 0 where
  in_sync : InSync unmarshal p' → Behind unmarshal o p p'
  token_unsaved :
      (new : Bytes) (e : SaveError)
      → p' ≡ with_token new p
      → save_config o.saving p'.cfg p.file ≡ (p.file, some e)
      → Behind unmarshal o p p'
  setup_torn :
      (user password : Bytes)
      → is_configured p.cfg ≡ false
      → p'.cfg ≡ p.cfg
      → Torn o.saving (with_admin user password p).cfg p'.file
      → Behind unmarshal o p p'
  token_torn :
      (new : Bytes)
      → p'.cfg ≡ (with_token new p).cfg
      → Torn o.saving p'.cfg p'.file
      → Behind unmarshal o p p'

module _ (unmarshal : Bytes → Option ServerConfig) (o : Outside) (p : Panel)
    (codec : (c : ServerConfig) (bytes : Bytes)
      → o.saving.marshal c ≡ some bytes
      → unmarshal bytes ≡ some c)
    (sync : InSync unmarshal p) where
  InSync-Written :
      (p' : Panel) → IsClean p'.cfg → Written o.saving p'.cfg p'.file → InSync unmarshal p'
  InSync-Written p' clean w = record {
    bytes = w.bytes;
    there = w.there;
    read = codec p'.cfg w.bytes w.marshalled;
    clean = clean;
  }

  rolled_back-Behind :
      (user password : Bytes) (file : Option Bytes)
      → is_configured p.cfg ≡ false
      → (file ≡ p.file) ⊎ Torn o.saving (with_admin user password p).cfg file
      → Behind unmarshal o p (with_admin [] [] (record p { file = file }))
  rolled_back-Behind user password file unset (inr torn) =
      setup_torn user password unset (no_admin p.cfg sync.clean unset) torn
  rolled_back-Behind user password file unset (inl same) =
      let back : p ≡ with_admin [] [] (record p { file = file }) =
        ap (λ c. record p { cfg = c }) (sym (no_admin p.cfg sync.clean unset))
        ∙ ap (λ f. with_admin [] [] (record p { file = f })) (sym same) in
      in_sync (subst (InSync unmarshal) back sync)

  unsaved-Behind :
      (new : Bytes) (file : Option Bytes) (e : SaveError)
      → save_config o.saving (with_token new p).cfg p.file ≡ (file, some e)
      → (file ≡ p.file) ⊎ Torn o.saving (with_token new p).cfg file
      → Behind unmarshal o p (record (with_token new p) { file = file })
  unsaved-Behind new file e lost (inr torn) = token_torn new refl torn
  unsaved-Behind new file e lost (inl same) =
      token_unsaved new e (ap (λ f. record (with_token new p) { file = f }) same)
        (lost ∙ ap (λ f. (f, some e)) same)

  Change-Behind : {out : Panel × Reply} → Change o p out → Behind unmarshal o p out.0
  unfolding IsClean
  Change-Behind (nothing h) = in_sync sync
  Change-Behind (stored user password unset named long file clean) = in_sync (
      InSync-Written (record (with_admin user password p) { file = file })
        (λ bad. absurd (true_ne_false (sym (rw (named, length-set password long) refl) ∙ bad)))
        (save_config-Written o.saving (with_admin user password p).cfg p.file file clean))
  Change-Behind (rolled_back user password unset h file e lost) =
      rolled_back-Behind user password file unset
        (save_config-failed o.saving (with_admin user password p).cfg p.file file e lost)
  Change-Behind (rotated new file clean) = in_sync (
      InSync-Written (record (with_token new p) { file = file }) sync.clean
        (save_config-Written o.saving (with_token new p).cfg p.file file clean))
  Change-Behind (unsaved new h file e lost) =
      unsaved-Behind new file e lost
        (save_config-failed o.saving (with_token new p).cfg p.file file e lost)

  -- Where yaml.Unmarshal gives back what yaml.Marshal wrote, and gives, of the file, the configuration of
  -- the server, with both credentials or none, it does so behind every call too, but for three cases, all
  -- of a save that reports an error: a new token is in force and the file is as before; a new token is in
  -- force and a torn write has left a beginning of the new file; or the credentials of a setup are rolled
  -- back, and a torn write has left a beginning of the file that holds them.
  pub handle_admin-InSync :
      (seen : ServerConfig) (r : Request) → Behind unmarshal o p (handle_admin o seen r p).0
  handle_admin-InSync seen r = Change-Behind (handle_admin-Change o seen r p)

-- A new token that is answered with is the one in force.
pub handle_admin-token :
    (o : Outside) (seen : ServerConfig) (r : Request) (p : Panel) (new : Bytes)
    → (handle_admin o seen r p).1 ≡ token new
    → (handle_admin o seen r p).0.cfg.token ≡ new
handle_admin-token o seen r p new = in_force (handle_admin-Change o seen r p)
  where
    in_force : {out : Panel × Reply} → Change o p out → out.1 ≡ token new → out.0.cfg.token ≡ new
    in_force (nothing h) e = absurd (plain-token new h e)
    in_force (stored user password unset named long file clean) h = cc
    in_force (rolled_back user password unset h file e lost) h' = absurd (plain-token new h h')
    in_force (rotated other file clean) h = cc
    in_force (unsaved other h file e lost) h' = absurd (plain-token new h h')
