-- ===== src/Server/Admin/Change.antt =====
-- What a call of the admin panel may do to its state.
use etunl_cli.Base.{
  ◌≤◌, ◌≡◌, ◌≢◌, refl, false, not, Option, none, some, ◌=?◌, [], length, ltb, arith, if_split,
}
use etunl_cli.Base.Bytes.{Bytes, codes, bytes_is_eq, is_empty}
use etunl_cli.Base.Space.{trim_space}
use etunl_cli.Config.Server.{ServerConfig}
use etunl_cli.Config.Files.{SaveError, save_config}
use etunl_cli.Server.Http.{Request, Response, http_error}
use etunl_cli.Server.Admin.{
  Panel, Reply, Status, created, failed, token, bad_request, Outside, is_configured, with_admin,
  with_token, admin_status, after_setup, set_admin, checked_setup, decoded_setup, admin_setup,
  after_rotation, set_token, admin_rotate_token, admin_api, handle_admin,
}
use etunl_cli.Server.Metrics.{Registry}
use etunl_cli.Server.Admin.Gate.{Access, IsOpen, handle_admin-Access}

-- A reply that neither tells of a setup that was done nor of a new token.
pub data IsPlain : Reply → Type 0 where
  open_reply : {reply : Reply} → IsOpen reply → IsPlain reply
  status : (s : Status) → IsPlain (Reply.status s)
  metrics_of : (m : Registry) → IsPlain (Reply.metrics_of m)

-- What a call of the panel does to its state: nothing; new credentials, stored or, where the save
-- reports an error, both emptied; or a new token, where the save reports no error or one.
pub data Change (o : Outside) (p : Panel) : Panel × Reply → Type 0 where
  nothing : {reply : Reply} → IsPlain reply → Change o p (p, reply)
  stored :
      (user password : Bytes)
      → is_configured p.cfg ≡ false
      → is_empty user ≡ false
      → 8 ≤ length password
      → (file : Option Bytes)
      → save_config o.saving (with_admin user password p).cfg p.file ≡ (file, none)
      → Change o p (record (with_admin user password p) { file = file }, created)
  rolled_back :
      {reply : Reply} (user password : Bytes)
      → is_configured p.cfg ≡ false
      → IsPlain reply
      → (file : Option Bytes) (e : SaveError)
      → save_config o.saving (with_admin user password p).cfg p.file ≡ (file, some e)
      → Change o p (with_admin [] [] (record p { file = file }), reply)
  rotated :
      (new : Bytes) (file : Option Bytes)
      → save_config o.saving (with_token new p).cfg p.file ≡ (file, none)
      → Change o p (record (with_token new p) { file = file }, token new)
  unsaved :
      {reply : Reply} (new : Bytes)
      → IsPlain reply
      → (file : Option Bytes) (e : SaveError)
      → save_config o.saving (with_token new p).cfg p.file ≡ (file, some e)
      → Change o p (record (with_token new p) { file = file }, reply)

a_failure : (r : Response) → IsPlain (failed r)
a_failure r = IsPlain.open_reply (IsOpen.failed r)

module _ (o : Outside) (p : Panel) where
  after_setup-Change :
      (user password : Bytes)
      → is_configured p.cfg ≡ false
      → is_empty user ≡ false
      → 8 ≤ length password
      → (out : Option Bytes × Option SaveError)
      → save_config o.saving (with_admin user password p).cfg p.file ≡ out
      → Change o p (after_setup (with_admin user password p) out)
  unfolding after_setup
  after_setup-Change user password unset named long (file, none) h =
      stored user password unset named long file h
  after_setup-Change user password unset named long (file, some e) h =
      rolled_back user password unset (a_failure _) file e h

  set_admin-Change :
      (user password : Bytes)
      → is_empty user ≡ false
      → 8 ≤ length password
      → Change o p (set_admin o user password p)
  unfolding set_admin
  set_admin-Change user password named long =
      if_split (Change o p) (is_configured p.cfg) (λ _. nothing (a_failure _))
        (λ unset. after_setup-Change user password unset named long _ refl)

  checked_setup-Change : (user password : Bytes) → Change o p (checked_setup o user password p)
  unfolding checked_setup
  checked_setup-Change user password =
      if_split (Change o p) (is_empty (trim_space user)) (λ _. nothing (a_failure _))
        (λ named.
          if_split (Change o p) (ltb (length password) 8) (λ _. nothing (a_failure _))
            (λ long. set_admin-Change (trim_space user) password named (ground arith)))

  decoded_setup-Change : (d : Option (Bytes × Bytes)) → Change o p (decoded_setup o d p)
  unfolding decoded_setup
  decoded_setup-Change none = nothing (a_failure _)
  decoded_setup-Change (some (user, password)) = checked_setup-Change user password

  admin_setup-Change : (r : Request) → Change o p (admin_setup o r p)
  unfolding admin_setup
  admin_setup-Change r =
      if_split (Change o p) (not (r.method =? codes "POST")) (λ _. nothing (a_failure _))
        (λ _. body_read r.body)
    where
      body_read :
          (body : Option Bytes)
          → Change o p (elim body [
            | none ↦ (p, bad_request (codes "bad request"))
            | some b ↦ decoded_setup o (o.unmarshal b) p
          ])
      body_read none = nothing (a_failure _)
      body_read (some b) = decoded_setup-Change (o.unmarshal b)

  after_rotation-Change :
      (new : Bytes) (out : Option Bytes × Option SaveError)
      → save_config o.saving (with_token new p).cfg p.file ≡ out
      → Change o p (after_rotation new (with_token new p) out)
  unfolding after_rotation
  after_rotation-Change new (file, none) h = rotated new file h
  after_rotation-Change new (file, some e) h = unsaved new (a_failure _) file e h

  set_token-Change : (new : Bytes) → Change o p (set_token o new p)
  unfolding set_token
  set_token-Change new = after_rotation-Change new _ refl

  rotate-Change : (r : Request) → Change o p (admin_rotate_token o r p)
  unfolding admin_rotate_token
  rotate-Change r =
      if_split (Change o p) (not (r.method =? codes "POST")) (λ _. nothing (a_failure _))
        (λ _. generated o.new_token)
    where
      generated :
          (new : Option Bytes)
          → Change o p
              (elim new [ none ↦ (p, failed (http_error 500 [])) | some t ↦ set_token o t p ])
      generated none = nothing (a_failure _)
      generated (some t) = set_token-Change t

  admin_api-Change : (r : Request) → Change o p (admin_api o r p)
  unfolding admin_api admin_status
  admin_api-Change r =
      if_split (Change o p) (r.path =? codes "/api/status") (λ _. nothing (IsPlain.status _))
        (λ _.
          if_split (Change o p) (r.path =? codes "/api/metrics")
            (λ _. nothing (IsPlain.metrics_of _))
            (λ _.
              if_split (Change o p) (r.path =? codes "/api/rotate-token") (λ _. rotate-Change r)
                (λ _. nothing (a_failure _))))

pub plain-created : {reply : Reply} → IsPlain reply → reply ≢ created
plain-created (IsPlain.open_reply IsOpen.page) h = cc
plain-created (IsPlain.open_reply IsOpen.setup_required) h = cc
plain-created (IsPlain.open_reply (IsOpen.failed r)) h = cc
plain-created (IsPlain.status t) h = cc
plain-created (IsPlain.metrics_of m) h = cc

pub plain-token : {reply : Reply} (new : Bytes) → IsPlain reply → reply ≢ token new
plain-token new (IsPlain.open_reply IsOpen.page) h = cc
plain-token new (IsPlain.open_reply IsOpen.setup_required) h = cc
plain-token new (IsPlain.open_reply (IsOpen.failed r)) h = cc
plain-token new (IsPlain.status t) h = cc
plain-token new (IsPlain.metrics_of m) h = cc

pub handle_admin-Change :
    (o : Outside) (seen : ServerConfig) (r : Request) (p : Panel)
    → Change o p (handle_admin o seen r p)
handle_admin-Change o seen r p = of_access (handle_admin-Access o seen r p)
  where
    of_access : {out : Panel × Reply} → Access o seen r p out → Change o p out
    of_access (Access.outside reply h) = nothing (IsPlain.open_reply h)
    of_access (Access.setup at_setup unset) = admin_setup-Change o p r
    of_access (Access.inside known logged_in) = admin_api-Change o p r
