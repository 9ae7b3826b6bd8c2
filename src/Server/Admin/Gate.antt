-- ===== src/Server/Admin/Gate.antt =====
-- Who may read and change what through the admin panel.
use etunl_cli.Base.{
  ◌≡◌, inl, inr, sym, true, false, not, ◌&&◌, ◌||◌, some, ◌=?◌, Option-cases, true_ne_false,
  if_split, not-false, and_true, nat_eq,
}
use etunl_cli.Base.Bytes.{codes, bytes_is_eq, bytes_eq_iff}
use etunl_cli.Config.Server.{ServerConfig}
use etunl_cli.Server.Http.{Request, Response}
use etunl_cli.Server.Admin.{
  Panel, Reply, Outside, is_configured, is_admin, admin_api, admin_setup, admin_behind_setup,
  handle_admin,
}

-- The request carries the credentials of the configuration.
pub IsLoggedIn : ServerConfig → Request → Type 0
IsLoggedIn c r = r.basic_auth ≡ some (c.admin_user, c.admin_password)

is_admin-IsLoggedIn : (c : ServerConfig) (r : Request) → is_admin c r ≡ true → IsLoggedIn c r
unfolding is_admin IsLoggedIn
is_admin-IsLoggedIn c r h = elim (Option-cases r.basic_auth) [
  | inl absent ↦ absurd (true_ne_false (sym (rw (is_admin, absent) at h)))
  | inr ((user, password), present) ↦
      let same : (user =? c.admin_user && password =? c.admin_password) ≡ true =
        rw (is_admin, present) at h in
      let (same_user, same_password) = and_true same in
      rw
        (
          sym ((bytes_eq_iff user c.admin_user).0 same_user),
          sym ((bytes_eq_iff password c.admin_password).0 same_password),
        )
        present
]

-- A reply that anybody may get.
pub data IsOpen : Reply → Type 0 where
  page : IsOpen Reply.page
  setup_required : IsOpen Reply.setup_required
  failed : (response : Response) → IsOpen (Reply.failed response)

-- The three ways through handleAdmin: it changes nothing and gives an open reply, it is the setup of a
-- panel that was seen without credentials, or it is a call of the API with the credentials.
pub data Access (o : Outside) (seen : ServerConfig) (r : Request) (p : Panel)
    : Panel × Reply → Type 0 where
  outside : (reply : Reply) → IsOpen reply → Access o seen r p (p, reply)
  setup :
      r.path ≡ codes "/api/setup"
      → is_configured seen ≡ false
      → Access o seen r p (admin_setup o r p)
  inside : is_configured seen ≡ true → IsLoggedIn seen r → Access o seen r p (admin_api o r p)

module _ (o : Outside) (seen : ServerConfig) (r : Request) (p : Panel) where
  behind_setup-Access : Access o seen r p (admin_behind_setup o seen r p)
  unfolding admin_behind_setup
  behind_setup-Access =
      if_split (Access o seen r p) (r.path =? codes "/api/status" && not (is_configured seen))
        (λ _. outside _ setup_required)
        (λ _.
          if_split (Access o seen r p) (not (is_configured seen)) (λ _. outside _ (failed _))
            (λ known.
              if_split (Access o seen r p) (not (is_admin seen r)) (λ _. outside _ (failed _))
                (λ checked.
                  inside (not-false known) (is_admin-IsLoggedIn seen r (not-false checked)))))

  -- However handleAdmin goes, it changes nothing and answers with the page, `setup_required` or an
  -- error, or it runs adminSetup, for `/api/setup` while the credentials were seen to be unset, or it
  -- runs the API, for a request with the credentials that were seen, which are set.
  pub handle_admin-Access : Access o seen r p (handle_admin o seen r p)
  unfolding handle_admin
  handle_admin-Access =
      if_split (Access o seen r p) (r.path =? codes "/" || r.path =? codes "/index.html")
        (λ _. outside _ page)
        (λ _.
          if_split (Access o seen r p) (r.path =? codes "/api/setup")
            (λ at_setup.
              if_split (Access o seen r p) (is_configured seen) (λ _. outside _ (failed _))
                (λ unset. setup ((bytes_eq_iff r.path (codes "/api/setup")).0 at_setup) unset))
            (λ _. behind_setup-Access))
