-- ===== src/Server/Login/Access.antt =====
-- Who gets through the login form and the session check.
use etunl_cli.Base.{
  ℕ, ◌≡◌, ◌≢◌, ◌↔◌, refl, ap, sym, ◌∙◌, inl, inr, false, none, some, [], ◌∷◌, ◌=?◌, Bool-cases,
  Option-cases, true_ne_false, none_ne_some, some_inj,
}
use etunl_cli.Base.Bytes.{Bytes, codes, is_empty, bytes_is_eq}
use etunl_cli.Tunnel.Auth.{RouteInfo, lookup_user}
use etunl_cli.Server.Session.{Crypto}
use etunl_cli.Server.Http.{Request, SetCookie}
use etunl_cli.Server.Login.{session_cookie_of, log_in, handle_login, render_login_page}

pub not_empty_iff : (s : Bytes) → (is_empty s ≡ false) ↔ (s ≢ [])
not_empty_iff [] = (λ h. cc, λ h. absurd (h refl))
not_empty_iff (c ∷ s) = (λ h e. cc, λ h. refl)

get_not_post : ¬ (codes "GET" ≡ codes "POST")
get_not_post h = cc

log_in_iff :
    (c : Crypto) (r : Request) (route : RouteInfo) (secret : Bytes) (now : ℕ) (user pass : Bytes)
    (k : SetCookie)
    → ((log_in c r route secret now user pass).set_cookie ≡ some k) ↔ (
        (lookup_user route.auth user ≢ [])
        × (pass ≡ lookup_user route.auth user)
        × (k ≡ session_cookie_of c r user secret now))
unfolding log_in render_login_page
log_in_iff c r route secret now user pass k =
    let want = lookup_user route.auth user in
    elim (Bool-cases (is_empty want)) [
      | inl unknown ↦
          let nothing : (log_in c r route secret now user pass).set_cookie ≡ none =
            rw (log_in, unknown) refl in
          (
            λ h. absurd (none_ne_some (sym nothing ∙ h)),
            λ (known, _, _). absurd (true_ne_false (sym unknown ∙ (not_empty_iff want).1 known)),
          )
      | inr known ↦ elim (Bool-cases (pass =? want)) [
        | inr wrong ↦
            let nothing : (log_in c r route secret now user pass).set_cookie ≡ none =
              rw (log_in, known, wrong) refl in
            (
              λ h. absurd (none_ne_some (sym nothing ∙ h)),
              λ (_, same, _).
                  absurd (true_ne_false (sym ((bytes_is_eq.beq_iff pass want).1 same) ∙ wrong)),
            )
        | inl right ↦
            let granted : (log_in c r route secret now user pass).set_cookie
                ≡ some (session_cookie_of c r user secret now) =
              rw (log_in, known, right) refl in
            (
              λ h. (
                (not_empty_iff want).0 known,
                (bytes_is_eq.beq_iff pass want).0 right,
                some_inj (sym h ∙ granted),
              ),
              λ (_, _, cookie). granted ∙ ap some (sym cookie),
            )
      ]
    ]

-- handleLogin sets a cookie for a user exactly where the request is a POST whose form names the user
-- and gives the password that the route has for this name, which is not empty.
pub handle_login_iff :
    (c : Crypto) (r : Request) (route : RouteInfo) (secret : Bytes) (now : ℕ) (k : SetCookie)
    → ((handle_login c r route secret now).set_cookie ≡ some k) ↔ (
        (value : Bytes → Bytes) × (r.method ≡ codes "POST")
        × (r.form ≡ some value)
        × (lookup_user route.auth (value (codes "user")) ≢ [])
        × (value (codes "password") ≡ lookup_user route.auth (value (codes "user")))
        × (k ≡ session_cookie_of c r (value (codes "user")) secret now))
unfolding handle_login log_in render_login_page
handle_login_iff c r route secret now k = elim (Bool-cases (r.method =? codes "GET")) [
  | inl got ↦
      let nothing : (handle_login c r route secret now).set_cookie ≡ none =
        rw (handle_login, got) refl in
      let method = (bytes_is_eq.beq_iff r.method (codes "GET")).0 got in
      (
        λ h. absurd (none_ne_some (sym nothing ∙ h)),
        λ (value, posted, _, _, _, _). absurd (get_not_post (sym method ∙ posted)),
      )
  | inr other ↦ elim (Bool-cases (r.method =? codes "POST")) [
    | inr neither ↦
        let nothing : (handle_login c r route secret now).set_cookie ≡ none =
          rw (handle_login, other, neither) refl in
        (
          λ h. absurd (none_ne_some (sym nothing ∙ h)),
          λ (value, posted, _, _, _, _). absurd (
              true_ne_false
                (sym ((bytes_is_eq.beq_iff r.method (codes "POST")).1 posted) ∙ neither)),
        )
    | inl posted ↦ elim (Option-cases r.form) [
      | inl bad ↦
          let nothing : (handle_login c r route secret now).set_cookie ≡ none =
            rw (handle_login, other, posted, bad) refl in
          (
            λ h. absurd (none_ne_some (sym nothing ∙ h)),
            λ (value, _, parsed, _, _, _). absurd (none_ne_some (sym bad ∙ parsed)),
          )
      | inr (form, good) ↦
          let user = form (codes "user") in
          let pass = form (codes "password") in
          let same : (handle_login c r route secret now).set_cookie
              ≡ (log_in c r route secret now user pass).set_cookie =
            rw (handle_login, other, posted, good) refl in
          (
            λ h.
                (let (known, right, cookie) =
                    (log_in_iff c r route secret now user pass k).0 (sym same ∙ h) in
                  (
                    form,
                    (bytes_is_eq.beq_iff r.method (codes "POST")).0 posted,
                    good,
                    known,
                    right,
                    cookie,
                  )),
            λ (value, _, parsed, known, right, cookie).
                (let one : form ≡ value = some_inj (sym good ∙ parsed) in
                  same
                  ∙ (log_in_iff c r route secret now user pass k).1
                      (rw one (known, right, cookie))),
          )
    ]
  ]
]
