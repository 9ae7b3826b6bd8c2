-- ===== src/Server/Login/Forwarding.antt =====
-- Which requests of a route with users go on to the machine, and that a login admits until it expires.
use etunl_cli.Base.{
  ℕ, ◌+◌, ◌^◌, ◌<◌, ◌≡◌, ◌≢◌, ◌↔◌, refl, ap, sym, ◌∙◌, inl, inr, true, false, Option, none, some,
  List, [], ◌∷◌, ◌++◌, leb, ◌=?◌, if◌then◌else◌, All, Bool-cases, beq_ne, true_ne_false,
}
use etunl_cli.Base.Bytes.{Bytes, IsByte, Lacks, codes, is_empty, bytes_is_eq}
use etunl_cli.Tunnel.Auth.{RouteInfo}
use etunl_cli.Server.Session.{
  Crypto, session_ttl, sign_session, verify_session, safe_redirect_url_value,
}
use etunl_cli.Server.Session.Signing.{verify_session-sign_session}
use etunl_cli.Server.Login.Access.{not_empty_iff}
use etunl_cli.Server.Http.{Cookie, Request, Response}
use etunl_cli.Server.Login.{
  answered, forward, session_cookie, session_cookie_of, cleared_cookie, login_path, login_target,
  logout_path, strip_session_cookie, cookie_value, handle_login, session_user, handle_session_auth,
  see_other,
}

-- stripSessionCookie takes the session cookie out and leaves the others.
strip_session_cookie_lem :
    (ks : List Cookie)
    → (cookie_value session_cookie (strip_session_cookie ks) ≡ none)
      × ((n : Bytes)
          → n ≢ session_cookie
          → cookie_value n (strip_session_cookie ks) ≡ cookie_value n ks)
unfolding strip_session_cookie cookie_value
strip_session_cookie_lem [] = (refl, λ n ne. refl)
strip_session_cookie_lem (k ∷ ks) =
    let (gone, kept) = strip_session_cookie_lem ks in
    elim (Bool-cases (k.name =? session_cookie)) [
      | inl same ↦ rw same (
        gone,
        λ n ne.
            (let named = (bytes_is_eq.beq_iff k.name session_cookie).0 same in
              let other = beq_ne k.name n (λ e. ne (sym e ∙ named)) in kept n ne ∙ rw other refl),
      )
      | inr differ ↦ rw differ (rw differ gone, λ n ne. rw (kept n ne) refl)
    ]

session_user_sound :
    (c : Crypto) (carried : Option Bytes) (secret : Bytes) (now : ℕ)
    → is_empty (session_user c carried secret now) ≡ false
    → (value : Bytes) × (carried ≡ some value) × (verify_session c value secret now ≢ [])
unfolding session_user
session_user_sound c none secret now h = cc
session_user_sound c (some value) secret now h =
    (value, refl, (not_empty_iff (verify_session c value secret now)).0 h)

forward-inj : {ks js : List Cookie} → forward ks ≡ forward js → ks ≡ js
forward-inj h = cc

answered-forward : {a : Response} {ks : List Cookie} → ¬ (answered a ≡ forward ks)
answered-forward h = cc

forward_iff :
    (c : Crypto) (r : Request) (route : RouteInfo) (secret : Bytes) (now : ℕ) (ks : List Cookie)
    → (handle_session_auth c r route secret now ≡ forward ks) ↔ (
        (value : Bytes) × (r.path ≢ login_path)
        × (r.path ≢ logout_path)
        × (cookie_value session_cookie r.cookies ≡ some value)
        × (verify_session c value secret now ≢ [])
        × (ks ≡ strip_session_cookie r.cookies))
unfolding handle_session_auth session_user
forward_iff c r route secret now ks = elim (Bool-cases (r.path =? login_path)) [
  | inl login ↦
      let at : handle_session_auth c r route secret now
          ≡ answered (handle_login c r route secret now) =
        rw (handle_session_auth, login) refl in
      (
        λ h. absurd (answered-forward (sym at ∙ h)),
        λ (_, nl, _, _, _, _). absurd (nl ((bytes_is_eq.beq_iff r.path login_path).0 login)),
      )
  | inr no_login ↦ elim (Bool-cases (r.path =? logout_path)) [
    | inl logout ↦
        let at : handle_session_auth c r route secret now
            ≡ answered (see_other (codes "/") (some (cleared_cookie r))) =
          rw (handle_session_auth, no_login, logout) refl in
        (
          λ h. absurd (answered-forward (sym at ∙ h)),
          λ (_, _, nl, _, _, _). absurd (nl ((bytes_is_eq.beq_iff r.path logout_path).0 logout)),
        )
    | inr no_logout ↦
        elim (Bool-cases
          (is_empty (session_user c (cookie_value session_cookie r.cookies) secret now))) [
            | inl stranger ↦
                let at : handle_session_auth c r route secret now
                    ≡ answered
                        (see_other (login_target ++ safe_redirect_url_value r.request_uri) none) =
                  rw (handle_session_auth, no_login, no_logout, stranger) refl in
                (
                  λ h. absurd (answered-forward (sym at ∙ h)),
                  λ (value, _, _, carried, valid, _). absurd (
                      true_ne_false (
                        sym stranger
                        ∙ rw carried
                            ((not_empty_iff (verify_session c value secret now)).1 valid))),
                )
            | inr known ↦
                let at : handle_session_auth c r route secret now
                    ≡ forward (strip_session_cookie r.cookies) =
                  rw (handle_session_auth, no_login, no_logout, known) refl in
                (
                  λ h.
                      (let (value, carried, valid) =
                          session_user_sound c (cookie_value session_cookie r.cookies) secret now
                            known in
                        (
                          value,
                          (λ e.
                              true_ne_false
                                (sym ((bytes_is_eq.beq_iff r.path login_path).1 e) ∙ no_login)),
                          (λ e.
                              true_ne_false
                                (sym ((bytes_is_eq.beq_iff r.path logout_path).1 e) ∙ no_logout)),
                          carried,
                          valid,
                          forward-inj (sym h ∙ at),
                        )),
                  λ (_, _, _, _, _, stripped). at ∙ ap forward (sym stripped),
                )
          ]
  ]
]

-- handleSessionAuth lets a request through exactly where its path is neither of the two login paths
-- and it has a session cookie that verifySession takes; what goes on has no session cookie, and
-- every other cookie as it was.
pub handle_session_auth_iff :
    (c : Crypto) (r : Request) (route : RouteInfo) (secret : Bytes) (now : ℕ) (ks : List Cookie)
    → ((handle_session_auth c r route secret now ≡ forward ks) ↔ (
        (value : Bytes) × (r.path ≢ login_path)
        × (r.path ≢ logout_path)
        × (cookie_value session_cookie r.cookies ≡ some value)
        × (verify_session c value secret now ≢ [])
        × (ks ≡ strip_session_cookie r.cookies)))
      × (cookie_value session_cookie (strip_session_cookie r.cookies) ≡ none)
      × ((n : Bytes)
          → n ≢ session_cookie
          → cookie_value n (strip_session_cookie r.cookies) ≡ cookie_value n r.cookies)
handle_session_auth_iff c r route secret now ks =
    let (gone, kept) = strip_session_cookie_lem r.cookies in
    (forward_iff c r route secret now ks, gone, kept)

-- A login admits: the cookie that handleLogin sets for a user lets every request that carries it
-- through, on paths other than the two login paths, until a day later, and from then on it sends the
-- request to the login page. Base64 decodes what it encodes and writes no `.`, the code is made of
-- bytes, and the user name is made of bytes, without `|`, and not empty.
pub handle_session_auth-session_cookie_of :
    (c : Crypto) (login r : Request) (route : RouteInfo) (user secret : Bytes) (now later : ℕ)
    → (decode-encode : (s : Bytes) → All IsByte s → c.decode64 (c.encode64 s) ≡ some s)
    → (encode-Lacks : (s : Bytes) → All IsByte s → Lacks b'.' (c.encode64 s))
    → (mac-bytes : (key s : Bytes) → All IsByte (c.mac key s)) → All IsByte user
    → Lacks b'|' user
    → user ≢ []
    → now + session_ttl < 2 ^ 63
    → r.path ≢ login_path
    → r.path ≢ logout_path
    → cookie_value session_cookie r.cookies
      ≡ some ((session_cookie_of c login user secret now).value)
    → handle_session_auth c r route secret later ≡ (
        if leb (now + session_ttl) later
        then answered (see_other (login_target ++ safe_redirect_url_value r.request_uri) none)
        else forward (strip_session_cookie r.cookies))
unfolding session_cookie_of session_user handle_session_auth
handle_session_auth-session_cookie_of c login r route user secret now later decode-encode
      encode-Lacks mac-bytes hu hn ne he nl nlo carried =
    let value = sign_session c user (now + session_ttl) secret in
    let verified : verify_session c value secret later
        ≡ (if leb (now + session_ttl) later then [] else user) =
      verify_session-sign_session c user secret (now + session_ttl) later decode-encode encode-Lacks
        mac-bytes hu hn he in
    let of_cookie : session_user c (cookie_value session_cookie r.cookies) secret later
        ≡ (if leb (now + session_ttl) later then [] else user) =
      rw carried verified in
    let no_login = beq_ne r.path login_path nl in
    let no_logout = beq_ne r.path logout_path nlo in
    elim (Bool-cases (leb (now + session_ttl) later)) [
      | inl over ↦
          let stranger : is_empty
                (session_user c (cookie_value session_cookie r.cookies) secret later)
              ≡ true =
            rw (of_cookie, over) refl in
          rw (handle_session_auth, no_login, no_logout, stranger, over) refl
      | inr still ↦
          let known : is_empty (session_user c (cookie_value session_cookie r.cookies) secret later)
              ≡ false =
            rw (of_cookie, still) ((not_empty_iff user).1 ne) in
          rw (handle_session_auth, no_login, no_logout, known, still) refl
    ]
