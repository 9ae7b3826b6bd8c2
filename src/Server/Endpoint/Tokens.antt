-- ===== src/Server/Endpoint/Tokens.antt =====
-- Who is admitted to the tunnel endpoint, also after the token was rotated.
use etunl_cli.Base.{
  ℕ, ◌≡◌, ◌≢◌, ◌⊎◌, inl, inr, refl, sym, ap, ◌∙◌, Bool, true, false, not, some, [], ◌++◌, ◌=?◌,
  if_split, true_ne_false, nat_eq, Bool-cases, ◌↔◌, if◌then◌else◌,
}
use etunl_cli.Base.Bytes.{Bytes, codes, bytes_is_eq, bytes_eq_iff, is_empty}
use etunl_cli.Base.Dict.{lookup, lookup-insert_self}
use etunl_cli.Config.Server.{ServerConfig}
use etunl_cli.Server.Http.{Request, http_error}
use etunl_cli.Server.Routes.{ClientEntry, Clients, register}
use etunl_cli.Server.Admin.{Panel, Outside, token, handle_admin}
use etunl_cli.Server.Admin.Setup.{handle_admin-token}
use etunl_cli.Server.Endpoint.{
  Admission, Admitted, registered, anonymous, not_upgraded, denied, admit, handle_tunnel,
}

bearer_inj : {s t : Bytes} → codes "Bearer " ++ s ≡ codes "Bearer " ++ t → s ≡ t
bearer_inj h = cc

abbrev unauthorized : Admission
unauthorized = denied (http_error 401 (codes "unauthorized"))

anonymous_ne : anonymous ≢ unauthorized
anonymous_ne h = cc

registered_ne : (machine : Bytes) (conn : ℕ) → registered machine conn ≢ unauthorized
registered_ne machine conn h = cc

-- A request is turned away with 401 just where its header is not `Bearer ` with the token; then the
-- table of machines stays and no connection is closed.
pub handle_tunnel-token :
    (c : ServerConfig) (r : Request) (upgraded : Bool) (addr : Bytes) (conn : ℕ) (clients : Clients)
    → let out = handle_tunnel c r upgraded addr conn clients in
      ((r.header (codes "Authorization") ≡ codes "Bearer " ++ c.token)
        × (out.admission ≢ unauthorized))
      ⊎ ((r.header (codes "Authorization") ≢ codes "Bearer " ++ c.token)
          × (out ≡ record { admission = unauthorized; clients = clients; closed = [] }))
unfolding handle_tunnel admit
handle_tunnel-token c r upgraded addr conn clients =
    elim (Bool-cases (r.header (codes "Authorization") =? (codes "Bearer " ++ c.token))) [
      | inl same ↦ inl (
        (bytes_eq_iff (r.header (codes "Authorization")) (codes "Bearer " ++ c.token)).0 same,
        rw (handle_tunnel, same) (let_in upgraded),
      )
      | inr other ↦ inr (
        λ e. true_ne_false (sym ((bytes_eq_iff _ _).1 e) ∙ other),
        rw (handle_tunnel, other) refl,
      )
    ]
  where
    let_in :
        (up : Bool)
        → (if not up
            then record { admission = not_upgraded; clients = clients; closed = [] }
            else admit (r.header (codes "X-Machine-Name")) addr conn clients).admission
          ≢ unauthorized
    let_in false h = cc
    let_in true h =
        if_split (λ (a : Admitted). a.admission ≢ unauthorized)
          (is_empty (r.header (codes "X-Machine-Name"))) (λ _. anonymous_ne)
          (λ _. registered_ne _ conn) h

-- Behind a rotation that gave a new token, a request with a bearer token is let in, not turned away,
-- just where it is that token.
pub rotated_token :
    (o : Outside) (seen : ServerConfig) (ra : Request) (p : Panel) (new : Bytes) (r : Request)
    (bearer : Bytes) (upgraded : Bool) (addr : Bytes) (conn : ℕ)
    → (handle_admin o seen ra p).1 ≡ token new
    → r.header (codes "Authorization") ≡ codes "Bearer " ++ bearer
    → let p' = (handle_admin o seen ra p).0 in
      ((handle_tunnel p'.cfg r upgraded addr conn p'.clients).admission ≢ unauthorized)
      ↔ (bearer ≡ new)
rotated_token o seen ra p new r bearer upgraded addr conn rotated with_bearer =
    let p' = (handle_admin o seen ra p).0 in
    let in_force = handle_admin-token o seen ra p new rotated in
    elim (handle_tunnel-token p'.cfg r upgraded addr conn p'.clients) [
      | inl (same, let_in) ↦ (λ _. bearer_inj (sym with_bearer ∙ same) ∙ in_force, λ _. let_in)
      | inr (other, out) ↦ (
        λ admitted. absurd (admitted (ap (λ x. x.admission) out)),
        λ e. absurd (other (with_bearer ∙ ap (λ t. codes "Bearer " ++ t) (e ∙ sym in_force))),
      )
    ]

-- A machine with a name, behind the upgrade.
pub admit-registered :
    (machine addr : Bytes) (conn : ℕ) (clients : Clients)
    → is_empty machine ≡ false
    → let out = admit machine addr conn clients in
      (out.admission ≡ registered machine conn)
      × (lookup machine out.clients
          ≡ some (record { machine_name = machine; conn = conn; routes = []; remote_addr = addr }))
unfolding admit register
admit-registered machine addr conn clients named =
    let entry : ClientEntry = record {
      machine_name = machine;
      conn = conn;
      routes = [];
      remote_addr = addr;
    } in
    rw (admit, named) (refl, lookup-insert_self machine entry clients)

pub handle_tunnel-admit :
    (c : ServerConfig) (r : Request) (addr : Bytes) (conn : ℕ) (clients : Clients)
    → r.header (codes "Authorization") ≡ codes "Bearer " ++ c.token
    → handle_tunnel c r true addr conn clients
      ≡ admit (r.header (codes "X-Machine-Name")) addr conn clients
unfolding handle_tunnel
handle_tunnel-admit c r addr conn clients same =
    rw
      (
        handle_tunnel,
        (bytes_eq_iff (r.header (codes "Authorization")) (codes "Bearer " ++ c.token)).1 same,
      )
      refl
