-- ===== src/Server/Accepting/Tests.antt =====
-- The accept loops at concrete events.
use etunl_cli.Base.{ℕ, ◌≡◌, refl, true, false, none, some, [], ◌∷◌}
use etunl_cli.Server.Accepting.{accepted, failed, serve_tcp, accept_all}

cancelled_run :
    serve_tcp {A = ℕ} (accepted 1 ∷ failed false ∷ accepted 2 ∷ failed true ∷ accepted 3 ∷ [])
    ≡ (1 ∷ 2 ∷ [], true)
unfolding serve_tcp
cancelled_run = refl

accept_all_run : accept_all {A = ℕ} (some 1 ∷ none ∷ some 2 ∷ []) ≡ 1 ∷ 2 ∷ []
unfolding accept_all
accept_all_run = refl
