-- ===== src/Server/Accepting.antt =====
-- internal/server/tcp_proxy.go, with the accept loops of internal/client/local_proxy.go and
-- internal/connect/connect.go: the connections that an accept loop hands on. A connection is of any type.
mod Tests
use etunl_cli.Base.{Bool, true, false, Option, none, some, List, [], ◌∷◌, if◌then◌else◌}

-- What `ln.Accept()` gives; behind an error, whether the listener has been cancelled.
pub data Accept {ℓ} (A : Type ℓ) : Type ℓ where
  accepted : A → Accept A
  failed : (cancelled : Bool) → Accept A

abbrev also {ℓ} : {A : Type ℓ} → A → List A × Bool → List A × Bool
also c (cs, ended) = (c ∷ cs, ended)

-- `serveTCP`: the connections that handlePlainTCPConn is started for, and whether the loop has ended.
pub serve_tcp {ℓ} : {A : Type ℓ} → List (Accept A) → List A × Bool
serve_tcp [] = ([], false)
serve_tcp (accepted c ∷ es) = also c (serve_tcp es)
serve_tcp (failed cancelled ∷ es) =
    let rest = serve_tcp es in if cancelled then ([], true) else rest

-- The loops of startTCPProxy and connect.Run, which go on behind every error.
pub accept_all {ℓ} : {A : Type ℓ} → List (Option A) → List A
accept_all [] = []
accept_all (some c ∷ es) = c ∷ accept_all es
accept_all (none ∷ es) = accept_all es
