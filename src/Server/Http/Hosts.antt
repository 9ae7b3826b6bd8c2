-- ===== src/Server/Http/Hosts.antt =====
-- Host names with and without a port.
use etunl_cli.Base.{◌≡◌, ◌∷◌, ◌++◌, refl}
use etunl_cli.Base.Bytes.{Bytes, Lacks, cut_first-append, cut_last-append, cut_last-none}
use etunl_cli.Server.Http.{strip_port, extract_subdomain}

-- A host as a browser sends it: the name, with `:port` behind it or not.
pub data IsHostOf (name : Bytes) : Bytes → Type 0 where
  bare : Lacks b':' name → IsHostOf name name
  with_port : (port : Bytes) → Lacks b':' port → IsHostOf name (name ++ b':' ∷ port)

pub strip_port-IsHostOf : {name host : Bytes} → IsHostOf name host → strip_port host ≡ name
unfolding strip_port
strip_port-IsHostOf {name} (IsHostOf.bare lacks) =
    rw (strip_port, cut_last-none b':' name lacks) refl
strip_port-IsHostOf {name} (IsHostOf.with_port port lacks) =
    rw (strip_port, cut_last-append b':' name port lacks) refl

pub extract_subdomain-IsHostOf :
    (sub domain : Bytes) {host : Bytes}
    → Lacks b'.' sub
    → IsHostOf (sub ++ b'.' ∷ domain) host
    → extract_subdomain host ≡ sub
unfolding extract_subdomain
extract_subdomain-IsHostOf sub domain lacks h =
    rw (extract_subdomain, strip_port-IsHostOf h, cut_first-append b'.' sub domain lacks) refl
