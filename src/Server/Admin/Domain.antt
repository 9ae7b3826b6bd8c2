-- ===== src/Server/Admin/Domain.antt =====
-- The host of the admin panel: its subdomain, which leads to the panel, and the public domain.
use etunl_cli.Base.{◌≡◌, [], ◌∷◌, ◌++◌, append_assoc, refl, sym}
use etunl_cli.Base.Bytes.{Bytes, Lacks, cut_prefix-append}
use etunl_cli.Server.Http.{extract_subdomain}
use etunl_cli.Server.Http.Hosts.{IsHostOf, strip_port-IsHostOf, extract_subdomain-IsHostOf}
use etunl_cli.Server.Admin.{derive_public_domain}

-- For the host `sub.domain`, with a port or not, and `sub` without a dot, extractSubdomain gives `sub`,
-- and derivePublicDomain, for the admin subdomain `sub`, the domain without the port.
pub admin_host :
    (sub domain host : Bytes)
    → Lacks b'.' sub
    → IsHostOf (sub ++ b'.' ∷ domain) host
    → (extract_subdomain host ≡ sub) × (derive_public_domain host sub ≡ domain)
unfolding derive_public_domain
admin_host sub domain host lacks h = (
  extract_subdomain-IsHostOf sub domain lacks h,
  rw
      (
        derive_public_domain,
        strip_port-IsHostOf h,
        sym (append_assoc sub (b'.' ∷ []) domain),
        cut_prefix-append (sub ++ b'.' ∷ []) domain,
      )
      refl,
)
