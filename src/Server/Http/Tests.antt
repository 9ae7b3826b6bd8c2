-- ===== src/Server/Http/Tests.antt =====
-- Host names and headers as they come.
use etunl_cli.Base.{◌≡◌, refl, true, false, none, some, [], ◌∷◌, ◌++◌, List}
use etunl_cli.Base.Bytes.{Bytes, codes, bytes_eq}
use etunl_cli.Server.Http.{extract_subdomain, has_upgrade, equal_fold, strip_port}

subdomain_run : extract_subdomain (codes "app.x.io:8443") ≡ codes "app"
unfolding extract_subdomain strip_port etunl_cli.Base.Bytes.cut_first etunl_cli.Base.Bytes.cut_last
subdomain_run = refl

upgrade_run : has_upgrade [] (codes "keep-alive, Upgrade") ≡ true
unfolding has_upgrade bytes_eq etunl_cli.Base.Space.trim_space
upgrade_run = refl

-- U+212A, the Kelvin sign, folds to `k`.
kelvin_run : equal_fold (codes "ma" ++ 0xe2 ∷ 0x84 ∷ 0xaa ∷ codes "e") (codes "make") ≡ true
unfolding equal_fold bytes_eq
kelvin_run = refl
