-- ===== src/Cli/Files.antt =====
-- The configuration file over the commands.
use etunl_cli.Base.{◌≡◌, refl, ap, inl, inr, Bool, true, Result, ok, err, none, Bool-cases}
use etunl_cli.Base.Bytes.{Bytes}
use etunl_cli.Base.Int.{ℤ}
use etunl_cli.Config.Auth.{Route, validate_route}
use etunl_cli.Config.Routes.{ClientConfig, RouteError, add_route, load_client}
use etunl_cli.Config.Routes.Editing.{add_route_ok}
use etunl_cli.Config.Routes.Checking.{IsLoadable, load_client-IsLoadable, add_route-IsLoadable}
use etunl_cli.Cli.{CliError, not_saved, edited, add_cmd, remove_cmd}

err_ne_ok :
    (e : CliError) (c : ClientConfig) → ¬ (Path (Result CliError ClientConfig) (err e) (ok c))
err_ne_ok e c h = cc

ok_inj : (a b : ClientConfig) → Path (Result CliError ClientConfig) (ok a) (ok b) → a ≡ b
ok_inj a b h = cc

-- What is saved is what the edit gave.
edited_ok :
    (save : ClientConfig → Bool) (r : Result RouteError ClientConfig) (c : ClientConfig)
    → edited save r ≡ ok c
    → r ≡ ok c
unfolding edited
edited_ok save (err e) c h = absurd (err_ne_ok _ c h)
edited_ok save (ok cfg) c h = elim (Bool-cases (save cfg)) [
  | inl yes_saved ↦ ap ok (ok_inj cfg c (rw yes_saved at h))
  | inr failed ↦ absurd (err_ne_ok not_saved c (rw failed at h))
]

-- From a file that can be loaded, with unique names, `add` writes a file of that kind again, and
-- `remove` of the new name, where it can save, writes the first one again.
pub add_cmd-remove_cmd :
    (c c' : ClientConfig) (name type target : Bytes) (local_port : ℤ)
    (save save' : ClientConfig → Bool)
    → IsLoadable c
    → save' c ≡ true
    → add_cmd (ok c) name type target local_port save ≡ ok c'
    → IsLoadable c'
      × (load_client (ok c') ≡ ok c')
      × (remove_cmd (load_client (ok c')) name save' ≡ ok c)
unfolding add_cmd remove_cmd edited validate_route
add_cmd-remove_cmd c c' name type target local_port save save' good saves h =
    let route : Route = record {
      name = name;
      type = type;
      target = target;
      local_port = local_port;
      auth = none;
    } in
    let added : add_route c route ≡ ok c' = edited_ok save (add_route c route) c' h in
    let (_, _, _, back, _) = add_route_ok c c' route good.nodup added in
    let good' = add_route-IsLoadable c c' route good refl added in
    let loads = load_client-IsLoadable c' good' in (good', loads, rw (loads, back, saves) refl)
