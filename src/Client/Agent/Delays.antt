-- ===== src/Client/Agent/Delays.antt =====
-- How long connectLoop waits between its rounds.
use etunl_cli.Base.{ℕ, zero, suc, ◌*◌, Bool, true, ◌&&◌, List, [], ◌∷◌}
use etunl_cli.Base.Bytes.{Bytes}
use etunl_cli.Base.Int.{ℤ, pos, leb_ℤ}
use etunl_cli.Config.Routes.{ClientConfig}
use etunl_cli.Client.Wire.{backoff, second}
use etunl_cli.Client.Agent.{Agent}

-- The delays of a run, the first of them first.
unfoldable pub delays : List (ClientConfig × ℤ) → List ℤ
delays [] = []
delays ((cfg, d) ∷ rest) = d ∷ delays rest

in_bounds : ℤ → Bool
in_bounds d = leb_ℤ (pos (2 * second)) d && leb_ℤ d (pos (30 * second))

-- The next `n` delays behind this many attempts lie in the bounds.
next_in_bounds : (n attempts : ℕ) → Bool
unfolding in_bounds
next_in_bounds zero attempts = true
next_in_bounds (suc n) attempts =
    in_bounds (backoff (suc attempts)) && next_in_bounds n (suc attempts)
