-- ===== src/Tunnel/Conn/Closing/Tests.antt =====
-- Two calls of Close that both ask first, and the theorem at this schedule.
use etunl_cli.Base.{ℕ, ◌+◌, ◌≡◌, refl, true, false, List, [], ◌∷◌}
use etunl_cli.Tunnel.Conn.Closing.{returned, panicked, close_all_calls}
use etunl_cli.Tunnel.Conn.Closing.Panics.{panics, found_open, new_calls, panics-found_open}

abbrev both_ask : List ℕ
both_ask = 0 ∷ 1 ∷ 0 ∷ 1 ∷ []

both_ask_run : close_all_calls both_ask (new_calls 2) false ≡ (returned ∷ panicked ∷ [], true)
unfolding close_all_calls
both_ask_run = refl

-- The calls one after the other.
in_turn_run :
    close_all_calls (0 ∷ 0 ∷ 1 ∷ []) (new_calls 2) false ≡ (returned ∷ returned ∷ [], true)
unfolding close_all_calls
in_turn_run = refl

panics-found_open_example :
    ((close_all_calls both_ask (new_calls 2) false).1 ≡ true)
    × (panics (close_all_calls both_ask (new_calls 2) false).0 + 1
        ≡ found_open both_ask (new_calls 2) false)
unfolding close_all_calls
panics-found_open_example = panics-found_open both_ask 1 (tt, (tt, tt))
