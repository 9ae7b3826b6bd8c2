-- ===== src/Tunnel/Conn/Closing.antt =====
-- internal/tunnel/conn.go and internal/config/watcher.go: Conn.Close and Watcher.Stop ask in a select
-- whether their channel is closed, and close it in a second step. Several goroutines call them: the
-- channel, and where each call stands.
pub mod Panics
mod Tests
use etunl_cli.Base.{ℕ, zero, suc, ◌+◌, Bool, true, false, List, [], ◌∷◌, if◌then◌else◌}

-- Before the select; behind a select that found the channel open; at the end; or in the panic of
-- closing a channel twice.
pub data Closer : Type 0 where
  called tested returned panicked : Closer

-- The next step of a call, with whether the channel is closed.
pub close_step : Closer → Bool → Closer × Bool
close_step called done = if done then (returned, done) else (tested, done)
close_step tested done = if done then (panicked, done) else (returned, true)
close_step returned done = (returned, done)
close_step panicked done = (panicked, done)

-- The next step of the call with this number.
pub close_at : ℕ → List Closer → Bool → List Closer × Bool
unfolding close_step
close_at i [] done = ([], done)
close_at zero (c ∷ cs) done = let (c', done') = close_step c done in (c' ∷ cs, done')
close_at (suc i) (c ∷ cs) done = let (cs', done') = close_at i cs done in (c ∷ cs', done')

-- The calls under a schedule.
pub close_all_calls : List ℕ → List Closer → Bool → List Closer × Bool
unfolding close_at
close_all_calls [] cs done = (cs, done)
close_all_calls (i ∷ is) cs done =
    let (cs', done') = close_at i cs done in close_all_calls is cs' done'
