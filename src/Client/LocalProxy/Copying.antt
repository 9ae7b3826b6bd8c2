-- ===== src/Client/LocalProxy/Copying.antt =====
-- internal/client/local_proxy.go: what startTCPProxy does with an accepted connection. Whether the
-- target can be dialed, what the reads give and whether the writes succeed are arguments.
pub mod Separate
mod Tests
use etunl_cli.Base.{Bool, true, false, not, ◌&&◌, List, [], ◌∷◌, ◌++◌, if◌then◌else◌}
use etunl_cli.Base.Bytes.{Bytes, is_empty}

-- One round of io.Copy: what the read gives, whether it reports an error or the end, and whether the
-- write of its bytes, if there are any, succeeds.
pub record CopyRound : Type 0 where
  pub bytes : Bytes
  pub ended : Bool
  pub written : Bool

-- A call of io.Copy: what it has written, not counting a write that failed, and whether it still runs.
pub record Copy : Type 0 where
  pub out : List Bytes
  pub running : Bool

abbrev pub copy_begun : Copy
copy_begun = record { out = []; running = true }

-- The loop body of io.Copy.
pub copy_round : CopyRound → Copy → Copy
copy_round r c =
    if c.running
    then (if is_empty r.bytes
        then record c { running = not r.ended }
        else if r.written
        then record { out = c.out ++ r.bytes ∷ []; running = not r.ended }
        else record c { running = false })
    else c

-- The rounds of `io.Copy(target, conn)` in its goroutine, and of `io.Copy(conn, target)` in the handler.
pub data CopyEvent : Type 0 where
  forth back : CopyRound → CopyEvent

-- The two copies, in any interleaving of their rounds.
pub copy_both : List CopyEvent → Copy → Copy → Copy × Copy
unfolding copy_round
copy_both [] f b = (f, b)
copy_both (forth r ∷ es) f b = copy_both es (copy_round r f) b
copy_both (back r ∷ es) f b = copy_both es f (copy_round r b)

-- What target and client got, and whether the deferred calls have closed the accepted connection.
pub record Served : Type 0 where
  pub for_target : List Bytes
  pub for_client : List Bytes
  pub closed : Bool

-- The handler of an accepted connection: behind `io.Copy(conn, target)` it waits for the channel
-- `done`, which the goroutine closes behind the other one.
pub serve_conn : Bool → List CopyEvent → Served
unfolding copy_both
serve_conn false es = record { for_target = []; for_client = []; closed = true }
serve_conn true es =
    let (f, b) = copy_both es copy_begun copy_begun in
    record { for_target = f.out; for_client = b.out; closed = not b.running && not f.running }
