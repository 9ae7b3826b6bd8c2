-- ===== src/Client/LocalProxy/Copying/Separate.antt =====
-- The two directions of a connection of the local proxy.
use etunl_cli.Base.{
  ◌≡◌, refl, Bool, true, false, not, ◌&&◌, ◌||◌, List, [], ◌∷◌, ◌++◌, append_assoc, append-nil,
  arith, if◌then◌else◌, Bool-cases, inl, inr,
}
use etunl_cli.Base.Bytes.{Bytes, is_empty}
use etunl_cli.Client.LocalProxy.Copying.{
  CopyRound, Copy, copy_begun, copy_round, CopyEvent, forth, back, copy_both, serve_conn,
}

-- The rounds of one direction.
unfoldable pub forths : List CopyEvent → List CopyRound
forths [] = []
forths (forth r ∷ es) = r ∷ forths es
forths (back r ∷ es) = forths es

unfoldable pub backs : List CopyEvent → List CopyRound
backs [] = []
backs (forth r ∷ es) = backs es
backs (back r ∷ es) = r ∷ backs es

-- A round that ends its copy: the read reports an end or an error, or the write fails.
unfoldable pub is_last : CopyRound → Bool
is_last r = if is_empty r.bytes then r.ended else (r.ended || not r.written)

abbrev passed_by : CopyRound → List Bytes
passed_by r = if is_empty r.bytes then [] else if r.written then r.bytes ∷ [] else []

-- The bytes of the rounds up to the last one of their copy.
unfoldable pub passed : List CopyRound → List Bytes
unfolding is_last
passed [] = []
passed (r ∷ rs) = let more = passed rs in passed_by r ++ (if is_last r then [] else more)

unfoldable pub ends : List CopyRound → Bool
unfolding is_last
ends [] = false
ends (r ∷ rs) = is_last r || ends rs

-- All rounds of one direction.
copy_rounds : List CopyRound → Copy → Copy
copy_rounds [] c = c
copy_rounds (r ∷ rs) c = copy_rounds rs (copy_round r c)

copy_both-copy_rounds :
    (es : List CopyEvent) (f b : Copy)
    → copy_both es f b ≡ (copy_rounds (forths es) f, copy_rounds (backs es) b)
unfolding copy_both copy_rounds forths backs
copy_both-copy_rounds [] f b = refl
copy_both-copy_rounds (forth r ∷ es) f b = copy_both-copy_rounds es (copy_round r f) b
copy_both-copy_rounds (back r ∷ es) f b = copy_both-copy_rounds es f (copy_round r b)

not-not : (b : Bool) → not (not b) ≡ b
not-not true = refl
not-not false = refl

copy_round_ended :
    (r : CopyRound) (out : List Bytes)
    → copy_round r (record { out = out; running = false }) ≡ record { out = out; running = false }
unfolding copy_round
copy_round_ended r out = refl

copy_rounds_ended :
    (rs : List CopyRound) (out : List Bytes)
    → copy_rounds rs (record { out = out; running = false }) ≡ record { out = out; running = false }
unfolding copy_rounds
copy_rounds_ended [] out = refl
copy_rounds_ended (r ∷ rs) out = rw (copy_round_ended r out) (copy_rounds_ended rs out)

copy_round_running :
    (r : CopyRound) (out : List Bytes)
    → copy_round r (record { out = out; running = true })
      ≡ record { out = out ++ passed_by r; running = not (is_last r) }
unfolding copy_round is_last
copy_round_running r out = ground (arith, append-nil out)

copy_rounds-passed :
    (rs : List CopyRound) (out : List Bytes)
    → copy_rounds rs (record { out = out; running = true })
      ≡ record { out = out ++ passed rs; running = not (ends rs) }
unfolding copy_rounds passed ends
copy_rounds-passed [] out = rw (append-nil out) refl
copy_rounds-passed (r ∷ rs) out = elim (Bool-cases (is_last r)) [
  | inl last ↦
      rw (copy_round_running r out, last, copy_rounds_ended rs (out ++ passed_by r))
        (rw (append-nil (passed_by r)) refl)
  | inr more ↦
      rw (copy_round_running r out, more, copy_rounds-passed rs (out ++ passed_by r))
        (simp append_assoc)
]

-- Where the target can be dialed, and however the rounds of the two copies interleave, the target
-- gets exactly what the reads from the client give up to the end of that copy, the client what
-- those from the target give, in order, not counting a write that failed, and the accepted
-- connection is closed exactly where both copies have ended: the end of the target alone does not
-- close it.
pub serve_conn-passed :
    (es : List CopyEvent)
    → serve_conn true es ≡ record {
      for_target = passed (forths es);
      for_client = passed (backs es);
      closed = ends (backs es) && ends (forths es);
    }
unfolding serve_conn
serve_conn-passed es =
    rw
      (
        copy_both-copy_rounds es copy_begun copy_begun,
        copy_rounds-passed (forths es) [],
        copy_rounds-passed (backs es) [],
      )
      (rw (not-not (ends (backs es)), not-not (ends (forths es))) refl)
