-- ===== src/Server/Relay/Life.antt =====
-- The counters of a route over the life of a connection.
use etunl_cli.Base.{
  ℕ, ◌+◌, ◌%◌, ◌^◌, ◌≡◌, ◌∙◌, refl, sym, ap, some, false, List, [], ◌∷◌, length, arith,
}
use native.Mathlib.Nat.{zero-add}
use etunl_cli.Base.Int.{pos}
use etunl_cli.Base.Bytes.{Bytes}
use etunl_cli.Tunnel.Mux.{OpenJson, open_stream}
use etunl_cli.Tunnel.Pump.{Step, Entry, into, out_of, bridge_of, run_steps, end_stream}
use etunl_cli.Server.Metrics.{
  Registry, open_conn, close_conn, record_bytes_in, record_bytes_out, minus_one,
}
use etunl_cli.Server.Metrics.Counters.{
  Tally, tally_of, plus, plus_zero, plus_twice, plus_active, plus-IsWord, IsWord, tally-open_conn,
  tally-close_conn, tally-record_bytes_in, tally-record_bytes_out,
}
use etunl_cli.Server.Relay.{Backend, count_entry, count_log, exchange_conn, proxy_conn}

-- The number of bytes that were sent into the stream.
pub bytes_in : List Entry → ℕ
bytes_in [] = 0
bytes_in (into bytes at ∷ es) = length bytes + bytes_in es
bytes_in (out_of bytes at ∷ es) = bytes_in es

-- The number of bytes that were written out of it.
pub bytes_out : List Entry → ℕ
bytes_out [] = 0
bytes_out (into bytes at ∷ es) = bytes_out es
bytes_out (out_of bytes at ∷ es) = length bytes + bytes_out es

-- Equal amounts, in the order in which they were added up.
plus_same :
    {r i o t a r' i' o' t' a' : ℕ} (x : Tally)
    → r ≡ r'
    → i ≡ i'
    → o ≡ o'
    → t ≡ t'
    → a ≡ a'
    → plus r i o t a x ≡ plus r' i' o' t' a' x
plus_same x hr hi ho ht ha = rw (hr, hi, ho, ht, ha) refl

module _ (machine route type : Bytes) where
  count_log-tally :
      (es : List Entry) (reg : Registry)
      → IsWord (tally_of route reg)
      → tally_of route (count_log machine route type es reg)
        ≡ plus 0 (bytes_in es) (bytes_out es) 0 0 (tally_of route reg)
  unfolding count_log count_entry bytes_in bytes_out
  count_log-tally [] reg w = sym (plus_zero _ w)
  count_log-tally (into bytes at ∷ es) reg w =
      let n = length bytes in
      let step = tally-record_bytes_in at machine route type reg w n in
      count_log-tally es (record_bytes_in at machine route type (pos n) reg)
        (rw step (plus-IsWord 0 n 0 0 0 _))
      ∙ ap (plus 0 (bytes_in es) (bytes_out es) 0 0) step
      ∙ plus_twice 0 n 0 0 0 0 (bytes_in es) (bytes_out es) 0 0 _
      ∙ plus_same (tally_of route reg) refl refl (zero-add _) refl refl
  count_log-tally (out_of bytes at ∷ es) reg w =
      let n = length bytes in
      let step = tally-record_bytes_out at machine route type reg w n in
      count_log-tally es (record_bytes_out at machine route type (pos n) reg)
        (rw step (plus-IsWord 0 0 n 0 0 _))
      ∙ ap (plus 0 (bytes_in es) (bytes_out es) 0 0) step
      ∙ plus_twice 0 0 n 0 0 0 (bytes_in es) (bytes_out es) 0 0 _
      ∙ plus_same (tally_of route reg) refl (zero-add _) refl refl refl

  counted_life :
      (opened closed : ℕ) (before behind : List Entry) (reg : Registry)
      → tally_of route (
          count_log machine route type behind (
            close_conn closed machine route type
              (count_log machine route type before (open_conn opened machine route type reg))))
        ≡ plus 1
            (bytes_in before + bytes_in behind)
            (bytes_out before + bytes_out behind)
            1
            (2 ^ 64)
            (tally_of route reg)
  counted_life opened closed before behind reg =
      let x = tally_of route reg in
      let i1 = bytes_in before in
      let o1 = bytes_out before in
      let i2 = bytes_in behind in
      let o2 = bytes_out behind in
      let reg1 = open_conn opened machine route type reg in
      let at_open = tally-open_conn opened machine route type reg in
      let w1 : IsWord (tally_of route reg1) = rw at_open (plus-IsWord 1 0 0 1 1 x) in
      let reg2 = count_log machine route type before reg1 in
      let at_run : tally_of route reg2 ≡ plus 1 i1 o1 1 1 x =
        count_log-tally before reg1 w1
        ∙ ap (plus 0 i1 o1 0 0) at_open
        ∙ plus_twice 1 0 0 1 1 0 i1 o1 0 0 x
        ∙ plus_same x refl (zero-add _) (zero-add _) refl refl in
      let reg3 = close_conn closed machine route type reg2 in
      let at_close : tally_of route reg3 ≡ plus 1 i1 o1 1 (1 + minus_one) x =
        tally-close_conn closed machine route type reg2
        ∙ ap (plus 0 0 0 0 minus_one) at_run
        ∙ plus_active 1 i1 o1 1 1 x minus_one in
      let w3 : IsWord (tally_of route reg3) =
        rw at_close (plus-IsWord 1 i1 o1 1 (1 + minus_one) x) in
      count_log-tally behind reg3 w3
      ∙ ap (plus 0 i2 o2 0 0) at_close
      ∙ plus_twice 1 i1 o1 1 (1 + minus_one) 0 i2 o2 0 0 x

same_active : (x : Tally) → IsWord x → (x.active + 2 ^ 64) % 2 ^ 64 ≡ x.active
unfolding IsWord
same_active x (r, i, o, t, a) = omega arith

-- A connection that is proxied to its end leaves the counters of its route as they were, plus one
-- request, the bytes that were sent to the machine, the bytes that were written to the public side and
-- one connection, each modulo 2^64; the number of active connections is what it was.
pub exchange-tally :
    (json : OpenJson) (machine route type : Bytes) (opened closed : ℕ) (before behind : List Step)
    (b : Backend) (p : ℕ)
    → IsWord (tally_of route b.metrics)
    → (open_stream json route b.mux).1 ≡ some p
    → let id = b.mux.next_id in
      let b1 = run_steps id p before (bridge_of (open_stream json route b.mux).0) in
      let b2 = end_stream id p behind b1 in
      let after = proxy_conn json machine route type opened closed before behind b in
      let old = tally_of route b.metrics in
      let now = tally_of route after.0.metrics in
      (after.1 ≡ false)
      × (now.requests ≡ (old.requests + 1) % 2 ^ 64)
      × (now.bytes_in ≡ (old.bytes_in + (bytes_in b1.log + bytes_in b2.log)) % 2 ^ 64)
      × (now.bytes_out ≡ (old.bytes_out + (bytes_out b1.log + bytes_out b2.log)) % 2 ^ 64)
      × (now.total ≡ (old.total + 1) % 2 ^ 64)
      × (now.active ≡ old.active)
unfolding proxy_conn exchange_conn
exchange-tally json machine route type opened closed before behind b p w stream =
    let id = b.mux.next_id in
    let b1 = run_steps id p before (bridge_of (open_stream json route b.mux).0) in
    let b2 = end_stream id p behind b1 in
    let life = counted_life machine route type opened closed b1.log b2.log b.metrics in
    rw (proxy_conn, stream)
      (
        refl,
        ap (λ x. x.requests) life,
        ap (λ x. x.bytes_in) life,
        ap (λ x. x.bytes_out) life,
        ap (λ x. x.total) life,
        ap (λ x. x.active) life ∙ same_active (tally_of route b.metrics) w,
      )
