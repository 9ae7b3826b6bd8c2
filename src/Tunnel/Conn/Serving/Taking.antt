-- ===== src/Tunnel/Conn/Serving/Taking.antt =====
-- A stream while handlers take payloads.
use mathlib.Core.Path.{subst}
use etunl_cli.Base.{
  ℕ, ◌≡◌, ◌∙◌, refl, sym, ap, Bool, true, false, Option, none, some, List, [], ◌∷◌, ◌++◌, length,
  get_elem?, modify, nat_eq, arith, All-append, Bool-cases, inl, inr, append-nil, append_assoc,
  ◌==◌, ==_iff, get_elem?-modify_self, get_elem?-modify_ne, length-modify, get_elem?-lt,
}
use etunl_cli.Base.Bytes.{Bytes}
use etunl_cli.Tunnel.Mux.{OpenJson, Mux, Stream, receive}
use etunl_cli.Tunnel.Mux.Preservation.{Step-IsWellFormed, receives}
use etunl_cli.Tunnel.Mux.Progress.{receive-cons}
use etunl_cli.Tunnel.Mux.Apart.{Holds}
use etunl_cli.Tunnel.Conn.Arriving.{stream_with}
use etunl_cli.Tunnel.Conn.Serving.{Peer, taken_from}
use etunl_cli.Tunnel.Conn.Serving.Stages.{
  Stage, coming, running, ended, IsSound, taken_from-append, known_wider,
}

-- The channel of a stream and what has been taken from it, behind a payload taken from any object.
module _ (id q : ℕ) (route : Bytes) (t : Stream) (payload : Bytes) (rest : List Bytes) (s : Peer)
    (at_q : get_elem? s.mux.heap q ≡ some t) (filled : t.data_ch ≡ payload ∷ rest) where
  abbrev pub mux_taken : Mux
  mux_taken = record s.mux { heap = modify receive q s.mux.heap }

  abbrev pub log_taken : List (ℕ × Bytes)
  log_taken = s.taken ++ (q, payload) ∷ []

  Holds-taken :
      (p : ℕ) (ch : List Bytes) (done : Bool) (o : Option ℕ)
      → Holds id p (stream_with id route ch done) o s.mux
      → (ch' : List Bytes) × Holds id p (stream_with id route ch' done) o mux_taken
        × (taken_from p log_taken ++ ch' ≡ taken_from p s.taken ++ ch)
  unfolding taken_from
  Holds-taken p ch done o h = elim (Bool-cases (q == p)) [
    | inl same ↦
        let eq : q ≡ p = (==_iff q p).0 same in
        let h_at = h.at in
        let is : t ≡ stream_with id route ch done = cc in
        let front : ch ≡ payload ∷ rest = sym (ap (λ (x : Stream). x.data_ch) is) ∙ filled in
        (
          rest,
          record {
            entry = h.entry;
            at =
                subst (λ x. get_elem? mux_taken.heap x ≡ some (stream_with id route rest done)) eq
                  (get_elem?-modify_self receive q s.mux.heap t at_q
                    ∙ ap some (
                        receive-cons t payload rest filled
                        ∙ ap (λ (x : Stream). record x { data_ch = rest }) is));
          },
          rw (taken_from-append p s.taken ((q, payload) ∷ []), same, front) (simp append_assoc),
        )
    | inr other ↦ (
      ch,
      record {
        entry = h.entry;
        at = get_elem?-modify_ne receive q p s.mux.heap (λ eq. ground (arith, ==_iff q p)) ∙ h.at;
      },
      rw (taken_from-append p s.taken ((q, payload) ∷ []), other)
          (rw (append-nil (taken_from p s.taken)) refl),
    )
  ]

  pub taken-IsSound :
      (json : OpenJson) → IsSound s → IsSound (record s { mux = mux_taken; taken = log_taken })
  taken-IsSound json sound =
      let there = get_elem?-lt s.mux.heap q t at_q in
      let wide = length-modify receive q s.mux.heap in
      record {
        whole = Step-IsWellFormed json {m = s.mux} (receives q) sound.whole;
        known =
            All-append _ s.taken ((q, payload) ∷ [])
              (known_wider (length s.mux.heap) (length mux_taken.heap) s.taken (omega arith)
                sound.known)
              (omega arith, tt);
      }

  pub taken-Stage :
      (json : OpenJson) (ps : List Bytes)
      → Stage json id route ps s
      → Stage json id route ps (record s { mux = mux_taken; taken = log_taken })
  taken-Stage json ps (coming late e) = coming late e
  taken-Stage json ps (running p ch left late h all e) =
      let (ch', h', same) = Holds-taken p ch false (some p) h in
      running p ch' left late h' (ap (λ l. l ++ left) same ∙ all) e
  taken-Stage json ps (ended p ch late h all e) =
      let (ch', h', same) = Holds-taken p ch true none h in ended p ch' late h' (same ∙ all) e
