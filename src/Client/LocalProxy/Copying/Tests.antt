-- ===== src/Client/LocalProxy/Copying/Tests.antt =====
-- A connection whose target has ended while the client waits.
use etunl_cli.Base.{◌≡◌, ◌&&◌, refl, true, false, List, [], ◌∷◌}
use etunl_cli.Base.Bytes.{codes}
use etunl_cli.Client.LocalProxy.Copying.{copy_round, CopyEvent, forth, back, copy_both, serve_conn}
use etunl_cli.Client.LocalProxy.Copying.Separate.{passed, forths, backs, ends, serve_conn-passed}

abbrev asked_and_told : List CopyEvent
asked_and_told =
    forth (record { bytes = codes "GET"; ended = false; written = true })
    ∷ back (record { bytes = codes "hi"; ended = true; written = true })
    ∷ []

stays_open : (serve_conn true asked_and_told).closed ≡ false
unfolding serve_conn copy_both copy_round
stays_open = refl

serve_conn-passed_example : serve_conn true asked_and_told ≡ record {
  for_target = passed (forths asked_and_told);
  for_client = passed (backs asked_and_told);
  closed = ends (backs asked_and_told) && ends (forths asked_and_told);
}
serve_conn-passed_example = serve_conn-passed asked_and_told
