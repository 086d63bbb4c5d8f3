-- ===== src/Shell/Bounds.antt =====
-- The buffers of the main loop are never written out of bounds.
use fpga_pqc_secure_telemetr.Base.{
  ℕ, ◌≡◌, refl, Bool, true, false, List, ◌⊎◌, inl, inr, not, if-cases,
}
use fpga_pqc_secure_telemetr.Result.{Result, Error, Exec, branch-cases}
use fpga_pqc_secure_telemetr.Primer2.{rx_empty}
use fpga_pqc_secure_telemetr.Session.{is_active}
use fpga_pqc_secure_telemetr.Link.{Port}
use fpga_pqc_secure_telemetr.PairBridge.{retry_retained, send_sample}
use fpga_pqc_secure_telemetr.Shell.{
  Shell, Setup, prints, on_world, on_bridge, bind_p1, reset_public_key_input, report_rng,
}
use fpga_pqc_secure_telemetr.Shell.Command.{
  linked, routed, report, handlers, dispatch, handle_adc, handle_rng_reseed, handle_fault,
  handle_ping, handle_discover, handle_selftest, handle_id, handle_status, handle_key_status,
  handle_pqc_status, handle_rx_counters, handle_telemetry, recover_retained, sample_and_send,
  take_sample, send_sampled, report_unsent, wipe_all, handle_zeroize, selftest,
}
use fpga_pqc_secure_telemetr.Shell.Effect.{
  ◌▸◌, Blind, prints-Blind, print_error-Blind, print_result-Blind, report-Blind, linked-Blind, Each,
}

module _ {W : Type 0} (fw : Setup W) (s : Shell W) where
  -- A command leaves the input alone, or resets it.
  abbrev pub Settled : Shell W → Type 0
  Settled t = (t.input ≡ s.input) ⊎ (t.input ≡ reset_public_key_input)

  Settled-Blind : Blind Settled
  Settled-Blind t w h = h

  abbrev quiet : Settled s
  quiet = inl refl

  abbrev printed : (fs : List (W → W)) (t : Shell W) → Settled t → Settled (prints fs t)
  printed = prints-Blind fw Settled Settled-Blind

  abbrev reported :
      {A : Type 0} (show : A → List (W → W)) (x : Result A × Shell W)
      → Settled x.1
      → Settled (report fw show x)
  reported show (rc, t) h = report-Blind fw Settled Settled-Blind show rc t h

  linked_reports : (next : Shell W → Shell W) → Settled (next s) → Settled (linked fw next s)
  linked_reports next h = linked-Blind fw Settled Settled-Blind next s quiet (λ _. h)

  routed_reports :
      {A : Type 0} (show : A → List (W → W)) (talk : Exec (Port W) A)
      → Settled (report fw show (routed fw talk s))
  unfolding routed bind_p1
  routed_reports show talk = reported show (routed fw talk s) quiet

  selftest-Settled : Settled (handle_selftest fw s)
  unfolding handle_selftest routed bind_p1
  selftest-Settled =
      let (rc, t) = routed fw (selftest fw) s in
      linked_reports _ (
        branch-cases Settled rc _ _ (λ _ _. printed _ t quiet)
          (λ e _. print_error-Blind fw Settled Settled-Blind e _ (printed _ t quiet)))

  unsent-Settled : (e : Error) (t : Shell W) → Settled t → Settled (report_unsent fw e t)
  unfolding report_unsent
  unsent-Settled e t h =
      print_error-Blind fw Settled Settled-Blind e _
        (if-cases Settled t.bridge.retained_valid (λ _. printed _ t h) (λ _. h))

  recover-Settled : Settled (recover_retained fw s)
  unfolding recover_retained
  recover-Settled =
      let (rc, result, t) = on_bridge (retry_retained rx_empty) s in
      branch-cases Settled rc _ _ (λ _ _. printed _ t quiet)
        (λ e _. print_error-Blind fw Settled Settled-Blind e _ (printed _ t quiet))

  sent-Settled : (sample : List ℕ) (t : Shell W) → Settled t → Settled (send_sampled fw sample t)
  unfolding send_sampled
  sent-Settled sample t h =
      let (rc, result, u) = on_bridge (send_sample sample fw.tx_result rx_empty) t in
      branch-cases Settled rc _ _ (λ _ _. printed _ u h) (λ e _. unsent-Settled e u h)

  sample-Settled : Settled (sample_and_send fw s)
  unfolding sample_and_send take_sample
  sample-Settled =
      let (rc, t) = take_sample fw s in
      let taken : Settled t =
        branch-cases (λ (x : Result (List ℕ) × Shell W). Settled x.1)
          (on_world fw.port.adc_read s).0 _ _ (λ _ _. quiet) (λ _ _. quiet) in
      branch-cases Settled rc _ _ (λ sample _. sent-Settled sample t taken)
        (λ e _. unsent-Settled e t taken)

  telemetry-Settled : Settled (handle_telemetry fw s)
  unfolding handle_telemetry
  telemetry-Settled = linked_reports _ (
      if-cases Settled (not (is_active s.kem.machine.manager.state)) (λ _. printed _ s quiet)
        (λ _.
          if-cases Settled s.bridge.retained_valid (λ _. recover-Settled) (λ _. sample-Settled)))

  zeroize-Settled : Settled (handle_zeroize fw s)
  unfolding handle_zeroize wipe_all
  zeroize-Settled =
      let (rc, t) = wipe_all fw s in
      linked_reports _ (print_result-Blind fw Settled Settled-Blind rc t (inr refl))

  key_status-Settled : (primer2 : Bool) → Settled (handle_key_status fw primer2 s)
  unfolding handle_key_status
  key_status-Settled false = linked_reports _ (reported _ _ quiet)
  key_status-Settled true = linked_reports _ (routed_reports _ _)

  pub handlers-Settled : Each fw Settled (handlers fw) s
  unfolding handlers dispatch handle_ping handle_discover handle_id handle_status handle_pqc_status
      handle_rx_counters handle_adc handle_rng_reseed handle_fault report_rng
  handlers-Settled =
      printed _ s quiet
      ▸ printed _ s quiet
      ▸ reported _ (on_world fw.port.adc_read s) quiet
      ▸ printed _ s quiet
      ▸ printed _ _ quiet
      ▸ linked_reports _ (routed_reports _ _)
      ▸ linked_reports _ (routed_reports _ _)
      ▸ linked_reports _ (routed_reports _ _)
      ▸ selftest-Settled
      ▸ linked_reports _ (routed_reports _ _)
      ▸ linked_reports _ (routed_reports _ _)
      ▸ linked_reports _ (routed_reports _ _)
      ▸ linked_reports _ (routed_reports _ _)
      ▸ key_status-Settled false
      ▸ key_status-Settled true
      ▸ linked_reports _ (reported _ _ quiet)
      ▸ linked_reports _ (routed_reports _ _)
      ▸ telemetry-Settled
      ▸ printed _ s quiet
      ▸ zeroize-Settled
      ▸ printed _ s quiet
