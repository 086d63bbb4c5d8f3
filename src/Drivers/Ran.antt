-- ===== src/Drivers/Ran.antt =====
-- The waits and transfers of the port: what they leave alone.
use fpga_pqc_secure_telemetr.Base.{
  ℕ, zero, suc, Bool, not, List, [], ◌∷◌, ◌++◌, ◌≡◌, refl, ap, sym, ◌∙◌, ltb, if-cases, elim-cases,
}
use fpga_pqc_secure_telemetr.Result.{Result, Status, branch-cases}
use fpga_pqc_secure_telemetr.Multiport.{stat_tx_full, stat_rx_empty, stat_busy}
use fpga_pqc_secure_telemetr.SysTick.{Event, feeds, happen, run}
use fpga_pqc_secure_telemetr.Drivers.{
  Hardware, Board, port_millis, deadline_expired, wait_while, spi_stat_has, delay_loop,
  port_delay_ms, spi_xfer_byte, spi_wait_idle, transfer_loop, on_world, port_watchdog_feed,
  gpio_read, adc_read, entropy_adc_sample, write, adc_ads, adc_incomplete,
  adc_conversion_timeout_ms,
}

-- Of the globals only those have changed that interrupts change, in one run of them.
pub record Ran {W : Type 0} (s t : Board W) : Type 0 where
  pub events : List Event
  pub timer : t.timer ≡ run events s.timer
  pub selected : t.spi_selected ≡ s.spi_selected

run-++ : (es es' : List Event) → (t : _) → run (es ++ es') t ≡ run es' (run es t)
unfolding run
run-++ [] es' t = refl
run-++ (e ∷ es) es' t = run-++ es es' _

module _ {W : Type 0} where
  pub stayed : (s : Board W) (w : W) (adc : Bool) → Ran s (record s { world = w; adc_ready = adc })
  unfolding run
  stayed s w adc = record { events = []; timer = refl; selected = refl }

  pub then-Ran : {s t u : Board W} → Ran s t → Ran t u → Ran s u
  then-Ran {s} {t} {u} a b = record {
    events = a.events ++ b.events;
    timer = b.timer ∙ ap (run b.events) a.timer ∙ sym (run-++ a.events b.events s.timer);
    selected = b.selected ∙ a.selected;
  }

  pub watchdog_feed-Ran : (s : Board W) → Ran s (port_watchdog_feed s)
  unfolding port_watchdog_feed run happen
  watchdog_feed-Ran s = record { events = feeds ∷ []; timer = refl; selected = refl }

module _ {W : Type 0} (hw : Hardware W) where
  pub port_millis-Ran : (s : Board W) → Ran s (port_millis hw s).1
  unfolding port_millis
  port_millis-Ran s = record { events = (hw.events s.world).0; timer = refl; selected = refl }

  deadline_expired-Ran : (start ms : ℕ) (s : Board W) → Ran s (deadline_expired hw start ms s).1
  unfolding deadline_expired
  deadline_expired-Ran start ms s = port_millis-Ran s

  pub wait_while-Ran :
      (c : W → Bool × W) (rounds start ms : ℕ) (s : Board W)
      → Ran s (wait_while hw c rounds start ms s).1
  unfolding wait_while
  wait_while-Ran c zero start ms s = stayed s s.world s.adc_ready
  wait_while-Ran c (suc rounds) start ms s =
      let t = (on_world c s).1 in
      let there : Ran s t = stayed s t.world s.adc_ready in
      let u = (deadline_expired hw start ms t).1 in
      let later : Ran s u = then-Ran there (deadline_expired-Ran start ms t) in
      elim-cases (λ (r : Status × Board W). Ran s r.1) (c s.world).0 _ _
        (λ again.
          elim-cases (λ (r : Status × Board W). Ran s r.1) (deadline_expired hw start ms t).0 _ _
            (λ expired. later) (λ more. then-Ran later (wait_while-Ran c rounds start ms u)))
        (λ done. there)

  delay_loop-Ran : (rounds start ms : ℕ) (s : Board W) → Ran s (delay_loop hw rounds start ms s)
  unfolding delay_loop
  delay_loop-Ran zero start ms s = stayed s s.world s.adc_ready
  delay_loop-Ran (suc rounds) start ms s =
      let here = deadline_expired-Ran start ms s in
      elim-cases (Ran s) (deadline_expired hw start ms s).0 _ _ (λ expired. here)
        (λ more. then-Ran here (delay_loop-Ran rounds start ms _))

  pub port_delay_ms-Ran : (rounds ms : ℕ) (s : Board W) → Ran s (port_delay_ms hw rounds ms s)
  unfolding port_delay_ms
  port_delay_ms-Ran rounds ms s = then-Ran (port_millis-Ran s) (delay_loop-Ran rounds _ ms _)

  pub spi_wait_idle-Ran : (rounds ms : ℕ) (s : Board W) → Ran s (spi_wait_idle hw rounds ms s).1
  unfolding spi_wait_idle
  spi_wait_idle-Ran rounds ms s =
      then-Ran (port_millis-Ran s) (wait_while-Ran (spi_stat_has hw stat_busy) rounds _ ms _)

  pub spi_xfer_byte-Ran :
      (rounds tx ms : ℕ) (s : Board W) → Ran s (spi_xfer_byte hw rounds tx ms s).1
  unfolding spi_xfer_byte
  spi_xfer_byte-Ran rounds tx ms s =
      let (start, s1) = port_millis hw s in
      let (room, s2) = wait_while hw (spi_stat_has hw stat_tx_full) rounds start ms s1 in
      let written = record s2 { world = hw.spi_data_write tx s2.world } in
      let (start', s3) = port_millis hw written in
      let (shifted, s4) = wait_while hw (spi_stat_has hw stat_busy) rounds start' ms s3 in
      let (received, s5) = wait_while hw (spi_stat_has hw stat_rx_empty) rounds start' ms s4 in
      let (value, s6) = on_world hw.spi_data_read s5 in
      let to2 : Ran s s2 = then-Ran (port_millis-Ran s) (wait_while-Ran _ rounds start ms s1) in
      let to3 : Ran s s3 =
        then-Ran (then-Ran to2 (stayed s2 written.world s2.adc_ready)) (port_millis-Ran written) in
      let to4 : Ran s s4 = then-Ran to3 (wait_while-Ran _ rounds start' ms s3) in
      let to5 : Ran s s5 = then-Ran to4 (wait_while-Ran _ rounds start' ms s4) in
      let to6 : Ran s s6 = then-Ran to5 (stayed s5 s6.world s5.adc_ready) in
      branch-cases (λ (r : Result ℕ × Board W). Ran s r.1) room _ _
        (λ _ _.
          branch-cases (λ (r : Result ℕ × Board W). Ran s r.1) shifted _ _
            (λ _ _.
              branch-cases (λ (r : Result ℕ × Board W). Ran s r.1) received _ _ (λ _ _. to6)
                (λ _ _. to5))
            (λ _ _. to4))
        (λ _ _. to2)

  pub transfer_loop-Ran :
      (rounds : ℕ) (bytes : List ℕ) (ms : ℕ) (s : Board W)
      → Ran s (transfer_loop hw rounds bytes ms s).2
  unfolding transfer_loop
  transfer_loop-Ran rounds [] ms s = stayed s s.world s.adc_ready
  transfer_loop-Ran rounds (byte ∷ bytes) ms s =
      let here = spi_xfer_byte-Ran rounds byte ms s in
      branch-cases (λ (r : Status × List ℕ × Board W). Ran s r.2)
        (spi_xfer_byte hw rounds byte ms s).0 _ _
        (λ _ _. then-Ran here (transfer_loop-Ran rounds bytes ms _)) (λ _ _. here)

  pub gpio_read-Ran : (port pin : ℕ) (s : Board W) → Ran s (gpio_read hw port pin s).1
  unfolding gpio_read
  gpio_read-Ran port pin s =
      if-cases (λ (r : Bool × Board W). Ran s r.1) (ltb port 4) (λ _. stayed s _ s.adc_ready)
        (λ _. stayed s s.world s.adc_ready)

  adc_read-Ran : (rounds : ℕ) (s : Board W) → Ran s (adc_read hw rounds s).1
  unfolding adc_read
  adc_read-Ran rounds s =
      let started = write hw adc_ads 1 s in
      let (start, s1) = port_millis hw started in
      let (rc, s2) = wait_while hw (adc_incomplete hw) rounds start adc_conversion_timeout_ms s1 in
      let waited : Ran s s2 =
        then-Ran (then-Ran (stayed s started.world s.adc_ready) (port_millis-Ran started))
          (wait_while-Ran (adc_incomplete hw) rounds start adc_conversion_timeout_ms s1) in
      if-cases (λ (r : Result ℕ × Board W). Ran s r.1) (not s.adc_ready)
        (λ _. stayed s s.world s.adc_ready)
        (λ _.
          branch-cases (λ (r : Result ℕ × Board W). Ran s r.1) rc _ _
            (λ _ _. then-Ran waited (stayed s2 _ s2.adc_ready)) (λ _ _. waited))

  pub entropy_adc_sample-Ran : (rounds : ℕ) (s : Board W) → Ran s (entropy_adc_sample hw rounds s).1
  unfolding entropy_adc_sample
  entropy_adc_sample-Ran rounds s =
      then-Ran (then-Ran (watchdog_feed-Ran s) (adc_read-Ran rounds _)) (watchdog_feed-Ran _)
