-- ===== src/Drivers/Wired.antt =====
-- The chip selects of the shared SPI wires.
use fpga_pqc_secure_telemetr.Base.{
  ℕ, Bool, true, false, not, Option, List, [], ◌∷◌, ◌≡◌, refl, ap, sym, ◌∙◌, ◌==◌, ◌||◌, ◌&&◌, ◌/=◌,
  if-cases,
}
use fpga_pqc_secure_telemetr.Result.{Status}
use fpga_pqc_secure_telemetr.Profile.{link_ready_timeout_ms}
use fpga_pqc_secure_telemetr.Multiport.{flash_cs_port, flash_cs_pin}
use fpga_pqc_secure_telemetr.SysTick.{
  Timer, Event, ticks, feeds, writes, happen, run, count_tick, heartbeat_port, heartbeat_pin,
  guard_tick, guard_check, guard_restore, heartbeat_tick, systick_handler, watchdog_feed,
  gpio_write,
}
use fpga_pqc_secure_telemetr.HeartbeatGate.{tick}
use fpga_pqc_secure_telemetr.Drivers.{
  Hardware, Board, p1_cs_port, p1_cs_pin, p2_cs_port, p2_cs_pin, port_delay_ms, port_millis,
  port_fpga_irq, port_spi_begin, port_spi_transfer, port_spi_end, port_watchdog_feed,
  entropy_adc_sample,
}
use fpga_pqc_secure_telemetr.Drivers.Ran.{
  Ran, port_millis-Ran, port_delay_ms-Ran, transfer_loop-Ran, spi_wait_idle-Ran, gpio_read-Ran,
  watchdog_feed-Ran, entropy_adc_sample-Ran,
}

abbrev pub is_heartbeat : ℕ → ℕ → Bool
is_heartbeat p q = p == heartbeat_port && q == heartbeat_pin

guard_tick-output : (p q : ℕ) (s : Timer) → (guard_tick s).output p q ≡ s.output p q
unfolding guard_tick guard_restore
guard_tick-output p q s =
    if-cases (λ (t : Timer). t.output p q ≡ s.output p q) (s.guard_armed && guard_check s /= 0)
      (λ _. refl) (λ _. refl)

heartbeat_tick-output :
    (p q : ℕ) (s : Timer) → is_heartbeat p q ≡ false → (heartbeat_tick s).output p q ≡ s.output p q
unfolding heartbeat_tick gpio_write
heartbeat_tick-output p q s other =
    if-cases (λ (t : Timer). t.output p q ≡ s.output p q) (not s.heartbeat_ready) (λ _. refl)
      (λ _.
        if-cases (λ (t : Timer). t.output p q ≡ s.output p q) (tick s.heartbeat_gate).0
          (rw (other) (λ _. refl)) (λ _. refl))

happen-output :
    (p q : ℕ) (e : Event) (s : Timer)
    → is_heartbeat p q ≡ false
    → (happen e s).output p q ≡ s.output p q
unfolding happen systick_handler watchdog_feed
happen-output p q ticks s other =
    heartbeat_tick-output p q _ other
    ∙ guard_tick-output p q (record s { clock = count_tick s.clock })
happen-output p q feeds s other = refl
happen-output p q (writes r) s other = refl

pub run-output :
    (p q : ℕ) (es : List Event) (s : Timer)
    → is_heartbeat p q ≡ false
    → (run es s).output p q ≡ s.output p q
unfolding run
run-output p q [] s other = refl
run-output p q (e ∷ es) s other = run-output p q es (happen e s) other ∙ happen-output p q e s other

-- The flash and the other endpoint are never selected, and Primer 1 exactly inside a transaction.
pub record IsWired {W : Type 0} (s : Board W) : Type 0 where
  pub flash : s.timer.output flash_cs_port flash_cs_pin ≡ true
  pub other : s.timer.output p2_cs_port p2_cs_pin ≡ true
  pub primer : s.timer.output p1_cs_port p1_cs_pin ≡ not s.spi_selected

module _ {W : Type 0} where
  pub Ran-IsWired : (s t : Board W) → Ran s t → IsWired s → IsWired t
  Ran-IsWired s t r wired = record {
    flash = kept flash_cs_port flash_cs_pin refl ∙ wired.flash;
    other = kept p2_cs_port p2_cs_pin refl ∙ wired.other;
    primer = kept p1_cs_port p1_cs_pin refl ∙ wired.primer ∙ ap not (sym r.selected);
  }
    where
      kept : (p q : ℕ) → is_heartbeat p q ≡ false → t.timer.output p q ≡ s.timer.output p q
      kept p q other =
          ap (λ (u : Timer). u.output p q) r.timer ∙ run-output p q r.events s.timer other

-- What a driver of the application calls.
pub data Call : Type 0 where
  clock irq begin ends feed sample : Call
  delay : ℕ → Call
  transfer : Option (List ℕ) → ℕ → ℕ → Call

module _ {W : Type 0} (hw : Hardware W) (verified : Bool) (rounds : ℕ) where
  abbrev pub perform : Call → Board W → Board W
  perform clock s = (port_millis hw s).1
  perform irq s = (port_fpga_irq hw s).1
  perform begin s = (port_spi_begin hw verified s).1
  perform ends s = port_spi_end hw rounds s
  perform feed s = port_watchdog_feed s
  perform sample s = (entropy_adc_sample hw rounds s).1
  perform (delay ms) s = port_delay_ms hw rounds ms s
  perform (transfer tx len ms) s = (port_spi_transfer hw rounds tx len ms s).2

  unfoldable pub calls : List Call → Board W → Board W
  calls [] s = s
  calls (c ∷ cs) s = calls cs (perform c s)

  begin-IsWired : (s : Board W) → IsWired s → IsWired (port_spi_begin hw verified s).1
  unfolding port_spi_begin gpio_write
  begin-IsWired s wired =
      if-cases (λ (r : Status × Board W). IsWired r.1) (not verified || s.spi_selected) (λ _. wired)
        (λ _. record { flash = refl; other = wired.other; primer = refl })

  end-IsWired : (s : Board W) → IsWired s → IsWired (port_spi_end hw rounds s)
  unfolding port_spi_end gpio_write
  end-IsWired s wired =
      let after = Ran-IsWired s _ (spi_wait_idle-Ran hw rounds link_ready_timeout_ms s) wired in
      if-cases IsWired (not s.spi_selected) (λ _. wired)
        (λ _. record { flash = after.flash; other = after.other; primer = refl })

  transfer-IsWired :
      (tx : Option (List ℕ)) (len ms : ℕ) (s : Board W)
      → IsWired s
      → IsWired (port_spi_transfer hw rounds tx len ms s).2
  unfolding port_spi_transfer
  transfer-IsWired tx len ms s wired =
      if-cases (λ (r : Status × List ℕ × Board W). IsWired r.2) (not s.spi_selected || ms == 0)
        (λ _. wired) (λ _. Ran-IsWired s _ (transfer_loop-Ran hw rounds _ ms s) wired)

  perform-IsWired : (c : Call) (s : Board W) → IsWired s → IsWired (perform c s)
  unfolding port_watchdog_feed watchdog_feed port_fpga_irq
  perform-IsWired clock s wired = Ran-IsWired s _ (port_millis-Ran hw s) wired
  perform-IsWired irq s wired = Ran-IsWired s _ (gpio_read-Ran hw _ _ s) wired
  perform-IsWired begin s wired = begin-IsWired s wired
  perform-IsWired ends s wired = end-IsWired s wired
  perform-IsWired feed s wired = Ran-IsWired s _ (watchdog_feed-Ran s) wired
  perform-IsWired sample s wired = Ran-IsWired s _ (entropy_adc_sample-Ran hw rounds s) wired
  perform-IsWired (delay ms) s wired = Ran-IsWired s _ (port_delay_ms-Ran hw rounds ms s) wired
  perform-IsWired (transfer tx len ms) s wired = transfer-IsWired tx len ms s wired

  pub calls-IsWired : (cs : List Call) (s : Board W) → IsWired s → IsWired (calls cs s)
  unfolding calls
  calls-IsWired [] s wired = wired
  calls-IsWired (c ∷ cs) s wired = calls-IsWired cs (perform c s) (perform-IsWired c s wired)
