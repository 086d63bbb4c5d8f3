-- ===== src/Drivers/Started.antt =====
-- The start of the board ends with an armed guard, or it fails with a guard that is not armed.
use fpga_pqc_secure_telemetr.Base.{
  ℕ, ◌/◌, arith, Bool, true, false, not, ◌&&◌, List, ◌≡◌, refl, subst, ◌==◌, ◌/=◌, if-cases,
}
use fpga_pqc_secure_telemetr.Result.{Result, Status, Error, ok, err, state, branch-cases}
use fpga_pqc_secure_telemetr.HeartbeatGate
use fpga_pqc_secure_telemetr.HeartbeatGate.{tick}
use fpga_pqc_secure_telemetr.Platform.{Platform, is_valid}
use fpga_pqc_secure_telemetr.EntropyRng.{Noise}
use fpga_pqc_secure_telemetr.SysTick.{
  Timer, guard_check, guard_restore, guard_ok, gpio_write, gpio_set_mode, gpio_set_config,
  init_heartbeat_gpio,
}
use fpga_pqc_secure_telemetr.Drivers.{
  Hardware, Board, on_world, on_timer, write, port_millis, port_delay_ms, wait_while,
  port_watchdog_feed, adc_acs,
}
use fpga_pqc_secure_telemetr.Drivers.Ran.{
  Ran, stayed, then-Ran, port_millis-Ran, port_delay_ms-Ran, wait_while-Ran, watchdog_feed-Ran,
}
use fpga_pqc_secure_telemetr.Drivers.Wired.{IsWired, Call, calls, calls-IsWired}
use fpga_pqc_secure_telemetr.Drivers.Start.{
  init_link_gpio, init_pinmux, write_all, init_uart0, init_spi0, init_adc0, configure_adc,
  adc_calibrating, adc_calibration_timeout_ms, bring_up, platform, platform_init, locked,
  fresh_timer, hclk_hz,
}
use fpga_pqc_secure_telemetr.Drivers.Ready.{IsPrepared, IsReady, Ran-IsReady}

-- The armed guard is content, the heartbeat is on, and no endpoint is selected.
pub record IsRunning {W : Type 0} (s : Board W) : Type 0 where
  pub guarded : guard_ok s.timer ≡ true
  pub beating : s.timer.heartbeat_ready ≡ true
  pub wired : IsWired s
  pub deselected : s.spi_selected ≡ false

-- What `rc` promises of the board.
abbrev pub Started : {W A : Type 0} → Result A → Board W → Type 0
Started (ok a) s = IsRunning s
Started (err e) s = (e ≡ state) × (guard_ok s.timer ≡ false)

content_guard :
    (failed : Bool) (violations : ℕ)
    → failed ≡ false
    → (violations /= 0) ≡ false
    → (not failed && violations == 0) ≡ true
content_guard failed violations unfailed content = ground arith

unarmed-refused : (t : Timer) → t.guard_armed ≡ false → guard_ok t ≡ false
unfolding guard_ok
unarmed-refused t unarmed = rw (unarmed) refl

module _ {W : Type 0} (hw : Hardware W) (rounds : ℕ) where
  configure_adc-IsReady : (s : Board W) → IsReady s → IsReady (configure_adc hw s)
  unfolding configure_adc write_all
  configure_adc-IsReady s h = record {
    timer = record {
      unarmed = h.timer.unarmed;
      unfailed = h.timer.unfailed;
      clean = h.timer.clean;
      beating = h.timer.beating;
    };
    wired = record { flash = h.wired.flash; other = h.wired.other; primer = h.wired.primer };
    deselected = h.deselected;
  }

  init_adc0-IsReady : (s : Board W) → IsReady s → IsReady (init_adc0 hw rounds s).1
  unfolding init_adc0
  init_adc0-IsReady s h =
      let s1 = configure_adc hw s in
      let s2 = port_delay_ms hw rounds 1 s1 in
      let asked = write hw adc_acs 1 s2 in
      let (start, s3) = port_millis hw asked in
      let (rc, s4) =
        wait_while hw (adc_calibrating hw) rounds start adc_calibration_timeout_ms s3 in
      let to3 : Ran s1 s3 =
        then-Ran (then-Ran (port_delay_ms-Ran hw rounds 1 s1) (stayed s2 asked.world s2.adc_ready))
          (port_millis-Ran hw asked) in
      let to4 : Ran s1 s4 =
        then-Ran to3
          (wait_while-Ran hw (adc_calibrating hw) rounds start adc_calibration_timeout_ms s3) in
      let ready = configure_adc-IsReady s h in
      branch-cases (λ (r : Status × Board W). IsReady r.1) rc _ _
        (λ _ _. Ran-IsReady s1 _ (then-Ran to4 (stayed s4 _ true)) ready)
        (λ _ _. Ran-IsReady s1 s4 to4 ready)

  init_uart0-IsPrepared : (s : Board W) → IsPrepared s.timer → IsPrepared (init_uart0 hw s).1.timer
  unfolding init_uart0 write_all
  init_uart0-IsPrepared s h =
      if-cases (λ (r : Status × Board W). IsPrepared r.1.timer) (guard_check s.timer /= 0) (λ _. h)
        (λ _. record {
          unarmed = h.unarmed;
          unfailed = h.unfailed;
          clean = h.clean;
          beating = h.beating;
          flash = h.flash;
          other = h.other;
          primer = h.primer;
        })

  abbrev FailsInState : Status × Board W → Type 0
  FailsInState r = (e : Error) → r.0 ≡ err e → e ≡ state

  init_uart0-error : (s : Board W) (e : Error) → (init_uart0 hw s).0 ≡ err e → e ≡ state
  unfolding init_uart0
  init_uart0-error s =
      if-cases FailsInState (guard_check s.timer /= 0) (λ _ e failed. cc)
        (λ _.
          if-cases (λ (r : Status). (e : Error) → r ≡ err e → e ≡ state) _ {x = ok tt}
            {y = err state} (λ _ e failed. cc) (λ _ e failed. cc))

  init_spi0-IsReady : (s : Board W) → IsPrepared s.timer → IsReady (init_spi0 hw s)
  unfolding init_spi0 write_all
  init_spi0-IsReady s h = record {
    timer = record {
      unarmed = h.unarmed;
      unfailed = h.unfailed;
      clean = h.clean;
      beating = h.beating;
    };
    wired = record { flash = h.flash; other = h.other; primer = h.primer };
    deselected = refl;
  }

  -- Arming after a last check.
  armed-IsRunning :
      (s : Board W)
      → IsReady s
      → (guard_check s.timer /= 0) ≡ false
      → IsRunning (on_timer (λ t. record t { guard_armed = true }) s)
  unfolding guard_ok guard_check
  armed-IsRunning s h content = record {
    guarded = content_guard s.timer.guard_failed (guard_check s.timer) h.timer.unfailed content;
    beating = h.timer.beating;
    wired = record { flash = h.wired.flash; other = h.wired.other; primer = h.wired.primer };
    deselected = h.deselected;
  }

  abbrev IsStarted : Status × Board W → Type 0
  IsStarted r = Started r.0 r.1

  bring_up-Started :
      (s : Board W)
      → s.timer.guard_armed ≡ false
      → s.timer.guard_failed ≡ false
      → s.timer.guard_violations ≡ 0
      → Started (bring_up hw rounds s).0 (bring_up hw rounds s).1
  unfolding bring_up init_heartbeat_gpio HeartbeatGate.init init_link_gpio init_pinmux gpio_write
      gpio_set_mode gpio_set_config
  bring_up-Started s unarmed unfailed clean =
      let (configured, s1) = on_world (hw.systick_config (hclk_hz / 1000)) s in
      let s2 = on_timer init_link_gpio (init_pinmux hw s1) in
      let s3 = record s2 { timer = (init_heartbeat_gpio s2.timer).1 } in
      let (talking, s4) = init_uart0 hw s3 in
      let s5 = (init_adc0 hw rounds (init_spi0 hw s4)).1 in
      let prepared : IsPrepared s3.timer = record {
        unarmed = unarmed;
        unfailed = unfailed;
        clean = clean;
        beating = refl;
        flash = refl;
        other = refl;
        primer = refl;
      } in
      let prepared' : IsPrepared s4.timer = init_uart0-IsPrepared s3 prepared in
      let ready : IsReady (port_watchdog_feed s5) =
        Ran-IsReady s5 _ (watchdog_feed-Ran s5)
          (init_adc0-IsReady (init_spi0 hw s4) (init_spi0-IsReady s4 prepared')) in
      if-cases IsStarted (not configured) (λ _. (refl, unarmed-refused s.timer unarmed))
        (λ _.
          branch-cases IsStarted talking _ _
            (λ _ _.
              if-cases IsStarted (guard_check (port_watchdog_feed s5).timer /= 0)
                (λ _. (refl, unarmed-refused _ ready.timer.unarmed))
                (λ content. armed-IsRunning _ ready content))
            (λ e failed. (init_uart0-error s3 e failed, unarmed-refused _ prepared'.unarmed)))

-- The same, with the platform that is offered.
abbrev pub Offered : {W V : Type 0} → Result (Platform V) → Board W → Type 0
Offered (ok p) s = (is_valid p ≡ true) × IsRunning s
Offered (err e) s = (e ≡ state) × (guard_ok s.timer ≡ false)

module _ {W : Type 0} (hw : Hardware W) (verified : Bool) (rounds : ℕ) where
  abbrev IsOffered : Result (Platform (Noise (Board W))) × Noise (Board W) → Type 0
  IsOffered r = Offered r.0 r.1.world

  -- `platform_init`, from any state of the board, whatever the hardware answers and whatever
  -- interrupts and writes to the guarded registers come in while it waits: it returns OK with a
  -- valid platform, an armed guard that has seen no violation and finds none, the heartbeat ready,
  -- no transaction open, and the flash and the receiver deselected; or it returns STATE, and then
  -- the guard does not count as good.
  pub platform_init-Offered :
      (s : Noise (Board W))
      → Offered (platform_init hw verified rounds s).0 (platform_init hw verified rounds s).1.world
  unfolding platform_init platform is_valid guard_restore
  platform_init-Offered s =
      let b1 = on_timer locked s.world in
      let (hertz, b2) = on_world hw.core_clock b1 in
      let b3 = on_timer fresh_timer b2 in
      let (rc, b4) = bring_up hw rounds b3 in
      let up : Started rc b4 = bring_up-Started hw rounds b3 refl refl refl in
      if-cases IsOffered (guard_check b1.timer /= 0) (λ _. (refl, unarmed-refused b1.timer refl))
        (λ _.
          if-cases IsOffered (hertz /= hclk_hz) (λ _. (refl, unarmed-refused b2.timer refl))
            (λ _.
              branch-cases IsOffered rc _ _
                (λ a done. (refl, subst (λ (r : Status). Started r b4) done up))
                (λ e failed. subst (λ (r : Status). Started r b4) failed up)))

  -- After a `platform_init` that returned OK and any list of calls of the platform and of the
  -- entropy source, whatever the hardware answers and whatever interrupts come in: the flash and
  -- the receiver are deselected, and Primer 1 is selected exactly while a transaction is open.
  pub calls-platform_init-IsWired :
      (s : Noise (Board W)) (p : Platform (Noise (Board W))) (cs : List Call)
      → (platform_init hw verified rounds s).0 ≡ ok p
      → IsWired (calls hw verified rounds cs (platform_init hw verified rounds s).1.world)
  calls-platform_init-IsWired s p cs done =
      let offered : Offered (ok p) (platform_init hw verified rounds s).1.world =
        subst (λ r. Offered r (platform_init hw verified rounds s).1.world) done
          (platform_init-Offered s) in
      calls-IsWired hw verified rounds cs _ offered.1.wired
