-- ===== src/Drivers/Start.antt =====
-- platform/sn32f407/fpst_sn32f407_port.c: bringing the board up, and what the port then offers.
use fpga_pqc_secure_telemetr.Base.{
  ℕ, ◌+◌, ◌-◌, ◌*◌, ◌/◌, ◌^◌, Bool, true, false, none, some, List, [], ◌∷◌, replicate, bit_or, ◌==◌,
  ◌/=◌, if◌then◌else◌, not,
}
use fpga_pqc_secure_telemetr.Result.{Exec, ok, err, state}
use fpga_pqc_secure_telemetr.Platform.{Platform}
use fpga_pqc_secure_telemetr.Csprng.{Csprng}
use fpga_pqc_secure_telemetr.EntropyRng as Generator
use fpga_pqc_secure_telemetr.EntropyRng.{EntropyRng, Noise, seed_bytes}
use fpga_pqc_secure_telemetr.Multiport.{flash_cs_port, flash_cs_pin}
use fpga_pqc_secure_telemetr.SysTick.{
  Timer, gpio_write, gpio_set_mode, gpio_set_config, gpio_cfg_inactive_schmitt_en, guard_check,
  guard_restore, init_heartbeat_gpio,
}
use fpga_pqc_secure_telemetr.Drivers.{
  Field, Hardware, Board, on_world, on_timer, write, p1_cs_port, p1_cs_pin, p2_cs_port, p2_cs_pin,
  p1_irq_port, p1_irq_pin, port_watchdog_feed, port_millis, port_delay_ms, port_fpga_irq,
  port_spi_begin, port_spi_transfer, port_spi_end, entropy_adc_sample, wait_while, pfpa_spi0,
  uart0_lc, uart0_fd, uart0_dlm, uart0_dll, uart0_fifoctrl, uart0_ie, uart0_irq, uart0_ctrl,
  spi0_spien, spi0_dl, spi0_ms, spi0_loopback, spi0_sdodis, spi0_fifo_th, spi0_clkdiv, spi0_ctrl1,
  spi0_seldis, spi0_freset, spi0_ie, spi0_irq, adc_avrefhsel, adc_vhs, adc_ovrmode, adc_gchs,
  adc_adlen, adc_adcks, adc_adenb, adc_acs, adc_calivalenb, adc_scmode, adc_ch, adc_chs0,
}

abbrev pub hclk_hz : ℕ
hclk_hz = 12000000

abbrev pub link_spi_divisor : ℕ
link_spi_divisor = 12

abbrev pub adc_calibration_timeout_ms : ℕ
adc_calibration_timeout_ms = 20

abbrev pub gpio_cfg_pull_up : ℕ
gpio_cfg_pull_up = 0

abbrev pub p2_irq_port : ℕ
p2_irq_port = 2

abbrev pub p2_irq_pin : ℕ
p2_irq_pin = 8

-- An output pin that is high: `gpio_write`, `gpio_set_mode` and `gpio_set_config`.
abbrev pub drive_high : ℕ → ℕ → Timer → Timer
drive_high port pin s =
    gpio_set_config port pin gpio_cfg_inactive_schmitt_en
      (gpio_set_mode port pin true (gpio_write port pin true s))

abbrev pub pull_up : ℕ → ℕ → Timer → Timer
pull_up port pin s = gpio_set_config port pin gpio_cfg_pull_up (gpio_set_mode port pin false s)

unfoldable pub init_link_gpio : Timer → Timer
init_link_gpio s = pull_up p2_irq_port p2_irq_pin (
    pull_up p1_irq_port p1_irq_pin (
      drive_high p2_cs_port p2_cs_pin
        (drive_high p1_cs_port p1_cs_pin (drive_high flash_cs_port flash_cs_pin s))))

-- `SN_SYS1->AHBCLKEN = f(SN_SYS1->AHBCLKEN);`
abbrev pub set_ahbclken : (ℕ → ℕ) → Timer → Timer
set_ahbclken f s = record s {
  registers = record s.registers { sys1_ahbclken = f s.registers.sys1_ahbclken };
}

-- g_p010_guard_armed and its company are reset and the guard is applied.
abbrev pub locked : Timer → Timer
locked t =
    guard_restore (record t { guard_armed = false; guard_failed = false; guard_violations = 0 })

-- Uptime, heartbeat and random numbers start afresh; of the generator's record all is zero, and
-- its source, which is kept here, is not called before `init` has set it.
abbrev pub fresh_timer : Timer → Timer
fresh_timer t = record t { clock = record { millis = 0; millis_high = 0 }; heartbeat_ready = false }

abbrev pub fresh_rng : {S : Type 0} → EntropyRng S → EntropyRng S
fresh_rng rng = record rng {
  state = replicate seed_bytes 0;
  generate_counter = 0;
  bytes_since_reseed = 0;
  health = record {
    apt_count = 0;
    apt_ones = 0;
    repeat_count = 0;
    last_raw_bit = 0;
    have_last_raw_bit = false;
  };
  ready = false;
  failed = false;
}

-- The board with its generator.
abbrev pub on_board :
    {W A : Type 0} → (Board W → A × Board W) → Noise (Board W) → A × Noise (Board W)
on_board f s = let (a, b) = f s.world in (a, record s { world = b })

abbrev pub change_board : {W : Type 0} → (Board W → Board W) → Noise (Board W) → Noise (Board W)
change_board f s = record s { world = f s.world }

module _ {W : Type 0} (hw : Hardware W) where
  -- Writes, in this order.
  unfoldable pub write_all : List (Field × ℕ) → Board W → Board W
  write_all [] s = s
  write_all ((field, value) ∷ rest) s = write_all rest (write hw field value s)

  unfoldable pub init_pinmux : Board W → Board W
  init_pinmux s =
      write hw pfpa_spi0 0x2A
        (on_timer (λ t. record t { registers = record t.registers { pfpa_uart0 = 0x0A } }) s)

  unfoldable pub init_uart0 : Exec (Board W) (Unit {0})
  init_uart0 s =
      let t =
        write_all
          ((uart0_lc, 0x83)
            ∷ (uart0_fd, 7 * 2 ^ 4 + 5)
            ∷ (uart0_dlm, 0)
            ∷ (uart0_dll, 4)
            ∷ (uart0_lc, 0x03)
            ∷ (uart0_fifoctrl, 0x07)
            ∷ (uart0_ie, 0)
            ∷ (uart0_irq, 0)
            ∷ (uart0_ctrl, 0xC1)
            ∷ [])
          (on_timer (set_ahbclken (λ reg. bit_or reg (2 ^ 16))) s) in
      if guard_check s.timer /= 0
      then (err state, s)
      else (if guard_check t.timer == 0 then ok tt else err state, t)

  unfoldable pub init_spi0 : Board W → Board W
  init_spi0 s =
      record (write_all
        ((spi0_spien, 0)
          ∷ (spi0_dl, 7)
          ∷ (spi0_ms, 0)
          ∷ (spi0_loopback, 0)
          ∷ (spi0_sdodis, 0)
          ∷ (spi0_fifo_th, 0)
          ∷ (spi0_clkdiv, link_spi_divisor / 2 - 1)
          ∷ (spi0_ctrl1, 0)
          ∷ (spi0_seldis, 1)
          ∷ (spi0_freset, 3)
          ∷ (spi0_ie, 0)
          ∷ (spi0_irq, 0)
          ∷ (spi0_spien, 1)
          ∷ [])
        (on_timer (set_ahbclken hw.spi0clken) s)) { spi_selected = false }

  -- `SN_ADC->ADM1_b.ACS != 0u`
  abbrev pub adc_calibrating : W → Bool × W
  adc_calibrating w = let (acs, w') = hw.adc_acs w in (acs /= 0, w')

  -- The settings in front of the calibration.
  unfoldable pub configure_adc : Board W → Board W
  configure_adc s =
      write_all
        ((adc_avrefhsel, 0)
          ∷ (adc_vhs, 4)
          ∷ (adc_ovrmode, 1)
          ∷ (adc_gchs, 1)
          ∷ (adc_adlen, 1)
          ∷ (adc_adcks, 0)
          ∷ (adc_scmode, 0)
          ∷ (adc_ch, 0)
          ∷ (adc_chs0, 1)
          ∷ (adc_adenb, 1)
          ∷ [])
        (on_timer (set_ahbclken hw.adcclken) (record s { adc_ready = false }))

  unfoldable pub init_adc0 : ℕ → Exec (Board W) (Unit {0})
  init_adc0 rounds s =
      let s1 = configure_adc s in
      let s2 = port_delay_ms hw rounds 1 s1 in
      let (start, s3) = port_millis hw (write hw adc_acs 1 s2) in
      let (rc, s4) = wait_while hw adc_calibrating rounds start adc_calibration_timeout_ms s3 in
      elim rc [
        | err e ↦ (err e, s4)
        | ok _ ↦ (ok tt, record (write hw adc_calivalenb 1 s4) { adc_ready = true })
      ]

  -- The part behind the first check of the clock.
  unfoldable pub bring_up : ℕ → Exec (Board W) (Unit {0})
  bring_up rounds s =
      let (configured, s1) = on_world (hw.systick_config (hclk_hz / 1000)) s in
      let s2 = on_timer init_link_gpio (init_pinmux s1) in
      let (beating, timer) = init_heartbeat_gpio s2.timer in
      let s3 = record s2 { timer = timer } in
      let (talking, s4) = init_uart0 s3 in
      let (calibrated, s5) = init_adc0 rounds (init_spi0 s4) in
      let s6 = port_watchdog_feed s5 in
      if not configured then (err state, s1) else elim beating [
        | err e ↦ (err e, s3)
        | ok _ ↦ elim talking [
          | err e ↦ (err e, s4)
          | ok _ ↦
              if guard_check s6.timer /= 0
              then (err state, s6)
              else (ok tt, on_timer (λ t. record t { guard_armed = true }) s6)
        ]
      ]

  -- What `out` gets.
  unfoldable pub platform : Bool → ℕ → Platform (Noise (Board W))
  platform verified rounds = record {
    millis = some (on_board (port_millis hw));
    delay_ms = some (λ ms. change_board (port_delay_ms hw rounds ms));
    fpga_irq = some (on_board (port_fpga_irq hw));
    spi_begin = some (on_board (port_spi_begin hw verified));
    spi_transfer = some (λ tx len timeout_ms s.
        let (rc, received, b) = port_spi_transfer hw rounds tx len timeout_ms s.world in
        (rc, received, record s { world = b }));
    spi_end = some (change_board (port_spi_end hw rounds));
    fpga_reset = none;
    fpga_zeroize = none;
    watchdog_feed = some (change_board port_watchdog_feed);
  }

  unfoldable pub platform_init : Bool → ℕ → Exec (Noise (Board W)) (Platform (Noise (Board W)))
  platform_init verified rounds s =
      let s1 = change_board (on_timer locked) s in
      let (hertz, s2) = on_board (on_world hw.core_clock) s1 in
      let s3 = record s2 { rng = fresh_rng s2.rng; world = on_timer fresh_timer s2.world } in
      let (rc, s4) = on_board (bring_up rounds) s3 in
      if guard_check s1.world.timer /= 0
      then (err state, s1)
      else if hertz /= hclk_hz
      then (err state, s2)
      else elim rc [ err e ↦ (err e, s4) | ok _ ↦ (ok (platform verified rounds), s4) ]

  unfoldable pub csprng_init : ℕ → Exec (Noise (Board W)) (Csprng (Noise (Board W)))
  csprng_init rounds s =
      let (rc, t) = Generator.init (some (entropy_adc_sample hw rounds)) s in
      if not s.world.adc_ready then (err state, s) else elim rc [
        | err e ↦ (err e, t)
        | ok _ ↦
            if Generator.ready t.rng
            then (ok (record { fill = some Generator.fill }), t)
            else (err state, record t { rng = Generator.zeroize t.rng })
      ]

module _ {W : Type 0} where
  unfoldable pub csprng_ready : Noise (Board W) → Bool
  csprng_ready s = Generator.ready s.rng

  unfoldable pub csprng_zeroize : Noise (Board W) → Noise (Board W)
  csprng_zeroize s = record s { rng = Generator.zeroize s.rng }
