-- ===== src/Drivers.antt =====
-- platform/sn32f407/fpst_sn32f407_port.c: the drivers of the board, and its start. The peripherals
-- are a parameter, with what happens before each read of the clock: interrupts, and writes to the
-- guarded registers. The build option for a verified harness is a parameter too, and so are the
-- rounds of a busy-wait, which the code ends by the clock.
pub mod Start
pub mod Ready
pub mod Started
pub mod Ran
pub mod Wired
use fpga_pqc_secure_telemetr.Base.{
  ℕ, zero, suc, ◌+◌, ◌-◌, ◌*◌, ◌/◌, ◌%◌, ◌^◌, Bool, true, false, ◌&&◌, ◌||◌, Option, none, some,
  List, [], ◌∷◌, take, replicate, bit_and, bit_or, ltb, leb, ◌==◌, ◌/=◌, if◌then◌else◌, not,
}
use fpga_pqc_secure_telemetr.Result.{Result, Status, Exec, ok, err, state, timeout}
use fpga_pqc_secure_telemetr.Profile.{link_ready_timeout_ms}
use fpga_pqc_secure_telemetr.Multiport.{
  stat_tx_full, stat_rx_empty, stat_busy, flash_cs_port, flash_cs_pin,
}
use fpga_pqc_secure_telemetr.SysTick.{Timer, Event, run, gpio_write, watchdog_feed}

-- The registers and bit fields that are only written. Those ending in `irq` are the interrupt's
-- enable bits in the NVIC.
pub data Field : Type 0 where
  pfpa_spi0 : Field
  uart0_lc uart0_fd uart0_dlm uart0_dll uart0_fifoctrl uart0_ie uart0_irq uart0_ctrl : Field
  spi0_spien spi0_dl spi0_ms spi0_loopback spi0_sdodis spi0_fifo_th spi0_clkdiv : Field
  spi0_ctrl1 spi0_seldis spi0_freset spi0_ie spi0_irq : Field
  adc_avrefhsel adc_vhs adc_ovrmode adc_gchs adc_adlen adc_adcks adc_adenb adc_ads : Field
  adc_acs adc_calivalenb adc_scmode adc_ch adc_chs0 : Field

-- `uart_wait` is a loop on LS, which the UART ends by setting a bit of the mask. `systick_config`
-- says whether it succeeded, and `core_clock` is the frequency after SystemCoreClockUpdate.
pub record Hardware (W : Type 0) : Type 0 where
  pub events : W → List Event × W
  pub write : Field → ℕ → W → W
  pub gpio_data : ℕ → W → ℕ × W
  pub spi_stat : W → ℕ × W
  pub spi_data_read : W → ℕ × W
  pub spi_data_write : ℕ → W → W
  pub adc_acs : W → ℕ × W
  pub adc_eoc : W → ℕ × W
  pub adc_adb : W → ℕ × W
  pub uart_wait : ℕ → W → W
  pub uart_ls : W → ℕ × W
  pub uart_rb : W → ℕ × W
  pub uart_th : ℕ → W → W
  pub spi0clken : ℕ → ℕ
  pub adcclken : ℕ → ℕ
  pub core_clock : W → ℕ × W
  pub systick_config : ℕ → W → Bool × W

-- The globals but for g_entropy_rng.
pub record Board (W : Type 0) : Type 0 where
  pub timer : Timer
  pub spi_selected : Bool
  pub adc_ready : Bool
  pub world : W

abbrev pub p1_cs_port : ℕ
p1_cs_port = 2

abbrev pub p1_cs_pin : ℕ
p1_cs_pin = 1

abbrev pub p2_cs_port : ℕ
p2_cs_port = 2

abbrev pub p2_cs_pin : ℕ
p2_cs_pin = 2

abbrev pub p1_irq_port : ℕ
p1_irq_port = 2

abbrev pub p1_irq_pin : ℕ
p1_irq_pin = 3

abbrev pub uart_ls_rdr : ℕ
uart_ls_rdr = 0x01

abbrev pub uart_ls_thre : ℕ
uart_ls_thre = 0x20

abbrev pub uart_ls_temt : ℕ
uart_ls_temt = 0x40

abbrev pub adc_conversion_timeout_ms : ℕ
adc_conversion_timeout_ms = 5

module _ {W : Type 0} where
  abbrev pub on_world : {A : Type 0} → (W → A × W) → Board W → A × Board W
  on_world f s = let (a, w) = f s.world in (a, record s { world = w })

  abbrev pub on_timer : (Timer → Timer) → Board W → Board W
  on_timer f s = record s { timer = f s.timer }

  unfoldable pub port_watchdog_feed : Board W → Board W
  port_watchdog_feed s = on_timer watchdog_feed s

module _ {W : Type 0} (hw : Hardware W) where
  abbrev pub write : Field → ℕ → Board W → Board W
  write field value s = record s { world = hw.write field value s.world }

  -- A read of g_millis.
  unfoldable pub port_millis : Board W → ℕ × Board W
  port_millis s =
      let (es, t) = on_world hw.events s in let u = on_timer (run es) t in (u.timer.clock.millis, u)

  unfoldable pub deadline_expired : ℕ → ℕ → Board W → Bool × Board W
  deadline_expired start timeout_ms s =
      let (now, t) = port_millis s in (leb timeout_ms ((now + 2 ^ 32 - start) % 2 ^ 32), t)

  -- `while (condition) if (deadline_expired(start, timeout_ms)) return FPST_ERR_TIMEOUT;`
  unfoldable pub wait_while : (W → Bool × W) → ℕ → ℕ → ℕ → Board W → Status × Board W
  wait_while condition zero start timeout_ms s = (err timeout, s)
  wait_while condition (suc rounds) start timeout_ms s =
      let (again, t) = on_world condition s in
      let (expired, u) = deadline_expired start timeout_ms t in
      elim again [
        | false ↦ (ok tt, t)
        | true ↦ elim expired [
          | true ↦ (err timeout, u)
          | false ↦ wait_while condition rounds start timeout_ms u
        ]
      ]

  -- `(SN_SPI0->STAT & mask) != 0u`
  abbrev pub spi_stat_has : ℕ → W → Bool × W
  spi_stat_has mask w = let (stat, w') = hw.spi_stat w in (bit_and stat mask /= 0, w')

  -- The loop of port_delay_ms.
  unfoldable pub delay_loop : ℕ → ℕ → ℕ → Board W → Board W
  delay_loop zero start ms s = s
  delay_loop (suc rounds) start ms s =
      let (expired, t) = deadline_expired start ms s in
      elim expired [ true ↦ t | false ↦ delay_loop rounds start ms t ]

  unfoldable pub port_delay_ms : ℕ → ℕ → Board W → Board W
  port_delay_ms rounds ms s = let (start, t) = port_millis s in delay_loop rounds start ms t

  unfoldable pub gpio_read : ℕ → ℕ → Board W → Bool × Board W
  gpio_read port pin s =
      let (value, t) = on_world (hw.gpio_data port) s in
      if ltb port 4 then (value / 2 ^ pin % 2 /= 0, t) else (false, s)

  -- The line is active low.
  unfoldable pub port_fpga_irq : Board W → Bool × Board W
  port_fpga_irq s = let (level, t) = gpio_read p1_irq_port p1_irq_pin s in (not level, t)

  -- `SN_ADC->ADM_b.EOC == 0u`
  abbrev pub adc_incomplete : W → Bool × W
  adc_incomplete w = let (eoc, w') = hw.adc_eoc w in (eoc == 0, w')

  unfoldable pub adc_read : ℕ → Exec (Board W) ℕ
  adc_read rounds s =
      let (start, s1) = port_millis (write adc_ads 1 s) in
      let (rc, s2) = wait_while adc_incomplete rounds start adc_conversion_timeout_ms s1 in
      let (value, s3) = on_world hw.adc_adb s2 in
      if not s.adc_ready
      then (err state, s)
      else elim rc [ err e ↦ (err e, s2) | ok _ ↦ (ok (bit_and value 0x0FFF), s3) ]

  unfoldable pub entropy_adc_sample : ℕ → Exec (Board W) ℕ
  entropy_adc_sample rounds s =
      let (rc, t) = adc_read rounds (port_watchdog_feed s) in (rc, port_watchdog_feed t)

  -- One byte out, and the byte that comes in for it.
  unfoldable pub spi_xfer_byte : ℕ → ℕ → ℕ → Exec (Board W) ℕ
  spi_xfer_byte rounds tx timeout_ms s =
      let (start, s1) = port_millis s in
      let (room, s2) = wait_while (spi_stat_has stat_tx_full) rounds start timeout_ms s1 in
      let written = record s2 { world = hw.spi_data_write tx s2.world } in
      let (start', s3) = port_millis written in
      let (shifted, s4) = wait_while (spi_stat_has stat_busy) rounds start' timeout_ms s3 in
      let (received, s5) = wait_while (spi_stat_has stat_rx_empty) rounds start' timeout_ms s4 in
      let (value, s6) = on_world hw.spi_data_read s5 in
      elim room [
        | err e ↦ (err e, s2)
        | ok _ ↦ elim shifted [
          | err e ↦ (err e, s4)
          | ok _ ↦ elim received [ err e ↦ (err e, s5) | ok _ ↦ (ok (value % 256), s6) ]
        ]
      ]

  unfoldable pub spi_wait_idle : ℕ → ℕ → Board W → Status × Board W
  spi_wait_idle rounds timeout_ms s =
      let (start, t) = port_millis s in
      wait_while (spi_stat_has stat_busy) rounds start timeout_ms t

  -- The loop over the bytes to send, with those received.
  unfoldable pub transfer_loop : ℕ → List ℕ → ℕ → Board W → Status × List ℕ × Board W
  transfer_loop rounds [] timeout_ms s = (ok tt, [], s)
  transfer_loop rounds (byte ∷ bytes) timeout_ms s =
      let (rc, t) = spi_xfer_byte rounds byte timeout_ms s in
      elim rc [
        | err e ↦ (err e, [], t)
        | ok value ↦
            let (rest, values, u) = transfer_loop rounds bytes timeout_ms t in
            (rest, value ∷ values, u)
      ]

  -- `verified` is FPST_SN32F407_HARNESS_VERIFIED.
  unfoldable pub port_spi_begin : Bool → Board W → Status × Board W
  port_spi_begin verified s = if not verified || s.spi_selected then (err state, s) else (
    ok tt,
    record (on_timer (gpio_write p1_cs_port p1_cs_pin false)
        (write spi0_freset 3 (on_timer (gpio_write flash_cs_port flash_cs_pin true) s))) {
          spi_selected = true;
        },
  )

  unfoldable pub port_spi_transfer :
      ℕ → Option (List ℕ) → ℕ → ℕ → Board W → Status × List ℕ × Board W
  port_spi_transfer rounds tx len timeout_ms s =
      let bytes : List ℕ = elim tx [ none ↦ replicate len 0 | some sent ↦ take len sent ] in
      if not s.spi_selected || timeout_ms == 0
      then (err state, [], s)
      else transfer_loop rounds bytes timeout_ms s

  unfoldable pub port_spi_end : ℕ → Board W → Board W
  port_spi_end rounds s =
      let (rc, t) = spi_wait_idle rounds link_ready_timeout_ms s in
      if not s.spi_selected
      then s
      else record (on_timer (gpio_write p1_cs_port p1_cs_pin true) t) { spi_selected = false }

  unfoldable pub uart0_send : List ℕ → Board W → Board W
  uart0_send [] s = s
  uart0_send (byte ∷ bytes) s =
      uart0_send bytes (record s { world = hw.uart_th byte (hw.uart_wait uart_ls_thre s.world) })

  unfoldable pub uart0_write : List ℕ → Board W → Board W
  uart0_write bytes s =
      let t = uart0_send bytes s in record t { world = hw.uart_wait uart_ls_temt t.world }

  unfoldable pub uart0_read_byte : Board W → Option ℕ × Board W
  uart0_read_byte s =
      let (ls, t) = on_world hw.uart_ls s in
      let (rb, u) = on_world hw.uart_rb t in
      if bit_and ls uart_ls_rdr == 0 then (none, t) else (some (rb % 256), u)
