-- ===== src/Multiport.antt =====
-- platform/sn32f407/fpst_sn32f407_multiport.c: two endpoints on one SPI bus, each as a platform. The
-- peripheral's registers are a parameter, and so are the base platform, the build option for a
-- verified harness, and the rounds of a busy-wait, which the code ends by the clock.
pub mod Select
use fpga_pqc_secure_telemetr.Base.{
  ℕ, zero, suc, ◌+◌, ◌-◌, ◌/◌, ◌%◌, ◌^◌, Bool, true, false, ◌&&◌, ◌||◌, Option, none, some, List,
  [], ◌∷◌, take, replicate, bit_and, ltb, leb, ◌==◌, ◌/=◌, if◌then◌else◌, not,
}
use fpga_pqc_secure_telemetr.Result.{Result, Status, ok, err, state, busy, timeout}
use fpga_pqc_secure_telemetr.Platform.{
  Platform, millis, delay_ms, fpga_reset, watchdog_feed, is_some,
}
use fpga_pqc_secure_telemetr.Profile.{link_ready_timeout_ms}

abbrev pub stat_tx_full : ℕ
stat_tx_full = 2

abbrev pub stat_rx_empty : ℕ
stat_rx_empty = 4

abbrev pub stat_busy : ℕ
stat_busy = 16

-- The endpoint contexts g_p1_ctx and g_p2_ctx.
pub data Endpoint : Type 0 where
  p1 p2 : Endpoint

abbrev pub cs_port : Endpoint → ℕ
cs_port p1 = 2
cs_port p2 = 2

abbrev pub cs_pin : Endpoint → ℕ
cs_pin p1 = 1
cs_pin p2 = 2

abbrev pub irq_port : Endpoint → ℕ
irq_port p1 = 2
irq_port p2 = 2

abbrev pub irq_pin : Endpoint → ℕ
irq_pin p1 = 3
irq_pin p2 = 8

abbrev pub flash_cs_port : ℕ
flash_cs_port = 1

abbrev pub flash_cs_pin : ℕ
flash_cs_pin = 8

-- The registers of SPI0 and the input registers of the GPIO ports.
pub record Registers (W : Type 0) : Type 0 where
  pub stat : W → ℕ × W
  pub data_read : W → ℕ × W
  pub data_write : ℕ → W → W
  pub fsm_reset : W → W
  pub gpio_data : ℕ → W → ℕ × W

-- The globals, with the levels of the output pins.
pub record Bus (W : Type 0) : Type 0 where
  pub base : Platform W
  pub output : ℕ → ℕ → Bool
  pub bus_owner : Option Endpoint
  pub pair_initialized : Bool
  pub world : W

abbrev pub same_endpoint : Endpoint → Endpoint → Bool
same_endpoint p1 p1 = true
same_endpoint p1 p2 = false
same_endpoint p2 p1 = false
same_endpoint p2 p2 = true

-- `g_bus_owner == ep`
abbrev pub owns : Endpoint → Option Endpoint → Bool
owns ep none = false
owns ep (some owner) = same_endpoint owner ep

module _ {W : Type 0} where
  abbrev pub on_world : {A : Type 0} → (W → A × W) → Bus W → A × Bus W
  on_world f s = let (a, w) = f s.world in (a, record s { world = w })

  -- A port beyond 3 is left alone.
  unfoldable pub gpio_write : ℕ → ℕ → Bool → Bus W → Bus W
  gpio_write port pin high s = record s {
    output = λ (p q : ℕ). if ltb port 4 && (p == port && q == pin) then high else s.output p q;
  }

  unfoldable pub ep_millis : Bus W → ℕ × Bus W
  ep_millis s = on_world (millis s.base) s

  unfoldable pub ep_delay : ℕ → Bus W → Bus W
  ep_delay ms s = record s { world = delay_ms s.base ms s.world }

  unfoldable pub ep_watchdog : Bus W → Bus W
  ep_watchdog s = record s { world = watchdog_feed s.base s.world }

  unfoldable pub ep_reset : ℕ → Bus W → Bus W
  ep_reset pulse_ms s = record s { world = fpga_reset s.base pulse_ms s.world }

  unfoldable pub ep_zeroize : ℕ → Bus W → Bus W
  ep_zeroize pulse_ms s = record s {
    world = elim s.base.fpga_zeroize [ none ↦ s.world | some f ↦ f pulse_ms s.world ];
  }

  unfoldable pub deadline_expired : ℕ → ℕ → Bus W → Bool × Bus W
  deadline_expired start timeout_ms s =
      let (now, t) = ep_millis s in (leb timeout_ms ((now + 2 ^ 32 - start) % 2 ^ 32), t)

module _ {W : Type 0} (hw : Registers W) where
  unfoldable pub gpio_read : ℕ → ℕ → Bus W → Bool × Bus W
  gpio_read port pin s =
      let (value, t) = on_world (hw.gpio_data port) s in
      if ltb port 4 then (value / 2 ^ pin % 2 /= 0, t) else (true, s)

  -- The interrupt lines are active low.
  unfoldable pub ep_irq : Endpoint → Bus W → Bool × Bus W
  ep_irq ep s = let (level, t) = gpio_read (irq_port ep) (irq_pin ep) s in (not level, t)

  -- `while ((SN_SPI0->STAT & mask) != 0u)`, with fuel for the rounds.
  unfoldable pub wait_clear : ℕ → ℕ → ℕ → ℕ → Bus W → Status × Bus W
  wait_clear zero mask start timeout_ms s = (err timeout, s)
  wait_clear (suc rounds) mask start timeout_ms s =
      let (stat, t) = on_world hw.stat s in
      let (expired, u) = deadline_expired start timeout_ms t in
      elim (bit_and stat mask /= 0) [
        | false ↦ (ok tt, t)
        | true ↦ elim expired [
          | true ↦ (err timeout, u)
          | false ↦ wait_clear rounds mask start timeout_ms (ep_watchdog u)
        ]
      ]

  -- One byte out, and the byte that comes in for it.
  unfoldable pub transfer_byte : ℕ → ℕ → ℕ → Bus W → Result ℕ × Bus W
  transfer_byte rounds timeout_ms byte s =
      let (start, s1) = ep_millis s in
      let (room, s2) = wait_clear rounds stat_tx_full start timeout_ms s1 in
      let written = record s2 { world = hw.data_write byte s2.world } in
      let (start', s3) = ep_millis written in
      let (shifted, s4) = wait_clear rounds stat_busy start' timeout_ms s3 in
      let (received, s5) = wait_clear rounds stat_rx_empty start' timeout_ms s4 in
      let (value, s6) = on_world hw.data_read s5 in
      elim room [
        | err e ↦ (err e, s2)
        | ok _ ↦ elim shifted [
          | err e ↦ (err e, s4)
          | ok _ ↦ elim received [ err e ↦ (err e, s5) | ok _ ↦ (ok (value % 256), s6) ]
        ]
      ]

  -- The loop over the bytes to send, with those received.
  unfoldable pub transfer_loop : ℕ → ℕ → List ℕ → Bus W → Status × List ℕ × Bus W
  transfer_loop rounds timeout_ms [] s = (ok tt, [], s)
  transfer_loop rounds timeout_ms (byte ∷ bytes) s =
      let (rc, t) = transfer_byte rounds timeout_ms byte s in
      let (end, rest, u) = transfer_loop rounds timeout_ms bytes t in
      elim rc [ err e ↦ (err e, [], t) | ok value ↦ (end, value ∷ rest, u) ]

  -- A read-only phase sends zeros.
  unfoldable pub ep_spi_transfer :
      ℕ → Endpoint → Option (List ℕ) → ℕ → ℕ → Bus W → Status × List ℕ × Bus W
  ep_spi_transfer rounds ep tx len timeout_ms s =
      let bytes : List ℕ = elim tx [ none ↦ replicate len 0 | some src ↦ take len src ] in
      if not (owns ep s.bus_owner) || timeout_ms == 0
      then (err state, [], s)
      else transfer_loop rounds timeout_ms bytes s

  -- The flash and both endpoints are deselected before one of them is selected.
  unfoldable pub select : Endpoint → Bus W → Bus W
  select ep s =
      let t =
        gpio_write (cs_port p2) (cs_pin p2) true (
          gpio_write (cs_port p1) (cs_pin p1) true
            (gpio_write flash_cs_port flash_cs_pin true s)) in
      let u = record t { world = hw.fsm_reset t.world } in
      record (gpio_write (cs_port ep) (cs_pin ep) false u) { bus_owner = some ep }

  unfoldable pub ep_spi_begin : Bool → Endpoint → Bus W → Status × Bus W
  ep_spi_begin harness_verified ep s =
      if not harness_verified
      then (err state, s)
      else if is_some s.bus_owner
      then (err busy, s)
      else (ok tt, select ep s)

  unfoldable pub ep_spi_end : ℕ → Endpoint → Bus W → Bus W
  ep_spi_end rounds ep s =
      let (start, t) = ep_millis s in
      let (idle, u) = wait_clear rounds stat_busy start link_ready_timeout_ms t in
      if not (owns ep s.bus_owner)
      then s
      else record (gpio_write (cs_port ep) (cs_pin ep) true u) { bus_owner = none }

  -- The platform of an endpoint, over the bus.
  unfoldable pub fill_endpoint_platform : ℕ → Bool → Platform W → Endpoint → Platform (Bus W)
  fill_endpoint_platform rounds harness_verified base ep = record {
    millis = some ep_millis;
    delay_ms = some ep_delay;
    fpga_irq = some (ep_irq ep);
    spi_begin = some (ep_spi_begin harness_verified ep);
    spi_transfer = some (ep_spi_transfer rounds ep);
    spi_end = some (ep_spi_end rounds ep);
    fpga_reset = if is_some base.fpga_reset then some ep_reset else none;
    fpga_zeroize = if is_some base.fpga_zeroize then some ep_zeroize else none;
    watchdog_feed = some ep_watchdog;
  }

  abbrev pub both_platforms : ℕ → Bool → Platform W → Platform (Bus W) × Platform (Bus W)
  both_platforms rounds harness_verified base = (
    fill_endpoint_platform rounds harness_verified base p1,
    fill_endpoint_platform rounds harness_verified base p2,
  )

  -- `platform_init` is fpst_sn32f407_platform_init.
  unfoldable pub platform_pair_init :
      ℕ
      → Bool
      → (Bus W → Result (Platform W) × Bus W)
      → Bus W
      → Result (Platform (Bus W) × Platform (Bus W)) × Bus W
  platform_pair_init rounds harness_verified platform_init s =
      let (rc, t) = platform_init s in
      if s.pair_initialized
      then (ok (both_platforms rounds harness_verified s.base), s)
      else elim rc [
        | err e ↦ (err e, t)
        | ok base ↦ (
          ok (both_platforms rounds harness_verified base),
          record t { base = base; bus_owner = none; pair_initialized = true },
        )
      ]
