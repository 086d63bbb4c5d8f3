-- ===== src/Tests/Clocks.antt =====
-- The timer interrupt and the start of the board at concrete inputs.
use fpga_pqc_secure_telemetr.Base.{
  ◌+◌, ◌-◌, ◌==◌, ◌^◌, ◌≡◌, refl, true, false, [], ◌∷◌, replicate, arith, none, some,
}
use fpga_pqc_secure_telemetr.Result.{ok, err, state}
use fpga_pqc_secure_telemetr.HeartbeatGate
use fpga_pqc_secure_telemetr.HeartbeatGate.{HeartbeatGate}
use fpga_pqc_secure_telemetr.EntropyRng.{Noise, reset_health}
use fpga_pqc_secure_telemetr.P010Guard.{
  P010Regs, violations_of, lock_gpio, route_away, replace_field,
}
use fpga_pqc_secure_telemetr.SysTick.{
  Timer, Pauses, ticks, feeds, guard_check, guard_restore, init_heartbeat_gpio, run, happen,
  systick_handler, guard_tick, heartbeat_tick, count_tick, watchdog_feed, uptime_ms64, count_ticks,
  gpio_write, gpio_set_mode, gpio_set_config,
}
use fpga_pqc_secure_telemetr.SysTick.Uptime.{Returned, clock_at, uptime_ms64-Returned}
use fpga_pqc_secure_telemetr.SysTick.Latch.{Latched, systick_handler-Latched}
use fpga_pqc_secure_telemetr.Drivers.{
  Hardware, Board, port_millis, delay_loop, port_delay_ms, deadline_expired, wait_while,
  port_watchdog_feed,
}
use fpga_pqc_secure_telemetr.Drivers.Wired.{IsWired, calls, begin, ends, sample, delay, transfer}
use fpga_pqc_secure_telemetr.Drivers.Start.{
  init_link_gpio, init_pinmux, write_all, init_uart0, init_spi0, configure_adc, init_adc0, bring_up,
  platform, platform_init,
}
use fpga_pqc_secure_telemetr.Drivers.Started.{
  Offered, platform_init-Offered, calls-platform_init-IsWired,
}

abbrev pause : Pauses
pause = record { before = 1; between = 1; after = 1 }

-- The low word runs over inside the first round.
uptime_ms64-Returned_example : Returned (pause ∷ pause ∷ []) (2 ^ 32 - 2)
uptime_ms64-Returned_example =
    uptime_ms64-Returned pause pause [] (2 ^ 32 - 2) (omega arith) (omega arith)

torn_read_is_repeated :
    uptime_ms64 (pause ∷ pause ∷ []) (clock_at (2 ^ 32 - 2))
    ≡ some (2 ^ 32 + 3, clock_at (2 ^ 32 + 4))
unfolding uptime_ms64 count_ticks count_tick
torn_read_is_repeated = refl

abbrev any_registers : P010Regs
any_registers = record {
  gpio0_mode = 2 ^ 10 + 5;
  gpio0_cfg = 0;
  pfpa_uart0 = 0;
  pfpa_i2c0 = 1;
  pfpa_ct16b1 = 0;
  sys1_ahbclken = 2 ^ 21;
  sys1_prst = 0;
}

abbrev timer : Timer
timer = record {
  clock = record { millis = 0; millis_high = 0 };
  heartbeat_level = false;
  heartbeat_ready = true;
  heartbeat_gate = record {
    period_ms = 100;
    progress_timeout_ms = 250;
    countdown_ms = 1;
    progress_age_ms = 0;
    progress_seen = true;
  };
  guard_armed = true;
  guard_failed = false;
  guard_violations = 0;
  registers = any_registers;
  gpio_mode = λ port. 0;
  gpio_cfg = λ port. 0;
  output = λ port pin. false;
}

timer_violates : (guard_check timer == 0) ≡ false
unfolding guard_check violations_of
timer_violates = refl

systick_handler-Latched_example : Latched timer (feeds ∷ ticks ∷ ticks ∷ [])
unfolding guard_check violations_of
systick_handler-Latched_example =
    systick_handler-Latched timer (feeds ∷ ticks ∷ ticks ∷ []) refl refl

-- A millisecond passes before each read of the clock.
abbrev hardware : Hardware (Unit {0})
hardware = record {
  events = λ w. (ticks ∷ [], w);
  write = λ field value w. w;
  gpio_data = λ port w. (0, w);
  spi_stat = λ w. (0, w);
  spi_data_read = λ w. (0xA5, w);
  spi_data_write = λ byte w. w;
  adc_acs = λ w. (0, w);
  adc_eoc = λ w. (1, w);
  adc_adb = λ w. (0x1ABC, w);
  uart_wait = λ mask w. w;
  uart_ls = λ w. (0, w);
  uart_rb = λ w. (0, w);
  uart_th = λ byte w. w;
  spi0clken = λ reg. reg;
  adcclken = λ reg. reg;
  core_clock = λ w. (12000000, w);
  systick_config = λ reload w. (true, w);
}

abbrev board : Noise (Board (Unit {0}))
board = record {
  rng = record {
    source = λ w. (err state, w);
    state = replicate 32 0;
    generate_counter = 0;
    bytes_since_reseed = 0;
    health = reset_health;
    ready = false;
    failed = false;
  };
  world = record { timer = timer; spi_selected = true; adc_ready = false; world = tt };
}

platform_init-Offered_example :
    Offered (platform_init hardware true 9 board).0 (platform_init hardware true 9 board).1.world
platform_init-Offered_example = platform_init-Offered hardware true 9 board

board_starts : (platform_init hardware true 9 board).0 ≡ ok (platform hardware true 9)
unfolding platform_init guard_check violations_of guard_restore lock_gpio route_away replace_field
    bring_up init_heartbeat_gpio HeartbeatGate.init init_link_gpio init_pinmux write_all init_uart0
    init_spi0 configure_adc init_adc0 port_millis delay_loop port_delay_ms deadline_expired
    wait_while port_watchdog_feed run happen systick_handler guard_tick heartbeat_tick count_tick
    watchdog_feed gpio_write gpio_set_mode gpio_set_config HeartbeatGate.tick
board_starts = refl

calls-platform_init-IsWired_example : IsWired (
    calls hardware true 9
      (begin ∷ transfer none 2 20 ∷ sample ∷ ends ∷ delay 3 ∷ [])
      (platform_init hardware true 9 board).1.world)
calls-platform_init-IsWired_example =
    calls-platform_init-IsWired hardware true 9 board (platform hardware true 9)
      (begin ∷ transfer none 2 20 ∷ sample ∷ ends ∷ delay 3 ∷ []) board_starts
