-- ===== src/SysTick.antt =====
-- platform/sn32f407/fpst_sn32f407_port.c: the timer interrupt, the millisecond clock in two words,
-- the run-time guard of P0.10 and the heartbeat pin. The guard's registers are memory that
-- something else may write between two interrupts.
pub mod Uptime
pub mod Latch
use fpga_pqc_secure_telemetr.Base.{
  ℕ, zero, suc, ◌+◌, ◌*◌, ◌/◌, ◌%◌, ◌^◌, Bool, true, false, ◌&&◌, ltb, not, Option, none, some,
  List, [], ◌∷◌, bit_and, bit_or, ◌==◌, ◌/=◌, if◌then◌else◌,
}
use fpga_pqc_secure_telemetr.Result.{Exec, ok, err}
use fpga_pqc_secure_telemetr.HeartbeatGate
use fpga_pqc_secure_telemetr.HeartbeatGate.{HeartbeatGate, tick, feed}
use fpga_pqc_secure_telemetr.P010Guard.{
  P010Regs, P010Readback, lock_gpio, route_away, violations_of, guard_readback, replace_field,
  complement,
}

-- g_millis and g_millis_high
pub record Clock : Type 0 where
  pub millis : ℕ
  pub millis_high : ℕ

-- The other globals of the interrupt, the guarded registers, and the ports: the mode and
-- configuration registers of the ports 1 to 3 (those of port 0 are guarded), and the level last
-- written to each pin.
pub record Timer : Type 0 where
  pub clock : Clock
  pub heartbeat_level : Bool
  pub heartbeat_ready : Bool
  pub heartbeat_gate : HeartbeatGate
  pub guard_armed : Bool
  pub guard_failed : Bool
  pub guard_violations : ℕ
  pub registers : P010Regs
  pub gpio_mode : ℕ → ℕ
  pub gpio_cfg : ℕ → ℕ
  pub output : ℕ → ℕ → Bool

abbrev pub heartbeat_period_ms : ℕ
heartbeat_period_ms = 100

abbrev pub heartbeat_progress_timeout_ms : ℕ
heartbeat_progress_timeout_ms = 250

abbrev pub heartbeat_port : ℕ
heartbeat_port = 2

abbrev pub heartbeat_pin : ℕ
heartbeat_pin = 9

abbrev pub gpio_cfg_inactive_schmitt_en : ℕ
gpio_cfg_inactive_schmitt_en = 2

unfoldable pub set_mode_bit : ℕ → Bool → ℕ → ℕ
set_mode_bit pin output mode =
    if output then bit_or mode (2 ^ pin) else bit_and mode (complement (2 ^ pin))

unfoldable pub set_cfg_field : ℕ → ℕ → ℕ → ℕ
set_cfg_field pin cfg reg = replace_field (3 * 2 ^ (pin * 2)) (bit_and cfg 3 * 2 ^ (pin * 2)) reg

-- A port beyond 3 has no register.
unfoldable pub gpio_set_mode : ℕ → ℕ → Bool → Timer → Timer
gpio_set_mode port pin output s = record s {
  registers = record s.registers {
    gpio0_mode =
        if port == 0
        then set_mode_bit pin output s.registers.gpio0_mode
        else s.registers.gpio0_mode;
  };
  gpio_mode = λ (p : ℕ).
      if ltb 0 port && (ltb port 4 && p == port)
      then set_mode_bit pin output (s.gpio_mode p)
      else s.gpio_mode p;
}

unfoldable pub gpio_set_config : ℕ → ℕ → ℕ → Timer → Timer
gpio_set_config port pin cfg s = record s {
  registers = record s.registers {
    gpio0_cfg =
        if port == 0 then set_cfg_field pin cfg s.registers.gpio0_cfg else s.registers.gpio0_cfg;
  };
  gpio_cfg = λ (p : ℕ).
      if ltb 0 port && (ltb port 4 && p == port)
      then set_cfg_field pin cfg (s.gpio_cfg p)
      else s.gpio_cfg p;
}

unfoldable pub gpio_write : ℕ → ℕ → Bool → Timer → Timer
gpio_write port pin high s = record s {
  output = λ (p q : ℕ). if ltb port 4 && (p == port && q == pin) then high else s.output p q;
}

unfoldable pub count_tick : Clock → Clock
count_tick c =
    let next = (c.millis + 1) % 2 ^ 32 in
    record {
      millis = next;
      millis_high = if next == 0 then (c.millis_high + 1) % 2 ^ 32 else c.millis_high;
    }

unfoldable pub guard_check : Timer → ℕ
guard_check s = violations_of s.registers

unfoldable pub guard_restore : Timer → Timer
guard_restore s = record s { registers = lock_gpio (route_away (lock_gpio s.registers)) }

-- The guard's part of the interrupt.
unfoldable pub guard_tick : Timer → Timer
guard_tick s =
    let violations = guard_check s in
    if s.guard_armed && violations /= 0
    then guard_restore (record s {
      guard_failed = true;
      guard_violations = bit_or s.guard_violations violations;
      heartbeat_ready = false;
    })
    else s

-- The heartbeat's part.
unfoldable pub heartbeat_tick : Timer → Timer
heartbeat_tick s =
    let (toggle, gate) = tick s.heartbeat_gate in
    if not s.heartbeat_ready
    then s
    else if toggle
    then gpio_write heartbeat_port heartbeat_pin (not s.heartbeat_level)
        (record s { heartbeat_gate = gate; heartbeat_level = not s.heartbeat_level })
    else record s { heartbeat_gate = gate }

-- SysTick_Handler
unfoldable pub systick_handler : Timer → Timer
systick_handler s = heartbeat_tick (guard_tick (record s { clock = count_tick s.clock }))

-- port_watchdog_feed
unfoldable pub watchdog_feed : Timer → Timer
watchdog_feed s = record s { heartbeat_gate = feed s.heartbeat_gate }

unfoldable pub init_heartbeat_gpio : Exec Timer (Unit {0})
init_heartbeat_gpio s =
    let (rc, gate) =
      HeartbeatGate.init heartbeat_period_ms heartbeat_progress_timeout_ms s.heartbeat_gate in
    let t = record s { heartbeat_ready = false; heartbeat_level = false; heartbeat_gate = gate } in
    elim rc [
      | err e ↦ (err e, t)
      | ok _ ↦ (
        ok tt,
        record (gpio_set_config heartbeat_port heartbeat_pin gpio_cfg_inactive_schmitt_en (
            gpio_set_mode heartbeat_port heartbeat_pin true
              (gpio_write heartbeat_port heartbeat_pin false t))) { heartbeat_ready = true },
      )
    ]

-- A timer interrupt, a progress report, or a write to the guarded registers by something else.
pub data Event : Type 0 where
  ticks feeds : Event
  writes : P010Regs → Event

unfoldable pub happen : Event → Timer → Timer
happen ticks s = systick_handler s
happen feeds s = watchdog_feed s
happen (writes r) s = record s { registers = r }

unfoldable pub run : List Event → Timer → Timer
run [] s = s
run (e ∷ es) s = run es (happen e s)

-- fpst_sn32f407_p010_guard_ok
unfoldable pub guard_ok : Timer → Bool
guard_ok s = s.guard_armed && (not s.guard_failed && guard_check s == 0)

-- fpst_sn32f407_p010_guard_faults
unfoldable pub guard_faults : Timer → ℕ
guard_faults s = bit_or s.guard_violations (guard_check s)

-- fpst_sn32f407_p010_guard_snapshot, with `out`
unfoldable pub guard_snapshot : P010Readback → Timer → Bool × P010Readback
guard_snapshot out s =
    let (violations, snapshot) = guard_readback (some s.registers) out in
    (s.guard_armed && (not s.guard_failed && violations == 0), snapshot)

-- The interrupts of a while.
unfoldable pub count_ticks : ℕ → Clock → Clock
count_ticks zero c = c
count_ticks (suc n) c = count_ticks n (count_tick c)

-- The interrupts before each of the three reads of a round.
pub record Pauses : Type 0 where
  pub before : ℕ
  pub between : ℕ
  pub after : ℕ

-- fpst_sn32f407_uptime_ms64, interrupted in this way; the clock at its end is given too.
unfoldable pub uptime_ms64 : List Pauses → Clock → Option (ℕ × Clock)
uptime_ms64 [] c = none
uptime_ms64 (p ∷ rest) c =
    let c1 = count_ticks p.before c in
    let c2 = count_ticks p.between c1 in
    let c3 = count_ticks p.after c2 in
    let again = uptime_ms64 rest c3 in
    if c1.millis_high == c3.millis_high
    then some (c1.millis_high * 2 ^ 32 + c2.millis, c3)
    else again
