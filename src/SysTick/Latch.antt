-- ===== src/SysTick/Latch.antt =====
-- The guard of P0.10 stops the heartbeat for good.
use fpga_pqc_secure_telemetr.Base.{
  bit_or, Bool, true, false, List, [], ◌∷◌, ◌≡◌, refl, ap, ◌∙◌, ◌/=◌, ◌&&◌, not, arith, if-cases,
  ==→eq,
}
use fpga_pqc_secure_telemetr.P010Guard.{P010Readback, guard_readback, guard_apply, readback_ok}
use fpga_pqc_secure_telemetr.P010Guard.Policy.{guard_readback-guard_apply}
use fpga_pqc_secure_telemetr.SysTick.{
  Timer, Event, ticks, feeds, writes, happen, run, heartbeat_port, heartbeat_pin, count_tick,
  guard_check, guard_restore, guard_tick, heartbeat_tick, systick_handler, watchdog_feed, guard_ok,
}

abbrev blank : P010Readback
blank = record {
  gpio0_mode = 0;
  gpio0_cfg = 0;
  pfpa_uart0 = 0;
  pfpa_i2c0 = 0;
  pfpa_ct16b1 = 0;
  sys1_ahbclken = 0;
  violations = 0;
}

-- The guard has failed, and the pin is as it was.
pub record IsStopped (pin : Bool) (s : Timer) : Type 0 where
  pub failed : s.guard_failed ≡ true
  pub not_ready : s.heartbeat_ready ≡ false
  pub pin_same : s.output heartbeat_port heartbeat_pin ≡ pin

-- What an interrupt that sees a violation does, and what holds after any events that follow.
pub record Latched (s : Timer) (es : List Event) : Type 0 where
  pub corrected : guard_check (systick_handler s) ≡ 0
  pub recorded : (systick_handler s).guard_violations ≡ bit_or s.guard_violations (guard_check s)
  pub stopped : IsStopped (s.output heartbeat_port heartbeat_pin) (run (ticks ∷ es) s)
  pub refused : guard_ok (run (ticks ∷ es) s) ≡ false

-- What the guard's part does at a violation.
abbrev tripped : Timer → Timer
tripped s = guard_restore (record s {
  guard_failed = true;
  guard_violations = bit_or s.guard_violations (guard_check s);
  heartbeat_ready = false;
})

-- The interrupt that sees a violation.
abbrev caught : Timer → Timer
caught s = tripped (record s { clock = count_tick s.clock })

guard_tick-IsStopped : (pin : Bool) (s : Timer) → IsStopped pin s → IsStopped pin (guard_tick s)
unfolding guard_tick guard_restore
guard_tick-IsStopped pin s stopped =
    if-cases (IsStopped pin) (s.guard_armed && guard_check s /= 0) {x = tripped s} {y = s}
      (λ bad. record { failed = refl; not_ready = refl; pin_same = stopped.pin_same })
      (λ good. stopped)

heartbeat_tick-idle : (s : Timer) → s.heartbeat_ready ≡ false → heartbeat_tick s ≡ s
unfolding heartbeat_tick
heartbeat_tick-idle s idle =
    if-cases (λ s'. s' ≡ s) (not s.heartbeat_ready) (λ _. refl) (λ live. cc)

heartbeat_tick-IsStopped :
    (pin : Bool) (s : Timer) → IsStopped pin s → IsStopped pin (heartbeat_tick s)
heartbeat_tick-IsStopped pin s stopped = rw (heartbeat_tick-idle s stopped.not_ready) stopped

happen-IsStopped :
    (pin : Bool) (e : Event) (s : Timer) → IsStopped pin s → IsStopped pin (happen e s)
unfolding happen systick_handler watchdog_feed
happen-IsStopped pin ticks s stopped = heartbeat_tick-IsStopped pin _ (
    guard_tick-IsStopped pin (record s { clock = count_tick s.clock })
      (record {
        failed = stopped.failed;
        not_ready = stopped.not_ready;
        pin_same = stopped.pin_same;
      }))
happen-IsStopped pin feeds s stopped = record {
  failed = stopped.failed;
  not_ready = stopped.not_ready;
  pin_same = stopped.pin_same;
}
happen-IsStopped pin (writes r) s stopped = record {
  failed = stopped.failed;
  not_ready = stopped.not_ready;
  pin_same = stopped.pin_same;
}

run-IsStopped :
    (pin : Bool) (es : List Event) (s : Timer) → IsStopped pin s → IsStopped pin (run es s)
unfolding run
run-IsStopped pin [] s stopped = stopped
run-IsStopped pin (e ∷ es) s stopped =
    run-IsStopped pin es (happen e s) (happen-IsStopped pin e s stopped)

guard_tick-caught :
    (s : Timer)
    → s.guard_armed ≡ true
    → (guard_check s /= 0) ≡ true
    → guard_tick (record s { clock = count_tick s.clock }) ≡ caught s
unfolding guard_tick guard_check
guard_tick-caught s armed bad =
    if-cases (λ s'. s' ≡ caught s) (s.guard_armed && guard_check s /= 0) (λ _. refl) (λ good. cc)

systick_handler-caught :
    (s : Timer) → s.guard_armed ≡ true → (guard_check s /= 0) ≡ true → systick_handler s ≡ caught s
unfolding systick_handler guard_restore
systick_handler-caught s armed bad =
    ap heartbeat_tick (guard_tick-caught s armed bad) ∙ heartbeat_tick-idle (caught s) refl

caught-IsStopped : (s : Timer) → IsStopped (s.output heartbeat_port heartbeat_pin) (caught s)
unfolding guard_restore
caught-IsStopped s = record { failed = refl; not_ready = refl; pin_same = refl }

guard_check-caught : (s : Timer) → guard_check (caught s) ≡ 0
unfolding guard_restore guard_check guard_apply guard_readback readback_ok
guard_check-caught s = ==→eq _ 0 (guard_readback-guard_apply s.registers blank).0

guard_ok-failed : (s : Timer) → s.guard_failed ≡ true → guard_ok s ≡ false
unfolding guard_ok
guard_ok-failed s failed = ground arith

-- When the timer interrupt of an armed guard finds a violation, it records it and brings the
-- registers back to where no violation is found; and after any interrupts, progress reports and
-- writes to the guarded registers that follow, the guard counts as failed, the heartbeat is not
-- ready, and its pin has kept its level.
pub systick_handler-Latched :
    (s : Timer) (es : List Event)
    → s.guard_armed ≡ true
    → (guard_check s /= 0) ≡ true
    → Latched s es
unfolding guard_restore guard_check run happen
systick_handler-Latched s es armed bad =
    let stopped =
      run-IsStopped (s.output heartbeat_port heartbeat_pin) es (systick_handler s)
        (rw (systick_handler-caught s armed bad) (caught-IsStopped s)) in
    record {
      refused = guard_ok-failed _ stopped.failed;
      corrected = ap guard_check (systick_handler-caught s armed bad) ∙ guard_check-caught s;
      recorded = ap (λ s'. s'.guard_violations) (systick_handler-caught s armed bad);
      stopped = stopped;
    }
