-- ===== src/Drivers/Ready.antt =====
-- platform/sn32f407/fpst_sn32f407_port.c: what the start of the board sets up, and that interrupts and
-- foreign writes leave it so.
use fpga_pqc_secure_telemetr.Base.{
  true, false, not, ◌&&◌, List, [], ◌∷◌, ◌≡◌, refl, ◌∙◌, ◌/=◌, if-cases,
}
use fpga_pqc_secure_telemetr.HeartbeatGate.{tick}
use fpga_pqc_secure_telemetr.SysTick.{
  Timer, Event, ticks, feeds, writes, happen, run, count_tick, guard_tick, guard_check,
  heartbeat_tick, systick_handler, watchdog_feed, gpio_write,
}
use fpga_pqc_secure_telemetr.Multiport.{flash_cs_port, flash_cs_pin}
use fpga_pqc_secure_telemetr.Drivers.{p1_cs_port, p1_cs_pin, p2_cs_port, p2_cs_pin, Board}
use fpga_pqc_secure_telemetr.Drivers.Ran.{Ran}
use fpga_pqc_secure_telemetr.Drivers.Wired.{IsWired, Ran-IsWired}

-- A guard that is not armed and has nothing to report.
pub record IsUnarmed (t : Timer) : Type 0 where
  pub unarmed : t.guard_armed ≡ false
  pub unfailed : t.guard_failed ≡ false
  pub clean : t.guard_violations ≡ 0
  pub beating : t.heartbeat_ready ≡ true

guard_tick-unarmed : (t : Timer) → t.guard_armed ≡ false → guard_tick t ≡ t
unfolding guard_tick
guard_tick-unarmed t unarmed =
    if-cases (λ (u : Timer). u ≡ t) (t.guard_armed && guard_check t /= 0) (λ bad. cc) (λ _. refl)

heartbeat_tick-IsUnarmed : (t : Timer) → IsUnarmed t → IsUnarmed (heartbeat_tick t)
unfolding heartbeat_tick gpio_write
heartbeat_tick-IsUnarmed t h =
    if-cases IsUnarmed (not t.heartbeat_ready) (λ _. h)
      (λ _.
        if-cases IsUnarmed (tick t.heartbeat_gate).0
          (λ _. record {
            unarmed = h.unarmed;
            unfailed = h.unfailed;
            clean = h.clean;
            beating = h.beating;
          })
          (λ _. record {
            unarmed = h.unarmed;
            unfailed = h.unfailed;
            clean = h.clean;
            beating = h.beating;
          }))

happen-IsUnarmed : (e : Event) (t : Timer) → IsUnarmed t → IsUnarmed (happen e t)
unfolding happen systick_handler watchdog_feed
happen-IsUnarmed ticks t h =
    let counted = record t { clock = count_tick t.clock } in
    heartbeat_tick-IsUnarmed _ (
      rw (guard_tick-unarmed counted h.unarmed) (record {
        unarmed = h.unarmed;
        unfailed = h.unfailed;
        clean = h.clean;
        beating = h.beating;
      }))
happen-IsUnarmed feeds t h = record {
  unarmed = h.unarmed;
  unfailed = h.unfailed;
  clean = h.clean;
  beating = h.beating;
}
happen-IsUnarmed (writes r) t h = record {
  unarmed = h.unarmed;
  unfailed = h.unfailed;
  clean = h.clean;
  beating = h.beating;
}

run-IsUnarmed : (es : List Event) (t : Timer) → IsUnarmed t → IsUnarmed (run es t)
unfolding run
run-IsUnarmed [] t h = h
run-IsUnarmed (e ∷ es) t h = run-IsUnarmed es (happen e t) (happen-IsUnarmed e t h)

-- The same, with all chip selects high.
pub record IsPrepared (t : Timer) : Type 0 where
  pub unarmed : t.guard_armed ≡ false
  pub unfailed : t.guard_failed ≡ false
  pub clean : t.guard_violations ≡ 0
  pub beating : t.heartbeat_ready ≡ true
  pub flash : t.output flash_cs_port flash_cs_pin ≡ true
  pub other : t.output p2_cs_port p2_cs_pin ≡ true
  pub primer : t.output p1_cs_port p1_cs_pin ≡ true

-- What is on from `init_spi0`.
pub record IsReady {W : Type 0} (s : Board W) : Type 0 where
  pub timer : IsUnarmed s.timer
  pub wired : IsWired s
  pub deselected : s.spi_selected ≡ false

pub Ran-IsReady : {W : Type 0} → (s t : Board W) → Ran s t → IsReady s → IsReady t
Ran-IsReady s t r h = record {
  timer = rw (r.timer) (run-IsUnarmed r.events s.timer h.timer);
  wired = Ran-IsWired s t r h.wired;
  deselected = r.selected ∙ h.deselected;
}
