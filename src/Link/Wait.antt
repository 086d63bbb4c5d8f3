-- ===== src/Link/Wait.antt =====
-- The fuel of the link's loops is never used up on a board with a clock as `IsClock` assumes it.
use fpga_pqc_secure_telemetr.Base.{
  ℕ, zero, suc, ◌+◌, ◌-◌, ◌%◌, ◌^◌, ◌≤◌, ◌<◌, ◌≡◌, refl, ◌⊎◌, arith, ltb, none, if◌then◌else◌,
}
use native.Mathlib.Decide.{dec_lt}
use fpga_pqc_secure_telemetr.Result.{ok, err, timeout}
use fpga_pqc_secure_telemetr.Profile.{link_max_frame, link_ready_timeout_ms}
use fpga_pqc_secure_telemetr.Platform.{
  Platform, IsClock, millis, delay_ms, fpga_irq, watchdog_feed, spi_transfer,
}
use fpga_pqc_secure_telemetr.Link.{FpgaLink, Port, wait_loop, wait_irq, drain_loop}

module _ {W : Type 0} (link : FpgaLink W) (c : IsClock link.platform) where
  abbrev p : Platform W
  p = link.platform

  abbrev at : W → Port W
  at w = record { link = link; world = w }

  -- The world after a round of the loop that sees no interrupt.
  abbrev round : W → W
  round w = (millis p (delay_ms p 1 (watchdog_feed p (fpga_irq p w).1))).1

  -- A round takes at least one millisecond, and `millis` then counts from `t0` without a wrap.
  round_time :
      (t0 start timeout_ms : ℕ) (w : W)
      → start ≡ t0 % 2 ^ 32
      → timeout_ms ≤ 2 ^ 31
      → t0 ≤ c.time w
      → c.time w ≤ t0 + timeout_ms
      → (c.time w + 1 ≤ c.time (round w))
        × (((millis p (delay_ms p 1 (watchdog_feed p (fpga_irq p w).1))).0 + 2 ^ 32 - start)
              % 2 ^ 32
            ≡ c.time (round w) - t0)
  round_time t0 start timeout_ms w e h h0 h1 =
      let w1 = (fpga_irq p w).1 in
      let w2 = watchdog_feed p w1 in
      let w3 = delay_ms p 1 w2 in
      let grows : c.time w + 1 ≤ c.time (round w) =
        omega (arith, c.irq_start w, c.watchdog_start w1, c.delay_start 1 w2, c.millis_start w3) in
      let bound : c.time (round w) ≤ c.time w + 4001 =
        omega (arith, c.irq_end w, c.watchdog_end w1, c.delay_end 1 w2, c.millis_end w3) in
      (grows, omega (arith, c.millis_reads w3))

  -- With fuel for more rounds than the timeout has milliseconds left, more fuel changes nothing.
  wait_loop-enough :
      (fuel extra t0 start timeout_ms : ℕ) (w : W)
      → start ≡ t0 % 2 ^ 32
      → timeout_ms ≤ 2 ^ 31
      → t0 ≤ c.time w
      → c.time w ≤ t0 + timeout_ms
      → t0 + timeout_ms < c.time w + fuel
      → wait_loop (fuel + extra) start timeout_ms (at w) ≡ wait_loop fuel start timeout_ms (at w)
  unfolding wait_loop
  wait_loop-enough zero extra t0 start timeout_ms w es h h0 h1 hf = absurd (omega arith)
  wait_loop-enough (suc fuel) extra t0 start timeout_ms w es h h0 h1 hf =
      let e : suc fuel + extra ≡ suc (fuel + extra) = omega arith in
      let (grows, reads) = round_time t0 start timeout_ms w es h h0 h1 in
      rw e (elim (dec_lt (c.time (round w) - t0) timeout_ms) [
        | yes more ↦ ground (
          arith,
          wait_loop-enough fuel extra t0 start timeout_ms (round w) es h (omega arith) (omega arith)
              (omega arith),
        )
        | no done ↦ ground arith
      ])

  -- With such a clock and a timeout of at most 2 ^ 31 ms, the rounds that `wait_irq`
  -- grants its loop are enough: more rounds do not change the outcome.
  pub wait_irq-enough :
      (extra timeout_ms : ℕ) (w : W)
      → timeout_ms ≤ 2 ^ 31
      → let (start, w') = millis p w in
        wait_loop (timeout_ms + 1 + extra) start timeout_ms (at w') ≡ wait_irq timeout_ms (at w)
  unfolding wait_irq
  wait_irq-enough extra timeout_ms w h =
      let w' = (millis p w).1 in
      wait_loop-enough (timeout_ms + 1) extra (c.time w') (millis p w).0 timeout_ms w'
        (c.millis_reads w) h (omega arith) (omega arith) (omega arith)

  -- A loop that gives up has waited.
  wait_loop_timeout :
      (fuel t0 start timeout_ms : ℕ) (w : W)
      → start ≡ t0 % 2 ^ 32
      → timeout_ms ≤ 2 ^ 31
      → t0 ≤ c.time w
      → c.time w ≤ t0 + timeout_ms
      → t0 + timeout_ms < c.time w + fuel
      → ((wait_loop fuel start timeout_ms (at w)).0 ≡ ok tt)
        ⊎ (((wait_loop fuel start timeout_ms (at w)).0 ≡ err timeout)
            × (t0 + timeout_ms ≤ c.time (wait_loop fuel start timeout_ms (at w)).1.world))
  unfolding wait_loop
  wait_loop_timeout zero t0 start timeout_ms w es h h0 h1 hf = absurd (omega arith)
  wait_loop_timeout (suc fuel) t0 start timeout_ms w es h h0 h1 hf =
      let (grows, reads) = round_time t0 start timeout_ms w es h h0 h1 in
      elim (dec_lt (c.time (round w) - t0) timeout_ms) [
        | yes more ↦ ground (
          arith,
          wait_loop_timeout fuel t0 start timeout_ms (round w) es h (omega arith) (omega arith)
              (omega arith),
        )
        | no done ↦ ground arith
      ]

  -- With such a clock and a timeout of at most 2 ^ 31 ms, `wait_irq` returns OK, or
  -- TIMEOUT after at least that many milliseconds.
  pub wait_irq_timeout :
      (timeout_ms : ℕ) (w : W)
      → timeout_ms ≤ 2 ^ 31
      → let (r, s) = wait_irq timeout_ms (at w) in
        (r ≡ ok tt) ⊎ ((r ≡ err timeout) × (c.time w + timeout_ms ≤ c.time s.world))
  unfolding wait_irq
  wait_irq_timeout timeout_ms w h =
      let w' = (millis p w).1 in
      ground (
        arith,
        c.millis_start w,
        wait_loop_timeout (timeout_ms + 1) (c.time w') (millis p w).0 timeout_ms w'
            (c.millis_reads w) h (omega arith) (omega arith) (omega arith),
      )

module _ {W : Type 0} where
  drained :
      (fuel already : ℕ) (p : Platform W) (w : W)
      → link_max_frame ≤ already
      → drain_loop fuel already p w ≡ w
  unfolding drain_loop
  drained zero already p w h = refl
  drained (suc fuel) already p w h = ground arith

  -- The rounds granted to the drain loop are enough when they cover what is left of the largest
  -- frame: more rounds do not change the outcome.
  pub drain_loop-enough :
      (fuel extra already : ℕ) (p : Platform W) (w : W)
      → link_max_frame ≤ already + fuel
      → drain_loop (fuel + extra) already p w ≡ drain_loop fuel already p w
  unfolding drain_loop
  drain_loop-enough zero extra already p w h = drained (0 + extra) already p w (omega arith)
  drain_loop-enough (suc fuel) extra already p w h =
      let e : suc fuel + extra ≡ suc (fuel + extra) = omega arith in
      let left = link_max_frame - already in
      let chunk : ℕ = if ltb 32 left then 32 else left in
      let w' = (spi_transfer p none chunk link_ready_timeout_ms w).2 in
      rw e (elim (dec_lt already link_max_frame) [
        | yes more ↦
            ground (arith, drain_loop-enough fuel extra (already + chunk) p w' (ground arith))
        | no done ↦ ground arith
      ])
