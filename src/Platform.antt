-- ===== src/Platform.antt =====
-- include/fpst_platform.h and src/fpst_platform.c: the board's callbacks, over the outside world
-- that they act on. A callback is `none` where its pointer is NULL; the code calls only callbacks
-- that `is_valid` has checked, so what a call of a NULL one does is of no account.
use fpga_pqc_secure_telemetr.Base.{
  ℕ, ◌+◌, ◌%◌, ◌^◌, ◌≤◌, ◌≡◌, Bool, true, false, ◌&&◌, Option, none, some, List, [],
}
use fpga_pqc_secure_telemetr.Result.{Status, err, io}

-- fpst_platform_t. `spi_transfer` gets the bytes to send, if any, the length and the timeout, and
-- gives its result and the bytes that it received.
pub record Platform (W : Type 0) : Type 0 where
  pub millis : Option (W → ℕ × W)
  pub delay_ms : Option (ℕ → W → W)
  pub fpga_irq : Option (W → Bool × W)
  pub spi_begin : Option (W → Status × W)
  pub spi_transfer : Option (Option (List ℕ) → ℕ → ℕ → W → Status × List ℕ × W)
  pub spi_end : Option (W → W)
  pub fpga_reset : Option (ℕ → W → W)
  pub fpga_zeroize : Option (ℕ → W → W)
  pub watchdog_feed : Option (W → W)

abbrev pub is_some : {A : Type 0} → Option A → Bool
is_some none = false
is_some (some a) = true

module _ {W : Type 0} where
  unfoldable pub is_valid : Platform W → Bool
  is_valid p =
      is_some p.millis
      && (is_some p.delay_ms
          && (is_some p.fpga_irq
              && (is_some p.spi_begin && (is_some p.spi_transfer && is_some p.spi_end))))

  -- The calls through the pointers.
  unfoldable pub millis : Platform W → W → ℕ × W
  millis p w = elim p.millis [ none ↦ (0, w) | some f ↦ f w ]

  unfoldable pub delay_ms : Platform W → ℕ → W → W
  delay_ms p ms w = elim p.delay_ms [ none ↦ w | some f ↦ f ms w ]

  unfoldable pub fpga_irq : Platform W → W → Bool × W
  fpga_irq p w = elim p.fpga_irq [ none ↦ (false, w) | some f ↦ f w ]

  unfoldable pub spi_begin : Platform W → W → Status × W
  spi_begin p w = elim p.spi_begin [ none ↦ (err io, w) | some f ↦ f w ]

  unfoldable pub spi_transfer : Platform W → Option (List ℕ) → ℕ → ℕ → W → Status × List ℕ × W
  spi_transfer p tx len timeout_ms w = elim p.spi_transfer [
    | none ↦ (err io, [], w)
    | some f ↦ f tx len timeout_ms w
  ]

  unfoldable pub spi_end : Platform W → W → W
  spi_end p w = elim p.spi_end [ none ↦ w | some f ↦ f w ]

  -- `if (p->fpga_reset != NULL) p->fpga_reset(ctx, ms);`, and so for the watchdog.
  unfoldable pub fpga_reset : Platform W → ℕ → W → W
  fpga_reset p ms w = elim p.fpga_reset [ none ↦ w | some f ↦ f ms w ]

  unfoldable pub watchdog_feed : Platform W → W → W
  watchdog_feed p w = elim p.watchdog_feed [ none ↦ w | some f ↦ f w ]

-- An assumption on a board, which the interface does not state: `millis` counts milliseconds modulo
-- 2 ^ 32, a delay lasts at least as long as it says, and no call takes more than a second longer
-- than that.
pub record IsClock {W : Type 0} (p : Platform W) : Type 0 where
  pub time : W → ℕ
  pub millis_reads : (w : W) → (millis p w).0 ≡ time (millis p w).1 % 2 ^ 32
  pub millis_start : (w : W) → time w ≤ time (millis p w).1
  pub millis_end : (w : W) → time (millis p w).1 ≤ time w + 1000
  pub delay_start : (ms : ℕ) (w : W) → time w + ms ≤ time (delay_ms p ms w)
  pub delay_end : (ms : ℕ) (w : W) → time (delay_ms p ms w) ≤ time w + ms + 1000
  pub irq_start : (w : W) → time w ≤ time (fpga_irq p w).1
  pub irq_end : (w : W) → time (fpga_irq p w).1 ≤ time w + 1000
  pub watchdog_start : (w : W) → time w ≤ time (watchdog_feed p w)
  pub watchdog_end : (w : W) → time (watchdog_feed p w) ≤ time w + 1000
