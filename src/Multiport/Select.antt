-- ===== src/Multiport/Select.antt =====
-- platform/sn32f407/fpst_sn32f407_multiport.c: the chip selects of the shared bus.
use fpga_pqc_secure_telemetr.Base.{
  ℕ, zero, suc, ◌≡◌, refl, ◌∙◌, Bool, true, false, Option, none, some, List, [], ◌∷◌, if-cases,
  elim-cases, not, ◌||◌, ◌==◌, bit_and, ◌/=◌, arith,
}
use fpga_pqc_secure_telemetr.Result.{Result, Status, branch-cases}
use fpga_pqc_secure_telemetr.Platform.{is_some}
use fpga_pqc_secure_telemetr.Multiport.{
  Endpoint, p1, p2, Registers, Bus, owns, on_world, gpio_write, ep_millis, ep_delay, ep_watchdog,
  ep_reset, ep_zeroize, deadline_expired, gpio_read, ep_irq, wait_clear, transfer_byte,
  transfer_loop, ep_spi_transfer, select, ep_spi_begin, ep_spi_end, stat_tx_full, stat_busy,
  stat_rx_empty, cs_port, cs_pin,
}
use fpga_pqc_secure_telemetr.Profile.{link_ready_timeout_ms}

-- The levels of the chip selects of Primer 1, Primer 2 and the flash, by the owner of the bus: only
-- the owner's is low.
abbrev pub Levels : Option Endpoint → (ℕ → ℕ → Bool) → Type 0
Levels none output = (output 2 1 ≡ true) × (output 2 2 ≡ true) × (output 1 8 ≡ true)
Levels (some p1) output = (output 2 1 ≡ false) × (output 2 2 ≡ true) × (output 1 8 ≡ true)
Levels (some p2) output = (output 2 1 ≡ true) × (output 2 2 ≡ false) × (output 1 8 ≡ true)

-- What the users of the two platforms may call, in any order.
pub data Call : Type 0 where
  spi_begin spi_end irq : Endpoint → Call
  spi_transfer : Endpoint → Option (List ℕ) → ℕ → ℕ → Call
  millis watchdog : Call
  delay zeroize_pulse reset_pulse : ℕ → Call

module _ {W : Type 0} where
  abbrev pub IsSelected : Bus W → Type 0
  IsSelected s = Levels s.bus_owner s.output

  -- The owner and the pins are as they were.
  abbrev Kept : Bus W → Bus W → Type 0
  Kept s t = (t.bus_owner ≡ s.bus_owner) × (t.output ≡ s.output)

  Kept-then : (s t u : Bus W) → Kept s t → Kept t u → Kept s u
  Kept-then s t u (a, b) (c, d) = (c ∙ a, d ∙ b)

  Kept-IsSelected : (s t : Bus W) → Kept s t → IsSelected s → IsSelected t
  Kept-IsSelected s t (a, b) h = rw (a, b) h

module _ {W : Type 0} (hw : Registers W) where
  wait_clear-Kept :
      (rounds mask start timeout_ms : ℕ) (s : Bus W)
      → Kept s (wait_clear hw rounds mask start timeout_ms s).1
  unfolding wait_clear deadline_expired ep_millis ep_watchdog
  wait_clear-Kept zero mask start timeout_ms s = (refl, refl)
  wait_clear-Kept (suc rounds) mask start timeout_ms s =
      let P = λ (x : Status × Bus W). Kept s x.1 in
      let (stat, t) = on_world hw.stat s in
      let (expired, u) = deadline_expired start timeout_ms t in
      elim-cases P (bit_and stat mask /= 0) _ _
        (λ _.
          elim-cases P expired _ _ (λ _. (refl, refl))
            (λ _.
              Kept-then s (ep_watchdog u)
                (wait_clear hw rounds mask start timeout_ms (ep_watchdog u)).1 (refl, refl)
                (wait_clear-Kept rounds mask start timeout_ms (ep_watchdog u))))
        (λ _. (refl, refl))

  transfer_byte-Kept :
      (rounds timeout_ms byte : ℕ) (s : Bus W)
      → Kept s (transfer_byte hw rounds timeout_ms byte s).1
  unfolding transfer_byte ep_millis
  transfer_byte-Kept rounds timeout_ms byte s =
      let P = λ (x : Result ℕ × Bus W). Kept s x.1 in
      let (start, s1) = ep_millis s in
      let (room, s2) = wait_clear hw rounds stat_tx_full start timeout_ms s1 in
      let written = record s2 { world = hw.data_write byte s2.world } in
      let (start', s3) = ep_millis written in
      let (shifted, s4) = wait_clear hw rounds stat_busy start' timeout_ms s3 in
      let (received, s5) = wait_clear hw rounds stat_rx_empty start' timeout_ms s4 in
      let k2 : Kept s s2 =
        Kept-then s s1 s2 (refl, refl) (wait_clear-Kept rounds stat_tx_full start timeout_ms s1) in
      let k4 : Kept s s4 =
        Kept-then s s3 s4 k2 (wait_clear-Kept rounds stat_busy start' timeout_ms s3) in
      let k5 : Kept s s5 =
        Kept-then s s4 s5 k4 (wait_clear-Kept rounds stat_rx_empty start' timeout_ms s4) in
      branch-cases P room _ _
        (λ _ _.
          branch-cases P shifted _ _ (λ _ _. branch-cases P received _ _ (λ _ _. k5) (λ _ _. k5))
            (λ _ _. k4))
        (λ _ _. k2)

  transfer_loop-Kept :
      (rounds timeout_ms : ℕ) (bytes : List ℕ) (s : Bus W)
      → Kept s (transfer_loop hw rounds timeout_ms bytes s).2
  unfolding transfer_loop
  transfer_loop-Kept rounds timeout_ms [] s = (refl, refl)
  transfer_loop-Kept rounds timeout_ms (byte ∷ bytes) s =
      let (rc, t) = transfer_byte hw rounds timeout_ms byte s in
      let here = transfer_byte-Kept rounds timeout_ms byte s in
      branch-cases (λ (x : Status × List ℕ × Bus W). Kept s x.2) rc _ _
        (λ _ _.
          Kept-then s t (transfer_loop hw rounds timeout_ms bytes t).2 here
            (transfer_loop-Kept rounds timeout_ms bytes t))
        (λ _ _. here)

  ep_spi_transfer-Kept :
      (rounds : ℕ) (ep : Endpoint) (tx : Option (List ℕ)) (len timeout_ms : ℕ) (s : Bus W)
      → Kept s (ep_spi_transfer hw rounds ep tx len timeout_ms s).2
  unfolding ep_spi_transfer
  ep_spi_transfer-Kept rounds ep tx len timeout_ms s =
      if-cases (λ (x : Status × List ℕ × Bus W). Kept s x.2)
        (not (owns ep s.bus_owner) || timeout_ms == 0) (λ _. (refl, refl))
        (λ _. transfer_loop-Kept rounds timeout_ms _ s)

  ep_irq-Kept : (ep : Endpoint) (s : Bus W) → Kept s (ep_irq hw ep s).1
  unfolding ep_irq gpio_read
  ep_irq-Kept p1 s = (refl, refl)
  ep_irq-Kept p2 s = (refl, refl)

  select-IsSelected : (ep : Endpoint) (s : Bus W) → IsSelected (select hw ep s)
  unfolding select gpio_write
  select-IsSelected p1 s = (refl, refl, refl)
  select-IsSelected p2 s = (refl, refl, refl)

  begin-IsSelected :
      (harness_verified : Bool) (ep : Endpoint) (s : Bus W)
      → IsSelected s
      → IsSelected (ep_spi_begin hw harness_verified ep s).1
  unfolding ep_spi_begin
  begin-IsSelected harness_verified ep s h =
      let P = λ (x : Status × Bus W). IsSelected x.1 in
      if-cases P (not harness_verified) (λ _. h)
        (λ _. if-cases P (is_some s.bus_owner) (λ _. h) (λ _. select-IsSelected ep s))

  -- The owner's select goes up, and the bus is free.
  deselected :
      (ep : Endpoint) (owner : Option Endpoint) (t : Bus W)
      → owns ep owner ≡ true
      → Levels owner t.output
      → IsSelected (record (gpio_write (cs_port ep) (cs_pin ep) true t) { bus_owner = none })
  unfolding gpio_write
  deselected p1 (some p1) t h (a, b, c) = (refl, b, c)
  deselected p2 (some p2) t h (a, b, c) = (a, refl, c)
  deselected p1 (some p2) t h l = cc
  deselected p2 (some p1) t h l = cc
  deselected ep none t h l = cc

  end-IsSelected :
      (rounds : ℕ) (ep : Endpoint) (s : Bus W)
      → IsSelected s
      → IsSelected (ep_spi_end hw rounds ep s)
  unfolding ep_spi_end ep_millis
  end-IsSelected rounds ep s h =
      let (start, t) = ep_millis s in
      let u = (wait_clear hw rounds stat_busy start link_ready_timeout_ms t).1 in
      let (owner, output) = wait_clear-Kept rounds stat_busy start link_ready_timeout_ms t in
      if-cases (λ (x : Bus W). IsSelected x) (not (owns ep s.bus_owner)) (λ _. h)
        (λ k. deselected ep s.bus_owner u (ground arith) (rw output h))

-- One call, and a list of them. `harness_verified` and the rounds of a wait are the same throughout.
module _ {W : Type 0} (hw : Registers W) (rounds : ℕ) (harness_verified : Bool) where
  unfoldable pub call : Call → Bus W → Bus W
  call (spi_begin ep) s = (ep_spi_begin hw harness_verified ep s).1
  call (spi_end ep) s = ep_spi_end hw rounds ep s
  call (spi_transfer ep tx len timeout_ms) s = (ep_spi_transfer hw rounds ep tx len timeout_ms s).2
  call (irq ep) s = (ep_irq hw ep s).1
  call (zeroize_pulse ms) s = ep_zeroize ms s
  call (reset_pulse ms) s = ep_reset ms s
  call millis s = (ep_millis s).1
  call watchdog s = ep_watchdog s
  call (delay ms) s = ep_delay ms s

  unfoldable pub run : List Call → Bus W → Bus W
  run [] s = s
  run (c ∷ calls) s = run calls (call c s)

  call-IsSelected : (c : Call) (s : Bus W) → IsSelected s → IsSelected (call c s)
  unfolding call ep_zeroize ep_reset ep_millis ep_watchdog ep_delay
  call-IsSelected (spi_begin ep) s h = begin-IsSelected hw harness_verified ep s h
  call-IsSelected (spi_end ep) s h = end-IsSelected hw rounds ep s h
  call-IsSelected (spi_transfer ep tx len timeout_ms) s h =
      Kept-IsSelected s (ep_spi_transfer hw rounds ep tx len timeout_ms s).2
        (ep_spi_transfer-Kept hw rounds ep tx len timeout_ms s) h
  call-IsSelected (irq ep) s h = Kept-IsSelected s (ep_irq hw ep s).1 (ep_irq-Kept hw ep s) h
  call-IsSelected (zeroize_pulse ms) s h = h
  call-IsSelected (reset_pulse ms) s h = h
  call-IsSelected millis s h = h
  call-IsSelected watchdog s h = h
  call-IsSelected (delay ms) s h = h

  -- Over any list of calls of the two endpoint platforms, in any order, with any answers of the
  -- hardware and any number of rounds for the waits: from a bus that nobody owns, with all three
  -- chip selects high, only the chip select of the bus's owner is ever low, and all are high when
  -- nobody owns it.
  pub run-IsSelected : (calls : List Call) (s : Bus W) → IsSelected s → IsSelected (run calls s)
  unfolding run
  run-IsSelected [] s h = h
  run-IsSelected (c ∷ calls) s h = run-IsSelected calls (call c s) (call-IsSelected c s h)
