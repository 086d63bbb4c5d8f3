-- ===== src/Tests/Pins.antt =====
-- The bus of two endpoints and the pin guard at concrete registers.
use fpga_pqc_secure_telemetr.Base.{◌≡◌, refl, true, none, some, List, [], ◌∷◌}
use fpga_pqc_secure_telemetr.Result.{err, busy}
use fpga_pqc_secure_telemetr.Platform.{millis}
use fpga_pqc_secure_telemetr.P010Guard.{
  P010Regs, P010Readback, guard_apply, guard_readback, readback_ok, violations_of,
}
use fpga_pqc_secure_telemetr.P010Guard.Policy.{SameElsewhere, guard_readback-guard_apply}
use fpga_pqc_secure_telemetr.Multiport.{
  p1, p2, Registers, Bus, gpio_write, ep_millis, deadline_expired, wait_clear, transfer_byte,
  transfer_loop, ep_spi_transfer, select, ep_spi_begin, ep_spi_end,
}
use fpga_pqc_secure_telemetr.Multiport.Select.{
  Call, IsSelected, call, run, spi_begin, spi_transfer, spi_end, run-IsSelected,
}
use fpga_pqc_secure_telemetr.Tests.Board.{Board, board}

-- A peripheral that is always ready and receives the byte 7.
abbrev hw : Registers Board
hw = record {
  stat = λ w. (0, w);
  data_read = λ w. (7, w);
  data_write = λ byte w. w;
  fsm_reset = λ w. w;
  gpio_data = λ port w. (0, w);
}

abbrev free : Bus Board
free = record {
  base = board;
  output = λ p q. true;
  bus_owner = none;
  pair_initialized = true;
  world = record { now = 0; replies = [] };
}

abbrev calls : List Call
calls = spi_begin p1 ∷ spi_transfer p1 none 3 20 ∷ spi_begin p2 ∷ spi_end p1 ∷ spi_begin p2 ∷ []

-- The second endpoint is refused until the first has ended.
taken_over :
    ((ep_spi_begin hw true p2 (run hw 5 true (spi_begin p1 ∷ []) free)).0 ≡ err busy)
    × ((ep_spi_transfer hw 5 p1 none 2 20 (run hw 5 true (spi_begin p1 ∷ []) free)).1 ≡ 7 ∷ 7 ∷ [])
    × ((run hw 5 true calls free).bus_owner ≡ some p2)
unfolding run call ep_spi_begin select gpio_write ep_spi_transfer transfer_loop transfer_byte
    wait_clear deadline_expired ep_millis ep_spi_end millis
taken_over = (refl, refl, refl)

run-IsSelected_example : IsSelected (run hw 5 true calls free)
run-IsSelected_example = run-IsSelected hw 5 true calls free (refl, refl, refl)

abbrev regs : P010Regs
regs = record {
  gpio0_mode = 0xFFF;
  gpio0_cfg = 0x0000FFFF;
  pfpa_uart0 = 5;
  pfpa_i2c0 = 3;
  pfpa_ct16b1 = 0x12;
  sys1_ahbclken = 0xFFFFFFFF;
  sys1_prst = 0;
}

abbrev cleared_readback : P010Readback
cleared_readback = record {
  gpio0_mode = 0;
  gpio0_cfg = 0;
  pfpa_uart0 = 0;
  pfpa_i2c0 = 0;
  pfpa_ct16b1 = 0;
  sys1_ahbclken = 0;
  violations = 0;
}

-- Every field is reported before the guard is applied.
all_reported : (guard_readback (some regs) cleared_readback).0 ≡ 63
unfolding guard_readback violations_of
all_reported = refl

guard_readback-guard_apply_example :
    (readback_ok (guard_readback (guard_apply (some regs)) cleared_readback).0 ≡ true)
    × ((r' : P010Regs) × (guard_apply (some regs) ≡ some r') × SameElsewhere regs r')
guard_readback-guard_apply_example = guard_readback-guard_apply regs cleared_readback
