-- ===== src/P010Guard.antt =====
-- platform/sn32f407/fpst_sn32f407_p010_guard.c: the registers that decide who drives the pins P0.10
-- and P0.11. The registers are memory cells, as in the host tests of the code; `none` is a set of
-- registers with a NULL pointer.
pub mod Policy
use fpga_pqc_secure_telemetr.Base.{
  ℕ, ◌+◌, ◌-◌, ◌*◌, ◌^◌, Bool, Option, none, some, bit_and, bit_or, ◌/=◌, ◌==◌, if◌then◌else◌,
}

abbrev pub gpio_mode_input_mask : ℕ
gpio_mode_input_mask = 2 ^ 10 + 2 ^ 11

abbrev pub gpio_cfg_mask : ℕ
gpio_cfg_mask = 3 * 2 ^ 20 + 3 * 2 ^ 22

abbrev pub gpio_cfg_value : ℕ
gpio_cfg_value = 2 * 2 ^ 20 + 2 * 2 ^ 22

abbrev pub pfpa_uart0_mask : ℕ
pfpa_uart0_mask = 0x0F

abbrev pub pfpa_uart0_p31_p32 : ℕ
pfpa_uart0_p31_p32 = 0x0A

abbrev pub pfpa_i2c0_mask : ℕ
pfpa_i2c0_mask = 0x0F

abbrev pub pfpa_ct16b1_mask : ℕ
pfpa_ct16b1_mask = 0xF0

-- The clocks of I2C0, CMP and CT16B1.
abbrev pub forbidden_clock_mask : ℕ
forbidden_clock_mask = 2 ^ 21 + 2 ^ 14 + 2 ^ 6

-- `~mask` of a uint32_t
abbrev pub complement : ℕ → ℕ
complement mask = 2 ^ 32 - 1 - mask

-- fpst_sn32f407_p010_regs_t
pub record P010Regs : Type 0 where
  pub gpio0_mode : ℕ
  pub gpio0_cfg : ℕ
  pub pfpa_uart0 : ℕ
  pub pfpa_i2c0 : ℕ
  pub pfpa_ct16b1 : ℕ
  pub sys1_ahbclken : ℕ
  pub sys1_prst : ℕ

-- fpst_sn32f407_p010_readback_t
pub record P010Readback : Type 0 where
  pub gpio0_mode : ℕ
  pub gpio0_cfg : ℕ
  pub pfpa_uart0 : ℕ
  pub pfpa_i2c0 : ℕ
  pub pfpa_ct16b1 : ℕ
  pub sys1_ahbclken : ℕ
  pub violations : ℕ

-- `(reg & ~mask) | value`
unfoldable pub replace_field : ℕ → ℕ → ℕ → ℕ
replace_field mask value reg = bit_or (bit_and reg (complement mask)) value

-- The writes to the two GPIO registers, before and after the others.
unfoldable pub lock_gpio : P010Regs → P010Regs
lock_gpio r = record r {
  gpio0_mode = bit_and r.gpio0_mode (complement gpio_mode_input_mask);
  gpio0_cfg = replace_field gpio_cfg_mask gpio_cfg_value r.gpio0_cfg;
}

-- The writes between them.
unfoldable pub route_away : P010Regs → P010Regs
route_away r = record r {
  pfpa_uart0 = replace_field pfpa_uart0_mask pfpa_uart0_p31_p32 r.pfpa_uart0;
  pfpa_i2c0 = replace_field pfpa_i2c0_mask 0 r.pfpa_i2c0;
  pfpa_ct16b1 = replace_field pfpa_ct16b1_mask 0 r.pfpa_ct16b1;
  sys1_prst = forbidden_clock_mask;
  sys1_ahbclken = bit_and r.sys1_ahbclken (complement forbidden_clock_mask);
}

unfoldable pub guard_apply : Option P010Regs → Option P010Regs
guard_apply none = none
guard_apply (some r) = some (lock_gpio (route_away (lock_gpio r)))

-- `if (bad) violations |= bit;`
abbrev pub note : Bool → ℕ → ℕ → ℕ
note bad bit violations = if bad then bit_or violations bit else violations

unfoldable pub violations_of : P010Regs → ℕ
violations_of r = note (bit_and r.sys1_ahbclken forbidden_clock_mask /= 0) (2 ^ 5) (
    note (bit_and r.pfpa_ct16b1 pfpa_ct16b1_mask /= 0) (2 ^ 4) (
      note (bit_and r.pfpa_i2c0 pfpa_i2c0_mask /= 0) (2 ^ 3) (
        note (bit_and r.pfpa_uart0 pfpa_uart0_mask /= pfpa_uart0_p31_p32) (2 ^ 2) (
          note (bit_and r.gpio0_cfg gpio_cfg_mask /= gpio_cfg_value) (2 ^ 1)
            (note (bit_and r.gpio0_mode gpio_mode_input_mask /= 0) (2 ^ 0) 0)))))

-- The result, and `out`.
unfoldable pub guard_readback : Option P010Regs → P010Readback → ℕ × P010Readback
guard_readback none out = (2 ^ 31, out)
guard_readback (some r) out = (
  violations_of r,
  record {
    gpio0_mode = r.gpio0_mode;
    gpio0_cfg = r.gpio0_cfg;
    pfpa_uart0 = r.pfpa_uart0;
    pfpa_i2c0 = r.pfpa_i2c0;
    pfpa_ct16b1 = r.pfpa_ct16b1;
    sys1_ahbclken = r.sys1_ahbclken;
    violations = violations_of r;
  },
)

-- fpst_sn32f407_p010_readback_ok
unfoldable pub readback_ok : ℕ → Bool
readback_ok violations = violations == 0
