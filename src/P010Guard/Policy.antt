-- ===== src/P010Guard/Policy.antt =====
-- platform/sn32f407/fpst_sn32f407_p010_guard.c: the guard establishes its own policy.
use fpga_pqc_secure_telemetr.Base.{
  ◌≡◌, refl, ◌∙◌, true, some, bit_and, cleared, replaced, preserved, bit_and_again,
}
use fpga_pqc_secure_telemetr.P010Guard.{
  P010Regs, P010Readback, gpio_mode_input_mask, gpio_cfg_mask, gpio_cfg_value, pfpa_uart0_mask,
  pfpa_uart0_p31_p32, pfpa_i2c0_mask, pfpa_ct16b1_mask, forbidden_clock_mask, complement,
  replace_field, lock_gpio, route_away, guard_apply, guard_readback, violations_of, readback_ok,
}

-- The bits outside the guarded fields are the same.
pub record SameElsewhere (r r' : P010Regs) : Type 0 where
  pub gpio0_mode :
      bit_and r'.gpio0_mode (complement gpio_mode_input_mask)
      ≡ bit_and r.gpio0_mode (complement gpio_mode_input_mask)
  pub gpio0_cfg :
      bit_and r'.gpio0_cfg (complement gpio_cfg_mask)
      ≡ bit_and r.gpio0_cfg (complement gpio_cfg_mask)
  pub pfpa_uart0 :
      bit_and r'.pfpa_uart0 (complement pfpa_uart0_mask)
      ≡ bit_and r.pfpa_uart0 (complement pfpa_uart0_mask)
  pub pfpa_i2c0 :
      bit_and r'.pfpa_i2c0 (complement pfpa_i2c0_mask)
      ≡ bit_and r.pfpa_i2c0 (complement pfpa_i2c0_mask)
  pub pfpa_ct16b1 :
      bit_and r'.pfpa_ct16b1 (complement pfpa_ct16b1_mask)
      ≡ bit_and r.pfpa_ct16b1 (complement pfpa_ct16b1_mask)
  pub sys1_ahbclken :
      bit_and r'.sys1_ahbclken (complement forbidden_clock_mask)
      ≡ bit_and r.sys1_ahbclken (complement forbidden_clock_mask)

-- After the guard is applied to any registers, its readback reports no violation, and in each of
-- the six registers that it reads back all bits outside the guarded field are as they were.
pub guard_readback-guard_apply :
    (r : P010Regs) (out : P010Readback)
    → (readback_ok (guard_readback (guard_apply (some r)) out).0 ≡ true)
      × ((r' : P010Regs) × (guard_apply (some r) ≡ some r') × SameElsewhere r r')
unfolding guard_readback guard_apply violations_of readback_ok lock_gpio route_away replace_field
guard_readback-guard_apply r out = (
  rw
      (
        cleared 32 r.sys1_ahbclken (complement forbidden_clock_mask) forbidden_clock_mask refl,
        replaced 32 r.pfpa_ct16b1 (complement pfpa_ct16b1_mask) pfpa_ct16b1_mask 0 refl refl,
        replaced 32 r.pfpa_i2c0 (complement pfpa_i2c0_mask) pfpa_i2c0_mask 0 refl refl,
        replaced 32 r.pfpa_uart0 (complement pfpa_uart0_mask) pfpa_uart0_mask pfpa_uart0_p31_p32
            refl refl,
        replaced 32 (replace_field gpio_cfg_mask gpio_cfg_value r.gpio0_cfg)
            (complement gpio_cfg_mask) gpio_cfg_mask gpio_cfg_value refl refl,
        cleared 32 (bit_and r.gpio0_mode (complement gpio_mode_input_mask))
            (complement gpio_mode_input_mask) gpio_mode_input_mask refl,
      )
      refl,
  (
    _,
    refl,
    record {
      gpio0_mode =
          bit_and_again 32 _ _ gpio_mode_input_mask refl
          ∙ bit_and_again 32 _ _ gpio_mode_input_mask refl;
      gpio0_cfg =
          preserved 32 _ _ gpio_cfg_mask _ refl refl ∙ preserved 32 _ _ gpio_cfg_mask _ refl refl;
      pfpa_uart0 = preserved 32 _ _ pfpa_uart0_mask _ refl refl;
      pfpa_i2c0 = preserved 32 _ _ pfpa_i2c0_mask _ refl refl;
      pfpa_ct16b1 = preserved 32 _ _ pfpa_ct16b1_mask _ refl refl;
      sys1_ahbclken = bit_and_again 32 _ _ forbidden_clock_mask refl;
    },
  ),
)
