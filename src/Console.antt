-- ===== src/Console.antt =====
-- The text output of platform/sn32f407/fpst_sn32f407_dual_main.c and fpst_sn32f407_main.c, which
-- have the same functions for it, and their parser of hexadecimal numbers.
pub mod RoundTrip
use Prim.Native.String.{String}
use fpga_pqc_secure_telemetr.Base.{
  ℕ, zero, suc, ◌+◌, ◌-◌, ◌*◌, ◌/◌, ◌%◌, ◌^◌, ◌&&◌, Option, none, some, List, [], ◌∷◌, get_or, ltb,
  leb, ◌/=◌, if◌then◌else◌, codes,
}
use fpga_pqc_secure_telemetr.Sn32Port.{Sn32Port}

unfoldable pub hex_digit : ℕ → ℕ
hex_digit value = if ltb value 10 then b'0' + value else b'A' + value - 10

module _ {W : Type 0} (port : Sn32Port W) where
  unfoldable pub console : String → W → W
  console text w = port.uart0_write (codes text) w

  unfoldable pub console_hex_nibble : ℕ → W → W
  console_hex_nibble value w = port.uart0_write (hex_digit value ∷ []) w

  -- The loop of `console_hex16` and `console_hex32`, with the digits that are left.
  unfoldable pub console_hex_loop : ℕ → ℕ → W → W
  console_hex_loop zero value w = w
  console_hex_loop (suc left) value w =
      console_hex_loop left value (console_hex_nibble (value / 2 ^ (4 * left) % 16) w)

  unfoldable pub console_hex8 : ℕ → W → W
  console_hex8 value w = console_hex_nibble (value % 16) (console_hex_nibble (value / 16) w)

  unfoldable pub console_hex16 : ℕ → W → W
  console_hex16 value w = console_hex_loop 4 value w

  unfoldable pub console_hex32 : ℕ → W → W
  console_hex32 value w = console_hex_loop 8 value w

  unfoldable pub console_hex64 : ℕ → W → W
  console_hex64 value w = console_hex32 (value % 2 ^ 32) (console_hex32 (value / 2 ^ 32) w)

  -- The bytes of a ciphertext.
  unfoldable pub console_hex_bytes : List ℕ → W → W
  console_hex_bytes [] w = w
  console_hex_bytes (x ∷ xs) w = console_hex_bytes xs (console_hex8 x w)

-- `none` is -1.
unfoldable pub hex_value : ℕ → Option ℕ
hex_value ch =
    if leb b'0' ch && leb ch b'9'
    then some (ch - b'0')
    else if leb b'a' ch && leb ch b'f'
    then some (ch - b'a' + 10)
    else if leb b'A' ch && leb ch b'F'
    then some (ch - b'A' + 10)
    else none

-- The end of `parse_hex32_exact`, on the text behind the digits; past the end of a string is a NUL.
unfoldable pub parse_end : ℕ → List ℕ → Option ℕ
parse_end value text = if get_or text 0 0 /= 0 && get_or text 0 0 /= b' ' then none else some value

-- Its loop, with the digits that are left.
unfoldable pub parse_loop : ℕ → ℕ → List ℕ → Option ℕ
parse_loop zero value text = parse_end value text
parse_loop (suc left) value [] = none
parse_loop (suc left) value (ch ∷ text) = elim (hex_value ch) [
  | none ↦ none
  | some nibble ↦ parse_loop left (value * 16 % 2 ^ 32 + nibble) text
]

unfoldable pub parse_hex32_exact : List ℕ → Option ℕ
parse_hex32_exact text = parse_loop 8 0 text
