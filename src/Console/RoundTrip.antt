-- ===== src/Console/RoundTrip.antt =====
-- What the console prints in hexadecimal, and that the parser reads it back.
use fpga_pqc_secure_telemetr.Base.{
  ℕ, zero, suc, ◌+◌, ◌*◌, ◌/◌, ◌%◌, ◌^◌, ◌<◌, ◌≡◌, refl, sym, ap, ◌∙◌, some, List, [], ◌∷◌, ◌++◌,
  arith,
}
use mathlib.Core.List.{append_assoc, append-nil}
use native.Mathlib.Nat.{div-le_self, div-div-eq-div-mul}
use native.Mathlib.Numerals.{towards_suc}
use fpga_pqc_secure_telemetr.Sn32Port.{Sn32Port, IsUart}
use fpga_pqc_secure_telemetr.Console.{
  hex_digit, console_hex_nibble, console_hex_loop, console_hex32, hex_value, parse_end, parse_loop,
  parse_hex32_exact,
}

-- The digits of a number, the highest first.
abbrev pub hex_text : ℕ → ℕ → List ℕ
hex_text zero value = []
hex_text (suc left) value = hex_digit (value / 2 ^ (4 * left) % 16) ∷ hex_text left value

pub hex_value-hex_digit : (n : ℕ) → n < 16 → hex_value (hex_digit n) ≡ some n
unfolding hex_value hex_digit
hex_value-hex_digit n h = ground arith

parse_digit :
    (left value n : ℕ) (text : List ℕ)
    → n < 16
    → parse_loop (suc left) value (hex_digit n ∷ text)
      ≡ parse_loop left (value * 16 % 2 ^ 32 + n) text
unfolding parse_loop
parse_digit left value n text h = rw (hex_value-hex_digit n h, parse_loop) refl

-- A step keeps the value equal to the leading digits.
parse_step :
    (value left k : ℕ) (text : List ℕ)
    → value < 2 ^ 32
    → parse_loop (suc left) (value / k / 16) (hex_digit (value / k % 16) ∷ text)
      ≡ parse_loop left (value / k) text
parse_step value left k text h =
    parse_digit left (value / k / 16) (value / k % 16) text (omega arith)
    ∙ ap (λ v. parse_loop left v text) (omega (arith, div-le_self value k))

pow_add_four : (s : ℕ) → 2 ^ (s + 4) ≡ 2 ^ s * 16
pow_add_four s = simp towards_suc (omega arith)

shift_digit : (value left : ℕ) → value / 2 ^ (4 * suc left) ≡ value / 2 ^ (4 * left) / 16
shift_digit value left =
    let four_more : 4 * suc left ≡ 4 * left + 4 = omega arith in
    ap (λ k. value / 2 ^ k) four_more
    ∙ ap (λ k. value / k) (pow_add_four (4 * left))
    ∙ sym (div-div-eq-div-mul value (2 ^ (4 * left)) 16)

parse_loop-hex_text :
    (value left : ℕ) (rest : List ℕ)
    → value < 2 ^ 32
    → parse_loop left (value / 2 ^ (4 * left)) (hex_text left value ++ rest) ≡ parse_end value rest
parse_loop-hex_text value zero rest h =
    let whole : value / 2 ^ (4 * 0) ≡ value = omega arith in rw whole (unfold parse_loop in refl)
parse_loop-hex_text value (suc left) rest h =
    ap (λ v. parse_loop (suc left) v (hex_text (suc left) value ++ rest)) (shift_digit value left)
    ∙ parse_step value left (2 ^ (4 * left)) (hex_text left value ++ rest) h
    ∙ parse_loop-hex_text value left rest h

parse_hex32_exact-hex_text :
    (value : ℕ) (rest : List ℕ)
    → value < 2 ^ 32
    → parse_hex32_exact (hex_text 8 value ++ rest) ≡ parse_end value rest
unfolding parse_hex32_exact
parse_hex32_exact-hex_text value rest h =
    let none_yet : 0 ≡ value / 2 ^ (4 * 8) = omega arith in
    ap (λ v. parse_loop 8 v (hex_text 8 value ++ rest)) none_yet
    ∙ parse_loop-hex_text value 8 rest h

module _ {W : Type 0} (port : Sn32Port W) (uart : IsUart port) where
  sent-hex_loop :
      (left value : ℕ) (w : W)
      → uart.sent (console_hex_loop port left value w) ≡ uart.sent w ++ hex_text left value
  unfolding console_hex_loop console_hex_nibble
  sent-hex_loop zero value w = sym (append-nil (uart.sent w))
  sent-hex_loop (suc left) value w =
      let digit = hex_digit (value / 2 ^ (4 * left) % 16) in
      sent-hex_loop left value (port.uart0_write (digit ∷ []) w)
      ∙ ap (λ t. t ++ hex_text left value) (uart.write (digit ∷ []) w)
      ∙ append_assoc (uart.sent w) (digit ∷ []) (hex_text left value)

  -- What `console_hex32` sends for a 32-bit value, over a UART that sends the bytes it is given in
  -- order, is a text that `parse_hex32_exact` reads back as this value, alone or in front of a
  -- blank and anything else.
  pub parse_hex32_exact-console_hex32 :
      (value : ℕ) (w : W)
      → value < 2 ^ 32
      → (digits : List ℕ) × (uart.sent (console_hex32 port value w) ≡ uart.sent w ++ digits)
        × (parse_hex32_exact digits ≡ some value)
        × ((rest : List ℕ) → parse_hex32_exact (digits ++ (b' ' ∷ rest)) ≡ some value)
  unfolding console_hex32 parse_end
  parse_hex32_exact-console_hex32 value w h = (
    hex_text 8 value,
    sent-hex_loop 8 value w,
    parse_hex32_exact-hex_text value [] h,
    λ rest. parse_hex32_exact-hex_text value (b' ' ∷ rest) h,
  )
