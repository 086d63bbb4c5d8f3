-- ===== src/Crc.antt =====
-- src/fpst_crc32.c: CRC-32/ISO-HDLC over a list of bytes.
pub mod Detect
use fpga_pqc_secure_telemetr.Base.{
  ℕ, zero, suc, ◌-◌, ◌/◌, ◌%◌, ◌^◌, ◌≡◌, refl, List, [], ◌∷◌, bit_xor, bit_and,
}

-- `(uint32_t)(0u - (crc & 1u))`
abbrev pub mask : ℕ → ℕ
mask crc = (2 ^ 32 - crc % 2) % 2 ^ 32

-- The body of the inner loop.
pub bit_round : ℕ → ℕ
bit_round crc = bit_xor (crc / 2) (bit_and 0xEDB88320 (mask crc))

-- The inner loop, with the rounds that are left.
pub bit_rounds : ℕ → ℕ → ℕ
bit_rounds zero crc = crc
bit_rounds (suc left) crc = bit_rounds left (bit_round crc)

-- The outer loop.
pub crc_loop : ℕ → List ℕ → ℕ
crc_loop crc [] = crc
crc_loop crc (x ∷ rest) = crc_loop (bit_rounds 8 (bit_xor crc x)) rest

unfoldable pub crc32_iso_hdlc : List ℕ → ℕ
unfolding crc_loop bit_rounds bit_round
crc32_iso_hdlc bytes = bit_xor (crc_loop 0xFFFFFFFF bytes) 0xFFFFFFFF

-- The catalogued check value: the CRC of the text "123456789".
check_value :
    crc32_iso_hdlc (0x31 ∷ 0x32 ∷ 0x33 ∷ 0x34 ∷ 0x35 ∷ 0x36 ∷ 0x37 ∷ 0x38 ∷ 0x39 ∷ []) ≡ 0xCBF43926
unfolding crc32_iso_hdlc
check_value = refl
