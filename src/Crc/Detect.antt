-- ===== src/Crc/Detect.antt =====
-- The checksum fits 32 bits, and no two inputs that differ in exactly one byte share it.
use fpga_pqc_secure_telemetr.Base.{
  ◌≢◌, ℕ, zero, suc, ◌/◌, ◌%◌, ◌^◌, ◌<◌, ◌≡◌, sym, ◌∙◌, ◌⊎◌, inl, inr, List, [], ◌∷◌, ◌++◌, arith,
  IsBytes, bit_xor, bit_xor-lt, bit_xor-zero, bit_xor_cancel, bit_xor_comm, bit_xor_shr,
}
use fpga_pqc_secure_telemetr.Crc.{bit_round, bit_rounds, crc_loop, crc32_iso_hdlc}

parity-cases : (c : ℕ) → (c % 2 ≡ 0) ⊎ (c % 2 ≡ 1)
parity-cases c = omega arith

bit_round_even : (c : ℕ) → c % 2 ≡ 0 → bit_round c ≡ c / 2
unfolding bit_round
bit_round_even c h = rw h (bit_xor-zero (c / 2))

bit_round_odd : (c : ℕ) → c % 2 ≡ 1 → bit_round c ≡ bit_xor (c / 2) 0xEDB88320
unfolding bit_round
bit_round_odd c h = rw h

bit_round-lt : (c : ℕ) → c < 2 ^ 32 → bit_round c < 2 ^ 32
bit_round-lt c h = elim (parity-cases c) [
  | inl even ↦ omega (arith, bit_round_even c even)
  | inr odd ↦
      rw (bit_round_odd c odd) (bit_xor-lt 32 (c / 2) 0xEDB88320 (omega arith) (omega arith))
]

-- The top bit of the polynomial marks the odd case.
bit_round_high : (c : ℕ) → c < 2 ^ 32 → c % 2 ≡ 1 → bit_round c / 2 ^ 31 ≡ 1
bit_round_high c h odd =
    let low : (c / 2) / 2 ^ 31 ≡ 0 = omega arith in
    rw (bit_round_odd c odd, bit_xor_shr 31 (c / 2) 0xEDB88320, low)

bit_round-injective : (c c' : ℕ) → c < 2 ^ 32 → c' < 2 ^ 32 → bit_round c ≡ bit_round c' → c ≡ c'
bit_round-injective c c' h h' e = elim (parity-cases c) [
  | inl even ↦ elim (parity-cases c') [
    | inl even' ↦ omega (arith, bit_round_even c even, bit_round_even c' even')
    | inr odd' ↦ omega (arith, bit_round_even c even, bit_round_high c' h' odd')
  ]
  | inr odd ↦ elim (parity-cases c') [
    | inl even' ↦ omega (arith, bit_round_even c' even', bit_round_high c h odd)
    | inr odd' ↦ omega (
      arith,
      bit_xor_cancel (c / 2) (c' / 2) 0xEDB88320
          (sym (bit_round_odd c odd) ∙ e ∙ bit_round_odd c' odd'),
    )
  ]
]

bit_rounds-lt : (k c : ℕ) → c < 2 ^ 32 → bit_rounds k c < 2 ^ 32
unfolding bit_rounds
bit_rounds-lt zero c h = h
bit_rounds-lt (suc k) c h = bit_rounds-lt k (bit_round c) (bit_round-lt c h)

bit_rounds-injective :
    (k c c' : ℕ) → c < 2 ^ 32 → c' < 2 ^ 32 → bit_rounds k c ≡ bit_rounds k c' → c ≡ c'
unfolding bit_rounds
bit_rounds-injective zero c c' h h' e = e
bit_rounds-injective (suc k) c c' h h' e =
    bit_round-injective c c' h h' (
      bit_rounds-injective k (bit_round c) (bit_round c') (bit_round-lt c h) (bit_round-lt c' h') e)

-- What one byte does to the register.
abbrev byte_round : ℕ → ℕ → ℕ
byte_round c x = bit_rounds 8 (bit_xor c x)

xor_byte-lt : (c x : ℕ) → c < 2 ^ 32 → x < 256 → bit_xor c x < 2 ^ 32
xor_byte-lt c x h hx = bit_xor-lt 32 c x h (omega arith)

byte_round-lt : (c x : ℕ) → c < 2 ^ 32 → x < 256 → byte_round c x < 2 ^ 32
byte_round-lt c x h hx = bit_rounds-lt 8 (bit_xor c x) (xor_byte-lt c x h hx)

crc_loop-lt : (c : ℕ) (xs : List ℕ) → c < 2 ^ 32 → IsBytes xs → crc_loop c xs < 2 ^ 32
unfolding crc_loop
crc_loop-lt c [] h b = h
crc_loop-lt c (x ∷ xs) h b = crc_loop-lt (byte_round c x) xs (byte_round-lt c x h b.0) b.1

-- The rest of the input carries any difference of the register to the end.
crc_loop-injective :
    (xs : List ℕ) (c c' : ℕ)
    → c < 2 ^ 32
    → c' < 2 ^ 32
    → IsBytes xs
    → crc_loop c xs ≡ crc_loop c' xs
    → c ≡ c'
unfolding crc_loop
crc_loop-injective [] c c' h h' b e = e
crc_loop-injective (x ∷ xs) c c' h h' b e = bit_xor_cancel c c' x (
    bit_rounds-injective 8 (bit_xor c x) (bit_xor c' x) (xor_byte-lt c x h b.0)
      (xor_byte-lt c' x h' b.0)
      (crc_loop-injective xs (byte_round c x) (byte_round c' x) (byte_round-lt c x h b.0)
        (byte_round-lt c' x h' b.0) b.1 e))

crc_loop_detects :
    (pre post : List ℕ) (c x y : ℕ)
    → c < 2 ^ 32
    → IsBytes pre
    → IsBytes post
    → x < 256
    → y < 256
    → crc_loop c (pre ++ x ∷ post) ≡ crc_loop c (pre ++ y ∷ post)
    → x ≡ y
unfolding crc_loop
crc_loop_detects [] post c x y h hp hq hx hy e = bit_xor_cancel x y c (
    bit_xor_comm x c
    ∙ bit_rounds-injective 8 (bit_xor c x) (bit_xor c y) (xor_byte-lt c x h hx)
        (xor_byte-lt c y h hy)
        (crc_loop-injective post (byte_round c x) (byte_round c y) (byte_round-lt c x h hx)
          (byte_round-lt c y h hy) hq e)
    ∙ bit_xor_comm c y)
crc_loop_detects (p ∷ pre) post c x y h hp hq hx hy e =
    crc_loop_detects pre post (byte_round c p) x y (byte_round-lt c p h hp.0) hp.1 hq hx hy e

pub crc32-lt : (xs : List ℕ) → IsBytes xs → crc32_iso_hdlc xs < 2 ^ 32
crc32-lt xs b =
    unfold crc32_iso_hdlc in
    bit_xor-lt 32 (crc_loop 0xFFFFFFFF xs) 0xFFFFFFFF (crc_loop-lt _ xs (omega arith) b)
      (omega arith)

pub crc32_byte-injective :
    (pre post : List ℕ) (x y : ℕ)
    → IsBytes pre
    → IsBytes post
    → x < 256
    → y < 256
    → crc32_iso_hdlc (pre ++ x ∷ post) ≡ crc32_iso_hdlc (pre ++ y ∷ post)
    → x ≡ y
crc32_byte-injective pre post x y hp hq hx hy e =
    crc_loop_detects pre post 0xFFFFFFFF x y (omega arith) hp hq hx hy (
      bit_xor_cancel (crc_loop 0xFFFFFFFF (pre ++ x ∷ post)) (crc_loop 0xFFFFFFFF (pre ++ y ∷ post))
        0xFFFFFFFF (unfold crc32_iso_hdlc in e))

-- Two byte strings that differ in exactly one byte have different CRC-32 checksums.
pub crc32_detects_byte :
    (pre post : List ℕ) (x y : ℕ)
    → IsBytes pre
    → IsBytes post
    → x < 256
    → y < 256
    → x ≢ y
    → crc32_iso_hdlc (pre ++ x ∷ post) ≢ crc32_iso_hdlc (pre ++ y ∷ post)
crc32_detects_byte pre post x y hp hq hx hy differ e =
    differ (crc32_byte-injective pre post x y hp hq hx hy e)
