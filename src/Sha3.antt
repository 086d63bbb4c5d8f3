-- ===== src/Sha3.antt =====
-- src/fpst_sha3.c: Keccak-f[1600] and SHAKE256. The state is the list of its 25 lanes.
pub mod Output
use fpga_pqc_secure_telemetr.Base.{
  ℕ, zero, suc, ◌+◌, ◌-◌, ◌*◌, ◌/◌, ◌%◌, ◌^◌, ◌≡◌, refl, List, [], ◌∷◌, ◌++◌, bit_and, bit_or,
  bit_xor, length, get_or, take, drop, replicate, write_at, to_byte, ltb, ◌==◌, if◌then◌else◌, true,
  false,
}

abbrev pub keccakf_rounds : ℕ
keccakf_rounds = 24

abbrev pub shake256_rate : ℕ
shake256_rate = 136

pub rol64 : ℕ → ℕ → ℕ
rol64 x s = if s == 0 then x else bit_or (x * 2 ^ s % 2 ^ 64) (x / 2 ^ (64 - s))

-- `for (i = 0; i < 8; ++i) v |= (uint64_t)p[i] << (8U * i);`, with the rounds left
load_le64_loop : ℕ → ℕ → ℕ → List ℕ → ℕ
load_le64_loop zero i v p = v
load_le64_loop (suc left) i v p =
    load_le64_loop left (i + 1) (bit_or v (get_or p i 0 * 2 ^ (8 * i))) p

pub load_le64 : List ℕ → ℕ
load_le64 p = load_le64_loop 8 0 0 p

-- The list `f i ∷ f (i + 1) ∷ …` of `n` elements.
pub tabulate : ℕ → ℕ → (ℕ → ℕ) → List ℕ
tabulate zero i f = []
tabulate (suc n) i f = f i ∷ tabulate n (i + 1) f

-- The eight bytes that `store_le64` writes.
pub store_le64 : ℕ → List ℕ
store_le64 v = tabulate 8 0 (λ i. to_byte (v / 2 ^ (8 * i)))

abbrev round_constants : List ℕ
round_constants =
    0x0000000000000001 ∷ 0x0000000000008082 ∷ 0x800000000000808A ∷ 0x8000000080008000
    ∷ 0x000000000000808B ∷ 0x0000000080000001 ∷ 0x8000000080008081 ∷ 0x8000000000008009
    ∷ 0x000000000000008A ∷ 0x0000000000000088 ∷ 0x0000000080008009 ∷ 0x000000008000000A
    ∷ 0x000000008000808B ∷ 0x800000000000008B ∷ 0x8000000000008089 ∷ 0x8000000000008003
    ∷ 0x8000000000008002 ∷ 0x8000000000000080 ∷ 0x000000000000800A ∷ 0x800000008000000A
    ∷ 0x8000000080008081 ∷ 0x8000000000008080 ∷ 0x0000000080000001 ∷ 0x8000000080008008 ∷ []

abbrev rotations : List ℕ
rotations =
    0 ∷ 1 ∷ 62 ∷ 28 ∷ 27 ∷ 36 ∷ 44 ∷ 6 ∷ 55 ∷ 20 ∷ 3 ∷ 10 ∷ 43 ∷ 25 ∷ 39 ∷ 41 ∷ 45 ∷ 15 ∷ 21 ∷ 8
    ∷ 18 ∷ 2 ∷ 61 ∷ 56 ∷ 14 ∷ []

abbrev lane : List ℕ → ℕ → ℕ
lane st i = get_or st i 0

-- The first three loops of a round.
theta : List ℕ → List ℕ
theta st =
    let c = tabulate 5 0 (λ x.
      bit_xor
        (bit_xor (bit_xor (bit_xor (lane st x) (lane st (x + 5))) (lane st (x + 10)))
          (lane st (x + 15)))
        (lane st (x + 20))) in
    let d = tabulate 5 0 (λ x. bit_xor (lane c ((x + 4) % 5)) (rol64 (lane c ((x + 1) % 5)) 1)) in
    tabulate 25 0 (λ i. bit_xor (lane st i) (lane d (i % 5)))

-- The loop that fills `b`: the lanes in the order in which it writes them, `i = x + 5 * y`.
rho_pi : ℕ → ℕ → List ℕ → List ℕ → List ℕ
rho_pi zero i st b = b
rho_pi (suc left) i st b =
    let x = i % 5 in
    let y = i / 5 in
    rho_pi left (i + 1) st
      (write_at (y + 5 * ((2 * x + 3 * y) % 5)) (rol64 (lane st i) (lane rotations i) ∷ []) b)

abbrev complement64 : ℕ → ℕ
complement64 x = 2 ^ 64 - 1 - x

chi : List ℕ → List ℕ
chi b = tabulate 25 0 (λ i.
    let x = i % 5 in
    let y = i / 5 in
    bit_xor (lane b i)
      (bit_and (complement64 (lane b ((x + 1) % 5 + 5 * y))) (lane b ((x + 2) % 5 + 5 * y))))

-- `st[0] ^= rc[round]`
iota : ℕ → List ℕ → List ℕ
iota round st = write_at 0 (bit_xor (lane st 0) (lane round_constants round) ∷ []) st

keccak_round : ℕ → List ℕ → List ℕ
keccak_round round st = iota round (chi (rho_pi 25 0 (theta st) (replicate 25 0)))

keccak_rounds : ℕ → ℕ → List ℕ → List ℕ
keccak_rounds zero round st = st
keccak_rounds (suc left) round st = keccak_rounds left (round + 1) (keccak_round round st)

pub keccakf1600 : List ℕ → List ℕ
keccakf1600 st = keccak_rounds keccakf_rounds 0 st

-- `for (i = 0; i < SHAKE256_RATE / 8; ++i) st[i] ^= load_le64(p + 8 * i);`
pub absorb_block : List ℕ → List ℕ → List ℕ
absorb_block p st =
    tabulate 25 0
      (λ i. if ltb i 17 then bit_xor (lane st i) (load_le64 (drop (8 * i) p)) else lane st i)

-- `while (input_len >= SHAKE256_RATE)`, with fuel for the blocks: the state, and the input left.
pub absorb : ℕ → List ℕ → List ℕ → List ℕ × List ℕ
absorb zero input st = (st, input)
absorb (suc fuel) input st = elim (ltb (length input) shake256_rate) [
  | true ↦ (st, input)
  | false ↦ absorb fuel (drop shake256_rate input) (keccakf1600 (absorb_block input st))
]

-- `block[i] ^= v`
abbrev xor_at : ℕ → ℕ → List ℕ → List ℕ
xor_at i v block = write_at i (bit_xor (get_or block i 0) v ∷ []) block

-- The last block, with the domain bits and the final bit of the padding.
pub pad : List ℕ → List ℕ
pad input =
    xor_at (shake256_rate - 1) 0x80
      (xor_at (length input) 0x1F (write_at 0 input (replicate shake256_rate 0)))

-- `store_le64(block + 8 * i, st[i])` for the 17 lanes of the rate
pub squeeze_block : ℕ → List ℕ → List ℕ
squeeze_block zero st = []
squeeze_block (suc left) [] = []
squeeze_block (suc left) (v ∷ st) = store_le64 v ++ squeeze_block left st

-- `while (output_len != 0U)`, with fuel for the blocks.
pub squeeze : ℕ → ℕ → List ℕ → List ℕ
squeeze zero output_len st = []
squeeze (suc fuel) output_len st = elim (ltb 0 output_len) [
  | true ↦
      let taken : ℕ = if ltb output_len shake256_rate then output_len else shake256_rate in
      take taken (squeeze_block 17 st) ++ (elim (ltb 0 (output_len - taken)) [
        | true ↦ squeeze fuel (output_len - taken) (keccakf1600 st)
        | false ↦ []
      ])
  | false ↦ []
]

-- The bytes that `fpst_shake256` writes at `output`.
unfoldable pub shake256 : List ℕ → ℕ → List ℕ
shake256 input output_len =
    let (st, rest) = absorb (length input) input (replicate 25 0) in
    squeeze output_len output_len (keccakf1600 (absorb_block (pad rest) st))

-- The published SHAKE256 digest of the empty input, its first 8 bytes.
shake256_empty : shake256 [] 8 ≡ 0x46 ∷ 0xb9 ∷ 0xdd ∷ 0x2b ∷ 0x0b ∷ 0xa8 ∷ 0x8d ∷ 0x13 ∷ []
unfolding shake256 absorb absorb_block pad squeeze squeeze_block store_le64 load_le64 load_le64_loop
    tabulate keccakf1600 keccak_rounds keccak_round theta rho_pi chi iota rol64
shake256_empty = refl
