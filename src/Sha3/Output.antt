-- ===== src/Sha3/Output.antt =====
-- SHAKE256 gives as many bytes as it is asked for, and its loops have enough fuel.
use fpga_pqc_secure_telemetr.Base.{
  ℕ, zero, suc, ◌+◌, ◌-◌, ◌*◌, ◌≤◌, ◌<◌, ◌≡◌, refl, ap, ◌∙◌, List, [], ◌∷◌, length, take, drop,
  replicate, arith, length-append, length-take, length-drop, length-write_at, ltb, ltb→lt, ltb→le,
  Bool-cases, Bool, true, false, inl, inr, bit_xor, get_or, if◌then◌else◌,
}
use native.Mathlib.Decide.{dec_lt}
use fpga_pqc_secure_telemetr.Sha3.{
  shake256, tabulate, store_le64, squeeze, squeeze_block, keccakf1600, keccak_rounds, keccak_round,
  iota, chi, round_constants, absorb, absorb_block, pad, shake256_rate,
}

length-tabulate : (n i : ℕ) (f : ℕ → ℕ) → length (tabulate n i f) ≡ n
unfolding tabulate
length-tabulate zero i f = refl
length-tabulate (suc n) i f = ap suc (length-tabulate n (i + 1) f)

length-iota : (round : ℕ) (st : List ℕ) → length (iota round st) ≡ length st
unfolding iota
length-iota round st =
    length-write_at 0 (bit_xor (get_or st 0 0) (get_or round_constants round 0) ∷ []) st

length-chi : (b : List ℕ) → length (chi b) ≡ 25
unfolding chi
length-chi b = length-tabulate 25 0 _

length-keccak_round : (round : ℕ) (st : List ℕ) → length (keccak_round round st) ≡ 25
unfolding keccak_round
length-keccak_round round st = length-iota round _ ∙ length-chi _

length-keccak_rounds :
    (left round : ℕ) (st : List ℕ) → length (keccak_rounds (suc left) round st) ≡ 25
unfolding keccak_rounds
length-keccak_rounds zero round st = length-keccak_round round st
length-keccak_rounds (suc left) round st =
    length-keccak_rounds left (round + 1) (keccak_round round st)

length-keccakf1600 : (st : List ℕ) → length (keccakf1600 st) ≡ 25
unfolding keccakf1600
length-keccakf1600 st = length-keccak_rounds 23 0 st

length-store_le64 : (v : ℕ) → length (store_le64 v) ≡ 8
unfolding store_le64
length-store_le64 v = length-tabulate 8 0 _

length-squeeze_block : (n : ℕ) (st : List ℕ) → n ≤ length st → length (squeeze_block n st) ≡ 8 * n
unfolding squeeze_block
length-squeeze_block zero st h = refl
length-squeeze_block (suc n) [] h = absurd (omega arith)
length-squeeze_block (suc n) (v ∷ st) h = omega (
  arith,
  length-append (store_le64 v) (squeeze_block n st),
  length-store_le64 v,
  length-squeeze_block n st (omega arith),
)

length-squeeze :
    (fuel n : ℕ) (st : List ℕ) → length st ≡ 25 → n ≤ fuel → length (squeeze fuel n st) ≡ n
unfolding squeeze
length-squeeze zero n st h hn = omega arith
length-squeeze (suc fuel) n st h hn =
    let taken : ℕ = if ltb n shake256_rate then n else shake256_rate in
    let block = squeeze_block 17 st in
    elim (dec_lt 0 n) [
      | yes some_left ↦ ground (
        arith,
        length-append (take taken block) (squeeze fuel (n - taken) (keccakf1600 st)),
        length-append (take taken block) [],
        length-take taken block,
        length-squeeze_block 17 st (omega arith),
        length-squeeze fuel (n - taken) (keccakf1600 st) (length-keccakf1600 st) (ground arith),
      )
      | no all_done ↦ ground arith
    ]

-- The digest has the length that was asked for, for any input.
pub length-shake256 : (input : List ℕ) (n : ℕ) → length (shake256 input n) ≡ n
unfolding shake256
length-shake256 input n =
    let absorbed = absorb (length input) input (replicate 25 0) in
    let st = absorb_block (pad absorbed.1) absorbed.0 in
    length-squeeze n n (keccakf1600 st) (length-keccakf1600 st) (omega arith)

absorb_step :
    (fuel : ℕ) (input st : List ℕ) (b : Bool)
    → ltb (length input) shake256_rate ≡ b
    → absorb (suc fuel) input st ≡ (
        if b
        then (st, input)
        else absorb fuel (drop shake256_rate input) (keccakf1600 (absorb_block input st)))
unfolding absorb
absorb_step fuel input st true e = rw (e, absorb)
absorb_step fuel input st false e = rw (e, absorb)

-- The input's loop consumes a block in each round: fuel for its bytes leaves less than a block.
pub absorb_rest :
    (fuel : ℕ) (input st : List ℕ)
    → length input ≤ fuel
    → length (absorb fuel input st).1 < shake256_rate
absorb_rest zero input st h = unfold absorb in omega arith
absorb_rest (suc fuel) input st h = elim (Bool-cases (ltb (length input) shake256_rate)) [
  | inl few ↦ rw (absorb_step fuel input st true few) (ltb→lt (length input) shake256_rate few)
  | inr many ↦ rw (absorb_step fuel input st false many) (
      absorb_rest fuel (drop shake256_rate input) (keccakf1600 (absorb_block input st))
        (omega (arith, length-drop shake256_rate input, ltb→le (length input) shake256_rate many)))
]
