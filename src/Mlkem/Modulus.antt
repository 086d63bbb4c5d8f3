-- ===== src/Mlkem/Modulus.antt =====
-- src/fpst_mlkem512_lowram.c: the modulus check of FIPS 203 on an encoded public key, against a
-- decoding of the key as one number.
use fpga_pqc_secure_telemetr.Base.{
  ℕ, zero, suc, ◌+◌, ◌*◌, ◌/◌, ◌%◌, ◌<◌, ◌≡◌, refl, ap₂, arith, Bool, true, false, ◌&&◌, ◌||◌, List,
  [], ◌∷◌, get_or, get_or-lt, drop, IsBytes, drop-IsBytes, leb, ltb, not,
}
use fpga_pqc_secure_telemetr.Primer1.Pqc.{pqc_modulus}
use fpga_pqc_secure_telemetr.Mlkem.Lowram.{packed_invalid, modulus_loop, public_key_modulus_check}

-- A byte string as a number, the first byte the lowest.
unfoldable pub le_value : List ℕ → ℕ
le_value [] = 0
le_value (b ∷ bytes) = b + 256 * le_value bytes

-- The lowest `n` groups of 12 bits: ByteDecode of FIPS 203, without the reduction.
unfoldable pub coefficients : ℕ → ℕ → List ℕ
coefficients zero value = []
coefficients (suc n) value = value % 4096 ∷ coefficients n (value / 4096)

unfoldable pub all_below : ℕ → List ℕ → Bool
all_below bound [] = true
all_below bound (c ∷ cs) = ltb c bound && all_below bound cs

abbrev double : ℕ → ℕ
double zero = zero
double (suc n) = suc (suc (double n))

le_value_group :
    (pk : List ℕ)
    → le_value pk
      ≡ get_or pk 0 0
        + 256 * get_or pk 1 0
        + 65536 * get_or pk 2 0
        + 16777216 * le_value (drop 3 pk)
unfolding le_value
le_value_group [] = refl
le_value_group (a ∷ []) = omega arith
le_value_group (a ∷ b ∷ []) = omega arith
le_value_group (a ∷ b ∷ c ∷ rest) = omega arith

leb-ltb : (c : ℕ) → leb pqc_modulus c ≡ not (ltb c pqc_modulus)
leb-ltb c = ground arith

join :
    (invalid x y rest : Bool)
    → ((invalid || (not x || not y)) || not rest) ≡ (invalid || not (x && (y && rest)))
join true x y rest = refl
join false true true rest = refl
join false true false rest = refl
join false false y rest = refl

-- One round decides on the two lowest coefficients.
group_invalid :
    (b0 b1 b2 rest : ℕ)
    → b0 < 256
    → b1 < 256
    → b2 < 256
    → let value = b0 + 256 * b1 + 65536 * b2 + 16777216 * rest in
      (packed_invalid b0 b1 b2
        ≡ (not (ltb (value % 4096) pqc_modulus) || not (ltb (value / 4096 % 4096) pqc_modulus)))
      × (value / 4096 / 4096 ≡ rest)
unfolding packed_invalid
group_invalid b0 b1 b2 rest h0 h1 h2 =
    let value = b0 + 256 * b1 + 65536 * b2 + 16777216 * rest in
    let low : value % 4096 ≡ b0 + b1 % 16 * 256 = omega arith in
    let high : value / 4096 % 4096 ≡ b1 / 16 + b2 * 16 = omega arith in
    let up : value / 4096 / 4096 ≡ rest = omega arith in
    (rw (low, high) (ap₂ ◌||◌ (leb-ltb (b0 + b1 % 16 * 256)) (leb-ltb (b1 / 16 + b2 * 16))), up)

modulus_loop_lem :
    (n : ℕ) (pk : List ℕ) (invalid : Bool)
    → IsBytes pk
    → modulus_loop n pk invalid
      ≡ (invalid || not (all_below pqc_modulus (coefficients (double n) (le_value pk))))
unfolding modulus_loop coefficients all_below
modulus_loop_lem zero pk invalid h = ground arith
modulus_loop_lem (suc n) pk invalid h =
    let b0 = get_or pk 0 0 in
    let b1 = get_or pk 1 0 in
    let b2 = get_or pk 2 0 in
    let rest = le_value (drop 3 pk) in
    let value = b0 + 256 * b1 + 65536 * b2 + 16777216 * rest in
    let (here, up) =
      group_invalid b0 b1 b2 rest (get_or-lt pk 0 h) (get_or-lt pk 1 h) (get_or-lt pk 2 h) in
    rw
      (
        modulus_loop_lem n (drop 3 pk) (invalid || packed_invalid b0 b1 b2) (drop-IsBytes 3 pk h),
        here,
        le_value_group pk,
        up,
      )
      (join invalid (ltb (value % 4096) pqc_modulus) (ltb (value / 4096 % 4096) pqc_modulus)
        (all_below pqc_modulus (coefficients (double n) rest)))

double_negation : (b : Bool) → not (not b) ≡ b
double_negation true = refl
double_negation false = refl

-- On a public key of bytes, the modulus check over groups of three bytes accepts exactly when all
-- 512 coefficients of the key, read as 12-bit digits of one little-endian number, are below the
-- modulus.
pub modulus_check-reference :
    (pk : List ℕ)
    → IsBytes pk
    → public_key_modulus_check pk ≡ all_below pqc_modulus (coefficients 512 (le_value pk))
unfolding public_key_modulus_check
modulus_check-reference pk h =
    rw (modulus_loop_lem 256 pk false h)
      (double_negation (all_below pqc_modulus (coefficients 512 (le_value pk))))
