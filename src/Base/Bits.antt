-- ===== src/Base/Bits.antt =====
-- `^` (exclusive or) at variables, from its lowest digit: the facts that the checksum rests on.
use Prim.Native.Nat.{ℕ, zero, suc, ◌+◌, ◌*◌, ◌/◌, ◌%◌, ◌^◌, ◌≤◌, ◌<◌, bit_xor}
use Prim.Native.Nat.{digits, differ, bit_xor-bitwise}
use mathlib.Core.Path.{◌≡◌, refl, ap, ap₂, sym}
use native.Mathlib.Omega.{arith}
use native.Mathlib.Nat.{
  le_refl, pow-suc, div-div-eq-div-mul, div-eq_of_lt, div-one, one-le-pow, mul_comm,
}

xor_digits_fuel :
    (n m a b : ℕ) → a ≤ n → a ≤ m → digits (λ y. y) differ n a b ≡ digits (λ y. y) differ m a b
xor_digits_fuel zero zero a b p q = refl
xor_digits_fuel zero (suc m) zero b p q = refl
xor_digits_fuel zero (suc m) (suc a) b p q = absurd (omega arith)
xor_digits_fuel (suc n) zero zero b p q = refl
xor_digits_fuel (suc n) zero (suc a) b p q = absurd (omega arith)
xor_digits_fuel (suc n) (suc m) zero b p q = refl
xor_digits_fuel (suc n) (suc m) (suc a) b p q =
    rw (xor_digits_fuel n m (suc a / 2) (b / 2) (omega arith) (omega arith))

pub zero-bit_xor : (b : ℕ) → bit_xor 0 b ≡ b
zero-bit_xor b = bit_xor-bitwise 0 b

pub bit_xor_step : (a b : ℕ) → bit_xor a b ≡ bit_xor (a / 2) (b / 2) * 2 + differ (a % 2) (b % 2)
bit_xor_step zero b = omega (arith, zero-bit_xor b, zero-bit_xor (b / 2))
bit_xor_step (suc a) b = omega (
  arith,
  bit_xor-bitwise (suc a) b,
  bit_xor-bitwise (suc a / 2) (b / 2),
  xor_digits_fuel a (suc a / 2) (suc a / 2) (b / 2) (omega arith) (le_refl _),
)

differ-cases : (x y : ℕ) → x < 2 → y < 2 → differ x y ≡ (x + y) % 2
differ-cases zero y h k = omega arith
differ-cases (suc zero) zero h k = refl
differ-cases (suc zero) (suc zero) h k = refl
differ-cases (suc zero) (suc (suc y)) h k = absurd (omega arith)
differ-cases (suc (suc x)) y h k = absurd (omega arith)

pub bit_xor_halve : (a b : ℕ) → bit_xor a b / 2 ≡ bit_xor (a / 2) (b / 2)
bit_xor_halve a b =
    omega (arith, bit_xor_step a b, differ-cases (a % 2) (b % 2) (omega arith) (omega arith))

pub bit_xor_parity : (a b : ℕ) → bit_xor a b % 2 ≡ (a + b) % 2
bit_xor_parity a b =
    omega (arith, bit_xor_step a b, differ-cases (a % 2) (b % 2) (omega arith) (omega arith))

bit_xor-zero_fuel : (n a : ℕ) → a ≤ n → bit_xor a 0 ≡ a
bit_xor-zero_fuel n zero h = refl
bit_xor-zero_fuel zero (suc a) h = absurd (omega arith)
bit_xor-zero_fuel (suc n) (suc a) h = omega (
  arith,
  bit_xor_halve (suc a) 0,
  bit_xor_parity (suc a) 0,
  bit_xor-zero_fuel n (suc a / 2) (omega arith),
)

pub bit_xor-zero : (a : ℕ) → bit_xor a 0 ≡ a
bit_xor-zero a = bit_xor-zero_fuel a a (le_refl a)

-- A second `^` with the same mask takes the first one back.
bit_xor_twice_fuel : (n a b : ℕ) → a + b ≤ n → bit_xor (bit_xor a b) b ≡ a
bit_xor_twice_fuel n a zero h = omega (arith, bit_xor-zero (bit_xor a 0), bit_xor-zero a)
bit_xor_twice_fuel zero a (suc b) h = absurd (omega arith)
bit_xor_twice_fuel (suc n) a (suc b) h = omega (
  arith,
  bit_xor_halve (bit_xor a (suc b)) (suc b),
  bit_xor_parity (bit_xor a (suc b)) (suc b),
  bit_xor_parity a (suc b),
  ap (λ (t : ℕ). bit_xor t (suc b / 2)) (bit_xor_halve a (suc b)),
  bit_xor_twice_fuel n (a / 2) (suc b / 2) (omega arith),
)

pub bit_xor_twice : (a b : ℕ) → bit_xor (bit_xor a b) b ≡ a
bit_xor_twice a b = bit_xor_twice_fuel (a + b) a b (le_refl (a + b))

pub bit_xor_cancel : (a a' b : ℕ) → bit_xor a b ≡ bit_xor a' b → a ≡ a'
bit_xor_cancel a a' b h =
    omega (arith, bit_xor_twice a b, bit_xor_twice a' b, ap (λ (t : ℕ). bit_xor t b) h)

bit_xor_comm_fuel : (n a b : ℕ) → a + b ≤ n → bit_xor a b ≡ bit_xor b a
bit_xor_comm_fuel n zero b h = omega (arith, zero-bit_xor b, bit_xor-zero b)
bit_xor_comm_fuel zero (suc a) b h = absurd (omega arith)
bit_xor_comm_fuel (suc n) (suc a) b h = omega (
  arith,
  bit_xor_halve (suc a) b,
  bit_xor_halve b (suc a),
  bit_xor_parity (suc a) b,
  bit_xor_parity b (suc a),
  bit_xor_comm_fuel n (suc a / 2) (b / 2) (omega arith),
)

pub bit_xor_comm : (a b : ℕ) → bit_xor a b ≡ bit_xor b a
bit_xor_comm a b = bit_xor_comm_fuel (a + b) a b (le_refl (a + b))

pub shr_suc : (a k : ℕ) → a / 2 ^ suc k ≡ (a / 2) / 2 ^ k
shr_suc a k = rw (pow-suc 2 k, mul_comm (2 ^ k) 2) (sym (div-div-eq-div-mul a 2 (2 ^ k)))

pub bit_xor_shr : (k a b : ℕ) → bit_xor a b / 2 ^ k ≡ bit_xor (a / 2 ^ k) (b / 2 ^ k)
bit_xor_shr zero a b = omega (arith, ap₂ bit_xor (div-one a) (div-one b))
bit_xor_shr (suc k) a b =
    rw (shr_suc (bit_xor a b) k, shr_suc a k, shr_suc b k, bit_xor_halve a b)
      (bit_xor_shr k (a / 2) (b / 2))

-- `^` stays within the width of its operands.
pub bit_xor-lt : (k a b : ℕ) → a < 2 ^ k → b < 2 ^ k → bit_xor a b < 2 ^ k
bit_xor-lt k a b ha hb =
    ground (arith, bit_xor_shr k a b, div-eq_of_lt ha, div-eq_of_lt hb, one-le-pow k 2)
