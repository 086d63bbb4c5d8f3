-- ===== src/Base/Masks.antt =====
-- `&` and `|` at variables, from the lowest digit: what a mask keeps, clears and sets.
use Prim.Native.Nat.{ℕ, zero, suc, ◌+◌, ◌*◌, ◌/◌, ◌%◌, ◌^◌, ◌≤◌, bit_and, bit_or, min, max}
use Prim.Native.Nat.{digits, bit_and-bitwise, bit_or-bitwise}
use mathlib.Core.Path.{◌≡◌, refl, ap}
use native.Mathlib.Omega.{arith}
use native.Mathlib.Nat.{le_refl, pow-suc}

digits_fuel :
    (z : ℕ → ℕ) (f : ℕ → ℕ → ℕ) (n m a b : ℕ) → a ≤ n → a ≤ m → digits z f n a b ≡ digits z f m a b
digits_fuel z f zero zero a b p q = refl
digits_fuel z f zero (suc m) zero b p q = refl
digits_fuel z f zero (suc m) (suc a) b p q = absurd (omega arith)
digits_fuel z f (suc n) zero zero b p q = refl
digits_fuel z f (suc n) zero (suc a) b p q = absurd (omega arith)
digits_fuel z f (suc n) (suc m) zero b p q = refl
digits_fuel z f (suc n) (suc m) (suc a) b p q =
    rw (digits_fuel z f n m (suc a / 2) (b / 2) (omega arith) (omega arith))

pub bit_and_step : (a b : ℕ) → bit_and a b ≡ bit_and (a / 2) (b / 2) * 2 + min (a % 2) (b % 2)
bit_and_step zero b = omega (arith, bit_and-bitwise 0 b, bit_and-bitwise 0 (b / 2))
bit_and_step (suc a) b = omega (
  arith,
  bit_and-bitwise (suc a) b,
  bit_and-bitwise (suc a / 2) (b / 2),
  digits_fuel (λ y. zero) min a (suc a / 2) (suc a / 2) (b / 2) (omega arith) (le_refl _),
)

pub bit_or_step : (a b : ℕ) → bit_or a b ≡ bit_or (a / 2) (b / 2) * 2 + max (a % 2) (b % 2)
bit_or_step zero b = omega (arith, bit_or-bitwise 0 b, bit_or-bitwise 0 (b / 2))
bit_or_step (suc a) b = omega (
  arith,
  bit_or-bitwise (suc a) b,
  bit_or-bitwise (suc a / 2) (b / 2),
  digits_fuel (λ y. y) max a (suc a / 2) (suc a / 2) (b / 2) (omega arith) (le_refl _),
)

bit_and_zero_fuel : (n a : ℕ) → a ≤ n → bit_and a 0 ≡ 0
bit_and_zero_fuel zero zero h = refl
bit_and_zero_fuel zero (suc a) h = absurd (omega arith)
bit_and_zero_fuel (suc n) zero h = refl
bit_and_zero_fuel (suc n) (suc a) h =
    omega (arith, bit_and_step (suc a) 0, bit_and_zero_fuel n (suc a / 2) (omega arith))

pub bit_and_zero : (a m : ℕ) → m ≡ 0 → bit_and a m ≡ 0
bit_and_zero a m h = rw h (bit_and_zero_fuel a a (le_refl a))

and_halve : (a b : ℕ) → bit_and a b / 2 ≡ bit_and (a / 2) (b / 2)
and_halve a b = omega (arith, bit_and_step a b)

or_halve : (a b : ℕ) → bit_or a b / 2 ≡ bit_or (a / 2) (b / 2)
or_halve a b = omega (arith, bit_or_step a b)

-- `c` is `~m` in `k` bits.
abbrev pub IsComplement : ℕ → ℕ → ℕ → Type 0
IsComplement k c m = c + m + 1 ≡ 2 ^ k

half-IsComplement : (k c m : ℕ) → IsComplement (suc k) c m → IsComplement k (c / 2) (m / 2)
half-IsComplement k c m h = omega (arith, pow-suc 2 k)

-- `x & ~m` has no bit of `m`.
pub cleared : (k x c m : ℕ) → IsComplement k c m → bit_and (bit_and x c) m ≡ 0
cleared zero x c m h = bit_and_zero (bit_and x c) m (omega arith)
cleared (suc k) x c m h = omega (
  arith,
  pow-suc 2 k,
  bit_and_step (bit_and x c) m,
  bit_and_step x c,
  ap (λ (t : ℕ). bit_and t (m / 2)) (and_halve x c),
  cleared k (x / 2) (c / 2) (m / 2) (half-IsComplement k c m h),
)

-- `(x & ~m) | v` has the value `v` under the mask `m`, when `v` lies under `m`.
pub replaced :
    (k x c m v : ℕ) → IsComplement k c m → bit_and v m ≡ v → bit_and (bit_or (bit_and x c) v) m ≡ v
replaced zero x c m v h w =
    omega
      (arith, bit_and_zero (bit_or (bit_and x c) v) m (omega arith), bit_and_zero v m (omega arith))
replaced (suc k) x c m v h w = omega (
  arith,
  pow-suc 2 k,
  bit_and_step (bit_or (bit_and x c) v) m,
  bit_or_step (bit_and x c) v,
  bit_and_step x c,
  bit_and_step v m,
  ap (λ (t : ℕ). bit_and t (m / 2)) (or_halve (bit_and x c) v),
  ap (λ (t : ℕ). bit_and (bit_or t (v / 2)) (m / 2)) (and_halve x c),
  replaced k (x / 2) (c / 2) (m / 2) (v / 2) (half-IsComplement k c m h)
      (omega (arith, bit_and_step v m)),
)

-- `(x & ~m) | v` keeps the bits outside the mask, when `v` lies under it.
pub preserved :
    (k x c m v : ℕ)
    → IsComplement k c m
    → bit_and v c ≡ 0
    → bit_and (bit_or (bit_and x c) v) c ≡ bit_and x c
preserved zero x c m v h w =
    omega
      (arith, bit_and_zero (bit_or (bit_and x c) v) c (omega arith), bit_and_zero x c (omega arith))
preserved (suc k) x c m v h w = omega (
  arith,
  bit_and_step (bit_or (bit_and x c) v) c,
  bit_or_step (bit_and x c) v,
  bit_and_step x c,
  bit_and_step v c,
  ap (λ (t : ℕ). bit_and t (c / 2)) (or_halve (bit_and x c) v),
  ap (λ (t : ℕ). bit_and (bit_or t (v / 2)) (c / 2)) (and_halve x c),
  preserved k (x / 2) (c / 2) (m / 2) (v / 2) (half-IsComplement k c m h)
      (omega (arith, bit_and_step v c)),
)

-- A second `& ~m` changes nothing.
pub bit_and_again : (k x c m : ℕ) → IsComplement k c m → bit_and (bit_and x c) c ≡ bit_and x c
bit_and_again zero x c m h =
    omega (arith, bit_and_zero (bit_and x c) c (omega arith), bit_and_zero x c (omega arith))
bit_and_again (suc k) x c m h = omega (
  arith,
  bit_and_step (bit_and x c) c,
  bit_and_step x c,
  ap (λ (t : ℕ). bit_and t (c / 2)) (and_halve x c),
  bit_and_again k (x / 2) (c / 2) (m / 2) (half-IsComplement k c m h),
)
