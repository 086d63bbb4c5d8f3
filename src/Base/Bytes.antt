-- ===== src/Base/Bytes.antt =====
-- Arrays of bytes: every element is below 256.
use Prim.Native.Nat.{ℕ, zero, suc, ◌<◌, ◌%◌}
use mathlib.Core.List.{List, [], ◌∷◌, ◌++◌, map}
use native.Mathlib.Omega.{arith}
use fpga_pqc_secure_telemetr.Base.Lists.{replicate, take, drop, get_or, overlay, write_at}

abbrev pub IsBytes : List ℕ → Type 0
IsBytes [] = Unit
IsBytes (x ∷ xs) = (x < 256) × IsBytes xs

-- `(uint8_t)x`
abbrev pub to_byte : ℕ → ℕ
to_byte x = x % 256

pub map-to_byte-IsBytes : (xs : List ℕ) → IsBytes (map to_byte xs)
map-to_byte-IsBytes [] = tt
map-to_byte-IsBytes (x ∷ xs) = (omega arith, map-to_byte-IsBytes xs)

pub append-IsBytes : (xs ys : List ℕ) → IsBytes xs → IsBytes ys → IsBytes (xs ++ ys)
append-IsBytes [] ys hx hy = hy
append-IsBytes (x ∷ xs) ys hx hy = (hx.0, append-IsBytes xs ys hx.1 hy)

pub take-IsBytes : (n : ℕ) (xs : List ℕ) → IsBytes xs → IsBytes (take n xs)
take-IsBytes zero xs h = tt
take-IsBytes (suc n) [] h = tt
take-IsBytes (suc n) (x ∷ xs) h = (h.0, take-IsBytes n xs h.1)

pub drop-IsBytes : (n : ℕ) (xs : List ℕ) → IsBytes xs → IsBytes (drop n xs)
drop-IsBytes zero xs h = h
drop-IsBytes (suc n) [] h = tt
drop-IsBytes (suc n) (x ∷ xs) h = drop-IsBytes n xs h.1

pub get_or-lt : (xs : List ℕ) (i : ℕ) → IsBytes xs → get_or xs i 0 < 256
get_or-lt [] i h = omega arith
get_or-lt (x ∷ xs) zero h = h.0
get_or-lt (x ∷ xs) (suc i) h = get_or-lt xs i h.1

pub overlay-IsBytes : (src buf : List ℕ) → IsBytes src → IsBytes buf → IsBytes (overlay src buf)
overlay-IsBytes [] buf hs hb = hb
overlay-IsBytes (x ∷ src) [] hs hb = tt
overlay-IsBytes (x ∷ src) (b ∷ buf) hs hb = (hs.0, overlay-IsBytes src buf hs.1 hb.1)

pub write_at-IsBytes :
    (k : ℕ) (src buf : List ℕ) → IsBytes src → IsBytes buf → IsBytes (write_at k src buf)
write_at-IsBytes zero src buf hs hb = overlay-IsBytes src buf hs hb
write_at-IsBytes (suc k) src [] hs hb = tt
write_at-IsBytes (suc k) src (b ∷ buf) hs hb = (hb.0, write_at-IsBytes k src buf hs hb.1)

pub replicate-IsBytes : (n : ℕ) → IsBytes (replicate n 0)
replicate-IsBytes zero = tt
replicate-IsBytes (suc n) = (omega arith, replicate-IsBytes n)
