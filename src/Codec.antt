-- ===== src/Codec.antt =====
-- The big-endian loads and stores of include/fpst_common.h. A pointer into an array is the suffix
-- of the list that it points at; `|` joins bytes into disjoint fields, so it is a sum.
pub mod Laws
use fpga_pqc_secure_telemetr.Base.{
  ℕ, zero, suc, ◌+◌, ◌-◌, ◌*◌, ◌/◌, ◌%◌, ◌^◌, List, [], ◌∷◌, get_or, to_byte,
}

unfoldable pub load_be16 : List ℕ → ℕ
load_be16 p = (get_or p 0 0 * 2 ^ 8 + get_or p 1 0) % 2 ^ 16

unfoldable pub load_be32 : List ℕ → ℕ
load_be32 p =
    (get_or p 0 0 * 2 ^ 24 + get_or p 1 0 * 2 ^ 16 + get_or p 2 0 * 2 ^ 8 + get_or p 3 0) % 2 ^ 32

-- `for (i = 0; i < 8; ++i) v = (v << 8) | p[i];` with the rounds left, `i` and `v`
load_be64_loop : ℕ → ℕ → ℕ → List ℕ → ℕ
load_be64_loop zero i v p = v
load_be64_loop (suc left) i v p = load_be64_loop left (i + 1) (v * 2 ^ 8 % 2 ^ 64 + get_or p i 0) p

unfoldable pub load_be64 : List ℕ → ℕ
unfolding load_be64_loop
load_be64 p = load_be64_loop 8 0 0 p

-- The bytes that a store writes at `p`.
unfoldable pub store_be16 : ℕ → List ℕ
store_be16 v = to_byte (v / 2 ^ 8) ∷ to_byte v ∷ []

unfoldable pub store_be32 : ℕ → List ℕ
store_be32 v = to_byte (v / 2 ^ 24) ∷ to_byte (v / 2 ^ 16) ∷ to_byte (v / 2 ^ 8) ∷ to_byte v ∷ []

-- `for (i = 0; i < 8; ++i) p[7 - i] = (uint8_t)(v >> (8 * i));`: each round writes in front of the
-- bytes written so far.
store_be64_loop : ℕ → ℕ → ℕ → List ℕ → List ℕ
store_be64_loop zero i v out = out
store_be64_loop (suc left) i v out =
    store_be64_loop left (i + 1) v (to_byte (v / 2 ^ (8 * i)) ∷ out)

unfoldable pub store_be64 : ℕ → List ℕ
unfolding store_be64_loop
store_be64 v = store_be64_loop 8 0 v []
