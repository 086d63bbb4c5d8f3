-- ===== src/Codec/Laws.antt =====
-- Round trips of the big-endian codec, in both directions, and its bounds.
use fpga_pqc_secure_telemetr.Base.{
  ℕ, ◌^◌, ◌<◌, ◌≡◌, refl, List, [], ◌∷◌, ◌++◌, arith, length, IsBytes, get_or, get_or-lt, sym, ap,
  ◌∙◌,
}
use fpga_pqc_secure_telemetr.Codec.{
  load_be16, load_be32, load_be64, store_be16, store_be32, store_be64,
}

pub load_be16-store_be16 :
    (v : ℕ) (rest : List ℕ) → v < 2 ^ 16 → load_be16 (store_be16 v ++ rest) ≡ v
unfolding load_be16 store_be16
load_be16-store_be16 v rest h = omega arith

pub load_be32-store_be32 :
    (v : ℕ) (rest : List ℕ) → v < 2 ^ 32 → load_be32 (store_be32 v ++ rest) ≡ v
unfolding load_be32 store_be32
load_be32-store_be32 v rest h = omega arith

pub load_be32-store_be32_end : (v : ℕ) → v < 2 ^ 32 → load_be32 (store_be32 v) ≡ v
unfolding load_be32 store_be32
load_be32-store_be32_end v h = omega arith

pub load_be64-store_be64 :
    (v : ℕ) (rest : List ℕ) → v < 2 ^ 64 → load_be64 (store_be64 v ++ rest) ≡ v
unfolding load_be64 store_be64
load_be64-store_be64 v rest h = omega arith

pub load_be16-lt : (p : List ℕ) → load_be16 p < 2 ^ 16
unfolding load_be16
load_be16-lt p = omega arith

pub load_be32-lt : (p : List ℕ) → load_be32 p < 2 ^ 32
unfolding load_be32
load_be32-lt p = omega arith

pub length-store_be16 : (v : ℕ) → length (store_be16 v) ≡ 2
unfolding store_be16
length-store_be16 v = refl

pub length-store_be32 : (v : ℕ) → length (store_be32 v) ≡ 4
unfolding store_be32
length-store_be32 v = refl

pub length-store_be64 : (v : ℕ) → length (store_be64 v) ≡ 8
unfolding store_be64
length-store_be64 v = refl

pub store_be16-IsBytes : (v : ℕ) → IsBytes (store_be16 v)
unfolding store_be16
store_be16-IsBytes v = omega arith

pub store_be32-IsBytes : (v : ℕ) → IsBytes (store_be32 v)
unfolding store_be32
store_be32-IsBytes v = omega arith

pub store_be64-IsBytes : (v : ℕ) → IsBytes (store_be64 v)
unfolding store_be64
store_be64-IsBytes v = omega arith

-- Storing what was loaded gives the bytes back.
pub store_be16-load_be16 :
    (a b : ℕ) (rest : List ℕ)
    → a < 256
    → b < 256
    → store_be16 (load_be16 (a ∷ b ∷ rest)) ≡ a ∷ b ∷ []
unfolding load_be16 store_be16
store_be16-load_be16 a b rest ha hb = ground arith

pub store_be32-load_be32 :
    (a b c d : ℕ)
    → a < 256
    → b < 256
    → c < 256
    → d < 256
    → store_be32 (load_be32 (a ∷ b ∷ c ∷ d ∷ [])) ≡ a ∷ b ∷ c ∷ d ∷ []
unfolding load_be32 store_be32
store_be32-load_be32 a b c d ha hb hc hd = ground arith

four_elements :
    (p : List ℕ) → length p ≡ 4 → p ≡ get_or p 0 0 ∷ get_or p 1 0 ∷ get_or p 2 0 ∷ get_or p 3 0 ∷ []
four_elements [] e = absurd (omega arith)
four_elements (a ∷ []) e = absurd (omega arith)
four_elements (a ∷ b ∷ []) e = absurd (omega arith)
four_elements (a ∷ b ∷ c ∷ []) e = absurd (omega arith)
four_elements (a ∷ b ∷ c ∷ d ∷ []) e = refl
four_elements (a ∷ b ∷ c ∷ d ∷ x ∷ p) e = absurd (omega arith)

-- Four bytes are the encoding of the number that they are read as.
pub store_be32-load_be32_list :
    (p : List ℕ) → length p ≡ 4 → IsBytes p → store_be32 (load_be32 p) ≡ p
store_be32-load_be32_list p e b = rw (four_elements p e) (
    store_be32-load_be32 (get_or p 0 0) (get_or p 1 0) (get_or p 2 0) (get_or p 3 0)
      (get_or-lt p 0 b) (get_or-lt p 1 b) (get_or-lt p 2 b) (get_or-lt p 3 b))

pub load_be32-injective :
    (p q : List ℕ)
    → length p ≡ 4
    → length q ≡ 4
    → IsBytes p
    → IsBytes q
    → load_be32 p ≡ load_be32 q
    → p ≡ q
load_be32-injective p q ep eq bp bq h =
    sym (store_be32-load_be32_list p ep bp) ∙ ap store_be32 h ∙ store_be32-load_be32_list q eq bq
