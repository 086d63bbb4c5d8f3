-- ===== src/Kdf.antt =====
-- src/fpst_kdf.c: the traffic key and nonce prefix of a session. Wiping the input buffer is not
-- modelled: it is a local of the function.
use fpga_pqc_secure_telemetr.Base.{ℕ, List, [], ◌∷◌, ◌++◌, length, ◌≡◌}
use fpga_pqc_secure_telemetr.Codec.{store_be32}
use fpga_pqc_secure_telemetr.Sha3.{shake256}
use fpga_pqc_secure_telemetr.Sha3.Output.{length-shake256}

-- fpst_traffic_context_t
pub record TrafficContext : Type 0 where
  pub k_tx : List ℕ
  pub np_tx : List ℕ

-- "FPST-KDF-V1"
abbrev kdf_domain : List ℕ
kdf_domain = 0x46 ∷ 0x50 ∷ 0x53 ∷ 0x54 ∷ 0x2D ∷ 0x4B ∷ 0x44 ∷ 0x46 ∷ 0x2D ∷ 0x56 ∷ 0x31 ∷ []

pub kdf_input : ℕ → List ℕ → ℕ → List ℕ
kdf_input label shared_secret session_id =
    kdf_domain ++ (label ∷ (shared_secret ++ store_be32 session_id))

unfoldable pub kdf_derive_tx : List ℕ → ℕ → TrafficContext
kdf_derive_tx shared_secret session_id = record {
  k_tx = shake256 (kdf_input 0x01 shared_secret session_id) 16;
  np_tx = shake256 (kdf_input 0x02 shared_secret session_id) 8;
}

-- The key has 16 bytes and the nonce prefix 8.
pub length-kdf_derive_tx :
    (ss : List ℕ) (sid : ℕ)
    → (length (kdf_derive_tx ss sid).k_tx ≡ 16) × (length (kdf_derive_tx ss sid).np_tx ≡ 8)
unfolding kdf_derive_tx
length-kdf_derive_tx ss sid = (length-shake256 _ 16, length-shake256 _ 8)
