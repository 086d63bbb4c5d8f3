-- ===== src/Mlkem/Reference.antt =====
-- src/fpst_mlkem512_lowram.c: the encryption of FIPS 203 with all its objects at once, and what one
-- step of the serialized schedule does to the memory that matters.
use fpga_pqc_secure_telemetr.Base.{
  ℕ, ◌+◌, ◌≡◌, refl, ap, sym, Bool, List, [], ◌∷◌, ◌++◌, take, drop, length, write_at, zero, suc,
  option-cases,
}
use native.Mathlib.Nat.{zero-add, suc-add}
use fpga_pqc_secure_telemetr.Result.{Status}
use fpga_pqc_secure_telemetr.Session.{cell_a, cell_b, cell}
use fpga_pqc_secure_telemetr.Mlkem.{
  Poly, Polyvec, Workspace, Kem, backend_progress, session_prefix_bytes, public_key_bytes,
}
use fpga_pqc_secure_telemetr.Mlkem.Lowram.{
  Native, Place, caller, scratch, write_ciphertext, sym_bytes, polyvec_bytes,
}

module _ (native : Native) where
  -- The sampled vector, before its transform.
  unfoldable pub sampled : List ℕ → Polyvec
  sampled noise_seed =
      let poly = λ (nonce : ℕ).
        native.poly_cbd3 (native.prf_eta1 (take sym_bytes noise_seed ++ nonce ∷ [])) in
      (poly 0, poly 1)

  -- One entry of the transposed matrix.
  unfoldable pub matrix : List ℕ → ℕ → Polyvec
  matrix public_key i =
      let seed = take sym_bytes (drop polyvec_bytes public_key) in
      let entry = λ (j : ℕ). native.poly_rej_uniform (seed ++ i ∷ j ∷ []) in (entry 0, entry 1)

  unfoldable pub product : Polyvec → Polyvec → Poly
  product row sp =
      native.poly_invntt_tomont
        (native.polyvec_basemul_acc_montgomery_cached row sp (native.polyvec_mulcache_compute sp))

  -- The ciphertext for a transformed vector `sp`: `u` of two compressed polynomials, and `v`.
  unfoldable pub reference : List ℕ → List ℕ → List ℕ → Polyvec → List ℕ
  reference message public_key noise_seed sp =
      let u = λ (i : ℕ). native.poly_reduce (
        native.poly_add (product (matrix public_key i) sp)
          (native.poly_getnoise_eta2 noise_seed (2 + i))) in
      let v = native.poly_reduce (
        native.poly_add
          (native.poly_add (product (native.polyvec_frombytes public_key) sp)
            (native.poly_getnoise_eta2 noise_seed 4))
          (native.poly_frommsg message)) in
      native.poly_compress_du (u 0) ++ (native.poly_compress_du (u 1) ++ native.poly_compress_dv v)

  -- The hash of the message and the key: the shared secret, and the noise seed.
  unfoldable pub hashed : List ℕ → List ℕ → List ℕ
  hashed public_key coins =
      native.hash_g (take sym_bytes coins ++ native.hash_h (take public_key_bytes public_key))

-- The output sizes of these primitives in FIPS 203, for ML-KEM-512.
pub record IsSized (native : Native) : Type 0 where
  pub compress_du : (p : Poly) → length (native.poly_compress_du p) ≡ 320
  pub compress_dv : (p : Poly) → length (native.poly_compress_dv p) ≡ 128
  pub hash_g : (bytes : List ℕ) → length (native.hash_g bytes) ≡ 64

-- The buffer of the ciphertext, the workspace, the latched error and the shared secret.
pub record Memory : Type 0 where
  pub buffer : List ℕ
  pub workspace : Workspace
  pub error : Status
  pub secret : List ℕ

write_at-nil : (offset : ℕ) (src : List ℕ) → write_at offset src [] ≡ []
write_at-nil zero [] = refl
write_at-nil zero (x ∷ src) = refl
write_at-nil (suc offset) src = refl

drop_write :
    (k offset : ℕ) (src buf : List ℕ)
    → drop k (write_at (k + offset) src buf) ≡ write_at offset src (drop k buf)
drop_write zero offset src buf = rw zero-add refl
drop_write (suc k) offset src [] = rw suc-add (sym (write_at-nil offset src))
drop_write (suc k) offset src (b ∷ buf) = rw suc-add (drop_write k offset src buf)

module _ {W : Type 0} where
  unfoldable pub buffer_at : Place → Kem W → List ℕ
  buffer_at caller s = s.ciphertext
  buffer_at (scratch ref) s = drop session_prefix_bytes (cell ref s.machine).response_buf

  unfoldable pub memory : Place → Kem W → Memory
  memory place s = record {
    buffer = buffer_at place s;
    workspace = s.workspace;
    error = s.backend_error;
    secret = s.shared_secret;
  }

  pub progress-memory :
      (place : Place) (s : Kem W) → memory place (backend_progress s) ≡ memory place s
  unfolding memory buffer_at backend_progress
  progress-memory caller s =
      option-cases (λ (t : Kem W). memory caller t ≡ memory caller s) s.primer1_link _ _ (λ _. refl)
        (λ _ _. refl)
  progress-memory (scratch cell_a) s =
      option-cases (λ (t : Kem W). memory (scratch cell_a) t ≡ memory (scratch cell_a) s)
        s.primer1_link _ _ (λ _. refl) (λ _ _. refl)
  progress-memory (scratch cell_b) s =
      option-cases (λ (t : Kem W). memory (scratch cell_b) t ≡ memory (scratch cell_b) s)
        s.primer1_link _ _ (λ _. refl) (λ _ _. refl)

  pub write-memory :
      (place : Place) (offset : ℕ) (src : List ℕ) (s : Kem W)
      → memory place (write_ciphertext place offset src s)
        ≡ record (memory place s) { buffer = write_at offset src (memory place s).buffer }
  unfolding memory buffer_at write_ciphertext
  write-memory caller offset src s = refl
  write-memory (scratch cell_a) offset src s =
      ap (λ (b : List ℕ). record (memory (scratch cell_a) s) { buffer = b })
        (drop_write session_prefix_bytes offset src s.machine.link_a.response_buf)
  write-memory (scratch cell_b) offset src s =
      ap (λ (b : List ℕ). record (memory (scratch cell_b) s) { buffer = b })
        (drop_write session_prefix_bytes offset src s.machine.link_b.response_buf)

  pub workspace-memory :
      (place : Place) (w : Workspace) (s : Kem W)
      → memory place (record s { workspace = w }) ≡ record (memory place s) { workspace = w }
  unfolding memory buffer_at
  workspace-memory caller w s = refl
  workspace-memory (scratch ref) w s = refl

  -- The end of a successful run.
  pub end-memory :
      (place : Place) (secret : List ℕ) (w : Workspace) (busy : Bool) (s : Kem W)
      → memory place (record s { shared_secret = secret; workspace = w; workspace_busy = busy })
        ≡ record (memory place s) { workspace = w; secret = secret }
  unfolding memory buffer_at
  end-memory caller secret w busy s = refl
  end-memory (scratch ref) secret w busy s = refl
