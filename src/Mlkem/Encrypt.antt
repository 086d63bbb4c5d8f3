-- ===== src/Mlkem/Encrypt.antt =====
-- src/fpst_mlkem512_lowram.c: the serialized schedule computes the encryption of the reference.
use fpga_pqc_secure_telemetr.Base.{
  ℕ, ◌+◌, ◌*◌, ◌≡◌, refl, ap, ◌∙◌, List, [], ◌∷◌, ◌++◌, take, drop, write_at,
}
use fpga_pqc_secure_telemetr.Mlkem.{Polyvec, Workspace, Kem, backend_progress}
use fpga_pqc_secure_telemetr.Mlkem.Lowram.{
  Native, Place, write_ciphertext, multiply_row, generate_transposed_matrix_row, encrypt_row,
  encrypt_message, sample_sp, indcpa_encrypt_lowram, polyvec_bytes,
}
use fpga_pqc_secure_telemetr.Mlkem.Reference.{
  Memory, memory, progress-memory, write-memory, workspace-memory,
}

module _ (native : Native) where
  -- `work` for the row and `sp` of a workspace.
  abbrev multiplied : Memory → Memory
  multiplied m = record m {
    workspace = record m.workspace {
      work = native.poly_invntt_tomont (
          native.polyvec_basemul_acc_montgomery_cached m.workspace.row m.workspace.sp
            m.workspace.sp_cache);
    };
  }

  abbrev row_of : List ℕ → ℕ → Polyvec
  row_of public_seed i =
      let entry = λ (j : ℕ). native.poly_rej_uniform (take 32 public_seed ++ i ∷ j ∷ []) in
      (entry 0, entry 1)

  abbrev with_row : Polyvec → Memory → Memory
  with_row row m = record m { workspace = record m.workspace { row = row } }

  -- The rest of a row behind the product, with its noise.
  abbrev row_end : List ℕ → ℕ → Memory → Memory
  row_end noise_seed i m =
      let noise = native.poly_getnoise_eta2 noise_seed (2 + i) in
      let work = native.poly_reduce (native.poly_add m.workspace.work noise) in
      record m {
        buffer = write_at (i * 320) (native.poly_compress_du work) m.buffer;
        workspace = record m.workspace { row = (noise, m.workspace.row.1); work = work };
      }

  abbrev message_end : List ℕ → List ℕ → Memory → Memory
  message_end message noise_seed m =
      let noise = native.poly_getnoise_eta2 noise_seed 4 in
      let coded = native.poly_frommsg message in
      let work =
        native.poly_reduce (native.poly_add (native.poly_add m.workspace.work noise) coded) in
      record m {
        buffer = write_at 640 (native.poly_compress_dv work) m.buffer;
        workspace = record m.workspace { row = (noise, coded); work = work };
      }

  -- The whole schedule behind the transform, on the memory.
  abbrev pub scheduled : List ℕ → List ℕ → List ℕ → Memory → Memory
  scheduled message public_key noise_seed m =
      let seed = drop polyvec_bytes public_key in
      let m0 = row_end noise_seed 0 (multiplied (with_row (row_of seed 0) m)) in
      let m1 = row_end noise_seed 1 (multiplied (with_row (row_of seed 1) m0)) in
      message_end message noise_seed
        (multiplied (with_row (native.polyvec_frombytes public_key) m1))

module _ {W : Type 0} (native : Native) (place : Place) where
  -- A write of a changed workspace's result, and the progress report after it.
  stored :
      (offset : ℕ) (src : List ℕ) (w : Workspace) (s : Kem W)
      → memory place
          (backend_progress (write_ciphertext place offset src (record s { workspace = w })))
        ≡ record (memory place s) {
          buffer = write_at offset src (memory place s).buffer;
          workspace = w;
        }
  stored offset src w s =
      progress-memory place _
      ∙ (write-memory place offset src _
          ∙ ap (λ (m : Memory). record m { buffer = write_at offset src m.buffer })
              (workspace-memory place w s))

  multiply-memory :
      (s : Kem W) → memory place (multiply_row native s) ≡ multiplied native (memory place s)
  unfolding multiply_row memory
  multiply-memory s = progress-memory place _ ∙ workspace-memory place _ s

  row-memory :
      (public_seed noise_seed : List ℕ) (i : ℕ) (s : Kem W)
      → memory place (encrypt_row native place public_seed noise_seed i s)
        ≡ row_end native noise_seed i
            (multiplied native (with_row native (row_of native public_seed i) (memory place s)))
  unfolding encrypt_row generate_transposed_matrix_row memory
  row-memory public_seed noise_seed i s =
      stored (i * 320) _ _
        (multiply_row native (generate_transposed_matrix_row native public_seed i s))
      ∙ ap (row_end native noise_seed i) (
          multiply-memory (generate_transposed_matrix_row native public_seed i s)
          ∙ ap (multiplied native)
              (progress-memory place _ ∙ (progress-memory place _ ∙ workspace-memory place _ s)))

  message-memory :
      (message public_key noise_seed : List ℕ) (s : Kem W)
      → memory place (encrypt_message native place message public_key noise_seed s)
        ≡ message_end native message noise_seed (
            multiplied native
              (with_row native (native.polyvec_frombytes public_key) (memory place s)))
  unfolding encrypt_message memory
  message-memory message public_key noise_seed s =
      let t = record s {
        workspace = record s.workspace { row = native.polyvec_frombytes public_key };
      } in
      stored 640 _ _ (multiply_row native t)
      ∙ ap (message_end native message noise_seed)
          (multiply-memory t ∙ ap (multiplied native) (workspace-memory place _ s))

  pub encrypt-memory :
      (message public_key noise_seed : List ℕ) (s : Kem W)
      → memory place (indcpa_encrypt_lowram native place message public_key noise_seed s)
        ≡ scheduled native message public_key noise_seed
            (memory place (sample_sp native noise_seed s))
  unfolding indcpa_encrypt_lowram
  encrypt-memory message public_key noise_seed s =
      rw
        (
          message-memory message public_key noise_seed _,
          row-memory (drop polyvec_bytes public_key) noise_seed 1 _,
          row-memory (drop polyvec_bytes public_key) noise_seed 0 _,
        )
        refl
