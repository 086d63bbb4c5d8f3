-- ===== src/Mlkem/Lowram.antt =====
-- src/fpst_mlkem512_lowram.c: the encapsulation, one row at a time. The primitives of mlkem-native
-- are the fields of a parameter. A ciphertext goes to a buffer of the caller, or to the tail of a
-- link's response buffer, which the transform commands also use.
use fpga_pqc_secure_telemetr.Base.{
  ℕ, zero, suc, ◌+◌, ◌*◌, ◌/◌, ◌%◌, Bool, true, false, ◌||◌, List, [], ◌∷◌, ◌++◌, get_or, take,
  drop, replicate, write_at, leb, if◌then◌else◌, not,
}
use fpga_pqc_secure_telemetr.Result.{ok}
use fpga_pqc_secure_telemetr.Primer1.Pqc.{pqc_modulus}
use fpga_pqc_secure_telemetr.Session.{LinkRef, cell, on}
use fpga_pqc_secure_telemetr.Mlkem.{
  Poly, Polyvec, Workspace, Kem, Calls, zero_poly, ciphertext_bytes, shared_secret_bytes,
  public_key_bytes, session_prefix_bytes, backend_progress, run_calls,
}

-- What the code calls of mlkem-native. A Bool is whether the function returns 0.
pub record Native : Type 0 where
  pub prf_eta1 : List ℕ → List ℕ
  pub poly_cbd3 : List ℕ → Poly
  pub poly_rej_uniform : List ℕ → Poly
  pub polyvec_ntt : Polyvec → Calls Polyvec
  pub polyvec_mulcache_compute : Polyvec → Polyvec
  pub polyvec_basemul_acc_montgomery_cached : Polyvec → Polyvec → Polyvec → Poly
  pub poly_invntt_tomont : Poly → Poly
  pub poly_getnoise_eta2 : List ℕ → ℕ → Poly
  pub poly_add : Poly → Poly → Poly
  pub poly_reduce : Poly → Poly
  pub poly_compress_du : Poly → List ℕ
  pub poly_compress_dv : Poly → List ℕ
  pub polyvec_frombytes : List ℕ → Polyvec
  pub poly_frommsg : List ℕ → Poly
  pub hash_h : List ℕ → List ℕ
  pub hash_g : List ℕ → List ℕ
  pub keypair_derand : List ℕ → Calls (Bool × List ℕ × List ℕ)
  pub dec : List ℕ → List ℕ → Calls (Bool × List ℕ)

-- What a ciphertext pointer names.
pub data Place : Type 0 where
  caller : Place
  scratch : LinkRef → Place

abbrev pub polyvec_bytes : ℕ
polyvec_bytes = 768

abbrev pub sym_bytes : ℕ
sym_bytes = 32

-- MLKEM_POLYCOMPRESSEDBYTES_DU
abbrev pub compressed_bytes_du : ℕ
compressed_bytes_du = 320

abbrev pub zero_workspace : Workspace
zero_workspace = record {
  sp = (zero_poly, zero_poly);
  row = (zero_poly, zero_poly);
  sp_cache = (replicate 128 0, replicate 128 0);
  work = zero_poly;
}

-- The two coefficients in three bytes, and whether one of them is out of range.
unfoldable pub packed_invalid : ℕ → ℕ → ℕ → Bool
packed_invalid b0 b1 b2 =
    let c0 = b0 + b1 % 16 * 256 in
    let c1 = b1 / 16 + b2 * 16 in leb pqc_modulus c0 || leb pqc_modulus c1

-- The loop over `n` groups of three bytes, with `invalid` so far.
unfoldable pub modulus_loop : ℕ → List ℕ → Bool → Bool
modulus_loop zero pk invalid = invalid
modulus_loop (suc n) pk invalid =
    modulus_loop n (drop 3 pk)
      (invalid || packed_invalid (get_or pk 0 0) (get_or pk 1 0) (get_or pk 2 0))

-- Whether the check returns 0.
unfoldable pub public_key_modulus_check : List ℕ → Bool
public_key_modulus_check pk = not (modulus_loop 256 pk false)

module _ {W : Type 0} where
  -- A write of `src` from `offset` on into the ciphertext.
  unfoldable pub write_ciphertext : Place → ℕ → List ℕ → Kem W → Kem W
  write_ciphertext caller offset src s = record s { ciphertext = write_at offset src s.ciphertext }
  write_ciphertext (scratch ref) offset src s = record s {
    machine =
        (on ref
          (λ port. (
            ok tt,
            record port {
              link = record port.link {
                response_buf = write_at (session_prefix_bytes + offset) src port.link.response_buf;
              };
            },
          ))
          s.machine).1;
  }

  unfoldable pub ciphertext_at : Place → Kem W → List ℕ
  ciphertext_at caller s = take ciphertext_bytes s.ciphertext
  ciphertext_at (scratch ref) s =
      take ciphertext_bytes (drop session_prefix_bytes (cell ref s.machine).response_buf)

  unfoldable pub zero_ciphertext : Place → Kem W → Kem W
  zero_ciphertext place = write_ciphertext place 0 (replicate ciphertext_bytes 0)

  unfoldable pub zero_shared_secret : Kem W → Kem W
  zero_shared_secret s = record s {
    shared_secret = write_at 0 (replicate shared_secret_bytes 0) s.shared_secret;
  }

  -- The label `cleanup`.
  unfoldable pub cleanup : Place → Bool → Kem W → Bool × Kem W
  cleanup place succeeded s =
      let t = if succeeded then s else zero_shared_secret (zero_ciphertext place s) in
      (
        succeeded,
        backend_progress (record t { workspace = zero_workspace; workspace_busy = false }),
      )

module _ {W : Type 0} (native : Native) where
  unfoldable pub sample_eta1_scalar : List ℕ → ℕ → Kem W → Poly × Kem W
  sample_eta1_scalar seed nonce s =
      (native.poly_cbd3 (native.prf_eta1 (take sym_bytes seed ++ nonce ∷ [])), backend_progress s)

  -- One row of the transposed matrix, into the workspace.
  unfoldable pub generate_transposed_matrix_row : List ℕ → ℕ → Kem W → Kem W
  generate_transposed_matrix_row public_seed row_index s =
      let seed_ext = λ (column : ℕ). take sym_bytes public_seed ++ row_index ∷ column ∷ [] in
      let row : Polyvec =
        (native.poly_rej_uniform (seed_ext 0), native.poly_rej_uniform (seed_ext 1)) in
      backend_progress
        (backend_progress (record s { workspace = record s.workspace { row = row } }))

  -- `work`: the product of the row and `sp`, out of the transform domain.
  unfoldable pub multiply_row : Kem W → Kem W
  multiply_row s =
      let w = s.workspace in
      backend_progress (record s {
        workspace = record w {
          work =
              native.poly_invntt_tomont
                (native.polyvec_basemul_acc_montgomery_cached w.row w.sp w.sp_cache);
        };
      })

  -- The body of the loop over the rows.
  unfoldable pub encrypt_row : Place → List ℕ → List ℕ → ℕ → Kem W → Kem W
  encrypt_row place public_seed noise_seed row_index s =
      let t = multiply_row (generate_transposed_matrix_row public_seed row_index s) in
      let noise = native.poly_getnoise_eta2 noise_seed (2 + row_index) in
      let work = native.poly_reduce (native.poly_add t.workspace.work noise) in
      backend_progress (
        write_ciphertext place (row_index * compressed_bytes_du) (native.poly_compress_du work)
          (record t {
            workspace = record t.workspace { row = (noise, t.workspace.row.1); work = work };
          }))

  -- `v`, from the decoded public key.
  unfoldable pub encrypt_message : Place → List ℕ → List ℕ → List ℕ → Kem W → Kem W
  encrypt_message place message public_key noise_seed s =
      let t = multiply_row (record s {
        workspace = record s.workspace { row = native.polyvec_frombytes public_key };
      }) in
      let noise = native.poly_getnoise_eta2 noise_seed 4 in
      let coded = native.poly_frommsg message in
      let work =
        native.poly_reduce (native.poly_add (native.poly_add t.workspace.work noise) coded) in
      backend_progress (
        write_ciphertext place (2 * compressed_bytes_du) (native.poly_compress_dv work)
          (record t { workspace = record t.workspace { row = (noise, coded); work = work } }))

  -- `sp`, its transform by the hook, and its cache.
  unfoldable pub sample_sp : List ℕ → Kem W → Kem W
  sample_sp noise_seed s =
      let (sp0, t) = sample_eta1_scalar noise_seed 0 s in
      let (sp1, u) = sample_eta1_scalar noise_seed 1 t in
      let (sp, v) = run_calls (native.polyvec_ntt (sp0, sp1)) u in
      backend_progress (record v {
        workspace = record v.workspace { sp = sp; sp_cache = native.polyvec_mulcache_compute sp };
      })

  unfoldable pub indcpa_encrypt_lowram : Place → List ℕ → List ℕ → List ℕ → Kem W → Kem W
  indcpa_encrypt_lowram place message public_key noise_seed s =
      let public_seed = drop polyvec_bytes public_key in
      encrypt_message place message public_key noise_seed (
        encrypt_row place public_seed noise_seed 1
          (encrypt_row place public_seed noise_seed 0 (sample_sp noise_seed s)))

  -- `lowram_enc_derand` behind the modulus check. `buf` is the coins and the hash of the key, `kr`
  -- the shared secret and the noise seed.
  unfoldable pub encrypt_checked : Place → List ℕ → List ℕ → Kem W → Kem W
  encrypt_checked place public_key coins s =
      let message = take sym_bytes coins in
      let kr = native.hash_g (message ++ native.hash_h (take public_key_bytes public_key)) in
      let t =
        indcpa_encrypt_lowram place message public_key (drop sym_bytes kr) (backend_progress s) in
      record t { shared_secret = write_at 0 (take sym_bytes kr) t.shared_secret }

  unfoldable pub lowram_enc_derand : Place → List ℕ → List ℕ → Kem W → Bool × Kem W
  lowram_enc_derand place public_key coins s =
      let t = backend_progress (record s { workspace = zero_workspace; workspace_busy = true }) in
      if s.workspace_busy
      then (false, s)
      else if public_key_modulus_check public_key
      then cleanup place true (encrypt_checked place public_key coins t)
      else cleanup place false t
