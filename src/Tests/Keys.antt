-- ===== src/Tests/Keys.antt =====
-- Encapsulations with a stand-in for mlkem-native, on the board whose endpoints answer with zeros.
use fpga_pqc_secure_telemetr.Base.{
  ℕ, ◌≡◌, ◌⊎◌, refl, arith, true, false, some, List, [], ◌∷◌, replicate, length, take,
  replicate-IsBytes,
}
use fpga_pqc_secure_telemetr.Result.{Error, ok, err}
use fpga_pqc_secure_telemetr.Csprng.{Csprng, is_valid, fill}
use fpga_pqc_secure_telemetr.Csprng as Rng
use fpga_pqc_secure_telemetr.Session.{Machine, no_key, cell_a, zeroize_pair_routed}
use fpga_pqc_secure_telemetr.Platform
use fpga_pqc_secure_telemetr.Mlkem.{
  Poly, Kem, Calls, done, ntt, run_calls, zero_poly, backend_progress,
}
use fpga_pqc_secure_telemetr.Mlkem.Lowram.{
  Native, caller, scratch, zero_workspace, packed_invalid, modulus_loop, public_key_modulus_check,
  ciphertext_at, write_ciphertext, zero_ciphertext, zero_shared_secret, sample_eta1_scalar,
  generate_transposed_matrix_row, multiply_row, encrypt_row, encrypt_message, sample_sp,
  indcpa_encrypt_lowram, cleanup, encrypt_checked, lowram_enc_derand,
}
use fpga_pqc_secure_telemetr.Mlkem.Wrapper.{
  begin_kem, finish_kem, wipe_on_error, encapsulate, encaps_derand, encaps,
}
use fpga_pqc_secure_telemetr.Mlkem.Establish.{establish_pair_routed_to_sink}
use fpga_pqc_secure_telemetr.Mlkem.Hook.{Answered, run_calls-Answered}
use fpga_pqc_secure_telemetr.Mlkem.Modulus.{
  coefficients, all_below, le_value, modulus_check-reference,
}
use fpga_pqc_secure_telemetr.Mlkem.Sealed.{Sealed, encaps-Sealed}
use fpga_pqc_secure_telemetr.Mlkem.Release.{Guarded}
use fpga_pqc_secure_telemetr.Mlkem.Sink.{establish_pair_routed_to_sink-Guarded}
use fpga_pqc_secure_telemetr.Mlkem.Reference.{IsSized}
use fpga_pqc_secure_telemetr.Mlkem.Correct.{Encapsulated, encaps_derand-Encapsulated}
use fpga_pqc_secure_telemetr.Tests.Board.{Board, board, link}

-- Primitives of the right sizes.
abbrev stand_in : Native
stand_in = record {
  prf_eta1 = λ seed. seed;
  poly_cbd3 = λ bytes. zero_poly;
  poly_rej_uniform = λ seed. zero_poly;
  polyvec_ntt = λ sp. done sp;
  polyvec_mulcache_compute = λ sp. sp;
  polyvec_basemul_acc_montgomery_cached = λ row sp cache. zero_poly;
  poly_invntt_tomont = λ p. p;
  poly_getnoise_eta2 = λ seed nonce. zero_poly;
  poly_add = λ p q. p;
  poly_reduce = λ p. p;
  poly_compress_du = λ p. replicate 320 7;
  poly_compress_dv = λ p. replicate 128 9;
  polyvec_frombytes = λ bytes. (zero_poly, zero_poly);
  poly_frommsg = λ message. zero_poly;
  hash_h = λ bytes. replicate 32 1;
  hash_g = λ bytes. replicate 64 5;
  keypair_derand = λ coins. done (true, [], []);
  dec = λ ciphertext secret_key. done (true, []);
}

stand_in-IsSized : IsSized stand_in
stand_in-IsSized = record {
  compress_du = λ p. refl;
  compress_dv = λ p. refl;
  hash_g = λ bytes. refl;
}

abbrev rng : Csprng Board
rng = record { fill = some (λ len w. (ok (replicate len 3), w)) }

abbrev machine : Machine Board
machine = record {
  manager = record { state = no_key; session_id = 0; next_sequence = 0; link = cell_a };
  link_a = link;
  link_b = link;
  world = record { now = 0; replies = [] };
}

abbrev kem : Kem Board
kem = record {
  machine = machine;
  primer1_link = some cell_a;
  backend_error = ok tt;
  workspace = zero_workspace;
  workspace_busy = false;
  ciphertext = replicate 768 0;
  shared_secret = replicate 32 0;
}

abbrev one_transform : Calls Poly
one_transform = ntt zero_poly (λ values. done values)

run_calls-Answered_example :
    ((run_calls one_transform kem).1.backend_error ≡ ok tt)
      × Answered Poly one_transform kem (run_calls one_transform kem).0
    ⊎ ((e : Error) × ((run_calls one_transform kem).1.backend_error ≡ err e))
run_calls-Answered_example = run_calls-Answered one_transform kem

-- The first coefficient is the modulus itself.
abbrev unreduced : List ℕ
unreduced = 1 ∷ 13 ∷ replicate 798 0

modulus_check-reference_example :
    public_key_modulus_check unreduced ≡ all_below 3329 (coefficients 512 (le_value unreduced))
modulus_check-reference_example =
    modulus_check-reference unreduced (omega arith, (omega arith, replicate-IsBytes 798))

encaps-Sealed_example : Sealed caller (encaps (some stand_in) caller (replicate 800 0) rng kem)
unfolding is_valid
encaps-Sealed_example = encaps-Sealed (some stand_in) caller (replicate 800 0) rng kem refl

abbrev key : List ℕ
key = replicate 800 0

provided : Rng.is_valid rng ≡ true
unfolding Rng.is_valid
provided = refl

usable : Platform.is_valid board ≡ true
unfolding Platform.is_valid
usable = refl

establish_pair_routed_to_sink-Guarded_example :
    Guarded 7
      (scratch cell_a)
      (zeroize_pair_routed board board)
      (λ sink. establish_pair_routed_to_sink (some stand_in) board board key 7 rng sink kem)
establish_pair_routed_to_sink-Guarded_example =
    establish_pair_routed_to_sink-Guarded (some stand_in) board board key 7 rng kem (ground arith)
      usable usable provided refl

abbrev coins : List ℕ
coins = replicate 32 3

-- It is accepted, and both outputs have their sizes.
accepted :
    ((encaps_derand (some stand_in) caller key coins kem).0 ≡ ok tt)
    × (length (ciphertext_at caller (encaps_derand (some stand_in) caller key coins kem).1) ≡ 768)
    × (length (take 32 (encaps_derand (some stand_in) caller key coins kem).1.shared_secret) ≡ 32)
unfolding begin_kem finish_kem wipe_on_error encapsulate encaps_derand packed_invalid modulus_loop
    public_key_modulus_check ciphertext_at write_ciphertext zero_ciphertext zero_shared_secret
    sample_eta1_scalar generate_transposed_matrix_row multiply_row encrypt_row encrypt_message
    sample_sp indcpa_encrypt_lowram cleanup encrypt_checked lowram_enc_derand run_calls
    backend_progress
accepted = (refl, refl, refl)

encaps_derand-Encapsulated_example :
    Encapsulated stand_in caller key coins kem
      (encaps_derand (some stand_in) caller key coins kem).1
encaps_derand-Encapsulated_example =
    encaps_derand-Encapsulated stand_in caller key coins kem stand_in-IsSized accepted.0 accepted.1
      accepted.2
