-- ===== src/Mlkem/Wrapper.antt =====
-- src/fpst_mlkem512_wrapper.c: the KEM functions. `native` is none where the firmware is built
-- without mlkem-native.
use fpga_pqc_secure_telemetr.Base.{
  ℕ, Bool, Option, none, some, List, replicate, write_at, if◌then◌else◌, not,
}
use fpga_pqc_secure_telemetr.Result.{Status, Exec, ok, err, argument, state}
use fpga_pqc_secure_telemetr.Platform.{is_some}
use fpga_pqc_secure_telemetr.Csprng.{Csprng, is_valid, fill}
use fpga_pqc_secure_telemetr.Mlkem.{
  Kem, public_key_bytes, secret_key_bytes, backend_progress, run_calls,
}
use fpga_pqc_secure_telemetr.Mlkem.Lowram.{
  Native, Place, zero_ciphertext, zero_shared_secret, lowram_enc_derand,
}

-- The buffers of a key pair: the public and the secret key.
abbrev pub KeyPair : Type 0
KeyPair = List ℕ × List ℕ

unfoldable pub is_available : Option Native → Bool
is_available native = is_some native

unfoldable pub zero_keys : KeyPair → KeyPair
zero_keys (public_key, secret_key) = (
  write_at 0 (replicate public_key_bytes 0) public_key,
  write_at 0 (replicate secret_key_bytes 0) secret_key,
)

module _ {W : Type 0} where
  unfoldable pub begin_kem : Exec (Kem W) (Unit {0})
  begin_kem s = elim s.primer1_link [
    | none ↦ (err state, s)
    | some ref ↦ (ok tt, backend_progress (record s { backend_error = ok tt }))
  ]

  -- The argument is whether mlkem-native returned 0.
  unfoldable pub finish_kem : Bool → Exec (Kem W) (Unit {0})
  finish_kem succeeded s = (
    elim s.backend_error [ err e ↦ err e | ok _ ↦ if succeeded then ok tt else err state ],
    backend_progress s,
  )

  -- The wipe of both outputs of an encapsulation after an error.
  unfoldable pub wipe_on_error : Place → Status × Kem W → Status × Kem W
  wipe_on_error place (rc, s) = elim rc [
    | ok _ ↦ (ok tt, s)
    | err e ↦ (err e, zero_shared_secret (zero_ciphertext place s))
  ]

  -- The wipe of both keys after an error.
  unfoldable pub wipe_keys_on_error : Status × KeyPair × Kem W → Status × KeyPair × Kem W
  wipe_keys_on_error (rc, keys, s) = elim rc [
    | ok _ ↦ (ok tt, keys, s)
    | err e ↦ (err e, zero_keys keys, s)
  ]

  -- `keypair_derand` behind `begin_kem`.
  unfoldable pub generate_keys : Native → KeyPair → List ℕ → Kem W → Status × KeyPair × Kem W
  generate_keys native (public_key, secret_key) coins s =
      let ((succeeded, pk, sk), t) = run_calls (native.keypair_derand coins) s in
      let (rc, u) = finish_kem succeeded t in
      wipe_keys_on_error (rc, (write_at 0 pk public_key, write_at 0 sk secret_key), u)

  unfoldable pub keypair_derand :
      Option Native → KeyPair → List ℕ → Kem W → Status × KeyPair × Kem W
  keypair_derand none keys coins s = (err state, keys, s)
  keypair_derand (some native) keys coins s =
      let (rc, t) = begin_kem s in
      elim rc [ err e ↦ (err e, keys, t) | ok _ ↦ generate_keys native keys coins t ]

  -- `encaps_derand` behind `begin_kem`.
  unfoldable pub encapsulate : Native → Place → List ℕ → List ℕ → Exec (Kem W) (Unit {0})
  encapsulate native place public_key coins s =
      let (succeeded, t) = lowram_enc_derand native place public_key coins s in
      wipe_on_error place (finish_kem succeeded t)

  unfoldable pub encaps_derand : Option Native → Place → List ℕ → List ℕ → Exec (Kem W) (Unit {0})
  encaps_derand none place public_key coins s = (err state, s)
  encaps_derand (some native) place public_key coins s =
      let (rc, t) = begin_kem s in
      elim rc [ err e ↦ (err e, t) | ok _ ↦ encapsulate native place public_key coins t ]

  -- `fpst_csprng_fill` in the world of the machine.
  unfoldable pub fill_coins : Csprng W → ℕ → Exec (Kem W) (List ℕ)
  fill_coins rng len s =
      let (rc, w) = fill rng len s.machine.world in
      (rc, record s { machine = record s.machine { world = w } })

  unfoldable pub keypair : Option Native → KeyPair → Csprng W → Kem W → Status × KeyPair × Kem W
  keypair native keys rng s =
      let (rc, t) = fill_coins rng 64 s in
      if not (is_valid rng)
      then (err argument, keys, s)
      else wipe_keys_on_error
          (elim rc [ err e ↦ (err e, keys, t) | ok coins ↦ keypair_derand native keys coins t ])

  -- `encaps` behind its tests.
  unfoldable pub encaps_with_coins :
      Option Native → Place → List ℕ → Csprng W → Exec (Kem W) (Unit {0})
  encaps_with_coins native place public_key rng s =
      let (rc, t) = fill_coins rng 32 s in
      wipe_on_error place
        (elim rc [ err e ↦ (err e, t) | ok coins ↦ encaps_derand native place public_key coins t ])

  unfoldable pub encaps : Option Native → Place → List ℕ → Csprng W → Exec (Kem W) (Unit {0})
  encaps native place public_key rng s =
      if not (is_valid rng)
      then (err argument, s)
      else encaps_with_coins native place public_key rng s

  -- `decaps` behind `begin_kem`.
  unfoldable pub decapsulate : Native → List ℕ → List ℕ → Exec (Kem W) (Unit {0})
  decapsulate native ciphertext secret_key s =
      let ((succeeded, secret), t) = run_calls (native.dec ciphertext secret_key) s in
      let (rc, u) =
        finish_kem succeeded (record t { shared_secret = write_at 0 secret t.shared_secret }) in
      elim rc [ ok _ ↦ (ok tt, u) | err e ↦ (err e, zero_shared_secret u) ]

  unfoldable pub decaps : Option Native → List ℕ → List ℕ → Exec (Kem W) (Unit {0})
  decaps none ciphertext secret_key s = (err state, s)
  decaps (some native) ciphertext secret_key s =
      let (rc, t) = begin_kem s in
      elim rc [ err e ↦ (err e, t) | ok _ ↦ decapsulate native ciphertext secret_key t ]
