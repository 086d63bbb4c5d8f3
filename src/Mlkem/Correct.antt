-- ===== src/Mlkem/Correct.antt =====
-- src/fpst_mlkem512_wrapper.c and src/fpst_mlkem512_lowram.c: an encapsulation that returns OK is the
-- one of FIPS 203, for the transform that Primer 1 answers.
use fpga_pqc_secure_telemetr.Base.{
  ℕ, ◌≡◌, refl, ap, subst, sym, ◌∙◌, arith, Bool, true, false, some, List, ◌++◌, take, drop, length,
  write_at, if-cases, if◌then◌else◌, length-take, three_writes, kept_room, fresh,
}
use fpga_pqc_secure_telemetr.Result.{Status, ok, err, state, branch-cases}
use fpga_pqc_secure_telemetr.Mlkem.{
  Polyvec, Workspace, Kem, backend_progress, run_calls, ciphertext_bytes, shared_secret_bytes,
  public_key_bytes,
}
use fpga_pqc_secure_telemetr.Mlkem.Lowram.{
  Native, Place, caller, scratch, ciphertext_at, sample_sp, sample_eta1_scalar,
  indcpa_encrypt_lowram, encrypt_checked, cleanup, lowram_enc_derand, public_key_modulus_check,
  zero_workspace, sym_bytes,
}
use fpga_pqc_secure_telemetr.Mlkem.Wrapper.{
  begin_kem, finish_kem, wipe_on_error, encapsulate, encaps_derand,
}
use fpga_pqc_secure_telemetr.Mlkem.Sealed.{encaps_derand-Clear}
use fpga_pqc_secure_telemetr.Mlkem.Hook.{Answered, clear-Answered}
use fpga_pqc_secure_telemetr.Mlkem.Reference.{
  Memory, IsSized, memory, buffer_at, end-memory, progress-memory, workspace-memory, sampled,
  matrix, product, reference, hashed,
}
use fpga_pqc_secure_telemetr.Mlkem.Encrypt.{scheduled, encrypt-memory}

-- The state at the transform of the sampled vector in `lowram_enc_derand`, which has fed the
-- watchdog four times, and in `encaps_derand`.
abbrev pub entered : {W : Type 0} → Kem W → Kem W
entered s =
    let t = backend_progress (record s { workspace = zero_workspace; workspace_busy = true }) in
    backend_progress (backend_progress (backend_progress t))

abbrev pub sampling : {W : Type 0} → Kem W → Kem W
sampling s = entered (begin_kem s).1

-- What a finished encapsulation has computed, in the memory, with the transform from the state `u`.
abbrev pub Computed : {W : Type 0} → Native → List ℕ → List ℕ → Kem W → Memory → Type 0
Computed native public_key coins u m =
    let kr = hashed native public_key coins in
    m.error ≡ ok tt
    → length (take ciphertext_bytes m.buffer) ≡ ciphertext_bytes
    → length (take shared_secret_bytes m.secret) ≡ shared_secret_bytes
    → (sp : Polyvec) × Answered Polyvec (native.polyvec_ntt (sampled native (drop sym_bytes kr))) u
        sp
      × (take ciphertext_bytes m.buffer
          ≡ reference native (take sym_bytes coins) public_key (drop sym_bytes kr) sp)
      × (take shared_secret_bytes m.secret ≡ take sym_bytes kr)

module _ (native : Native) (sized : IsSized native) where
  -- The rest of the schedule, on the memory that the transform leaves.
  scheduled-Computed :
      {W : Type 0} (u : Kem W) (public_key coins : List ℕ) (sp : Polyvec) (m : Memory)
      (w : Workspace)
      → (m.error ≡ ok tt
          → Answered Polyvec
              (native.polyvec_ntt
                (sampled native (drop sym_bytes (hashed native public_key coins))))
              u
              sp)
      → let kr = hashed native public_key coins in
        let t = scheduled native (take sym_bytes coins) public_key (drop sym_bytes kr) (record m {
          workspace = record m.workspace { sp = sp; sp_cache = native.polyvec_mulcache_compute sp };
        }) in
        Computed native public_key coins u
          (record t { workspace = w; secret = write_at 0 (take sym_bytes kr) t.secret })
  unfolding reference matrix product hashed
  scheduled-Computed u public_key coins sp m w answered clear full room =
      let kr = hashed native public_key coins in
      (
        sp,
        answered clear,
        three_writes _ _ _ m.buffer (sized.compress_du _) (sized.compress_du _)
            (sized.compress_dv _) (kept_room _ _ _ m.buffer full),
        fresh (take sym_bytes kr) m.secret
            (omega (
              arith,
              length-take sym_bytes kr,
              sized.hash_g
                  (take sym_bytes coins ++ native.hash_h (take public_key_bytes public_key)),
            ))
            room,
      )

finished :
    (current : Status) (succeeded : Bool)
    → elim current [ err e ↦ err e | ok _ ↦ if succeeded then ok tt else err state ] ≡ ok tt
    → succeeded ≡ true
finished (ok _) true h = refl
finished (ok _) false h = cc
finished (err e) succeeded h = cc

module _ {W : Type 0} (native : Native) (place : Place) where
  sample-memory :
      (noise_seed : List ℕ) (s : Kem W)
      → (sp : Polyvec) × (m : Memory) × (m.error ≡ ok tt
          → Answered Polyvec
              (native.polyvec_ntt (sampled native noise_seed))
              (backend_progress (backend_progress s))
              sp)
        × (memory place (sample_sp native noise_seed s) ≡ record m {
          workspace = record m.workspace { sp = sp; sp_cache = native.polyvec_mulcache_compute sp };
        })
  unfolding sample_sp sample_eta1_scalar sampled memory
  sample-memory noise_seed s =
      let u = backend_progress (backend_progress s) in
      let (sp, v) = run_calls (native.polyvec_ntt (sampled native noise_seed)) u in
      (
        sp,
        memory place v,
        clear-Answered (native.polyvec_ntt (sampled native noise_seed)) u,
        progress-memory place _ ∙ workspace-memory place _ v,
      )

module _ {W : Type 0} (native : Native) (sized : IsSized native) (place : Place) where
  -- `lowram_enc_derand` on a key that passes the modulus check.
  checked-Computed :
      (public_key coins : List ℕ) (s : Kem W)
      → Computed native public_key coins
          (backend_progress (backend_progress (backend_progress s)))
          (memory place (cleanup place true (encrypt_checked native place public_key coins s)).1)
  unfolding cleanup encrypt_checked hashed memory
  checked-Computed public_key coins s =
      let kr = hashed native public_key coins in
      let noise_seed = drop sym_bytes kr in
      let message = take sym_bytes coins in
      let x = backend_progress s in
      let u = backend_progress (backend_progress x) in
      let (sp, m, answered, sampled_eq) = sample-memory native place noise_seed x in
      let t = indcpa_encrypt_lowram native place message public_key noise_seed x in
      subst (Computed native public_key coins u)
        (sym (progress-memory place _ ∙ end-memory place _ zero_workspace false t))
        (subst
          (λ (y : Memory). Computed native public_key coins u (record y {
            workspace = zero_workspace;
            secret = write_at 0 (take sym_bytes kr) y.secret;
          }))
          (sym (
            encrypt-memory native place message public_key noise_seed x
            ∙ ap (scheduled native message public_key noise_seed) sampled_eq))
          (scheduled-Computed native sized u public_key coins sp m zero_workspace answered))

  abbrev Sound : List ℕ → List ℕ → Kem W → Bool × Kem W → Type 0
  Sound public_key coins u (succeeded, t) =
      succeeded ≡ true
      → (public_key_modulus_check public_key ≡ true)
        × Computed native public_key coins u (memory place t)

  lowram-Sound :
      (public_key coins : List ℕ) (s : Kem W)
      → Sound public_key coins (entered s) (lowram_enc_derand native place public_key coins s)
  unfolding lowram_enc_derand cleanup
  lowram-Sound public_key coins s =
      if-cases (Sound public_key coins (entered s)) s.workspace_busy (λ _ h. cc)
        (λ _.
          if-cases (Sound public_key coins (entered s)) (public_key_modulus_check public_key)
            (λ h _. (h, checked-Computed public_key coins _)) (λ _ h. cc))

  abbrev SoundKem : List ℕ → List ℕ → Kem W → Status × Kem W → Type 0
  SoundKem public_key coins u (rc, t) =
      rc ≡ ok tt
      → (public_key_modulus_check public_key ≡ true)
        × Computed native public_key coins u (memory place t)

  encapsulate-SoundKem :
      (public_key coins : List ℕ) (s : Kem W)
      → SoundKem public_key coins (entered s) (encapsulate native place public_key coins s)
  unfolding encapsulate wipe_on_error finish_kem
  encapsulate-SoundKem public_key coins s =
      let (succeeded, t) = lowram_enc_derand native place public_key coins s in
      branch-cases (SoundKem public_key coins (entered s)) (finish_kem succeeded t).0 _ _
        (λ _ h _.
          let (checked, computed) =
            lowram-Sound public_key coins s (finished t.backend_error succeeded h) in
          (
            checked,
            subst (Computed native public_key coins (entered s)) (sym (progress-memory place t))
                computed,
          ))
        (λ e _ h. cc)

  encaps_derand-SoundKem :
      (public_key coins : List ℕ) (s : Kem W)
      → SoundKem public_key coins
          (sampling s)
          (encaps_derand (some native) place public_key coins s)
  unfolding encaps_derand
  encaps_derand-SoundKem public_key coins s =
      branch-cases (SoundKem public_key coins (sampling s)) (begin_kem s).0 _ _
        (λ _ _. encapsulate-SoundKem public_key coins _) (λ e _ h. cc)

module _ {W : Type 0} where
  -- The outputs are those of the reference, for answers to the transforms.
  abbrev pub Encapsulated : Native → Place → List ℕ → List ℕ → Kem W → Kem W → Type 0
  Encapsulated native place public_key coins s t =
      let kr = hashed native public_key coins in
      (public_key_modulus_check public_key ≡ true)
      × (sp : Polyvec) × Answered Polyvec (native.polyvec_ntt (sampled native (drop sym_bytes kr)))
          (sampling s) sp
      × (ciphertext_at place t
          ≡ reference native (take sym_bytes coins) public_key (drop sym_bytes kr) sp)
      × (take shared_secret_bytes t.shared_secret ≡ take sym_bytes kr)

  buffer-ciphertext_at :
      (place : Place) (t : Kem W)
      → take ciphertext_bytes (memory place t).buffer ≡ ciphertext_at place t
  unfolding memory buffer_at ciphertext_at
  buffer-ciphertext_at caller t = refl
  buffer-ciphertext_at (scratch ref) t = refl

  -- When `encaps_derand` returns OK, with primitives of the output sizes of FIPS 203 and both
  -- outputs at their full sizes, the public key passed the modulus check, and the outputs are
  -- those of the encryption of FIPS 203 with the whole matrix and all polynomials at once: the
  -- ciphertext is the two compressed rows and the compressed message polynomial for the
  -- transformed vector, where every transform of the sampled vector is what the bound link
  -- answered to its commands at that point of this call, a reduced polynomial, and the shared
  -- secret is the first half of the hash. This holds also where the ciphertext lies in the
  -- response buffer that the transform commands use.
  pub encaps_derand-Encapsulated :
      (native : Native) (place : Place) (public_key coins : List ℕ) (s : Kem W)
      → IsSized native
      → (encaps_derand (some native) place public_key coins s).0 ≡ ok tt
      → length (ciphertext_at place (encaps_derand (some native) place public_key coins s).1)
        ≡ ciphertext_bytes
      → length (
          take shared_secret_bytes
            (encaps_derand (some native) place public_key coins s).1.shared_secret)
        ≡ shared_secret_bytes
      → Encapsulated native place public_key coins s
          (encaps_derand (some native) place public_key coins s).1
  unfolding memory
  encaps_derand-Encapsulated native place public_key coins s sized h full room =
      let t = (encaps_derand (some native) place public_key coins s).1 in
      let same = buffer-ciphertext_at place t in
      let (checked, computed) = encaps_derand-SoundKem native sized place public_key coins s h in
      let (sp, answered, cipher, secret) =
        computed (encaps_derand-Clear (some native) place public_key coins s h)
          (ap (λ (b : List ℕ). length b) same ∙ full) room in
      (checked, sp, answered, sym same ∙ cipher, secret)
