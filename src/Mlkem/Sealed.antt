-- ===== src/Mlkem/Sealed.antt =====
-- src/fpst_mlkem512_wrapper.c: what an encapsulation leaves in its outputs.
use fpga_pqc_secure_telemetr.Base.{
  ℕ, zero, suc, ◌≡◌, refl, subst, sym, ◌∙◌, ◌⊎◌, inl, inr, Bool, true, Option, none, some, List, [],
  ◌∷◌, take, drop, replicate, overlay, write_at, if-cases, option-cases, not,
}
use fpga_pqc_secure_telemetr.Result.{Status, Error, ok, err, branch-cases}
use fpga_pqc_secure_telemetr.Csprng.{Csprng, is_valid}
use fpga_pqc_secure_telemetr.Session.{cell_a, cell_b}
use fpga_pqc_secure_telemetr.Mlkem.{Kem, backend_progress, ciphertext_bytes, shared_secret_bytes}
use fpga_pqc_secure_telemetr.Mlkem.Lowram.{
  Native, Place, caller, scratch, ciphertext_at, write_ciphertext, zero_ciphertext,
  zero_shared_secret, lowram_enc_derand,
}
use fpga_pqc_secure_telemetr.Mlkem.Wrapper.{
  begin_kem, finish_kem, wipe_on_error, encapsulate, encaps_derand, encaps_with_coins, encaps,
  fill_coins,
}

-- Every byte is 0.
unfoldable pub IsWiped : List ℕ → Type 0
IsWiped [] = Unit
IsWiped (b ∷ bytes) = (b ≡ 0) × IsWiped bytes

overlay-IsWiped : (n : ℕ) (buf : List ℕ) → IsWiped (take n (overlay (replicate n 0) buf))
unfolding IsWiped
overlay-IsWiped zero buf = tt
overlay-IsWiped (suc n) [] = tt
overlay-IsWiped (suc n) (b ∷ buf) = (refl, overlay-IsWiped n buf)

tail-IsWiped : (n k : ℕ) (buf : List ℕ) → IsWiped (take n (drop k (write_at k (replicate n 0) buf)))
unfolding IsWiped
tail-IsWiped n zero buf = overlay-IsWiped n buf
tail-IsWiped zero (suc k) [] = tt
tail-IsWiped (suc n) (suc k) [] = tt
tail-IsWiped n (suc k) (b ∷ buf) = tail-IsWiped n k buf

unlatched :
    (current rest : Status) → elim current [ err e ↦ err e | ok _ ↦ rest ] ≡ ok tt → current ≡ ok tt
unlatched (ok _) rest h = refl
unlatched (err e) rest h = cc

module _ {W : Type 0} where
  pub zero_ciphertext-IsWiped :
      (place : Place) (s : Kem W) → IsWiped (ciphertext_at place (zero_ciphertext place s))
  unfolding ciphertext_at zero_ciphertext write_ciphertext
  zero_ciphertext-IsWiped caller s = overlay-IsWiped ciphertext_bytes s.ciphertext
  zero_ciphertext-IsWiped (scratch cell_a) s =
      tail-IsWiped ciphertext_bytes 48 s.machine.link_a.response_buf
  zero_ciphertext-IsWiped (scratch cell_b) s =
      tail-IsWiped ciphertext_bytes 48 s.machine.link_b.response_buf

  pub zero_shared_secret-IsWiped :
      (s : Kem W) → IsWiped (take shared_secret_bytes (zero_shared_secret s).shared_secret)
  unfolding zero_shared_secret
  zero_shared_secret-IsWiped s = overlay-IsWiped shared_secret_bytes s.shared_secret

  pub zero_shared_secret-ciphertext :
      (place : Place) (s : Kem W)
      → ciphertext_at place (zero_shared_secret s) ≡ ciphertext_at place s
  unfolding ciphertext_at zero_shared_secret
  zero_shared_secret-ciphertext caller s = refl
  zero_shared_secret-ciphertext (scratch ref) s = refl

  pub zero_ciphertext-shared_secret :
      (place : Place) (s : Kem W) → (zero_ciphertext place s).shared_secret ≡ s.shared_secret
  unfolding zero_ciphertext write_ciphertext
  zero_ciphertext-shared_secret caller s = refl
  zero_ciphertext-shared_secret (scratch ref) s = refl

  pub zero_ciphertext-manager :
      (place : Place) (s : Kem W) → (zero_ciphertext place s).machine.manager ≡ s.machine.manager
  unfolding zero_ciphertext write_ciphertext
  zero_ciphertext-manager caller s = refl
  zero_ciphertext-manager (scratch ref) s = refl

  -- An error leaves both outputs wiped, and success no error of a transform.
  abbrev pub Sealed : Place → Status × Kem W → Type 0
  Sealed place (rc, t) =
      (rc ≡ ok tt) × (t.backend_error ≡ ok tt)
      ⊎ ((e : Error) × (rc ≡ err e)
          × IsWiped (ciphertext_at place t)
          × IsWiped (take shared_secret_bytes t.shared_secret))

  abbrev pub Clear : Status × Kem W → Type 0
  Clear (rc, t) = rc ≡ ok tt → t.backend_error ≡ ok tt

  backend_progress-error : (s : Kem W) → (backend_progress s).backend_error ≡ s.backend_error
  unfolding backend_progress
  backend_progress-error s =
      option-cases (λ (t : Kem W). t.backend_error ≡ s.backend_error) s.primer1_link _ _ (λ _. refl)
        (λ _ _. refl)

  finish_kem-Clear : (succeeded : Bool) (s : Kem W) → Clear (finish_kem succeeded s)
  unfolding finish_kem
  finish_kem-Clear succeeded s h = backend_progress-error s ∙ unlatched s.backend_error _ h

  wipe_on_error-Sealed :
      (place : Place) (rc : Status) (s : Kem W)
      → Clear (rc, s)
      → Sealed place (wipe_on_error place (rc, s))
  unfolding wipe_on_error
  wipe_on_error-Sealed place rc s clear =
      branch-cases (Sealed place) rc _ _ (λ _ h. inl (refl, clear h))
        (λ e _. inr (
          e,
          refl,
          subst IsWiped (sym (zero_shared_secret-ciphertext place _))
              (zero_ciphertext-IsWiped place s),
          zero_shared_secret-IsWiped _,
        ))

  wipe_on_error-Clear :
      (place : Place) (rc : Status) (s : Kem W)
      → Clear (rc, s)
      → Clear (wipe_on_error place (rc, s))
  unfolding wipe_on_error
  wipe_on_error-Clear place rc s clear = branch-cases Clear rc _ _ (λ _ h _. clear h) (λ e _ h. cc)

  pub encaps_derand-Clear :
      (native : Option Native) (place : Place) (public_key coins : List ℕ) (s : Kem W)
      → Clear (encaps_derand native place public_key coins s)
  unfolding encaps_derand encapsulate
  encaps_derand-Clear none place public_key coins s = λ h. cc
  encaps_derand-Clear (some native) place public_key coins s =
      let (rc, t) = begin_kem s in
      branch-cases Clear rc _ _
        (λ _ _ h.
          let (succeeded, u) = lowram_enc_derand native place public_key coins t in
          let (code, v) = finish_kem succeeded u in
          wipe_on_error-Clear place code v (finish_kem-Clear succeeded u) h)
        (λ e _ h. cc)

  -- `encaps` with a usable random number interface, for any build, keys and state: it returns OK
  -- with no transform error recorded, or an error with the ciphertext and the shared secret wiped.
  pub encaps-Sealed :
      (native : Option Native) (place : Place) (public_key : List ℕ) (rng : Csprng W) (s : Kem W)
      → is_valid rng ≡ true
      → Sealed place (encaps native place public_key rng s)
  unfolding encaps encaps_with_coins
  encaps-Sealed native place public_key rng s valid =
      let (rc, t) = fill_coins rng 32 s in
      if-cases (Sealed place) (not (is_valid rng)) (λ h. cc)
        (λ _. wipe_on_error-Sealed place _ _ (
          branch-cases Clear rc _ _ (λ coins _. encaps_derand-Clear native place public_key coins t)
            (λ e _ h. cc)))
