-- ===== src/Mlkem/Release.antt =====
-- src/fpst_mlkem_session.c: the functions with a sink. The ciphertext leaves the firmware only from
-- a session that is active.
use fpga_pqc_secure_telemetr.Base.{ℕ, ◌≡◌, refl, subst, sym, ◌⊎◌, inl, inr, List, take}
use fpga_pqc_secure_telemetr.Result.{Status, Exec, Error, ok, err, branch-cases, continue-cases}
use fpga_pqc_secure_telemetr.Session.{Machine, SessionManager, active, first_error}
use fpga_pqc_secure_telemetr.Session.Manager.{IsCleared}
use fpga_pqc_secure_telemetr.Mlkem.{Kem, shared_secret_bytes}
use fpga_pqc_secure_telemetr.Mlkem.Lowram.{Place, ciphertext_at, zero_shared_secret}
use fpga_pqc_secure_telemetr.Mlkem.Sealed.{
  IsWiped, zero_ciphertext-IsWiped, zero_shared_secret-IsWiped, zero_ciphertext-shared_secret,
  zero_ciphertext-manager,
}
use fpga_pqc_secure_telemetr.Mlkem.Establish.{
  Sink, finish_wipe, establish_from, unbound, commit_session, release,
}

first_error-err :
    (rx_wipe : Status) (e : Error) → (e' : Error) × (first_error rx_wipe (err e) ≡ err e')
first_error-err (ok _) e = (e, refl)
first_error-err (err e') e = (e', refl)

-- The session is active under this number, at the start of its sequence.
abbrev pub Started : ℕ → SessionManager → Type 0
Started session_id m = (m.state ≡ active) × (m.session_id ≡ session_id) × (m.next_sequence ≡ 0)

module _ {W : Type 0} where
  abbrev WipedSecret : Kem W → Type 0
  WipedSecret t = IsWiped (take shared_secret_bytes t.shared_secret)

  -- A sink that accepts leaves the session as it is, one that refuses has it cleared; the ciphertext
  -- is wiped.
  abbrev pub Released : Place → Kem W → Status × Kem W → Type 0
  Released place s (rc, t) =
      IsWiped (ciphertext_at place t)
      × ((rc ≡ ok tt) × (t.machine.manager ≡ s.machine.manager)
          ⊎ ((e : Error) × (rc ≡ err e)) × IsCleared t.machine.manager)

  -- A function of a sink either fails without it, with both outputs wiped, or gives the sink the
  -- ciphertext in a state where the session is active and the shared secret is wiped.
  abbrev pub Guarded : ℕ → Place → Exec (Machine W) (Unit {0}) → (Sink W → Status × Kem W) → Type 0
  Guarded session_id place wipe f =
      ((e : Error) × (t : Kem W) × IsWiped (ciphertext_at place t)
        × WipedSecret t
        × ((sink : Sink W) → f sink ≡ (err e, t)))
      ⊎ ((t : Kem W) × Started session_id t.machine.manager
          × WipedSecret t
          × ((sink : Sink W) → (f sink ≡ release place sink wipe t) × Released place t (f sink)))

  -- What a function that establishes a session promises.
  abbrev pub Establishes : ℕ → (List ℕ → Exec (Machine W) (Unit {0})) → Type 0
  Establishes session_id establish =
      (secret : List ℕ) (m : Machine W)
      → (establish secret m).0 ≡ ok tt
      → Started session_id (establish secret m).1.manager

  abbrev StartedIfOk : ℕ → Status × Kem W → Type 0
  StartedIfOk session_id (rc, t) = rc ≡ ok tt → Started session_id t.machine.manager

  abbrev pub Committed : ℕ → Place → Status × Kem W → Type 0
  Committed session_id place (rc, t) =
      WipedSecret t
      × ((rc ≡ ok tt) × Started session_id t.machine.manager
          ⊎ ((e : Error) × (rc ≡ err e)) × IsWiped (ciphertext_at place t))

  finish_wipe-Committed :
      (session_id : ℕ) (place : Place) (rc : Status) (s : Kem W)
      → StartedIfOk session_id (rc, s)
      → Committed session_id place (finish_wipe place (rc, s))
  unfolding finish_wipe zero_shared_secret
  finish_wipe-Committed session_id place rc s started =
      branch-cases (Committed session_id place) rc _ _
        (λ _ h. (zero_shared_secret-IsWiped s, inl (refl, started h)))
        (λ e _. (
          subst (λ (b : List ℕ). IsWiped (take shared_secret_bytes b))
              (sym (zero_ciphertext-shared_secret place (zero_shared_secret s)))
              (zero_shared_secret-IsWiped s),
          inr ((e, refl), zero_ciphertext-IsWiped place _),
        ))

  pub commit_session-Committed :
      (session_id : ℕ) (place : Place) (kem : Exec (Kem W) (Unit {0}))
      (establish : List ℕ → Exec (Machine W) (Unit {0})) (s : Kem W)
      → Establishes session_id establish
      → Committed session_id place (commit_session place kem establish s)
  unfolding commit_session establish_from
  commit_session-Committed session_id place kem establish s promise =
      finish_wipe-Committed session_id place _ _ (
        continue-cases (StartedIfOk session_id) (unbound kem s).0 _ (unbound kem s).1
          (λ _ _. promise _ _) (λ e _ h. cc))

  pub release-Released :
      (place : Place) (sink : Sink W) (wipe : Exec (Machine W) (Unit {0})) (s : Kem W)
      → ((m : Machine W) → IsCleared (wipe m).1.manager)
      → Released place s (release place sink wipe s)
  unfolding release
  release-Released place sink wipe s clears =
      let (rc, w) = sink (ciphertext_at place s) s.machine.world in
      let m = record s.machine { world = w } in
      branch-cases (Released place s) rc _ _
        (λ _ _. (zero_ciphertext-IsWiped place _, inl (refl, zero_ciphertext-manager place _)))
        (λ e _. (
          zero_ciphertext-IsWiped place _,
          inr (
            first_error-err (wipe m).0 e,
            subst IsCleared (sym (zero_ciphertext-manager place _)) (clears m),
          ),
        ))
