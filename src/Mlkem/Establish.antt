-- ===== src/Mlkem/Establish.antt =====
-- src/fpst_mlkem_session.c: a session from an encapsulation, and the release of its ciphertext. The
-- `shared_secret` of the state is the local array of these functions; `sink` gets the ciphertext
-- and acts on the world.
use fpga_pqc_secure_telemetr.Base.{ℕ, ◌||◌, Option, List, ◌==◌, if◌then◌else◌, not}
use fpga_pqc_secure_telemetr.Result.{Status, Exec, ok, err, argument, busy, ◌>>◌}
use fpga_pqc_secure_telemetr.Platform.{Platform, is_valid}
use fpga_pqc_secure_telemetr.Csprng.{Csprng}
use fpga_pqc_secure_telemetr.Csprng as Rng
use fpga_pqc_secure_telemetr.Link.{rebind}
use fpga_pqc_secure_telemetr.Session
use fpga_pqc_secure_telemetr.Session.{
  LinkRef, Machine, is_staging, on, first_error, establish_pair, establish_pair_routed,
  zeroize_pair, zeroize_pair_routed,
}
use fpga_pqc_secure_telemetr.Mlkem.{Kem, bind_primer1, unbind_primer1}
use fpga_pqc_secure_telemetr.Mlkem.Lowram.{
  Native, Place, caller, scratch, zero_ciphertext, zero_shared_secret, ciphertext_at,
}
use fpga_pqc_secure_telemetr.Mlkem.Wrapper.{encaps, encaps_derand}

abbrev pub Sink : Type 0 → Type 0
Sink W = List ℕ → W → Status × W

module _ {W : Type 0} where
  -- A function of the session manager.
  abbrev pub on_machine : {A : Type 0} → Exec (Machine W) A → Exec (Kem W) A
  on_machine m s = let (rc, machine) = m s.machine in (rc, record s { machine = machine })

  unfoldable pub zero_outputs : Place → Kem W → Kem W
  zero_outputs place s = zero_ciphertext place (zero_shared_secret s)

  -- The local `shared_secret` is wiped, and the ciphertext after an error.
  unfoldable pub finish_wipe : Place → Status × Kem W → Status × Kem W
  finish_wipe place (rc, s) = elim rc [
    | ok _ ↦ (ok tt, zero_shared_secret s)
    | err e ↦ (err e, zero_ciphertext place (zero_shared_secret s))
  ]

  -- A session from the shared secret of an encapsulation.
  unfoldable pub establish_from : (List ℕ → Exec (Machine W) (Unit {0})) → Exec (Kem W) (Unit {0})
  establish_from establish s = on_machine (establish s.shared_secret) s

  unfoldable pub finish_session_establish : ℕ → Place → Status → Exec (Kem W) (Unit {0})
  finish_session_establish session_id place kem_rc s = finish_wipe place (elim kem_rc [
    | ok _ ↦ establish_from (λ secret. Session.establish secret session_id 0 0) s
    | err e ↦ (err e, s)
  ])

  -- The failed and the successful `fpst_mlkem512_bind_primer1`.
  unfoldable pub with_primer1 : Place → Exec (Kem W) (Unit {0}) → Exec (Kem W) (Unit {0})
  with_primer1 place next s =
      let (rc, t) = bind_primer1 s.machine.manager.link s in
      elim rc [ err e ↦ (err e, zero_outputs place t) | ok _ ↦ next t ]

  -- An encapsulation with the hook bound, and without it afterwards.
  unfoldable pub unbound : Exec (Kem W) (Unit {0}) → Exec (Kem W) (Unit {0})
  unbound kem s = let (rc, t) = kem s in (rc, unbind_primer1 t)

  unfoldable pub establish_tx : Option Native → List ℕ → ℕ → Csprng W → Exec (Kem W) (Unit {0})
  establish_tx native receiver_public_key session_id rng s =
      if session_id == 0 || not (Rng.is_valid rng)
      then (err argument, s)
      else if is_staging s.machine.manager.state
      then (err busy, s)
      else with_primer1 caller
          (λ t.
            let (rc, u) = unbound (encaps native caller receiver_public_key rng) t in
            finish_session_establish session_id caller rc u)
          s

  unfoldable pub establish_tx_derand : Option Native → List ℕ → ℕ → List ℕ → Exec (Kem W) (Unit {0})
  establish_tx_derand native receiver_public_key session_id coins s =
      if session_id == 0
      then (err argument, s)
      else if is_staging s.machine.manager.state
      then (err busy, s)
      else with_primer1 caller
          (λ t.
            let (rc, u) = unbound (encaps_derand native caller receiver_public_key coins) t in
            finish_session_establish session_id caller rc u)
          s

  -- The encapsulation into the link's scratch, then the session; both outputs are wiped after an
  -- error, and the shared secret in any case.
  unfoldable pub commit_session :
      Place
      → Exec (Kem W) (Unit {0})
      → (List ℕ → Exec (Machine W) (Unit {0}))
      → Exec (Kem W) (Unit {0})
  commit_session place kem establish s =
      finish_wipe place ((unbound kem >> establish_from establish) s)

  -- The sink, and the wipe of the session that it refuses.
  unfoldable pub release : Place → Sink W → Exec (Machine W) (Unit {0}) → Exec (Kem W) (Unit {0})
  release place sink wipe s =
      let (rc, t) =
        on_machine
          (λ m.
            let (code, w) = sink (ciphertext_at place s) m.world in (code, record m { world = w }))
          s in
      let (zeroize_rc, u) = on_machine wipe t in
      elim rc [
        | ok _ ↦ (ok tt, zero_ciphertext place t)
        | err e ↦ (first_error zeroize_rc (err e), zero_ciphertext place u)
      ]

  unfoldable pub establish_tx_to_sink :
      Option Native → List ℕ → ℕ → Csprng W → Sink W → Exec (Kem W) (Unit {0})
  establish_tx_to_sink native receiver_public_key session_id rng sink s =
      let place = scratch s.machine.manager.link in
      if session_id == 0 || not (Rng.is_valid rng)
      then (err argument, s)
      else if is_staging s.machine.manager.state
      then (err busy, s)
      else with_primer1 place
          (commit_session place (encaps native place receiver_public_key rng)
              (λ secret. Session.establish secret session_id 0 0)
            >> release place sink Session.zeroize)
          s

  unfoldable pub establish_pair_to_sink :
      Option Native → LinkRef → List ℕ → ℕ → Csprng W → Sink W → Exec (Kem W) (Unit {0})
  establish_pair_to_sink native primer2_link receiver_public_key session_id rng sink s =
      let place = scratch s.machine.manager.link in
      if session_id == 0 || not (Rng.is_valid rng)
      then (err argument, s)
      else if is_staging s.machine.manager.state
      then (err busy, s)
      else with_primer1 place
          (commit_session place (encaps native place receiver_public_key rng)
              (λ secret. establish_pair primer2_link secret session_id)
            >> release place sink (zeroize_pair primer2_link))
          s

  -- `cleanup_routed`: Primer 1 is bound again, whatever that returns.
  unfoldable pub restore_route : Platform W → Status × Kem W → Status × Kem W
  restore_route primer1_platform (rc, s) = elim rc [
    | ok _ ↦ (ok tt, s)
    | err e ↦ (err e, (on_machine (on s.machine.manager.link (rebind primer1_platform)) s).1)
  ]

  unfoldable pub establish_pair_routed_to_sink :
      Option Native
      → Platform W
      → Platform W
      → List ℕ
      → ℕ
      → Csprng W
      → Sink W
      → Exec (Kem W) (Unit {0})
  establish_pair_routed_to_sink native primer1_platform primer2_platform receiver_public_key
        session_id rng sink s =
      let link = s.machine.manager.link in
      let place = scratch link in
      if not (is_valid primer1_platform)
        || (not (is_valid primer2_platform) || (session_id == 0 || not (Rng.is_valid rng)))
      then (err argument, s)
      else if is_staging s.machine.manager.state
      then (err busy, s)
      else (do
        on_machine (on link (rebind primer1_platform))
        with_primer1 place (
            (λ t. restore_route primer1_platform (
              commit_session place (encaps native place receiver_public_key rng)
                (λ secret.
                  establish_pair_routed primer1_platform primer2_platform secret session_id)
                t))
            >> release place sink (zeroize_pair_routed primer1_platform primer2_platform)))
          s
