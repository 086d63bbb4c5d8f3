-- ===== src/Mlkem/Sink.antt =====
-- src/fpst_mlkem_session.c: the three functions with a sink, by the lemmas on their parts.
use fpga_pqc_secure_telemetr.Base.{
  ℕ, ◌≡◌, ◌≢◌, refl, ap, subst, sym, inl, inr, arith, true, false, Option, List, ◌==◌, take, drop,
  Bool-cases,
}
use fpga_pqc_secure_telemetr.Result.{Status, Exec, ok, err, continue}
use fpga_pqc_secure_telemetr.Platform.{Platform, is_valid}
use fpga_pqc_secure_telemetr.Csprng.{Csprng}
use fpga_pqc_secure_telemetr.Csprng as Rng
use fpga_pqc_secure_telemetr.Link.{rebind}
use fpga_pqc_secure_telemetr.Session
use fpga_pqc_secure_telemetr.Session.{
  Machine, LinkRef, cell_a, cell_b, cell, on, is_staging, establish_pair, establish_pair_routed,
  zeroize_pair, zeroize_pair_routed,
}
use fpga_pqc_secure_telemetr.Session.Manager.{IsCleared, establish_lem}
use fpga_pqc_secure_telemetr.Session.Pair.{
  establish_pair-fail_closed, establish_pair_routed-fail_closed, IsCleared-zeroize, rebind-ok,
}
use fpga_pqc_secure_telemetr.Session.Wipe.{zeroize_pair-IsCleared, zeroize_pair_routed-IsCleared}
use fpga_pqc_secure_telemetr.Mlkem.{Kem, bind_primer1, ciphertext_bytes, session_prefix_bytes}
use fpga_pqc_secure_telemetr.Mlkem.Lowram.{Native, Place, caller, scratch, ciphertext_at}
use fpga_pqc_secure_telemetr.Mlkem.Wrapper.{encaps}
use fpga_pqc_secure_telemetr.Mlkem.Sealed.{IsWiped}
use fpga_pqc_secure_telemetr.Mlkem.Establish.{
  on_machine, with_primer1, release, establish_tx_to_sink, establish_pair_to_sink, restore_route,
  establish_pair_routed_to_sink,
}
use fpga_pqc_secure_telemetr.Mlkem.Release.{
  Guarded, Establishes, Committed, commit_session-Committed, release-Released,
}

-- The test of the arguments is passed.
nonzero : (session_id : ℕ) → session_id ≢ 0 → (session_id == 0) ≡ false
nonzero session_id h = ground arith

module _ {W : Type 0} where
  -- What is committed goes to the sink, and nothing else.
  commit-Guarded :
      (session_id : ℕ) (place : Place) (wipe : Exec (Machine W) (Unit {0})) (r : Status × Kem W)
      → Committed session_id place r
      → ((m : Machine W) → IsCleared (wipe m).1.manager)
      → Guarded session_id place wipe (λ sink. continue r.0 (λ _. release place sink wipe) r.1)
  commit-Guarded session_id place wipe (ok _, t) (secret, outcome) clears = elim outcome [
    | inl (_, started) ↦
        inr (t, started, secret, λ sink. (refl, release-Released place sink wipe t clears))
    | inr ((e, h), _) ↦ cc
  ]
  commit-Guarded session_id place wipe (err e, t) (secret, outcome) clears = elim outcome [
    | inl (h, _) ↦ cc
    | inr (_, wiped) ↦ inl (e, t, wiped, secret, λ sink. refl)
  ]

  establish-Establishes :
      (session_id : ℕ)
      → Establishes session_id (λ secret. Session.establish {W = W} secret session_id 0 0)
  establish-Establishes session_id secret m h = elim (establish_lem secret session_id 0 0 m) [
    | inl (e, _, _) ↦ cc
    | inr (inl (e, _, _)) ↦ cc
    | inr (inr (inl (_, now, _))) ↦ rw now (refl, refl, refl)
    | inr (inr (inr (_, e, _))) ↦ cc
  ]

  -- `establish_tx_to_sink` with a session number other than 0, a usable random number interface
  -- and no key load under way: either it fails without calling the sink, with the ciphertext and
  -- the shared secret wiped, or it gives the sink the ciphertext in a state where the session is
  -- active under the number, at sequence 0, and the shared secret is wiped. After the sink the
  -- ciphertext is wiped; the session is as it was when the sink accepts, and cleared, with an
  -- error returned, when it refuses.
  pub establish_tx_to_sink-Guarded :
      (native : Option Native) (receiver_public_key : List ℕ) (session_id : ℕ) (rng : Csprng W)
      (s : Kem W)
      → session_id ≢ 0
      → Rng.is_valid rng ≡ true
      → is_staging s.machine.manager.state ≡ false
      → Guarded session_id
          (scratch s.machine.manager.link)
          Session.zeroize
          (λ sink. establish_tx_to_sink native receiver_public_key session_id rng sink s)
  unfolding establish_tx_to_sink with_primer1 bind_primer1
  establish_tx_to_sink-Guarded native receiver_public_key session_id rng s some_id valid idle =
      let place = scratch s.machine.manager.link in
      let bound = (bind_primer1 s.machine.manager.link s).1 in
      rw (nonzero session_id some_id, valid, idle)
        (commit-Guarded session_id place Session.zeroize _
          (commit_session-Committed session_id place (encaps native place receiver_public_key rng)
            (λ secret. Session.establish secret session_id 0 0) bound
            (establish-Establishes session_id))
          IsCleared-zeroize)

  pair-Establishes :
      (primer2_link : LinkRef) (session_id : ℕ)
      → session_id ≢ 0
      → Establishes session_id (λ secret. establish_pair {W = W} primer2_link secret session_id)
  pair-Establishes primer2_link session_id some_id secret m h =
      elim (establish_pair-fail_closed primer2_link secret session_id m some_id) [
        | inl (_, (e, failed), _) ↦ cc
        | inr (inl (_, now, _)) ↦ rw now (refl, refl, refl)
        | inr (inr ((e, failed), _)) ↦ cc
      ]

  -- `establish_pair_to_sink` with a session number other than 0, a usable random number interface
  -- and no key load under way: either it fails without calling the sink, with the ciphertext and
  -- the shared secret wiped, or it gives the sink the ciphertext in a state where the session is
  -- active under the number, at sequence 0, and the shared secret is wiped. After the sink the
  -- ciphertext is wiped; the session is as it was when the sink accepts, and cleared, with an
  -- error returned, when it refuses.
  pub establish_pair_to_sink-Guarded :
      (native : Option Native) (primer2_link : LinkRef) (receiver_public_key : List ℕ)
      (session_id : ℕ) (rng : Csprng W) (s : Kem W)
      → session_id ≢ 0
      → Rng.is_valid rng ≡ true
      → is_staging s.machine.manager.state ≡ false
      → Guarded session_id (scratch s.machine.manager.link) (zeroize_pair primer2_link) (λ sink.
        establish_pair_to_sink native primer2_link receiver_public_key session_id rng sink s)
  unfolding establish_pair_to_sink with_primer1 bind_primer1
  establish_pair_to_sink-Guarded native primer2_link receiver_public_key session_id rng s some_id
        valid idle =
      let place = scratch s.machine.manager.link in
      let bound = (bind_primer1 s.machine.manager.link s).1 in
      rw (nonzero session_id some_id, valid, idle)
        (commit-Guarded session_id place (zeroize_pair primer2_link) _
          (commit_session-Committed session_id place (encaps native place receiver_public_key rng)
            (λ secret. establish_pair primer2_link secret session_id) bound
            (pair-Establishes primer2_link session_id some_id))
          (zeroize_pair-IsCleared primer2_link))

  routed-Establishes :
      (p1 p2 : Platform W) (session_id : ℕ)
      → is_valid p1 ≡ true
      → is_valid p2 ≡ true
      → session_id ≢ 0
      → Establishes session_id (λ secret. establish_pair_routed p1 p2 secret session_id)
  routed-Establishes p1 p2 session_id v1 v2 some_id secret m h =
      elim (establish_pair_routed-fail_closed p1 p2 secret session_id m v1 v2 some_id) [
        | inl (_, (e, failed), _) ↦ cc
        | inr (inl (_, now, _)) ↦ rw now (refl, refl, refl)
        | inr (inr ((e, failed), _)) ↦ cc
      ]

  rebind-response_buf :
      (p : Platform W) (ref at : LinkRef) (m : Machine W)
      → (cell at (on ref (rebind p) m).1).response_buf ≡ (cell at m).response_buf
  unfolding rebind
  rebind-response_buf p cell_a cell_a m = elim (Bool-cases (is_valid p)) [
    | inl v ↦ rw v refl
    | inr v ↦ rw v refl
  ]
  rebind-response_buf p cell_a cell_b m = refl
  rebind-response_buf p cell_b cell_a m = refl
  rebind-response_buf p cell_b cell_b m = elim (Bool-cases (is_valid p)) [
    | inl v ↦ rw v refl
    | inr v ↦ rw v refl
  ]

  rebind-ciphertext_at :
      (place : Place) (p : Platform W) (ref : LinkRef) (t : Kem W)
      → ciphertext_at place (on_machine (on ref (rebind p)) t).1 ≡ ciphertext_at place t
  unfolding ciphertext_at
  rebind-ciphertext_at caller p ref t = refl
  rebind-ciphertext_at (scratch at) p ref t =
      ap (λ (buf : List ℕ). take ciphertext_bytes (drop session_prefix_bytes buf))
        (rebind-response_buf p ref at t.machine)

  restore_route-Committed :
      (session_id : ℕ) (place : Place) (p1 : Platform W) (rc : Status) (t : Kem W)
      → Committed session_id place (rc, t)
      → Committed session_id place (restore_route p1 (rc, t))
  unfolding restore_route
  restore_route-Committed session_id place p1 (ok _) t c = c
  restore_route-Committed session_id place p1 (err e) t (secret, outcome) = elim outcome [
    | inl (h, _) ↦ cc
    | inr (_, wiped) ↦ (
      secret,
      inr (
        (e, refl),
        subst IsWiped (sym (rebind-ciphertext_at place p1 t.machine.manager.link t)) wiped,
      ),
    )
  ]

  -- `establish_pair_routed_to_sink` with two usable platforms, a session number other than 0, a
  -- usable random number interface and no key load under way: either it fails without calling the
  -- sink, with the ciphertext and the shared secret wiped, or it gives the sink the ciphertext in
  -- a state where the session is active under the number, at sequence 0, and the shared secret is
  -- wiped. After the sink the ciphertext is wiped; the session is as it was when the sink accepts,
  -- and cleared, with an error returned, when it refuses.
  pub establish_pair_routed_to_sink-Guarded :
      (native : Option Native) (p1 p2 : Platform W) (receiver_public_key : List ℕ) (session_id : ℕ)
      (rng : Csprng W) (s : Kem W)
      → session_id ≢ 0
      → is_valid p1 ≡ true
      → is_valid p2 ≡ true
      → Rng.is_valid rng ≡ true
      → is_staging s.machine.manager.state ≡ false
      → Guarded session_id (scratch s.machine.manager.link) (zeroize_pair_routed p1 p2) (λ sink.
        establish_pair_routed_to_sink native p1 p2 receiver_public_key session_id rng sink s)
  unfolding establish_pair_routed_to_sink with_primer1 bind_primer1
  establish_pair_routed_to_sink-Guarded native p1 p2 receiver_public_key session_id rng s some_id v1
        v2 valid idle =
      let link = s.machine.manager.link in
      let place = scratch link in
      let (rc, routed) = on_machine (on link (rebind p1)) s in
      let bound = (bind_primer1 link routed).1 in
      rw (nonzero session_id some_id, v1, v2, valid, idle, rebind-ok p1 link s.machine v1)
        (commit-Guarded session_id place (zeroize_pair_routed p1 p2) _
          (restore_route-Committed session_id place p1 _ _ (
            commit_session-Committed session_id place (encaps native place receiver_public_key rng)
              (λ secret. establish_pair_routed p1 p2 secret session_id) bound
              (routed-Establishes p1 p2 session_id v1 v2 some_id)))
          (λ m. zeroize_pair_routed-IsCleared p1 p2 m v1 v2))
