-- ===== src/PairBridge/Forward.antt =====
-- src/fpst_pair_bridge.c: one transmission of the retained packet, and what the receiver says of it.
use fpga_pqc_secure_telemetr.Base.{
  ℕ, ◌+◌, ◌%◌, ◌^◌, ◌≡◌, refl, sym, ap, ◌∙◌, true, false, arith, if-cases, not, ◌⊎◌, inl, inr,
}
use fpga_pqc_secure_telemetr.Result.{Status, Error, ok, err, branch-cases, transaction}
use fpga_pqc_secure_telemetr.Link.Opcode.{remote_err_replay, remote_err_sequence_gap}
use fpga_pqc_secure_telemetr.Primer2.{RxResult}
use fpga_pqc_secure_telemetr.Session.{SessionManager, Machine, commit_tx, reconcile_tx}
use fpga_pqc_secure_telemetr.Session.Manager.{commit_tx_lem, reconcile_tx_lem}
use fpga_pqc_secure_telemetr.PairBridge.{
  PairBridge, Rig, may_reconcile, commits, deliver, bind_tx, bind_rx, forget_local_copy, Forwarded,
  on_accepted, on_refused, on_answer, forward_retained_once,
}

pub ok-injective : {A : Type 0} {x y : A} → ok x ≡ ok y → x ≡ y
ok-injective h = cc h

-- What the receiver has said of the packet with number `retained`, when the transmitter's sequence
-- is `next`: that it has committed this packet, or that it expects the one after `next`.
abbrev pub Evidence : RxResult → ℕ → ℕ → Type 0
Evidence result retained next =
    (result.commit_accepted ≡ true)
      × (result.sequence_valid ≡ true)
      × (result.sequence ≡ retained)
      × (retained ≡ next)
    ⊎ (result.sequence_valid ≡ true)
      × ((result.remote_status ≡ remote_err_replay)
          ⊎ (result.remote_status ≡ remote_err_sequence_gap))
      × (result.sequence ≡ (next + 1) % 2 ^ 64)

commits-cases :
    (result : RxResult) (retained : ℕ)
    → not (commits result retained) ≡ false
    → (result.commit_accepted ≡ true)
      × (result.sequence_valid ≡ true)
      × (result.sequence ≡ retained)
commits-cases result retained h = ground arith

may_reconcile-cases :
    (e : Error) (result : RxResult)
    → not (may_reconcile e result) ≡ false
    → (result.sequence_valid ≡ true)
      × ((result.remote_status ≡ remote_err_replay)
          ⊎ (result.remote_status ≡ remote_err_sequence_gap))
may_reconcile-cases e result h = ground arith

module _ {W : Type 0} where
  -- Released: the sequence has advanced by one, on evidence, and the local copy is gone.
  abbrev pub Released : Rig W → RxResult → Rig W → Type 0
  Released g result g' =
      Evidence result g.bridge.retained_sequence g.machine.manager.next_sequence
      × (g'.machine.manager ≡ record g.machine.manager {
        next_sequence = (g.machine.manager.next_sequence + 1) % 2 ^ 64;
      })
      × (g'.bridge ≡ forget_local_copy g.bridge)

  -- Kept: the sequence and the local copy are as they were.
  abbrev pub Kept : Rig W → Rig W → Type 0
  Kept g g' =
      (g'.machine.manager.next_sequence ≡ g.machine.manager.next_sequence)
      × (g'.machine.manager.session_id ≡ g.machine.manager.session_id)
      × (g'.bridge ≡ g.bridge)

  -- One transmission: released, to be repeated, or failed.
  abbrev pub Sent : Rig W → Forwarded W → Type 0
  Sent g (code, result, g') =
      (code ≡ ok false) × Released g result g'
      ⊎ (code ≡ ok true) × (g'.machine.manager ≡ g.machine.manager) × (g'.bridge ≡ g.bridge)
      ⊎ ((e : Error) × (code ≡ err e)) × Kept g g'

  pub same_numbers :
      {m m' : SessionManager} {bridge : PairBridge W}
      → m' ≡ m
      → (m'.next_sequence ≡ m.next_sequence) × (m'.session_id ≡ m.session_id) × (bridge ≡ bridge)
  same_numbers h = (
    ap (λ (x : SessionManager). x.next_sequence) h,
    ap (λ (x : SessionManager). x.session_id) h,
    refl,
  )

  on_accepted-Sent : (result : RxResult) (g : Rig W) → Sent g (on_accepted result g)
  unfolding on_accepted
  on_accepted-Sent result g =
      let number = g.bridge.retained_sequence in
      let end = commit_tx_lem number g.machine in
      if-cases (Sent g) (not (commits result number))
        (λ _. inr (inr ((transaction, refl), (refl, refl, refl))))
        (λ h.
          let (accepted, valid, same) = commits-cases result number h in
          branch-cases (Sent g) (commit_tx number g.machine).0 _ _
            (λ _ r. elim end [
              | inl (_, _, current, m) ↦ inl (refl, (inl (accepted, valid, same, current), m, refl))
              | inr (_, r', _) ↦ cc (r, r')
            ])
            (λ e r. elim end [
              | inl (r', _, _, _) ↦ cc (r, r')
              | inr (_, _, m) ↦ inr (inr ((e, refl), same_numbers m))
            ]))

  on_refused-Sent : (rc : Error) (result : RxResult) (g : Rig W) → Sent g (on_refused rc result g)
  unfolding on_refused
  on_refused-Sent rc result g =
      let end = reconcile_tx_lem result.sequence g.machine in
      if-cases (Sent g) (not (may_reconcile rc result))
        (λ _. inr (inr ((rc, refl), (refl, refl, refl))))
        (λ h.
          let (valid, why) = may_reconcile-cases rc result h in
          branch-cases (Sent g) (reconcile_tx result.sequence g.machine).0 _ _
            (λ again r. elim end [
              | inl (r', _, same, _) ↦
                  let resend : again ≡ true = ok-injective (sym r ∙ r') in
                  inr (inl (ap ok resend, ap (λ (x : Machine W). x.manager) same, rw resend refl))
              | inr (inl (r', next, _, m)) ↦
                  let stop : again ≡ false = ok-injective (sym r ∙ r') in
                  inl (ap ok stop, (inr (valid, why, next), m, rw stop refl))
              | inr (inr (_, r', _)) ↦ cc (r, r')
            ])
            (λ e r. elim end [
              | inl (r', _, _, _) ↦ cc (r, r')
              | inr (inl (r', _, _, _)) ↦ cc (r, r')
              | inr (inr (_, _, inl m)) ↦ inr (inr ((e, refl), same_numbers m))
              | inr (inr (_, _, inr m)) ↦ inr (inr ((e, refl), same_numbers m))
            ]))

  on_answer-Sent : (rc : Status) (result : RxResult) (g : Rig W) → Sent g (on_answer rc result g)
  unfolding on_answer
  on_answer-Sent rc result g =
      branch-cases (Sent g) rc _ _ (λ _ _. on_accepted-Sent result g)
        (λ e _. on_refused-Sent e result g)

  pub bind_tx-manager :
      (bridge : PairBridge W) (s : Machine W) → (bind_tx bridge s).1.manager ≡ s.manager
  unfolding bind_tx
  bind_tx-manager bridge s =
      if-cases (λ (x : Status × Machine W). x.1.manager ≡ s.manager) bridge.routed_shared_link
        (λ _. refl) (λ _. refl)

  pub bind_rx-manager :
      (bridge : PairBridge W) (s : Machine W) → (bind_rx bridge s).1.manager ≡ s.manager
  unfolding bind_rx
  bind_rx-manager bridge s =
      if-cases (λ (x : Status × Machine W). x.1.manager ≡ s.manager) bridge.routed_shared_link
        (λ _. refl) (λ _. refl)

  -- What was said of a state with the same session and bridge.
  pub Sent-from :
      (g : Rig W) (m : Machine W) (x : Forwarded W)
      → m.manager ≡ g.machine.manager
      → Sent (record g { machine = m }) x
      → Sent g x
  Sent-from g m (code, result, g') same h = rw⁻¹ same h

  pub forward-Sent : (rx_result : RxResult) (g : Rig W) → Sent g (forward_retained_once rx_result g)
  unfolding forward_retained_once
  forward-Sent rx_result g =
      let m1 = (bind_rx g.bridge g.machine).1 in
      let (rc, result, m2) = deliver g.bridge.rx_link g.bridge.retained_packet rx_result m1 in
      let m3 = (bind_tx g.bridge m2).1 in
      let same1 : m1.manager ≡ g.machine.manager = bind_rx-manager g.bridge g.machine in
      let same3 : m3.manager ≡ g.machine.manager = bind_tx-manager g.bridge m2 ∙ same1 in
      branch-cases (Sent g) (bind_rx g.bridge g.machine).0 _ _
        (λ _ _.
          branch-cases (Sent g) (bind_tx g.bridge m2).0 _ _
            (λ _ _.
              Sent-from g m3 (on_answer rc result (record g { machine = m3 })) same3
                (on_answer-Sent rc result (record g { machine = m3 })))
            (λ e _. inr (inr ((e, refl), same_numbers same3))))
        (λ e _. inr (inr ((e, refl), same_numbers same1)))
