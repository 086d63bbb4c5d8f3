-- ===== src/PairBridge/Delivery.antt =====
-- src/fpst_pair_bridge.c: a sample counts as delivered only on evidence from the receiver.
use fpga_pqc_secure_telemetr.Base.{
  ℕ, zero, suc, ◌+◌, ◌%◌, ◌^◌, ◌≡◌, refl, sym, ap, subst, ◌∙◌, true, false, List, arith, if-cases,
  ◌/=◌, ◌||◌, not, ◌⊎◌, inl, inr,
}
use fpga_pqc_secure_telemetr.Result.{
  Status, Error, ok, err, branch-cases, busy, state, timeout, transaction,
}
use fpga_pqc_secure_telemetr.Profile.{stp_retained_bytes, link_max_retries}
use fpga_pqc_secure_telemetr.Primer1.{TelemetryResult, telemetry_tx_sample}
use fpga_pqc_secure_telemetr.Primer2.{RxResult}
use fpga_pqc_secure_telemetr.Session.{SessionManager, Machine, is_active, on}
use fpga_pqc_secure_telemetr.PairBridge.{
  PairBridge, Rig, bind_tx, forget_local_copy, forward_retained_once, retry_loop, retry_retained,
  retain_and_forward, send_sample,
}
use fpga_pqc_secure_telemetr.PairBridge.Forward.{
  ok-injective, Evidence, Released, Kept, Sent, bind_tx-manager, forward-Sent,
}

module _ {W : Type 0} where
  -- What `retry_retained` reports: released, or an error with everything kept.
  abbrev pub Delivered : Rig W → Status × RxResult × Rig W → Type 0
  Delivered g (code, result, g') =
      (code ≡ ok tt) × Released g result g' ⊎ ((e : Error) × (code ≡ err e)) × Kept g g'

  Delivered-from :
      (g g1 : Rig W) (x : Status × RxResult × Rig W)
      → g1.machine.manager ≡ g.machine.manager
      → g1.bridge ≡ g.bridge
      → Delivered g1 x
      → Delivered g x
  Delivered-from g g1 x same_manager same_bridge h = rw⁻¹ (same_manager, same_bridge) h

  pub retry_loop-Delivered :
      (left : ℕ) (rx_result : RxResult) (g : Rig W) → Delivered g (retry_loop left rx_result g)
  unfolding retry_loop
  retry_loop-Delivered zero rx_result g = inr ((timeout, refl), (refl, refl, refl))
  retry_loop-Delivered (suc left) rx_result g =
      let (rc, result, g1) = forward_retained_once rx_result g in
      let end : Sent g (rc, result, g1) = forward-Sent rx_result g in
      branch-cases (Delivered g) rc _ _
        (λ again r. elim end [
          | inl (r', released) ↦
              let stop : again ≡ false = ok-injective (sym r ∙ r') in rw stop (inl (refl, released))
          | inr (inl (r', manager, bridge)) ↦
              let resend : again ≡ true = ok-injective (sym r ∙ r') in
              rw resend (
                Delivered-from g g1 (retry_loop left result g1) manager bridge
                  (retry_loop-Delivered left result g1))
          | inr (inr ((_, r'), _)) ↦ cc (r, r')
        ])
        (λ e r. elim end [
          | inl (r', _) ↦ cc (r, r')
          | inr (inl (r', _, _)) ↦ cc (r, r')
          | inr (inr (_, kept)) ↦ inr ((e, refl), kept)
        ])

  -- `retry_retained` returns OK only on evidence from the receiver that it has the retained
  -- packet, and then the session's sequence has advanced by exactly one modulo 2 ^ 64 and the
  -- local copy is cleared; on an error the sequence, the session number and the whole bridge are
  -- as they were.
  pub retry_retained-Delivered :
      (rx_result : RxResult) (g : Rig W) → Delivered g (retry_retained rx_result g)
  unfolding retry_retained
  retry_retained-Delivered rx_result g =
      if-cases (Delivered g) (not g.bridge.retained_valid)
        (λ _. inr ((state, refl), (refl, refl, refl)))
        (λ _.
          if-cases (Delivered g) (not (is_active g.machine.manager.state))
            (λ _. inr ((state, refl), (refl, refl, refl)))
            (λ _.
              if-cases (Delivered g) (g.bridge.retained_sequence /= g.machine.manager.next_sequence)
                (λ _. inr ((transaction, refl), (refl, refl, refl)))
                (λ _. retry_loop-Delivered (link_max_retries + 1) rx_result g)))

  -- What `send_sample` reports.
  abbrev pub Offered : Rig W → Status × RxResult × Rig W → Type 0
  Offered g (code, result, g') =
      (code ≡ ok tt)
        × Evidence result g.machine.manager.next_sequence g.machine.manager.next_sequence
        × (g'.machine.manager ≡ record g.machine.manager {
          next_sequence = (g.machine.manager.next_sequence + 1) % 2 ^ 64;
        })
        × (g'.bridge ≡ forget_local_copy g.bridge)
      ⊎ ((e : Error) × (code ≡ err e))
        × (g'.machine.manager.next_sequence ≡ g.machine.manager.next_sequence)
        × (g'.machine.manager.session_id ≡ g.machine.manager.session_id)
        × ((g'.bridge ≡ g.bridge)
            ⊎ (g.bridge.retained_valid ≡ false)
              × (g'.bridge.retained_valid ≡ true)
              × (g'.bridge.retained_sequence ≡ g.machine.manager.next_sequence))

  retain-Offered :
      (tx_result : TelemetryResult) (rx_result : RxResult) (g : Rig W)
      → g.bridge.retained_valid ≡ false
      → Offered g (retain_and_forward tx_result rx_result g)
  unfolding retain_and_forward
  retain-Offered tx_result rx_result g free =
      if-cases (Offered g)
        (tx_result.packet_len /= stp_retained_bytes
          || tx_result.sequence /= g.machine.manager.next_sequence)
        (λ _. inr ((transaction, refl), refl, refl, inl refl))
        (λ h.
          let current : tx_result.sequence ≡ g.machine.manager.next_sequence = ground arith in
          let full : Rig W = record g {
            bridge = record g.bridge {
              retained_valid = true;
              retained_sequence = tx_result.sequence;
              retained_packet = tx_result.packet;
            };
          } in
          elim (retry_retained-Delivered rx_result full) [
            | inl (done, (evidence, manager, bridge)) ↦ inl (
              done,
              subst
                  (λ n.
                    Evidence (retry_retained rx_result full).1 n g.machine.manager.next_sequence)
                  current evidence,
              manager,
              bridge,
            )
            | inr (failed, (sequence, id, bridge)) ↦ inr (
              failed,
              sequence,
              id,
              inr (
                free,
                ap (λ (b : PairBridge W). b.retained_valid) bridge,
                ap (λ (b : PairBridge W). b.retained_sequence) bridge ∙ current,
              ),
            )
          ])

  Offered-from :
      (g : Rig W) (m : Machine W) (x : Status × RxResult × Rig W)
      → m.manager ≡ g.machine.manager
      → Offered (record g { machine = m }) x
      → Offered g x
  Offered-from g m x same h = rw⁻¹ same h

  -- `send_sample`, for any sample, bridge and answers of the endpoints, returns OK only on
  -- evidence from the receiver (a commit that names the packet's number, or a replay or gap
  -- refusal that expects the next one), and then the session's sequence has advanced by exactly
  -- one modulo 2 ^ 64, the rest of the manager is unchanged and no copy is retained. On an error
  -- the sequence and the session number are as they were, and the bridge is as it was or, having
  -- held no packet, retains one numbered by the current sequence.
  pub send_sample-Offered :
      (sample : List ℕ) (tx_result : TelemetryResult) (rx_result : RxResult) (g : Rig W)
      → Offered g (send_sample sample tx_result rx_result g)
  unfolding send_sample
  send_sample-Offered sample tx_result rx_result g =
      let m1 = (bind_tx g.bridge g.machine).1 in
      let (rc, m2) = on m1.manager.link (telemetry_tx_sample sample tx_result) m1 in
      let same : m1.manager ≡ g.machine.manager = bind_tx-manager g.bridge g.machine in
      let sequence = ap (λ (x : SessionManager). x.next_sequence) same in
      let id = ap (λ (x : SessionManager). x.session_id) same in
      if-cases (Offered g) (not (is_active g.machine.manager.state))
        (λ _. inr ((state, refl), refl, refl, inl refl))
        (λ _.
          if-cases (Offered g) g.bridge.retained_valid
            (λ _. inr ((busy, refl), refl, refl, inl refl))
            (λ free.
              branch-cases (Offered g) (bind_tx g.bridge g.machine).0 _ _
                (λ _ _.
                  branch-cases (Offered g) rc _ _
                    (λ sent _.
                      Offered-from g m2
                        (retain_and_forward sent rx_result (record g { machine = m2 })) same
                        (retain-Offered sent rx_result (record g { machine = m2 }) free))
                    (λ e _. inr ((e, refl), sequence, id, inl refl)))
                (λ e _. inr ((e, refl), sequence, id, inl refl))))
