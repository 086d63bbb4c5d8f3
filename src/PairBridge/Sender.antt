-- ===== src/PairBridge/Sender.antt =====
-- src/fpst_pair_bridge.c: the bridge is a run of the stop-and-wait sender.
use fpga_pqc_secure_telemetr.Base.{
  ℕ, ◌+◌, ◌%◌, ◌^◌, ◌<◌, ◌≡◌, refl, ap, subst, inl, inr, arith, Bool, true, false, List, [], ◌∷◌,
  if-cases, not, ◌/=◌, ◌||◌,
}
use fpga_pqc_secure_telemetr.Result.{
  Result, Status, Error, ok, err, busy, state, transaction, is_ok, branch-cases,
}
use fpga_pqc_secure_telemetr.Primer1.{TelemetryResult, telemetry_tx_sample}
use fpga_pqc_secure_telemetr.Primer2.{RxResult}
use fpga_pqc_secure_telemetr.Session.{SessionManager, Machine, is_active, on}
use fpga_pqc_secure_telemetr.PairBridge.{
  PairBridge, Rig, bind_tx, retain_and_forward, send_sample, retry_retained, retry_loop,
}
use fpga_pqc_secure_telemetr.PairBridge.Forward.{bind_tx-manager}
use fpga_pqc_secure_telemetr.Profile.{stp_retained_bytes, link_max_retries}
use fpga_pqc_secure_telemetr.PairBridge.Delivery.{retry_retained-Delivered, retry_loop-Delivered}
use fpga_pqc_secure_telemetr.PairBridge.StopAndWait.{
  Sender, idle, waiting, Action, send, retry, next, Step, refused, held, sent, confirmed, Steps,
  stop, step, sender, number-sender, successes, Steps-number,
}

-- A call of the bridge, with the values that its out-parameters hold before.
pub data Call : Type 0 where
  call_send : List ℕ → TelemetryResult → RxResult → Call
  call_retry : RxResult → Call

module _ {W : Type 0} where
  abbrev pub view : Rig W → Sender
  view g =
      let b = g.bridge in
      sender b.retained_valid g.machine.manager.next_sequence b.retained_sequence b.retained_packet

  abbrev pub call : Call → Rig W → Status × RxResult × Rig W
  call (call_send sample tx_result rx_result) g = send_sample sample tx_result rx_result g
  call (call_retry rx_result) g = retry_retained rx_result g

  -- What the transmitter, once bound, answers to the sample.
  abbrev pub answered : List ℕ → TelemetryResult → Rig W → Result TelemetryResult
  answered sample tx_result g =
      let m = (bind_tx g.bridge g.machine).1 in
      (on m.manager.link (telemetry_tx_sample sample tx_result) m).0

  abbrev pub action : Call → Rig W → Action
  action (call_send sample tx_result rx_result) g = send (answered sample tx_result g)
  action (call_retry rx_result) g = retry

  -- The calls one after the other, with what they report.
  unfoldable pub run : List Call → Rig W → List (Action × Bool) × Rig W
  run [] g = ([], g)
  run (c ∷ cs) g =
      let (code, result, g1) = call c g in
      let (reports, g2) = run cs g1 in ((action c g, is_ok code) ∷ reports, g2)

  -- A call is a step from one view to the next.
  abbrev Stepped : Action → Rig W → Status × RxResult × Rig W → Type 0
  Stepped a g (code, result, g') = Step (view g) a (is_ok code) (view g')

  -- Nothing that the view shows has changed.
  refused_by :
      (a : Action) (g g' : Rig W) (e : Error) (result : RxResult)
      → g'.machine.manager.next_sequence ≡ g.machine.manager.next_sequence
      → g'.bridge ≡ g.bridge
      → Stepped a g (err e, result, g')
  refused_by a g g' e result sequence bridge = rw (sequence, bridge) (refused (view g) a)

  -- A step of the abstract machine, by what the view shows before and after.
  amounts_to :
      (a : Action) (g : Rig W) (x : Status × RxResult × Rig W) (before after : Sender)
      (success : Bool)
      → view g ≡ before
      → is_ok x.0 ≡ success
      → view x.2 ≡ after
      → Step before a success after
      → Stepped a g x
  amounts_to a g x before after success hb hs ha st = rw (hb, hs, ha) st

  -- What the view shows of a bridge.
  abbrev shown : PairBridge W → ℕ → Sender
  shown b n = sender b.retained_valid n b.retained_sequence b.retained_packet

  -- The same step, before the transmitter was asked.
  restarted :
      (asked : Result TelemetryResult) (answer : TelemetryResult) (g : Rig W) (m : Machine W)
      (x : Status × RxResult × Rig W)
      → m.manager.next_sequence ≡ g.machine.manager.next_sequence
      → asked ≡ ok answer
      → Stepped (send (ok answer)) (record g { machine = m }) x
      → Stepped (send asked) g x
  restarted asked answer g m x sequence e st =
      rw e
        (subst (λ n. Step (shown g.bridge n) (send (ok answer)) (is_ok x.0) (view x.2)) sequence st)

  -- A send of the transmitter's answer, from an idle sender.
  retain-Stepped :
      (answer : TelemetryResult) (rx_result : RxResult) (g : Rig W)
      → g.bridge.retained_valid ≡ false
      → Stepped (send (ok answer)) g (retain_and_forward answer rx_result g)
  unfolding retain_and_forward
  retain-Stepped answer rx_result g free =
      if-cases (Stepped (send (ok answer)) g)
        (answer.packet_len /= stp_retained_bytes
          || answer.sequence /= g.machine.manager.next_sequence)
        (λ _. refused_by _ g g transaction rx_result refl refl)
        (λ h.
          let size : answer.packet_len ≡ stp_retained_bytes = ground arith in
          let current : answer.sequence ≡ g.machine.manager.next_sequence = ground arith in
          let full : Rig W = record g {
            bridge = record g.bridge {
              retained_valid = true;
              retained_sequence = answer.sequence;
              retained_packet = answer.packet;
            };
          } in
          elim (retry_retained-Delivered rx_result full) [
            | inl (done, (_, manager, bridge)) ↦
                amounts_to _ g (retry_retained rx_result full) (idle answer.sequence)
                  (idle (next answer.sequence)) true (rw (free, current) refl) (ap is_ok done)
                  (rw (bridge, manager, current) refl) (sent answer size)
            | inr ((e, failed), (sequence, _, bridge)) ↦
                amounts_to _ g (retry_retained rx_result full) (idle answer.sequence)
                  (waiting answer.sequence answer.sequence answer.packet) false
                  (rw (free, current) refl) (ap is_ok failed) (rw (bridge, sequence, current) refl)
                  (held answer size)
          ])

  send-Stepped :
      (sample : List ℕ) (tx_result : TelemetryResult) (rx_result : RxResult) (g : Rig W)
      → Stepped (send (answered sample tx_result g)) g (send_sample sample tx_result rx_result g)
  unfolding send_sample
  send-Stepped sample tx_result rx_result g =
      let m1 = (bind_tx g.bridge g.machine).1 in
      let (rc, m2) = on m1.manager.link (telemetry_tx_sample sample tx_result) m1 in
      let same : m1.manager ≡ g.machine.manager = bind_tx-manager g.bridge g.machine in
      let sequence = ap (λ (x : SessionManager). x.next_sequence) same in
      let P = Stepped (send rc) g in
      if-cases P (not (is_active g.machine.manager.state))
        (λ _. refused_by _ g g state rx_result refl refl)
        (λ _.
          if-cases P g.bridge.retained_valid (λ _. refused_by _ g g busy rx_result refl refl)
            (λ free.
              branch-cases P (bind_tx g.bridge g.machine).0 _ _
                (λ _ _.
                  branch-cases P rc _ _
                    (λ answer e.
                      restarted rc answer g m2
                        (retain_and_forward answer rx_result (record g { machine = m2 })) sequence e
                        (retain-Stepped answer rx_result (record g { machine = m2 }) free))
                    (λ e _. refused_by _ g (record g { machine = m2 }) e rx_result sequence refl))
                (λ e _. refused_by _ g (record g { machine = m1 }) e rx_result sequence refl)))

  retry-Stepped : (rx_result : RxResult) (g : Rig W) → Stepped retry g (retry_retained rx_result g)
  unfolding retry_retained
  retry-Stepped rx_result g =
      if-cases (Stepped retry g) (not g.bridge.retained_valid)
        (λ _. refused_by retry g g state rx_result refl refl)
        (λ full.
          if-cases (Stepped retry g) (not (is_active g.machine.manager.state))
            (λ _. refused_by retry g g state rx_result refl refl)
            (λ _.
              if-cases (Stepped retry g)
                (g.bridge.retained_sequence /= g.machine.manager.next_sequence)
                (λ _. refused_by retry g g transaction rx_result refl refl)
                (λ same.
                  let n = g.machine.manager.next_sequence in
                  let valid : g.bridge.retained_valid ≡ true = ground arith in
                  let current : g.bridge.retained_sequence ≡ n = ground arith in
                  let x = retry_loop (link_max_retries + 1) rx_result g in
                  elim (retry_loop-Delivered (link_max_retries + 1) rx_result g) [
                    | inl (done, (_, manager, bridge)) ↦
                        amounts_to retry g x (waiting n n g.bridge.retained_packet) (idle (next n))
                          true (rw (valid, current) refl) (ap is_ok done)
                          (rw (bridge, manager) refl) (confirmed n g.bridge.retained_packet)
                    | inr ((e, failed), (sequence, _, bridge)) ↦
                        amounts_to retry g x (view g) (view g) false refl (ap is_ok failed)
                          (rw (bridge, sequence) refl) (refused (view g) retry)
                  ])))

  steps : (calls : List Call) (g : Rig W) → Steps (view g) (run calls g).0 (view (run calls g).1)
  unfolding run
  steps [] g = stop (view g)
  steps (call_send sample tx_result rx_result ∷ cs) g =
      step _ _ _ _ _ _ (send-Stepped sample tx_result rx_result g) (steps cs _)
  steps (call_retry rx_result ∷ cs) g =
      step _ _ _ retry _ _ (retry-Stepped rx_result g) (steps cs _)

  -- Any list of calls of `send_sample` and `retry_retained`, whatever the endpoints answer and
  -- whatever the bridge holds at first, is a run of an abstract stop-and-wait sender, which is
  -- idle at the next number, or waits with a packet and that packet's number. A send, labelled
  -- with what the transmitter answers to the sample, succeeds or starts to wait only from idle and
  -- on an answer with a full packet that carries the next number, and then it waits with exactly
  -- this packet and number; a retry succeeds only while a packet of the next number waits; every
  -- other call is refused without a change of what the sender holds. When the sequence is below 2
  -- ^ 64 at first, it has advanced in the end by the number of calls that reported success, modulo
  -- 2 ^ 64.
  pub run-Steps :
      (calls : List Call) (g : Rig W)
      → g.machine.manager.next_sequence < 2 ^ 64
      → Steps (view g) (run calls g).0 (view (run calls g).1)
        × ((run calls g).1.machine.manager.next_sequence
            ≡ (g.machine.manager.next_sequence + successes (run calls g).0) % 2 ^ 64)
  run-Steps calls g h =
      let t = (run calls g).1 in
      let here =
        number-sender g.bridge.retained_valid g.machine.manager.next_sequence
          g.bridge.retained_sequence g.bridge.retained_packet in
      let there =
        number-sender t.bridge.retained_valid t.machine.manager.next_sequence
          t.bridge.retained_sequence t.bridge.retained_packet in
      let count = Steps-number (steps calls g) (omega (arith, here)) in
      (steps calls g, omega (arith, here, there, count))
