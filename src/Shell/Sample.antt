-- ===== src/Shell/Sample.antt =====
-- The telemetry command: one packet at most, and no new sample while one is retained.
use fpga_pqc_secure_telemetr.Base.{
  ℕ, ◌+◌, ◌%◌, ◌^◌, ◌≡◌, refl, ap, subst, ◌∙◌, true, false, Bool-cases, List, if-cases, not, ◌⊎◌,
  inl, inr,
}
use fpga_pqc_secure_telemetr.Result.{Result, Status, Error, ok, branch-cases}
use fpga_pqc_secure_telemetr.Primer2.{RxResult, rx_empty}
use fpga_pqc_secure_telemetr.Session.{SessionManager, is_active}
use fpga_pqc_secure_telemetr.PairBridge.{Rig, forget_local_copy, retry_retained, send_sample}
use fpga_pqc_secure_telemetr.PairBridge.Forward.{Evidence}
use fpga_pqc_secure_telemetr.PairBridge.Delivery.{
  Delivered, Offered, retry_retained-Delivered, send_sample-Offered,
}
use fpga_pqc_secure_telemetr.Console.{
  console, console_hex_nibble, console_hex16, console_hex_loop, console_hex32, console_hex64,
}
use fpga_pqc_secure_telemetr.Shell.{Shell, Setup, require_link, print_error, on_bridge, on_world}
use fpga_pqc_secure_telemetr.Shell.Command.{
  linked, recover_retained, take_sample, report_unsent, send_sampled, sample_and_send,
  handle_telemetry,
}
use fpga_pqc_secure_telemetr.Shell.Effect.{Blind, prints-Blind, print_error-Blind, linked-Blind}

abbrev pub rig_of : {W : Type 0} → Shell W → Rig W
rig_of s = record { bridge = s.bridge; machine = s.kem.machine }

module _ {W : Type 0} where
  -- Nothing is committed, and no packet is lost.
  pub record Pending (s t : Shell W) : Type 0 where
    pub sequence : t.kem.machine.manager.next_sequence ≡ s.kem.machine.manager.next_sequence
    pub session_id : t.kem.machine.manager.session_id ≡ s.kem.machine.manager.session_id
    pub retained :
        (t.bridge ≡ s.bridge)
        ⊎ (s.bridge.retained_valid ≡ false)
          × (t.bridge.retained_valid ≡ true)
          × (t.bridge.retained_sequence ≡ s.kem.machine.manager.next_sequence)

  -- The retained packet is delivered, on evidence that the receiver gives in this very retry.
  pub record Recovered (s : Shell W) : Type 0 where
    pub retained : s.bridge.retained_valid ≡ true
    pub accepted : (retry_retained rx_empty (rig_of s)).0 ≡ ok tt
    pub evidence :
        Evidence
          (retry_retained rx_empty (rig_of s)).1
          s.bridge.retained_sequence
          s.kem.machine.manager.next_sequence

  -- What the command's `send_sample` comes to for a sample.
  abbrev pub offered : Setup W → List ℕ → Shell W → Status × RxResult × Rig W
  offered fw sample s = send_sample sample fw.tx_result rx_empty (rig_of (take_sample fw s).1)

  -- The sample that this command has taken is delivered, on evidence that the receiver gives for it.
  pub record Accepted (fw : Setup W) (s : Shell W) : Type 0 where
    pub free : s.bridge.retained_valid ≡ false
    pub sample : List ℕ
    pub taken : (take_sample fw s).0 ≡ ok sample
    pub accepted : (offered fw sample s).0 ≡ ok tt
    pub evidence :
        Evidence
          (offered fw sample s).1
          s.kem.machine.manager.next_sequence
          s.kem.machine.manager.next_sequence

  -- One packet is committed.
  pub record Committed (fw : Setup W) (s t : Shell W) : Type 0 where
    pub delivered : Recovered s ⊎ Accepted fw s
    pub manager : t.kem.machine.manager ≡ record s.kem.machine.manager {
      next_sequence = (s.kem.machine.manager.next_sequence + 1) % 2 ^ 64;
    }
    pub bridge : t.bridge ≡ forget_local_copy s.bridge

  abbrev pub Sampled : Setup W → Shell W → Shell W → Type 0
  Sampled fw s t =
      (Pending s t ⊎ Committed fw s t)
      × (s.bridge.retained_valid ≡ false ⊎ t.telemetry ≡ s.telemetry)

  Pending-refl : (s : Shell W) → Pending s s
  Pending-refl s = record { sequence = refl; session_id = refl; retained = inl refl }

  Sampled-Blind : (fw : Setup W) (s : Shell W) → Blind (Sampled fw s)
  Sampled-Blind fw s t w (inl p, h) =
      (inl (record { sequence = p.sequence; session_id = p.session_id; retained = p.retained }), h)
  Sampled-Blind fw s t w (inr c, h) =
      (inr (record { delivered = c.delivered; manager = c.manager; bridge = c.bridge }), h)

module _ {W : Type 0} where
  -- After `retry_retained`.
  Delivered-Sampled :
      (fw : Setup W) (s : Shell W)
      → s.bridge.retained_valid ≡ true
      → Delivered (rig_of s) (retry_retained rx_empty (rig_of s))
      → Sampled fw s (on_bridge (retry_retained rx_empty) s).2
  Delivered-Sampled fw s full (inl (code, (evidence, manager, bridge))) = (
    inr (record {
      delivered = inl (record { retained = full; accepted = code; evidence = evidence });
      manager = manager;
      bridge = bridge;
    }),
    inr refl,
  )
  Delivered-Sampled fw s full (inr (_, (sequence, session_id, bridge))) = (
    inl (record { sequence = sequence; session_id = session_id; retained = inl bridge }),
    inr refl,
  )

  -- The session and the bridge are as they were.
  abbrev Taken : Shell W → Shell W → Type 0
  Taken s t = (t.kem.machine.manager ≡ s.kem.machine.manager) × (t.bridge ≡ s.bridge)

  Taken-Sampled :
      (fw : Setup W) (s t : Shell W) → s.bridge.retained_valid ≡ false → Taken s t → Sampled fw s t
  Taken-Sampled fw s t free (manager, bridge) = (
    inl (record { sequence = cc manager; session_id = cc manager; retained = inl bridge }),
    inl free,
  )

  -- After `send_sample`.
  Offered-Sampled :
      (fw : Setup W) (sample : List ℕ) (s : Shell W)
      → let t = (take_sample fw s).1 in
        s.bridge.retained_valid ≡ false
        → (take_sample fw s).0 ≡ ok sample
        → Taken s t
        → Offered (rig_of t) (offered fw sample s)
        → Sampled fw s (on_bridge (send_sample sample fw.tx_result rx_empty) t).2
  Offered-Sampled fw sample s free taken (same, kept) (inl (code, evidence, manager, bridge)) = (
    inr (record {
      delivered = inr (record {
        free = free;
        sample = sample;
        taken = taken;
        accepted = code;
        evidence =
            subst
              (λ (m : SessionManager).
                Evidence (offered fw sample s).1 m.next_sequence m.next_sequence)
              same evidence;
      });
      manager =
          manager
          ∙ ap (λ (m : SessionManager). record m { next_sequence = (m.next_sequence + 1) % 2 ^ 64 })
              same;
      bridge = bridge ∙ ap forget_local_copy kept;
    }),
    inl free,
  )
  Offered-Sampled fw sample s free taken (same, kept) (inr (_, sequence, session_id, retained)) = (
    inl (record {
      sequence = sequence ∙ ap (λ (m : SessionManager). m.next_sequence) same;
      session_id = session_id ∙ ap (λ (m : SessionManager). m.session_id) same;
      retained = elim retained [
        | inl bridge ↦ inl (bridge ∙ kept)
        | inr (_, full, number) ↦
            inr (free, full, number ∙ ap (λ (m : SessionManager). m.next_sequence) same)
      ];
    }),
    inl free,
  )

module _ {W : Type 0} (fw : Setup W) where
  recover-Sampled :
      (s : Shell W) → s.bridge.retained_valid ≡ true → Sampled fw s (recover_retained fw s)
  unfolding recover_retained
  recover-Sampled s full =
      let (rc, result, t) = on_bridge (retry_retained rx_empty) s in
      let after : Sampled fw s t =
        Delivered-Sampled fw s full (retry_retained-Delivered rx_empty (rig_of s)) in
      branch-cases (Sampled fw s) rc _ _
        (λ _ _. prints-Blind fw (Sampled fw s) (Sampled-Blind fw s) _ t after)
        (λ e _.
          print_error-Blind fw (Sampled fw s) (Sampled-Blind fw s) e _
            (prints-Blind fw (Sampled fw s) (Sampled-Blind fw s) _ t after))

  take_sample-Taken : (s : Shell W) → Taken s (take_sample fw s).1
  unfolding take_sample
  take_sample-Taken s =
      branch-cases (λ (x : Result (List ℕ) × Shell W). Taken s x.1) (on_world fw.port.adc_read s).0
        _ _ (λ _ _. (refl, refl)) (λ _ _. (refl, refl))

  report_unsent-Sampled :
      (e : Error) (s t : Shell W) → Sampled fw s t → Sampled fw s (report_unsent fw e t)
  unfolding report_unsent
  report_unsent-Sampled e s t h = print_error-Blind fw (Sampled fw s) (Sampled-Blind fw s) e _ (
      if-cases (Sampled fw s) t.bridge.retained_valid
        (λ _. prints-Blind fw (Sampled fw s) (Sampled-Blind fw s) _ t h) (λ _. h))

  send_sampled-Sampled :
      (sample : List ℕ) (s : Shell W)
      → s.bridge.retained_valid ≡ false
      → (take_sample fw s).0 ≡ ok sample
      → Sampled fw s (send_sampled fw sample (take_sample fw s).1)
  unfolding send_sampled
  send_sampled-Sampled sample s free e =
      let t = (take_sample fw s).1 in
      let (rc, result, u) = on_bridge (send_sample sample fw.tx_result rx_empty) t in
      let after : Sampled fw s u =
        Offered-Sampled fw sample s free e (take_sample-Taken s)
          (send_sample-Offered sample fw.tx_result rx_empty (rig_of t)) in
      branch-cases (Sampled fw s) rc _ _
        (λ _ _. prints-Blind fw (Sampled fw s) (Sampled-Blind fw s) _ u after)
        (λ e _. report_unsent-Sampled e s u after)

  sample_and_send-Sampled :
      (s : Shell W) → s.bridge.retained_valid ≡ false → Sampled fw s (sample_and_send fw s)
  unfolding sample_and_send
  sample_and_send-Sampled s free =
      let (rc, t) = take_sample fw s in
      branch-cases (Sampled fw s) rc _ _ (λ sample e. send_sampled-Sampled sample s free e)
        (λ e _. report_unsent-Sampled e s t (Taken-Sampled fw s t free (take_sample-Taken s)))

  -- The board with another ADC.
  abbrev pub with_adc : (W → Result ℕ × W) → Setup W
  with_adc adc_read = record fw { port = record fw.port { adc_read = adc_read } }

  handle_telemetry-with_adc :
      (adc_read : W → Result ℕ × W) (s : Shell W)
      → s.bridge.retained_valid ≡ true
      → handle_telemetry (with_adc adc_read) s ≡ handle_telemetry fw s
  unfolding handle_telemetry linked require_link recover_retained console console_hex_loop
      console_hex_nibble console_hex16 console_hex32 console_hex64 print_error
  handle_telemetry-with_adc adc_read s full = elim (Bool-cases s.link_initialized) [
    | inl on ↦ rw (on, full) refl
    | inr off ↦ rw (off) refl
  ]

  handle_telemetry-outcome : (s : Shell W) → Sampled fw s (handle_telemetry fw s)
  unfolding handle_telemetry
  handle_telemetry-outcome s =
      let still : Sampled fw s s = (inl (Pending-refl s), inr refl) in
      linked-Blind fw (Sampled fw s) (Sampled-Blind fw s) _ s still (λ _.
        if-cases (Sampled fw s) (not (is_active s.kem.machine.manager.state))
          (λ _. prints-Blind fw (Sampled fw s) (Sampled-Blind fw s) _ s still)
          (λ _.
            if-cases (Sampled fw s) s.bridge.retained_valid (λ full. recover-Sampled s full)
              (λ free. sample_and_send-Sampled s free)))

  -- With a packet retained, what the ADC would give makes no difference.
  abbrev pub Unsampled : Shell W → Type 0
  Unsampled s =
      (s.bridge.retained_valid ≡ false)
      ⊎ ((adc_read : W → Result ℕ × W)
          → handle_telemetry (with_adc adc_read) s ≡ handle_telemetry fw s)

  -- The telemetry command, whatever the endpoints and the ADC answer: either it commits nothing,
  -- keeps the sequence and the session number, and keeps the bridge or has retained a packet under
  -- the current number where there was none; or it commits exactly one packet, advances the
  -- sequence by one modulo 2 ^ 64 and forgets the local copy, and then its own retry of the
  -- retained packet, or its own `send_sample` of the sample that it took where none was retained,
  -- returned OK with evidence from the receiver in the result. While a packet is retained, the
  -- sample counter stays, and the outcome is the same for whatever the ADC would give.
  pub handle_telemetry-Sampled : (s : Shell W) → Sampled fw s (handle_telemetry fw s) × Unsampled s
  handle_telemetry-Sampled s = (
    handle_telemetry-outcome s,
    elim (Bool-cases s.bridge.retained_valid) [
      | inl full ↦ inr (λ adc_read. handle_telemetry-with_adc adc_read s full)
      | inr free ↦ inl free
    ],
  )
