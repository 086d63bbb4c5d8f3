-- ===== src/Mlkem/Poll.antt =====
-- src/fpst_mlkem512_wrapper.c: the polling loop of the transform ends by the clock before the fuel
-- of the model is used up.
use fpga_pqc_secure_telemetr.Base.{
  ℕ, zero, suc, ◌+◌, ◌-◌, ◌%◌, ◌^◌, ◌≤◌, ◌<◌, ◌≡◌, refl, sym, subst, ◌∙◌, arith, true, false,
  Bool-cases, inl, inr, leb, not, ◌&&◌, ◌||◌, ◌/=◌, ltb, get_or, length, if-cases, List, [],
}
use fpga_pqc_secure_telemetr.Result.{Result, Status, ok, err, timeout, Exec, continue-cases}
use fpga_pqc_secure_telemetr.Platform.{Platform, IsClock, millis, delay_ms}
use fpga_pqc_secure_telemetr.Profile.{link_command_timeout_ms, link_ntt_timeout_ms}
use fpga_pqc_secure_telemetr.Link.{Port}
use fpga_pqc_secure_telemetr.Link.Opcode.{op_pqc_get_result}
use fpga_pqc_secure_telemetr.Transport.{FrameView}
use fpga_pqc_secure_telemetr.Command.{note_envelope, parse_generic, exchange_raw, command}
use fpga_pqc_secure_telemetr.Command.Exchange.{exchange_raw-Exchanged}
use fpga_pqc_secure_telemetr.Primer1.Pqc.{PqcStatus, pqc_get_result}
use fpga_pqc_secure_telemetr.Mlkem.{poll_loop, poll, transform_status}

-- A status query takes at most `limit` milliseconds.
pub record IsPrompt {W : Type 0} (p : Platform W) (c : IsClock p) (limit : ℕ) : Type 0 where
  pub start :
      (s : Port W) → s.link.platform ≡ p → c.time s.world ≤ c.time (pqc_get_result s).1.world
  pub end :
      (s : Port W)
      → s.link.platform ≡ p
      → c.time (pqc_get_result s).1.world ≤ c.time s.world + limit

module _ {W : Type 0} where
  abbrev SamePlatform : {A : Type 0} → Port W → Result A × Port W → Type 0
  SamePlatform s (rc, t) = t.link.platform ≡ s.link.platform

  parse_generic-SamePlatform :
      (view : FrameView) (capacity : ℕ) (s : Port W)
      → SamePlatform s (parse_generic view capacity s)
  unfolding parse_generic note_envelope
  parse_generic-SamePlatform view capacity s = ground arith

  command-SamePlatform :
      (opcode : ℕ) (payload : List ℕ) (capacity timeout_ms : ℕ) (s : Port W)
      → SamePlatform s (command opcode payload capacity timeout_ms s)
  unfolding command
  command-SamePlatform opcode payload capacity timeout_ms s =
      let (rc, t) = exchange_raw opcode payload timeout_ms s in
      let same : t.link.platform ≡ s.link.platform =
        (exchange_raw-Exchanged opcode payload timeout_ms s).platform in
      continue-cases (SamePlatform s) rc _ t
        (λ view _. parse_generic-SamePlatform view capacity t ∙ same) (λ _ _. same)

  -- A status query keeps the bound platform.
  query-platform : (s : Port W) → SamePlatform s (pqc_get_result s)
  unfolding pqc_get_result
  query-platform s =
      let (rc, t) = command op_pqc_get_result [] 8 link_command_timeout_ms s in
      let same = command-SamePlatform op_pqc_get_result [] 8 link_command_timeout_ms s in
      let P = λ (m : Exec (Port W) PqcStatus). SamePlatform s (m t) in
      continue-cases (SamePlatform s) rc _ t
        (λ response _.
          if-cases P (length response /= 8) (λ _. same)
            (λ _.
              if-cases P
                (ltb 2 (get_or response 2 0)
                  || (ltb 1 (get_or response 3 0) || ltb 5 (get_or response 7 0)))
                (λ _. same) (λ _. same)))
        (λ _ _. same)

module _ {W : Type 0} where
  -- What the clock reads after a query, against the start of the loop, and the state of the next
  -- round.
  abbrev elapsed : ℕ → Port W → ℕ
  elapsed start_ms t = ((millis t.link.platform t.world).0 + 2 ^ 32 - start_ms) % 2 ^ 32

  abbrev next_round : Port W → Port W
  next_round t = record t { world = delay_ms t.link.platform 1 (millis t.link.platform t.world).1 }

  -- A round of the loop, with what follows it.
  abbrev round : ℕ → Result PqcStatus → Port W → (Port W → Status × Port W) → Status × Port W
  round start_ms rc t next = elim rc [
    | err e ↦ (err e, t)
    | ok status ↦ elim (not status.busy && status.done_latched) [
      | true ↦ (transform_status status, t)
      | false ↦ elim (leb link_ntt_timeout_ms (elapsed start_ms t)) [
        | true ↦ (err timeout, record t { world = (millis t.link.platform t.world).1 })
        | false ↦ next (next_round t)
      ]
    ]
  ]

  -- Only a round that ends in time has a next one.
  round-eq :
      (start_ms : ℕ) (rc : Result PqcStatus) (t : Port W) (next next' : Port W → Status × Port W)
      → (leb link_ntt_timeout_ms (elapsed start_ms t) ≡ false
          → next (next_round t) ≡ next' (next_round t))
      → round start_ms rc t next ≡ round start_ms rc t next'
  round-eq start_ms (err e) t next next' h = refl
  round-eq start_ms (ok status) t next next' h =
      elim (Bool-cases (not status.busy && status.done_latched)) [
        | inl d ↦ rw (round, d) refl
        | inr d ↦ elim (Bool-cases (leb link_ntt_timeout_ms (elapsed start_ms t))) [
          | inl f ↦ rw (round, d, f) refl
          | inr f ↦ rw (round, d, f) (h f)
        ]
      ]

module _ {W : Type 0} (p : Platform W) (c : IsClock p) (limit : ℕ) (small : limit ≤ 2 ^ 31)
    (q : IsPrompt p c limit) where
  timely_p :
      (t0 start_ms : ℕ) (w : W)
      → start_ms ≡ t0 % 2 ^ 32
      → t0 ≤ c.time w
      → c.time w ≤ t0 + 2000 + limit
      → leb link_ntt_timeout_ms (((millis p w).0 + 2 ^ 32 - start_ms) % 2 ^ 32) ≡ false
      → (c.time w < t0 + 500)
        × (c.time w + 1 ≤ c.time (delay_ms p 1 (millis p w).1))
        × (c.time (delay_ms p 1 (millis p w).1) ≤ t0 + 2000)
  timely_p t0 start_ms w es h0 h1 early =
      let w' = (millis p w).1 in
      let short : ((millis p w).0 + 2 ^ 32 - start_ms) % 2 ^ 32 < 500 = ground arith in
      let past : (((millis p w).0 + 2 ^ 32 - start_ms) % 2 ^ 32) ≡ c.time w' - t0 =
        omega (arith, c.millis_reads w, c.millis_start w, c.millis_end w, small) in
      (
        omega (arith, short, past, c.millis_start w),
        omega (arith, c.delay_start 1 w', c.millis_start w),
        omega (arith, short, past, c.delay_end 1 w', c.millis_start w),
      )

  -- A round that is not timed out has ended in time, and the next one starts a little later.
  timely :
      (t0 start_ms : ℕ) (t : Port W)
      → t.link.platform ≡ p
      → start_ms ≡ t0 % 2 ^ 32
      → t0 ≤ c.time t.world
      → c.time t.world ≤ t0 + 2000 + limit
      → leb link_ntt_timeout_ms (elapsed start_ms t) ≡ false
      → (c.time t.world < t0 + 500)
        × (c.time t.world + 1 ≤ c.time (next_round t).world)
        × (c.time (next_round t).world ≤ t0 + 2000)
  timely t0 start_ms t same es h0 h1 early = rw same (
      timely_p t0 start_ms t.world es h0 h1 (
        subst
          (λ (p' : Platform W).
            leb link_ntt_timeout_ms (((millis p' t.world).0 + 2 ^ 32 - start_ms) % 2 ^ 32) ≡ false)
          same early))

  poll_loop-enough :
      (fuel extra t0 start_ms : ℕ) (s : Port W)
      → s.link.platform ≡ p
      → start_ms ≡ t0 % 2 ^ 32
      → t0 ≤ c.time s.world
      → c.time s.world ≤ t0 + 2000
      → 1 ≤ fuel
      → t0 + 501 ≤ c.time s.world + fuel
      → poll_loop (fuel + extra) start_ms s ≡ poll_loop fuel start_ms s
  unfolding poll_loop
  poll_loop-enough zero extra t0 start_ms s same es h0 h1 some_fuel hf = absurd (omega arith)
  poll_loop-enough (suc fuel) extra t0 start_ms s same es h0 h1 some_fuel hf =
      let e : suc fuel + extra ≡ suc (fuel + extra) = omega arith in
      let (rc, t) = pqc_get_result s in
      let kept : t.link.platform ≡ p = query-platform s ∙ same in
      rw e (
        round-eq start_ms rc t (poll_loop (fuel + extra) start_ms) (poll_loop fuel start_ms)
          (λ early.
            let in_time =
              timely t0 start_ms t kept es (omega (arith, q.start s same))
                (omega (arith, q.end s same)) early in
            poll_loop-enough fuel extra t0 start_ms (next_round t) kept es
              (omega (arith, q.start s same)) in_time.2 (omega (arith, q.start s same))
              (omega (arith, q.start s same))))

  -- More rounds than `poll` grants its loop change nothing.
  pub poll-enough :
      (extra : ℕ) (s : Port W)
      → s.link.platform ≡ p
      → let (start_ms, w) = millis s.link.platform s.world in
        poll_loop (501 + extra) start_ms (record s { world = w }) ≡ poll s
  unfolding poll
  poll-enough extra s same =
      let (start_ms, w) = millis p s.world in
      subst
        (λ (p' : Platform W).
          poll_loop (501 + extra) (millis p' s.world).0 (record s { world = (millis p' s.world).1 })
          ≡ poll_loop 501 (millis p' s.world).0 (record s { world = (millis p' s.world).1 }))
        (sym same)
        (poll_loop-enough 501 extra (c.time w) start_ms (record s { world = w }) same
          (c.millis_reads s.world) (omega arith) (omega arith) (omega arith) (omega arith))
