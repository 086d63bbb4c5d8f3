-- ===== src/Shell/Invariant.antt =====
-- The main loop: its buffers are never written out of bounds, whatever is typed.
use fpga_pqc_secure_telemetr.Base.{
  ℕ, zero, suc, ◌+◌, ◌<◌, ◌≡◌, ◌≢◌, sym, subst, ◌∙◌, Bool, ◌||◌, Option, none, some, List, [], ◌∷◌,
  length, length-write_at, length-replicate, take, drop, write_at, ltb, ◌==◌, inl, inr, arith, not,
  text_equal, codes, if-cases, option-cases, c_string,
}
use fpga_pqc_secure_telemetr.Result.{Result, continue-cases, ◌>>◌}
use fpga_pqc_secure_telemetr.Link
use fpga_pqc_secure_telemetr.Session
use fpga_pqc_secure_telemetr.Session.{cell_a}
use fpga_pqc_secure_telemetr.Mlkem.{public_key_bytes}
use fpga_pqc_secure_telemetr.Shell.{
  Shell, Setup, is_public_key_mode, prints, on_world, on_link, on_session, put_world, report_rng,
  reset_public_key_input, require_link, require_rng, rng_usable, await_public_key,
  kem_session_arguments, begin_kem_session_command, say,
}
use fpga_pqc_secure_telemetr.Shell.Command.{handlers, handle_command}
use fpga_pqc_secure_telemetr.Shell.Effect.{prints-Blind, dispatch-Each}
use fpga_pqc_secure_telemetr.Shell.KeyBounds.{
  IsInput, HasInput, HasInput-Blind, IsInput-reset, consume-HasInput,
}
use fpga_pqc_secure_telemetr.Shell.Bounds.{Settled, handlers-Settled}
use fpga_pqc_secure_telemetr.Shell.Terminal.{
  Terminal, line_bytes, enter, receive, round, rounds, init_bridge, init_link, block_link, start,
}

-- There is room for the NUL behind what is used of the line.
pub record IsTerminal {W : Type 0} (t : Terminal W) : Type 0 where
  pub size : length t.line ≡ line_bytes
  pub room : t.used < line_bytes
  pub input : IsInput t.shell.input

kem_session_arguments-named :
    (args : List ℕ) (numbers : ℕ × ℕ) → kem_session_arguments args ≡ some numbers → numbers.0 ≢ 0
unfolding kem_session_arguments
kem_session_arguments-named args numbers h = ground arith

module _ {W : Type 0} (fw : Setup W) where
  await-HasInput :
      (session_id crc : ℕ) (s : Shell W)
      → session_id ≢ 0
      → HasInput (await_public_key fw session_id crc s)
  unfolding await_public_key prints reset_public_key_input
  await-HasInput session_id crc s h = record {
    size = length-replicate {A = ℕ} public_key_bytes 0;
    room = omega arith;
    digit = λ n e. cc e;
    idle = λ off. cc off;
    named = λ _. h;
  }

  require_link-HasInput : (s : Shell W) → HasInput s → HasInput (require_link fw s).1
  unfolding require_link prints
  require_link-HasInput s h =
      if-cases (λ (x : Bool × Shell W). HasInput x.1) s.link_initialized (λ _. h) (λ _. h)

  require_rng-HasInput : (s : Shell W) → HasInput s → HasInput (require_rng fw s).1
  unfolding require_rng prints
  require_rng-HasInput s h =
      if-cases (λ (x : Bool × Shell W). HasInput x.1) (rng_usable fw s) (λ _. h) (λ _. h)

  -- Of a command that has begun.
  abbrev Ready : Option (Shell W) → Type 0
  Ready none = Unit
  Ready (some t) = HasInput t

  begin-Ready :
      (line : List ℕ) (s : Shell W) → HasInput s → Ready (begin_kem_session_command fw line s)
  unfolding begin_kem_session_command
  begin-Ready line s h =
      let t = (require_link fw s).1 in
      let u = (require_rng fw t).1 in
      let linked = require_link-HasInput s h in
      let ready = require_rng-HasInput t linked in
      if-cases Ready (not (text_equal (take 12 line) (codes "kem-session "))) (λ _. tt)
        (λ _.
          if-cases HasInput (not (require_link fw s).0) (λ _. linked)
            (λ _.
              if-cases HasInput (not (require_rng fw t).0) (λ _. ready)
                (λ _.
                  option-cases HasInput (kem_session_arguments (drop 12 line)) _ _
                    (λ _. prints-Blind fw HasInput HasInput-Blind _ u ready)
                    (λ numbers found.
                      await-HasInput numbers.0 numbers.1 u
                        (kem_session_arguments-named _ numbers found)))))

  settle :
      (d : Shell W) (o : Option (Shell W))
      → Ready o
      → HasInput d
      → HasInput (elim o [ some t ↦ t | none ↦ d ])
  settle d none h u = u
  settle d (some t) h u = h

  handle_command-HasInput :
      (line : List ℕ) (s : Shell W) → HasInput s → HasInput (handle_command fw line s)
  unfolding handle_command
  handle_command-HasInput line s h =
      settle _ (begin_kem_session_command fw line s) (begin-Ready line s h)
        (elim (dispatch-Each fw (Settled fw s) (handlers fw) line s (handlers-Settled fw s)) [
          | inl same ↦ subst IsInput (sym same) h
          | inr reset ↦ subst IsInput (sym reset) IsInput-reset
        ])

  enter-IsTerminal : (t : Terminal W) → IsTerminal t → IsTerminal (enter fw t)
  unfolding enter
  enter-IsTerminal t h =
      let line = write_at t.used (0 ∷ []) t.line in
      let s = handle_command fw (c_string line) t.shell in
      let input = handle_command-HasInput (c_string line) t.shell h.input in
      record {
        size = length-write_at t.used (0 ∷ []) t.line ∙ h.size;
        room = omega arith;
        input =
            if-cases HasInput (is_public_key_mode s.input.input_mode) (λ _. input)
              (λ _. prints-Blind fw HasInput HasInput-Blind (say fw "> " ∷ []) s input);
      }

  receive-IsTerminal : (ch : ℕ) (t : Terminal W) → IsTerminal t → IsTerminal (receive fw ch t)
  unfolding receive
  receive-IsTerminal ch t h =
      if-cases IsTerminal (is_public_key_mode t.shell.input.input_mode)
        (λ mode. record {
          size = h.size;
          room = h.room;
          input = consume-HasInput fw ch t.shell h.input mode;
        })
        (λ _.
          if-cases IsTerminal (ch == b'\r' || ch == b'\n')
            (λ _. if-cases IsTerminal (t.used == 0) (λ _. h) (λ _. enter-IsTerminal t h))
            (λ _.
              if-cases IsTerminal (ch == 0x08 || ch == 0x7F)
                (λ _.
                  if-cases IsTerminal (t.used == 0) (λ _. h)
                    (λ _. record { size = h.size; room = omega (arith, h.room); input = h.input }))
                (λ _.
                  if-cases IsTerminal (ltb (t.used + 1) line_bytes)
                    (λ fits. record {
                      size = length-write_at t.used (ch ∷ []) t.line ∙ h.size;
                      room = ground (arith, fits);
                      input = h.input;
                    })
                    (λ _. h))))

  -- The watchdog only touches the world.
  fed :
      (t : Terminal W) {w : W}
      → IsTerminal t
      → IsTerminal (record t { shell = put_world w t.shell })
  fed t h = record { size = h.size; room = h.room; input = h.input }

  round-IsTerminal : (t : Terminal W) → IsTerminal t → IsTerminal (round fw t)
  unfolding round
  round-IsTerminal t h =
      let (byte, s) = on_world fw.port.uart0_read_byte t.shell in
      let u : Terminal W = record t { shell = s } in
      let idle : IsTerminal u = record { size = h.size; room = h.room; input = h.input } in
      fed _ (option-cases IsTerminal byte _ _ (λ _. idle) (λ ch _. receive-IsTerminal ch u idle))

  rounds-IsTerminal : (n : ℕ) (t : Terminal W) → IsTerminal t → IsTerminal (rounds fw n t)
  unfolding rounds
  rounds-IsTerminal zero t h = h
  rounds-IsTerminal (suc n) t h = rounds-IsTerminal n (round fw t) (round-IsTerminal t h)

  block_link-HasInput : (s : Shell W) → HasInput s → HasInput (block_link fw s)
  unfolding block_link prints
  block_link-HasInput s h = h

  init_link-HasInput : (s : Shell W) → HasInput s → HasInput (init_link fw s)
  unfolding init_link init_bridge Session.init
  init_link-HasInput s h =
      let P : Result (Unit {0}) × Shell W → Type 0 = λ x. HasInput x.1 in
      prints-Blind fw HasInput HasInput-Blind _ _ (
        continue-cases P (on_link (Link.init fw.platform_p1) s).0
          (λ _. on_session (Session.init cell_a) >> init_bridge fw)
          (on_link (Link.init fw.platform_p1) s).1 (λ _ _. h) (λ _ _. h))

  start-HasInput : (s : Shell W) → HasInput (start fw s)
  unfolding start report_rng prints
  start-HasInput s =
      if-cases HasInput fw.port.link_wiring_verified (λ _. init_link-HasInput _ IsInput-reset)
        (λ _. block_link-HasInput _ IsInput-reset)

  -- After `start` from any state and any number of rounds of the main loop, whatever is typed and
  -- answered: the line keeps its 48 bytes with room for the NUL behind what is used of it, the key
  -- buffer has its 800 bytes and room for the next one, a pending digit is below 16, a key is
  -- awaited only under a session number other than 0, and in command mode nothing of a key is
  -- left.
  pub rounds-start-IsTerminal :
      (n : ℕ) (s : Shell W) (line : List ℕ)
      → length line ≡ line_bytes
      → IsTerminal (rounds fw n (record { shell = start fw s; line = line; used = 0 }))
  rounds-start-IsTerminal n s line size =
      rounds-IsTerminal n _ (record { size = size; room = omega arith; input = start-HasInput s })
