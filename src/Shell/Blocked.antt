-- ===== src/Shell/Blocked.antt =====
-- While the link is not initialised, no command reaches an endpoint.
use Prim.Native.String.{String}
use fpga_pqc_secure_telemetr.Base.{
  ℕ, zero, suc, ◌≡◌, refl, ap, Bool, false, ◌&&◌, Option, none, some, List, [], ◌∷◌, take,
  text_equal, codes, not, if-cases, if◌then◌else◌,
}
use fpga_pqc_secure_telemetr.Result.{Result, Error, branch-cases}
use fpga_pqc_secure_telemetr.PairBridge.{is_remote}
use fpga_pqc_secure_telemetr.Sn32Port.{Sn32Port}
use fpga_pqc_secure_telemetr.Console.{
  console, console_hex_nibble, console_hex_loop, console_hex8, console_hex16, console_hex32,
  console_hex_bytes,
}
use fpga_pqc_secure_telemetr.Shell.{
  Shell, Setup, kem_with, on_world, run_prints, prints, print_error, require_link, report_rng,
  rng_usable, begin_kem_session_command,
}
use fpga_pqc_secure_telemetr.Shell.Command.{
  linked, handlers, dispatch, handle_command, handle_adc, handle_rng_reseed, handle_fault,
  handle_ping, handle_discover, handle_selftest, handle_id, handle_status, handle_key_status,
  handle_pqc_status, handle_rx_counters, handle_telemetry, handle_zeroize,
}
use fpga_pqc_secure_telemetr.Shell.Effect.{◌▸◌, Each, dispatch-Each}

-- The world after calls of the console, the ADC and the random number generator only.
pub data Local {W : Type 0} (port : Sn32Port W) (w : W) : W → Type 0 where
  same : Local port w w
  writes : (bytes : List ℕ) {v : W} → Local port w v → Local port w (port.uart0_write bytes v)
  samples : {v : W} → Local port w v → Local port w (port.adc_read v).1
  seeds : {v : W} → Local port w v → Local port w (port.csprng_init v).1
  wipes : {v : W} → Local port w v → Local port w (port.csprng_zeroize v)

module _ {W : Type 0} (fw : Setup W) where
  -- An output function only writes to the console.
  abbrev Prints : (W → W) → Type 0
  Prints f = (w v : W) → Local fw.port w v → Local fw.port w (f v)

  abbrev All : List (W → W) → Type 0
  All [] = Unit
  All (f ∷ fs) = Prints f × All fs

  say-Prints : (text : String) → Prints (console fw.port text)
  unfolding console
  say-Prints text w v h = writes (codes text) h

  loop-Prints : (left value : ℕ) → Prints (console_hex_loop fw.port left value)
  unfolding console_hex_loop console_hex_nibble
  loop-Prints zero value w v h = h
  loop-Prints (suc left) value w v h = loop-Prints left value w _ (writes _ h)

  bytes-Prints : (xs : List ℕ) → Prints (console_hex_bytes fw.port xs)
  unfolding console_hex_bytes console_hex8 console_hex_nibble
  bytes-Prints [] w v h = h
  bytes-Prints (x ∷ xs) w v h = bytes-Prints xs w _ (writes _ (writes _ h))

  hex16-Prints : (value : ℕ) → Prints (console_hex16 fw.port value)
  unfolding console_hex16
  hex16-Prints value = loop-Prints 4 value

  hex32-Prints : (value : ℕ) → Prints (console_hex32 fw.port value)
  unfolding console_hex32
  hex32-Prints value = loop-Prints 8 value

  run_prints-Prints : (fs : List (W → W)) → All fs → Prints (run_prints fs)
  unfolding run_prints
  run_prints-Prints [] a w v h = h
  run_prints-Prints (f ∷ fs) a w v h = run_prints-Prints fs a.1 w (f v) (a.0 w v h)

  -- The session, the link objects, the bridge, the sample counter and the key input are as they
  -- were, and the world has seen no endpoint.
  pub record Untouched (s t : Shell W) : Type 0 where
    pub kem : t.kem ≡ kem_with t.kem.machine.world s.kem
    pub bridge : t.bridge ≡ s.bridge
    pub telemetry : t.telemetry ≡ s.telemetry
    pub input : t.input ≡ s.input
    pub blocked : t.link_initialized ≡ s.link_initialized
    pub away : Local fw.port s.kem.machine.world t.kem.machine.world

  Untouched-prints :
      (s t : Shell W) (fs : List (W → W)) → All fs → Untouched s t → Untouched s (prints fs t)
  unfolding prints
  Untouched-prints s t fs a u = record {
    kem = ap (kem_with (run_prints fs t.kem.machine.world)) u.kem;
    bridge = u.bridge;
    telemetry = u.telemetry;
    input = u.input;
    blocked = u.blocked;
    away = run_prints-Prints fs a _ _ u.away;
  }

  Untouched-refl : (s : Shell W) → Untouched s s
  Untouched-refl s = record {
    kem = refl;
    bridge = refl;
    telemetry = refl;
    input = refl;
    blocked = refl;
    away = same;
  }

  print_error-Untouched :
      (e : Error) (s t : Shell W) → Untouched s t → Untouched s (print_error fw e t)
  unfolding print_error
  print_error-Untouched e s t u =
      if-cases (Untouched s) (is_remote e && t.link_initialized)
        (λ _.
          Untouched-prints s t _
            (say-Prints _ ▸ hex16-Prints _ ▸ say-Prints _ ▸ hex16-Prints _ ▸ say-Prints _ ▸ tt) u)
        (λ _. Untouched-prints s t _ (say-Prints _ ▸ hex32-Prints _ ▸ say-Prints _ ▸ tt) u)

  report_rng-Untouched : (s t : Shell W) → Untouched s t → Untouched s (report_rng fw t)
  unfolding report_rng
  report_rng-Untouched s t u =
      Untouched-prints s t _
        (if-cases Prints (rng_usable fw t) (λ _. say-Prints _) (λ _. say-Prints _), tt) u

  require_link-Untouched :
      (s : Shell W)
      → s.link_initialized ≡ false
      → ((require_link fw s).0 ≡ false) × Untouched s (require_link fw s).1
  unfolding require_link
  require_link-Untouched s off =
      if-cases (λ (x : Bool × Shell W). (x.0 ≡ false) × Untouched s x.1) s.link_initialized
        (λ on. cc (on, off))
        (λ _. (refl, Untouched-prints s s _ (say-Prints _, tt) (Untouched-refl s)))

  linked-Untouched :
      (next : Shell W → Shell W) (s : Shell W)
      → s.link_initialized ≡ false
      → Untouched s (linked fw next s)
  unfolding linked
  linked-Untouched next s off =
      let (closed, u) = require_link-Untouched s off in
      if-cases (Untouched s) (require_link fw s).0 (λ on. cc (on, closed)) (λ _. u)

  handle_adc-Untouched : (s : Shell W) → Untouched s (handle_adc fw s)
  unfolding handle_adc
  handle_adc-Untouched s =
      let (rc, t) : Result ℕ × Shell W = on_world fw.port.adc_read s in
      let u : Untouched s t = record {
        kem = refl;
        bridge = refl;
        telemetry = refl;
        input = refl;
        blocked = refl;
        away = samples same;
      } in
      branch-cases (Untouched s) rc _ _
        (λ value _. Untouched-prints s t _ (say-Prints _ ▸ hex16-Prints _ ▸ say-Prints _ ▸ tt) u)
        (λ e _. print_error-Untouched e s t u)

  handle_rng_reseed-Untouched : (s : Shell W) → Untouched s (handle_rng_reseed fw s)
  unfolding handle_rng_reseed
  handle_rng_reseed-Untouched s = report_rng-Untouched s _ (record {
    kem = refl;
    bridge = refl;
    telemetry = refl;
    input = refl;
    blocked = refl;
    away = seeds (wipes same);
  })

  handle_fault-Untouched : (s : Shell W) → Untouched s (handle_fault fw s)
  unfolding handle_fault
  handle_fault-Untouched s =
      Untouched-prints s s _
        (say-Prints _
          ▸ hex16-Prints _
          ▸ say-Prints _
          ▸ hex16-Prints _
          ▸ say-Prints _
          ▸ hex16-Prints _
          ▸ say-Prints _
          ▸ bytes-Prints _
          ▸ say-Prints _
          ▸ tt)
        (Untouched-refl s)

  handlers-Untouched :
      (s : Shell W) → s.link_initialized ≡ false → Each fw (Untouched s) (handlers fw) s
  unfolding handlers dispatch handle_ping handle_discover handle_selftest handle_id handle_status
      handle_key_status handle_pqc_status handle_rx_counters handle_telemetry handle_zeroize
  handlers-Untouched s off =
      let closed = λ (next : Shell W → Shell W). linked-Untouched next s off in
      let said = λ (fs : List (W → W)) (a : All fs). Untouched-prints s s fs a (Untouched-refl s) in
      let wiring : Prints (if fw.port.link_wiring_verified then _ else _) =
        if-cases Prints fw.port.link_wiring_verified (λ _. say-Prints _) (λ _. say-Prints _) in
      said _ (say-Prints _ ▸ say-Prints _ ▸ tt)
      ▸ said _ (wiring ▸ tt)
      ▸ handle_adc-Untouched s
      ▸ report_rng-Untouched s s (Untouched-refl s)
      ▸ handle_rng_reseed-Untouched s
      ▸ closed _
      ▸ closed _
      ▸ closed _
      ▸ closed _
      ▸ closed _
      ▸ closed _
      ▸ closed _
      ▸ closed _
      ▸ closed _
      ▸ closed _
      ▸ closed _
      ▸ closed _
      ▸ closed _
      ▸ handle_fault-Untouched s
      ▸ closed _
      ▸ said _ (say-Prints _ ▸ tt)

  -- Of a command that has begun.
  abbrev Begun : Shell W → Option (Shell W) → Type 0
  Begun s none = Unit
  Begun s (some t) = Untouched s t

  begin-Begun :
      (line : List ℕ) (s : Shell W)
      → s.link_initialized ≡ false
      → Begun s (begin_kem_session_command fw line s)
  unfolding begin_kem_session_command
  begin-Begun line s off =
      let (closed, u) = require_link-Untouched s off in
      if-cases (Begun s) (not (text_equal (take 12 line) (codes "kem-session "))) (λ _. tt)
        (λ _.
          if-cases (Untouched s) (not (require_link fw s).0) (λ _. u)
            (λ on. absurd (cc (on, closed))))

  settle :
      (s d : Shell W) (o : Option (Shell W))
      → Begun s o
      → Untouched s d
      → Untouched s (elim o [ some t ↦ t | none ↦ d ])
  settle s d none h u = u
  settle s d (some t) h u = h

  -- While the link is not initialised, no command line, whatever it holds, reaches an endpoint:
  -- the session, the link objects, the bridge, the sample counter, the key input and the link flag
  -- stay, and the world has changed by calls of the UART, the ADC and the random number generator
  -- only.
  pub handle_command-Untouched :
      (line : List ℕ) (s : Shell W)
      → s.link_initialized ≡ false
      → Untouched s (handle_command fw line s)
  unfolding handle_command
  handle_command-Untouched line s off =
      settle s _ (begin_kem_session_command fw line s) (begin-Begun line s off)
        (dispatch-Each fw (Untouched s) (handlers fw) line s (handlers-Untouched s off))
