-- ===== src/Shell.antt =====
-- platform/sn32f407/fpst_sn32f407_dual_main.c: the globals of the main program with one link object
-- for both endpoints, what it prints, and the input of a receiver's public key. The endpoints are
-- used through `g_link`, which is the first link object of the machine.
pub mod Command
pub mod Terminal
pub mod KeyEntry
pub mod Outcome
pub mod Blocked
pub mod Effect
pub mod Sample
pub mod Wiped
pub mod KeyBounds
pub mod Bounds
pub mod Invariant
use Prim.Native.String.{String}
use fpga_pqc_secure_telemetr.Base.{
  ℕ, ◌+◌, ◌-◌, ◌*◌, ◌/◌, ◌%◌, ◌^◌, Bool, true, false, ◌&&◌, ◌||◌, Option, none, some, List, [], ◌∷◌,
  length, take, drop, replicate, get_or, write_at, to_byte, leb, ◌==◌, ◌/=◌, if◌then◌else◌, not,
  codes, text_equal,
}
use fpga_pqc_secure_telemetr.Result.{
  Result, Error, Status, Exec, ok, err, argument, buffer_too_small, format, crc, timeout, io, busy,
  state, remote, version, transaction,
}
use fpga_pqc_secure_telemetr.Crc.{crc32_iso_hdlc}
use fpga_pqc_secure_telemetr.Platform.{Platform}
use fpga_pqc_secure_telemetr.Csprng.{Csprng}
use fpga_pqc_secure_telemetr.Link.{Port, rebind}
use fpga_pqc_secure_telemetr.Primer1.{TelemetryResult}
use fpga_pqc_secure_telemetr.Primer2.{RxResult}
use fpga_pqc_secure_telemetr.Session.{LinkRef, cell_a, Machine, on}
use fpga_pqc_secure_telemetr.PairBridge.{PairBridge, Rig, is_remote}
use fpga_pqc_secure_telemetr.Telemetry.{TelemetrySource}
use fpga_pqc_secure_telemetr.Mlkem.{Kem, public_key_bytes, ciphertext_bytes}
use fpga_pqc_secure_telemetr.Mlkem.Lowram.{Native}
use fpga_pqc_secure_telemetr.Mlkem.Establish.{Sink, on_machine, establish_pair_routed_to_sink}
use fpga_pqc_secure_telemetr.Sn32Port.{Sn32Port}
use fpga_pqc_secure_telemetr.Console.{
  console, console_hex8, console_hex16, console_hex32, console_hex_bytes, hex_value,
  parse_hex32_exact,
}

-- fpst_host_input_mode_t
pub data InputMode : Type 0 where
  command_mode kem_public_key_hex_mode : InputMode

-- The globals of the key input; a negative `g_public_key_high_nibble` is `none`.
pub record KeyInput : Type 0 where
  pub receiver_public_key : List ℕ
  pub input_mode : InputMode
  pub pending_session_id : ℕ
  pub pending_public_key_crc : ℕ
  pub public_key_bytes : ℕ
  pub public_key_high_nibble : Option ℕ

-- The other globals. `kem` has the session, the link object and the world.
pub record Shell (W : Type 0) : Type 0 where
  pub kem : Kem W
  pub bridge : PairBridge W
  pub csprng : Csprng W
  pub telemetry : TelemetrySource
  pub link_initialized : Bool
  pub rng_initialized : Bool
  pub input : KeyInput

-- What the program is linked with, the platforms that its initialisation fills, and what a local
-- variable of `send_sample` holds at first.
pub record Setup (W : Type 0) : Type 0 where
  pub port : Sn32Port W
  pub native : Option Native
  pub platform_p1 : Platform W
  pub platform_p2 : Platform W
  pub tx_result : TelemetryResult

-- `(uint32_t)rc`
abbrev pub error_code : Error → ℕ
error_code argument = 2 ^ 32 - 1
error_code buffer_too_small = 2 ^ 32 - 2
error_code format = 2 ^ 32 - 3
error_code crc = 2 ^ 32 - 4
error_code timeout = 2 ^ 32 - 5
error_code io = 2 ^ 32 - 6
error_code busy = 2 ^ 32 - 7
error_code state = 2 ^ 32 - 8
error_code remote = 2 ^ 32 - 9
error_code version = 2 ^ 32 - 10
error_code transaction = 2 ^ 32 - 11

abbrev pub is_public_key_mode : InputMode → Bool
is_public_key_mode command_mode = false
is_public_key_mode kem_public_key_hex_mode = true

unfoldable pub reset_public_key_input : KeyInput
reset_public_key_input = record {
  receiver_public_key = replicate public_key_bytes 0;
  input_mode = command_mode;
  pending_session_id = 0;
  pending_public_key_crc = 0;
  public_key_bytes = 0;
  public_key_high_nibble = none;
}

-- The byte of two digits goes into the buffer.
abbrev pub store_key_byte : ℕ → ℕ → KeyInput → KeyInput
store_key_byte high low i = record i {
  receiver_public_key = write_at i.public_key_bytes ((high * 16 + low) ∷ []) i.receiver_public_key;
  public_key_bytes = i.public_key_bytes + 1;
  public_key_high_nibble = none;
}

-- The command behind its prefix. `none` is a parse error.
unfoldable pub kem_session_arguments : List ℕ → Option (ℕ × ℕ)
kem_session_arguments args = elim (parse_hex32_exact args) [
  | none ↦ none
  | some session_id ↦
      if session_id == 0 || get_or args 8 0 /= b' '
      then none
      else elim (parse_hex32_exact (drop 9 args)) [
        | none ↦ none
        | some public_key_crc ↦
            if get_or args 17 0 /= 0 then none else some (session_id, public_key_crc)
      ]
]

module _ {W : Type 0} where
  abbrev pub kem_with : W → Kem W → Kem W
  kem_with w kem = record kem { machine = record kem.machine { world = w } }

  abbrev pub put_world : W → Shell W → Shell W
  put_world w s = record s { kem = kem_with w s.kem }

  abbrev pub reset_input : Shell W → Shell W
  reset_input s = record s { input = reset_public_key_input }

  -- Output, in order.
  unfoldable pub run_prints : List (W → W) → W → W
  run_prints [] w = w
  run_prints (f ∷ fs) w = run_prints fs (f w)

  unfoldable pub prints : List (W → W) → Shell W → Shell W
  prints fs s = put_world (run_prints fs s.kem.machine.world) s

  abbrev pub on_world : {A : Type 0} → (W → A × W) → Shell W → A × Shell W
  on_world f s = let (a, w) = f s.kem.machine.world in (a, put_world w s)

  abbrev pub on_session : {A : Type 0} → Exec (Machine W) A → Exec (Shell W) A
  on_session m s = let (rc, kem) = on_machine m s.kem in (rc, record s { kem = kem })

  -- A function of the lower layers on `g_link`.
  abbrev pub on_link : {A : Type 0} → Exec (Port W) A → Exec (Shell W) A
  on_link m s = on_session (on cell_a m) s

  -- A function of the pair bridge.
  abbrev pub on_bridge : (Rig W → Status × RxResult × Rig W) → Shell W → Status × RxResult × Shell W
  on_bridge f s =
      let (rc, result, rig) = f (record { bridge = s.bridge; machine = s.kem.machine }) in
      (rc, result, record s { kem = record s.kem { machine = rig.machine }; bridge = rig.bridge })

module _ {W : Type 0} (fw : Setup W) where
  abbrev pub say : String → W → W
  say text = console fw.port text

  unfoldable pub bind_p1 : Exec (Shell W) (Unit {0})
  bind_p1 s = on_link (rebind fw.platform_p1) s

  unfoldable pub bind_p2 : Exec (Shell W) (Unit {0})
  bind_p2 s = on_link (rebind fw.platform_p2) s

  -- `fpst_fpga_link_t` has the status and detail of the last remote error.
  unfoldable pub print_error : Error → Shell W → Shell W
  print_error e s =
      let link = s.kem.machine.link_a in
      if is_remote e && s.link_initialized
      then prints
          (say "REMOTE_ERR status=0x"
            ∷ console_hex16 fw.port link.last_remote_status
            ∷ say " detail=0x"
            ∷ console_hex16 fw.port link.last_remote_detail
            ∷ say "\r\n"
            ∷ [])
          s
      else prints (say "ERR code=0x" ∷ console_hex32 fw.port (error_code e) ∷ say "\r\n" ∷ []) s

  unfoldable pub print_result : Status → Shell W → Shell W
  print_result rc s = elim rc [ ok _ ↦ prints (say "OK\r\n" ∷ []) s | err e ↦ print_error e s ]

  unfoldable pub require_link : Shell W → Bool × Shell W
  require_link s = if s.link_initialized then (true, s) else (
    false,
    prints (say "BLOCKED: two-Primer harness is not verified/initialized.\r\n" ∷ []) s,
  )

  abbrev pub rng_usable : Shell W → Bool
  rng_usable s = s.rng_initialized && fw.port.csprng_ready s.kem.machine.world

  unfoldable pub require_rng : Shell W → Bool × Shell W
  require_rng s =
      if rng_usable s
      then (true, s)
      else (false, prints (say "BLOCKED: conditioned ADC entropy is not ready.\r\n" ∷ []) s)

  unfoldable pub report_rng : Shell W → Shell W
  report_rng s =
      prints
        ((if rng_usable s
            then say "rng=ADC_P20-conditioned READY (research/competition)\r\n"
            else say "rng=BLOCKED; check ADC_P20/potentiometer entropy\r\n")
          ∷ [])
        s

  -- The argument is the session number that the context points at.
  unfoldable pub uart_ciphertext_sink : ℕ → Sink W
  uart_ciphertext_sink session_id ciphertext w =
      if length ciphertext /= ciphertext_bytes then (err argument, w) else (
        ok tt,
        run_prints
            (say "KEM_CT_BEGIN session=0x"
              ∷ console_hex32 fw.port session_id
              ∷ say " len=0x"
              ∷ console_hex16 fw.port (length ciphertext % 2 ^ 16)
              ∷ say " crc32=0x"
              ∷ console_hex32 fw.port (crc32_iso_hdlc ciphertext)
              ∷ say "\r\nKEM_CT_HEX="
              ∷ console_hex_bytes fw.port ciphertext
              ∷ say "\r\nKEM_CT_END\r\n"
              ∷ [])
            w,
      )

  unfoldable pub abort_public_key_input : String → Shell W → Shell W
  abort_public_key_input reason s =
      prints (say "> " ∷ [])
        (reset_input (prints (say "\r\nKEM_PK_ABORT: " ∷ say reason ∷ say "\r\n" ∷ []) s))

  -- The end of `finish_public_key_input`.
  unfoldable pub announce_session : ℕ → Status → Shell W → Shell W
  announce_session session_id rc s = prints (say "> " ∷ []) (elim rc [
    | ok _ ↦
        prints
          (say "kem-pair-session=ACTIVE session=0x"
            ∷ console_hex32 fw.port session_id
            ∷ say " p1_seq=0 p2_expected=0\r\n"
            ∷ [])
          s
    | err e ↦ print_error e (prints (say "kem-pair-session=FAILED " ∷ []) s)
  ])

  -- The establishment from a key whose checksum is right.
  unfoldable pub establish_from_input : Shell W → Shell W
  establish_from_input s =
      let session_id = s.input.pending_session_id in
      let t =
        prints (say "\r\nKEM_PK_OK; establishing ML-KEM-512 P1-TX/P2-RX session...\r\n" ∷ []) s in
      let (rc, kem) =
        establish_pair_routed_to_sink fw.native fw.platform_p1 fw.platform_p2
          t.input.receiver_public_key session_id t.csprng (uart_ciphertext_sink session_id) t.kem in
      announce_session session_id rc (reset_input (record t { kem = kem }))

  unfoldable pub finish_public_key_input : Shell W → Shell W
  finish_public_key_input s =
      let actual_crc = crc32_iso_hdlc s.input.receiver_public_key in
      if actual_crc /= s.input.pending_public_key_crc
      then prints (say "> " ∷ []) (
          reset_input (
            prints
              (say "\r\nKEM_PK_CRC_FAIL expected=0x"
                ∷ console_hex32 fw.port s.input.pending_public_key_crc
                ∷ say " actual=0x"
                ∷ console_hex32 fw.port actual_crc
                ∷ say "\r\n"
                ∷ [])
              s))
      else establish_from_input s

  -- The second digit of a byte.
  unfoldable pub complete_key_byte : ℕ → ℕ → Shell W → Shell W
  complete_key_byte high low s =
      let t = record s { input = store_key_byte high low s.input } in
      if leb public_key_bytes s.input.public_key_bytes
      then abort_public_key_input "public key overflow" s
      else if t.input.public_key_bytes == public_key_bytes
      then finish_public_key_input t
      else t

  unfoldable pub consume_public_key_hex_byte : ℕ → Shell W → Shell W
  consume_public_key_hex_byte ch s =
      if ch == 0x03 || ch == 0x1B
      then abort_public_key_input "operator abort" s
      else if ch == b' ' || (ch == b'\t' || (ch == b'\r' || ch == b'\n'))
      then s
      else elim (hex_value ch) [
        | none ↦ abort_public_key_input "non-hex input" s
        | some nibble ↦ elim s.input.public_key_high_nibble [
          | none ↦ record s { input = record s.input { public_key_high_nibble = some nibble } }
          | some high ↦ complete_key_byte high nibble s
        ]
      ]

  abbrev pub kem_session_usage : Shell W → Shell W
  kem_session_usage s =
      prints
        (say "usage: kem-session SSSSSSSS CCCCCCCC\r\n"
          ∷ say "  S = nonzero session_id hex, C = CRC32/ISO-HDLC of 800-byte public key\r\n"
          ∷ [])
        s

  -- The mode is entered with both numbers of the command.
  unfoldable pub await_public_key : ℕ → ℕ → Shell W → Shell W
  await_public_key session_id public_key_crc s =
      prints
        (say
            "KEM_PK_READY bytes=800 encoding=hex; send exactly 1600 hex digits; ESC/Ctrl-C aborts\r\n"
          ∷ [])
        (record s {
          input = record reset_public_key_input {
            pending_session_id = session_id;
            pending_public_key_crc = public_key_crc;
            input_mode = kem_public_key_hex_mode;
          };
        })

  -- `none` where the line is another command.
  unfoldable pub begin_kem_session_command : List ℕ → Shell W → Option (Shell W)
  begin_kem_session_command line s =
      let (linked, t) = require_link s in
      let (ready, u) = require_rng t in
      if not (text_equal (take 12 line) (codes "kem-session "))
      then none
      else some (
          if not linked
          then t
          else if not ready
          then u
          else elim (kem_session_arguments (drop 12 line)) [
            | none ↦ kem_session_usage u
            | some numbers ↦ await_public_key numbers.0 numbers.1 u
          ])
