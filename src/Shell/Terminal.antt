-- ===== src/Shell/Terminal.antt =====
-- The start and the endless loop of `main` in platform/sn32f407/fpst_sn32f407_dual_main.c, from the
-- platforms on. `char line[48]` and `used` are the line that the host is typing.
use fpga_pqc_secure_telemetr.Base.{
  ℕ, zero, suc, ◌+◌, ◌-◌, ◌||◌, none, some, List, [], ◌∷◌, write_at, ltb, ◌==◌, if◌then◌else◌,
  c_string, false,
}
use fpga_pqc_secure_telemetr.Result.{Exec, ok, err, is_ok, ◌>>◌}
use fpga_pqc_secure_telemetr.Platform.{watchdog_feed}
use fpga_pqc_secure_telemetr.Link
use fpga_pqc_secure_telemetr.Session
use fpga_pqc_secure_telemetr.Session.{cell_a, no_key}
use fpga_pqc_secure_telemetr.PairBridge
use fpga_pqc_secure_telemetr.PairBridge.{Rig}
use fpga_pqc_secure_telemetr.Telemetry.{source_init}
use fpga_pqc_secure_telemetr.Shell.{
  Shell, Setup, put_world, prints, on_world, on_session, on_link, say, report_rng, reset_input,
  is_public_key_mode, consume_public_key_hex_byte,
}
use fpga_pqc_secure_telemetr.Shell.Command.{handle_command}

pub record Terminal (W : Type 0) : Type 0 where
  pub shell : Shell W
  pub line : List ℕ
  pub used : ℕ

abbrev pub line_bytes : ℕ
line_bytes = 48

module _ {W : Type 0} (fw : Setup W) where
  -- The harness is not verified: the session is cleared. It has no link object then, and no command
  -- uses it.
  unfoldable pub block_link : Shell W → Shell W
  block_link s =
      let t =
        prints
          (say fw "WARNING: two-Primer harness is not continuity-verified.\r\n"
            ∷ say fw "BTP SPI transactions are intentionally blocked.\r\n"
            ∷ [])
          s in
      record t {
        kem = record t.kem {
          machine = record t.kem.machine {
            manager = record {
              state = no_key;
              session_id = 0;
              next_sequence = 0;
              link = t.kem.machine.manager.link;
            };
          };
        };
        link_initialized = false;
      }

  unfoldable pub init_bridge : Exec (Shell W) (Unit {0})
  init_bridge s =
      let (rc, rig) =
        PairBridge.init_routed fw.platform_p1 fw.platform_p2
          (record { bridge = s.bridge; machine = s.kem.machine }) in
      (rc, record s { kem = record s.kem { machine = rig.machine }; bridge = rig.bridge })

  unfoldable pub init_link : Shell W → Shell W
  init_link s =
      let (rc, t) =
        (do on_link (Link.init fw.platform_p1); on_session (Session.init cell_a); init_bridge) s in
      prints
        ((if is_ok rc then say fw "pair-link-init=OK\r\n" else say fw "pair-link-init=ERR\r\n")
          ∷ [])
        (record t { link_initialized = is_ok rc })

  -- `main` behind the initialisation of the platforms.
  unfoldable pub start : Shell W → Shell W
  start s =
      let t =
        prints
          (say fw "\r\nFPST SN32F407F dual-Primer control firmware\r\n"
            ∷ say fw "baseline=FPST-SYS-SPEC-001-v1.1 P1-TX/P2-RX shared-SPI\r\n"
            ∷ say fw "host=UART0-115200 link=SPI0-1MHz-mode0 CS1=P2.1 CS2=P2.2\r\n"
            ∷ say fw "memory=single-shared-BTP-link low-RAM profile\r\n"
            ∷ [])
          (reset_input s) in
      let (rc, u) = on_world fw.port.csprng_init t in
      let v = report_rng fw (record u {
        telemetry = source_init 1;
        csprng = elim rc [ ok rng ↦ rng | err _ ↦ record { fill = none } ];
        rng_initialized = is_ok rc;
      }) in
      prints (say fw "type 'help' followed by Enter\r\n> " ∷ [])
        (if fw.port.link_wiring_verified then init_link v else block_link v)

  -- The end of a line that is not empty.
  unfoldable pub enter : Terminal W → Terminal W
  enter t =
      let line = write_at t.used (0 ∷ []) t.line in
      let s = handle_command fw (c_string line) t.shell in
      let prompt = prints (say fw "> " ∷ []) s in
      record {
        shell = if is_public_key_mode s.input.input_mode then s else prompt;
        line = line;
        used = 0;
      }

  unfoldable pub receive : ℕ → Terminal W → Terminal W
  receive ch t =
      if is_public_key_mode t.shell.input.input_mode
      then record t { shell = consume_public_key_hex_byte fw ch t.shell }
      else if ch == b'\r' || ch == b'\n'
      then (if t.used == 0 then t else enter t)
      else if ch == 0x08 || ch == 0x7F
      then (if t.used == 0 then t else record t { used = t.used - 1 })
      else if ltb (t.used + 1) line_bytes
      then record t { line = write_at t.used (ch ∷ []) t.line; used = t.used + 1 }
      else t

  -- One round of the loop.
  unfoldable pub round : Terminal W → Terminal W
  round t =
      let (byte, s) = on_world fw.port.uart0_read_byte t.shell in
      let u : Terminal W = record t { shell = s } in
      let v : Terminal W = elim byte [ none ↦ u | some ch ↦ receive ch u ] in
      record v {
        shell = put_world (watchdog_feed fw.platform_p1 v.shell.kem.machine.world) v.shell;
      }

  unfoldable pub rounds : ℕ → Terminal W → Terminal W
  rounds zero t = t
  rounds (suc n) t = rounds n (round t)
