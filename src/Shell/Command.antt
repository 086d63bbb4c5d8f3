-- ===== src/Shell/Command.antt =====
-- The commands of platform/sn32f407/fpst_sn32f407_dual_main.c. Those that talk to an endpoint bind
-- it first, and bind Primer 1 again afterwards, whatever that returns.
use Prim.Native.String.{String}
use fpga_pqc_secure_telemetr.Base.{
  ℕ, ◌+◌, ◌-◌, ◌%◌, ◌^◌, Bool, true, false, none, some, List, [], ◌∷◌, take, if◌then◌else◌, not,
  codes, text_equal, c_string,
}
use fpga_pqc_secure_telemetr.Result.{Result, Error, Exec, ok, err, is_ok, pure, ◌>>=◌, ◌>>◌}
use fpga_pqc_secure_telemetr.Profile.{frame_header_bytes}
use fpga_pqc_secure_telemetr.Link.{Port, rebind}
use fpga_pqc_secure_telemetr.Primer1
use fpga_pqc_secure_telemetr.Primer1.Pqc.{pqc_get_result}
use fpga_pqc_secure_telemetr.Primer2
use fpga_pqc_secure_telemetr.Primer2.{RxResult, rx_empty}
use fpga_pqc_secure_telemetr.Session.{
  SessionState, no_key, staging, active, error, is_active, zeroize_pair_routed,
}
use fpga_pqc_secure_telemetr.PairBridge.{forget_local_copy, retry_retained, send_sample}
use fpga_pqc_secure_telemetr.Telemetry.{build_adc_demo}
use fpga_pqc_secure_telemetr.Console.{
  console_hex16, console_hex32, console_hex64, console_hex_bytes,
}
use fpga_pqc_secure_telemetr.Shell.{
  Shell, Setup, put_world, prints, on_world, on_session, on_link, on_bridge, say, bind_p1,
  print_result, print_error, require_link, report_rng, reset_input, begin_kem_session_command,
}

-- `(uint16_t)g_session.state`
abbrev pub state_code : SessionState → ℕ
state_code no_key = 0
state_code staging = 1
state_code active = 2
state_code error = 3

module _ {W : Type 0} (fw : Setup W) where
  -- `if (!require_link()) return;`
  unfoldable pub linked : (Shell W → Shell W) → Shell W → Shell W
  linked next s = let (ready, t) = require_link fw s in let u = next t in if ready then u else t

  -- A conversation with an endpoint, and Primer 1 bound behind it.
  unfoldable pub routed : {A : Type 0} → Exec (Port W) A → Exec (Shell W) A
  routed talk s = let (rc, t) = on_link talk s in (rc, (bind_p1 fw t).1)

  -- The end of a command that prints what it has got.
  abbrev pub report : {A : Type 0} → (A → List (W → W)) → Result A × Shell W → Shell W
  report show (rc, s) = elim rc [ ok a ↦ prints (show a) s | err e ↦ print_error fw e s ]

  -- A device's name, up to its NUL.
  abbrev pub device_name : List ℕ → W → W
  device_name id = fw.port.uart0_write (c_string id)

  abbrev pub to_p1 : {A : Type 0} → Exec (Port W) A → Exec (Port W) A
  to_p1 talk = rebind fw.platform_p1 >> talk

  abbrev pub to_p2 : {A : Type 0} → Exec (Port W) A → Exec (Port W) A
  to_p2 talk = rebind fw.platform_p2 >> talk

  abbrev pub discover : Exec (Port W) (List ℕ × ℕ × List ℕ × ℕ)
  discover = do
    rebind fw.platform_p1
    id1 ← Primer1.get_device_id
    state1 ← Primer1.get_status
    rebind fw.platform_p2
    id2 ← Primer2.get_device_id
    state2 ← Primer2.get_status
    pure (id1, state1, id2, state2)

  unfoldable pub handle_discover : Shell W → Shell W
  handle_discover = linked (λ s.
      report
        (λ found.
          say fw "primer1="
          ∷ device_name found.0
          ∷ say fw " state=0x"
          ∷ console_hex32 fw.port found.1
          ∷ say fw " primer2="
          ∷ device_name found.2
          ∷ say fw " state=0x"
          ∷ console_hex32 fw.port found.3
          ∷ say fw "\r\n"
          ∷ [])
        (routed discover s))

  abbrev pub selftest : Exec (Port W) (Unit {0})
  selftest = do
    rebind fw.platform_p1
    Primer1.ping (codes "P1TEST")
    rebind fw.platform_p2
    Primer2.ping (codes "P2TEST")

  unfoldable pub handle_selftest : Shell W → Shell W
  handle_selftest = linked (λ s.
      let (rc, t) = routed selftest s in
      elim rc [
        | ok _ ↦ prints (say fw "selftest-pair=PASS\r\n" ∷ []) t
        | err e ↦ print_error fw e (prints (say fw "selftest-pair=FAIL " ∷ []) t)
      ])

  -- What a committed packet is reported with.
  abbrev pub committed : String → ℕ → RxResult → List (W → W)
  committed title sequence result =
      say fw title
      ∷ console_hex64 fw.port sequence
      ∷ say fw " plaintext_len=0x"
      ∷ console_hex16 fw.port result.plaintext_len
      ∷ say fw " receiver_status=0x"
      ∷ console_hex16 fw.port result.remote_status
      ∷ say fw "\r\n"
      ∷ []

  abbrev pub retry_pending : ℕ → Shell W → Shell W
  retry_pending sequence s =
      prints
        (say fw "telemetry=RETRY_PENDING seq=0x"
          ∷ console_hex64 fw.port sequence
          ∷ say fw "\r\n"
          ∷ [])
        s

  -- The retained packet is recovered, and nothing is sampled.
  unfoldable pub recover_retained : Shell W → Shell W
  recover_retained s =
      let retained_sequence = s.bridge.retained_sequence in
      let (rc, result, t) = on_bridge (retry_retained rx_empty) s in
      elim rc [
        | err e ↦ print_error fw e (retry_pending retained_sequence t)
        | ok _ ↦ prints (committed "telemetry=RECOVERED seq=0x" retained_sequence result) t
      ]

  -- A record of the value of the ADC.
  unfoldable pub take_sample : Exec (Shell W) (List ℕ)
  take_sample s =
      let (rc, t) = on_world fw.port.adc_read s in
      let (uptime, u) = on_world fw.port.uptime_ms64 t in
      elim rc [
        | err e ↦ (err e, t)
        | ok adc ↦
            let (built, telemetry) = build_adc_demo uptime adc u.telemetry in
            (built, record u { telemetry = telemetry })
      ]

  -- What an error leaves to be said.
  unfoldable pub report_unsent : Error → Shell W → Shell W
  report_unsent e s =
      let t = retry_pending s.bridge.retained_sequence s in
      print_error fw e (if s.bridge.retained_valid then t else s)

  unfoldable pub send_sampled : List ℕ → Shell W → Shell W
  send_sampled sample s =
      let (rc, result, t) = on_bridge (send_sample sample fw.tx_result rx_empty) s in
      let last = (t.kem.machine.manager.next_sequence + 2 ^ 64 - 1) % 2 ^ 64 in
      elim rc [
        | ok _ ↦ prints (committed "telemetry=COMMITTED seq=0x" last result) t
        | err e ↦ report_unsent e t
      ]

  unfoldable pub sample_and_send : Shell W → Shell W
  sample_and_send s =
      let (rc, t) = take_sample s in
      elim rc [ ok sample ↦ send_sampled sample t | err e ↦ report_unsent e t ]

  unfoldable pub handle_telemetry : Shell W → Shell W
  handle_telemetry = linked (λ s.
      if not (is_active s.kem.machine.manager.state)
      then prints (say fw "BLOCKED: no active P1/P2 session\r\n" ∷ []) s
      else if s.bridge.retained_valid
      then recover_retained s
      else sample_and_send s)

  abbrev pub activity : Bool → W → W
  activity session_active =
      if session_active then say fw " active=1\r\n" else say fw " active=0\r\n"

  -- Primer 1 stays bound in the first case, and is bound again in the second.
  unfoldable pub handle_key_status : Bool → Shell W → Shell W
  handle_key_status primer2 = linked (λ s. elim primer2 [
    | false ↦
        report
          (λ status.
            say fw "p1 session=0x"
            ∷ console_hex32 fw.port status.session_id
            ∷ say fw " tx_seq=0x"
            ∷ console_hex64 fw.port status.tx_sequence
            ∷ activity status.session_active
            ∷ [])
          (on_link (to_p1 Primer1.key_status) s)
    | true ↦
        report
          (λ status.
            say fw "p2 session=0x"
            ∷ console_hex32 fw.port status.session_id
            ∷ say fw " expected=0x"
            ∷ console_hex64 fw.port status.expected_sequence
            ∷ activity status.session_active
            ∷ [])
          (routed (to_p2 Primer2.key_status) s)
  ])

  unfoldable pub handle_rx_counters : Shell W → Shell W
  handle_rx_counters = linked (λ s.
      report
        (λ counters.
          say fw "rx accepted=0x"
          ∷ console_hex32 fw.port counters.accepted
          ∷ say fw " replay=0x"
          ∷ console_hex32 fw.port counters.replay
          ∷ say fw " auth_fail=0x"
          ∷ console_hex32 fw.port counters.auth_fail
          ∷ say fw " expected=0x"
          ∷ console_hex64 fw.port counters.expected_sequence
          ∷ say fw "\r\n"
          ∷ [])
        (routed (to_p2 Primer2.get_counters) s))

  unfoldable pub handle_adc : Shell W → Shell W
  handle_adc s =
      report (λ value. say fw "ADC_P20=0x" ∷ console_hex16 fw.port value ∷ say fw "\r\n" ∷ [])
        (on_world fw.port.adc_read s)

  unfoldable pub handle_rng_reseed : Shell W → Shell W
  handle_rng_reseed s =
      let w = fw.port.csprng_zeroize s.kem.machine.world in
      let (rc, w') = fw.port.csprng_init w in
      report_rng fw (record (put_world w' s) {
        csprng = elim rc [ ok rng ↦ rng | err _ ↦ record { fill = none } ];
        rng_initialized = is_ok rc;
      })

  unfoldable pub handle_ping : Bool → Shell W → Shell W
  handle_ping p2 = linked (λ s.
      let token = codes "SN32" in
      report (λ _. say fw "OK\r\n" ∷ [])
        (routed (if p2 then to_p2 (Primer2.ping token) else to_p1 (Primer1.ping token)) s))

  unfoldable pub handle_id : Bool → Shell W → Shell W
  handle_id p2 = linked (λ s.
      report
        (λ id.
          (if p2 then say fw "device2=" else say fw "device1=")
          ∷ device_name id
          ∷ say fw "\r\n"
          ∷ [])
        (routed (if p2 then to_p2 Primer2.get_device_id else to_p1 Primer1.get_device_id) s))

  unfoldable pub handle_status : Bool → Shell W → Shell W
  handle_status p2 = linked (λ s.
      report
        (λ value.
          (if p2 then say fw "state2=0x" else say fw "state1=0x")
          ∷ console_hex32 fw.port value
          ∷ say fw "\r\n"
          ∷ [])
        (routed (if p2 then to_p2 Primer2.get_status else to_p1 Primer1.get_status) s))

  unfoldable pub handle_pqc_status : Shell W → Shell W
  handle_pqc_status = linked (λ s.
      report (λ status. (if status.busy then say fw "pqc=busy\r\n" else say fw "pqc=idle\r\n") ∷ [])
        (on_link (to_p1 pqc_get_result) s))

  unfoldable pub handle_fault : Shell W → Shell W
  handle_fault s =
      let link = s.kem.machine.link_a in
      prints
        (say fw "session_state=0x"
          ∷ console_hex16 fw.port (state_code s.kem.machine.manager.state)
          ∷ say fw " last_status=0x"
          ∷ console_hex16 fw.port link.last_remote_status
          ∷ say fw " last_detail=0x"
          ∷ console_hex16 fw.port link.last_remote_detail
          ∷ say fw " raw_header="
          ∷ console_hex_bytes fw.port (take frame_header_bytes link.response_buf)
          ∷ say fw "\r\n"
          ∷ [])
        s

  -- The wipes of `zeroize`, with the code of those of the endpoints.
  unfoldable pub wipe_all : Exec (Shell W) (Unit {0})
  wipe_all s =
      let (rc, t) = on_session (zeroize_pair_routed fw.platform_p1 fw.platform_p2) s in
      (
        rc,
        reset_input (record (put_world (fw.port.csprng_zeroize t.kem.machine.world) t) {
          bridge = forget_local_copy t.bridge;
          csprng = record { fill = none };
          rng_initialized = false;
        }),
      )

  unfoldable pub handle_zeroize : Shell W → Shell W
  handle_zeroize = linked (λ s. let (rc, t) = wipe_all s in print_result fw rc t)

  abbrev pub handle_help : Shell W → Shell W
  handle_help s =
      prints
        (say fw
            "help wiring adc rng-status rng-reseed ping ping2 discover selftest id id2 status status2 key-status key-status2 pqc-status rx-counters telemetry fault zeroize kem-session\r\n"
          ∷ say fw "kem-session SSSSSSSS CCCCCCCC -> provision P1 TX + P2 RX atomically\r\n"
          ∷ [])
        s

  abbrev pub handle_wiring : Shell W → Shell W
  handle_wiring s =
      prints
        ((if fw.port.link_wiring_verified
            then say fw "wiring=verified-two-primer\r\n"
            else say fw "wiring=UNVERIFIED\r\n")
          ∷ [])
        s

  -- The commands in the order in which the line is compared with them.
  unfoldable pub handlers : List (String × (Shell W → Shell W))
  handlers =
      ("help", handle_help)
      ∷ ("wiring", handle_wiring)
      ∷ ("adc", handle_adc)
      ∷ ("rng-status", report_rng fw)
      ∷ ("rng-reseed", handle_rng_reseed)
      ∷ ("ping", handle_ping false)
      ∷ ("ping2", handle_ping true)
      ∷ ("discover", handle_discover)
      ∷ ("selftest", handle_selftest)
      ∷ ("id", handle_id false)
      ∷ ("id2", handle_id true)
      ∷ ("status", handle_status false)
      ∷ ("status2", handle_status true)
      ∷ ("key-status", handle_key_status false)
      ∷ ("key-status2", handle_key_status true)
      ∷ ("pqc-status", handle_pqc_status)
      ∷ ("rx-counters", handle_rx_counters)
      ∷ ("telemetry", handle_telemetry)
      ∷ ("fault", handle_fault)
      ∷ ("zeroize", handle_zeroize)
      ∷ []

  -- The first command that the line equals.
  unfoldable pub dispatch : List (String × (Shell W → Shell W)) → List ℕ → Shell W → Shell W
  dispatch [] line s = prints (say fw "UNKNOWN\r\n" ∷ []) s
  dispatch ((name, handler) ∷ rest) line s =
      let next = dispatch rest line s in if text_equal line (codes name) then handler s else next

  unfoldable pub handle_command : List ℕ → Shell W → Shell W
  handle_command line s = elim (begin_kem_session_command fw line s) [
    | some t ↦ t
    | none ↦ dispatch handlers line s
  ]
