-- ===== src/Link.antt =====
-- src/fpst_fpga_link.c: one BTP request and response over SPI, with retries. The state is the link
-- object and the world that the platform's callbacks act on.
pub mod Opcode
use Opcode.{generic_response_bytes, remote_ok}
pub mod Buffers
pub mod Wait
use fpga_pqc_secure_telemetr.Base.{
  ℕ, zero, suc, ◌+◌, ◌-◌, ◌%◌, ◌^◌, Bool, true, false, ◌||◌, Option, none, some, List, [], ◌∷◌,
  ◌++◌, map, length, get_or, take, drop, replicate, write_at, to_byte, bit_and, ltb, ◌==◌, ◌/=◌,
  if◌then◌else◌,
}
use fpga_pqc_secure_telemetr.Result.{
  Result, Status, Exec, ok, err, argument, buffer_too_small, format, version, timeout, remote,
  transaction, fail, pure, continue, ◌>>=◌, ◌>>◌,
}
use fpga_pqc_secure_telemetr.Profile.{
  link_profile_version, link_max_payload, link_max_frame, link_ready_timeout_ms, link_max_retries,
  link_reset_pulse_ms, frame_header_bytes, frame_trailer_bytes, frame_sof0, frame_sof1,
  frame_flag_response, frame_flag_error, frame_flags_more_async, frame_forbidden_flags,
}
use fpga_pqc_secure_telemetr.Codec.{load_be16, load_be32}
use fpga_pqc_secure_telemetr.Transport.{FrameView, frame_encode, frame_decode}
use fpga_pqc_secure_telemetr.Platform.{
  Platform, is_valid, millis, delay_ms, fpga_irq, spi_begin, spi_transfer, spi_end, fpga_reset,
  watchdog_feed,
}

abbrev pub mcu_max_request_payload : ℕ
mcu_max_request_payload = 514

abbrev pub mcu_max_response_payload : ℕ
mcu_max_response_payload = 524

-- FPST_LINK_MCU_BUFFER_FRAME and FPST_LINK_MCU_RESPONSE_STORAGE_BYTES
abbrev pub mcu_buffer_frame : ℕ
mcu_buffer_frame = 538

abbrev pub mcu_response_storage_bytes : ℕ
mcu_response_storage_bytes = 816

-- fpst_fpga_link_t
pub record FpgaLink (W : Type 0) : Type 0 where
  pub platform : Platform W
  pub next_transaction_id : ℕ
  pub last_remote_status : ℕ
  pub last_remote_detail : ℕ
  pub last_device_state : ℕ
  pub last_data_len : ℕ
  pub request_buf : List ℕ
  pub response_buf : List ℕ

-- A link object, and the world.
pub record Port (W : Type 0) : Type 0 where
  pub link : FpgaLink W
  pub world : W

module _ {W : Type 0} where
  -- `do { … } while ((uint32_t)(millis() - start) < timeout_ms)`, with fuel for the rounds.
  unfoldable pub wait_loop : ℕ → ℕ → ℕ → Exec (Port W) (Unit {0})
  wait_loop zero start timeout_ms s = (err timeout, s)
  wait_loop (suc fuel) start timeout_ms s =
      let p = s.link.platform in
      let (irq, w1) = fpga_irq p s.world in
      let (now, w2) = millis p (delay_ms p 1 (watchdog_feed p w1)) in
      elim irq [
        | true ↦ (ok tt, record s { world = w1 })
        | false ↦ elim (ltb ((now + 2 ^ 32 - start) % 2 ^ 32) timeout_ms) [
          | true ↦ wait_loop fuel start timeout_ms (record s { world = w2 })
          | false ↦ (err timeout, record s { world = w2 })
        ]
      ]

  unfoldable pub wait_irq : ℕ → Exec (Port W) (Unit {0})
  wait_irq timeout_ms s =
      let (start, w) = millis s.link.platform s.world in
      wait_loop (timeout_ms + 1) start timeout_ms (record s { world = w })

  unfoldable pub send_request : List ℕ → Exec (Port W) (Unit {0})
  send_request frame s =
      let p = s.link.platform in
      let (rc, w1) = spi_begin p s.world in
      let (rc', _, w2) = spi_transfer p (some frame) (length frame) link_ready_timeout_ms w1 in
      elim rc [
        | ok _ ↦ (rc', record s { world = spi_end p w2 })
        | err e ↦ (err e, record s { world = w1 })
      ]

  -- `while (already_clocked < FPST_LINK_MAX_FRAME)`, with fuel for the rounds.
  unfoldable pub drain_loop : ℕ → ℕ → Platform W → W → W
  drain_loop zero already_clocked p w = w
  drain_loop (suc fuel) already_clocked p w = elim (ltb already_clocked link_max_frame) [
    | true ↦
        let left = link_max_frame - already_clocked in
        let chunk : ℕ = if ltb 32 left then 32 else left in
        let (rc, _, w') = spi_transfer p none chunk link_ready_timeout_ms w in
        elim rc [ ok _ ↦ drain_loop fuel (already_clocked + chunk) p w' | err _ ↦ w' ]
    | false ↦ w
  ]

  unfoldable pub drain_response_to_max : ℕ → Port W → Port W
  drain_response_to_max already_clocked s = record s {
    world = drain_loop link_max_frame already_clocked s.link.platform s.world;
  }

  -- `spi_transfer(ctx, NULL, &frame[offset], len, …)`: the received bytes, `len` at most, go to the
  -- response buffer, also when the transfer fails on the way.
  unfoldable pub receive : ℕ → ℕ → Exec (Port W) (Unit {0})
  receive offset len s =
      let (rc, rx, w) = spi_transfer s.link.platform none len link_ready_timeout_ms s.world in
      (
        rc,
        record s {
          world = w;
          link = record s.link {
            response_buf = write_at offset (take len (map to_byte rx)) s.link.response_buf;
          };
        },
      )

  -- `read_response` from the second transfer on.
  unfoldable pub read_body : ℕ → Exec (Port W) FrameView
  read_body payload_len s =
      let (rc, s') = receive frame_header_bytes (payload_len + frame_trailer_bytes) s in
      let total = frame_header_bytes + (payload_len + frame_trailer_bytes) in
      elim rc [
        | err e ↦ (err e, s')
        | ok _ ↦ elim (frame_decode (take total s'.link.response_buf)) [
          | ok view ↦ (ok view, s')
          | err e ↦ (err e, drain_response_to_max total s')
        ]
      ]

  -- The checks of the fixed header.
  unfoldable pub check_header : Exec (Port W) FrameView
  check_header s =
      let frame = s.link.response_buf in
      let payload_len = load_be16 (drop 8 frame) in
      if get_or frame 0 0 /= frame_sof0 || get_or frame 1 0 /= frame_sof1
      then (err format, drain_response_to_max frame_header_bytes s)
      else if get_or frame 2 0 /= link_profile_version
      then (err version, drain_response_to_max frame_header_bytes s)
      else if bit_and (get_or frame 4 0) frame_forbidden_flags /= 0 || get_or frame 5 0 /= 0
      then (err format, drain_response_to_max frame_header_bytes s)
      else if ltb link_max_payload payload_len
      then (err format, drain_response_to_max frame_header_bytes s)
      else if ltb mcu_max_response_payload payload_len
      then (err buffer_too_small, drain_response_to_max frame_header_bytes s)
      else read_body payload_len s

  -- `out: spi_end(ctx); return rc;`
  unfoldable pub close : {A : Type 0} → Exec (Port W) A → Exec (Port W) A
  close m s = let (r, s') = m s in (r, record s' { world = spi_end s'.link.platform s'.world })

  unfoldable pub read_response : Exec (Port W) FrameView
  read_response s =
      let (rc, w) = spi_begin s.link.platform s.world in
      elim rc [
        | err e ↦ (err e, record s { world = w })
        | ok _ ↦ close (do receive 0 frame_header_bytes; check_header) (record s { world = w })
      ]

  unfoldable pub discard_pending_response : Port W → Port W
  discard_pending_response s =
      let (irq, w) = fpga_irq s.link.platform s.world in
      if irq then (read_response (record s { world = w })).1 else record s { world = w }

  -- fpst_fpga_link_init
  unfoldable pub init : Platform W → Exec (Port W) (Unit {0})
  init platform s =
      if is_valid platform
      then (
        ok tt,
        record s {
          link = record {
            platform = platform;
            next_transaction_id = 1;
            last_remote_status = 0;
            last_remote_detail = 0;
            last_device_state = 0;
            last_data_len = 0;
            request_buf = replicate mcu_buffer_frame 0;
            response_buf = replicate mcu_response_storage_bytes 0;
          };
        },
      )
      else (err argument, s)

  unfoldable pub rebind : Platform W → Exec (Port W) (Unit {0})
  rebind platform s =
      if is_valid platform
      then (ok tt, record s { link = record s.link { platform = platform } })
      else (err argument, s)

  unfoldable pub recover : Bool → Port W → Port W
  recover reset_fpga s =
      let p = s.link.platform in
      let w = spi_end p s.world in
      record s { world = if reset_fpga then fpga_reset p link_reset_pulse_ms w else w }
