-- ===== src/Primer1.antt =====
-- src/fpst_primer1.c: the commands of the transmitting endpoint, over a bound link.
pub mod Pqc
use fpga_pqc_secure_telemetr.Base.{
  ℕ, zero, suc, ◌+◌, ◌*◌, Bool, true, false, ◌||◌, List, [], ◌∷◌, ◌++◌, length, get_or, take, drop,
  write_at, bit_and, ltb, leb, ◌==◌, ◌/=◌, if◌then◌else◌, not,
}
use fpga_pqc_secure_telemetr.Result.{
  Exec, ok, err, argument, format, remote, transaction, pure, fail, continue, ◌>>=◌, ◌>>◌,
}
use fpga_pqc_secure_telemetr.Profile.{link_command_timeout_ms, stp_retained_bytes, frame_flag_error}
use fpga_pqc_secure_telemetr.Codec.{
  load_be16, load_be32, load_be64, store_be16, store_be32, store_be64,
}
use fpga_pqc_secure_telemetr.Transport.{FrameView}
use fpga_pqc_secure_telemetr.Link.{Port, mcu_buffer_frame}
use fpga_pqc_secure_telemetr.Link.Opcode.{
  op_ping, op_get_device_id, op_get_status, op_get_error, op_clear_error, op_read_reg, op_write_reg,
  op_key_status, op_telemetry_tx_sample, op_zeroize, remote_ok, reg_tx_commit_sequence,
}
use fpga_pqc_secure_telemetr.Command.{exchange_raw, parse_generic, command}

-- fpst_primer1_key_status_t
pub record KeyStatus : Type 0 where
  pub key_loading : Bool
  pub key_valid : Bool
  pub session_active : Bool
  pub staging_conflict : Bool
  pub session_id : ℕ
  pub tx_sequence : ℕ

-- fpst_primer1_telemetry_result_t
pub record TelemetryResult : Type 0 where
  pub sequence : ℕ
  pub packet_len : ℕ
  pub packet : List ℕ

-- `memcmp(a, b, len) == 0` on lists of one length
pub equal_bytes : List ℕ → List ℕ → Bool
equal_bytes [] [] = true
equal_bytes [] (y ∷ ys) = false
equal_bytes (x ∷ xs) [] = false
equal_bytes (x ∷ xs) (y ∷ ys) = if x == y then equal_bytes xs ys else false

-- The fields of a KEY_STATUS response.
abbrev pub key_status_of : List ℕ → KeyStatus
key_status_of response = record {
  key_loading = get_or response 0 0 /= 0;
  key_valid = get_or response 1 0 /= 0;
  session_active = get_or response 2 0 /= 0;
  staging_conflict = get_or response 3 0 /= 0;
  session_id = load_be32 (drop 4 response);
  tx_sequence = load_be64 (drop 8 response);
}

module _ {W : Type 0} where
  unfoldable pub command_no_data : ℕ → List ℕ → ℕ → Exec (Port W) (Unit {0})
  command_no_data opcode payload timeout_ms = do _ ← command opcode payload 0 timeout_ms; pure tt

  -- A command whose response is copied into the link's request buffer.
  unfoldable pub command_into_request : ℕ → List ℕ → ℕ → Exec (Port W) (List ℕ)
  command_into_request opcode payload timeout_ms s =
      continue (command opcode payload mcu_buffer_frame timeout_ms s).0
        (λ response t. (
          ok response,
          record t {
            link = record t.link { request_buf = write_at 0 response t.link.request_buf };
          },
        ))
        (command opcode payload mcu_buffer_frame timeout_ms s).1

  -- The end of `ping`, on the response length and the request buffer.
  unfoldable pub check_echo : List ℕ → List ℕ → Exec (Port W) (Unit {0})
  check_echo token response s =
      if length response /= length token
      then (err format, s)
      else if equal_bytes (take (length token) s.link.request_buf) token
      then (ok tt, s)
      else (err transaction, s)

  unfoldable pub ping : List ℕ → Exec (Port W) (Unit {0})
  ping token = if ltb 1012 (length token) then fail argument else do
    response ← command_into_request op_ping token link_command_timeout_ms
    check_echo token response

  -- The device's name, with the final NUL.
  unfoldable pub get_device_id : Exec (Port W) (List ℕ)
  get_device_id = do
    response ← command op_get_device_id [] 8 link_command_timeout_ms
    if length response /= 8 then fail format else pure (response ++ 0 ∷ [])

  unfoldable pub get_status : Exec (Port W) ℕ
  get_status = do
    command_no_data op_get_status [] link_command_timeout_ms
    λ s. (ok s.link.last_device_state, s)

  unfoldable pub get_error : Exec (Port W) ℕ
  get_error = do
    response ← command op_get_error [] 2 link_command_timeout_ms
    if length response /= 2 then fail format else pure (load_be16 response)

  unfoldable pub clear_error : ℕ → Exec (Port W) (Unit {0})
  clear_error error_code =
      command_no_data op_clear_error (store_be16 error_code) link_command_timeout_ms

  unfoldable pub read_register : ℕ → ℕ → Exec (Port W) (List ℕ)
  read_register address width = do
    response ←
        command op_read_reg (store_be32 address ++ store_be16 width) width link_command_timeout_ms
    if length response == width then pure response else fail format

  unfoldable pub read_reg32 : ℕ → Exec (Port W) ℕ
  read_reg32 address = do response ← read_register address 4; pure (load_be32 response)

  unfoldable pub read_reg64 : ℕ → Exec (Port W) ℕ
  read_reg64 address = do response ← read_register address 8; pure (load_be64 response)

  unfoldable pub commit_retained_sequence : ℕ → Exec (Port W) (Unit {0})
  commit_retained_sequence sequence =
      command_no_data op_write_reg
        (store_be32 reg_tx_commit_sequence ++ (store_be16 8 ++ store_be64 sequence))
        link_command_timeout_ms

  unfoldable pub key_status : Exec (Port W) KeyStatus
  key_status = do
    response ← command op_key_status [] 16 link_command_timeout_ms
    if length response /= 16 then fail format else pure (key_status_of response)

  -- `telemetry_tx_sample` behind the test of the error flag.
  unfoldable pub telemetry_response : FrameView → Exec (Port W) TelemetryResult
  telemetry_response view s =
      let remote_status = load_be16 view.payload in
      let packet_len = load_be16 (drop 10 view.payload) in
      if view.payload_len /= 12 + stp_retained_bytes
      then (err format, s)
      else if remote_status /= remote_ok
      then (err remote, record s { link = record s.link { last_remote_status = remote_status } })
      else if packet_len /= stp_retained_bytes
      then (err format, s)
      else (
        ok (record {
          sequence = load_be64 (drop 2 view.payload);
          packet_len = packet_len;
          packet = take stp_retained_bytes (drop 12 view.payload);
        }),
        s,
      )

  -- `result` is what the out-parameter holds before the call.
  unfoldable pub telemetry_tx_sample : List ℕ → TelemetryResult → Exec (Port W) TelemetryResult
  telemetry_tx_sample sample result = do
    view ← exchange_raw op_telemetry_tx_sample sample link_command_timeout_ms
    if bit_and view.flags frame_flag_error /= 0
        then (do _ ← parse_generic view 0; pure result)
        else telemetry_response view

  unfoldable pub zeroize : ℕ → Exec (Port W) (Unit {0})
  zeroize reason = command_no_data op_zeroize (store_be16 reason) link_command_timeout_ms
