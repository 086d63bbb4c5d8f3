-- ===== src/Command.antt =====
-- The exchange of src/fpst_fpga_link.c: one request, its retries, and the generic response.
pub mod Attempt
pub mod Exchange
use fpga_pqc_secure_telemetr.Base.{
  ℕ, zero, suc, ◌+◌, ◌-◌, ◌%◌, ◌^◌, Bool, true, false, ◌||◌, List, length, take, drop, write_at,
  to_byte, bit_and, ltb, ◌==◌, ◌/=◌, if◌then◌else◌,
}
use fpga_pqc_secure_telemetr.Result.{
  Error, Result, Exec, ok, err, argument, buffer_too_small, format, remote, transaction, fail, pure,
  ◌>>=◌, continue, ◌>>◌,
}
use fpga_pqc_secure_telemetr.Profile.{
  link_max_retries, frame_flag_response, frame_flag_error, frame_flags_more_async,
}
use fpga_pqc_secure_telemetr.Codec.{load_be16, load_be32}
use fpga_pqc_secure_telemetr.Transport.{FrameView, frame_encode}
use fpga_pqc_secure_telemetr.Platform.{delay_ms}
use fpga_pqc_secure_telemetr.Link.{
  Port, mcu_max_request_payload, mcu_buffer_frame, wait_irq, send_request, read_response,
  discard_pending_response, recover,
}
use fpga_pqc_secure_telemetr.Link.Opcode.{generic_response_bytes, remote_ok}

unfoldable pub response_matches : FrameView → ℕ → ℕ → Bool
response_matches view opcode txid =
    if view.transaction_id /= txid || view.opcode /= to_byte opcode
    then false
    else if bit_and view.flags frame_flag_response == 0
    then false
    else if bit_and view.flags frame_flags_more_async /= 0
    then false
    else true

-- `txid = next_transaction_id++`, neither of them 0
abbrev pub txid_of : ℕ → ℕ
txid_of next = if next == 0 then 1 else next

abbrev pub txid_after : ℕ → ℕ
txid_after next = if (next + 1) % 2 ^ 16 == 0 then 1 else (next + 1) % 2 ^ 16

module _ {W : Type 0} where
  -- The body of the retry loop up to `goto retry`.
  unfoldable pub try_once : List ℕ → ℕ → ℕ → ℕ → Exec (Port W) FrameView
  try_once frame opcode txid timeout_ms = do
    send_request frame
    wait_irq timeout_ms
    view ← read_response
    if response_matches view opcode txid then pure view else fail transaction

  -- What an attempt that is not the first begins with.
  unfoldable pub before_attempt : ℕ → Port W → Port W
  before_attempt attempt s =
      if attempt == 0
      then s
      else discard_pending_response (record s { world = delay_ms s.link.platform 1 s.world })

  -- `return FPST_OK` of an attempt that succeeds, or what follows the label `retry`.
  unfoldable pub or_retry :
      Result FrameView → (Error → Exec (Port W) FrameView) → Exec (Port W) FrameView
  or_retry (ok view) next s = (ok view, s)
  or_retry (err e) next s = next e s

  unfoldable pub attempt_at : ℕ → List ℕ → ℕ → ℕ → ℕ → Exec (Port W) FrameView
  attempt_at attempt frame opcode txid timeout_ms s =
      try_once frame opcode txid timeout_ms (before_attempt attempt s)

  -- The retry loop, with the attempts that may still follow this one.
  unfoldable pub attempts : ℕ → ℕ → List ℕ → ℕ → ℕ → ℕ → Exec (Port W) FrameView
  attempts zero attempt frame opcode txid timeout_ms s =
      let (r, s') = attempt_at attempt frame opcode txid timeout_ms s in
      or_retry r (λ e t. (err e, recover (attempt == link_max_retries) t)) s'
  attempts (suc left) attempt frame opcode txid timeout_ms s =
      let (r, s') = attempt_at attempt frame opcode txid timeout_ms s in
      or_retry r
        (λ e t.
          attempts left (attempt + 1) frame opcode txid timeout_ms
            (recover (attempt == link_max_retries) t))
        s'

  -- fpst_fpga_link_exchange_raw
  unfoldable pub exchange_raw : ℕ → List ℕ → ℕ → Exec (Port W) FrameView
  exchange_raw opcode payload timeout_ms s =
      let txid = txid_of s.link.next_transaction_id in
      let s1 = record s {
        link = record s.link { next_transaction_id = txid_after s.link.next_transaction_id };
      } in
      if timeout_ms == 0
      then (err argument, s)
      else if ltb mcu_max_request_payload (length payload)
      then (err buffer_too_small, s)
      else continue (frame_encode (to_byte opcode) 0 txid payload mcu_buffer_frame)
          (λ frame t. attempts link_max_retries 0 frame opcode txid timeout_ms (record t {
            link = record t.link { request_buf = write_at 0 frame t.link.request_buf };
          }))
          s1

  -- The four words of the generic envelope.
  unfoldable pub note_envelope : FrameView → Port W → Port W
  note_envelope view s = record s {
    link = record s.link {
      last_remote_status = load_be16 view.payload;
      last_remote_detail = load_be16 (drop 2 view.payload);
      last_device_state = load_be32 (drop 4 view.payload);
      last_data_len = load_be32 (drop 8 view.payload);
    };
  }

  -- fpst_fpga_link_parse_generic: the application data.
  unfoldable pub parse_generic : FrameView → ℕ → Exec (Port W) (List ℕ)
  unfolding note_envelope
  parse_generic view response_capacity s =
      let s' = note_envelope view s in
      let actual_data_len = view.payload_len - generic_response_bytes in
      if ltb view.payload_len generic_response_bytes
      then (err format, s)
      else if s'.link.last_data_len /= actual_data_len || ltb 65535 actual_data_len
      then (err format, s')
      else if s'.link.last_remote_status /= remote_ok || bit_and view.flags frame_flag_error /= 0
      then (err remote, s')
      else if ltb response_capacity actual_data_len
      then (err buffer_too_small, s')
      else (ok (take actual_data_len (drop generic_response_bytes view.payload)), s')

  -- fpst_fpga_link_command
  unfoldable pub command : ℕ → List ℕ → ℕ → ℕ → Exec (Port W) (List ℕ)
  command opcode payload response_capacity timeout_ms = do
    view ← exchange_raw opcode payload timeout_ms
    parse_generic view response_capacity
