-- ===== src/Primer2.antt =====
-- src/fpst_primer2.c: the commands of the receiving endpoint, over a bound link.
use fpga_pqc_secure_telemetr.Base.{
  ℕ, ◌+◌, ◌-◌, Bool, true, false, ◌&&◌, ◌||◌, List, [], ◌∷◌, ◌++◌, length, get_or, take, drop,
  bit_and, ltb, ◌==◌, ◌/=◌, if◌then◌else◌,
}
use fpga_pqc_secure_telemetr.Result.{
  Result, Exec, ok, err, argument, format, remote, pure, fail, ◌>>=◌, ◌>>◌,
}
use fpga_pqc_secure_telemetr.Profile.{link_command_timeout_ms, frame_flag_error}
use fpga_pqc_secure_telemetr.Codec.{load_be16, load_be32, load_be64, store_be16, store_be32}
use fpga_pqc_secure_telemetr.Kdf.{TrafficContext, kdf_derive_tx}
use fpga_pqc_secure_telemetr.Transport.{FrameView}
use fpga_pqc_secure_telemetr.Link.{Port}
use fpga_pqc_secure_telemetr.Link.Opcode.{
  op_key_load_begin, op_key_load_chunk, op_key_load_commit, op_key_load_abort, op_key_status,
  op_zeroize, op_session_activate, op_stp_rx_packet, op_stp_get_counters, op_stp_clear_counters,
  remote_ok, remote_err_replay, remote_err_sequence_gap, generic_response_bytes, key_direction_rx,
  tx_material_bytes,
}
use fpga_pqc_secure_telemetr.Command.{exchange_raw, command, note_envelope}
use fpga_pqc_secure_telemetr.Primer1
use fpga_pqc_secure_telemetr.Primer1.{command_no_data}

abbrev pub max_release_bytes : ℕ
max_release_bytes = 128

abbrev pub detail_commit_accepted : ℕ
detail_commit_accepted = 0x0001

abbrev pub detail_expected_sequence : ℕ
detail_expected_sequence = 0x0002

-- fpst_primer2_key_status_t
pub record KeyStatus : Type 0 where
  pub key_loading : Bool
  pub key_valid : Bool
  pub session_active : Bool
  pub staging_conflict : Bool
  pub session_id : ℕ
  pub expected_sequence : ℕ

-- fpst_primer2_counters_t
pub record Counters : Type 0 where
  pub accepted : ℕ
  pub replay : ℕ
  pub auth_fail : ℕ
  pub expected_sequence : ℕ

-- fpst_primer2_rx_result_t
pub record RxResult : Type 0 where
  pub remote_status : ℕ
  pub detail : ℕ
  pub sequence : ℕ
  pub sequence_valid : Bool
  pub commit_accepted : Bool
  pub plaintext_len : ℕ
  pub plaintext : List ℕ

-- `memset(result, 0, sizeof *result)`; only the plaintext that was released is kept.
abbrev pub rx_empty : RxResult
rx_empty = record {
  remote_status = 0;
  detail = 0;
  sequence = 0;
  sequence_valid = false;
  commit_accepted = false;
  plaintext_len = 0;
  plaintext = [];
}

-- BEGIN and COMMIT: BE32(session_id) || direction || BE16(24).
abbrev pub key_tuple : ℕ → ℕ → List ℕ
key_tuple direction session_id = store_be32 session_id ++ (direction ∷ store_be16 tx_material_bytes)

-- CHUNK: BE16(0) || K_TX || NP_TX.
abbrev pub key_chunk : TrafficContext → List ℕ
key_chunk traffic = store_be16 0 ++ (traffic.k_tx ++ traffic.np_tx)

abbrev pub key_status_of : List ℕ → KeyStatus
key_status_of response = record {
  key_loading = get_or response 0 0 /= 0;
  key_valid = get_or response 1 0 /= 0;
  session_active = get_or response 2 0 /= 0;
  staging_conflict = get_or response 3 0 /= 0;
  session_id = load_be32 (drop 4 response);
  expected_sequence = load_be64 (drop 8 response);
}

abbrev pub counters_of : List ℕ → Counters
counters_of response = record {
  accepted = load_be32 response;
  replay = load_be32 (drop 4 response);
  auth_fail = load_be32 (drop 8 response);
  expected_sequence = load_be64 (drop 12 response);
}

-- What `stp_rx_packet` returns and leaves in `result`, from the response's flags and data.
pub rx_accepted : RxResult → ℕ → ℕ → List ℕ → Result (Unit {0}) × RxResult
rx_accepted result flags actual_data_len data_bytes =
    let plaintext_len = load_be16 (drop 8 data_bytes) in
    let numbered = record result {
      sequence = load_be64 data_bytes;
      sequence_valid = true;
      plaintext_len = plaintext_len;
    } in
    if bit_and flags frame_flag_error /= 0
      || (result.detail /= detail_commit_accepted || ltb actual_data_len 10)
    then (err format, result)
    else if ltb max_release_bytes plaintext_len || actual_data_len /= 10 + plaintext_len
    then (err format, numbered)
    else (
      ok tt,
      record numbered {
        plaintext = take plaintext_len (drop 10 data_bytes);
        commit_accepted = true;
      },
    )

pub rx_refused : RxResult → ℕ → ℕ → List ℕ → Result (Unit {0}) × RxResult
rx_refused result flags actual_data_len data_bytes =
    if bit_and flags frame_flag_error == 0
    then (err format, result)
    else if (result.remote_status == remote_err_replay
          || result.remote_status == remote_err_sequence_gap)
        && result.detail == detail_expected_sequence
    then (if actual_data_len /= 8
        then (err format, result)
        else (err remote, record result { sequence = load_be64 data_bytes; sequence_valid = true }))
    else if actual_data_len /= 0
    then (err format, result)
    else (err remote, result)

unfoldable pub rx_result : FrameView → Result (Unit {0}) × RxResult
unfolding rx_accepted rx_refused
rx_result view =
    let result = record rx_empty {
      remote_status = load_be16 view.payload;
      detail = load_be16 (drop 2 view.payload);
    } in
    let data_len = view.payload_len - generic_response_bytes in
    let data_bytes = drop generic_response_bytes view.payload in
    if ltb view.payload_len generic_response_bytes
    then (err format, rx_empty)
    else if load_be32 (drop 8 view.payload) /= data_len || ltb 65535 data_len
    then (err format, result)
    else if result.remote_status == remote_ok
    then rx_accepted result view.flags data_len data_bytes
    else rx_refused result view.flags data_len data_bytes

module _ {W : Type 0} where
  unfoldable pub ping : List ℕ → Exec (Port W) (Unit {0})
  ping token = Primer1.ping token

  unfoldable pub get_device_id : Exec (Port W) (List ℕ)
  get_device_id = Primer1.get_device_id

  unfoldable pub get_status : Exec (Port W) ℕ
  get_status = Primer1.get_status

  unfoldable pub get_error : Exec (Port W) ℕ
  get_error = Primer1.get_error

  unfoldable pub clear_error : ℕ → Exec (Port W) (Unit {0})
  clear_error error_code = Primer1.clear_error error_code

  unfoldable pub zeroize : ℕ → Exec (Port W) (Unit {0})
  zeroize reason = command_no_data op_zeroize (store_be16 reason) link_command_timeout_ms

  -- BEGIN, CHUNK, COMMIT and ACTIVATE, up to the first that fails.
  unfoldable pub load_key : ℕ → ℕ → TrafficContext → Exec (Port W) (Unit {0})
  load_key direction session_id traffic = do
    command_no_data op_key_load_begin (key_tuple direction session_id) link_command_timeout_ms
    command_no_data op_key_load_chunk (key_chunk traffic) link_command_timeout_ms
    command_no_data op_key_load_commit (key_tuple direction session_id) link_command_timeout_ms
    command_no_data op_session_activate (store_be32 session_id) link_command_timeout_ms

  -- The label `fail`: what ABORT and ZEROIZE return is ignored.
  unfoldable pub abort_rx : Port W → Port W
  abort_rx s = (zeroize 0 (command_no_data op_key_load_abort [] link_command_timeout_ms s).1).1

  unfoldable pub establish_rx : List ℕ → ℕ → Exec (Port W) (Unit {0})
  establish_rx shared_secret session_id s =
      let (rc, t) =
        load_key key_direction_rx session_id (kdf_derive_tx shared_secret session_id) s in
      if session_id == 0
      then (err argument, s)
      else elim rc [ ok _ ↦ (ok tt, t) | err e ↦ (err e, abort_rx t) ]

  unfoldable pub key_status : Exec (Port W) KeyStatus
  key_status = do
    response ← command op_key_status [] 16 link_command_timeout_ms
    if length response /= 16 then fail format else pure (key_status_of response)

  -- The out-parameter `result` comes back beside the code, also when the call fails; the first test
  -- leaves it as it was.
  unfoldable pub stp_rx_packet : List ℕ → RxResult → Port W → Result (Unit {0}) × RxResult × Port W
  stp_rx_packet packet result s =
      let (rc, t) = exchange_raw op_stp_rx_packet packet link_command_timeout_ms s in
      if ltb (length packet) 40 || ltb 168 (length packet)
      then (err argument, result, s)
      else elim rc [
        | err e ↦ (err e, rx_empty, t)
        | ok view ↦
            let (code, after) = rx_result view in
            (
              code,
              after,
              (if ltb view.payload_len generic_response_bytes then t else note_envelope view t),
            )
      ]

  unfoldable pub get_counters : Exec (Port W) Counters
  get_counters = do
    response ← command op_stp_get_counters [] 20 link_command_timeout_ms
    if length response /= 20 then fail format else pure (counters_of response)

  unfoldable pub clear_counters : ℕ → Exec (Port W) (Unit {0})
  clear_counters mask =
      if bit_and mask 0xF8 /= 0
      then fail argument
      else command_no_data op_stp_clear_counters (mask ∷ []) link_command_timeout_ms
