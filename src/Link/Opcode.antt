-- ===== src/Link/Opcode.antt =====
-- The opcodes, remote codes and wire constants of include/fpst_fpga_link.h that the code uses.
use fpga_pqc_secure_telemetr.Base.{ℕ}

abbrev pub op_get_device_id : ℕ
op_get_device_id = 0x01

abbrev pub op_get_status : ℕ
op_get_status = 0x02

abbrev pub op_get_error : ℕ
op_get_error = 0x03

abbrev pub op_clear_error : ℕ
op_clear_error = 0x04

abbrev pub op_read_reg : ℕ
op_read_reg = 0x10

abbrev pub op_write_reg : ℕ
op_write_reg = 0x11

abbrev pub op_pqc_write_coeff : ℕ
op_pqc_write_coeff = 0x20

abbrev pub op_pqc_read_coeff : ℕ
op_pqc_read_coeff = 0x21

abbrev pub op_pqc_load_poly : ℕ
op_pqc_load_poly = 0x22

abbrev pub op_pqc_read_poly : ℕ
op_pqc_read_poly = 0x23

abbrev pub op_pqc_start_ntt : ℕ
op_pqc_start_ntt = 0x24

abbrev pub op_pqc_start_intt : ℕ
op_pqc_start_intt = 0x25

abbrev pub op_pqc_pointwise_mul : ℕ
op_pqc_pointwise_mul = 0x26

abbrev pub op_pqc_poly_add_sub : ℕ
op_pqc_poly_add_sub = 0x27

abbrev pub op_pqc_get_result : ℕ
op_pqc_get_result = 0x28

abbrev pub op_key_load_begin : ℕ
op_key_load_begin = 0x40

abbrev pub op_key_load_chunk : ℕ
op_key_load_chunk = 0x41

abbrev pub op_key_load_commit : ℕ
op_key_load_commit = 0x42

abbrev pub op_key_load_abort : ℕ
op_key_load_abort = 0x43

abbrev pub op_key_status : ℕ
op_key_status = 0x44

abbrev pub op_zeroize : ℕ
op_zeroize = 0x45

abbrev pub op_session_activate : ℕ
op_session_activate = 0x46

abbrev pub op_telemetry_tx_sample : ℕ
op_telemetry_tx_sample = 0x60

abbrev pub op_stp_rx_packet : ℕ
op_stp_rx_packet = 0x61

abbrev pub op_stp_get_counters : ℕ
op_stp_get_counters = 0x62

abbrev pub op_stp_clear_counters : ℕ
op_stp_clear_counters = 0x63

abbrev pub op_ping : ℕ
op_ping = 0x7F

abbrev pub remote_ok : ℕ
remote_ok = 0x0000

abbrev pub remote_err_replay : ℕ
remote_err_replay = 0x0605

abbrev pub remote_err_sequence_gap : ℕ
remote_err_sequence_gap = 0x0606

abbrev pub remote_err_sequence_desync : ℕ
remote_err_sequence_desync = 0x0610

abbrev pub generic_response_bytes : ℕ
generic_response_bytes = 12

abbrev pub key_direction_tx : ℕ
key_direction_tx = 0x01

abbrev pub key_direction_rx : ℕ
key_direction_rx = 0x02

abbrev pub tx_key_bytes : ℕ
tx_key_bytes = 16

abbrev pub tx_nonce_prefix_bytes : ℕ
tx_nonce_prefix_bytes = 8

abbrev pub tx_material_bytes : ℕ
tx_material_bytes = 24

abbrev pub reg_tx_commit_sequence : ℕ
reg_tx_commit_sequence = 0x00000120
