-- ===== src/Profile.antt =====
-- include/fpst_profile.h and the wire constants of include/fpst_transport.h.
use fpga_pqc_secure_telemetr.Base.{ℕ, ◌+◌}

abbrev pub link_profile_version : ℕ
link_profile_version = 1

abbrev pub link_max_payload : ℕ
link_max_payload = 1024

abbrev pub frame_header_bytes : ℕ
frame_header_bytes = 10

abbrev pub frame_trailer_bytes : ℕ
frame_trailer_bytes = 4

abbrev pub link_max_frame : ℕ
link_max_frame = 14 + link_max_payload

abbrev pub link_ready_timeout_ms : ℕ
link_ready_timeout_ms = 20

abbrev pub link_command_timeout_ms : ℕ
link_command_timeout_ms = 50

abbrev pub link_ntt_timeout_ms : ℕ
link_ntt_timeout_ms = 500

abbrev pub link_max_retries : ℕ
link_max_retries = 2

abbrev pub link_reset_pulse_ms : ℕ
link_reset_pulse_ms = 5

abbrev pub stp_sample_bytes : ℕ
stp_sample_bytes = 24

abbrev pub stp_retained_bytes : ℕ
stp_retained_bytes = 64

abbrev pub frame_sof0 : ℕ
frame_sof0 = 0xA5

abbrev pub frame_sof1 : ℕ
frame_sof1 = 0x5A

abbrev pub frame_flag_response : ℕ
frame_flag_response = 0x01

abbrev pub frame_flag_error : ℕ
frame_flag_error = 0x02

-- FPST_FRAME_FLAG_MORE | FPST_FRAME_FLAG_ASYNC_EVENT
abbrev pub frame_flags_more_async : ℕ
frame_flags_more_async = 0x0C

-- `(uint8_t)~FPST_FRAME_ALLOWED_FLAGS`
abbrev pub frame_forbidden_flags : ℕ
frame_forbidden_flags = 0xF0
