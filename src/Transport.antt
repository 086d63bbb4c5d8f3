-- ===== src/Transport.antt =====
-- src/fpst_transport.c: the BTP frame. A buffer is a list of bytes and its length; the payload
-- pointer of a view is the list of bytes that it points at when the view is made.
pub mod RoundTrip
pub mod Canonical
use fpga_pqc_secure_telemetr.Base.{
  ℕ, ◌+◌, ◌<◌, ◌||◌, List, [], ◌∷◌, ◌++◌, length, get_or, take, drop, bit_and, ltb, ◌/=◌,
  if◌then◌else◌, IsBytes, ◌^◌, ◌≤◌, ◌≡◌,
}
use fpga_pqc_secure_telemetr.Result.{
  Result, ok, err, argument, buffer_too_small, format, version, crc,
}
use fpga_pqc_secure_telemetr.Profile.{
  link_profile_version, link_max_payload, frame_header_bytes, frame_trailer_bytes, frame_sof0,
  frame_sof1, frame_forbidden_flags,
}
use fpga_pqc_secure_telemetr.Codec.{load_be16, load_be32, store_be16, store_be32}
use fpga_pqc_secure_telemetr.Crc.{crc32_iso_hdlc}

-- fpst_frame_view_t
pub record FrameView : Type 0 where
  pub opcode : ℕ
  pub flags : ℕ
  pub transaction_id : ℕ
  pub payload : List ℕ
  pub payload_len : ℕ

-- The bytes from `out[2]` up to the checksum.
unfoldable pub frame_body : ℕ → ℕ → ℕ → List ℕ → List ℕ
frame_body opcode flags txid payload =
    link_profile_version
    ∷ opcode
    ∷ flags
    ∷ 0
    ∷ (store_be16 txid ++ (store_be16 (length payload) ++ payload))

-- The frame that `fpst_frame_encode` writes at `out`, or why it refuses.
unfoldable pub frame_encode : ℕ → ℕ → ℕ → List ℕ → ℕ → Result (List ℕ)
frame_encode opcode flags transaction_id payload out_capacity =
    if ltb link_max_payload (length payload)
    then err argument
    else if bit_and flags frame_forbidden_flags /= 0
    then err argument
    else if ltb out_capacity (frame_header_bytes + length payload + frame_trailer_bytes)
    then err buffer_too_small
    else let body = frame_body opcode flags transaction_id payload in
      ok (frame_sof0 ∷ frame_sof1 ∷ (body ++ store_be32 (crc32_iso_hdlc body)))

-- The part of `fpst_frame_decode` behind the checks of the fixed header.
unfoldable pub decode_body : List ℕ → ℕ → Result FrameView
decode_body frame payload_len =
    if ltb link_max_payload payload_len
    then err format
    else if length frame /= frame_header_bytes + payload_len + frame_trailer_bytes
    then err format
    else if load_be32 (drop (10 + payload_len) frame)
        /= crc32_iso_hdlc (take (8 + payload_len) (drop 2 frame))
    then err crc
    else ok (record {
      opcode = get_or frame 3 0;
      flags = get_or frame 4 0;
      transaction_id = load_be16 (drop 6 frame);
      payload = take payload_len (drop 10 frame);
      payload_len = payload_len;
    })

unfoldable pub frame_decode : List ℕ → Result FrameView
frame_decode frame =
    if ltb (length frame) (frame_header_bytes + frame_trailer_bytes)
    then err format
    else if get_or frame 0 0 /= frame_sof0 || get_or frame 1 0 /= frame_sof1
    then err format
    else if get_or frame 2 0 /= link_profile_version
    then err version
    else if bit_and (get_or frame 4 0) frame_forbidden_flags /= 0 || get_or frame 5 0 /= 0
    then err format
    else decode_body frame (load_be16 (drop 8 frame))

-- The bounds that the C types and the guards of the encoder put on a frame's fields.
pub record IsFrame (v : FrameView) : Type 0 where
  pub opcode_byte : v.opcode < 256
  pub flags_byte : v.flags < 256
  pub flags_allowed : bit_and v.flags frame_forbidden_flags ≡ 0
  pub transaction_word : v.transaction_id < 2 ^ 16
  pub payload_bytes : IsBytes v.payload
  pub payload_length : v.payload_len ≡ length v.payload
  pub payload_fits : length v.payload ≤ link_max_payload
