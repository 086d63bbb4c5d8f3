-- ===== src/Tests/Frames.antt =====
-- Frames and checksums at concrete inputs.
use fpga_pqc_secure_telemetr.Base.{
  ℕ, ◌≡◌, ◌≢◌, take, refl, List, [], ◌∷◌, ◌++◌, drop, arith, IsBytes,
}
use fpga_pqc_secure_telemetr.Result.{ok}
use fpga_pqc_secure_telemetr.Codec.{load_be16, load_be32}
use fpga_pqc_secure_telemetr.Crc.{crc32_iso_hdlc}
use fpga_pqc_secure_telemetr.Crc.Detect.{crc32_detects_byte}
use fpga_pqc_secure_telemetr.Transport.{IsFrame, frame_encode, decode_body, frame_decode}
use fpga_pqc_secure_telemetr.Transport.RoundTrip.{frame_of, frame_decode-frame_encode}
use fpga_pqc_secure_telemetr.Transport.Canonical.{
  frame_decode_detects_byte, IsFrame-decode, frame_of-frame_decode,
}
use fpga_pqc_secure_telemetr.Tests.Board.{response, response_view}

decoded_response : frame_decode response ≡ ok response_view
unfolding frame_decode decode_body load_be16 load_be32 crc32_iso_hdlc
decoded_response = refl

response-IsBytes : IsBytes response
response-IsBytes = ground arith

response_view-IsFrame : IsFrame response_view
response_view-IsFrame = record {
  opcode_byte = omega arith;
  flags_byte = omega arith;
  flags_allowed = refl;
  transaction_word = omega arith;
  payload_bytes = ground arith;
  payload_length = refl;
  payload_fits = omega arith;
}

crc32_detects_byte_example : crc32_iso_hdlc (1 ∷ 7 ∷ 2 ∷ []) ≢ crc32_iso_hdlc (1 ∷ 8 ∷ 2 ∷ [])
crc32_detects_byte_example =
    crc32_detects_byte (1 ∷ []) (2 ∷ []) 7 8 (omega arith, tt) (omega arith, tt) (omega arith)
      (omega arith) (ground arith)

frame_decode-frame_encode_example :
    (f : List ℕ) × (frame_encode 0x7F 1 1 response_view.payload 26 ≡ ok f)
    × (frame_decode f ≡ ok response_view)
frame_decode-frame_encode_example =
    frame_decode-frame_encode response_view 26 response_view-IsFrame (omega arith)

frame_decode_detects_byte_example :
    frame_decode (take 12 response ++ 1 ∷ drop 13 response) ≢ ok response_view
frame_decode_detects_byte_example =
    frame_decode_detects_byte (take 12 response) (drop 13 response) 0 1 response_view
      response-IsBytes (omega arith) (ground arith) decoded_response

IsFrame-decode_example : IsFrame response_view
IsFrame-decode_example = IsFrame-decode response response-IsBytes decoded_response

frame_of-frame_decode_example : response ≡ frame_of response_view
frame_of-frame_decode_example = frame_of-frame_decode response response-IsBytes decoded_response
