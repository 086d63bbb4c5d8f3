-- ===== src/Transport/RoundTrip.antt =====
-- Encoding and decoding of frames are inverse to one another.
use fpga_pqc_secure_telemetr.Base.{
  ℕ, ◌+◌, ◌^◌, ◌<◌, ◌≤◌, ◌≡◌, refl, ◌∙◌, List, ◌∷◌, ◌++◌, length, bit_and, IsBytes, arith,
  length-append, take_append, drop_append, drop_add,
}
use fpga_pqc_secure_telemetr.Result.{ok}
use fpga_pqc_secure_telemetr.Profile.{
  frame_sof0, frame_sof1, frame_forbidden_flags, link_max_payload,
}
use fpga_pqc_secure_telemetr.Codec.{load_be32, store_be16, store_be32}
use fpga_pqc_secure_telemetr.Codec.Laws.{
  load_be16-store_be16, load_be32-store_be32_end, length-store_be32,
}
use fpga_pqc_secure_telemetr.Crc.{crc32_iso_hdlc}
use fpga_pqc_secure_telemetr.Crc.Detect.{crc32-lt}
use fpga_pqc_secure_telemetr.Transport.{
  FrameView, IsFrame, frame_body, frame_encode, frame_decode, decode_body,
}

length-frame_body : (op fl tx : ℕ) (p : List ℕ) → length (frame_body op fl tx p) ≡ 8 + length p
unfolding frame_body store_be16
length-frame_body op fl tx p = omega arith

frame_body-IsBytes :
    (op fl tx : ℕ) (p : List ℕ) → op < 256 → fl < 256 → IsBytes p → IsBytes (frame_body op fl tx p)
unfolding frame_body store_be16
frame_body-IsBytes op fl tx p ho hf hp = ground (arith)

-- Decoding is decided by the fields of the fixed header, the payload and the trailer.
decode_body_append :
    (op fl tx : ℕ) (p trailer : List ℕ)
    → tx < 2 ^ 16
    → length p ≤ link_max_payload
    → length trailer ≡ 4
    → load_be32 trailer ≡ crc32_iso_hdlc (frame_body op fl tx p)
    → decode_body (frame_sof0 ∷ frame_sof1 ∷ (frame_body op fl tx p ++ trailer)) (length p)
      ≡ ok (record {
        opcode = op;
        flags = fl;
        transaction_id = tx;
        payload = p;
        payload_len = length p;
      })
unfolding decode_body frame_body store_be16
decode_body_append op fl tx p trailer ht hl ll hc = ground (
  arith,
  length-append p trailer,
  take_append (8 + length p) (frame_body op fl tx p) trailer (length-frame_body op fl tx p),
  drop_add 10 (length p) (frame_sof0 ∷ frame_sof1 ∷ (frame_body op fl tx p ++ trailer)),
  drop_append (length p) p trailer refl,
  take_append (length p) p trailer refl,
  load_be16-store_be16 tx (store_be16 (length p) ++ (p ++ trailer)) ht,
)

-- The checks of the fixed header pass.
frame_decode_append :
    (op fl tx : ℕ) (p trailer : List ℕ)
    → bit_and fl frame_forbidden_flags ≡ 0
    → length p ≤ link_max_payload
    → length trailer ≡ 4
    → let f = frame_sof0 ∷ frame_sof1 ∷ (frame_body op fl tx p ++ trailer) in
      frame_decode f ≡ decode_body f (length p)
unfolding frame_decode frame_body store_be16
frame_decode_append op fl tx p trailer hf hl ll =
    ground (arith, length-append p trailer, load_be16-store_be16 (length p) (p ++ trailer))

-- The frame that `fpst_frame_encode` builds when no guard refuses.
abbrev pub frame_of : FrameView → List ℕ
frame_of v =
    let body = frame_body v.opcode v.flags v.transaction_id v.payload in
    frame_sof0 ∷ frame_sof1 ∷ (body ++ store_be32 (crc32_iso_hdlc body))

pub frame_encode-eq_ok :
    (v : FrameView) (capacity : ℕ)
    → bit_and v.flags frame_forbidden_flags ≡ 0
    → length v.payload ≤ link_max_payload
    → 14 + length v.payload ≤ capacity
    → frame_encode v.opcode v.flags v.transaction_id v.payload capacity ≡ ok (frame_of v)
unfolding frame_encode
frame_encode-eq_ok v capacity ha hl hc = ground arith

frame_decode-frame_of : (v : FrameView) → IsFrame v → frame_decode (frame_of v) ≡ ok v
frame_decode-frame_of v h =
    let body = frame_body v.opcode v.flags v.transaction_id v.payload in
    let trailer = store_be32 (crc32_iso_hdlc body) in
    frame_decode_append v.opcode v.flags v.transaction_id v.payload trailer h.flags_allowed
      h.payload_fits (length-store_be32 (crc32_iso_hdlc body))
    ∙ decode_body_append v.opcode v.flags v.transaction_id v.payload trailer h.transaction_word
        h.payload_fits (length-store_be32 (crc32_iso_hdlc body))
        (load_be32-store_be32_end (crc32_iso_hdlc body) (
          crc32-lt body (
            frame_body-IsBytes v.opcode v.flags v.transaction_id v.payload h.opcode_byte
              h.flags_byte h.payload_bytes)))
    ∙ ground arith

-- For a view with byte and word fields, allowed flags and a payload that fits, and room for the
-- frame, `frame_encode` succeeds and `frame_decode` gives back the view.
pub frame_decode-frame_encode :
    (v : FrameView) (capacity : ℕ)
    → IsFrame v
    → 14 + length v.payload ≤ capacity
    → (f : List ℕ) × (frame_encode v.opcode v.flags v.transaction_id v.payload capacity ≡ ok f)
      × (frame_decode f ≡ ok v)
frame_decode-frame_encode v capacity h room = (
  frame_of v,
  frame_encode-eq_ok v capacity h.flags_allowed h.payload_fits room,
  frame_decode-frame_of v h,
)
