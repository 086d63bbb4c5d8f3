-- ===== src/Transport/Canonical.antt =====
-- What `fpst_frame_decode` accepts: exactly the frames that `fpst_frame_encode` writes, so that a
-- frame with one byte changed is not accepted.
use fpga_pqc_secure_telemetr.Base.{
  ◌≢◌, ℕ, suc, ◌+◌, ◌-◌, ◌<◌, ◌≤◌, ◌≡◌, refl, sym, ap, ◌∙◌, List, [], ◌∷◌, ◌++◌, length, get_or,
  take, drop, bit_and, IsBytes, arith, take-append-drop, length-append, length-drop, length-take,
  drop-IsBytes, take-IsBytes, get_or-lt, take-append_ge, take-append_le, drop-append_le, drop-cons,
  drop_add, append-injective, take-append_cons, drop-append_cons,
}
use native.Mathlib.Decide.{dec_le}
use fpga_pqc_secure_telemetr.Result.{ok}
use fpga_pqc_secure_telemetr.Profile.{
  frame_sof0, frame_sof1, frame_forbidden_flags, link_max_payload,
}
use fpga_pqc_secure_telemetr.Codec.{load_be16, load_be32, store_be16, store_be32}
use fpga_pqc_secure_telemetr.Codec.Laws.{
  store_be16-load_be16, store_be32-load_be32_list, load_be32-injective, load_be16-lt,
}
use fpga_pqc_secure_telemetr.Crc.{crc32_iso_hdlc}
use fpga_pqc_secure_telemetr.Crc.Detect.{crc32_byte-injective}
use fpga_pqc_secure_telemetr.Transport.{FrameView, IsFrame, frame_body, frame_decode, decode_body}
use fpga_pqc_secure_telemetr.Transport.RoundTrip.{frame_of}

-- What a successful decoding says of the bytes.
pub record Decoded (f : List ℕ) (v : FrameView) : Type 0 where
  pub long : length f ≡ 14 + load_be16 (drop 8 f)
  pub fits : load_be16 (drop 8 f) ≤ link_max_payload
  pub sof0 : get_or f 0 0 ≡ frame_sof0
  pub sof1 : get_or f 1 0 ≡ frame_sof1
  pub first : get_or f 2 0 ≡ 1
  pub allowed : bit_and (get_or f 4 0) frame_forbidden_flags ≡ 0
  pub reserved : get_or f 5 0 ≡ 0
  pub sum :
      load_be32 (drop (10 + load_be16 (drop 8 f)) f)
      ≡ crc32_iso_hdlc (take (8 + load_be16 (drop 8 f)) (drop 2 f))
  pub is_opcode : v.opcode ≡ get_or f 3 0
  pub is_flags : v.flags ≡ get_or f 4 0
  pub is_transaction : v.transaction_id ≡ load_be16 (drop 6 f)
  pub is_payload : v.payload ≡ take (load_be16 (drop 8 f)) (drop 10 f)
  pub is_payload_len : v.payload_len ≡ load_be16 (drop 8 f)

pub frame_decode-Decoded : (f : List ℕ) {v : FrameView} → frame_decode f ≡ ok v → Decoded f v
unfolding frame_decode decode_body
frame_decode-Decoded f h = ground arith

IsBytes-append : (xs ys : List ℕ) → IsBytes (xs ++ ys) → IsBytes xs × IsBytes ys
IsBytes-append [] ys h = (tt, h)
IsBytes-append (x ∷ xs) ys h = let ih = IsBytes-append xs ys h.1 in ((h.0, ih.0), ih.1)

module _ (pre post : List ℕ) (x y n : ℕ) (bx : IsBytes (pre ++ x ∷ post))
    (by : IsBytes (pre ++ y ∷ post)) where
  -- The changed byte lies in the trailer.
  in_trailer :
      n ≤ length pre
      → length (pre ++ x ∷ post) ≡ n + 4
      → load_be32 (drop n (pre ++ x ∷ post)) ≡ load_be32 (drop n (pre ++ y ∷ post))
      → x ≡ y
  in_trailer h l e =
      let tails : drop n (pre ++ x ∷ post) ≡ drop n (pre ++ y ∷ post) =
        load_be32-injective (drop n (pre ++ x ∷ post)) (drop n (pre ++ y ∷ post))
          (omega (arith, length-drop n (pre ++ x ∷ post)))
          (omega (
            arith,
            length-drop n (pre ++ y ∷ post),
            length-append pre (x ∷ post),
            length-append pre (y ∷ post),
          ))
          (drop-IsBytes n (pre ++ x ∷ post) bx) (drop-IsBytes n (pre ++ y ∷ post) by) e in
      let ends =
        append-injective (drop n pre) (x ∷ post) (drop n pre) (y ∷ post) refl
          (sym (drop-append_le n pre (x ∷ post) h) ∙ tails ∙ drop-append_le n pre (y ∷ post) h) in
      cc ends.1

-- The changed byte lies under the checksum.
in_body :
    (pre post : List ℕ) (x y n : ℕ)
    → IsBytes (pre ++ x ∷ post)
    → y < 256
    → length pre < 8 + n
    → (a b : ℕ) → a ≡ crc32_iso_hdlc (take (8 + n) (pre ++ x ∷ post))
    → b ≡ crc32_iso_hdlc (take (8 + n) (pre ++ y ∷ post))
    → a ≡ b
    → x ≡ y
in_body pre post x y n bx hy h a b ea eb e =
    let parts = IsBytes-append pre (x ∷ post) bx in
    crc32_byte-injective pre (take (8 + n - suc (length pre)) post) x y parts.0
      (take-IsBytes (8 + n - suc (length pre)) post parts.1.1) parts.1.0 hy
      (ap crc32_iso_hdlc (sym (take-append_cons (8 + n) pre post x h))
        ∙ sym ea
        ∙ e
        ∙ eb
        ∙ ap crc32_iso_hdlc (take-append_cons (8 + n) pre post y h))

-- Changing one byte leaves an array of bytes.
changed :
    (pre post : List ℕ) (x y : ℕ) → IsBytes (pre ++ x ∷ post) → y < 256 → IsBytes (pre ++ y ∷ post)
changed [] post x y h hy = (hy, h.1)
changed (p ∷ pre) post x y h hy = (h.0, changed pre post x y h.1 hy)

frame_decode_byte-injective :
    (pre post : List ℕ) (x y : ℕ) {v w : FrameView}
    → IsBytes (pre ++ x ∷ post)
    → y < 256
    → frame_decode (pre ++ x ∷ post) ≡ ok v
    → frame_decode (pre ++ y ∷ post) ≡ ok w
    → x ≡ y
frame_decode_byte-injective [] post x y bx hy dx dy =
    omega
      (arith, (frame_decode-Decoded (x ∷ post) dx).sof0, (frame_decode-Decoded (y ∷ post) dy).sof0)
frame_decode_byte-injective (p0 ∷ []) post x y bx hy dx dy = omega (
  arith,
  (frame_decode-Decoded (p0 ∷ x ∷ post) dx).sof1,
  (frame_decode-Decoded (p0 ∷ y ∷ post) dy).sof1,
)
frame_decode_byte-injective (p0 ∷ p1 ∷ pre) post x y bx hy dx dy =
    let n = load_be16 (drop 6 (pre ++ x ∷ post)) in
    let cx = frame_decode-Decoded (p0 ∷ p1 ∷ (pre ++ x ∷ post)) dx in
    let cy = frame_decode-Decoded (p0 ∷ p1 ∷ (pre ++ y ∷ post)) dy in
    let same : load_be16 (drop 6 (pre ++ y ∷ post)) ≡ n =
      omega (arith, cx.long, cy.long, length-append pre (x ∷ post), length-append pre (y ∷ post)) in
    let sumy = rw same at (cy.sum) in
    let head = p0 ∷ p1 ∷ pre in
    elim (dec_le (8 + n) (length pre)) [
      | yes behind ↦
          in_trailer head post x y (10 + n) bx (changed head post x y bx hy) (omega arith)
            (omega (arith, cx.long))
            (cx.sum
              ∙ ap crc32_iso_hdlc (
                  take-append_le (8 + n) pre (x ∷ post) behind
                  ∙ sym (take-append_le (8 + n) pre (y ∷ post) behind))
              ∙ sym sumy)
      | no under ↦
          in_body pre post x y n bx.1.1 hy (omega arith)
            (load_be32 (drop (10 + n) (head ++ x ∷ post)))
            (load_be32 (drop (10 + n) (head ++ y ∷ post))) cx.sum sumy
            (ap load_be32 (
              drop-append_cons (10 + n) head post x (omega arith)
              ∙ sym (drop-append_cons (10 + n) head post y (omega arith))))
    ]

-- A byte string that `frame_decode` accepts is refused after any one of its bytes is replaced by a
-- different byte.
pub frame_decode_detects_byte :
    (pre post : List ℕ) (x y : ℕ) {v : FrameView} (w : FrameView)
    → IsBytes (pre ++ x ∷ post)
    → y < 256
    → x ≢ y
    → frame_decode (pre ++ x ∷ post) ≡ ok v
    → frame_decode (pre ++ y ∷ post) ≢ ok w
frame_decode_detects_byte pre post x y w bytes byte differ dx dy =
    differ (frame_decode_byte-injective pre post x y bytes byte dx dy)

module _ (f : List ℕ) where
  abbrev byte_at : ℕ → ℕ
  byte_at i = get_or f i 0

  ten_bytes :
      10 ≤ length f
      → f
        ≡ byte_at 0
          ∷ byte_at 1
          ∷ byte_at 2
          ∷ byte_at 3
          ∷ byte_at 4
          ∷ byte_at 5
          ∷ byte_at 6
          ∷ byte_at 7
          ∷ byte_at 8
          ∷ byte_at 9
          ∷ drop 10 f
  ten_bytes h = cc (
    drop-cons 0 f 0 (omega arith),
    drop-cons 1 f 0 (omega arith),
    drop-cons 2 f 0 (omega arith),
    drop-cons 3 f 0 (omega arith),
    drop-cons 4 f 0 (omega arith),
    drop-cons 5 f 0 (omega arith),
    drop-cons 6 f 0 (omega arith),
    drop-cons 7 f 0 (omega arith),
    drop-cons 8 f 0 (omega arith),
    drop-cons 9 f 0 (omega arith),
  )

  -- The two bytes at an offset are the encoding of the number that they are read as.
  two_bytes :
      (k : ℕ)
      → suc k < length f
      → IsBytes f
      → store_be16 (load_be16 (drop k f)) ≡ byte_at k ∷ byte_at (suc k) ∷ []
  two_bytes k h b =
      rw (drop-cons k f 0 (omega arith), drop-cons (suc k) f 0 h)
        (store_be16-load_be16 (byte_at k) (byte_at (suc k)) (drop (suc (suc k)) f) (get_or-lt f k b)
          (get_or-lt f (suc k) b))

module _ (f : List ℕ) {v : FrameView} (b : IsBytes f) (decoded : frame_decode f ≡ ok v) where
  abbrev facts : Decoded f v
  facts = frame_decode-Decoded f decoded

  abbrev n : ℕ
  n = load_be16 (drop 8 f)

  length-payload : length v.payload ≡ n
  length-payload =
      rw facts.is_payload (omega (arith, length-take n (drop 10 f), length-drop 10 f, facts.long))

  -- The view of a byte string that `frame_decode` accepts is well formed: byte and word fields,
  -- allowed flags, the payload's length recorded and at most 1024, its elements bytes.
  pub IsFrame-decode : IsFrame v
  IsFrame-decode = record {
    opcode_byte = omega (arith, facts, get_or-lt f 3 b);
    flags_byte = omega (arith, facts, get_or-lt f 4 b);
    flags_allowed = cc (facts.is_flags, facts.allowed);
    transaction_word = omega (arith, facts, load_be16-lt (drop 6 f));
    payload_bytes =
        rw facts.is_payload (take-IsBytes (load_be16 (drop 8 f)) (drop 10 f) (drop-IsBytes 10 f b));
    payload_length = facts.is_payload_len ∙ sym length-payload;
    payload_fits = omega (arith, length-payload, facts.fits);
  }

  accepted_body : take (8 + n) (drop 2 f) ≡ frame_body v.opcode v.flags v.transaction_id v.payload
  unfolding frame_body
  accepted_body =
      let head =
        byte_at f 2
        ∷ byte_at f 3
        ∷ byte_at f 4
        ∷ byte_at f 5
        ∷ byte_at f 6
        ∷ byte_at f 7
        ∷ byte_at f 8
        ∷ byte_at f 9
        ∷ [] in
      let split : drop 2 f ≡ head ++ drop 10 f =
        ap (drop 2) (ten_bytes f (omega (arith, facts.long))) in
      let after : 8 + n - 8 ≡ n = omega arith in
      cc (
        split,
        take-append_ge (8 + n) head (drop 10 f) (omega arith),
        after,
        facts.first,
        facts.reserved,
        facts.is_opcode,
        facts.is_flags,
        facts.is_transaction,
        facts.is_payload,
        length-payload,
        two_bytes f 6 (omega (arith, facts.long)) b,
        two_bytes f 8 (omega (arith, facts.long)) b,
      )

  trailer : drop (8 + n) (drop 2 f) ≡ store_be32 (crc32_iso_hdlc (take (8 + n) (drop 2 f)))
  trailer =
      let e : 2 + (8 + n) ≡ 10 + n = omega arith in
      let at : drop (8 + n) (drop 2 f) ≡ drop (10 + n) f =
        sym (drop_add 2 (8 + n) f) ∙ ap (λ k. drop k f) e in
      rw (at, ← facts.sum)
        (sym (
          store_be32-load_be32_list (drop (10 + n) f)
            (omega (arith, length-drop (10 + n) f, facts.long)) (drop-IsBytes (10 + n) f b)))

  -- A byte string that `frame_decode` accepts is the encoding of the view it gives: no two byte
  -- strings decode to the same view.
  pub frame_of-frame_decode : f ≡ frame_of v
  frame_of-frame_decode =
      let start : f ≡ byte_at f 0 ∷ byte_at f 1 ∷ drop 2 f = cc (
        drop-cons 0 f 0 (omega (arith, facts.long)),
        drop-cons 1 f 0 (omega (arith, facts.long)),
      ) in
      cc
        (start, facts.sof0, facts.sof1, take-append-drop (8 + n) (drop 2 f), accepted_body, trailer)
