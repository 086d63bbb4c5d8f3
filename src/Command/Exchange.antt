-- ===== src/Command/Exchange.antt =====
-- What a successful exchange returns, and what any exchange may change.
use fpga_pqc_secure_telemetr.Base.{
  ℕ, ◌^◌, ◌<◌, ◌≡◌, ◌≢◌, refl, ◌∙◌, List, length, drop, write_at, to_byte, IsBytes, arith,
  length-write_at, ltb, Bool-cases, ◌==◌, inl, inr,
}
use fpga_pqc_secure_telemetr.Result.{
  Error, argument, buffer_too_small, Result, ok, err, continue-cases,
}
use fpga_pqc_secure_telemetr.Profile.{link_max_retries}
use fpga_pqc_secure_telemetr.Transport.{FrameView, frame_encode}
use fpga_pqc_secure_telemetr.Link.{
  FpgaLink, Port, mcu_buffer_frame, mcu_response_storage_bytes, mcu_max_request_payload,
}
use fpga_pqc_secure_telemetr.Link.Buffers.{Within}
use fpga_pqc_secure_telemetr.Command.{txid_of, txid_after, attempts, exchange_raw}
use fpga_pqc_secure_telemetr.Command.Attempt.{Answers, Viewed, attempts-Outcome}

txid_range : (n : ℕ) → (0 < txid_after n) × (txid_after n < 2 ^ 16) × (txid_of n ≢ 0)
txid_range n = ground arith

-- What every exchange leaves as it was, or in range.
pub record IsLink {W : Type 0} (link : FpgaLink W) : Type 0 where
  pub request_size : length link.request_buf ≡ mcu_buffer_frame
  pub response_size : length link.response_buf ≡ mcu_response_storage_bytes
  pub response_bytes : IsBytes link.response_buf
  pub id_pos : 0 < link.next_transaction_id
  pub id_word : link.next_transaction_id < 2 ^ 16

-- A link object before and after an exchange: another endpoint is not bound, the recorded envelope
-- and what lies behind the largest frame in the response buffer stay.
pub record Exchanged {W : Type 0} (a b : FpgaLink W) : Type 0 where
  pub platform : b.platform ≡ a.platform
  pub status : b.last_remote_status ≡ a.last_remote_status
  pub detail : b.last_remote_detail ≡ a.last_remote_detail
  pub device : b.last_device_state ≡ a.last_device_state
  pub len : b.last_data_len ≡ a.last_data_len
  pub behind : drop mcu_buffer_frame b.response_buf ≡ drop mcu_buffer_frame a.response_buf

module _ {W : Type 0} where
  Exchanged-Within : {s t : Port W} → Within 538 s t → Exchanged s.link t.link
  Exchanged-Within w = record {
    platform = cc (w.rest);
    status = cc (w.rest);
    detail = cc (w.rest);
    device = cc (w.rest);
    len = cc (w.rest);
    behind = w.behind;
  }

  -- The port from which the attempts start.
  abbrev encoded : List ℕ → Port W → Port W
  encoded frame s = record s {
    link = record s.link {
      next_transaction_id = txid_after s.link.next_transaction_id;
      request_buf = write_at 0 frame s.link.request_buf;
    };
  }

  Exchanged-encoded :
      (frame : List ℕ) {s t : Port W} → Within 538 (encoded frame s) t → Exchanged s.link t.link
  Exchanged-encoded frame w =
      let done = Exchanged-Within w in
      record {
        platform = done.platform;
        status = done.status;
        detail = done.detail;
        device = done.device;
        len = done.len;
        behind = done.behind;
      }

  Exchanged-counter :
      {a b : FpgaLink W}
      → b ≡ record a { next_transaction_id = b.next_transaction_id }
      → Exchanged a b
  Exchanged-counter h = record {
    platform = cc h;
    status = cc h;
    detail = cc h;
    device = cc h;
    len = cc h;
    behind = cc h;
  }

  -- Whatever holds on the three ways through an exchange holds of the exchange.
  exchange_raw-cases :
      (P : Result FrameView × Port W → Type 0) (opcode : ℕ) (payload : List ℕ) (timeout_ms : ℕ)
      (s : Port W)
      → ((e : Error) → P (err e, s))
      → ((e : Error)
          → P (
            err e,
            record s {
              link = record s.link { next_transaction_id = txid_after s.link.next_transaction_id };
            },
          ))
      → ((frame : List ℕ)
          → frame_encode
              (to_byte opcode)
              0
              (txid_of s.link.next_transaction_id)
              payload
              mcu_buffer_frame
            ≡ ok frame
          → P (
              attempts link_max_retries 0 frame opcode
                (txid_of s.link.next_transaction_id)
                timeout_ms
                (encoded frame s)))
      → P (exchange_raw opcode payload timeout_ms s)
  unfolding exchange_raw
  exchange_raw-cases P opcode payload timeout_ms s refused unencoded run =
      elim (Bool-cases (timeout_ms == 0)) [
        | inl a ↦ rw a (refused argument)
        | inr a ↦ elim (Bool-cases (ltb mcu_max_request_payload (length payload))) [
          | inl b ↦ rw (a, b) (refused buffer_too_small)
          | inr b ↦ rw (a, b) (continue-cases P _ _ _ run (λ e _. unencoded e))
        ]
      ]

  -- When `exchange_raw` returns OK with a view, the view answers this very request (its
  -- transaction number and opcode, the response flag, neither the more nor the event flag) and is
  -- the decoding of a frame at the front of the response buffer.
  pub exchange_raw-Answers :
      (opcode : ℕ) (payload : List ℕ) (timeout_ms : ℕ) (s : Port W) {v : FrameView}
      → (exchange_raw opcode payload timeout_ms s).0 ≡ ok v
      → Answers v opcode (txid_of s.link.next_transaction_id)
        × Viewed v (exchange_raw opcode payload timeout_ms s).1
  exchange_raw-Answers opcode payload timeout_ms s {v} h =
      exchange_raw-cases
        (λ x. x.0 ≡ ok v → Answers v opcode (txid_of s.link.next_transaction_id) × Viewed v x.1)
        opcode payload timeout_ms s (λ e g. cc g) (λ e g. cc g)
        (λ frame _ g.
          (attempts-Outcome frame opcode (txid_of s.link.next_transaction_id) timeout_ms
              link_max_retries 0 (encoded frame s)).1
            v g)
        h

  -- Whether it succeeds or not, `exchange_raw` keeps the bound platform, the four recorded words
  -- of the last envelope and the response buffer behind its first 538 bytes.
  pub exchange_raw-Exchanged :
      (opcode : ℕ) (payload : List ℕ) (timeout_ms : ℕ) (s : Port W)
      → Exchanged s.link (exchange_raw opcode payload timeout_ms s).1.link
  exchange_raw-Exchanged opcode payload timeout_ms s =
      exchange_raw-cases (λ x. Exchanged s.link x.1.link) opcode payload timeout_ms s
        (λ e. Exchanged-counter refl) (λ e. Exchanged-counter refl)
        (λ frame _.
          let txid = txid_of s.link.next_transaction_id in
          Exchanged-encoded frame
            (attempts-Outcome frame opcode txid timeout_ms link_max_retries 0 (encoded frame s)).0)

  -- `exchange_raw` keeps a link object well formed: the sizes of both buffers, bytes in the
  -- response buffer, the next transaction number a word other than 0.
  pub exchange_raw-IsLink :
      (opcode : ℕ) (payload : List ℕ) (timeout_ms : ℕ) (s : Port W)
      → IsLink s.link
      → IsLink (exchange_raw opcode payload timeout_ms s).1.link
  exchange_raw-IsLink opcode payload timeout_ms s v =
      exchange_raw-cases (λ x. IsLink x.1.link) opcode payload timeout_ms s (λ e. v)
        (λ e. record {
          request_size = v.request_size;
          response_size = v.response_size;
          response_bytes = v.response_bytes;
          id_pos = (txid_range s.link.next_transaction_id).0;
          id_word = (txid_range s.link.next_transaction_id).1;
        })
        (λ frame _.
          let txid = txid_of s.link.next_transaction_id in
          let w =
            (attempts-Outcome frame opcode txid timeout_ms link_max_retries 0
              (encoded frame s)).0 in
          let (pos, word, _) = txid_range s.link.next_transaction_id in
          record {
            request_size = cc (w.rest, length-write_at 0 frame s.link.request_buf, v.request_size);
            response_size = w.size ∙ v.response_size;
            response_bytes = w.bytes v.response_bytes;
            id_pos = rw w.rest pos;
            id_word = rw w.rest word;
          })
