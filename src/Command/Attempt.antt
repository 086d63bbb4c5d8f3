-- ===== src/Command/Attempt.antt =====
-- What the attempts of one exchange may change, and what a successful one returns.
use fpga_pqc_secure_telemetr.Base.{
  ℕ, zero, suc, ◌+◌, ◌≤◌, ◌≡◌, ◌≢◌, refl, ◌∙◌, Bool, true, List, take, to_byte, bit_and, arith,
  ◌==◌,
}
use fpga_pqc_secure_telemetr.Result.{Error, Result, Exec, ok, err}
use fpga_pqc_secure_telemetr.Profile.{link_max_retries, frame_flag_response, frame_flags_more_async}
use fpga_pqc_secure_telemetr.Transport.{FrameView, frame_decode}
use fpga_pqc_secure_telemetr.Platform.{delay_ms, spi_begin}
use fpga_pqc_secure_telemetr.Link.{
  Port, wait_irq, send_request, read_response, recover, receive, check_header, read_body, close,
  mcu_buffer_frame,
}
use fpga_pqc_secure_telemetr.Link.Buffers.{
  Within, Within-refl, declared, Within-trans, read_response-Within, discard-Within, link-wait_irq,
  link-send_request, link-recover,
}
use fpga_pqc_secure_telemetr.Command.{
  response_matches, try_once, before_attempt, attempts, or_retry, attempt_at,
}

-- The response answers the request: its opcode and transaction, a single response, no event.
pub record Answers (v : FrameView) (opcode txid : ℕ) : Type 0 where
  pub same_transaction : v.transaction_id ≡ txid
  pub same_opcode : v.opcode ≡ to_byte opcode
  pub is_response : bit_and v.flags frame_flag_response ≢ 0
  pub is_single : bit_and v.flags frame_flags_more_async ≡ 0

response_matches-Answers :
    (v : FrameView) (opcode txid : ℕ)
    → response_matches v opcode txid ≡ true
    → Answers v opcode txid
unfolding response_matches
response_matches-Answers v opcode txid h = ground arith

module _ {W : Type 0} where
  -- The view is that of a frame at the front of the response buffer.
  pub record Viewed (v : FrameView) (s : Port W) : Type 0 where
    pub extent : ℕ
    pub fits : extent ≤ mcu_buffer_frame
    pub decoded : frame_decode (take extent s.link.response_buf) ≡ ok v

  check_header-Viewed :
      (s : Port W) {v : FrameView} → (check_header s).0 ≡ ok v → Viewed v (check_header s).1
  unfolding check_header read_body
  check_header-Viewed s h = record {
    extent = 10 + (declared s + 4);
    fits = ground arith;
    decoded = ground arith;
  }

  read_response-Viewed :
      (s : Port W) {v : FrameView} → (read_response s).0 ≡ ok v → Viewed v (read_response s).1
  unfolding read_response close
  read_response-Viewed s {v} h =
      let t : Port W = record s { world = (spi_begin s.link.platform s.world).1 } in
      let got : (check_header (receive 0 10 t).1).0 ≡ ok v = ground arith in
      let viewed = check_header-Viewed (receive 0 10 t).1 got in
      record { extent = viewed.extent; fits = viewed.fits; decoded = ground arith }

  -- An attempt changes the world and the front of the response buffer.
  try_once-Within :
      (frame : List ℕ) (opcode txid timeout_ms : ℕ) (s : Port W)
      → Within 538 s (try_once frame opcode txid timeout_ms s).1
  unfolding try_once
  try_once-Within frame opcode txid timeout_ms s =
      let s1 = (send_request frame s).1 in
      let s2 = (wait_irq timeout_ms s1).1 in
      let sent = Within-refl 538 s s1 (link-send_request frame s) in
      let waited = Within-trans sent (Within-refl 538 s1 s2 (link-wait_irq timeout_ms s1)) in
      let read = Within-trans waited (read_response-Within s2) in ground (arith, sent, waited, read)

  try_once-Viewed :
      (frame : List ℕ) (opcode txid timeout_ms : ℕ) (s : Port W) {v : FrameView}
      → (try_once frame opcode txid timeout_ms s).0 ≡ ok v
      → Answers v opcode txid × Viewed v (try_once frame opcode txid timeout_ms s).1
  unfolding try_once
  try_once-Viewed frame opcode txid timeout_ms s {v} h =
      let s2 = (wait_irq timeout_ms (send_request frame s).1).1 in
      let got : (read_response s2).0 ≡ ok v = ground arith in
      let viewed = read_response-Viewed s2 got in
      (
        response_matches-Answers v opcode txid (ground arith),
        record { extent = viewed.extent; fits = viewed.fits; decoded = ground arith },
      )

  before_attempt-Within : (k : ℕ) (s : Port W) → Within 538 s (before_attempt k s)
  unfolding before_attempt
  before_attempt-Within k s =
      let s1 : Port W = record s { world = delay_ms s.link.platform 1 s.world } in
      ground (
        arith,
        Within-refl 538 s s refl,
        Within-trans (Within-refl 538 s s1 refl) (discard-Within s1),
      )

  recover-Within : (k : ℕ) (b : Bool) (s : Port W) → Within k s (recover b s)
  recover-Within k b s = Within-refl k s (recover b s) (link-recover b s)

  -- A property of all ways out of an attempt.
  or_retry-cases :
      (P : Result FrameView × Port W → Type 0) (r : Result FrameView)
      (next : Error → Exec (Port W) FrameView) (s : Port W)
      → ((v : FrameView) → r ≡ ok v → P (ok v, s))
      → ((e : Error) → P (next e s))
      → P (or_retry r next s)
  unfolding or_retry
  or_retry-cases P (ok v) next s done again = done v refl
  or_retry-cases P (err e) next s done again = again e

  module _ (frame : List ℕ) (opcode txid timeout_ms : ℕ) where
    attempt-Within :
        (k : ℕ) (s : Port W) → Within 538 s (attempt_at k frame opcode txid timeout_ms s).1
    unfolding attempt_at
    attempt-Within k s =
        Within-trans (before_attempt-Within k s)
          (try_once-Within frame opcode txid timeout_ms (before_attempt k s))

    -- What holds of a result and the state beside it, when the loop has started at `s`.
    abbrev pub Outcome : Port W → Result FrameView × Port W → Type 0
    Outcome s (r, t) =
        Within 538 s t × ((v : FrameView) → r ≡ ok v → Answers v opcode txid × Viewed v t)

    attempt-Outcome : (k : ℕ) (s : Port W) → Outcome s (attempt_at k frame opcode txid timeout_ms s)
    attempt-Outcome k s = (
      attempt-Within k s,
      λ v h.
          unfold attempt_at in try_once-Viewed frame opcode txid timeout_ms (before_attempt k s) h,
    )

    Outcome-recover :
        (k : ℕ) (s t : Port W) (e : Error)
        → Within 538 s t
        → Outcome s (err e, recover (k == link_max_retries) t)
    Outcome-recover k s t e w =
        (Within-trans w (recover-Within 538 (k == link_max_retries) t), λ v h. cc h)

    Outcome-trans :
        {s t : Port W} {x : Result FrameView × Port W} → Within 538 s t → Outcome t x → Outcome s x
    Outcome-trans w h = (Within-trans w h.0, h.1)

    -- All attempts together.
    pub attempts-Outcome :
        (left k : ℕ) (s : Port W) → Outcome s (attempts left k frame opcode txid timeout_ms s)
    unfolding attempts
    attempts-Outcome zero k s =
        let (r, t) = attempt_at k frame opcode txid timeout_ms s in
        let (w, views) = attempt-Outcome k s in
        or_retry-cases (Outcome s) r _ t (λ v h. (w, λ v' h'. views v' (h ∙ h')))
          (λ e. Outcome-recover k s t e w)
    attempts-Outcome (suc left) k s =
        let (r, t) = attempt_at k frame opcode txid timeout_ms s in
        let (w, views) = attempt-Outcome k s in
        or_retry-cases (Outcome s) r _ t (λ v h. (w, λ v' h'. views v' (h ∙ h')))
          (λ e.
            Outcome-trans (Within-trans w (recover-Within 538 (k == link_max_retries) t))
              (attempts-Outcome left (k + 1) (recover (k == link_max_retries) t)))
