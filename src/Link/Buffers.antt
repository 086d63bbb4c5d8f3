-- ===== src/Link/Buffers.antt =====
-- What the SPI transactions of a link may change: the world, and the front of the response buffer.
use fpga_pqc_secure_telemetr.Base.{
  ℕ, zero, suc, ◌+◌, ◌≤◌, ◌≡◌, refl, ◌∙◌, inl, inr, List, length, take, drop, map, to_byte, IsBytes,
  arith, length-write_at, get_or-drop, get_or-write_at, drop-write_at, length-take, take-IsBytes,
  map-to_byte-IsBytes, write_at-IsBytes, write_at,
}
use fpga_pqc_secure_telemetr.Result.{Exec, Result-cases, ◌>>◌}
use fpga_pqc_secure_telemetr.Base.{none, Bool}
use fpga_pqc_secure_telemetr.Profile.{link_ready_timeout_ms}
use fpga_pqc_secure_telemetr.Platform.{
  spi_transfer, spi_begin, fpga_irq, millis, delay_ms, watchdog_feed,
}
use fpga_pqc_secure_telemetr.Codec.{load_be16}
use fpga_pqc_secure_telemetr.Transport.{FrameView}
use fpga_pqc_secure_telemetr.Link.{
  mcu_max_response_payload, Port, receive, drain_response_to_max, read_body, check_header, close,
  read_response, discard_pending_response, wait_loop, wait_irq, send_request, recover,
}

module _ {W : Type 0} where
  -- From `s` to `t` only the first `k` bytes of the response buffer changed, and the world.
  pub record Within (k : ℕ) (s t : Port W) : Type 0 where
    pub rest : t.link ≡ record s.link { response_buf = t.link.response_buf }
    pub size : length t.link.response_buf ≡ length s.link.response_buf
    pub behind : drop k t.link.response_buf ≡ drop k s.link.response_buf
    pub bytes : IsBytes s.link.response_buf → IsBytes t.link.response_buf

  pub Within-refl : (k : ℕ) (s t : Port W) → t.link ≡ s.link → Within k s t
  Within-refl k s t e = record { rest = cc; size = cc; behind = cc; bytes = λ b. rw e b }

  pub Within-trans : {k : ℕ} {s t u : Port W} → Within k s t → Within k t u → Within k s u
  Within-trans a b = record {
    rest = cc (a.rest, b.rest);
    size = b.size ∙ a.size;
    behind = b.behind ∙ a.behind;
    bytes = λ h. b.bytes (a.bytes h);
  }

  -- The bytes that a transfer of `receive` delivers.
  abbrev received : ℕ → Port W → List ℕ
  received len s =
      map to_byte (spi_transfer s.link.platform none len link_ready_timeout_ms s.world).1

  receive-Within :
      (offset len k : ℕ) (s : Port W) → offset + len ≤ k → Within k s (receive offset len s).1
  unfolding receive
  receive-Within offset len k s h = record {
    rest = refl;
    size = length-write_at offset _ s.link.response_buf;
    behind =
        drop-write_at k offset _ s.link.response_buf
          (omega (arith, length-take len (received len s)));
    bytes = λ b.
        write_at-IsBytes offset _ s.link.response_buf (take-IsBytes len _ (map-to_byte-IsBytes _))
          b;
  }

  drain-Within : (n k : ℕ) (s : Port W) → Within k s (drain_response_to_max n s)
  unfolding drain_response_to_max
  drain-Within n k s = Within-refl k s _ refl

  read_body-Within : (n k : ℕ) (s : Port W) → 14 + n ≤ k → Within k s (read_body n s).1
  unfolding read_body
  read_body-Within n k s h =
      let got = receive-Within 10 (n + 4) k s (omega arith) in
      let drained = Within-trans got (drain-Within (10 + (n + 4)) k (receive 10 (n + 4) s).1) in
      ground (arith, got, drained)

  -- The length that the header in the response buffer declares.
  abbrev pub declared : Port W → ℕ
  declared s = load_be16 (drop 8 s.link.response_buf)

  check_header-Within :
      (k : ℕ) (s : Port W)
      → (declared s ≤ mcu_max_response_payload → 14 + declared s ≤ k)
      → Within k s (check_header s).1
  unfolding check_header
  check_header-Within k s h = ground (arith, drain-Within 10 k s, read_body-Within (declared s) k s)

  close-Within :
      {A : Type 0} (m : Exec (Port W) A) (k : ℕ) (s : Port W)
      → Within k s (m s).1
      → Within k s (close m s).1
  unfolding close
  close-Within m k s h = Within-trans h (Within-refl k (m s).1 _ refl)

  abbrev read_selected : Exec (Port W) FrameView
  read_selected = do receive 0 10; check_header

  read_selected-Within :
      (k : ℕ) (s : Port W)
      → 10 ≤ k
      → (declared (receive 0 10 s).1 ≤ mcu_max_response_payload
          → 14 + declared (receive 0 10 s).1 ≤ k)
      → Within k s (read_selected s).1
  read_selected-Within k s h c =
      let got = receive-Within 0 10 k s (omega arith) in
      let checked = Within-trans got (check_header-Within k (receive 0 10 s).1 c) in
      ground (arith, got, checked)

  read_response-Within-declared :
      (k : ℕ) (s : Port W)
      → 10 ≤ k
      → (let t : Port W = record s { world = (spi_begin s.link.platform s.world).1 } in
          declared (receive 0 10 t).1 ≤ mcu_max_response_payload
          → 14 + declared (receive 0 10 t).1 ≤ k)
      → Within k s (read_response s).1
  unfolding read_response
  read_response-Within-declared k s h c =
      let t : Port W = record s { world = (spi_begin s.link.platform s.world).1 } in
      let start = Within-refl k s t refl in
      let selected =
        Within-trans start (close-Within read_selected k t (read_selected-Within k t h c)) in
      ground (arith, start, selected)

  -- Reading a response changes the world and the front of the response buffer, no further than the
  -- largest frame that the firmware takes.
  pub read_response-Within : (s : Port W) → Within 538 s (read_response s).1
  read_response-Within s = read_response-Within-declared 538 s (omega arith) (λ h. omega arith)

  declared-receive :
      (offset len : ℕ) (s : Port W) → 10 ≤ offset → declared (receive offset len s).1 ≡ declared s
  unfolding receive load_be16
  declared-receive offset len s h =
      let buf = s.link.response_buf in
      let src = take len (received len s) in
      omega (
        arith,
        get_or-drop 8 0 (write_at offset src buf) 0,
        get_or-drop 8 1 (write_at offset src buf) 0,
        get_or-drop 8 0 buf 0,
        get_or-drop 8 1 buf 0,
        get_or-write_at offset 8 src buf 0,
        get_or-write_at offset 9 src buf 0,
      )

  declared-check_header : (s : Port W) → declared (check_header s).1 ≡ declared s
  unfolding check_header read_body drain_response_to_max
  declared-check_header s = ground (arith, declared-receive 10 (declared s + 4) s (omega arith))

  read_selected_prefix :
      (n : ℕ) (s : Port W)
      → declared (read_selected s).1 ≤ n
      → Within (14 + n) s (read_selected s).1
  read_selected_prefix n s h =
      let got = receive-Within 0 10 (14 + n) s (omega arith) in
      elim (Result-cases (receive 0 10 s).0) [
        | inl (_, e) ↦
            let same : declared (receive 0 10 s).1 ≤ n =
              ground (arith, declared-check_header (receive 0 10 s).1) in
            read_selected-Within (14 + n) s (omega arith) (λ _. omega arith)
        | inr (_, e) ↦ ground (arith, got)
      ]

  declared-close :
      {A : Type 0} (m : Exec (Port W) A) (s : Port W) → declared (close m s).1 ≡ declared (m s).1
  unfolding close
  declared-close m s = refl

  -- `read_response`, on success and failure, changes of the link object the response buffer only,
  -- keeps its size and its elements bytes, and does not touch it behind 14 + n bytes, when the
  -- payload length in the header it has read is at most n.
  pub read_response_prefix :
      (n : ℕ) (s : Port W)
      → declared (read_response s).1 ≤ n
      → Within (14 + n) s (read_response s).1
  unfolding read_response
  read_response_prefix n s h =
      let t : Port W = record s { world = (spi_begin s.link.platform s.world).1 } in
      let start = Within-refl (14 + n) s t refl in
      elim (Result-cases (spi_begin s.link.platform s.world).0) [
        | inl (_, e) ↦
            let few : declared (read_selected t).1 ≤ n =
              ground (arith, declared-close read_selected t) in
            let selected =
              Within-trans start
                (close-Within read_selected (14 + n) t (read_selected_prefix n t few)) in
            ground (arith, selected)
        | inr (_, e) ↦ ground (arith, start)
      ]

  pub discard-Within : (s : Port W) → Within 538 s (discard_pending_response s)
  unfolding discard_pending_response
  discard-Within s =
      let t : Port W = record s { world = (fpga_irq s.link.platform s.world).1 } in
      let start = Within-refl 538 s t refl in
      ground (arith, start, Within-trans start (read_response-Within t))

  link-wait_loop :
      (fuel start timeout_ms : ℕ) (s : Port W) → (wait_loop fuel start timeout_ms s).1.link ≡ s.link
  unfolding wait_loop
  link-wait_loop zero start timeout_ms s = refl
  link-wait_loop (suc fuel) start timeout_ms s =
      let p = s.link.platform in
      let w1 = (fpga_irq p s.world).1 in
      let w2 = (millis p (delay_ms p 1 (watchdog_feed p w1))).1 in
      ground (arith, link-wait_loop fuel start timeout_ms (record s { world = w2 }))

  pub link-wait_irq : (timeout_ms : ℕ) (s : Port W) → (wait_irq timeout_ms s).1.link ≡ s.link
  unfolding wait_irq
  link-wait_irq timeout_ms s = link-wait_loop (timeout_ms + 1) _ timeout_ms _

  pub link-send_request : (frame : List ℕ) (s : Port W) → (send_request frame s).1.link ≡ s.link
  unfolding send_request
  link-send_request frame s = ground arith

  pub link-recover : (b : Bool) (s : Port W) → (recover b s).link ≡ s.link
  unfolding recover
  link-recover b s = refl
