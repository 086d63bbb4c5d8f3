-- ===== src/Tests/Board.antt =====
-- A board to try the code on, and a response frame for it.
use fpga_pqc_secure_telemetr.Base.{
  ℕ, ◌+◌, ◌%◌, ◌^◌, true, Option, none, some, List, [], ◌∷◌, replicate, take, drop, refl, arith,
}
use fpga_pqc_secure_telemetr.Result.{ok}
use fpga_pqc_secure_telemetr.Platform.{Platform, IsClock, millis, delay_ms, fpga_irq, watchdog_feed}
use fpga_pqc_secure_telemetr.Transport.{FrameView}
use fpga_pqc_secure_telemetr.Link.{FpgaLink, Port}

-- The time, and what the next reads of the bus will give.
pub record Board : Type 0 where
  pub now : ℕ
  pub replies : List (List ℕ)

abbrev next_reply : Option (List ℕ) → ℕ → List (List ℕ) → List ℕ × List (List ℕ)
next_reply (some tx) len replies = ([], replies)
next_reply none len [] = (replicate len 0, [])
next_reply none len (r ∷ rs) = (r, rs)

-- Every callback works, the endpoint is always ready, and a delay takes its time.
abbrev pub board : Platform Board
board = record {
  millis = some (λ w. (w.now % 2 ^ 32, w));
  delay_ms = some (λ ms w. record w { now = w.now + ms });
  fpga_irq = some (λ w. (true, w));
  spi_begin = some (λ w. (ok tt, w));
  spi_transfer = some (λ tx len timeout_ms w. (
    ok tt,
    (next_reply tx len w.replies).0,
    record w { replies = (next_reply tx len w.replies).1 },
  ));
  spi_end = some (λ w. w);
  fpga_reset = none;
  fpga_zeroize = none;
  watchdog_feed = none;
}

board-IsClock : IsClock board
unfolding millis delay_ms fpga_irq watchdog_feed
board-IsClock = record {
  time = λ w. w.now;
  millis_reads = λ w. refl;
  millis_start = λ w. omega arith;
  millis_end = λ w. omega arith;
  delay_start = λ ms w. omega arith;
  delay_end = λ ms w. omega arith;
  irq_start = λ w. omega arith;
  irq_end = λ w. omega arith;
  watchdog_start = λ w. omega arith;
  watchdog_end = λ w. omega arith;
}

-- The response OK, without data, to the command with opcode 0x7F and transaction 1.
abbrev pub response : List ℕ
response =
    165 ∷ 90 ∷ 1 ∷ 127 ∷ 1 ∷ 0 ∷ 0 ∷ 1 ∷ 0 ∷ 12 ∷ 0 ∷ 0 ∷ 0 ∷ 0 ∷ 0 ∷ 0 ∷ 0 ∷ 0 ∷ 0 ∷ 0 ∷ 0 ∷ 0
    ∷ 157 ∷ 240 ∷ 67 ∷ 193 ∷ []

abbrev pub response_view : FrameView
response_view = record {
  opcode = 0x7F;
  flags = 1;
  transaction_id = 1;
  payload = replicate 12 0;
  payload_len = 12;
}

abbrev pub link : FpgaLink Board
link = record {
  platform = board;
  next_transaction_id = 1;
  last_remote_status = 0;
  last_remote_detail = 0;
  last_device_state = 0;
  last_data_len = 0;
  request_buf = replicate 538 0;
  response_buf = replicate 816 0;
}

-- The endpoint is about to send that response.
abbrev pub port : Port Board
port = record {
  link = link;
  world = record { now = 0; replies = take 10 response ∷ drop 10 response ∷ [] };
}
