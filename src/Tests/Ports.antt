-- ===== src/Tests/Ports.antt =====
-- The link and its exchange on the board.
use fpga_pqc_secure_telemetr.Base.{◌+◌, ◌≤◌, ◌≡◌, refl, [], arith, replicate-IsBytes}
use fpga_pqc_secure_telemetr.Result.{ok}
use fpga_pqc_secure_telemetr.Codec.{load_be16, load_be32, store_be16, store_be32}
use fpga_pqc_secure_telemetr.Crc.{crc32_iso_hdlc}
use fpga_pqc_secure_telemetr.Transport.{frame_body, frame_encode, decode_body, frame_decode}
use fpga_pqc_secure_telemetr.Platform.{
  millis, delay_ms, fpga_irq, spi_begin, spi_transfer, spi_end, watchdog_feed,
}
use fpga_pqc_secure_telemetr.Link.{
  wait_loop, wait_irq, drain_loop, send_request, read_response, check_header, read_body, receive,
  close,
}
use fpga_pqc_secure_telemetr.Link.Buffers.{declared}
use fpga_pqc_secure_telemetr.Link.Wait.{drain_loop-enough}
use fpga_pqc_secure_telemetr.Command.{
  response_matches, txid_of, try_once, before_attempt, or_retry, attempt_at, attempts, exchange_raw,
}
use fpga_pqc_secure_telemetr.Command.Attempt.{Answers, Viewed}
use fpga_pqc_secure_telemetr.Command.Exchange.{IsLink, exchange_raw-Answers, exchange_raw-IsLink}
use fpga_pqc_secure_telemetr.Tests.Board.{board, response_view, link, port}

exchanged : (exchange_raw 0x7F [] 50 port).0 ≡ ok response_view
unfolding exchange_raw attempts attempt_at before_attempt or_retry try_once response_matches
    send_request wait_irq wait_loop read_response check_header read_body receive close frame_encode
    frame_body frame_decode decode_body load_be16 load_be32 store_be16 store_be32 crc32_iso_hdlc
    millis delay_ms fpga_irq spi_begin spi_transfer spi_end watchdog_feed
exchanged = refl

link-IsLink : IsLink link
link-IsLink = record {
  request_size = refl;
  response_size = refl;
  response_bytes = replicate-IsBytes 816;
  id_pos = omega arith;
  id_word = omega arith;
}

exchange_raw-Answers_example :
    Answers response_view 0x7F (txid_of 1) × Viewed response_view (exchange_raw 0x7F [] 50 port).1
exchange_raw-Answers_example = exchange_raw-Answers 0x7F [] 50 port exchanged

exchange_raw-IsLink_example : IsLink (exchange_raw 0x7F [] 50 port).1.link
exchange_raw-IsLink_example = exchange_raw-IsLink 0x7F [] 50 port link-IsLink

short_response : declared (read_response port).1 ≤ 12
unfolding read_response check_header read_body receive close frame_decode decode_body load_be16
    load_be32 crc32_iso_hdlc millis delay_ms fpga_irq spi_begin spi_transfer spi_end
short_response = omega arith

drain_loop-enough_example :
    drain_loop (1038 + 7) 0 board port.world ≡ drain_loop 1038 0 board port.world
drain_loop-enough_example = drain_loop-enough 1038 7 0 board port.world (omega arith)
