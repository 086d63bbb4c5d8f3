-- ===== src/Tests/Willing.antt =====
-- A pair whose endpoints report the same session.
use fpga_pqc_secure_telemetr.Base.{ℕ, ◌≡◌, refl, List, [], ◌∷◌, take, drop}
use fpga_pqc_secure_telemetr.Result.{ok}
use fpga_pqc_secure_telemetr.Codec.{load_be16, load_be32, load_be64, store_be16, store_be32}
use fpga_pqc_secure_telemetr.Crc.{crc32_iso_hdlc}
use fpga_pqc_secure_telemetr.Transport.{frame_body, frame_encode, decode_body, frame_decode}
use fpga_pqc_secure_telemetr.Platform.{
  millis, delay_ms, fpga_irq, spi_begin, spi_transfer, spi_end, watchdog_feed,
}
use fpga_pqc_secure_telemetr.Link.{
  wait_loop, wait_irq, send_request, read_response, check_header, read_body, receive, close,
}
use fpga_pqc_secure_telemetr.Command.{
  response_matches, try_once, before_attempt, or_retry, attempt_at, attempts, exchange_raw,
  note_envelope, parse_generic, command,
}
use fpga_pqc_secure_telemetr.Primer1
use fpga_pqc_secure_telemetr.Primer1.{command_no_data}
use fpga_pqc_secure_telemetr.Primer2
use fpga_pqc_secure_telemetr.Primer2.{load_key, establish_rx}
use fpga_pqc_secure_telemetr.Session.{Machine, cell_a, cell_b, no_key, confirm_pair, judge, matched}
use fpga_pqc_secure_telemetr.Session.Confirm.{Agreed, confirm_pair-Agreed}
use fpga_pqc_secure_telemetr.Tests.Board.{Board, link}

abbrev status_ok : List ℕ
status_ok =
    165 ∷ 90 ∷ 1 ∷ 68 ∷ 1 ∷ 0 ∷ 0 ∷ 1 ∷ 0 ∷ 28 ∷ 0 ∷ 0 ∷ 0 ∷ 0 ∷ 0 ∷ 0 ∷ 0 ∷ 0 ∷ 0 ∷ 0 ∷ 0 ∷ 16 ∷ 0
    ∷ 1 ∷ 1 ∷ 0 ∷ 0 ∷ 0 ∷ 0 ∷ 7 ∷ 0 ∷ 0 ∷ 0 ∷ 0 ∷ 0 ∷ 0 ∷ 0 ∷ 0 ∷ 145 ∷ 31 ∷ 127 ∷ 52 ∷ []

abbrev answers : List (List ℕ)
answers = take 10 status_ok ∷ drop 10 status_ok ∷ take 10 status_ok ∷ drop 10 status_ok ∷ []

abbrev willing : Machine Board
willing = record {
  manager = record { state = no_key; session_id = 0; next_sequence = 0; link = cell_a };
  link_a = link;
  link_b = link;
  world = record { now = 0; replies = answers };
}

confirmed : (confirm_pair cell_b 7 willing).0 ≡ ok tt
unfolding confirm_pair judge matched Primer1.key_status Primer2.key_status command parse_generic
    note_envelope exchange_raw attempts attempt_at before_attempt or_retry try_once response_matches
    send_request wait_irq wait_loop read_response check_header read_body receive close frame_encode
    frame_body frame_decode decode_body load_be16 load_be32 load_be64 store_be16 store_be32
    crc32_iso_hdlc millis delay_ms fpga_irq spi_begin spi_transfer spi_end watchdog_feed
confirmed = refl

confirm_pair-Agreed_example : Agreed cell_b 7 willing
confirm_pair-Agreed_example = confirm_pair-Agreed cell_b 7 willing confirmed
