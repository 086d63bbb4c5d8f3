-- ===== src/Tests/Desk.antt =====
-- A host at the console of a board whose endpoints never answer.
use fpga_pqc_secure_telemetr.Base.{
  ℕ, ◌≡◌, refl, Bool, true, false, Option, none, some, List, [], ◌∷◌, ◌++◌, replicate, codes,
}
use fpga_pqc_secure_telemetr.Result.{ok, err, io}
use fpga_pqc_secure_telemetr.Platform.{Platform, is_valid}
use fpga_pqc_secure_telemetr.Session.{cell_a, no_key}
use fpga_pqc_secure_telemetr.Link.{FpgaLink}
use fpga_pqc_secure_telemetr.Mlkem.{Kem}
use fpga_pqc_secure_telemetr.Mlkem.Lowram.{zero_workspace}
use fpga_pqc_secure_telemetr.Sn32Port.{Sn32Port, IsUart}
use fpga_pqc_secure_telemetr.Shell.{Shell, Setup, KeyInput, command_mode}
use fpga_pqc_secure_telemetr.Shell.Terminal.{Terminal}

-- What has been printed, and what is going to be typed.
pub record Desk : Type 0 where
  pub printed : List ℕ
  pub typed : List ℕ

abbrev next_byte : List ℕ → Option ℕ
next_byte [] = none
next_byte (x ∷ xs) = some x

abbrev rest : List ℕ → List ℕ
rest [] = []
rest (x ∷ xs) = xs

abbrev pub desk_port : Sn32Port Desk
desk_port = record {
  uart0_write = λ bytes w. record w { printed = w.printed ++ bytes };
  uart0_read_byte = λ w. (next_byte w.typed, record w { typed = rest w.typed });
  adc_read = λ w. (ok 2048, w);
  csprng_init = λ w. (ok (record { fill = some (λ len v. (ok (replicate len 3), v)) }), w);
  csprng_ready = λ w. true;
  csprng_zeroize = λ w. w;
  uptime_ms64 = λ w. (1000, w);
  link_wiring_verified = true;
}

abbrev pub desk_port-IsUart : IsUart desk_port
desk_port-IsUart = record { sent = λ w. w.printed; write = λ bytes w. refl }

abbrev pub silent : Platform Desk
silent = record {
  millis = some (λ w. (0, w));
  delay_ms = some (λ ms w. w);
  fpga_irq = some (λ w. (false, w));
  spi_begin = some (λ w. (ok tt, w));
  spi_transfer = some (λ tx len timeout_ms w. (err io, [], w));
  spi_end = some (λ w. w);
  fpga_reset = none;
  fpga_zeroize = none;
  watchdog_feed = none;
}

abbrev pub desk : Setup Desk
desk = record {
  port = desk_port;
  native = none;
  platform_p1 = silent;
  platform_p2 = silent;
  tx_result = record { sequence = 0; packet_len = 0; packet = [] };
}

abbrev pub desk_link : FpgaLink Desk
desk_link = record {
  platform = silent;
  next_transaction_id = 1;
  last_remote_status = 0;
  last_remote_detail = 0;
  last_device_state = 0;
  last_data_len = 0;
  request_buf = replicate 538 0;
  response_buf = replicate 816 0;
}

abbrev pub desk_kem : Kem Desk
desk_kem = record {
  machine = record {
    manager = record { state = no_key; session_id = 0; next_sequence = 0; link = cell_a };
    link_a = desk_link;
    link_b = desk_link;
    world = record { printed = []; typed = codes "kem-session 00000007 00000000\r" };
  };
  primer1_link = none;
  backend_error = ok tt;
  workspace = zero_workspace;
  workspace_busy = false;
  ciphertext = replicate 768 0;
  shared_secret = replicate 32 0;
}

abbrev pub no_input : KeyInput
no_input = record {
  receiver_public_key = replicate 800 0;
  input_mode = command_mode;
  pending_session_id = 0;
  pending_public_key_crc = 0;
  public_key_bytes = 0;
  public_key_high_nibble = none;
}

-- A shell with the link in the given condition.
abbrev pub shell : Bool → Shell Desk
shell linked = record {
  kem = desk_kem;
  bridge = record {
    rx_link = cell_a;
    tx_platform = silent;
    rx_platform = silent;
    routed_shared_link = true;
    retained_valid = false;
    retained_sequence = 0;
    retained_packet = replicate 64 0;
  };
  csprng = record { fill = none };
  telemetry = record { sensor_id = 1; sample_counter = 0 };
  link_initialized = linked;
  rng_initialized = true;
  input = no_input;
}

abbrev pub terminal : Terminal Desk
terminal = record { shell = shell true; line = replicate 48 0; used = 0 }

pub usable : is_valid silent ≡ true
unfolding is_valid
usable = refl
