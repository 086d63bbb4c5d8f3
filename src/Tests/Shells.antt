-- ===== src/Tests/Shells.antt =====
-- The main program at the desk: a command line that works, and its theorems.
use fpga_pqc_secure_telemetr.Base.{
  ℕ, zero, suc, ◌≡◌, refl, arith, true, false, some, List, [], ◌∷◌, ◌++◌, inl, inr,
  length-replicate, replicate, codes, text_equal,
}
use fpga_pqc_secure_telemetr.Crc.{crc32_iso_hdlc}
use fpga_pqc_secure_telemetr.Console.{
  hex_digit, hex_value, parse_end, parse_loop, parse_hex32_exact, console, console_hex_nibble,
  console_hex_loop, console_hex16, console_hex32,
}
use fpga_pqc_secure_telemetr.Console.RoundTrip.{parse_hex32_exact-console_hex32}
use fpga_pqc_secure_telemetr.Shell.{
  consume_public_key_hex_byte, await_public_key, establish_from_input, kem_session_arguments,
  begin_kem_session_command, run_prints, prints,
}
use fpga_pqc_secure_telemetr.Shell.Command.{
  handle_adc, handlers, dispatch, handle_command, handle_telemetry, handle_zeroize,
}
use fpga_pqc_secure_telemetr.Shell.Terminal.{start, rounds}
use fpga_pqc_secure_telemetr.Shell.KeyEntry.{
  Spells, nibbles, type_text, keyed_input, type_text-await_public_key,
}
use fpga_pqc_secure_telemetr.Shell.Outcome.{Outcome, consume-Outcome}
use fpga_pqc_secure_telemetr.Shell.Blocked.{Untouched, handle_command-Untouched}
use fpga_pqc_secure_telemetr.Shell.Sample.{Sampled, Unsampled, handle_telemetry-Sampled}
use fpga_pqc_secure_telemetr.Shell.Wiped.{IsWiped, Refused, handle_zeroize-IsWiped}
use fpga_pqc_secure_telemetr.Shell.Invariant.{IsTerminal, rounds-start-IsTerminal}
use fpga_pqc_secure_telemetr.Tests.Desk.{
  desk_port, desk_port-IsUart, desk, desk_kem, shell, terminal, usable,
}

adc_answer :
    (handle_command desk (codes "adc") (shell false)).kem.machine.world.printed
    ≡ codes "ADC_P20=0x0800\r\n"
unfolding handle_command begin_kem_session_command handlers dispatch text_equal handle_adc prints
    run_prints console console_hex16 console_hex_loop console_hex_nibble hex_digit
adc_answer = refl

session_arguments : kem_session_arguments (codes "0000000A deadBEEF") ≡ some (10, 0xDEADBEEF)
unfolding kem_session_arguments parse_hex32_exact parse_loop parse_end hex_value
session_arguments = refl

parse_hex32_exact-console_hex32_example :
    (digits : List ℕ) × (desk_port-IsUart.sent
        (console_hex32 desk_port 0xDEADBEEF desk_kem.machine.world)
      ≡ desk_port-IsUart.sent desk_kem.machine.world ++ digits)
    × (parse_hex32_exact digits ≡ some 0xDEADBEEF)
    × ((rest : List ℕ) → parse_hex32_exact (digits ++ (b' ' ∷ rest)) ≡ some 0xDEADBEEF)
parse_hex32_exact-console_hex32_example =
    parse_hex32_exact-console_hex32 desk_port desk_port-IsUart 0xDEADBEEF desk_kem.machine.world
      (omega arith)

-- The digits of a key of zeros, with a blank before each byte.
abbrev zero_text : ℕ → List ℕ
zero_text zero = []
zero_text (suc n) = b' ' ∷ (b'0' ∷ (b'0' ∷ zero_text n))

zero_text-Spells : (n : ℕ) → Spells (zero_text n) (nibbles (replicate n 0))
unfolding hex_value
zero_text-Spells zero = tt
zero_text-Spells (suc n) = inl (refl, inr (refl, inr (refl, zero_text-Spells n)))

abbrev zero_key : List ℕ
zero_key = replicate 800 0

type_text-await_public_key_example :
    (let ready = await_public_key desk 7 (crc32_iso_hdlc zero_key) (shell true) in
      type_text desk (zero_text 800) (record terminal { shell = ready }) ≡ record terminal {
        shell =
            establish_from_input desk
              (record ready { input = keyed_input desk zero_key 7 (crc32_iso_hdlc zero_key) });
      })
type_text-await_public_key_example =
    type_text-await_public_key desk terminal (shell true) 7 zero_key (zero_text 800)
      (length-replicate {A = ℕ} 800 0) (zero_text-Spells 800)

consume-Outcome_example :
    Outcome desk (shell true) (consume_public_key_hex_byte desk b'7' (shell true))
consume-Outcome_example = consume-Outcome desk b'7' (shell true)

handle_command-Untouched_example :
    Untouched desk (shell false) (handle_command desk (codes "telemetry") (shell false))
handle_command-Untouched_example =
    handle_command-Untouched desk (codes "telemetry") (shell false) refl

handle_telemetry-Sampled_example :
    Sampled desk (shell true) (handle_telemetry desk (shell true)) × Unsampled desk (shell true)
handle_telemetry-Sampled_example = handle_telemetry-Sampled desk (shell true)

handle_zeroize-IsWiped_example :
    IsWiped desk (handle_zeroize desk (shell true))
    × ((line : List ℕ)
        → Refused desk
            (handle_zeroize desk (shell true))
            (begin_kem_session_command desk line (handle_zeroize desk (shell true))))
handle_zeroize-IsWiped_example = handle_zeroize-IsWiped desk (shell true) usable usable refl

rounds-start-IsTerminal_example : IsTerminal (
    rounds desk 29 (record { shell = start desk (shell false); line = replicate 48 255; used = 0 }))
rounds-start-IsTerminal_example =
    rounds-start-IsTerminal desk 29 (shell false) (replicate 48 255) refl
