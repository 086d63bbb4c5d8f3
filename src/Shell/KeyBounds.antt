-- ===== src/Shell/KeyBounds.antt =====
-- The key buffer is never written out of bounds, and no key outlives its input.
use Prim.Native.String.{String}
use fpga_pqc_secure_telemetr.Base.{
  ℕ, ◌+◌, ◌<◌, ◌≡◌, ◌≢◌, refl, ◌∙◌, true, false, ◌||◌, some, length, length-write_at,
  length-replicate, leb, ◌==◌, ◌/=◌, arith, if-cases, option-cases,
}
use fpga_pqc_secure_telemetr.Result.{Status, ok, err}
use fpga_pqc_secure_telemetr.Console.{hex_value}
use fpga_pqc_secure_telemetr.Mlkem.{public_key_bytes}
use fpga_pqc_secure_telemetr.Crc.{crc32_iso_hdlc}
use fpga_pqc_secure_telemetr.Shell.{
  Shell, Setup, KeyInput, is_public_key_mode, prints, reset_public_key_input,
  abort_public_key_input, announce_session, establish_from_input, finish_public_key_input,
  store_key_byte, complete_key_byte, consume_public_key_hex_byte, print_error,
}
use fpga_pqc_secure_telemetr.Shell.Effect.{Blind, prints-Blind, print_error-Blind}

-- The next byte of the key has room, and in command mode nothing of a key is left.
pub record IsInput (i : KeyInput) : Type 0 where
  pub size : length i.receiver_public_key ≡ public_key_bytes
  pub room : i.public_key_bytes < public_key_bytes
  pub digit : (n : ℕ) → i.public_key_high_nibble ≡ some n → n < 16
  pub idle : is_public_key_mode i.input_mode ≡ false → i ≡ reset_public_key_input
  pub named : is_public_key_mode i.input_mode ≡ true → i.pending_session_id ≢ 0

pub IsInput-reset : IsInput reset_public_key_input
unfolding reset_public_key_input
IsInput-reset = record {
  size = length-replicate {A = ℕ} public_key_bytes 0;
  room = omega arith;
  digit = λ n h. cc h;
  idle = λ _. refl;
  named = λ h. cc h;
}

hex_value-lt : (ch n : ℕ) → hex_value ch ≡ some n → n < 16
unfolding hex_value
hex_value-lt ch n h = ground arith

module _ {W : Type 0} where
  abbrev pub HasInput : Shell W → Type 0
  HasInput s = IsInput s.input

  pub HasInput-Blind : Blind HasInput
  HasInput-Blind s w h = h

module _ {W : Type 0} (fw : Setup W) where
  abort-HasInput : (reason : String) (s : Shell W) → HasInput (abort_public_key_input fw reason s)
  unfolding abort_public_key_input prints
  abort-HasInput reason s = IsInput-reset

  announce-HasInput :
      (session_id : ℕ) (rc : Status) (s : Shell W)
      → HasInput s
      → HasInput (announce_session fw session_id rc s)
  unfolding announce_session
  announce-HasInput session_id (ok _) s h =
      prints-Blind fw HasInput HasInput-Blind _ _ (prints-Blind fw HasInput HasInput-Blind _ s h)
  announce-HasInput session_id (err e) s h =
      prints-Blind fw HasInput HasInput-Blind _ (print_error fw e _) (
        print_error-Blind fw HasInput HasInput-Blind e _
          (prints-Blind fw HasInput HasInput-Blind _ s h))

  finish-HasInput : (s : Shell W) → HasInput (finish_public_key_input fw s)
  unfolding finish_public_key_input establish_from_input prints
  finish-HasInput s =
      if-cases HasInput
        (crc32_iso_hdlc s.input.receiver_public_key /= s.input.pending_public_key_crc)
        (λ _. IsInput-reset) (λ _. announce-HasInput s.input.pending_session_id _ _ IsInput-reset)

  store-IsInput :
      (high low : ℕ) (i : KeyInput)
      → IsInput i
      → is_public_key_mode i.input_mode ≡ true
      → (i.public_key_bytes + 1 == public_key_bytes) ≡ false
      → IsInput (store_key_byte high low i)
  store-IsInput high low i h mode more = record {
    size = length-write_at i.public_key_bytes _ i.receiver_public_key ∙ h.size;
    room = ground (arith, h.room, more);
    digit = λ n e. cc e;
    idle = λ off. cc (mode, off);
    named = h.named;
  }

  complete-HasInput :
      (high low : ℕ) (s : Shell W)
      → HasInput s
      → is_public_key_mode s.input.input_mode ≡ true
      → HasInput (complete_key_byte fw high low s)
  unfolding complete_key_byte
  complete-HasInput high low s h mode =
      if-cases HasInput (leb public_key_bytes s.input.public_key_bytes)
        (λ _. abort-HasInput "public key overflow" s)
        (λ _.
          if-cases HasInput (s.input.public_key_bytes + 1 == public_key_bytes)
            (λ _. finish-HasInput _) (λ more. store-IsInput high low s.input h mode more))

  pub consume-HasInput :
      (ch : ℕ) (s : Shell W)
      → HasInput s
      → is_public_key_mode s.input.input_mode ≡ true
      → HasInput (consume_public_key_hex_byte fw ch s)
  unfolding consume_public_key_hex_byte
  consume-HasInput ch s h mode =
      if-cases HasInput (ch == 0x03 || ch == 0x1B) (λ _. abort-HasInput "operator abort" s)
        (λ _.
          if-cases HasInput (ch == b' ' || (ch == b'\t' || (ch == b'\r' || ch == b'\n'))) (λ _. h)
            (λ _.
              option-cases HasInput (hex_value ch) _ _ (λ _. abort-HasInput "non-hex input" s)
                (λ nibble found.
                  option-cases HasInput s.input.public_key_high_nibble _ _
                    (λ _. record {
                      size = h.size;
                      room = h.room;
                      digit = λ n e. hex_value-lt ch n (cc (found, e));
                      idle = λ off. cc (mode, off);
                      named = h.named;
                    })
                    (λ high _. complete-HasInput high nibble s h mode))))
