-- ===== src/Shell/KeyEntry.antt =====
-- A public key typed in hexadecimal reaches the buffer as it is.
use mathlib.Core.List.{append_assoc, append-nil}
use fpga_pqc_secure_telemetr.Base.{
  ℕ, ◌+◌, ◌*◌, ◌/◌, ◌%◌, ◌<◌, ◌≡◌, refl, sym, ap, ◌∙◌, Bool, true, ◌||◌, Option, none, some, List,
  [], ◌∷◌, ◌++◌, length, length-append, length-replicate, replicate, write_at, ◌==◌, ◌⊎◌, inl, inr,
  arith,
}
use fpga_pqc_secure_telemetr.Console.{hex_value}
use fpga_pqc_secure_telemetr.Crc.{crc32_iso_hdlc}
use fpga_pqc_secure_telemetr.Mlkem.{public_key_bytes}
use fpga_pqc_secure_telemetr.Shell.{
  Shell, Setup, KeyInput, kem_public_key_hex_mode, store_key_byte, consume_public_key_hex_byte,
  await_public_key, establish_from_input, reset_public_key_input, prints, complete_key_byte,
  finish_public_key_input,
}
use fpga_pqc_secure_telemetr.Shell.Terminal.{Terminal, receive}

abbrev pub is_blank : ℕ → Bool
is_blank ch = ch == b' ' || (ch == b'\t' || (ch == b'\r' || ch == b'\n'))

-- The digits of a key.
abbrev pub nibbles : List ℕ → List ℕ
nibbles [] = []
nibbles (x ∷ xs) = x / 16 ∷ (x % 16 ∷ nibbles xs)

-- The text has these digits, in either case, with blanks anywhere in front of them.
abbrev pub Spells : List ℕ → List ℕ → Type 0
Spells [] [] = Unit
Spells [] (n ∷ ns) = ⊥
Spells (ch ∷ text) [] = ⊥
Spells (ch ∷ text) (n ∷ ns) =
    (is_blank ch ≡ true) × Spells text (n ∷ ns) ⊎ (hex_value ch ≡ some n) × Spells text ns

write_at-append :
    (xs ys : List ℕ) (y z : ℕ) → write_at (length xs) (z ∷ []) (xs ++ y ∷ ys) ≡ xs ++ z ∷ ys
write_at-append [] ys y z = refl
write_at-append (x ∷ xs) ys y z = ap (◌∷◌ x) (write_at-append xs ys y z)

module _ {W : Type 0} (fw : Setup W) where
  -- A host types the bytes of a text.
  abbrev pub type_text : List ℕ → Terminal W → Terminal W
  type_text [] t = t
  type_text (ch ∷ text) t = type_text text (receive fw ch t)

  -- The input of `t` with these bytes of the key and a digit.
  abbrev pub entered : Terminal W → List ℕ → List ℕ → Option ℕ → Shell W
  entered t keyed rest nibble = record t.shell {
    input = record t.shell.input {
      receiver_public_key = keyed ++ rest;
      input_mode = kem_public_key_hex_mode;
      public_key_bytes = length keyed;
      public_key_high_nibble = nibble;
    };
  }

  abbrev typing : Terminal W → List ℕ → List ℕ → Option ℕ → Terminal W
  typing t keyed rest nibble = record t { shell = entered t keyed rest nibble }

  receive_blank :
      (t : Terminal W) (keyed rest : List ℕ) (nibble : Option ℕ) (ch : ℕ)
      → is_blank ch ≡ true
      → receive fw ch (typing t keyed rest nibble) ≡ typing t keyed rest nibble
  unfolding receive consume_public_key_hex_byte
  receive_blank t keyed rest nibble ch h = ground arith

  receive_high :
      (t : Terminal W) (keyed rest : List ℕ) (ch n : ℕ)
      → hex_value ch ≡ some n
      → receive fw ch (typing t keyed rest none) ≡ typing t keyed rest (some n)
  unfolding receive consume_public_key_hex_byte hex_value
  receive_high t keyed rest ch n h = ground arith

  receive_low :
      (t : Terminal W) (keyed rest : List ℕ) (high ch n : ℕ)
      → hex_value ch ≡ some n
      → receive fw ch (typing t keyed rest (some high))
        ≡ record t { shell = complete_key_byte fw high n (entered t keyed rest (some high)) }
  unfolding receive consume_public_key_hex_byte hex_value
  receive_low t keyed rest high ch n h = ground arith

  stored :
      (t : Terminal W) (keyed rest : List ℕ) (r high n : ℕ)
      → record (entered t keyed (r ∷ rest) (some high)) {
        input = store_key_byte high n (entered t keyed (r ∷ rest) (some high)).input;
      }
        ≡ entered t (keyed ++ (high * 16 + n) ∷ []) rest none
  stored t keyed rest r high n =
      let b = high * 16 + n in
      let key : write_at (length keyed) (b ∷ []) (keyed ++ r ∷ rest) ≡ (keyed ++ b ∷ []) ++ rest =
        write_at-append keyed rest r b ∙ sym (append_assoc keyed (b ∷ []) rest) in
      let count : length keyed + 1 ≡ length (keyed ++ b ∷ []) =
        sym (length-append keyed (b ∷ [])) in
      λ i. record t.shell {
        input = record t.shell.input {
          receiver_public_key = key i;
          input_mode = kem_public_key_hex_mode;
          public_key_bytes = count i;
          public_key_high_nibble = none;
        };
      }

  complete_more :
      (t : Terminal W) (keyed rest : List ℕ) (r high n : ℕ)
      → length keyed + 1 < public_key_bytes
      → complete_key_byte fw high n (entered t keyed (r ∷ rest) (some high))
        ≡ entered t (keyed ++ (high * 16 + n) ∷ []) rest none
  unfolding complete_key_byte
  complete_more t keyed rest r high n h = ground (arith, stored t keyed rest r high n)

  complete_last :
      (t : Terminal W) (keyed rest : List ℕ) (r high n : ℕ)
      → length keyed + 1 ≡ public_key_bytes
      → complete_key_byte fw high n (entered t keyed (r ∷ rest) (some high))
        ≡ finish_public_key_input fw (entered t (keyed ++ (high * 16 + n) ∷ []) rest none)
  unfolding complete_key_byte
  complete_last t keyed rest r high n h =
      ground (arith, ap (finish_public_key_input fw) (stored t keyed rest r high n))

  abbrev finished : Terminal W → List ℕ → Terminal W
  finished t key = record t { shell = finish_public_key_input fw (entered t key [] none) }

  -- From a point between two bytes, and from the middle of one.
  mutual
    type_text-bytes :
        (t : Terminal W) (text keyed rest : List ℕ) (x : ℕ) (xs : List ℕ)
        → length keyed + length (x ∷ xs) ≡ public_key_bytes
        → length keyed + length rest ≡ public_key_bytes
        → Spells text (nibbles (x ∷ xs))
        → type_text text (typing t keyed rest none) ≡ finished t (keyed ++ x ∷ xs)
    type_text-bytes t [] keyed rest x xs total room h = absurd h
    type_text-bytes t (ch ∷ text) keyed rest x xs total room (inl (blank, h)) =
        ap (type_text text) (receive_blank t keyed rest none ch blank)
        ∙ type_text-bytes t text keyed rest x xs total room h
    type_text-bytes t (ch ∷ text) keyed rest x xs total room (inr (digit, h)) =
        ap (type_text text) (receive_high t keyed rest ch (x / 16) digit)
        ∙ type_text-digit t text keyed rest x xs total room h

    type_text-digit :
        (t : Terminal W) (text keyed rest : List ℕ) (x : ℕ) (xs : List ℕ)
        → length keyed + length (x ∷ xs) ≡ public_key_bytes
        → length keyed + length rest ≡ public_key_bytes
        → Spells text (x % 16 ∷ nibbles xs)
        → type_text text (typing t keyed rest (some (x / 16))) ≡ finished t (keyed ++ x ∷ xs)
    type_text-digit t [] keyed rest x xs total room h = absurd h
    type_text-digit t (ch ∷ text) keyed [] x xs total room h = absurd (omega arith)
    type_text-digit t (ch ∷ text) keyed (r ∷ rest) x xs total room (inl (blank, h)) =
        ap (type_text text) (receive_blank t keyed (r ∷ rest) (some (x / 16)) ch blank)
        ∙ type_text-digit t text keyed (r ∷ rest) x xs total room h
    type_text-digit t (ch ∷ []) keyed (r ∷ []) x [] total room (inr (digit, h)) =
        let whole : x / 16 * 16 + x % 16 ≡ x = omega arith in
        receive_low t keyed (r ∷ []) (x / 16) ch (x % 16) digit
        ∙ ap (λ s. record t { shell = s })
            (complete_last t keyed [] r (x / 16) (x % 16) total
              ∙ ap (λ b. finish_public_key_input fw (entered t (keyed ++ b ∷ []) [] none)) whole)
    type_text-digit t (ch ∷ []) keyed (r ∷ (r' ∷ rest)) x [] total room (inr (digit, h)) =
        absurd (omega arith)
    type_text-digit t (ch ∷ (c ∷ text)) keyed (r ∷ rest) x [] total room (inr (digit, h)) = absurd h
    type_text-digit t (ch ∷ text) keyed (r ∷ rest) x (y ∷ ys) total room (inr (digit, h)) =
        let b = x / 16 * 16 + x % 16 in
        let whole : b ≡ x = omega arith in
        ap (type_text text) (
          receive_low t keyed (r ∷ rest) (x / 16) ch (x % 16) digit
          ∙ ap (λ s. record t { shell = s })
              (complete_more t keyed rest r (x / 16) (x % 16) (omega arith)))
        ∙ type_text-bytes t text (keyed ++ b ∷ []) rest y ys
            (omega (arith, length-append keyed (b ∷ [])))
            (omega (arith, length-append keyed (b ∷ []))) h
        ∙ ap (finished t)
            (append_assoc keyed (b ∷ []) (y ∷ ys) ∙ ap (λ z. keyed ++ z ∷ (y ∷ ys)) whole)

  -- The input with a whole key.
  abbrev pub keyed_input : List ℕ → ℕ → ℕ → KeyInput
  keyed_input key session_id crc = record {
    receiver_public_key = key;
    input_mode = kem_public_key_hex_mode;
    pending_session_id = session_id;
    pending_public_key_crc = crc;
    public_key_bytes = public_key_bytes;
    public_key_high_nibble = none;
  }

  finish-keyed :
      (s : Shell W) (key : List ℕ) (session_id : ℕ)
      → finish_public_key_input fw
          (record s { input = keyed_input key session_id (crc32_iso_hdlc key) })
        ≡ establish_from_input fw
            (record s { input = keyed_input key session_id (crc32_iso_hdlc key) })
  unfolding finish_public_key_input
  finish-keyed s key session_id = ground arith

  -- After a `kem-session` command, for any state of the program: when the host types the 1600
  -- digits of an 800-byte key with the announced CRC-32, in either case and with blanks anywhere
  -- in front of them, the program establishes a session from exactly this key, under the announced
  -- session number.
  pub type_text-await_public_key :
      (t : Terminal W) (s : Shell W) (session_id : ℕ) (key text : List ℕ)
      → length key ≡ public_key_bytes
      → Spells text (nibbles key)
      → (let ready = await_public_key fw session_id (crc32_iso_hdlc key) s in
          type_text text (record t { shell = ready }) ≡ record t {
            shell =
                establish_from_input fw
                  (record ready { input = keyed_input key session_id (crc32_iso_hdlc key) });
          })
  unfolding await_public_key reset_public_key_input prints
  type_text-await_public_key t s session_id [] text size h = absurd (omega arith)
  type_text-await_public_key t s session_id (x ∷ xs) text size h =
      let ready = await_public_key fw session_id (crc32_iso_hdlc (x ∷ xs)) s in
      let fresh = record t { shell = ready } in
      type_text-bytes fresh text [] (replicate public_key_bytes 0) x xs (omega arith)
        (omega (arith, length-replicate {A = ℕ} public_key_bytes 0)) h
      ∙ ap (λ u. record t { shell = u })
          ((λ i. finish_public_key_input fw (record ready {
            input =
                record (keyed_input (append-nil (x ∷ xs) i) session_id (crc32_iso_hdlc (x ∷ xs))) {
                  public_key_bytes = size i;
                };
          }))
            ∙ finish-keyed ready (x ∷ xs) session_id)
