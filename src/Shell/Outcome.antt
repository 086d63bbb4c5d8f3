-- ===== src/Shell/Outcome.antt =====
-- What a byte of the key input may do.
use fpga_pqc_secure_telemetr.Base.{
  ℕ, ◌+◌, ◌≡◌, refl, ap, ◌&&◌, ◌||◌, List, [], ◌∷◌, ◌==◌, ◌/=◌, ◌⊎◌, inl, inr, arith, leb, if-cases,
  option-cases, ==→eq,
}
use fpga_pqc_secure_telemetr.Result.{Status, Error, ok, err}
use fpga_pqc_secure_telemetr.Crc.{crc32_iso_hdlc}
use fpga_pqc_secure_telemetr.Console.{hex_value}
use fpga_pqc_secure_telemetr.Mlkem.{Kem, public_key_bytes}
use fpga_pqc_secure_telemetr.Mlkem.Establish.{establish_pair_routed_to_sink}
use fpga_pqc_secure_telemetr.PairBridge.{is_remote}
use fpga_pqc_secure_telemetr.Shell.{
  Shell, Setup, prints, put_world, kem_with, reset_public_key_input, reset_input, say, print_error,
  abort_public_key_input, uart_ciphertext_sink, establish_from_input, announce_session,
  finish_public_key_input, store_key_byte, complete_key_byte, consume_public_key_hex_byte,
}
use Prim.Native.String.{String}

module _ {W : Type 0} (fw : Setup W) where
  -- Only the world and the key input may differ.
  abbrev pub Aside : Shell W → Shell W → Type 0
  Aside s t = t ≡ record (put_world t.kem.machine.world s) { input = t.input }

  -- A session from a key with the announced checksum.
  pub record Provisioned (s t : Shell W) : Type 0 where
    pub key : List ℕ
    pub start : W
    pub whole : s.input.public_key_bytes + 1 ≡ public_key_bytes
    pub checked : crc32_iso_hdlc key ≡ s.input.pending_public_key_crc
    pub established :
        t.kem
        ≡ kem_with t.kem.machine.world
            (establish_pair_routed_to_sink fw.native fw.platform_p1 fw.platform_p2 key
              s.input.pending_session_id s.csprng
              (uart_ciphertext_sink fw s.input.pending_session_id)
              (kem_with start s.kem)).1
    pub wiped : t.input ≡ reset_public_key_input

  abbrev pub Outcome : Shell W → Shell W → Type 0
  Outcome s t =
      Aside s t × ((t.input ≡ reset_public_key_input) ⊎ (t.input.input_mode ≡ s.input.input_mode))
      ⊎ Provisioned s t

  pub print_error-Aside :
      (e : Error) (s : Shell W)
      → Aside s (print_error fw e s) × ((print_error fw e s).input ≡ s.input)
  unfolding print_error prints
  print_error-Aside e s =
      if-cases (λ t. Aside s t × (t.input ≡ s.input)) (is_remote e && s.link_initialized)
        (λ _. (refl, refl)) (λ _. (refl, refl))

  abort-Outcome : (reason : String) (s : Shell W) → Outcome s (abort_public_key_input fw reason s)
  unfolding abort_public_key_input prints
  abort-Outcome reason s = inl (refl, inl refl)

  -- The input is wiped, and only the world may differ from `kem` otherwise.
  abbrev After : Kem W → Shell W → Type 0
  After kem t = (t.kem ≡ kem_with t.kem.machine.world kem) × (t.input ≡ reset_public_key_input)

  prints-After :
      (kem : Kem W) (fs : List (W → W)) (t : Shell W) → After kem t → After kem (prints fs t)
  unfolding prints
  prints-After kem fs t (h, i) = (ap (kem_with _) h, i)

  print_error-After :
      (kem : Kem W) (e : Error) (t : Shell W) → After kem t → After kem (print_error fw e t)
  unfolding print_error
  print_error-After kem e t h =
      if-cases (After kem) (is_remote e && t.link_initialized) (λ _. prints-After kem _ t h)
        (λ _. prints-After kem _ t h)

  announce-After :
      (kem : Kem W) (session_id : ℕ) (rc : Status) (t : Shell W)
      → After kem t
      → After kem (announce_session fw session_id rc t)
  unfolding announce_session
  announce-After kem session_id (ok _) t h = prints-After kem _ _ (prints-After kem _ t h)
  announce-After kem session_id (err e) t h =
      prints-After kem _ (print_error fw e _) (print_error-After kem e _ (prints-After kem _ t h))

  establish-Provisioned :
      (s : Shell W) (high low : ℕ)
      → s.input.public_key_bytes + 1 ≡ public_key_bytes
      → (let i = store_key_byte high low s.input in
          crc32_iso_hdlc i.receiver_public_key ≡ i.pending_public_key_crc
          → Provisioned s (establish_from_input fw (record s { input = i })))
  unfolding establish_from_input prints
  establish-Provisioned s high low size crc =
      let t = record s { input = store_key_byte high low s.input } in
      let session_id = s.input.pending_session_id in
      let begun =
        prints (say fw "\r\nKEM_PK_OK; establishing ML-KEM-512 P1-TX/P2-RX session...\r\n" ∷ [])
          t in
      let (rc, kem) =
        establish_pair_routed_to_sink fw.native fw.platform_p1 fw.platform_p2
          t.input.receiver_public_key session_id s.csprng (uart_ciphertext_sink fw session_id)
          begun.kem in
      let end =
        announce-After kem session_id rc (reset_input (record t { kem = kem })) (refl, refl) in
      record {
        key = t.input.receiver_public_key;
        start = begun.kem.machine.world;
        whole = size;
        checked = crc;
        established = end.0;
        wiped = end.1;
      }

  finish-Outcome :
      (s : Shell W) (high low : ℕ)
      → s.input.public_key_bytes + 1 ≡ public_key_bytes
      → Outcome s
          (finish_public_key_input fw (record s { input = store_key_byte high low s.input }))
  unfolding finish_public_key_input prints
  finish-Outcome s high low size =
      let i = store_key_byte high low s.input in
      if-cases (Outcome s) (crc32_iso_hdlc i.receiver_public_key /= i.pending_public_key_crc)
        (λ _. inl (refl, inl refl))
        (λ h. inr (establish-Provisioned s high low size (ground arith)))

  complete-Outcome : (high low : ℕ) (s : Shell W) → Outcome s (complete_key_byte fw high low s)
  unfolding complete_key_byte
  complete-Outcome high low s =
      if-cases (Outcome s) (leb public_key_bytes s.input.public_key_bytes)
        (λ _. abort-Outcome "public key overflow" s)
        (λ _.
          if-cases (Outcome s) (s.input.public_key_bytes + 1 == public_key_bytes)
            (λ h. finish-Outcome s high low (==→eq _ _ h)) (λ _. inl (refl, inr refl)))

  -- Any byte of the key input either leaves all globals but the key input as they were, and keeps
  -- the input mode or wipes the input; or it is the last of 800 bytes, the key has the announced
  -- CRC-32, the session code has run on this key with the announced session number, and the input
  -- is wiped.
  pub consume-Outcome : (ch : ℕ) (s : Shell W) → Outcome s (consume_public_key_hex_byte fw ch s)
  unfolding consume_public_key_hex_byte
  consume-Outcome ch s =
      if-cases (Outcome s) (ch == 0x03 || ch == 0x1B) (λ _. abort-Outcome "operator abort" s)
        (λ _.
          if-cases (Outcome s) (ch == b' ' || (ch == b'\t' || (ch == b'\r' || ch == b'\n')))
            (λ _. inl (refl, inr refl))
            (λ _.
              option-cases (Outcome s) (hex_value ch) _ _ (λ _. abort-Outcome "non-hex input" s)
                (λ nibble _.
                  option-cases (Outcome s) s.input.public_key_high_nibble _ _
                    (λ _. inl (refl, inr refl)) (λ high _. complete-Outcome high nibble s))))
