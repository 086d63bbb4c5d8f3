-- ===== src/Primer1/Pqc.antt =====
-- The polynomial commands of src/fpst_primer1.c. An array argument is the list of its elements, and
-- `count` is its length.
use fpga_pqc_secure_telemetr.Base.{
  ℕ, zero, suc, ◌+◌, ◌*◌, Bool, ◌||◌, List, [], ◌∷◌, ◌++◌, length, get_or, take, drop, write_at,
  ltb, leb, ◌==◌, ◌/=◌, if◌then◌else◌,
}
use fpga_pqc_secure_telemetr.Result.{
  Result, Exec, ok, err, argument, format, pure, fail, ◌>>=◌, ◌>>◌,
}
use fpga_pqc_secure_telemetr.Profile.{link_command_timeout_ms, link_ntt_timeout_ms}
use fpga_pqc_secure_telemetr.Codec.{load_be16, store_be16}
use fpga_pqc_secure_telemetr.Link.{Port}
use fpga_pqc_secure_telemetr.Link.Opcode.{
  op_pqc_write_coeff, op_pqc_read_coeff, op_pqc_load_poly, op_pqc_read_poly, op_pqc_start_ntt,
  op_pqc_start_intt, op_pqc_pointwise_mul, op_pqc_poly_add_sub, op_pqc_get_result,
}
use fpga_pqc_secure_telemetr.Command.{command}
use fpga_pqc_secure_telemetr.Primer1.{command_no_data, command_into_request}

abbrev pub pqc_coefficients : ℕ
pqc_coefficients = 256

abbrev pub pqc_modulus : ℕ
pqc_modulus = 3329

-- fpst_primer1_pqc_status_t
pub record PqcStatus : Type 0 where
  pub busy : Bool
  pub done_latched : Bool
  pub domain : ℕ
  pub active_bank : ℕ
  pub stage : ℕ
  pub inverse_active : Bool
  pub polynomial_complete : Bool
  pub last_operation : ℕ

-- `count` coefficients from the front of a buffer.
unfoldable pub unpack_coefficients : ℕ → List ℕ → Result (List ℕ)
unpack_coefficients zero buf = ok []
unpack_coefficients (suc count) buf =
    let value = load_be16 buf in
    let rest : Result (List ℕ) = elim (unpack_coefficients count (drop 2 buf)) [
      | ok values ↦ ok (value ∷ values)
      | err e ↦ err e
    ] in
    if leb pqc_modulus value then err format else rest

abbrev pub pqc_status_of : List ℕ → PqcStatus
pqc_status_of response = record {
  busy = get_or response 0 0 /= 0;
  done_latched = get_or response 1 0 /= 0;
  domain = get_or response 2 0;
  active_bank = get_or response 3 0;
  stage = get_or response 4 0;
  inverse_active = get_or response 5 0 /= 0;
  polynomial_complete = get_or response 6 0 /= 0;
  last_operation = get_or response 7 0;
}

module _ {W : Type 0} where
  unfoldable pub pqc_write_coeff : ℕ → ℕ → Exec (Port W) (Unit {0})
  pqc_write_coeff index coefficient =
      if leb pqc_coefficients index || leb pqc_modulus coefficient
      then fail argument
      else command_no_data op_pqc_write_coeff (store_be16 index ++ store_be16 coefficient)
          link_command_timeout_ms

  unfoldable pub pqc_read_coeff : ℕ → Exec (Port W) ℕ
  pqc_read_coeff index = if leb pqc_coefficients index then fail argument else do
    response ← command op_pqc_read_coeff (store_be16 index) 2 link_command_timeout_ms
    if length response /= 2
        then fail format
        else if ltb (load_be16 response) pqc_modulus
        then pure (load_be16 response)
        else fail format

  -- The loop that writes coefficients to the response buffer from `offset` on; one that is out of
  -- range ends it, with those before it written.
  unfoldable pub pack_coefficients : ℕ → List ℕ → Exec (Port W) (Unit {0})
  pack_coefficients offset [] s = (ok tt, s)
  pack_coefficients offset (c ∷ rest) s =
      let packed = pack_coefficients (offset + 2) rest (record s {
        link = record s.link { response_buf = write_at offset (store_be16 c) s.link.response_buf };
      }) in
      if leb pqc_modulus c then (err argument, s) else packed

  -- A write to the front of the response buffer, which serves as scratch.
  unfoldable pub scratch : List ℕ → Exec (Port W) (Unit {0})
  scratch src s = (
    ok tt,
    record s { link = record s.link { response_buf = write_at 0 src s.link.response_buf } },
  )

  -- `command_no_data` with the first `len` bytes of the response buffer as its payload.
  unfoldable pub command_from_scratch : ℕ → ℕ → Exec (Port W) (Unit {0})
  command_from_scratch opcode len s =
      command_no_data opcode (take len s.link.response_buf) link_ntt_timeout_ms s

  unfoldable pub pqc_load_poly : List ℕ → Exec (Port W) (Unit {0})
  pqc_load_poly coefficients =
      if length coefficients == 0 || ltb pqc_coefficients (length coefficients)
      then fail argument
      else do
        scratch (store_be16 (length coefficients))
        pack_coefficients 2 coefficients
        command_from_scratch op_pqc_load_poly (2 + 2 * length coefficients)

  unfoldable pub pqc_read_poly : ℕ → Exec (Port W) (List ℕ)
  pqc_read_poly count = if count == 0 || ltb pqc_coefficients count then fail argument else do
    response ← command_into_request op_pqc_read_poly (store_be16 count) link_ntt_timeout_ms
    if length response /= 2 * count then fail format else λ s.
        (unpack_coefficients count s.link.request_buf, s)

  unfoldable pub start_transform : ℕ → Exec (Port W) (Unit {0})
  start_transform opcode = command_no_data opcode (0 ∷ 0 ∷ 0 ∷ 0 ∷ []) link_command_timeout_ms

  unfoldable pub pqc_start_ntt : Exec (Port W) (Unit {0})
  pqc_start_ntt = start_transform op_pqc_start_ntt

  unfoldable pub pqc_start_intt : Exec (Port W) (Unit {0})
  pqc_start_intt = start_transform op_pqc_start_intt

  unfoldable pub pqc_pointwise_mul : List ℕ → Exec (Port W) (Unit {0})
  pqc_pointwise_mul rhs_ntt = do
    pack_coefficients 0 rhs_ntt
    command_from_scratch op_pqc_pointwise_mul (2 * pqc_coefficients)

  unfoldable pub pqc_poly_add_sub : Bool → List ℕ → Exec (Port W) (Unit {0})
  pqc_poly_add_sub subtract rhs = do
    scratch ((if subtract then 1 else 0) ∷ [])
    pack_coefficients 1 rhs
    command_from_scratch op_pqc_poly_add_sub (1 + 2 * pqc_coefficients)

  unfoldable pub pqc_get_result : Exec (Port W) PqcStatus
  pqc_get_result = do
    response ← command op_pqc_get_result [] 8 link_command_timeout_ms
    if length response /= 8
        then fail format
        else if ltb 2 (get_or response 2 0)
            || (ltb 1 (get_or response 3 0) || ltb 5 (get_or response 7 0))
        then fail format
        else pure (pqc_status_of response)
