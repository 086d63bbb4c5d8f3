-- ===== src/EntropyRng/Output.antt =====
-- src/fpst_entropy_rng.c: the seed loop ends, and what `fill` gives.
use fpga_pqc_secure_telemetr.Base.{
  ℕ, zero, suc, ◌+◌, ◌-◌, ◌*◌, ◌%◌, ◌^◌, ◌≤◌, ◌<◌, ◌≡◌, ◌≢◌, refl, sym, true, false, List, [], ◌++◌,
  length, take, drop, arith, ltb, ltb→le, ==→eq, ◌==◌, ◌||◌, not, if◌then◌else◌, if-cases,
  Bool-cases, ◌⊎◌, inl, inr, length-append, length-take,
}
use fpga_pqc_secure_telemetr.Result.{Result, Error, ok, err, state, branch-cases, Result-cases}
use fpga_pqc_secure_telemetr.Codec.{store_be64}
use fpga_pqc_secure_telemetr.Sha3.{shake256}
use fpga_pqc_secure_telemetr.Sha3.Output.{length-shake256}
use fpga_pqc_secure_telemetr.EntropyRng.{
  EntropyRng, Noise, max_raw_bits, seed_bytes, generate_domain, collect_loop, collect_seed,
  read_pair, reseed, reseed_interval_bytes, generate_loop, add_bit, generate, fill, ready,
}

module _ {W : Type 0} where
  -- The rounds granted to the seed loop are enough when twice their number takes the raw bits, at
  -- most 131072 so far, beyond that limit: more rounds do not change the outcome.
  pub collect_loop-enough :
      (fuel extra raw_bits output_bits : ℕ) (seed : List ℕ) (s : Noise W)
      → raw_bits ≤ max_raw_bits
      → max_raw_bits < raw_bits + 2 * fuel
      → collect_loop (fuel + extra) raw_bits output_bits seed s
        ≡ collect_loop fuel raw_bits output_bits seed s
  unfolding collect_loop
  collect_loop-enough zero extra raw_bits output_bits seed s within enough =
      ground (arith, within, enough)
  collect_loop-enough (suc fuel) extra raw_bits output_bits seed s within enough =
      let e : suc fuel + extra ≡ suc (fuel + extra) = omega arith in
      rw e (elim (Bool-cases (ltb output_bits (seed_bytes * 8))) [
        | inr done ↦ ground (arith, done)
        | inl more ↦ elim (Bool-cases (ltb max_raw_bits (raw_bits + 2))) [
          | inl over ↦ ground (arith, more, over)
          | inr room ↦
              let left : raw_bits + 2 ≤ max_raw_bits = ltb→le max_raw_bits (raw_bits + 2) room in
              let s' = (read_pair s).1 in
              elim (Result-cases (read_pair s).0) [
                | inl (bits, h) ↦
                    let seed' = add_bit (if bits.0 == 1 then 1 else 0) output_bits seed in
                    let same =
                      collect_loop-enough fuel extra (raw_bits + 2) output_bits seed s' left
                        (omega (arith, enough)) in
                    let more_bits =
                      collect_loop-enough fuel extra (raw_bits + 2) (output_bits + 1) seed' s' left
                        (omega (arith, enough)) in
                    ground (arith, more, room, h, same, more_bits)
                | inr (e', h) ↦ ground (arith, more, room, h)
              ]
        ]
      ])

  length-generate :
      (fuel len : ℕ) (rng : EntropyRng W) → len ≤ fuel → length (generate_loop fuel len rng).0 ≡ len
  unfolding generate_loop
  length-generate zero len rng enough = omega (arith, enough)
  length-generate (suc fuel) len rng enough =
      let block = shake256 (generate_domain ++ (rng.state ++ store_be64 rng.generate_counter)) 64 in
      let whole : length block ≡ 64 = length-shake256 _ 64 in
      let taken : ℕ = if ltb len seed_bytes then len else seed_bytes in
      let next : EntropyRng W = record rng {
        state = take seed_bytes (drop seed_bytes block);
        generate_counter = (rng.generate_counter + 1) % 2 ^ 64;
        bytes_since_reseed = (rng.bytes_since_reseed + taken) % 2 ^ 32;
      } in
      if-cases (λ (x : List ℕ × EntropyRng W). length x.0 ≡ len) (len == 0)
        (λ h. sym (==→eq len 0 h))
        (λ h.
          let small : taken ≤ 32 = ground arith in
          let some_taken : 0 < taken = ground arith in
          let part : taken ≤ len = ground arith in
          let rest =
            length-generate fuel (len - taken) next (omega (arith, enough, some_taken, part)) in
          let front : length (take taken block) ≡ taken =
            omega (arith, length-take taken block, whole, small) in
          omega (
            arith,
            length-append (take taken block) (generate_loop fuel (len - taken) next).0,
            rest,
            front,
            part,
          ))

  -- How `fill` may end.
  abbrev pub Filled : ℕ → Result (List ℕ) × Noise W → Type 0
  Filled len (rc, t) =
      ((out : List ℕ) × (rc ≡ ok out) × (length out ≡ len))
      ⊎ ((e : Error) × (rc ≡ err e)) × (ready t.rng ≡ false)

  generate-Filled : (len : ℕ) (s : Noise W) → Filled len (generate len s)
  unfolding generate
  generate-Filled len s = inl (_, refl, length-generate len len s.rng (omega arith))

  abbrev FailedStops : Result (Unit {0}) × Noise W → Type 0
  FailedStops (rc, t) = (e : Error) → rc ≡ err e → ready t.rng ≡ false

  reseed-FailedStops : (s : Noise W) → FailedStops (reseed s)
  unfolding reseed ready
  reseed-FailedStops s =
      branch-cases FailedStops (collect_seed s).0 _ _ (λ _ _ e h. cc h) (λ _ _ e h. refl)

  refused-ready : (rng : EntropyRng W) → not rng.ready || rng.failed ≡ true → ready rng ≡ false
  unfolding ready
  refused-ready rng h = ground arith

  stopped-ready : (rng : EntropyRng W) → ready rng ≡ false → not rng.ready || rng.failed ≡ true
  unfolding ready
  stopped-ready rng h = ground arith

  -- `fill` returns OK with exactly as many bytes as were asked for, or an error, and after an
  -- error the generator is not ready.
  pub fill-Filled : (len : ℕ) (s : Noise W) → Filled len (fill len s)
  unfolding fill
  fill-Filled len s =
      if-cases (Filled len) (len == 0) (λ h. inl ([], refl, sym (==→eq len 0 h)))
        (λ _.
          if-cases (Filled len) (not s.rng.ready || s.rng.failed)
            (λ h. inr ((state, refl), refused-ready s.rng h))
            (λ _.
              if-cases (Filled len) (ltb s.rng.bytes_since_reseed reseed_interval_bytes)
                (λ _. generate-Filled len s)
                (λ _.
                  branch-cases (Filled len) (reseed s).0 _ _
                    (λ _ _. generate-Filled len (reseed s).1)
                    (λ e h. inr ((e, refl), reseed-FailedStops s e h)))))

  latched : (n : ℕ) (s : Noise W) → n ≢ 0 → ready s.rng ≡ false → fill n s ≡ (err state, s)
  unfolding fill
  latched n s nonzero h =
      let guard = stopped-ready s.rng h in
      if-cases (λ (x : Result (List ℕ) × Noise W). x ≡ (err state, s)) (n == 0)
        (λ none_asked. elim (nonzero (==→eq n 0 none_asked)) [ ]) (λ _. rw guard refl)

  -- After a `fill` that returns an error, every further `fill` of a length other than 0 returns
  -- STATE and changes nothing.
  pub fill-fill :
      (len n : ℕ) (s : Noise W) {e : Error}
      → n ≢ 0
      → (fill len s).0 ≡ err e
      → fill n (fill len s).1 ≡ (err state, (fill len s).1)
  fill-fill len n s nonzero failed = elim (fill-Filled len s) [
    | inl (_, done, _) ↦ cc (failed, done)
    | inr (_, stopped) ↦ latched n (fill len s).1 nonzero stopped
  ]
