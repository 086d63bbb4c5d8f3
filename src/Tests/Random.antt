-- ===== src/Tests/Random.antt =====
-- The random bytes from a stuck source, and the health tests on chosen bits.
use fpga_pqc_secure_telemetr.Base.{
  ℕ, zero, suc, ◌+◌, ◌≤◌, ◌≡◌, refl, true, false, List, [], ◌∷◌, replicate, arith,
}
use fpga_pqc_secure_telemetr.Result.{ok, err, state}
use fpga_pqc_secure_telemetr.EntropyRng.{
  EntropyRng, Noise, reset_health, count_repeat, count_proportion, observe_raw_bit, read_raw_bit,
  read_pair, collect_loop, collect_seed, reseed, fill,
}
use fpga_pqc_secure_telemetr.EntropyRng.Health.{observe_all, stuck_source}
use fpga_pqc_secure_telemetr.EntropyRng.Output.{Filled, collect_loop-enough, fill-Filled, fill-fill}

-- A source that counts its samples, which are always even.
abbrev stuck : EntropyRng ℕ
stuck = record {
  source = λ reads. (ok 6, reads + 1);
  state = replicate 32 1;
  generate_counter = 20;
  bytes_since_reseed = 512;
  health = reset_health;
  ready = true;
  failed = false;
}

abbrev noise : Noise ℕ
noise = record { rng = stuck; world = 0 }

-- The repetition count refuses the 65th sample.
fill_stuck : ((fill 4 noise).0 ≡ err state) × ((fill 4 noise).1.world ≡ 65)
unfolding fill reseed collect_seed collect_loop read_pair read_raw_bit observe_raw_bit count_repeat
    count_proportion
fill_stuck = (refl, refl)

abbrev alternating : ℕ → List ℕ
alternating zero = []
alternating (suc n) = 0 ∷ 1 ∷ alternating n

accepted_window : (observe_all (alternating 256) reset_health).0 ≡ ok tt
unfolding observe_all observe_raw_bit count_repeat count_proportion
accepted_window = refl

accepted_run : (observe_all (replicate 5 1) reset_health).0 ≡ ok tt
unfolding observe_all observe_raw_bit count_repeat count_proportion
accepted_run = refl

stuck_source_example : 5 ≤ 64
stuck_source_example = stuck_source 5 1 reset_health (omega arith) accepted_run

collect_loop-enough_example :
    collect_loop (65537 + 3) 0 0 (replicate 32 0) noise
    ≡ collect_loop 65537 0 0 (replicate 32 0) noise
collect_loop-enough_example =
    collect_loop-enough 65537 3 0 0 (replicate 32 0) noise (omega arith) (omega arith)

fill-Filled_example : Filled 4 (fill 4 noise)
fill-Filled_example = fill-Filled 4 noise

fill-fill_example : fill 8 (fill 4 noise).1 ≡ (err state, (fill 4 noise).1)
fill-fill_example = fill-fill 4 8 noise (omega arith) fill_stuck.0
