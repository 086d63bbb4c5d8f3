-- ===== src/EntropyRng.antt =====
-- src/fpst_entropy_rng.c and src/fpst_csprng.c: random bytes from a noise source, which is a
-- parameter (the field `source`), over the world that it reads. A write through `out` is the list of
-- the bytes written.
pub mod Health
pub mod Output
use fpga_pqc_secure_telemetr.Base.{
  ℕ, zero, suc, ◌+◌, ◌-◌, ◌*◌, ◌/◌, ◌%◌, ◌^◌, Bool, true, false, ◌&&◌, ◌||◌, Option, none, some,
  List, [], ◌∷◌, ◌++◌, length, take, drop, replicate, get_or, write_at, bit_or, ltb, leb, ◌==◌,
  ◌/=◌, if◌then◌else◌, not,
}
use fpga_pqc_secure_telemetr.Result.{
  Result, Status, Exec, ok, err, argument, state, ◌>>=◌, continue,
}
use fpga_pqc_secure_telemetr.Codec.{store_be64}
use fpga_pqc_secure_telemetr.Sha3.{shake256}

abbrev pub seed_bytes : ℕ
seed_bytes = 32

abbrev pub rct_cutoff : ℕ
rct_cutoff = 64

abbrev pub apt_window_bits : ℕ
apt_window_bits = 512

abbrev pub apt_min_ones : ℕ
apt_min_ones = 64

abbrev pub apt_max_ones : ℕ
apt_max_ones = 448

abbrev pub max_raw_bits : ℕ
max_raw_bits = 131072

abbrev pub reseed_interval_bytes : ℕ
reseed_interval_bytes = 512

-- "FPST-SN32-ENTROPY-V1", "FPST-SN32-DRBG-V1" and "FPST-SN32-RESEED-V1", without the NUL
abbrev pub seed_domain : List ℕ
seed_domain =
    70 ∷ 80 ∷ 83 ∷ 84 ∷ 45 ∷ 83 ∷ 78 ∷ 51 ∷ 50 ∷ 45 ∷ 69 ∷ 78 ∷ 84 ∷ 82 ∷ 79 ∷ 80 ∷ 89 ∷ 45 ∷ 86
    ∷ 49 ∷ []

abbrev pub generate_domain : List ℕ
generate_domain =
    70 ∷ 80 ∷ 83 ∷ 84 ∷ 45 ∷ 83 ∷ 78 ∷ 51 ∷ 50 ∷ 45 ∷ 68 ∷ 82 ∷ 66 ∷ 71 ∷ 45 ∷ 86 ∷ 49 ∷ []

abbrev pub reseed_domain : List ℕ
reseed_domain =
    70 ∷ 80 ∷ 83 ∷ 84 ∷ 45 ∷ 83 ∷ 78 ∷ 51 ∷ 50 ∷ 45 ∷ 82 ∷ 69 ∷ 83 ∷ 69 ∷ 69 ∷ 68 ∷ 45 ∷ 86 ∷ 49
    ∷ []

-- What the health tests keep, of fpst_entropy_rng_t.
pub record HealthState : Type 0 where
  pub apt_count : ℕ
  pub apt_ones : ℕ
  pub repeat_count : ℕ
  pub last_raw_bit : ℕ
  pub have_last_raw_bit : Bool

-- fpst_entropy_rng_t
pub record EntropyRng (W : Type 0) : Type 0 where
  pub source : W → Result ℕ × W
  pub state : List ℕ
  pub generate_counter : ℕ
  pub bytes_since_reseed : ℕ
  pub health : HealthState
  pub ready : Bool
  pub failed : Bool

pub record Noise (W : Type 0) : Type 0 where
  pub rng : EntropyRng W
  pub world : W

-- reset_health_state
abbrev pub reset_health : HealthState
reset_health = record {
  apt_count = 0;
  apt_ones = 0;
  repeat_count = 0;
  last_raw_bit = 0;
  have_last_raw_bit = false;
}

-- The repetition count: the new state, or none where the function returns early, which leaves the
-- state `stuck`.
unfoldable pub count_repeat : ℕ → HealthState → Bool × HealthState
count_repeat bit h =
    let again : ℕ = if ltb h.repeat_count 65535 then h.repeat_count + 1 else h.repeat_count in
    if not h.have_last_raw_bit
    then (true, record h { last_raw_bit = bit; repeat_count = 1; have_last_raw_bit = true })
    else if bit == h.last_raw_bit
    then (not (ltb rct_cutoff again), record h { repeat_count = again })
    else (true, record h { last_raw_bit = bit; repeat_count = 1 })

-- The adaptive proportion: a full window is judged and starts again.
unfoldable pub count_proportion : ℕ → Exec HealthState (Unit {0})
count_proportion bit h =
    let h' = record h {
      apt_count = (h.apt_count + 1) % 2 ^ 16;
      apt_ones = (h.apt_ones + bit) % 2 ^ 16;
    } in
    if h'.apt_count == apt_window_bits
    then (if ltb h'.apt_ones apt_min_ones || ltb apt_max_ones h'.apt_ones
        then (err state, h')
        else (ok tt, record h' { apt_count = 0; apt_ones = 0 }))
    else (ok tt, h')

unfoldable pub observe_raw_bit : ℕ → Exec HealthState (Unit {0})
observe_raw_bit raw h =
    let bit = raw % 2 in
    let (accepted, h') = count_repeat bit h in
    if accepted then count_proportion bit h' else (err state, h')

-- The seed with one more bit, at position `output_bits`.
abbrev pub add_bit : ℕ → ℕ → List ℕ → List ℕ
add_bit unbiased output_bits seed =
    let byte_index = output_bits / 8 in
    write_at byte_index
      (bit_or (get_or seed byte_index 0) (unbiased * 2 ^ (7 - output_bits % 8)) ∷ []) seed

abbrev pub condition_seed : List ℕ → List ℕ → List ℕ → List ℕ
condition_seed domain seed prior_state =
    shake256 (take 24 domain ++ (seed ++ prior_state)) seed_bytes

module _ {W : Type 0} where
  unfoldable pub read_raw_bit : Exec (Noise W) ℕ
  read_raw_bit s =
      let (rc, w) = s.rng.source s.world in
      elim rc [
        | err e ↦ (err e, record s { world = w })
        | ok sample ↦
            let (code, h) = observe_raw_bit (sample % 2) s.rng.health in
            (
              elim code [ ok _ ↦ ok (sample % 2) | err e ↦ err e ],
              record { rng = record s.rng { health = h }; world = w },
            )
      ]

  -- The two reads of a round.
  unfoldable pub read_pair : Exec (Noise W) (ℕ × ℕ)
  read_pair = do first ← read_raw_bit; second ← read_raw_bit; λ s. (ok (first, second), s)

  -- `while (output_bits < target_bits)`, with fuel for the rounds.
  unfoldable pub collect_loop : ℕ → ℕ → ℕ → List ℕ → Exec (Noise W) (List ℕ)
  collect_loop zero raw_bits output_bits seed s = (err state, s)
  collect_loop (suc fuel) raw_bits output_bits seed s =
      let (rc, s') = read_pair s in
      elim (ltb output_bits (seed_bytes * 8)) [
        | false ↦ (ok seed, s)
        | true ↦ elim (ltb max_raw_bits (raw_bits + 2)) [
          | true ↦ (err state, s)
          | false ↦ elim rc [
            | err e ↦ (err e, s')
            | ok bits ↦ elim (bits.0 == bits.1) [
              | true ↦ collect_loop fuel (raw_bits + 2) output_bits seed s'
              | false ↦
                  collect_loop fuel (raw_bits + 2) (output_bits + 1)
                    (add_bit (if bits.0 == 1 then 1 else 0) output_bits seed) s'
            ]
          ]
        ]
      ]

  unfoldable pub collect_seed : Exec (Noise W) (List ℕ)
  collect_seed s =
      collect_loop (max_raw_bits / 2 + 1) 0 0 (replicate seed_bytes 0)
        (record s { rng = record s.rng { health = reset_health } })

  unfoldable pub reseed : Exec (Noise W) (Unit {0})
  reseed s =
      let (rc, t) = collect_seed s in
      elim rc [
        | err e ↦ (err e, record t { rng = record t.rng { failed = true; ready = false } })
        | ok seed ↦ (
          ok tt,
          record t {
            rng = record t.rng {
              state = condition_seed reseed_domain seed t.rng.state;
              bytes_since_reseed = 0;
              generate_counter = 1;
            };
          },
        )
      ]

  -- fpst_entropy_rng_init; a source without a sample function is `none`.
  unfoldable pub init : Option (W → Result ℕ × W) → Exec (Noise W) (Unit {0})
  init none s = (err argument, s)
  init (some source) s =
      let (rc, t) = collect_seed (record s {
        rng = record {
          source = source;
          state = replicate seed_bytes 0;
          generate_counter = 0;
          bytes_since_reseed = 0;
          health = reset_health;
          ready = false;
          failed = false;
        };
      }) in
      elim rc [
        | err e ↦ (err e, record t { rng = record t.rng { failed = true } })
        | ok seed ↦ (
          ok tt,
          record t {
            rng = record t.rng {
              state = condition_seed seed_domain seed [];
              generate_counter = 1;
              bytes_since_reseed = 0;
              ready = true;
              failed = false;
            };
          },
        )
      ]

  -- `while (len != 0u)`, with fuel for the blocks.
  unfoldable pub generate_loop : ℕ → ℕ → EntropyRng W → List ℕ × EntropyRng W
  generate_loop zero len rng = ([], rng)
  generate_loop (suc fuel) len rng =
      let block = shake256 (generate_domain ++ (rng.state ++ store_be64 rng.generate_counter)) 64 in
      let taken : ℕ = if ltb len seed_bytes then len else seed_bytes in
      let (rest, rng') = generate_loop fuel (len - taken) (record rng {
        state = take seed_bytes (drop seed_bytes block);
        generate_counter = (rng.generate_counter + 1) % 2 ^ 64;
        bytes_since_reseed = (rng.bytes_since_reseed + taken) % 2 ^ 32;
      }) in
      if len == 0 then ([], rng) else (take taken block ++ rest, rng')

  -- `fpst_entropy_rng_fill` behind the reseed.
  unfoldable pub generate : ℕ → Exec (Noise W) (List ℕ)
  generate len s = let (out, rng) = generate_loop len len s.rng in (ok out, record s { rng = rng })

  unfoldable pub fill : ℕ → Exec (Noise W) (List ℕ)
  fill len s =
      let (rc, t) = reseed s in
      if len == 0
      then (ok [], s)
      else if not s.rng.ready || s.rng.failed
      then (err state, s)
      else if ltb s.rng.bytes_since_reseed reseed_interval_bytes
      then generate len s
      else elim rc [ ok _ ↦ generate len t | err e ↦ (err e, t) ]

  unfoldable pub ready : EntropyRng W → Bool
  ready rng = rng.ready && not rng.failed

  unfoldable pub zeroize : EntropyRng W → EntropyRng W
  zeroize rng = record rng {
    state = replicate seed_bytes 0;
    generate_counter = 0;
    bytes_since_reseed = 0;
    health = reset_health;
    ready = false;
    failed = true;
  }
