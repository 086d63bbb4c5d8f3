-- ===== src/Telemetry/Records.antt =====
-- What a telemetry record holds, and when one is built.
use fpga_pqc_secure_telemetr.Base.{
  ℕ, ◌+◌, ◌^◌, ◌≤◌, ◌<◌, ◌≡◌, refl, ◌⊎◌, inl, inr, List, ◌++◌, length, drop, arith,
}
use native.Mathlib.Decide.{dec_lt, ℕ_discrete}
use fpga_pqc_secure_telemetr.Result.{ok, err, argument, state}
use fpga_pqc_secure_telemetr.Codec.{load_be32, load_be64, store_be32, store_be64}
use fpga_pqc_secure_telemetr.Telemetry.{
  TelemetrySource, build_record, build_adc_demo, demo_temperature, demo_humidity,
  humidity_max_mpermille, demo_adc_max, uint32_max,
}

-- The bytes of a record, read back field by field.
pub record Holds (out : List ℕ) (timestamp sensor temperature humidity counter : ℕ) : Type 0 where
  pub size : length out ≡ 24
  pub timestamp_at : load_be64 out ≡ timestamp
  pub sensor_at : load_be32 (drop 8 out) ≡ sensor
  pub temperature_at : load_be32 (drop 12 out) ≡ temperature
  pub humidity_at : load_be32 (drop 16 out) ≡ humidity
  pub counter_at : load_be32 (drop 20 out) ≡ counter

record_Holds :
    (t s c h n : ℕ)
    → t < 2 ^ 64
    → s < 2 ^ 32
    → c < 2 ^ 32
    → h < 2 ^ 32
    → n < 2 ^ 32
    → Holds
        (store_be64 t ++ (store_be32 s ++ (store_be32 c ++ (store_be32 h ++ store_be32 n))))
        t
        s
        c
        h
        n
unfolding store_be64 store_be32 load_be64 load_be32
record_Holds t s c h n ht hs hc hh hn = record {
  size = refl;
  timestamp_at = omega arith;
  sensor_at = omega arith;
  temperature_at = omega arith;
  humidity_at = omega arith;
  counter_at = omega arith;
}

-- `build_record` on words of their widths: with an allowed humidity and the counter below its
-- maximum it gives the 24 bytes that hold the five values, and advances the counter by one; with a
-- humidity that is too large it returns ARGUMENT, at the counter's maximum STATE, and changes
-- nothing.
pub build_record_lem :
    (t c h : ℕ) (source : TelemetrySource)
    → t < 2 ^ 64
    → c < 2 ^ 32
    → source.sensor_id < 2 ^ 32
    → source.sample_counter < 2 ^ 32
    → ((h ≤ humidity_max_mpermille)
        × (source.sample_counter < uint32_max)
        × ((out : List ℕ) × (build_record t c h source
              ≡ (ok out, record source { sample_counter = source.sample_counter + 1 }))
            × Holds out t source.sensor_id c h source.sample_counter))
      ⊎ ((humidity_max_mpermille < h) × (build_record t c h source ≡ (err argument, source)))
      ⊎ ((h ≤ humidity_max_mpermille)
          × (source.sample_counter ≡ uint32_max)
          × (build_record t c h source ≡ (err state, source)))
unfolding build_record
build_record_lem t c h source ht hc hs hn = elim (dec_lt humidity_max_mpermille h) [
  | yes p ↦ inr (inl (p, ground arith))
  | no p ↦ elim (ℕ_discrete source.sample_counter uint32_max) [
    | yes q ↦ inr (inr (omega arith, q, ground arith))
    | no q ↦ inl (
      omega arith,
      omega arith,
      (
        _,
        ground arith,
        record_Holds t source.sensor_id c h source.sample_counter ht hs hc (omega arith) hn,
      ),
    )
  ]
]

-- The demonstration values stay in their stated ranges, and grow and fall with the knob.
demo_temperature_bounds :
    (adc : ℕ) → adc ≤ demo_adc_max → (15000 ≤ demo_temperature adc) × (demo_temperature adc ≤ 35000)
unfolding demo_temperature
demo_temperature_bounds adc h = omega arith

demo_humidity_bounds :
    (adc : ℕ) → adc ≤ demo_adc_max → (30000 ≤ demo_humidity adc) × (demo_humidity adc ≤ 70000)
unfolding demo_humidity
demo_humidity_bounds adc h = omega arith

-- `build_adc_demo` with an ADC value in range and the counter below its maximum gives a record
-- with the demo's temperature, between 15000 and 35000, and humidity, between 30000 and 70000, and
-- advances the counter by one.
pub build_adc_demo_lem :
    (t adc : ℕ) (source : TelemetrySource)
    → t < 2 ^ 64
    → source.sensor_id < 2 ^ 32
    → source.sample_counter < uint32_max
    → adc ≤ demo_adc_max
    → (out : List ℕ) × (build_adc_demo t adc source
        ≡ (ok out, record source { sample_counter = source.sample_counter + 1 }))
      × Holds out t source.sensor_id
          (demo_temperature adc)
          (demo_humidity adc)
          source.sample_counter
      × (15000 ≤ demo_temperature adc)
      × (demo_temperature adc ≤ 35000)
      × (30000 ≤ demo_humidity adc)
      × (demo_humidity adc ≤ 70000)
unfolding build_adc_demo build_record
build_adc_demo_lem t adc source ht hs hn ha =
    let (tl, tu) = demo_temperature_bounds adc ha in
    let (hl, hu) = demo_humidity_bounds adc ha in
    (
      _,
      ground arith,
      record_Holds t source.sensor_id (demo_temperature adc) (demo_humidity adc)
          source.sample_counter ht hs (omega arith) (omega arith) (omega arith),
      tl,
      tu,
      hl,
      hu,
    )
