-- ===== src/Telemetry.antt =====
-- src/fpst_telemetry.c: 24-byte telemetry records. An `int32_t` is its bit pattern, which is what
-- the record holds. The source pointer and the output buffer are never NULL here.
pub mod Records
use fpga_pqc_secure_telemetr.Base.{
  ℕ, ◌+◌, ◌-◌, ◌*◌, ◌/◌, ◌%◌, ◌^◌, List, ◌++◌, ltb, ◌==◌, if◌then◌else◌,
}
use fpga_pqc_secure_telemetr.Result.{Exec, ok, err, argument, state}
use fpga_pqc_secure_telemetr.Codec.{store_be32, store_be64}

-- fpst_telemetry_source_t
pub record TelemetrySource : Type 0 where
  pub sensor_id : ℕ
  pub sample_counter : ℕ

abbrev pub humidity_max_mpermille : ℕ
humidity_max_mpermille = 100000

abbrev pub demo_adc_max : ℕ
demo_adc_max = 4095

abbrev pub uint32_max : ℕ
uint32_max = 4294967295

unfoldable pub source_init : ℕ → TelemetrySource
source_init sensor_id = record { sensor_id = sensor_id; sample_counter = 0 }

unfoldable pub build_record : ℕ → ℕ → ℕ → Exec TelemetrySource (List ℕ)
build_record timestamp_ms temperature_mdeg_c humidity_mpermille source =
    if ltb humidity_max_mpermille humidity_mpermille
    then (err argument, source)
    else if source.sample_counter == uint32_max
    then (err state, source)
    else (
      ok (
          store_be64 timestamp_ms
          ++ (store_be32 source.sensor_id
              ++ (store_be32 temperature_mdeg_c
                  ++ (store_be32 humidity_mpermille ++ store_be32 source.sample_counter)))),
      record source { sample_counter = source.sample_counter + 1 },
    )

-- The demonstration's temperature for an ADC value; the additions do not wrap at 12 bits.
pub demo_temperature : ℕ → ℕ
demo_temperature adc_12bit = 15000 + (adc_12bit * 20000 + 2047) / 4095

pub demo_humidity : ℕ → ℕ
demo_humidity adc_12bit = 30000 + ((4095 - adc_12bit) * 40000 + 2047) / 4095

unfoldable pub build_adc_demo : ℕ → ℕ → Exec TelemetrySource (List ℕ)
unfolding demo_temperature demo_humidity
build_adc_demo timestamp_ms adc_12bit source =
    if ltb demo_adc_max adc_12bit
    then (err argument, source)
    else build_record timestamp_ms (demo_temperature adc_12bit) (demo_humidity adc_12bit) source
