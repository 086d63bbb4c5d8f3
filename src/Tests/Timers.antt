-- ===== src/Tests/Timers.antt =====
-- The heartbeat gate and the telemetry records at concrete inputs.
use fpga_pqc_secure_telemetr.Base.{
  ◌+◌, ◌*◌, ◌≤◌, ◌<◌, ◌≡◌, true, false, [], ◌∷◌, ◌⊎◌, arith, inl, refl,
}
use fpga_pqc_secure_telemetr.Result.{ok, err, argument}
use fpga_pqc_secure_telemetr.HeartbeatGate.{
  HeartbeatGate, IsValid, init, feed, tick, edges, ticks, feeds,
}
use fpga_pqc_secure_telemetr.HeartbeatGate.Rate.{
  init_lem, tick-IsValid, edges_rate, edges-Starved, edges-feed, ticks_only,
}
use fpga_pqc_secure_telemetr.Telemetry.{TelemetrySource}

abbrev gate : HeartbeatGate
gate = record {
  period_ms = 3;
  progress_timeout_ms = 10;
  countdown_ms = 3;
  progress_age_ms = 0;
  progress_seen = true;
}

abbrev stale : HeartbeatGate
stale = record gate { progress_seen = false }

abbrev source : TelemetrySource
source = record { sensor_id = 5; sample_counter = 2 }

gate-IsValid : IsValid gate
gate-IsValid = record {
  period_pos = omega arith;
  period_lt = omega arith;
  timeout_word = omega arith;
  countdown_pos = omega arith;
  countdown_le = omega arith;
  age_word = omega arith;
}

init_lem_example :
    ((init 3 10 gate).0 ≡ ok tt)
      × (0 < 3)
      × (3 < 10)
      × IsValid (init 3 10 gate).1
      × ((init 3 10 gate).1.progress_seen ≡ false)
    ⊎ ((init 3 10 gate ≡ (err argument, gate)) × (gate.period_ms ≡ 0 ⊎ 10 ≤ 3))
init_lem_example = init_lem 3 10 gate (omega arith)

tick-IsValid_example : IsValid (tick gate).1
tick-IsValid_example = tick-IsValid gate-IsValid

edges_rate_example : edges gate (ticks ∷ feeds ∷ ticks ∷ ticks ∷ []) * 3 + 3 ≤ 3 + 3
edges_rate_example = edges_rate (ticks ∷ feeds ∷ ticks ∷ ticks ∷ []) gate gate-IsValid

edges-feed_example : edges (feed gate) (ticks_only 3) ≡ 1
edges-feed_example = edges-feed gate gate-IsValid

edges-Starved_example : edges stale (ticks_only 40) ≡ 0
edges-Starved_example = edges-Starved 40 stale (omega arith) (inl refl)
