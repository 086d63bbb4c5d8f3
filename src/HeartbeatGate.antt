-- ===== src/HeartbeatGate.antt =====
-- src/fpst_heartbeat_gate.c: a timer-driven heartbeat that needs progress of the application.
-- A call returns the new gate; the gate pointer is never NULL here.
pub mod Rate
use fpga_pqc_secure_telemetr.Base.{
  ℕ, ◌+◌, ◌-◌, ◌≤◌, ◌<◌, Bool, true, false, ◌||◌, List, [], ◌∷◌, ltb, leb, ◌==◌, if◌then◌else◌,
}
use fpga_pqc_secure_telemetr.Result.{Result, Exec, ok, err, argument}

-- fpst_heartbeat_gate_t
pub record HeartbeatGate : Type 0 where
  pub period_ms : ℕ
  pub progress_timeout_ms : ℕ
  pub countdown_ms : ℕ
  pub progress_age_ms : ℕ
  pub progress_seen : Bool

abbrev pub uint16_max : ℕ
uint16_max = 65535

unfoldable pub init : ℕ → ℕ → Exec HeartbeatGate (Unit {0})
init period_ms progress_timeout_ms gate =
    if period_ms == 0 || leb progress_timeout_ms period_ms then (err argument, gate) else (
      ok tt,
      record {
        period_ms = period_ms;
        progress_timeout_ms = progress_timeout_ms;
        countdown_ms = period_ms;
        progress_age_ms = 0;
        progress_seen = false;
      },
    )

unfoldable pub feed : HeartbeatGate → HeartbeatGate
feed gate = record gate { progress_age_ms = 0; progress_seen = true }

-- The rest of `tick` behind the update of the age.
pub tick_aged : HeartbeatGate → Bool × HeartbeatGate
tick_aged gate =
    if leb gate.progress_timeout_ms gate.progress_age_ms
    then (false, record gate { countdown_ms = gate.period_ms })
    else if ltb 1 gate.countdown_ms
    then (false, record gate { countdown_ms = gate.countdown_ms - 1 })
    else (true, record gate { countdown_ms = gate.period_ms })

-- The flag says that the caller should toggle the output.
unfoldable pub tick : HeartbeatGate → Bool × HeartbeatGate
unfolding tick_aged
tick gate =
    if gate.progress_seen
    then tick_aged (record gate {
      progress_age_ms =
          if ltb gate.progress_age_ms uint16_max
          then gate.progress_age_ms + 1
          else gate.progress_age_ms;
    })
    else (false, gate)

-- What the timer interrupt and the application do to the gate, in any order.
pub data Event : Type 0 where
  ticks feeds : Event

-- How many edges a run produces.
pub edges : HeartbeatGate → List Event → ℕ
edges gate [] = 0
edges gate (feeds ∷ es) = edges (feed gate) es
edges gate (ticks ∷ es) =
    let (toggle, gate') = tick gate in (if toggle then 1 else 0) + edges gate' es

pub record IsValid (gate : HeartbeatGate) : Type 0 where
  pub period_pos : 0 < gate.period_ms
  pub period_lt : gate.period_ms < gate.progress_timeout_ms
  pub timeout_word : gate.progress_timeout_ms ≤ uint16_max
  pub countdown_pos : 0 < gate.countdown_ms
  pub countdown_le : gate.countdown_ms ≤ gate.period_ms
  pub age_word : gate.progress_age_ms ≤ uint16_max
