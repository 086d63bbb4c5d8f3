-- ===== src/HeartbeatGate/Rate.antt =====
-- The gate's invariant, how often it lets an edge through, and when it lets none through.
use fpga_pqc_secure_telemetr.Base.{
  ℕ, zero, suc, ◌+◌, ◌*◌, ◌-◌, ◌≤◌, ◌<◌, Bool, true, false, ◌≡◌, refl, sym, subst, ◌⊎◌, inl, inr,
  List, [], ◌∷◌, arith, if◌then◌else◌,
}
use native.Mathlib.Decide.{dec_lt}
use native.Mathlib.Nat.{zero-add}
use fpga_pqc_secure_telemetr.Result.{ok, err, argument}
use fpga_pqc_secure_telemetr.HeartbeatGate.{
  HeartbeatGate, IsValid, Event, ticks, feeds, init, feed, tick, edges, uint16_max,
}

-- `init` with a 16-bit timeout returns OK exactly when 0 < period < timeout, with a valid gate
-- that has seen no progress, and otherwise ARGUMENT with the gate unchanged.
pub init_lem :
    (period timeout : ℕ) (gate : HeartbeatGate)
    → timeout ≤ uint16_max
    → ((init period timeout gate).0 ≡ ok tt)
        × (0 < period)
        × (period < timeout)
        × IsValid (init period timeout gate).1
        × ((init period timeout gate).1.progress_seen ≡ false)
      ⊎ ((init period timeout gate ≡ (err argument, gate)) × (period ≡ 0 ⊎ timeout ≤ period))
unfolding init
init_lem period timeout gate h = elim (dec_lt 0 period) [
  | yes p ↦ elim (dec_lt period timeout) [
    | yes q ↦ inl (ground arith, p, q, ground arith, ground arith)
    | no q ↦ inr (ground arith, inr (omega arith))
  ]
  | no p ↦ inr (ground arith, inl (omega arith))
]

pub feed-IsValid : {gate : HeartbeatGate} → IsValid gate → IsValid (feed gate)
unfolding feed
feed-IsValid v = ground arith

-- A tick keeps a valid gate valid: 0 < period < timeout, the countdown between 1 and the period,
-- the timeout and the age 16-bit words.
pub tick-IsValid : {gate : HeartbeatGate} → IsValid gate → IsValid (tick gate).1
unfolding tick
tick-IsValid v = ground arith

period-tick : (gate : HeartbeatGate) → (tick gate).1.period_ms ≡ gate.period_ms
unfolding tick
period-tick gate = ground arith

timeout-tick : (gate : HeartbeatGate) → (tick gate).1.progress_timeout_ms ≡ gate.progress_timeout_ms
unfolding tick
timeout-tick gate = ground arith

-- The number of timer ticks in a run.
abbrev pub count_ticks : List Event → ℕ
count_ticks [] = 0
count_ticks (ticks ∷ es) = suc (count_ticks es)
count_ticks (feeds ∷ es) = count_ticks es

tick_cases :
    (gate : HeartbeatGate)
    → IsValid gate
    → let (toggle, gate') = tick gate in
      ((toggle ≡ true) × (gate.countdown_ms ≡ 1) × (gate'.countdown_ms ≡ gate.period_ms))
      ⊎ ((toggle ≡ false) × (gate.countdown_ms ≤ gate'.countdown_ms + 1))
unfolding tick
tick_cases gate v = ground arith

edges_rate_tick :
    (gate : HeartbeatGate) (toggle : Bool) (e t countdown : ℕ)
    → IsValid gate
    → ((toggle ≡ true) × (gate.countdown_ms ≡ 1) × (countdown ≡ gate.period_ms))
      ⊎ ((toggle ≡ false) × (gate.countdown_ms ≤ countdown + 1))
    → e * gate.period_ms + countdown ≤ t + gate.period_ms
    → ((if toggle then 1 else 0) + e) * gate.period_ms + gate.countdown_ms ≤ suc t + gate.period_ms
edges_rate_tick gate true e t countdown v (inl c) h = omega arith
edges_rate_tick gate false e t countdown v (inl c) h = cc c.0
edges_rate_tick gate true e t countdown v (inr c) h = cc c.0
edges_rate_tick gate false e t countdown v (inr c) h = omega arith

-- Over any run of timer ticks and progress reports from a valid gate, the number of edges times
-- the period, plus the countdown at the start, is at most the number of ticks plus the period.
pub edges_rate :
    (es : List Event) (gate : HeartbeatGate)
    → IsValid gate
    → edges gate es * gate.period_ms + gate.countdown_ms ≤ count_ticks es + gate.period_ms
unfolding edges feed
edges_rate [] gate v = omega arith
edges_rate (feeds ∷ es) gate v = edges_rate es (feed gate) (feed-IsValid v)
edges_rate (ticks ∷ es) gate v =
    edges_rate_tick gate (tick gate).0 (edges (tick gate).1 es) (count_ticks es)
      (tick gate).1.countdown_ms v (tick_cases gate v)
      (rw (period-tick gate) at (edges_rate es (tick gate).1 (tick-IsValid v)))

abbrev pub ticks_only : ℕ → List Event
ticks_only zero = []
ticks_only (suc n) = ticks ∷ ticks_only n

-- The application has shown no progress yet, or none for the timeout.
abbrev pub Starved : HeartbeatGate → Type 0
Starved gate = (gate.progress_seen ≡ false) ⊎ (gate.progress_timeout_ms ≤ gate.progress_age_ms + 1)

Starved-tick :
    (gate : HeartbeatGate)
    → gate.progress_timeout_ms ≤ uint16_max
    → Starved gate
    → ((tick gate).0 ≡ false) × Starved (tick gate).1
unfolding tick
Starved-tick gate h (inl s) = (ground arith, inl (ground arith))
Starved-tick gate h (inr s) = (ground arith, inr (ground arith))

-- A gate that has seen no progress, or whose progress will be too old at the next tick, produces
-- no edge in any number of ticks without a report, when the timeout is a 16-bit word.
pub edges-Starved :
    (n : ℕ) (gate : HeartbeatGate)
    → gate.progress_timeout_ms ≤ uint16_max
    → Starved gate
    → edges gate (ticks_only n) ≡ 0
unfolding edges
edges-Starved zero gate h s = refl
edges-Starved (suc n) gate h s =
    let (quiet, s') = Starved-tick gate h s in
    rw (quiet, zero-add) (edges-Starved n (tick gate).1 (rw (timeout-tick gate) h) s')

-- Progress within the timeout: the countdown goes on.
counting_tick :
    (gate : HeartbeatGate) (n : ℕ)
    → gate.progress_seen ≡ true
    → gate.countdown_ms ≡ suc (suc n)
    → gate.progress_timeout_ms ≤ uint16_max
    → gate.progress_age_ms + gate.countdown_ms < gate.progress_timeout_ms
    → ((tick gate).0 ≡ false)
      × ((tick gate).1.progress_seen ≡ true)
      × ((tick gate).1.countdown_ms ≡ suc n)
      × ((tick gate).1.progress_age_ms + (tick gate).1.countdown_ms
          < (tick gate).1.progress_timeout_ms)
unfolding tick
counting_tick gate n s c h a = (ground arith, ground arith, ground arith, ground arith)

last_tick :
    (gate : HeartbeatGate)
    → gate.progress_seen ≡ true
    → gate.countdown_ms ≡ 1
    → gate.progress_timeout_ms ≤ uint16_max
    → gate.progress_age_ms + gate.countdown_ms < gate.progress_timeout_ms
    → (tick gate).0 ≡ true
unfolding tick
last_tick gate s c h a = ground arith

edges_due :
    (n : ℕ) (gate : HeartbeatGate)
    → gate.progress_seen ≡ true
    → gate.countdown_ms ≡ suc n
    → gate.progress_timeout_ms ≤ uint16_max
    → gate.progress_age_ms + gate.countdown_ms < gate.progress_timeout_ms
    → edges gate (ticks_only (suc n)) ≡ 1
unfolding edges
edges_due zero gate s c h a = rw (last_tick gate s c h a)
edges_due (suc n) gate s c h a =
    let (quiet, s', c', a') = counting_tick gate n s c h a in
    rw (quiet, zero-add) (edges_due n (tick gate).1 s' c' (rw (timeout-tick gate) h) a')

-- After a progress report, a valid gate produces exactly one edge in as many ticks as its
-- countdown says.
pub edges-feed :
    (gate : HeartbeatGate) → IsValid gate → edges (feed gate) (ticks_only gate.countdown_ms) ≡ 1
unfolding feed
edges-feed gate v =
    let e : gate.countdown_ms ≡ suc (gate.countdown_ms - 1) = omega arith in
    subst (λ k. edges (feed gate) (ticks_only k) ≡ 1) (sym e)
      (edges_due (gate.countdown_ms - 1) (feed gate) refl e v.timeout_word (omega arith))
