-- ===== src/SysTick/Uptime.antt =====
-- The 64-bit uptime is never torn by a timer interrupt.
use fpga_pqc_secure_telemetr.Base.{
  ℕ, zero, suc, ◌+◌, ◌*◌, ◌/◌, ◌%◌, ◌^◌, ◌<◌, ◌≤◌, ◌≡◌, ap, ◌∙◌, some, List, [], ◌∷◌, ◌⊎◌, arith,
  ◌==◌, inl, inr, Option, if◌then◌else◌,
}
use fpga_pqc_secure_telemetr.SysTick.{Clock, Pauses, count_tick, count_ticks, uptime_ms64}

-- The clock so many milliseconds after it was set to zero.
abbrev pub clock_at : ℕ → Clock
clock_at t = record { millis = t % 2 ^ 32; millis_high = t / 2 ^ 32 % 2 ^ 32 }

count_tick-clock_at : (t : ℕ) → count_tick (clock_at t) ≡ clock_at (t + 1)
unfolding count_tick
count_tick-clock_at t = ground arith

pub count_ticks-clock_at : (n t : ℕ) → count_ticks n (clock_at t) ≡ clock_at (t + n)
unfolding count_ticks
count_ticks-clock_at zero t = ap clock_at (omega arith)
count_ticks-clock_at (suc n) t =
    ap (count_ticks n) (count_tick-clock_at t)
    ∙ count_ticks-clock_at n (t + 1)
    ∙ ap clock_at (omega arith)

abbrev pub duration : Pauses → ℕ
duration p = p.before + p.between + p.after

abbrev pub total : List Pauses → ℕ
total [] = 0
total (p ∷ rest) = duration p + total rest

-- The value was the time at a moment of the call, which ends before all pauses are over.
pub record Returned (schedule : List Pauses) (t : ℕ) : Type 0 where
  pub value : ℕ
  pub end : ℕ
  pub returned : uptime_ms64 schedule (clock_at t) ≡ some (value, clock_at end)
  pub started : t ≤ value
  pub ended : value ≤ end
  pub bounded : end ≤ t + total schedule

stays_or_carries : (a b : ℕ) → a ≤ b → (a ≡ b) ⊎ (a < b)
stays_or_carries a b order = ground arith

kept :
    (high high' v v' : ℕ) (end : Clock) (again : Option (ℕ × Clock))
    → high ≡ high'
    → v ≡ v'
    → (if high == high' then some (v, end) else again) ≡ some (v', end)
kept high high' v v' end again same value = ground arith

tried_again :
    (high high' v : ℕ) (end : Clock) (again : Option (ℕ × Clock))
    → high < high'
    → (if high == high' then some (v, end) else again) ≡ again
tried_again high high' v end again order = ground arith

-- A round that the carry does not fall into.
calm :
    (p : Pauses) (rest : List Pauses) (t : ℕ)
    → t + duration p < 2 ^ 64
    → (t + p.before) / 2 ^ 32 ≡ (t + duration p) / 2 ^ 32
    → Returned (p ∷ rest) t
unfolding uptime_ms64
calm p rest t fits same = record {
  value = t + p.before + p.between;
  end = t + p.before + p.between + p.after;
  returned =
      rw
        (
          count_ticks-clock_at p.before t,
          count_ticks-clock_at p.between (t + p.before),
          count_ticks-clock_at p.after (t + p.before + p.between),
        )
        (kept (clock_at (t + p.before)).millis_high
          (clock_at (t + p.before + p.between + p.after)).millis_high
          ((clock_at (t + p.before)).millis_high * 2 ^ 32
            + (clock_at (t + p.before + p.between)).millis)
          (t + p.before + p.between) _ _ (omega arith) (omega arith));
  started = omega arith;
  ended = omega arith;
  bounded = omega arith;
}

-- A round that the carry falls into.
carried :
    (p : Pauses) (rest : List Pauses) (t : ℕ)
    → t + duration p < 2 ^ 64
    → (t + p.before) / 2 ^ 32 < (t + duration p) / 2 ^ 32
    → uptime_ms64 (p ∷ rest) (clock_at t) ≡ uptime_ms64 rest (clock_at (t + duration p))
unfolding uptime_ms64
carried p rest t fits carry =
    rw
      (
        count_ticks-clock_at p.before t,
        count_ticks-clock_at p.between (t + p.before),
        count_ticks-clock_at p.after (t + p.before + p.between),
      )
      (tried_again (clock_at (t + p.before)).millis_high
          (clock_at (t + p.before + p.between + p.after)).millis_high _ _ _ (omega arith)
        ∙ ap (λ u. uptime_ms64 rest (clock_at u)) (omega arith))

-- When two rounds of `uptime_ms64` take less than 2 ^ 32 milliseconds together and the uptime
-- stays below 2 ^ 64 meanwhile, the function returns, whenever the timer interrupts its reads, and
-- its value was the uptime at a moment between its start and its end.
pub uptime_ms64-Returned :
    (p q : Pauses) (rest : List Pauses) (t : ℕ)
    → duration p + duration q < 2 ^ 32
    → t + duration p + duration q < 2 ^ 64
    → Returned (p ∷ q ∷ rest) t
uptime_ms64-Returned p q rest t short fits =
    elim (stays_or_carries ((t + p.before) / 2 ^ 32) ((t + duration p) / 2 ^ 32) (omega arith)) [
      | inl same ↦ calm p (q ∷ rest) t (omega arith) same
      | inr carry ↦
          let again = calm q rest (t + duration p) (omega arith) (omega arith) in
          record {
            value = again.value;
            end = again.end;
            returned = carried p (q ∷ rest) t (omega arith) carry ∙ again.returned;
            started = omega arith;
            ended = again.ended;
            bounded = omega arith;
          }
    ]
