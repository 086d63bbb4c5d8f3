-- ===== src/PairBridge/StopAndWait.antt =====
-- What src/fpst_pair_bridge.c promises: an abstract stop-and-wait sender.
use fpga_pqc_secure_telemetr.Base.{
  ℕ, ◌+◌, ◌%◌, ◌^◌, ◌<◌, ◌≡◌, refl, arith, Bool, true, false, List, [], ◌∷◌, if◌then◌else◌,
}
use fpga_pqc_secure_telemetr.Result.{Result, ok}
use fpga_pqc_secure_telemetr.Primer1.{TelemetryResult}
use fpga_pqc_secure_telemetr.Profile.{stp_retained_bytes}

-- The number of the next packet, and the packet that is under way with its own number.
pub data Sender : Type 0 where
  idle : ℕ → Sender
  waiting : (n tag : ℕ) (packet : List ℕ) → Sender

-- A send, with what the transmitter answers to the sample, or a retry.
pub data Action : Type 0 where
  send : Result TelemetryResult → Action
  retry : Action

abbrev pub next : ℕ → ℕ
next n = (n + 1) % 2 ^ 64

-- What may happen in one call, and whether it reports success.
pub data Step : Sender → Action → Bool → Sender → Type 0 where
  refused : (s : Sender) (a : Action) → Step s a false s
  held :
      (answer : TelemetryResult)
      → answer.packet_len ≡ stp_retained_bytes
      → Step
          (idle answer.sequence)
          (send (ok answer))
          false
          (waiting answer.sequence answer.sequence answer.packet)
  sent :
      (answer : TelemetryResult)
      → answer.packet_len ≡ stp_retained_bytes
      → Step (idle answer.sequence) (send (ok answer)) true (idle (next answer.sequence))
  confirmed : (n : ℕ) (packet : List ℕ) → Step (waiting n n packet) retry true (idle (next n))

pub data Steps : Sender → List (Action × Bool) → Sender → Type 0 where
  stop : (s : Sender) → Steps s [] s
  step :
      (s t u : Sender) (a : Action) (success : Bool) (rest : List (Action × Bool))
      → Step s a success t
      → Steps t rest u
      → Steps s ((a, success) ∷ rest) u

abbrev pub sender : Bool → ℕ → ℕ → List ℕ → Sender
sender true n tag packet = waiting n tag packet
sender false n tag packet = idle n

abbrev pub number : Sender → ℕ
number (idle n) = n
number (waiting n tag packet) = n

abbrev pub successes : List (Action × Bool) → ℕ
successes [] = 0
successes ((a, true) ∷ rest) = 1 + successes rest
successes ((a, false) ∷ rest) = successes rest

Step-number :
    {s t : Sender} {a : Action} {success : Bool}
    → Step s a success t
    → number t ≡ (if success then next (number s) else number s)
Step-number (refused s a) = refl
Step-number (held answer size) = refl
Step-number (sent answer size) = refl
Step-number (confirmed n packet) = refl

-- Every success advances the number by one, and nothing else does.
pub Steps-number :
    {s t : Sender} {reports : List (Action × Bool)}
    → Steps s reports t
    → number s < 2 ^ 64
    → number t ≡ (number s + successes reports) % 2 ^ 64
Steps-number (stop s) h = omega arith
Steps-number (step s t u a true rest st later) h =
    omega (arith, Step-number st, Steps-number later (omega (arith, Step-number st)))
Steps-number (step s t u a false rest st later) h =
    omega (arith, Step-number st, Steps-number later (omega (arith, Step-number st)))

pub number-sender : (b : Bool) (n k : ℕ) (packet : List ℕ) → number (sender b n k packet) ≡ n
number-sender true n k packet = refl
number-sender false n k packet = refl
