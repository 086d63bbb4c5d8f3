-- ===== src/Sn32Port.antt =====
-- platform/sn32f407/fpst_sn32f407_port.h: what the main programs use of the board's port, over the
-- world that it acts on.
use fpga_pqc_secure_telemetr.Base.{ℕ, ◌≡◌, Bool, Option, List, ◌++◌}
use fpga_pqc_secure_telemetr.Result.{Result}
use fpga_pqc_secure_telemetr.Csprng.{Csprng}

-- `csprng_init` leaves its out-parameter zero after an error.
pub record Sn32Port (W : Type 0) : Type 0 where
  pub uart0_write : List ℕ → W → W
  pub uart0_read_byte : W → Option ℕ × W
  pub adc_read : W → Result ℕ × W
  pub csprng_init : W → Result (Csprng W) × W
  pub csprng_ready : W → Bool
  pub csprng_zeroize : W → W
  pub uptime_ms64 : W → ℕ × W
  pub link_wiring_verified : Bool

-- What a host sees: the bytes that the UART has sent, in order.
pub record IsUart {W : Type 0} (port : Sn32Port W) : Type 0 where
  pub sent : W → List ℕ
  pub write : (bytes : List ℕ) (w : W) → sent (port.uart0_write bytes w) ≡ sent w ++ bytes
