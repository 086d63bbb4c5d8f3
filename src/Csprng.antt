-- ===== src/Csprng.antt =====
-- src/fpst_csprng.c: the interface through which the ML-KEM code gets its coins. The provider is a
-- parameter: it acts on the world, where its own state is.
use fpga_pqc_secure_telemetr.Base.{ℕ, Bool, Option, none, some, List, [], ◌==◌, if◌then◌else◌}
use fpga_pqc_secure_telemetr.Result.{Result, ok, err, argument}
use fpga_pqc_secure_telemetr.Platform.{is_some}

-- fpst_csprng_t. The provider gives the bytes that it writes to `out`.
pub record Csprng (W : Type 0) : Type 0 where
  pub fill : Option (ℕ → W → Result (List ℕ) × W)

module _ {W : Type 0} where
  unfoldable pub is_valid : Csprng W → Bool
  is_valid rng = is_some rng.fill

  unfoldable pub fill : Csprng W → ℕ → W → Result (List ℕ) × W
  fill rng len w = elim rng.fill [
    | none ↦ (err argument, w)
    | some provider ↦ if len == 0 then (ok [], w) else provider len w
  ]
