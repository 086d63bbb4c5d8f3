-- ===== src/Mlkem.antt =====
-- src/fpst_mlkem512_wrapper.c as far as mlkem-native sees it: the hooks that it calls, and the
-- globals behind them. mlkem-native is not in the repository: a function of it is a tree of the
-- calls that it makes of the hooks, and the theorems hold for every such tree. An int16_t is its 16
-- bits as a number below 2 ^ 16.
pub mod Lowram
pub mod Wrapper
pub mod Establish
pub mod Hook
pub mod Modulus
pub mod Sealed
pub mod Release
pub mod Sink
pub mod Reference
pub mod Encrypt
pub mod Correct
pub mod Poll
use fpga_pqc_secure_telemetr.Base.{
  ℕ, zero, suc, ◌+◌, ◌-◌, ◌*◌, ◌/◌, ◌%◌, ◌^◌, Bool, true, false, ◌&&◌, ◌||◌, Option, none, some,
  List, [], map, take, drop, replicate, write_at, leb, ◌==◌, ◌/=◌, if◌then◌else◌, not,
}
use fpga_pqc_secure_telemetr.Result.{Result, Status, Exec, ok, err, state, timeout, ◌>>=◌, ◌>>◌}
use fpga_pqc_secure_telemetr.Platform.{millis, delay_ms, watchdog_feed}
use fpga_pqc_secure_telemetr.Profile.{link_ntt_timeout_ms}
use fpga_pqc_secure_telemetr.Link.{FpgaLink, Port}
use fpga_pqc_secure_telemetr.Primer1.Pqc.{
  PqcStatus, pqc_coefficients, pqc_modulus, pqc_load_poly, pqc_start_ntt, pqc_get_result,
  pqc_read_poly,
}
use fpga_pqc_secure_telemetr.Session.{LinkRef, Machine, cell, on}

abbrev pub public_key_bytes : ℕ
public_key_bytes = 800

abbrev pub secret_key_bytes : ℕ
secret_key_bytes = 1632

abbrev pub ciphertext_bytes : ℕ
ciphertext_bytes = 768

abbrev pub shared_secret_bytes : ℕ
shared_secret_bytes = 32

-- FPST_LINK_MCU_SESSION_PREFIX_BYTES
abbrev pub session_prefix_bytes : ℕ
session_prefix_bytes = 48

abbrev pub Poly : Type 0
Poly = List ℕ

abbrev pub Polyvec : Type 0
Polyvec = Poly × Poly

-- fpst_mlkem512_lowram_workspace_t
pub record Workspace : Type 0 where
  pub sp : Polyvec
  pub row : Polyvec
  pub sp_cache : Polyvec
  pub work : Poly

-- The session machine, the globals of the wrapper and of the low-RAM schedule, and the buffers of
-- the caller that a call writes: the ciphertext and the shared secret.
pub record Kem (W : Type 0) : Type 0 where
  pub machine : Machine W
  pub primer1_link : Option LinkRef
  pub backend_error : Status
  pub workspace : Workspace
  pub workspace_busy : Bool
  pub ciphertext : List ℕ
  pub shared_secret : List ℕ

-- A function of mlkem-native, by the hooks that it calls and what it does with their answers.
pub data Calls (A : Type 0) : Type 0 where
  done : A → Calls A
  ntt : Poly → (Poly → Calls A) → Calls A
  randombytes : ℕ → (List ℕ → Calls A) → Calls A

-- A coefficient in (-q, q) as its representative in [0, q).
unfoldable pub canonical : ℕ → ℕ
canonical bits = (bits + bits / 2 ^ 15 * pqc_modulus) % 2 ^ 16

abbrev pub zero_poly : Poly
zero_poly = replicate pqc_coefficients 0

-- The test of a status that reports the end of the operation.
unfoldable pub transform_status : PqcStatus → Status
transform_status status =
    if status.domain /= 2 || (not status.polynomial_complete || status.last_operation /= 1)
    then err state
    else ok tt

-- `g_backend_error = rc` where there is none yet
unfoldable pub latch : Status → Status → Status
latch rc current = elim current [ ok _ ↦ rc | err e ↦ err e ]

module _ {W : Type 0} where
  -- `for (;;)` around GET_RESULT, with fuel for the rounds.
  unfoldable pub poll_loop : ℕ → ℕ → Exec (Port W) (Unit {0})
  poll_loop zero start_ms s = (err timeout, s)
  poll_loop (suc fuel) start_ms s =
      let (rc, t) = pqc_get_result s in
      let p = t.link.platform in
      let (now, w) = millis p t.world in
      elim rc [
        | err e ↦ (err e, t)
        | ok status ↦ elim (not status.busy && status.done_latched) [
          | true ↦ (transform_status status, t)
          | false ↦ elim (leb link_ntt_timeout_ms ((now + 2 ^ 32 - start_ms) % 2 ^ 32)) [
            | true ↦ (err timeout, record t { world = w })
            | false ↦ poll_loop fuel start_ms (record t { world = delay_ms p 1 w })
          ]
        ]
      ]

  -- Every round but the last delays for a millisecond.
  unfoldable pub poll : Exec (Port W) (Unit {0})
  poll s =
      let (start_ms, w) = millis s.link.platform s.world in
      poll_loop (link_ntt_timeout_ms + 1) start_ms (record s { world = w })

  -- The commands to Primer 1.
  unfoldable pub remote_ntt : Poly → Exec (Port W) Poly
  remote_ntt coefficients = do
    pqc_load_poly coefficients
    pqc_start_ntt
    poll
    pqc_read_poly pqc_coefficients

  unfoldable pub backend_fail : Status → Poly → Kem W → Poly × Kem W
  backend_fail rc poly s = (zero_poly, record s { backend_error = latch rc s.backend_error })

  unfoldable pub backend_progress : Kem W → Kem W
  backend_progress s = elim s.primer1_link [
    | none ↦ s
    | some ref ↦ record s {
      machine = record s.machine {
        world = watchdog_feed (cell ref s.machine).platform s.machine.world;
      };
    }
  ]

  -- `backend_ntt` behind its tests.
  unfoldable pub transform : LinkRef → Poly → Kem W → Poly × Kem W
  transform ref poly s =
      let (rc, machine) = on ref (remote_ntt (map canonical poly)) s.machine in
      elim rc [
        | ok values ↦ (values, backend_progress (record s { machine = machine }))
        | err e ↦ backend_fail (err e) poly (record s { machine = machine })
      ]

  unfoldable pub backend_ntt : Poly → Kem W → Poly × Kem W
  backend_ntt poly s = elim s.primer1_link [
    | none ↦ backend_fail (err state) poly s
    | some ref ↦ elim s.backend_error [
      | err e ↦ backend_fail (err e) poly s
      | ok _ ↦ transform ref poly (backend_progress s)
    ]
  ]

  unfoldable pub upstream_randombytes_forbidden : ℕ → Kem W → List ℕ × Kem W
  upstream_randombytes_forbidden len s =
      (replicate len 0, record s { backend_error = latch (err state) s.backend_error })

  -- mlkem-native on the hooks.
  unfoldable pub run_calls : {A : Type 0} → Calls A → Kem W → A × Kem W
  run_calls (done a) s = (a, s)
  run_calls (ntt poly next) s = let (poly', s') = backend_ntt poly s in run_calls (next poly') s'
  run_calls (randombytes len next) s =
      let (out, s') = upstream_randombytes_forbidden len s in run_calls (next out) s'

  unfoldable pub bind_primer1 : LinkRef → Exec (Kem W) (Unit {0})
  bind_primer1 ref s = (ok tt, record s { primer1_link = some ref; backend_error = ok tt })

  unfoldable pub unbind_primer1 : Kem W → Kem W
  unbind_primer1 s = record s { primer1_link = none; backend_error = ok tt }
