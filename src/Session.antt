-- ===== src/Session.antt =====
-- src/fpst_session.c: the session manager of the transmitting side. The state is the manager, two
-- link objects and the world; the manager's `link` pointer names one of the two, so that the
-- routed form (one link object for both endpoints) and the pair form (two) share the definitions.
pub mod Manager
pub mod Pair
pub mod Wipe
pub mod Run
pub mod Confirm
use fpga_pqc_secure_telemetr.Base.{
  ℕ, ◌+◌, ◌%◌, ◌^◌, Bool, true, false, ◌&&◌, ◌||◌, List, [], ◌==◌, ◌/=◌, if◌then◌else◌, not,
}
use fpga_pqc_secure_telemetr.Result.{
  Result, Status, Exec, ok, err, argument, busy, state, transaction, continue, ◌>>=◌, ◌>>◌,
}
use fpga_pqc_secure_telemetr.Kdf.{kdf_derive_tx}
use fpga_pqc_secure_telemetr.Platform.{Platform, is_valid}
use fpga_pqc_secure_telemetr.Profile.{link_command_timeout_ms}
use fpga_pqc_secure_telemetr.Link.{FpgaLink, Port, rebind}
use fpga_pqc_secure_telemetr.Link.Opcode.{key_direction_tx, op_key_load_abort}
use fpga_pqc_secure_telemetr.Primer1
use fpga_pqc_secure_telemetr.Primer1.{command_no_data}
use fpga_pqc_secure_telemetr.Primer2

-- fpst_session_state_t
pub data SessionState : Type 0 where
  no_key staging active error : SessionState

-- Which link object a pointer names.
pub data LinkRef : Type 0 where
  cell_a cell_b : LinkRef

-- fpst_session_manager_t
pub record SessionManager : Type 0 where
  pub state : SessionState
  pub session_id : ℕ
  pub next_sequence : ℕ
  pub link : LinkRef

pub record Machine (W : Type 0) : Type 0 where
  pub manager : SessionManager
  pub link_a : FpgaLink W
  pub link_b : FpgaLink W
  pub world : W

abbrev pub is_staging : SessionState → Bool
is_staging no_key = false
is_staging staging = true
is_staging active = false
is_staging error = false

abbrev pub is_active : SessionState → Bool
is_active no_key = false
is_active staging = false
is_active active = true
is_active error = false

-- Both wipes succeeded, or the first error, the receiver's first.
abbrev pub first_error : Status → Status → Status
first_error rx_wipe tx_wipe = elim rx_wipe [ ok _ ↦ tx_wipe | err e ↦ err e ]

-- The test of the two KEY_STATUS answers after the keys are loaded.
unfoldable pub matched : ℕ → Primer1.KeyStatus → Primer2.KeyStatus → Bool
matched session_id tx_status rx_status =
    tx_status.key_valid
    && (tx_status.session_active
        && (rx_status.key_valid
            && (rx_status.session_active
                && (tx_status.session_id == session_id
                    && (rx_status.session_id == session_id
                        && (tx_status.tx_sequence == 0 && rx_status.expected_sequence == 0))))))

module _ {W : Type 0} where
  abbrev pub cell : LinkRef → Machine W → FpgaLink W
  cell cell_a s = s.link_a
  cell cell_b s = s.link_b

  -- A function of the lower layers on the link object that a pointer names.
  abbrev pub on : {A : Type 0} → LinkRef → Exec (Port W) A → Exec (Machine W) A
  on ref m s =
      let (r, port) = m (record { link = cell ref s; world = s.world }) in
      (
        r,
        record {
          manager = s.manager;
          link_a = elim ref [ cell_a ↦ port.link | cell_b ↦ s.link_a ];
          link_b = elim ref [ cell_a ↦ s.link_b | cell_b ↦ port.link ];
          world = port.world;
        },
      )

  abbrev pub set_state : SessionState → Machine W → Machine W
  set_state new s = record s { manager = record s.manager { state = new } }

  -- fpst_session_init
  unfoldable pub init : LinkRef → Exec (Machine W) (Unit {0})
  init ref s = (
    ok tt,
    record s { manager = record { state = no_key; session_id = 0; next_sequence = 0; link = ref } },
  )

  unfoldable pub zeroize : Exec (Machine W) (Unit {0})
  zeroize s =
      let (rc, t) = on s.manager.link (Primer1.zeroize 0) s in
      (
        rc,
        record t {
          manager = record {
            state = elim rc [ ok _ ↦ no_key | err _ ↦ error ];
            session_id = 0;
            next_sequence = 0;
            link = s.manager.link;
          };
        },
      )

  -- The label `fail` of `establish`: what ABORT and the wipe return is ignored.
  unfoldable pub abort_tx : Machine W → Machine W
  abort_tx s =
      set_state error
        (zeroize
          (on s.manager.link (command_no_data op_key_load_abort [] link_command_timeout_ms) s).1).1

  -- `establish` behind its tests.
  unfoldable pub load_and_activate : List ℕ → ℕ → Exec (Machine W) (Unit {0})
  load_and_activate shared_secret session_id s =
      let (rc, t) =
        on s.manager.link
          (Primer2.load_key key_direction_tx session_id (kdf_derive_tx shared_secret session_id))
          (set_state staging s) in
      elim rc [
        | ok _ ↦ (
          ok tt,
          record t {
            manager = record t.manager {
              state = active;
              session_id = session_id;
              next_sequence = 0;
            };
          },
        )
        | err e ↦ (err e, abort_tx t)
      ]

  unfoldable pub establish : List ℕ → ℕ → ℕ → ℕ → Exec (Machine W) (Unit {0})
  establish shared_secret session_id initial_sequence policy_flags s =
      if session_id == 0 || (initial_sequence /= 0 || policy_flags /= 0)
      then (err argument, s)
      else if is_staging s.manager.state
      then (err busy, s)
      else load_and_activate shared_secret session_id s

  -- `rx_wipe` and `tx_wipe`: the end of the failing paths of the pair functions, with the code to
  -- return when both wipes succeed.
  unfoldable pub wiped : Status → Status → Status → Exec (Machine W) (Unit {0})
  wiped rc rx_wipe tx_wipe s = elim (first_error rx_wipe tx_wipe) [
    | ok _ ↦ (rc, s)
    | err e ↦ (err e, set_state error s)
  ]

  unfoldable pub wipe_pair : Status → LinkRef → Exec (Machine W) (Unit {0})
  wipe_pair rc primer2_link s =
      let (rx_wipe, t) = on primer2_link (Primer2.zeroize 0) s in
      let (tx_wipe, u) = zeroize t in wiped rc rx_wipe tx_wipe u

  unfoldable pub judge : ℕ → Primer1.KeyStatus → Primer2.KeyStatus → Exec (Machine W) (Unit {0})
  unfolding matched
  judge session_id tx_status rx_status s =
      ((if matched session_id tx_status rx_status then ok tt else err transaction), s)

  -- The two KEY_STATUS queries, and the test of what they answer.
  unfoldable pub confirm_pair : LinkRef → ℕ → Exec (Machine W) (Unit {0})
  confirm_pair primer2_link session_id s =
      (do
        tx_status ← on s.manager.link Primer1.key_status
        rx_status ← on primer2_link Primer2.key_status
        judge session_id tx_status rx_status)
        s

  unfoldable pub load_pair : LinkRef → List ℕ → ℕ → Exec (Machine W) (Unit {0})
  load_pair primer2_link shared_secret session_id =
      on primer2_link (Primer2.establish_rx shared_secret session_id)
      >> confirm_pair primer2_link session_id

  -- `establish_pair` after the transmitter is active.
  unfoldable pub finish_pair : LinkRef → List ℕ → ℕ → Exec (Machine W) (Unit {0})
  finish_pair primer2_link shared_secret session_id s =
      let (rc, t) = load_pair primer2_link shared_secret session_id s in
      elim rc [ ok _ ↦ (ok tt, t) | err e ↦ wipe_pair (err e) primer2_link t ]

  unfoldable pub establish_pair : LinkRef → List ℕ → ℕ → Exec (Machine W) (Unit {0})
  establish_pair primer2_link shared_secret session_id s =
      if session_id == 0
      then (err argument, s)
      else (do
        establish shared_secret session_id 0 0
        finish_pair primer2_link shared_secret session_id)
          s

  -- `fail_pair`. A rebind that fails leaves that wipe at FPST_ERR_STATE.
  unfoldable pub wipe_pair_routed : Status → Platform W → Platform W → Exec (Machine W) (Unit {0})
  wipe_pair_routed rc primer1_platform primer2_platform s =
      let link = s.manager.link in
      let (rx_bound, t) = on link (rebind primer2_platform) s in
      let (rx_wipe, t') : Result (Unit {0}) × Machine W = elim rx_bound [
        | ok _ ↦ on link (Primer2.zeroize 0) t
        | err _ ↦ (err state, t)
      ] in
      let (tx_bound, u) = on link (rebind primer1_platform) t' in
      let (tx_wipe, u') : Result (Unit {0}) × Machine W = elim tx_bound [
        | ok _ ↦ zeroize u
        | err _ ↦ (err state, u)
      ] in
      wiped rc rx_wipe tx_wipe (on link (rebind primer1_platform) u').1

  unfoldable pub confirm_routed : Platform W → Platform W → ℕ → Exec (Machine W) (Unit {0})
  confirm_routed primer1_platform primer2_platform session_id s =
      let link = s.manager.link in
      (do
        on link (rebind primer1_platform)
        tx_status ← on link Primer1.key_status
        on link (rebind primer2_platform)
        rx_status ← on link Primer2.key_status
        judge session_id tx_status rx_status)
        s

  unfoldable pub load_pair_routed :
      Platform W → Platform W → List ℕ → ℕ → Exec (Machine W) (Unit {0})
  load_pair_routed primer1_platform primer2_platform shared_secret session_id s =
      (on s.manager.link (do rebind primer2_platform; Primer2.establish_rx shared_secret session_id)
          >> confirm_routed primer1_platform primer2_platform session_id)
        s

  -- `establish_pair_routed` after the transmitter is active.
  unfoldable pub finish_pair_routed :
      Platform W → Platform W → List ℕ → ℕ → Exec (Machine W) (Unit {0})
  finish_pair_routed primer1_platform primer2_platform shared_secret session_id s =
      let link = s.manager.link in
      let (rc, t) = load_pair_routed primer1_platform primer2_platform shared_secret session_id s in
      elim rc [
        | ok _ ↦ on link (rebind primer1_platform) t
        | err e ↦ wipe_pair_routed (err e) primer1_platform primer2_platform t
      ]

  unfoldable pub establish_pair_routed :
      Platform W → Platform W → List ℕ → ℕ → Exec (Machine W) (Unit {0})
  establish_pair_routed primer1_platform primer2_platform shared_secret session_id s =
      if not (is_valid primer1_platform) || (not (is_valid primer2_platform) || session_id == 0)
      then (err argument, s)
      else (do
        on s.manager.link (rebind primer1_platform)
        establish shared_secret session_id 0 0
        finish_pair_routed primer1_platform primer2_platform shared_secret session_id)
          s

  -- `rc = fpst_primer1_commit_retained_sequence(…)` and the increment.
  unfoldable pub commit_tx : ℕ → Exec (Machine W) (Unit {0})
  commit_tx committed_sequence s =
      let (rc, t) = on s.manager.link (Primer1.commit_retained_sequence committed_sequence) s in
      if not (is_active s.manager.state)
      then (err state, s)
      else if committed_sequence /= s.manager.next_sequence
      then (err transaction, s)
      else elim rc [
        | ok _ ↦ (
          ok tt,
          record t {
            manager = record t.manager { next_sequence = (t.manager.next_sequence + 1) % 2 ^ 64 };
          },
        )
        | err e ↦ (err e, t)
      ]

  -- The result is the value of `resend_required`.
  unfoldable pub reconcile_tx : ℕ → Exec (Machine W) Bool
  reconcile_tx receiver_expected_sequence s =
      let current = s.manager.next_sequence in
      let (rc, t) = commit_tx current s in
      if not (is_active s.manager.state)
      then (err state, s)
      else if receiver_expected_sequence == current
      then (ok true, s)
      else if receiver_expected_sequence == (current + 1) % 2 ^ 64
      then elim rc [ ok _ ↦ (ok false, t) | err e ↦ (err e, t) ]
      else (err transaction, set_state error s)

  unfoldable pub zeroize_pair : LinkRef → Exec (Machine W) (Unit {0})
  zeroize_pair primer2_link s = wipe_pair (ok tt) primer2_link s

  -- The end of `zeroize_pair_routed`.
  unfoldable pub restored : Status → Status → Status → Exec (Machine W) (Unit {0})
  restored rx_rc tx_rc restore_rc s = elim (first_error rx_rc (first_error tx_rc restore_rc)) [
    | ok _ ↦ (ok tt, s)
    | err e ↦ (err e, set_state error s)
  ]

  unfoldable pub zeroize_pair_routed : Platform W → Platform W → Exec (Machine W) (Unit {0})
  zeroize_pair_routed primer1_platform primer2_platform s =
      let link = s.manager.link in
      let (rx_rc, t) = (on link (rebind primer2_platform) >> on link (Primer2.zeroize 0)) s in
      let (tx_rc, u) = (on link (rebind primer1_platform) >> zeroize) t in
      let (restore_rc, v) = on link (rebind primer1_platform) u in
      if not (is_valid primer1_platform) || not (is_valid primer2_platform)
      then (err argument, s)
      else restored rx_rc tx_rc restore_rc v
