-- ===== src/PairBridge.antt =====
-- src/fpst_pair_bridge.c: samples from the transmitter to the receiver. The bridge's `tx_session`
-- pointer is the machine's manager; `rx_link` names one of its link objects.
pub mod Forward
pub mod Delivery
pub mod StopAndWait
pub mod Sender
use fpga_pqc_secure_telemetr.Base.{
  ℕ, zero, suc, ◌+◌, Bool, true, false, ◌&&◌, ◌||◌, List, replicate, ◌==◌, ◌/=◌, if◌then◌else◌, not,
}
use fpga_pqc_secure_telemetr.Result.{
  Result, Error, Status, Exec, ok, err, argument, busy, state, remote, timeout, transaction,
}
use fpga_pqc_secure_telemetr.Platform.{Platform, is_valid}
use fpga_pqc_secure_telemetr.Profile.{stp_retained_bytes, link_max_retries}
use fpga_pqc_secure_telemetr.Link.{FpgaLink, Port, rebind}
use fpga_pqc_secure_telemetr.Link.Opcode.{
  remote_err_replay, remote_err_sequence_gap, remote_err_sequence_desync,
}
use fpga_pqc_secure_telemetr.Primer1.{TelemetryResult, telemetry_tx_sample}
use fpga_pqc_secure_telemetr.Primer2.{RxResult, stp_rx_packet}
use fpga_pqc_secure_telemetr.Session.{
  LinkRef, cell_a, cell_b, SessionManager, Machine, is_active, error, cell, on, set_state,
  commit_tx, reconcile_tx,
}

-- fpst_pair_bridge_t
pub record PairBridge (W : Type 0) : Type 0 where
  pub rx_link : LinkRef
  pub tx_platform : Platform W
  pub rx_platform : Platform W
  pub routed_shared_link : Bool
  pub retained_valid : Bool
  pub retained_sequence : ℕ
  pub retained_packet : List ℕ

-- The bridge, and what it works on.
pub record Rig (W : Type 0) : Type 0 where
  pub bridge : PairBridge W
  pub machine : Machine W

abbrev pub is_remote : Error → Bool
is_remote e = elim e [ remote ↦ true | _ ↦ false ]

-- The receiver names a sequence at which the transmitter may catch up.
abbrev pub may_reconcile : Error → RxResult → Bool
may_reconcile e result =
    is_remote e
    && (result.sequence_valid
        && (result.remote_status == remote_err_replay
            || result.remote_status == remote_err_sequence_gap))

-- `!commit_accepted || !sequence_valid || sequence != retained_sequence`, the other way round
abbrev pub commits : RxResult → ℕ → Bool
commits result retained_sequence =
    result.commit_accepted && (result.sequence_valid && result.sequence == retained_sequence)

-- What `forward_retained_once` returns: its code with the value of `retry_same_packet`, the
-- out-parameter `rx_result`, and the state.
abbrev pub Forwarded : Type 0 → Type 0
Forwarded W = Result Bool × RxResult × Rig W

module _ {W : Type 0} where
  -- `fpst_primer2_stp_rx_packet` on a link object: `result` comes back beside the code.
  abbrev pub deliver : LinkRef → List ℕ → RxResult → Machine W → Status × RxResult × Machine W
  deliver ref packet result s =
      let (rc, after, port) =
        stp_rx_packet packet result (record { link = cell ref s; world = s.world }) in
      (rc, after, (on ref (λ _. (ok tt, port)) s).1)

  unfoldable pub bind_tx : PairBridge W → Exec (Machine W) (Unit {0})
  bind_tx bridge s =
      if bridge.routed_shared_link
      then on s.manager.link (rebind bridge.tx_platform) s
      else (ok tt, s)

  unfoldable pub bind_rx : PairBridge W → Exec (Machine W) (Unit {0})
  bind_rx bridge s =
      if bridge.routed_shared_link
      then on bridge.rx_link (rebind bridge.rx_platform) s
      else (ok tt, s)

  -- fpst_pair_bridge_forget_local_copy
  abbrev pub forget_local_copy : PairBridge W → PairBridge W
  forget_local_copy bridge = record bridge {
    retained_valid = false;
    retained_sequence = 0;
    retained_packet = replicate stp_retained_bytes 0;
  }

  -- fpst_pair_bridge_init
  unfoldable pub init : LinkRef → Exec (Rig W) (Unit {0})
  init rx_link g = (
    ok tt,
    record g {
      bridge = record {
        rx_link = rx_link;
        tx_platform = (cell g.machine.manager.link g.machine).platform;
        rx_platform = (cell rx_link g.machine).platform;
        routed_shared_link = false;
        retained_valid = false;
        retained_sequence = 0;
        retained_packet = replicate stp_retained_bytes 0;
      };
    },
  )

  unfoldable pub init_routed : Platform W → Platform W → Exec (Rig W) (Unit {0})
  init_routed primer1_platform primer2_platform g =
      let bridge : PairBridge W = record {
        rx_link = g.machine.manager.link;
        tx_platform = primer1_platform;
        rx_platform = primer2_platform;
        routed_shared_link = true;
        retained_valid = false;
        retained_sequence = 0;
        retained_packet = replicate stp_retained_bytes 0;
      } in
      let (rc, machine) = bind_tx bridge g.machine in
      if not (is_valid primer1_platform) || not (is_valid primer2_platform)
      then (err argument, g)
      else (rc, record { bridge = bridge; machine = machine })

  -- The receiver's OK.
  unfoldable pub on_accepted : RxResult → Rig W → Forwarded W
  on_accepted result g =
      let (rc, m) = commit_tx g.bridge.retained_sequence g.machine in
      if not (commits result g.bridge.retained_sequence)
      then (err transaction, result, record g { machine = set_state error g.machine })
      else elim rc [
        | ok _ ↦ (ok false, result, record { bridge = forget_local_copy g.bridge; machine = m })
        | err e ↦ (err e, result, record g { machine = m })
      ]

  abbrev pub note_desync : Exec (Port W) (Unit {0})
  note_desync port = (
    ok tt,
    record port { link = record port.link { last_remote_status = remote_err_sequence_desync } },
  )

  -- Any other code `rc` of the delivery.
  unfoldable pub on_refused : Error → RxResult → Rig W → Forwarded W
  on_refused rc result g =
      let (reconciled, m) = reconcile_tx result.sequence g.machine in
      if not (may_reconcile rc result) then (err rc, result, g) else elim reconciled [
        | ok resend_required ↦ (
          ok resend_required,
          result,
          record {
            bridge = if resend_required then g.bridge else forget_local_copy g.bridge;
            machine = m;
          },
        )
        | err e ↦ (err e, result, record g { machine = (on m.manager.link note_desync m).1 })
      ]

  unfoldable pub on_answer : Status → RxResult → Rig W → Forwarded W
  on_answer rc result g = elim rc [ ok _ ↦ on_accepted result g | err e ↦ on_refused e result g ]

  unfoldable pub forward_retained_once : RxResult → Rig W → Forwarded W
  forward_retained_once rx_result g =
      let (rx_bound, m1) = bind_rx g.bridge g.machine in
      let (rc, result, m2) = deliver g.bridge.rx_link g.bridge.retained_packet rx_result m1 in
      let (tx_bound, m3) = bind_tx g.bridge m2 in
      elim rx_bound [
        | err e ↦ (err e, rx_result, record g { machine = m1 })
        | ok _ ↦ elim tx_bound [
          | err e ↦ (err e, result, record g { machine = set_state error m3 })
          | ok _ ↦ on_answer rc result (record g { machine = m3 })
        ]
      ]

  -- The loop of `retry_retained`, with the attempts that are left.
  unfoldable pub retry_loop : ℕ → RxResult → Rig W → Status × RxResult × Rig W
  retry_loop zero rx_result g = (err timeout, rx_result, g)
  retry_loop (suc left) rx_result g =
      let (rc, result, g') = forward_retained_once rx_result g in
      let rest = retry_loop left result g' in
      elim rc [
        | err e ↦ (err e, result, g')
        | ok retry_same_packet ↦ elim retry_same_packet [
          | true ↦ rest
          | false ↦ (ok tt, result, g')
        ]
      ]

  unfoldable pub retry_retained : RxResult → Rig W → Status × RxResult × Rig W
  retry_retained rx_result g =
      if not g.bridge.retained_valid
      then (err state, rx_result, g)
      else if not (is_active g.machine.manager.state)
      then (err state, rx_result, g)
      else if g.bridge.retained_sequence /= g.machine.manager.next_sequence
      then (err transaction, rx_result, g)
      else retry_loop (link_max_retries + 1) rx_result g

  -- `send_sample` on what `telemetry_tx_sample` has returned.
  unfoldable pub retain_and_forward : TelemetryResult → RxResult → Rig W → Status × RxResult × Rig W
  retain_and_forward tx_result rx_result g =
      if tx_result.packet_len /= stp_retained_bytes
        || tx_result.sequence /= g.machine.manager.next_sequence
      then (err transaction, rx_result, g)
      else retry_retained rx_result (record g {
        bridge = record g.bridge {
          retained_valid = true;
          retained_sequence = tx_result.sequence;
          retained_packet = tx_result.packet;
        };
      })

  -- fpst_pair_bridge_send_sample; `tx_result` is what its local variable holds at first.
  unfoldable pub send_sample :
      List ℕ → TelemetryResult → RxResult → Rig W → Status × RxResult × Rig W
  send_sample sample tx_result rx_result g =
      let (bound, m1) = bind_tx g.bridge g.machine in
      let (rc, m2) = on m1.manager.link (telemetry_tx_sample sample tx_result) m1 in
      if not (is_active g.machine.manager.state)
      then (err state, rx_result, g)
      else if g.bridge.retained_valid
      then (err busy, rx_result, g)
      else elim bound [
        | err e ↦ (err e, rx_result, record g { machine = m1 })
        | ok _ ↦ elim rc [
          | err e ↦ (err e, rx_result, record g { machine = m2 })
          | ok sent ↦ retain_and_forward sent rx_result (record g { machine = m2 })
        ]
      ]
