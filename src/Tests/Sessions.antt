-- ===== src/Tests/Sessions.antt =====
-- Sessions and the bridge on the board, whose endpoints answer with zeros.
use fpga_pqc_secure_telemetr.Base.{
  ◌+◌, ◌%◌, ◌^◌, ℕ, ◌≡◌, refl, true, false, List, [], ◌∷◌, arith, replicate,
}
use fpga_pqc_secure_telemetr.Platform.{is_valid}
use fpga_pqc_secure_telemetr.Primer1.{TelemetryResult}
use fpga_pqc_secure_telemetr.Primer2.{rx_empty}
use fpga_pqc_secure_telemetr.Session.{
  cell_a, cell_b, no_key, staging, active, SessionManager, Machine, init, establish, commit_tx,
  reconcile_tx, establish_pair_routed,
}
use fpga_pqc_secure_telemetr.Session.Manager.{
  IsManager, Established, Committed, Reconciled, establish_lem, commit_tx_lem, reconcile_tx_lem,
}
use fpga_pqc_secure_telemetr.Session.Pair.{Paired, establish_pair_routed-fail_closed}
use fpga_pqc_secure_telemetr.Session.Run.{
  run, run-IsManager, call_establish_pair, call_commit_tx, call_zeroize,
}
use fpga_pqc_secure_telemetr.PairBridge.{Rig, retry_retained, send_sample}
use fpga_pqc_secure_telemetr.PairBridge.Delivery.{
  Delivered, Offered, retry_retained-Delivered, send_sample-Offered,
}
use fpga_pqc_secure_telemetr.PairBridge.StopAndWait.{Steps, successes}
use fpga_pqc_secure_telemetr.PairBridge.Sender
use fpga_pqc_secure_telemetr.PairBridge.Sender.{Call, call_send, call_retry, view, run-Steps}
use fpga_pqc_secure_telemetr.Tests.Board.{Board, board, link}

abbrev machine : SessionManager → Machine Board
machine manager = record {
  manager = manager;
  link_a = link;
  link_b = link;
  world = record { now = 0; replies = [] };
}

abbrev fresh : Machine Board
fresh = machine (record { state = no_key; session_id = 0; next_sequence = 0; link = cell_a })

abbrev running : Machine Board
running = machine (record { state = active; session_id = 7; next_sequence = 4; link = cell_a })

abbrev secret : List ℕ
secret = replicate 32 9

abbrev rig : Rig Board
rig = record {
  bridge = record {
    rx_link = cell_b;
    tx_platform = board;
    rx_platform = board;
    routed_shared_link = false;
    retained_valid = true;
    retained_sequence = 4;
    retained_packet = replicate 64 1;
  };
  machine = running;
}

abbrev no_result : TelemetryResult
no_result = record { sequence = 0; packet_len = 0; packet = [] }

board-is_valid : is_valid board ≡ true
unfolding is_valid
board-is_valid = refl

establish_lem_example : Established 7 0 0 fresh (establish secret 7 0 0 fresh)
establish_lem_example = establish_lem secret 7 0 0 fresh

commit_tx_lem_example : Committed 4 running (commit_tx 4 running)
commit_tx_lem_example = commit_tx_lem 4 running

reconcile_tx_lem_example : Reconciled 5 running (reconcile_tx 5 running)
reconcile_tx_lem_example = reconcile_tx_lem 5 running

establish_pair_routed-fail_closed_example :
    Paired (no_key ≡ staging) 7 fresh (establish_pair_routed board board secret 7 fresh)
establish_pair_routed-fail_closed_example =
    establish_pair_routed-fail_closed board board secret 7 fresh board-is_valid board-is_valid
      (ground arith)

run-IsManager_example :
    IsManager
      (run
        (call_establish_pair cell_b secret 7 ∷ call_commit_tx 0 ∷ call_zeroize ∷ [])
        (init cell_a running).1).manager
run-IsManager_example =
    run-IsManager cell_a
      (call_establish_pair cell_b secret 7 ∷ call_commit_tx 0 ∷ call_zeroize ∷ []) running

retry_retained-Delivered_example : Delivered rig (retry_retained rx_empty rig)
retry_retained-Delivered_example = retry_retained-Delivered rx_empty rig

send_sample-Offered_example : Offered rig (send_sample (replicate 24 3) no_result rx_empty rig)
send_sample-Offered_example = send_sample-Offered (replicate 24 3) no_result rx_empty rig

abbrev calls : List Call
calls = call_retry rx_empty ∷ call_send (replicate 24 3) no_result rx_empty ∷ []

run-Steps_example :
    Steps (view rig) (Sender.run calls rig).0 (view (Sender.run calls rig).1)
    × ((Sender.run calls rig).1.machine.manager.next_sequence
        ≡ (4 + successes (Sender.run calls rig).0) % 2 ^ 64)
run-Steps_example = run-Steps calls rig (omega arith)
