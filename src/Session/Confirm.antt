-- ===== src/Session/Confirm.antt =====
-- src/fpst_session.c: a pair is established only when both endpoints have confirmed it.
use fpga_pqc_secure_telemetr.Base.{ℕ, ◌≡◌, true, List, arith, ◌==◌, if-cases}
use fpga_pqc_secure_telemetr.Result.{
  Result, Error, Status, ok, err, branch-cases, continue-cases, ◌>>=◌,
}
use fpga_pqc_secure_telemetr.Primer1
use fpga_pqc_secure_telemetr.Primer2
use fpga_pqc_secure_telemetr.Session.{
  LinkRef, Machine, on, matched, judge, confirm_pair, load_pair, finish_pair, establish,
  establish_pair, wipe_pair, first_error, wiped,
}

-- Both endpoints hold a valid key and an active session under this number, from sequence 0.
pub record Confirmed (session_id : ℕ) (tx : Primer1.KeyStatus) (rx : Primer2.KeyStatus)
    : Type 0 where
  pub tx_key : tx.key_valid ≡ true
  pub tx_active : tx.session_active ≡ true
  pub rx_key : rx.key_valid ≡ true
  pub rx_active : rx.session_active ≡ true
  pub tx_session : tx.session_id ≡ session_id
  pub rx_session : rx.session_id ≡ session_id
  pub tx_start : tx.tx_sequence ≡ 0
  pub rx_start : rx.expected_sequence ≡ 0

matched-Confirmed :
    (session_id : ℕ) (tx : Primer1.KeyStatus) (rx : Primer2.KeyStatus)
    → matched session_id tx rx ≡ true
    → Confirmed session_id tx rx
unfolding matched
matched-Confirmed session_id tx rx h = record {
  tx_key = ground arith;
  tx_active = ground arith;
  rx_key = ground arith;
  rx_active = ground arith;
  tx_session = ground arith;
  rx_session = ground arith;
  tx_start = ground arith;
  rx_start = ground arith;
}

module _ {W : Type 0} where
  -- The two KEY_STATUS queries from the state `u` have given answers that agree.
  pub record Agreed (primer2_link : LinkRef) (session_id : ℕ) (u : Machine W) : Type 0 where
    pub tx : Primer1.KeyStatus
    pub rx : Primer2.KeyStatus
    pub tx_answer : (on u.manager.link Primer1.key_status u).0 ≡ ok tx
    pub rx_answer :
        (on primer2_link Primer2.key_status (on u.manager.link Primer1.key_status u).1).0 ≡ ok rx
    pub confirmed : Confirmed session_id tx rx

  abbrev Asked : LinkRef → ℕ → Machine W → Result (Unit {0}) × Machine W → Type 0
  Asked primer2_link session_id u (rc, t) = rc ≡ ok tt → Agreed primer2_link session_id u

  confirm_pair-Asked :
      (primer2_link : LinkRef) (session_id : ℕ) (u : Machine W)
      → Asked primer2_link session_id u (confirm_pair primer2_link session_id u)
  unfolding confirm_pair judge
  confirm_pair-Asked primer2_link session_id u =
      let P = Asked primer2_link session_id u in
      let v = (on u.manager.link Primer1.key_status u).1 in
      continue-cases P (on u.manager.link Primer1.key_status u).0
        (λ tx. on primer2_link Primer2.key_status >>= judge session_id tx) v
        (λ tx tx_answer.
          continue-cases P (on primer2_link Primer2.key_status v).0 (judge session_id tx)
            (on primer2_link Primer2.key_status v).1
            (λ rx rx_answer accepted. record {
              tx = tx;
              rx = rx;
              tx_answer = tx_answer;
              rx_answer = rx_answer;
              confirmed = matched-Confirmed session_id tx rx (ground arith);
            })
            (λ e _ h. cc h))
        (λ e _ h. cc h)

  -- `confirm_pair`, the last step of `establish_pair`, returns OK only if both endpoints answer
  -- KEY_STATUS with a valid key and an active session under this session number, the transmitter
  -- at sequence 0 and the receiver expecting 0.
  pub confirm_pair-Agreed :
      (primer2_link : LinkRef) (session_id : ℕ) (u : Machine W)
      → (confirm_pair primer2_link session_id u).0 ≡ ok tt
      → Agreed primer2_link session_id u
  confirm_pair-Agreed primer2_link session_id u accepted =
      confirm_pair-Asked primer2_link session_id u accepted

  abbrev Somewhere : LinkRef → ℕ → Result (Unit {0}) × Machine W → Type 0
  Somewhere primer2_link session_id (rc, t) =
      rc ≡ ok tt → (u : Machine W) × Agreed primer2_link session_id u

  load_pair-Somewhere :
      (primer2_link : LinkRef) (shared_secret : List ℕ) (session_id : ℕ) (s : Machine W)
      → Somewhere primer2_link session_id (load_pair primer2_link shared_secret session_id s)
  unfolding load_pair
  load_pair-Somewhere primer2_link shared_secret session_id s =
      let established = on primer2_link (Primer2.establish_rx shared_secret session_id) s in
      continue-cases (Somewhere primer2_link session_id) established.0
        (λ _. confirm_pair primer2_link session_id) established.1
        (λ _ _ h. (established.1, confirm_pair-Asked primer2_link session_id established.1 h))
        (λ e _ h. cc h)

  wiped-Somewhere :
      (primer2_link : LinkRef) (session_id : ℕ) (e : Error) (rx_wipe tx_wipe : Status)
      (s : Machine W)
      → Somewhere primer2_link session_id (wiped (err e) rx_wipe tx_wipe s)
  unfolding wiped
  wiped-Somewhere primer2_link session_id e rx_wipe tx_wipe s =
      branch-cases (Somewhere primer2_link session_id) (first_error rx_wipe tx_wipe) _ _
        (λ _ _ h. cc h) (λ _ _ h. cc h)

  finish_pair-Somewhere :
      (primer2_link : LinkRef) (shared_secret : List ℕ) (session_id : ℕ) (s : Machine W)
      → Somewhere primer2_link session_id (finish_pair primer2_link shared_secret session_id s)
  unfolding finish_pair wipe_pair
  finish_pair-Somewhere primer2_link shared_secret session_id s =
      branch-cases (Somewhere primer2_link session_id)
        (load_pair primer2_link shared_secret session_id s).0 _ _
        (λ _ r _. load_pair-Somewhere primer2_link shared_secret session_id s r)
        (λ e _. wiped-Somewhere primer2_link session_id e _ _ _)

  -- `establish_pair` returns OK only after the endpoints have agreed so.
  establish_pair-Agreed :
      (primer2_link : LinkRef) (shared_secret : List ℕ) (session_id : ℕ) (s : Machine W)
      → (establish_pair primer2_link shared_secret session_id s).0 ≡ ok tt
      → (u : Machine W) × Agreed primer2_link session_id u
  unfolding establish_pair
  establish_pair-Agreed primer2_link shared_secret session_id s =
      let P = Somewhere primer2_link session_id in
      let t = establish shared_secret session_id 0 0 s in
      if-cases P (session_id == 0) (λ _ h. cc h)
        (λ _.
          continue-cases P t.0 (λ _. finish_pair primer2_link shared_secret session_id) t.1
            (λ _ _. finish_pair-Somewhere primer2_link shared_secret session_id t.1)
            (λ e _ h. cc h))
