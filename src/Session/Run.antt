-- ===== src/Session/Run.antt =====
-- src/fpst_session.c: the manager over any sequence of calls.
use fpga_pqc_secure_telemetr.Base.{
  ℕ, refl, ap, List, [], ◌∷◌, arith, inl, inr, Bool-cases, ◌||◌, not, ◌==◌,
}
use fpga_pqc_secure_telemetr.Result.{Result}
use fpga_pqc_secure_telemetr.Platform.{Platform, is_valid}
use fpga_pqc_secure_telemetr.Session.{
  LinkRef, Machine, init, zeroize, establish, commit_tx, reconcile_tx, establish_pair,
  establish_pair_routed, zeroize_pair, zeroize_pair_routed,
}
use fpga_pqc_secure_telemetr.Session.Manager.{
  IsManager, establish_lem, commit_tx_lem, reconcile_tx_lem, IsCleared-IsManager, IsManager-active,
  IsManager-error, IsManager-next,
}
use fpga_pqc_secure_telemetr.Session.Pair.{
  Paired, establish_pair-fail_closed, establish_pair_routed-fail_closed,
}
use fpga_pqc_secure_telemetr.Session.Wipe.{
  zeroize-IsManager, zeroize_pair-IsManager, zeroize_pair_routed-IsManager,
}

-- A call of the session's interface, with its arguments.
pub data Call (W : Type 0) : Type 0 where
  call_init : LinkRef → Call W
  call_establish : List ℕ → ℕ → ℕ → ℕ → Call W
  call_establish_pair : LinkRef → List ℕ → ℕ → Call W
  call_establish_pair_routed : Platform W → Platform W → List ℕ → ℕ → Call W
  call_commit_tx : ℕ → Call W
  call_reconcile_tx : ℕ → Call W
  call_zeroize : Call W
  call_zeroize_pair : LinkRef → Call W
  call_zeroize_pair_routed : Platform W → Platform W → Call W

module _ {W : Type 0} where
  -- The machine after a call.
  unfoldable pub perform : Call W → Machine W → Machine W
  perform (call_init ref) s = (init ref s).1
  perform (call_establish secret id initial flags) s = (establish secret id initial flags s).1
  perform (call_establish_pair ref secret id) s = (establish_pair ref secret id s).1
  perform (call_establish_pair_routed p1 p2 secret id) s =
      (establish_pair_routed p1 p2 secret id s).1
  perform (call_commit_tx sequence) s = (commit_tx sequence s).1
  perform (call_reconcile_tx expected) s = (reconcile_tx expected s).1
  perform call_zeroize s = (zeroize s).1
  perform (call_zeroize_pair ref) s = (zeroize_pair ref s).1
  perform (call_zeroize_pair_routed p1 p2) s = (zeroize_pair_routed p1 p2 s).1

  unfoldable pub run : List (Call W) → Machine W → Machine W
  run [] s = s
  run (c ∷ cs) s = run cs (perform c s)

  establish-IsManager :
      (secret : List ℕ) (id initial flags : ℕ) (s : Machine W)
      → IsManager s.manager
      → IsManager (establish secret id initial flags s).1.manager
  establish-IsManager secret id initial flags s v = elim (establish_lem secret id initial flags s) [
    | inl (_, same, _) ↦ rw (ap (λ (x : Machine W). x.manager) same) v
    | inr (inl (_, same, _)) ↦ rw (ap (λ (x : Machine W). x.manager) same) v
    | inr (inr (inl (_, m, nonzero))) ↦ rw m (IsManager-active s.manager nonzero)
    | inr (inr (inr (_, _, m))) ↦ rw m (
        IsCleared-IsManager
          (record { session_id = refl; next_sequence = refl; inactive = inr refl }))
  ]

  Paired-IsManager :
      {R : Type 0} {id : ℕ} (s : Machine W) (x : Result (Unit {0}) × Machine W)
      → Paired R id s x
      → IsManager s.manager
      → IsManager x.1.manager
  Paired-IsManager s x (inl (_, _, m)) v = rw m v
  Paired-IsManager s x (inr (inl (_, m, nonzero))) v = rw m (IsManager-active s.manager nonzero)
  Paired-IsManager s x (inr (inr (_, c))) v = IsCleared-IsManager c

  commit-IsManager :
      (sequence : ℕ) (s : Machine W)
      → IsManager s.manager
      → IsManager (commit_tx sequence s).1.manager
  commit-IsManager sequence s v = elim (commit_tx_lem sequence s) [
    | inl (_, running, _, m) ↦ rw m (IsManager-next v running)
    | inr (_, _, m) ↦ rw m v
  ]

  reconcile-IsManager :
      (expected : ℕ) (s : Machine W)
      → IsManager s.manager
      → IsManager (reconcile_tx expected s).1.manager
  reconcile-IsManager expected s v = elim (reconcile_tx_lem expected s) [
    | inl (_, _, same, _) ↦ rw (ap (λ (x : Machine W). x.manager) same) v
    | inr (inl (_, _, running, m)) ↦ rw m (IsManager-next v running)
    | inr (inr (_, _, inl m)) ↦ rw m v
    | inr (inr (_, _, inr m)) ↦ rw m (IsManager-error v)
  ]

  establish_pair-IsManager :
      (ref : LinkRef) (secret : List ℕ) (id : ℕ) (s : Machine W)
      → IsManager s.manager
      → IsManager (establish_pair ref secret id s).1.manager
  unfolding establish_pair
  establish_pair-IsManager ref secret id s v = elim (Bool-cases (id == 0)) [
    | inl a ↦ rw a v
    | inr a ↦
        Paired-IsManager s (establish_pair ref secret id s)
          (establish_pair-fail_closed ref secret id s (ground arith)) v
  ]

  establish_pair_routed-IsManager :
      (p1 p2 : Platform W) (secret : List ℕ) (id : ℕ) (s : Machine W)
      → IsManager s.manager
      → IsManager (establish_pair_routed p1 p2 secret id s).1.manager
  unfolding establish_pair_routed
  establish_pair_routed-IsManager p1 p2 secret id s v =
      elim (Bool-cases (not (is_valid p1) || (not (is_valid p2) || id == 0))) [
        | inl a ↦ rw a v
        | inr a ↦
            Paired-IsManager s (establish_pair_routed p1 p2 secret id s)
              (establish_pair_routed-fail_closed p1 p2 secret id s (ground arith) (ground arith)
                (ground arith))
              v
      ]

  -- Every call of the session's interface keeps the manager well formed: not left in STAGING; in
  -- NO_KEY only with session number and sequence 0; ACTIVE only with a session number; the sequence
  -- a 64-bit word.
  pub perform-IsManager :
      (c : Call W) (s : Machine W) → IsManager s.manager → IsManager (perform c s).manager
  unfolding perform init
  perform-IsManager (call_init ref) s v =
      IsCleared-IsManager (record { session_id = refl; next_sequence = refl; inactive = inl refl })
  perform-IsManager (call_establish secret id initial flags) s v =
      establish-IsManager secret id initial flags s v
  perform-IsManager (call_establish_pair ref secret id) s v =
      establish_pair-IsManager ref secret id s v
  perform-IsManager (call_establish_pair_routed p1 p2 secret id) s v =
      establish_pair_routed-IsManager p1 p2 secret id s v
  perform-IsManager (call_commit_tx sequence) s v = commit-IsManager sequence s v
  perform-IsManager (call_reconcile_tx expected) s v = reconcile-IsManager expected s v
  perform-IsManager call_zeroize s v = zeroize-IsManager s
  perform-IsManager (call_zeroize_pair ref) s v = zeroize_pair-IsManager ref s
  perform-IsManager (call_zeroize_pair_routed p1 p2) s v = zeroize_pair_routed-IsManager p1 p2 s v

  run_from :
      (cs : List (Call W)) (s : Machine W) → IsManager s.manager → IsManager (run cs s).manager
  unfolding run
  run_from [] s v = v
  run_from (c ∷ cs) s v = run_from cs (perform c s) (perform-IsManager c s v)

  -- After `init` and any list of calls of the session's interface, whatever the endpoints answer,
  -- the manager is well formed: not in STAGING; in NO_KEY only with session number and sequence 0;
  -- ACTIVE only with a session number other than 0; the sequence below 2 ^ 64.
  pub run-IsManager :
      (ref : LinkRef) (cs : List (Call W)) (s : Machine W)
      → IsManager (run cs (init ref s).1).manager
  run-IsManager ref cs s = run_from cs (init ref s).1 (
      unfold init in
      IsCleared-IsManager (record { session_id = refl; next_sequence = refl; inactive = inl refl }))
