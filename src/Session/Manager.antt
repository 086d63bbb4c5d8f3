-- ===== src/Session/Manager.antt =====
-- src/fpst_session.c: the manager's state machine.
use fpga_pqc_secure_telemetr.Base.{
  ℕ, ◌+◌, ◌%◌, ◌^◌, ◌<◌, ◌≡◌, ◌≢◌, refl, Bool, true, false, List, arith, Bool-cases, if-cases,
  ==→eq, not, ◌==◌, ◌/=◌, ◌||◌, ◌⊎◌, inl, inr,
}
use fpga_pqc_secure_telemetr.Result.{
  Result, Error, ok, err, branch-cases, argument, busy, state, transaction,
}
use fpga_pqc_secure_telemetr.Primer1.{commit_retained_sequence}
use fpga_pqc_secure_telemetr.Session.{
  SessionState, no_key, staging, active, error, SessionManager, Machine, is_staging, is_active, on,
  zeroize, abort_tx, load_and_activate, establish, commit_tx, reconcile_tx,
}

-- What holds of a manager between two calls.
pub record IsManager (m : SessionManager) : Type 0 where
  pub idle : m.state ≡ no_key → (m.session_id ≡ 0) × (m.next_sequence ≡ 0)
  pub settled : m.state ≢ staging
  pub keyed : m.state ≡ active → m.session_id ≢ 0
  pub word : m.next_sequence < 2 ^ 64

is_staging-staging : (x : SessionState) → is_staging x ≡ true → x ≡ staging
is_staging-staging x h = ground arith

is_active-active : (x : SessionState) → not (is_active x) ≡ false → x ≡ active
is_active-active x h = ground arith

module _ {W : Type 0} where
  -- `zeroize` clears the session number and the sequence and keeps the link pointer, whatever the
  -- endpoint answers; the manager is in NO_KEY with OK when the endpoint has confirmed the wipe,
  -- and in ERROR with an error otherwise.
  pub zeroize_lem :
      (s : Machine W)
      → ((zeroize s).1.manager.session_id ≡ 0)
        × ((zeroize s).1.manager.next_sequence ≡ 0)
        × ((zeroize s).1.manager.link ≡ s.manager.link)
        × (((zeroize s).0 ≡ ok tt) × ((zeroize s).1.manager.state ≡ no_key)
            ⊎ ((e : Error) × ((zeroize s).0 ≡ err e) × ((zeroize s).1.manager.state ≡ error)))
  unfolding zeroize
  zeroize_lem s = ground arith

  -- What `load_and_activate` leaves in the manager.
  load-cases :
      (shared_secret : List ℕ) (session_id : ℕ) (s : Machine W)
      → ((load_and_activate shared_secret session_id s).0 ≡ ok tt)
          × ((load_and_activate shared_secret session_id s).1.manager
              ≡ record s.manager { state = active; session_id = session_id; next_sequence = 0 })
        ⊎ ((e : Error) × ((load_and_activate shared_secret session_id s).0 ≡ err e)
            × ((load_and_activate shared_secret session_id s).1.manager
                ≡ record s.manager { state = error; session_id = 0; next_sequence = 0 }))
  unfolding load_and_activate abort_tx zeroize
  load-cases shared_secret session_id s = ground arith

  -- How `establish` may end, from the state `s`.
  abbrev pub Established : ℕ → ℕ → ℕ → Machine W → Result (Unit {0}) × Machine W → Type 0
  Established session_id initial_sequence policy_flags s (rc, t) =
      (rc ≡ err argument)
        × (t ≡ s)
        × ((session_id ≡ 0) ⊎ (initial_sequence ≢ 0) ⊎ (policy_flags ≢ 0))
      ⊎ (rc ≡ err busy) × (t ≡ s) × (s.manager.state ≡ staging)
      ⊎ (rc ≡ ok tt)
        × (t.manager
            ≡ record s.manager { state = active; session_id = session_id; next_sequence = 0 })
        × (session_id ≢ 0)
      ⊎ ((e : Error) × (rc ≡ err e)
          × (t.manager ≡ record s.manager { state = error; session_id = 0; next_sequence = 0 }))

  -- `establish` returns ARGUMENT or BUSY with nothing changed (a wrong argument; a key load under
  -- way), or OK with the session ACTIVE from sequence 0 under a number other than 0, or another
  -- error with the manager in ERROR, session number and sequence 0.
  pub establish_lem :
      (shared_secret : List ℕ) (session_id initial_sequence policy_flags : ℕ) (s : Machine W)
      → Established session_id initial_sequence policy_flags s
          (establish shared_secret session_id initial_sequence policy_flags s)
  unfolding establish
  establish_lem shared_secret session_id initial_sequence policy_flags s =
      elim (Bool-cases (session_id == 0 || (initial_sequence /= 0 || policy_flags /= 0))) [
        | inl a ↦ rw a (inl (refl, refl, ground arith))
        | inr a ↦ elim (Bool-cases (is_staging s.manager.state)) [
          | inl b ↦ rw (a, b) (inr (inl (refl, refl, is_staging-staging s.manager.state b)))
          | inr b ↦
              rw (a, b)
                (elim (load-cases shared_secret session_id s) [
                  | inl (h, m) ↦ inr (inr (inl (h, m, ground arith)))
                  | inr failed ↦ inr (inr (inr failed))
                ])
        ]
      ]

  -- How `commit_tx` and `reconcile_tx` may end, from the state `s`.
  abbrev pub Committed : ℕ → Machine W → Result (Unit {0}) × Machine W → Type 0
  Committed committed_sequence s (rc, t) =
      (rc ≡ ok tt)
        × (s.manager.state ≡ active)
        × (committed_sequence ≡ s.manager.next_sequence)
        × (t.manager ≡ record s.manager { next_sequence = (s.manager.next_sequence + 1) % 2 ^ 64 })
      ⊎ ((e : Error) × (rc ≡ err e) × (t.manager ≡ s.manager))

  abbrev pub Reconciled : ℕ → Machine W → Result Bool × Machine W → Type 0
  Reconciled expected s (rc, t) =
      (rc ≡ ok true) × (expected ≡ s.manager.next_sequence) × (t ≡ s) × (s.manager.state ≡ active)
      ⊎ (rc ≡ ok false)
        × (expected ≡ (s.manager.next_sequence + 1) % 2 ^ 64)
        × (s.manager.state ≡ active)
        × (t.manager ≡ record s.manager { next_sequence = (s.manager.next_sequence + 1) % 2 ^ 64 })
      ⊎ ((e : Error) × (rc ≡ err e)
          × ((t.manager ≡ s.manager) ⊎ (t.manager ≡ record s.manager { state = error })))

  -- `commit_tx` returns OK only for the current sequence of an ACTIVE session, and then advances
  -- the sequence by one modulo 2 ^ 64 and leaves the rest of the manager; on an error the manager
  -- is as it was.
  pub commit_tx_lem :
      (committed_sequence : ℕ) (s : Machine W)
      → Committed committed_sequence s (commit_tx committed_sequence s)
  unfolding commit_tx
  commit_tx_lem committed_sequence s =
      if-cases (Committed committed_sequence s) (not (is_active s.manager.state))
        (λ _. inr (state, refl, refl))
        (λ a.
          if-cases (Committed committed_sequence s) (committed_sequence /= s.manager.next_sequence)
            (λ _. inr (transaction, refl, refl))
            (λ b.
              branch-cases (Committed committed_sequence s)
                (on s.manager.link (commit_retained_sequence committed_sequence) s).0 _ _
                (λ _ _. inl (refl, is_active-active s.manager.state a, ground arith, refl))
                (λ e _. inr (e, refl, refl))))

  -- `reconcile_tx` asks for a resend only if the receiver expects the current sequence of an
  -- ACTIVE session, and changes nothing then; it returns OK without a resend only if the receiver
  -- expects the next one modulo 2 ^ 64, and then the sequence has advanced by one; on an error the
  -- manager is as it was, except that its state may be ERROR.
  pub reconcile_tx_lem :
      (expected : ℕ) (s : Machine W) → Reconciled expected s (reconcile_tx expected s)
  unfolding reconcile_tx
  reconcile_tx_lem expected s =
      let current = s.manager.next_sequence in
      if-cases (Reconciled expected s) (not (is_active s.manager.state))
        (λ _. inr (inr (state, refl, inl refl)))
        (λ a.
          let running = is_active-active s.manager.state a in
          if-cases (Reconciled expected s) (expected == current)
            (λ b. inl (refl, ==→eq expected current b, refl, running))
            (λ b.
              if-cases (Reconciled expected s) (expected == (current + 1) % 2 ^ 64)
                (λ c.
                  branch-cases (Reconciled expected s) (commit_tx current s).0 _ _
                    (λ _ h. elim (commit_tx_lem current s) [
                      | inl (_, _, _, m) ↦
                          inr (inl (refl, ==→eq expected ((current + 1) % 2 ^ 64) c, running, m))
                      | inr (e, g, _) ↦ cc (h, g)
                    ])
                    (λ e h. elim (commit_tx_lem current s) [
                      | inl (g, _, _, _) ↦ cc (h, g)
                      | inr (_, _, m) ↦ inr (inr (e, refl, inl m))
                    ]))
                (λ c. inr (inr (transaction, refl, inr refl)))))

-- A manager without a session: what a wipe leaves.
pub record IsCleared (m : SessionManager) : Type 0 where
  pub session_id : m.session_id ≡ 0
  pub next_sequence : m.next_sequence ≡ 0
  pub inactive : (m.state ≡ no_key) ⊎ (m.state ≡ error)

pub IsCleared-IsManager : {m : SessionManager} → IsCleared m → IsManager m
IsCleared-IsManager c = record {
  idle = λ _. (c.session_id, c.next_sequence);
  settled = λ h. ground (arith, c.inactive);
  keyed = λ h. ground (arith, c.inactive);
  word = rw c.next_sequence (ground arith);
}

pub IsManager-active :
    (m : SessionManager) {session_id : ℕ}
    → session_id ≢ 0
    → IsManager (record m { state = active; session_id = session_id; next_sequence = 0 })
IsManager-active m h = record {
  idle = λ g. ground arith;
  settled = λ g. ground arith;
  keyed = λ g. h;
  word = ground arith;
}

pub IsManager-error : {m : SessionManager} → IsManager m → IsManager (record m { state = error })
IsManager-error v = record {
  idle = λ g. ground arith;
  settled = λ g. ground arith;
  keyed = λ g. ground arith;
  word = v.word;
}

pub IsManager-next :
    {m : SessionManager}
    → IsManager m
    → m.state ≡ active
    → IsManager (record m { next_sequence = (m.next_sequence + 1) % 2 ^ 64 })
IsManager-next v h = record {
  idle = λ g. ground arith;
  settled = λ g. v.settled g;
  keyed = λ g. v.keyed g;
  word = ground arith;
}
