-- ===== src/Session/Pair.antt =====
-- src/fpst_session.c: the functions over both endpoints, as the manager sees them.
use fpga_pqc_secure_telemetr.Base.{
  ℕ, ◌≡◌, ◌≢◌, refl, ap, ◌∙◌, true, List, arith, if-cases, ◌==◌, ==→eq, ◌||◌, not, ◌⊎◌, inl, inr,
}
use fpga_pqc_secure_telemetr.Result.{
  Result, Exec, Status, Error, ok, err, branch-cases, continue-cases, ◌>>=◌, ◌>>◌,
}
use fpga_pqc_secure_telemetr.Platform.{Platform, is_valid}
use fpga_pqc_secure_telemetr.Link.{rebind}
use fpga_pqc_secure_telemetr.Primer1
use fpga_pqc_secure_telemetr.Primer2
use fpga_pqc_secure_telemetr.Session.{
  staging, active, error, LinkRef, SessionManager, Machine, on, zeroize, wiped, wipe_pair,
  confirm_pair, finish_pair, judge, load_pair, load_pair_routed, establish, establish_pair,
  wipe_pair_routed, first_error, finish_pair_routed, establish_pair_routed, confirm_routed,
}
use fpga_pqc_secure_telemetr.Session.Manager.{IsCleared, establish_lem, zeroize_lem}

pub IsCleared-error : {m : SessionManager} → IsCleared m → IsCleared (record m { state = error })
IsCleared-error c = record {
  session_id = c.session_id;
  next_sequence = c.next_sequence;
  inactive = inr refl;
}

module _ {W : Type 0} where
  -- A call on a link object leaves the manager alone.
  abbrev Kept : {A : Type 0} → Machine W → Result A × Machine W → Type 0
  Kept s (rc, t) = t.manager ≡ s.manager

  pub IsCleared-zeroize : (s : Machine W) → IsCleared (zeroize s).1.manager
  IsCleared-zeroize s =
      let (id, sequence, _, end) = zeroize_lem s in
      record {
        session_id = id;
        next_sequence = sequence;
        inactive = elim end [ inl (_, h) ↦ inl h | inr (_, _, h) ↦ inr h ];
      }

  -- A function over both endpoints has failed and cleared the session, or has not failed.
  abbrev Closed : Machine W → Result (Unit {0}) × Machine W → Type 0
  Closed s (rc, t) =
      (rc ≡ ok tt) × (t.manager ≡ s.manager) ⊎ ((e : Error) × (rc ≡ err e) × IsCleared t.manager)

  abbrev CellCleared : Result (Unit {0}) × Machine W → Type 0
  CellCleared (rc, t) = IsCleared t.manager

  wiped-Closed :
      (e : Error) (rx_wipe tx_wipe : Status) (s t : Machine W)
      → IsCleared t.manager
      → Closed s (wiped (err e) rx_wipe tx_wipe t)
  unfolding wiped
  wiped-Closed e rx_wipe tx_wipe s t c =
      branch-cases (Closed s) (first_error rx_wipe tx_wipe) _ _ (λ _ _. inr (e, refl, c))
        (λ e' _. inr (e', refl, IsCleared-error c))

  wipe_pair-Closed :
      (e : Error) (primer2_link : LinkRef) (s t : Machine W)
      → Closed s (wipe_pair (err e) primer2_link t)
  unfolding wipe_pair
  wipe_pair-Closed e primer2_link s t =
      wiped-Closed e _ _ s _ (IsCleared-zeroize (on primer2_link (Primer2.zeroize 0) t).1)

  bind-Kept :
      {A B : Type 0} (m : Exec (Machine W) A) (f : A → Exec (Machine W) B) (s : Machine W)
      → Kept s (m s)
      → ((a : A) (t : Machine W) → Kept t (f a t))
      → Kept s ((m >>= f) s)
  bind-Kept m f s first rest =
      continue-cases (Kept s) (m s).0 f (m s).1 (λ a _. rest a (m s).1 ∙ first) (λ _ _. first)

  confirm_pair-Kept :
      (primer2_link : LinkRef) (session_id : ℕ) (s : Machine W)
      → Kept s (confirm_pair primer2_link session_id s)
  unfolding confirm_pair judge
  confirm_pair-Kept primer2_link session_id s =
      bind-Kept (on s.manager.link Primer1.key_status)
        (λ tx_status. on primer2_link Primer2.key_status >>= judge session_id tx_status) s refl
        (λ tx_status t.
          bind-Kept (on primer2_link Primer2.key_status) (judge session_id tx_status) t refl
            (λ _ _. refl))

  load_pair-Kept :
      (primer2_link : LinkRef) (shared_secret : List ℕ) (session_id : ℕ) (s : Machine W)
      → Kept s (load_pair primer2_link shared_secret session_id s)
  unfolding load_pair
  load_pair-Kept primer2_link shared_secret session_id s =
      bind-Kept (on primer2_link (Primer2.establish_rx shared_secret session_id))
        (λ _. confirm_pair primer2_link session_id) s refl
        (λ _ t. confirm_pair-Kept primer2_link session_id t)

  finish_pair-Closed :
      (primer2_link : LinkRef) (shared_secret : List ℕ) (session_id : ℕ) (s : Machine W)
      → Closed s (finish_pair primer2_link shared_secret session_id s)
  unfolding finish_pair
  finish_pair-Closed primer2_link shared_secret session_id s =
      branch-cases (Closed s) (load_pair primer2_link shared_secret session_id s).0 _ _
        (λ _ _. inl (refl, load_pair-Kept primer2_link shared_secret session_id s))
        (λ e _. wipe_pair-Closed e primer2_link s _)

  confirm_routed-Kept :
      (p1 p2 : Platform W) (session_id : ℕ) (s : Machine W)
      → Kept s (confirm_routed p1 p2 session_id s)
  unfolding confirm_routed judge
  confirm_routed-Kept p1 p2 session_id s =
      let link = s.manager.link in
      let ask_rx : Primer1.KeyStatus → Exec (Machine W) (Unit {0}) =
        λ tx. on link (rebind p2) >> (on link Primer2.key_status >>= judge session_id tx) in
      bind-Kept (on link (rebind p1)) (λ _. on link Primer1.key_status >>= ask_rx) s refl
        (λ _ t. bind-Kept (on link Primer1.key_status) ask_rx t refl (λ tx u.
          bind-Kept (on link (rebind p2)) (λ _. on link Primer2.key_status >>= judge session_id tx)
            u refl
            (λ _ v.
              bind-Kept (on link Primer2.key_status) (judge session_id tx) v refl (λ _ _. refl))))

  load_pair_routed-Kept :
      (p1 p2 : Platform W) (shared_secret : List ℕ) (session_id : ℕ) (s : Machine W)
      → Kept s (load_pair_routed p1 p2 shared_secret session_id s)
  unfolding load_pair_routed
  load_pair_routed-Kept p1 p2 shared_secret session_id s =
      bind-Kept (on s.manager.link (rebind p2 >> Primer2.establish_rx shared_secret session_id))
        (λ _. confirm_routed p1 p2 session_id) s refl
        (λ _ t. confirm_routed-Kept p1 p2 session_id t)

  pub rebind-ok :
      (p : Platform W) (ref : LinkRef) (s : Machine W)
      → is_valid p ≡ true
      → (on ref (rebind p) s).0 ≡ ok tt
  unfolding rebind
  rebind-ok p ref s valid = rw valid refl

  -- With two usable platforms the wipe of `fail_pair` reaches both endpoints.
  wipe_pair_routed-Closed :
      (e : Error) (p1 p2 : Platform W) (s t : Machine W)
      → is_valid p1 ≡ true
      → Closed s (wipe_pair_routed (err e) p1 p2 t)
  unfolding wipe_pair_routed
  wipe_pair_routed-Closed e p1 p2 s t valid = wiped-Closed e _ _ s _ (
      branch-cases CellCleared (on t.manager.link (rebind p1) _).0 _ _ (λ _ _. IsCleared-zeroize _)
        (λ e' h. cc (h, rebind-ok p1 t.manager.link _ valid)))

  finish_pair_routed-Closed :
      (p1 p2 : Platform W) (shared_secret : List ℕ) (session_id : ℕ) (s : Machine W)
      → is_valid p1 ≡ true
      → Closed s (finish_pair_routed p1 p2 shared_secret session_id s)
  unfolding finish_pair_routed
  finish_pair_routed-Closed p1 p2 shared_secret session_id s valid =
      branch-cases (Closed s) (load_pair_routed p1 p2 shared_secret session_id s).0 _ _
        (λ _ _. inl (
          rebind-ok p1 s.manager.link _ valid,
          load_pair_routed-Kept p1 p2 shared_secret session_id s,
        ))
        (λ e _. wipe_pair_routed-Closed e p1 p2 s _ valid)

  -- The pair function has refused, for a reason in `R`, before it touched the session; or the
  -- session is active from sequence 0; or it has failed and the session is cleared.
  abbrev pub Paired : Type 0 → ℕ → Machine W → Result (Unit {0}) × Machine W → Type 0
  Paired R session_id s (rc, t) =
      R × ((e : Error) × (rc ≡ err e)) × (t.manager ≡ s.manager)
      ⊎ (rc ≡ ok tt)
        × (t.manager
            ≡ record s.manager { state = active; session_id = session_id; next_sequence = 0 })
        × (session_id ≢ 0)
      ⊎ ((e : Error) × (rc ≡ err e)) × IsCleared t.manager

  establish-Paired :
      (shared_secret : List ℕ) (session_id : ℕ) (finish : Exec (Machine W) (Unit {0}))
      (s : Machine W)
      → session_id ≢ 0
      → ((t : Machine W) → Closed t (finish t))
      → Paired
          (s.manager.state ≡ staging)
          session_id
          s
          ((establish shared_secret session_id 0 0 >> finish) s)
  establish-Paired shared_secret session_id finish s nonzero closed =
      let t = (establish shared_secret session_id 0 0 s).1 in
      let end = establish_lem shared_secret session_id 0 0 s in
      continue-cases (Paired (s.manager.state ≡ staging) session_id s)
        (establish shared_secret session_id 0 0 s).0 (λ _. finish) t
        (λ _ h. elim end [
          | inl (g, _, _) ↦ cc (h, g)
          | inr (inl (g, _, _)) ↦ cc (h, g)
          | inr (inr (inl (_, m, _))) ↦ elim (closed t) [
            | inl (g, k) ↦ inr (inl (g, k ∙ m, nonzero))
            | inr (e, g, c) ↦ inr (inr ((e, g), c))
          ]
          | inr (inr (inr (_, g, _))) ↦ cc (h, g)
        ])
        (λ e h. elim end [
          | inl (g, _, why) ↦ ground (arith, why, nonzero)
          | inr (inl (_, same, loading)) ↦
              inl (loading, (e, refl), ap (λ (x : Machine W). x.manager) same)
          | inr (inr (inl (g, _, _))) ↦ cc (h, g)
          | inr (inr (inr (_, _, m))) ↦ inr (
              inr (
                (e, refl),
                rw m (record { session_id = refl; next_sequence = refl; inactive = inr refl }),
              ))
        ])

  -- `establish_pair` with a session number other than 0: it refuses because a key load is under
  -- way and leaves the manager alone, or returns OK with the session ACTIVE under that number from
  -- sequence 0, or returns an error with the session cleared (NO_KEY or ERROR, number and sequence
  -- 0).
  pub establish_pair-fail_closed :
      (primer2_link : LinkRef) (shared_secret : List ℕ) (session_id : ℕ) (s : Machine W)
      → session_id ≢ 0
      → Paired
          (s.manager.state ≡ staging)
          session_id
          s
          (establish_pair primer2_link shared_secret session_id s)
  unfolding establish_pair
  establish_pair-fail_closed primer2_link shared_secret session_id s nonzero =
      if-cases (Paired (s.manager.state ≡ staging) session_id s) (session_id == 0)
        (λ h. elim (nonzero (==→eq session_id 0 h)) [ ])
        (λ _.
          establish-Paired shared_secret session_id
            (finish_pair primer2_link shared_secret session_id) s nonzero
            (finish_pair-Closed primer2_link shared_secret session_id))

  -- `establish_pair_routed` with two usable platforms and a session number other than 0: it
  -- refuses because a key load is under way and leaves the manager alone, or returns OK with the
  -- session ACTIVE under that number from sequence 0, or returns an error with the session cleared
  -- (NO_KEY or ERROR, number and sequence 0).
  pub establish_pair_routed-fail_closed :
      (p1 p2 : Platform W) (shared_secret : List ℕ) (session_id : ℕ) (s : Machine W)
      → is_valid p1 ≡ true
      → is_valid p2 ≡ true
      → session_id ≢ 0
      → Paired
          (s.manager.state ≡ staging)
          session_id
          s
          (establish_pair_routed p1 p2 shared_secret session_id s)
  unfolding establish_pair_routed
  establish_pair_routed-fail_closed p1 p2 shared_secret session_id s v1 v2 nonzero =
      if-cases (Paired (s.manager.state ≡ staging) session_id s)
        (not (is_valid p1) || (not (is_valid p2) || session_id == 0)) (λ h. ground arith)
        (λ _.
          let t = (on s.manager.link (rebind p1) s).1 in
          continue-cases (Paired (s.manager.state ≡ staging) session_id s)
            (on s.manager.link (rebind p1) s).0
            (λ _.
              establish shared_secret session_id 0 0
              >> finish_pair_routed p1 p2 shared_secret session_id)
            t
            (λ _ _.
              establish-Paired shared_secret session_id
                (finish_pair_routed p1 p2 shared_secret session_id) t nonzero
                (λ u. finish_pair_routed-Closed p1 p2 shared_secret session_id u v1))
            (λ e h. cc (h, rebind-ok p1 s.manager.link s v1)))
