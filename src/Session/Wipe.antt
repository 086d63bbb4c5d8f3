-- ===== src/Session/Wipe.antt =====
-- src/fpst_session.c: the wipes of both endpoints clear the session and keep the manager well formed.
use fpga_pqc_secure_telemetr.Base.{◌≡◌, true, arith, if-cases, ◌||◌, not}
use fpga_pqc_secure_telemetr.Result.{Result, Status, ok, branch-cases, continue-cases, ◌>>◌}
use fpga_pqc_secure_telemetr.Platform.{Platform, is_valid}
use fpga_pqc_secure_telemetr.Link.{rebind}
use fpga_pqc_secure_telemetr.Primer2
use fpga_pqc_secure_telemetr.Session.{
  LinkRef, Machine, on, zeroize, wiped, wipe_pair, first_error, zeroize_pair, zeroize_pair_routed,
  restored,
}
use fpga_pqc_secure_telemetr.Session.Manager.{
  IsManager, IsCleared, IsCleared-IsManager, IsManager-error,
}
use fpga_pqc_secure_telemetr.Session.Pair.{IsCleared-error, IsCleared-zeroize, rebind-ok}

module _ {W : Type 0} where
  abbrev CellCleared : Result (Unit {0}) × Machine W → Type 0
  CellCleared (rc, t) = IsCleared t.manager

  -- The wipes of the pair clear the session, whatever the endpoints answer.
  wiped-IsCleared :
      (rc rx_wipe tx_wipe : Status) (s : Machine W)
      → IsCleared s.manager
      → IsCleared (wiped rc rx_wipe tx_wipe s).1.manager
  unfolding wiped
  wiped-IsCleared rc rx_wipe tx_wipe s c =
      branch-cases CellCleared (first_error rx_wipe tx_wipe) _ _ (λ _ _. c)
        (λ _ _. IsCleared-error c)

  pub zeroize_pair-IsCleared :
      (primer2_link : LinkRef) (s : Machine W) → IsCleared (zeroize_pair primer2_link s).1.manager
  unfolding zeroize_pair wipe_pair
  zeroize_pair-IsCleared primer2_link s =
      wiped-IsCleared (ok tt) _ _ _ (IsCleared-zeroize (on primer2_link (Primer2.zeroize 0) s).1)

  restored-IsCleared :
      (rx_rc tx_rc restore_rc : Status) (s : Machine W)
      → IsCleared s.manager
      → IsCleared (restored rx_rc tx_rc restore_rc s).1.manager
  unfolding restored
  restored-IsCleared rx_rc tx_rc restore_rc s c =
      branch-cases CellCleared (first_error rx_rc (first_error tx_rc restore_rc)) _ _ (λ _ _. c)
        (λ _ _. IsCleared-error c)

  pub zeroize_pair_routed-IsCleared :
      (p1 p2 : Platform W) (s : Machine W)
      → is_valid p1 ≡ true
      → is_valid p2 ≡ true
      → IsCleared (zeroize_pair_routed p1 p2 s).1.manager
  unfolding zeroize_pair_routed
  zeroize_pair_routed-IsCleared p1 p2 s v1 v2 =
      let link = s.manager.link in
      let t = ((on link (rebind p2) >> on link (Primer2.zeroize 0)) s).1 in
      let wiped_tx =
        continue-cases CellCleared (on link (rebind p1) t).0 (λ _. zeroize)
          (on link (rebind p1) t).1 (λ _ _. IsCleared-zeroize _)
          (λ e h. cc (h, rebind-ok p1 link t v1)) in
      if-cases CellCleared (not (is_valid p1) || not (is_valid p2)) (λ h. ground (arith, v1, v2, h))
        (λ _. restored-IsCleared _ _ _ _ wiped_tx)

  abbrev Managed : Result (Unit {0}) × Machine W → Type 0
  Managed (rc, t) = IsManager t.manager

  wiped-IsManager :
      (rc rx_wipe tx_wipe : Status) (s : Machine W)
      → IsManager s.manager
      → IsManager (wiped rc rx_wipe tx_wipe s).1.manager
  unfolding wiped
  wiped-IsManager rc rx_wipe tx_wipe s v =
      branch-cases Managed (first_error rx_wipe tx_wipe) _ _ (λ _ _. v) (λ _ _. IsManager-error v)

  pub zeroize-IsManager : (s : Machine W) → IsManager (zeroize s).1.manager
  zeroize-IsManager s = IsCleared-IsManager (IsCleared-zeroize s)

  pub zeroize_pair-IsManager :
      (primer2_link : LinkRef) (s : Machine W) → IsManager (zeroize_pair primer2_link s).1.manager
  unfolding zeroize_pair wipe_pair
  zeroize_pair-IsManager primer2_link s =
      wiped-IsManager (ok tt) _ _ _ (zeroize-IsManager (on primer2_link (Primer2.zeroize 0) s).1)

  restored-IsManager :
      (rx_rc tx_rc restore_rc : Status) (s : Machine W)
      → IsManager s.manager
      → IsManager (restored rx_rc tx_rc restore_rc s).1.manager
  unfolding restored
  restored-IsManager rx_rc tx_rc restore_rc s v =
      branch-cases Managed (first_error rx_rc (first_error tx_rc restore_rc)) _ _ (λ _ _. v)
        (λ _ _. IsManager-error v)

  pub zeroize_pair_routed-IsManager :
      (p1 p2 : Platform W) (s : Machine W)
      → IsManager s.manager
      → IsManager (zeroize_pair_routed p1 p2 s).1.manager
  unfolding zeroize_pair_routed
  zeroize_pair_routed-IsManager p1 p2 s v =
      let link = s.manager.link in
      let t = ((on link (rebind p2) >> on link (Primer2.zeroize 0)) s).1 in
      let kept : IsManager t.manager =
        continue-cases Managed (on link (rebind p2) s).0 (λ _. on link (Primer2.zeroize 0))
          (on link (rebind p2) s).1 (λ _ _. v) (λ _ _. v) in
      let wiped_tx =
        continue-cases Managed (on link (rebind p1) t).0 (λ _. zeroize) (on link (rebind p1) t).1
          (λ _ _. zeroize-IsManager _) (λ _ _. kept) in
      if-cases Managed (not (is_valid p1) || not (is_valid p2)) (λ _. v)
        (λ _. restored-IsManager _ _ _ _ wiped_tx)
