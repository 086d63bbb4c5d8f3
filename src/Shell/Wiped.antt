-- ===== src/Shell/Wiped.antt =====
-- The `zeroize` command, and what is refused behind it.
use fpga_pqc_secure_telemetr.Base.{
  ℕ, ◌≡◌, refl, sym, subst, ◌∙◌, Bool, true, false, Option, none, some, List, take, if-cases, not,
  text_equal, codes, arith,
}
use fpga_pqc_secure_telemetr.Platform.{is_valid}
use fpga_pqc_secure_telemetr.Session.Manager.{IsCleared}
use fpga_pqc_secure_telemetr.Session.Wipe.{zeroize_pair_routed-IsCleared}
use fpga_pqc_secure_telemetr.Shell.{
  Shell, Setup, prints, reset_public_key_input, require_link, require_rng, rng_usable,
  begin_kem_session_command,
}
use fpga_pqc_secure_telemetr.Shell.Command.{wipe_all, handle_zeroize}
use fpga_pqc_secure_telemetr.Shell.Effect.{Blind, print_result-Blind, linked_on}

module _ {W : Type 0} (fw : Setup W) where
  -- Nothing of the old session is left.
  pub record IsWiped (t : Shell W) : Type 0 where
    pub session : IsCleared t.kem.machine.manager
    pub retained : t.bridge.retained_valid ≡ false
    pub generator : t.csprng ≡ record { fill = none }
    pub unseeded : t.rng_initialized ≡ false
    pub input : t.input ≡ reset_public_key_input

  IsWiped-Blind : Blind IsWiped
  IsWiped-Blind s w h = record {
    session = h.session;
    retained = h.retained;
    generator = h.generator;
    unseeded = h.unseeded;
    input = h.input;
  }

  require_link-kept :
      (t : Shell W)
      → ((require_link fw t).1.input ≡ t.input)
        × ((require_link fw t).1.rng_initialized ≡ t.rng_initialized)
  unfolding require_link prints
  require_link-kept t =
      if-cases
        (λ (x : Bool × Shell W). (x.1.input ≡ t.input) × (x.1.rng_initialized ≡ t.rng_initialized))
        t.link_initialized (λ _. (refl, refl)) (λ _. (refl, refl))

  require_rng-refused :
      (t : Shell W)
      → t.rng_initialized ≡ false
      → ((require_rng fw t).0 ≡ false) × ((require_rng fw t).1.input ≡ t.input)
  unfolding require_rng prints
  require_rng-refused t unseeded =
      if-cases (λ (x : Bool × Shell W). (x.0 ≡ false) × (x.1.input ≡ t.input)) (rng_usable fw t)
        (λ usable. ground (arith, usable, unseeded)) (λ _. (refl, refl))

  -- No key is asked for.
  abbrev pub Refused : Shell W → Option (Shell W) → Type 0
  Refused t none = Unit
  Refused t (some u) = u.input ≡ t.input

  begin-Refused :
      (line : List ℕ) (t : Shell W)
      → t.rng_initialized ≡ false
      → Refused t (begin_kem_session_command fw line t)
  unfolding begin_kem_session_command
  begin-Refused line t unseeded =
      let (same, rng) = require_link-kept t in
      let (closed, kept) = require_rng-refused (require_link fw t).1 (rng ∙ unseeded) in
      let Same : Shell W → Type 0 = λ u. u.input ≡ t.input in
      if-cases (Refused t) (not (text_equal (take 12 line) (codes "kem-session "))) (λ _. tt)
        (λ _.
          if-cases Same (not (require_link fw t).0) (λ _. same)
            (λ _.
              if-cases Same (not (require_rng fw (require_link fw t).1).0) (λ _. kept ∙ same)
                (λ open_. absurd (cc (open_, closed)))))

  after_zeroize :
      (s : Shell W)
      → is_valid fw.platform_p1 ≡ true
      → is_valid fw.platform_p2 ≡ true
      → s.link_initialized ≡ true
      → IsWiped (handle_zeroize fw s)
  unfolding handle_zeroize wipe_all
  after_zeroize s v1 v2 on =
      let (rc, t) = wipe_all fw s in
      let wiped : IsWiped t = record {
        session = zeroize_pair_routed-IsCleared fw.platform_p1 fw.platform_p2 s.kem.machine v1 v2;
        retained = refl;
        generator = refl;
        unseeded = refl;
        input = refl;
      } in
      subst IsWiped (sym (linked_on fw _ s on))
        (print_result-Blind fw IsWiped IsWiped-Blind rc t wiped)

  -- The `zeroize` command with an initialised link and two usable platforms, whatever the
  -- endpoints answer: the session is cleared, no packet is retained, the generator is unbound and
  -- counts as not ready, the key input is wiped, and a `kem-session` line behind it asks for no
  -- key.
  pub handle_zeroize-IsWiped :
      (s : Shell W)
      → is_valid fw.platform_p1 ≡ true
      → is_valid fw.platform_p2 ≡ true
      → s.link_initialized ≡ true
      → IsWiped (handle_zeroize fw s)
        × ((line : List ℕ)
            → Refused
                (handle_zeroize fw s)
                (begin_kem_session_command fw line (handle_zeroize fw s)))
  handle_zeroize-IsWiped s v1 v2 on =
      let wiped = after_zeroize s v1 v2 on in
      (wiped, λ line. begin-Refused line (handle_zeroize fw s) wiped.unseeded)
