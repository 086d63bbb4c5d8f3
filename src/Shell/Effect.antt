-- ===== src/Shell/Effect.antt =====
-- What every command does around its own work: the test of the link, and the output.
use Prim.Native.String.{String}
use fpga_pqc_secure_telemetr.Base.{
  ℕ, text_equal, codes, ◌≡◌, refl, Bool, true, false, ◌&&◌, List, [], ◌∷◌, if-cases, if◌then◌else◌,
}
use fpga_pqc_secure_telemetr.Result.{Result, Status, Error, ok, err}
use fpga_pqc_secure_telemetr.PairBridge.{is_remote}
use fpga_pqc_secure_telemetr.Shell.{
  Shell, Setup, put_world, prints, print_error, print_result, require_link,
}
use fpga_pqc_secure_telemetr.Shell.Command.{linked, report, dispatch}

-- A pair, for the long ones about all commands.
infixr 3 ◌▸◌
abbrev pub ◌▸◌ : {A B : Type 0} → A → B → A × B
a ▸ b = (a, b)

guarded-cases :
    {A : Type 0} (P : A → Type 0) (b : Bool) (x y : A) (next : A → A)
    → (b ≡ true → P (next x))
    → (b ≡ false → P y)
    → P (
        let (ready, t) : Bool × A = if b then (true, x) else (false, y) in
        let u = next t in if ready then u else t)
guarded-cases P true x y next run refused = run refl
guarded-cases P false x y next run refused = refused refl

-- A predicate that does not look at the world.
abbrev pub Blind : {W : Type 0} → (Shell W → Type 0) → Type 0
Blind {W} P = (s : Shell W) (w : W) → P s → P (put_world w s)

module _ {W : Type 0} (fw : Setup W) (P : Shell W → Type 0) (blind : Blind P) where
  pub prints-Blind : (fs : List (W → W)) (s : Shell W) → P s → P (prints fs s)
  unfolding prints
  prints-Blind fs s h = blind s _ h

  pub print_error-Blind : (e : Error) (s : Shell W) → P s → P (print_error fw e s)
  unfolding print_error
  print_error-Blind e s h =
      if-cases P (is_remote e && s.link_initialized) (λ _. prints-Blind _ s h)
        (λ _. prints-Blind _ s h)

  pub print_result-Blind : (rc : Status) (s : Shell W) → P s → P (print_result fw rc s)
  unfolding print_result
  print_result-Blind (ok _) s h = prints-Blind _ s h
  print_result-Blind (err e) s h = print_error-Blind e s h

  pub report-Blind :
      {A : Type 0} (show : A → List (W → W)) (rc : Result A) (s : Shell W)
      → P s
      → P (report fw show (rc, s))
  report-Blind show (ok a) s h = prints-Blind _ s h
  report-Blind show (err e) s h = print_error-Blind e s h

  pub linked-Blind :
      (next : Shell W → Shell W) (s : Shell W)
      → P s
      → (s.link_initialized ≡ true → P (next s))
      → P (linked fw next s)
  unfolding linked require_link
  linked-Blind next s h run =
      guarded-cases P s.link_initialized s _ next run (λ _. prints-Blind _ s h)

module _ {W : Type 0} (fw : Setup W) where
  pub linked_on :
      (next : Shell W → Shell W) (s : Shell W)
      → s.link_initialized ≡ true
      → linked fw next s ≡ next s
  unfolding linked require_link
  linked_on next s on =
      guarded-cases (λ t. t ≡ next s) s.link_initialized s _ next (λ _. refl)
        (λ off. absurd (cc (on, off)))

  -- A property of every command of a table.
  abbrev pub Each : (Shell W → Type 0) → List (String × (Shell W → Shell W)) → Shell W → Type 0
  Each P [] s = P (dispatch fw [] [] s)
  Each P ((name, handler) ∷ rest) s = P (handler s) × Each P rest s

  pub dispatch-Each :
      (P : Shell W → Type 0) (table : List (String × (Shell W → Shell W))) (line : List ℕ)
      (s : Shell W)
      → Each P table s
      → P (dispatch fw table line s)
  unfolding dispatch
  dispatch-Each P [] line s h = h
  dispatch-Each P ((name, handler) ∷ rest) line s h =
      if-cases P (text_equal line (codes name)) (λ _. h.0) (λ _. dispatch-Each P rest line s h.1)
