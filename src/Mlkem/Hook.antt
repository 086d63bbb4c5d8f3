-- ===== src/Mlkem/Hook.antt =====
-- src/fpst_mlkem512_wrapper.c: mlkem-native on the hooks, up to the first failed transform.
use fpga_pqc_secure_telemetr.Base.{
  ℕ, zero, suc, ◌<◌, ◌≡◌, ◌≢◌, ◌⊎◌, inl, inr, refl, ap, subst, ◌*◌, ◌/=◌, option-cases, ◌∙◌, arith,
  some, List, [], ◌∷◌, length, drop, map, leb, if-cases, replicate,
}
use fpga_pqc_secure_telemetr.Result.{
  ◌>>◌, Result, Status, Exec, Error, ok, err, state, Result-cases, branch-cases, continue-cases,
}
use fpga_pqc_secure_telemetr.Codec.{load_be16, store_be16}
use fpga_pqc_secure_telemetr.Profile.{link_ntt_timeout_ms}
use fpga_pqc_secure_telemetr.Link.{Port}
use fpga_pqc_secure_telemetr.Link.Opcode.{op_pqc_read_poly}
use fpga_pqc_secure_telemetr.Primer1.{command_into_request}
use fpga_pqc_secure_telemetr.Primer1.Pqc.{
  unpack_coefficients, pqc_read_poly, pqc_load_poly, pqc_start_ntt, pqc_modulus, pqc_coefficients,
}
use fpga_pqc_secure_telemetr.Session.{LinkRef, Machine, cell, on}
use fpga_pqc_secure_telemetr.Mlkem.{
  Poly, Kem, Calls, done, ntt, randombytes, run_calls, backend_ntt, backend_fail, latch,
  upstream_randombytes_forbidden, transform, canonical, remote_ntt, poll, backend_progress,
}

-- What Primer 1 may answer to a transform: 256 coefficients in [0, q).
unfoldable pub IsReduced : Poly → Type 0
IsReduced [] = Unit
IsReduced (c ∷ poly) = (c < pqc_modulus) × IsReduced poly

module _ {W : Type 0} where
  -- What the link of the given name gives for a transform of `poly` from here.
  abbrev pub asked : LinkRef → Poly → Kem W → Result Poly × Machine W
  asked ref poly s = on ref (remote_ntt (map canonical poly)) (backend_progress s).machine

  -- The state behind that transform.
  abbrev pub behind : LinkRef → Poly → Kem W → Kem W
  behind ref poly s =
      backend_progress (record (backend_progress s) { machine = (asked ref poly s).1 })

  -- `a` is what the calls come to from the state `s` when every transform is what the bound link
  -- answers in the state that the calls before it have left, a reduced polynomial, and no random
  -- bytes are asked for.
  pub data Answered (A : Type 0) : Calls A → Kem W → A → Type 0 where
    finished : (a : A) (s : Kem W) → Answered A (done a) s a
    transformed :
        (ref : LinkRef) (poly values : Poly) (next : Poly → Calls A) (s : Kem W) (a : A)
        → s.primer1_link ≡ some ref
        → (asked ref poly s).0 ≡ ok values
        → length values ≡ pqc_coefficients
        → IsReduced values
        → Answered A (next values) (behind ref poly s) a
        → Answered A (ntt poly next) s a

-- A result with `count` coefficients in range, if any.
abbrev Unpacked : ℕ → Result Poly → Type 0
Unpacked count (ok values) = (length values ≡ count) × IsReduced values
Unpacked count (err e) = Unit

latch-eq : (rc current : Status) {e : Error} → current ≡ err e → latch rc current ≡ current
unfolding latch
latch-eq rc (ok _) h = cc
latch-eq rc (err e') h = refl

latch-failed : (e : Error) (current : Status) → latch (err e) current ≢ ok tt
unfolding latch
latch-failed e (ok _) h = cc
latch-failed e (err e') h = cc

unpack-Unpacked : (count : ℕ) (buf : List ℕ) → Unpacked count (unpack_coefficients count buf)
unfolding unpack_coefficients IsReduced
unpack-Unpacked zero buf = (refl, tt)
unpack-Unpacked (suc count) buf =
    let value = load_be16 buf in
    if-cases (Unpacked (suc count)) (leb pqc_modulus value) (λ _. tt)
      (λ small.
        branch-cases (Unpacked (suc count)) (unpack_coefficients count (drop 2 buf)) _ _
          (λ values e.
            let (len, reduced) = subst (Unpacked count) e (unpack-Unpacked count (drop 2 buf)) in
            (ap suc len, (ground arith, reduced)))
          (λ _ _. tt))

latch_state : (current : Status) → (e : Error) × (latch (err state) current ≡ err e)
unfolding latch
latch_state (ok _) = (state, refl)
latch_state (err e) = (e, refl)

module _ {W : Type 0} where
  latch-kept :
      (rc : Status) (s : Kem W) {e : Error}
      → s.backend_error ≡ err e
      → record s { backend_error = latch rc s.backend_error } ≡ s
  latch-kept rc s h =
      ap (λ (x : Status). record s { backend_error = x }) (latch-eq rc s.backend_error h)

  backend_ntt-latched :
      (poly : Poly) (s : Kem W) {e : Error} → s.backend_error ≡ err e → (backend_ntt poly s).1 ≡ s
  unfolding backend_ntt backend_fail
  backend_ntt-latched poly s h =
      option-cases (λ (r : Poly × Kem W). r.1 ≡ s) s.primer1_link _ _
        (λ _. latch-kept (err state) s h)
        (λ ref _.
          branch-cases (λ (r : Poly × Kem W). r.1 ≡ s) s.backend_error _ _ (λ _ g. cc)
            (λ e _. latch-kept (err e) s h))

  abbrev Replied : Result Poly × Port W → Type 0
  Replied (rc, t) = Unpacked pqc_coefficients rc

  read_poly-Replied : (s : Port W) → Replied (pqc_read_poly pqc_coefficients s)
  unfolding pqc_read_poly
  read_poly-Replied s =
      let (rc, t) =
        command_into_request op_pqc_read_poly (store_be16 pqc_coefficients) link_ntt_timeout_ms s in
      continue-cases Replied rc _ t
        (λ response _.
          if-cases (λ (m : Exec (Port W) Poly). Replied (m t))
            (length response /= 2 * pqc_coefficients) (λ _. tt)
            (λ _. unpack-Unpacked pqc_coefficients t.link.request_buf))
        (λ _ _. tt)

  then-Replied :
      {A : Type 0} (m : Exec (Port W) A) (k : Exec (Port W) Poly) (s : Port W)
      → ((t : Port W) → Replied (k t))
      → Replied ((m >> k) s)
  then-Replied m k s answer =
      continue-cases Replied (m s).0 _ (m s).1 (λ _ _. answer (m s).1) (λ _ _. tt)

  remote_ntt-Replied : (poly : Poly) (s : Port W) → Replied (remote_ntt poly s)
  unfolding remote_ntt
  remote_ntt-Replied poly s =
      then-Replied (pqc_load_poly poly) _ s
        (λ t. then-Replied pqc_start_ntt _ t (λ u. then-Replied poll _ u read_poly-Replied))

  pub run_calls-latched :
      {A : Type 0} (calls : Calls A) (s : Kem W) {e : Error}
      → s.backend_error ≡ err e
      → (run_calls calls s).1 ≡ s
  unfolding run_calls upstream_randombytes_forbidden
  run_calls-latched (done a) s h = refl
  run_calls-latched (ntt poly next) s h =
      let kept = backend_ntt-latched poly s h in
      run_calls-latched (next (backend_ntt poly s).0) (backend_ntt poly s).1
        (ap (λ (t : Kem W). t.backend_error) kept ∙ h)
      ∙ kept
  run_calls-latched (randombytes len next) s h =
      let kept = latch-kept (err state) s h in
      run_calls-latched (next (replicate len 0)) _ (ap (λ (t : Kem W). t.backend_error) kept ∙ h)
      ∙ kept

  -- What a transform gives where it leaves no error behind: the answer of the bound link.
  record Transform (poly : Poly) (s : Kem W) (values : Poly) (t : Kem W) : Type 0 where
    ref : LinkRef
    bound : s.primer1_link ≡ some ref
    answer : (asked ref poly s).0 ≡ ok values
    size : length values ≡ pqc_coefficients
    reduced : IsReduced values
    left : t ≡ behind ref poly s

  abbrev Transformed : Poly → Kem W → Poly × Kem W → Type 0
  Transformed poly s (values, t) = t.backend_error ≡ ok tt → Transform poly s values t

  fail-Transformed :
      (e : Error) (poly : Poly) (s u : Kem W) → Transformed poly s (backend_fail (err e) poly u)
  unfolding backend_fail
  fail-Transformed e poly s u h = absurd (latch-failed e u.backend_error h)

  backend_ntt-Transformed : (poly : Poly) (s : Kem W) → Transformed poly s (backend_ntt poly s)
  unfolding backend_ntt transform
  backend_ntt-Transformed poly s =
      option-cases (Transformed poly s) s.primer1_link _ _ (λ _. fail-Transformed state poly s s)
        (λ ref bound.
          branch-cases (Transformed poly s) s.backend_error _ _
            (λ _ _.
              let u = backend_progress s in
              let replied =
                remote_ntt-Replied (map canonical poly)
                  (record { link = cell ref u.machine; world = u.machine.world }) in
              branch-cases (Transformed poly s) (asked ref poly s).0 _ _
                (λ values e _.
                  let (size, reduced) = subst (Unpacked pqc_coefficients) e replied in
                  record {
                    ref = ref;
                    bound = bound;
                    answer = e;
                    size = size;
                    reduced = reduced;
                    left = refl;
                  })
                (λ e _. fail-Transformed e poly s _))
            (λ e _. fail-Transformed e poly s s))

  -- Once an error is latched, no run ends without one.
  latched-failed :
      {A : Type 0} (calls : Calls A) (s : Kem W) {e : Error}
      → s.backend_error ≡ err e
      → (run_calls calls s).1.backend_error ≢ ok tt
  latched-failed calls s h clear =
      let kept = ap (λ (t : Kem W). t.backend_error) (run_calls-latched calls s h) in cc

  pub clear-Answered :
      {A : Type 0} (calls : Calls A) (s : Kem W)
      → (run_calls calls s).1.backend_error ≡ ok tt
      → Answered A calls s (run_calls calls s).0
  unfolding run_calls upstream_randombytes_forbidden
  clear-Answered (done a) s h = finished a s
  clear-Answered (ntt poly next) s h =
      let (values, t) = backend_ntt poly s in
      elim (Result-cases t.backend_error) [
        | inl (_, clear) ↦
            let r = backend_ntt-Transformed poly s clear in
            transformed r.ref poly values next s _ r.bound r.answer r.size r.reduced (
              subst (λ u. Answered _ (next values) u (run_calls (next values) t).0) r.left
                (clear-Answered (next values) t h))
        | inr (e, failed) ↦ absurd (latched-failed (next values) t failed h)
      ]
  clear-Answered (randombytes len next) s h = absurd (
      latched-failed (next (replicate len 0))
        (record s { backend_error = latch (err state) s.backend_error })
        (latch_state s.backend_error).1 h)

  -- Any run of mlkem-native on the hooks, whatever calls it makes, either leaves no error
  -- recorded, and then it asked for no random bytes, and the result of every transform is what the
  -- bound link answered to this transform's commands in the state that the calls before it had
  -- left, 256 coefficients below the modulus; or it leaves an error recorded.
  pub run_calls-Answered :
      {A : Type 0} (calls : Calls A) (s : Kem W)
      → ((run_calls calls s).1.backend_error ≡ ok tt) × Answered A calls s (run_calls calls s).0
        ⊎ ((e : Error) × ((run_calls calls s).1.backend_error ≡ err e))
  run_calls-Answered calls s = elim (Result-cases (run_calls calls s).1.backend_error) [
    | inl (_, h) ↦ inl (h, clear-Answered calls s h)
    | inr failed ↦ inr failed
  ]
