-- ===== src/Base/Lists.antt =====
-- C arrays as lists, measured and indexed by native numbers.
use Prim.Native.Nat.{ℕ, zero, suc, ◌+◌, ◌-◌, ◌≤◌, ◌<◌, min}
use mathlib.Core.Path.{◌≡◌, refl, ap, ap₂}
use mathlib.Core.List.{List, [], ◌∷◌, ◌++◌}
use native.Mathlib.Omega.{arith}

module _ {ℓ} {A : Type ℓ} where
  abbrev pub length : List A → ℕ
  length [] = 0
  length (x ∷ xs) = suc (length xs)

  abbrev pub get_or : List A → ℕ → A → A
  get_or [] i d = d
  get_or (x ∷ xs) zero d = x
  get_or (x ∷ xs) (suc i) d = get_or xs i d

  abbrev pub take : ℕ → List A → List A
  take zero xs = []
  take (suc n) [] = []
  take (suc n) (x ∷ xs) = x ∷ take n xs

  abbrev pub drop : ℕ → List A → List A
  drop zero xs = xs
  drop (suc n) [] = []
  drop (suc n) (x ∷ xs) = drop n xs

  abbrev pub replicate : ℕ → A → List A
  replicate zero a = []
  replicate (suc n) a = a ∷ replicate n a

  -- `memcpy(buf, src, len)`; what lies past the end of `buf` is dropped.
  abbrev pub overlay : List A → List A → List A
  overlay [] buf = buf
  overlay (x ∷ src) [] = []
  overlay (x ∷ src) (b ∷ buf) = x ∷ overlay src buf

  -- `memcpy(&buf[off], src, len)`
  abbrev pub write_at : ℕ → List A → List A → List A
  write_at zero src buf = overlay src buf
  write_at (suc k) src [] = []
  write_at (suc k) src (b ∷ buf) = b ∷ write_at k src buf

module _ {ℓ} {A : Type ℓ} where
  pub length-append : (xs ys : List A) → length (xs ++ ys) ≡ length xs + length ys
  length-append [] ys = omega arith
  length-append (x ∷ xs) ys = omega (arith, length-append xs ys)

  pub length-take : (n : ℕ) (xs : List A) → length (take n xs) ≡ min n (length xs)
  length-take zero xs = omega arith
  length-take (suc n) [] = omega arith
  length-take (suc n) (x ∷ xs) = omega (arith, length-take n xs)

  pub length-drop : (n : ℕ) (xs : List A) → length (drop n xs) ≡ length xs - n
  length-drop zero xs = omega arith
  length-drop (suc n) [] = omega arith
  length-drop (suc n) (x ∷ xs) = omega (arith, length-drop n xs)

  pub length-replicate : (n : ℕ) (a : A) → length (replicate n a) ≡ n
  length-replicate zero a = refl
  length-replicate (suc n) a = ap suc (length-replicate n a)

  pub take-append-drop : (n : ℕ) (xs : List A) → take n xs ++ drop n xs ≡ xs
  take-append-drop zero xs = refl
  take-append-drop (suc n) [] = refl
  take-append-drop (suc n) (x ∷ xs) = ap (◌∷◌ x) (take-append-drop n xs)

  pub take_append : (n : ℕ) (xs ys : List A) → length xs ≡ n → take n (xs ++ ys) ≡ xs
  take_append zero [] ys e = refl
  take_append (suc n) [] ys e = absurd (omega arith)
  take_append zero (x ∷ xs) ys e = absurd (omega arith)
  take_append (suc n) (x ∷ xs) ys e = ap (◌∷◌ x) (take_append n xs ys (omega arith))

  pub drop_append : (n : ℕ) (xs ys : List A) → length xs ≡ n → drop n (xs ++ ys) ≡ ys
  drop_append zero [] ys e = refl
  drop_append (suc n) [] ys e = absurd (omega arith)
  drop_append zero (x ∷ xs) ys e = absurd (omega arith)
  drop_append (suc n) (x ∷ xs) ys e = drop_append n xs ys (omega arith)

  pub take_all : (n : ℕ) (xs : List A) → length xs ≤ n → take n xs ≡ xs
  take_all zero [] h = refl
  take_all zero (x ∷ xs) h = absurd (omega arith)
  take_all (suc n) [] h = refl
  take_all (suc n) (x ∷ xs) h = ap (◌∷◌ x) (take_all n xs (omega arith))

  pub length-overlay : (src buf : List A) → length (overlay src buf) ≡ length buf
  length-overlay [] buf = refl
  length-overlay (x ∷ src) [] = refl
  length-overlay (x ∷ src) (b ∷ buf) = ap suc (length-overlay src buf)

  pub length-write_at : (k : ℕ) (src buf : List A) → length (write_at k src buf) ≡ length buf
  length-write_at zero src buf = length-overlay src buf
  length-write_at (suc k) src [] = refl
  length-write_at (suc k) src (b ∷ buf) = ap suc (length-write_at k src buf)

  -- What lies behind the written range stays.
  pub drop-overlay :
      (n : ℕ) (src buf : List A) → length src ≤ n → drop n (overlay src buf) ≡ drop n buf
  drop-overlay n [] buf h = refl
  drop-overlay zero (x ∷ src) buf h = absurd (omega arith)
  drop-overlay (suc n) (x ∷ src) [] h = refl
  drop-overlay (suc n) (x ∷ src) (b ∷ buf) h = drop-overlay n src buf (omega arith)

  pub drop-write_at :
      (n k : ℕ) (src buf : List A) → k + length src ≤ n → drop n (write_at k src buf) ≡ drop n buf
  drop-write_at n zero src buf h = drop-overlay n src buf (omega arith)
  drop-write_at zero (suc k) src buf h = absurd (omega arith)
  drop-write_at (suc n) (suc k) src [] h = refl
  drop-write_at (suc n) (suc k) src (b ∷ buf) h = drop-write_at n k src buf (omega arith)

  pub take-overlay :
      (src buf : List A) → length src ≤ length buf → take (length src) (overlay src buf) ≡ src
  take-overlay [] buf h = refl
  take-overlay (x ∷ src) [] h = absurd (omega arith)
  take-overlay (x ∷ src) (b ∷ buf) h = ap (◌∷◌ x) (take-overlay src buf (omega arith))

  pub append-injective :
      (xs ys xs' ys' : List A)
      → length xs ≡ length xs'
      → xs ++ ys ≡ xs' ++ ys'
      → (xs ≡ xs') × (ys ≡ ys')
  append-injective [] ys [] ys' e h = (refl, h)
  append-injective [] ys (x ∷ xs') ys' e h = absurd (omega arith)
  append-injective (x ∷ xs) ys [] ys' e h = absurd (omega arith)
  append-injective (x ∷ xs) ys (x' ∷ xs') ys' e h =
      let ih = append-injective xs ys xs' ys' (omega arith) (cc) in (ap₂ ◌∷◌ (cc) ih.0, ih.1)

  drop-nil : (n : ℕ) → drop {A = A} n [] ≡ []
  drop-nil zero = refl
  drop-nil (suc n) = refl

  pub drop_add : (m n : ℕ) (xs : List A) → drop (m + n) xs ≡ drop n (drop m xs)
  drop_add zero n xs = let e : 0 + n ≡ n = omega arith in rw e
  drop_add (suc m) n [] = let e : suc m + n ≡ suc (m + n) = omega arith in rw (e, drop-nil n)
  drop_add (suc m) n (x ∷ xs) =
      let e : suc m + n ≡ suc (m + n) = omega arith in rw e (drop_add m n xs)

  -- A prefix or a suffix of an appended list, on either side of the seam.
  pub take-append_ge :
      (k : ℕ) (xs ys : List A) → length xs ≤ k → take k (xs ++ ys) ≡ xs ++ take (k - length xs) ys
  take-append_ge k [] ys h = ap (λ n. take n ys) (omega arith)
  take-append_ge zero (x ∷ xs) ys h = absurd (omega arith)
  take-append_ge (suc k) (x ∷ xs) ys h =
      let e : suc k - suc (length xs) ≡ k - length xs = omega arith in
      rw e (ap (◌∷◌ x) (take-append_ge k xs ys (omega arith)))

  pub take-append_le : (k : ℕ) (xs ys : List A) → k ≤ length xs → take k (xs ++ ys) ≡ take k xs
  take-append_le zero xs ys h = refl
  take-append_le (suc k) [] ys h = absurd (omega arith)
  take-append_le (suc k) (x ∷ xs) ys h = ap (◌∷◌ x) (take-append_le k xs ys (omega arith))

  pub drop-append_ge :
      (k : ℕ) (xs ys : List A) → length xs ≤ k → drop k (xs ++ ys) ≡ drop (k - length xs) ys
  drop-append_ge k [] ys h = ap (λ n. drop n ys) (omega arith)
  drop-append_ge zero (x ∷ xs) ys h = absurd (omega arith)
  drop-append_ge (suc k) (x ∷ xs) ys h =
      let e : suc k - suc (length xs) ≡ k - length xs = omega arith in
      rw e (drop-append_ge k xs ys (omega arith))

  pub drop-append_le :
      (k : ℕ) (xs ys : List A) → k ≤ length xs → drop k (xs ++ ys) ≡ drop k xs ++ ys
  drop-append_le zero xs ys h = refl
  drop-append_le (suc k) [] ys h = absurd (omega arith)
  drop-append_le (suc k) (x ∷ xs) ys h = drop-append_le k xs ys (omega arith)

  pub drop-cons :
      (k : ℕ) (xs : List A) (d : A) → k < length xs → drop k xs ≡ get_or xs k d ∷ drop (suc k) xs
  drop-cons zero [] d h = absurd (omega arith)
  drop-cons (suc k) [] d h = absurd (omega arith)
  drop-cons zero (x ∷ xs) d h = refl
  drop-cons (suc k) (x ∷ xs) d h = drop-cons k xs d (omega arith)

  pub take-append_cons :
      (k : ℕ) (xs ys : List A) (y : A)
      → length xs < k
      → take k (xs ++ y ∷ ys) ≡ xs ++ y ∷ take (k - suc (length xs)) ys
  take-append_cons zero xs ys y h = absurd (omega arith)
  take-append_cons (suc k) [] ys y h = let e : suc k - 1 ≡ k = omega arith in rw e
  take-append_cons (suc k) (x ∷ xs) ys y h =
      let e : suc k - suc (suc (length xs)) ≡ k - suc (length xs) = omega arith in
      rw e (ap (◌∷◌ x) (take-append_cons k xs ys y (omega arith)))

  pub drop-append_cons :
      (k : ℕ) (xs ys : List A) (y : A)
      → length xs < k
      → drop k (xs ++ y ∷ ys) ≡ drop (k - suc (length xs)) ys
  drop-append_cons zero xs ys y h = absurd (omega arith)
  drop-append_cons (suc k) [] ys y h = let e : suc k - 1 ≡ k = omega arith in rw e
  drop-append_cons (suc k) (x ∷ xs) ys y h =
      let e : suc k - suc (suc (length xs)) ≡ k - suc (length xs) = omega arith in
      rw e (drop-append_cons k xs ys y (omega arith))

  -- What lies in front of the written range stays.
  pub get_or-write_at :
      (k i : ℕ) (src buf : List A) (d : A)
      → i < k
      → get_or (write_at k src buf) i d ≡ get_or buf i d
  get_or-write_at zero i src buf d h = absurd (omega arith)
  get_or-write_at (suc k) i src [] d h = refl
  get_or-write_at (suc k) zero src (b ∷ buf) d h = refl
  get_or-write_at (suc k) (suc i) src (b ∷ buf) d h = get_or-write_at k i src buf d (omega arith)

  pub get_or-drop : (k i : ℕ) (xs : List A) (d : A) → get_or (drop k xs) i d ≡ get_or xs (k + i) d
  get_or-drop zero i xs d = let e : 0 + i ≡ i = omega arith in rw e
  get_or-drop (suc k) i [] d = refl
  get_or-drop (suc k) i (x ∷ xs) d =
      let e : suc k + i ≡ suc (k + i) = omega arith in rw e (get_or-drop k i xs d)
