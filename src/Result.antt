-- ===== src/Result.antt =====
-- `fpst_result_t` of include/fpst_common.h, and code that works on a state and may return early.
use mathlib.Core.Path.{◌≡◌, refl}
use fpga_pqc_secure_telemetr.Base.{Bool, true, false, ◌⊎◌, inl, inr}

-- The negative values of `fpst_result_t`; FPST_OK is the `ok` of `Result`.
pub data Error : Type 0 where
  argument buffer_too_small format crc timeout io : Error
  busy state remote version transaction : Error

pub data Result (A : Type 0) : Type 0 where
  ok : A → Result A
  err : Error → Result A

-- A function that changes a state through pointers and returns an `fpst_result_t`, with the value
-- of its out-parameter when it returns FPST_OK.
abbrev pub Exec : Type 0 → Type 0 → Type 0
Exec S A = S → Result A × S

abbrev pub Status : Type 0
Status = Result (Unit {0})

abbrev pub is_ok : {A : Type 0} → Result A → Bool
is_ok (ok a) = true
is_ok (err e) = false

abbrev pub pure : {S A : Type 0} → A → Exec S A
pure a s = (ok a, s)

abbrev pub fail : {S A : Type 0} → Error → Exec S A
fail e s = (err e, s)

abbrev pub continue : {S A B : Type 0} → Result A → (A → Exec S B) → Exec S B
continue (ok a) f s = f a s
continue (err e) f s = (err e, s)

infixl 5 ◌>>=◌ ◌>>◌
-- `if (rc != FPST_OK) return rc;`
abbrev pub ◌>>=◌ : {S A B : Type 0} → Exec S A → (A → Exec S B) → Exec S B
◌>>=◌ m f s = let (r, s') = m s in continue r f s'

abbrev pub ◌>>◌ : {S A B : Type 0} → Exec S A → Exec S B → Exec S B
m >> k = m >>= λ _. k

pub Result-cases :
    {A : Type 0} (r : Result A) → ((a : A) × (r ≡ ok a)) ⊎ ((e : Error) × (r ≡ err e))
Result-cases (ok a) = inl (a, refl)
Result-cases (err e) = inr (e, refl)

-- A property of both ways on from a result.
pub continue-cases :
    {S A B : Type 0} (P : Result B × S → Type 0) (r : Result A) (f : A → Exec S B) (s : S)
    → ((a : A) → r ≡ ok a → P (f a s))
    → ((e : Error) → r ≡ err e → P (err e, s))
    → P (continue r f s)
continue-cases P (ok a) f s done failed = done a refl
continue-cases P (err e) f s done failed = failed e refl

-- A property of both branches on a result.
pub branch-cases :
    {A B : Type 0} (P : B → Type 0) (r : Result A) (f : A → B) (g : Error → B)
    → ((a : A) → r ≡ ok a → P (f a))
    → ((e : Error) → r ≡ err e → P (g e))
    → P (elim r [ ok a ↦ f a | err e ↦ g e ])
branch-cases P (ok a) f g done failed = done a refl
branch-cases P (err e) f g done failed = failed e refl
