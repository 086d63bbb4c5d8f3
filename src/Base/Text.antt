-- ===== src/Base/Text.antt =====
-- Texts as the C strings that they are: the bytes before the NUL.
use Prim.Native.Nat.{ℕ}
use Prim.Native.String.{String}
use Prim.Native.Char.{code}
use mathlib.Core.Bool.{Bool, true, false}
use mathlib.Core.List.{List, [], ◌∷◌}
use fpga_pqc_secure_telemetr.Base.Branch.{◌==◌, if◌then◌else◌}

abbrev pub codes : String → List ℕ
codes String.[] = []
codes (String.◌∷◌ c s) = code c ∷ codes s

-- `strcmp(a, b) == 0`
unfoldable pub text_equal : List ℕ → List ℕ → Bool
text_equal [] [] = true
text_equal [] (y ∷ ys) = false
text_equal (x ∷ xs) [] = false
text_equal (x ∷ xs) (y ∷ ys) = if x == y then text_equal xs ys else false

-- A char array read as a string.
unfoldable pub c_string : List ℕ → List ℕ
c_string [] = []
c_string (x ∷ xs) = if x == 0 then [] else x ∷ c_string xs
