-- ===== src/Base/Writes.antt =====
-- Writes side by side into a buffer.
use Prim.Native.Nat.{ℕ, ◌+◌, ◌≤◌}
use mathlib.Core.Path.{◌≡◌, refl, ap, subst, sym, ◌∙◌}
use mathlib.Core.List.{List, [], ◌∷◌, ◌++◌}
use native.Mathlib.Omega.{arith}
use fpga_pqc_secure_telemetr.Base.Lists.{
  length, take, drop, overlay, write_at, take_append, length-take, length-drop, length-write_at,
  length-append, drop_add, length-overlay, take-overlay,
}

write_at_append :
    (a src rest : List ℕ) → write_at (length a) src (a ++ rest) ≡ a ++ write_at 0 src rest
write_at_append [] src rest = refl
write_at_append (x ∷ a) src rest = ap (◌∷◌ x) (write_at_append a src rest)

overlay_append :
    (src buf : List ℕ) → length src ≤ length buf → overlay src buf ≡ src ++ drop (length src) buf
overlay_append [] buf h = refl
overlay_append (x ∷ src) [] h = absurd (omega arith)
overlay_append (x ∷ src) (b ∷ buf) h = ap (◌∷◌ x) (overlay_append src buf (omega arith))

append_assoc : (a b c : List ℕ) → (a ++ b) ++ c ≡ a ++ (b ++ c)
append_assoc [] b c = refl
append_assoc (x ∷ a) b c = ap (◌∷◌ x) (append_assoc a b c)

-- Adjacent writes, the second behind what the first wrote.
second_write :
    (a b buf : List ℕ)
    → length a + length b ≤ length buf
    → write_at (length a) b (a ++ drop (length a) buf) ≡ (a ++ b) ++ drop (length a + length b) buf
second_write a b buf h =
    write_at_append a b (drop (length a) buf)
    ∙ (ap (◌++◌ a) (
          overlay_append b (drop (length a) buf) (omega (arith, length-drop (length a) buf))
          ∙ ap (◌++◌ b) (sym (drop_add (length a) (length b) buf)))
        ∙ sym (append_assoc a b (drop (length a + length b) buf)))

third_write :
    (a b c buf : List ℕ)
    → length a + length b + length c ≤ length buf
    → write_at (length a + length b) c ((a ++ b) ++ drop (length a + length b) buf)
      ≡ ((a ++ b) ++ c) ++ drop (length a + length b + length c) buf
third_write a b c buf h =
    rw⁻¹ (length-append a b) (second_write (a ++ b) c buf (omega (arith, length-append a b)))

adjacent_writes :
    (a b c buf : List ℕ)
    → length a + length b + length c ≤ length buf
    → take
        (length a + length b + length c)
        (write_at (length a + length b) c (write_at (length a) b (overlay a buf)))
      ≡ a ++ (b ++ c)
adjacent_writes a b c buf h =
    rw
      (
        overlay_append a buf (omega arith),
        second_write a b buf (omega arith),
        third_write a b c buf h,
        take_append (length a + length b + length c) ((a ++ b) ++ c)
            (drop (length a + length b + length c) buf)
            (omega (arith, length-append (a ++ b) c, length-append a b)),
      )
      (append_assoc a b c)

pub three_writes :
    (a b c buf : List ℕ)
    → length a ≡ 320
    → length b ≡ 320
    → length c ≡ 128
    → 768 ≤ length buf
    → take 768 (write_at 640 c (write_at 320 b (overlay a buf))) ≡ a ++ (b ++ c)
three_writes a b c buf ha hb hc h =
    let end : length a + length b + length c ≡ 768 = omega arith in
    let middle : length a + length b ≡ 640 = omega arith in
    subst (λ (k : ℕ). take 768 (write_at 640 c (write_at k b (overlay a buf))) ≡ a ++ (b ++ c)) ha
      (subst
        (λ (k : ℕ). take 768 (write_at k c (write_at (length a) b (overlay a buf))) ≡ a ++ (b ++ c))
        middle
        (subst
          (λ (k : ℕ).
            take k (write_at (length a + length b) c (write_at (length a) b (overlay a buf)))
            ≡ a ++ (b ++ c))
          end (adjacent_writes a b c buf (omega arith))))

full_take : (n : ℕ) (xs : List ℕ) → length (take n xs) ≡ n → n ≤ length xs
full_take n xs h = omega (arith, length-take n xs)

pub kept_room :
    (a b c buf : List ℕ)
    → length (take 768 (write_at 640 c (write_at 320 b (overlay a buf)))) ≡ 768
    → 768 ≤ length buf
kept_room a b c buf h = omega (
  arith,
  full_take 768 (write_at 640 c (write_at 320 b (overlay a buf))) h,
  length-write_at 640 c (write_at 320 b (overlay a buf)),
  length-write_at 320 b (overlay a buf),
  length-overlay a buf,
)

pub fresh :
    (src buf : List ℕ)
    → length src ≡ 32
    → length (take 32 (overlay src buf)) ≡ 32
    → take 32 (overlay src buf) ≡ src
fresh src buf h full =
    subst (λ (n : ℕ). take n (overlay src buf) ≡ src) h
      (take-overlay src buf
        (omega (arith, full_take 32 (overlay src buf) full, length-overlay src buf)))
