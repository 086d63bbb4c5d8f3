-- ===== src/EntropyRng/Health.antt =====
-- src/fpst_entropy_rng.c: what the health tests rule out.
use fpga_pqc_secure_telemetr.Base.{
  ℕ, zero, suc, ◌+◌, ◌%◌, ◌^◌, ◌≤◌, ◌<◌, ◌≡◌, refl, sym, ap, ◌∙◌, Bool, true, false, List, [], ◌∷◌,
  length, replicate, arith, ltb, ◌==◌, ◌||◌, not, if◌then◌else◌, Bool-cases, if-cases, lt→ltb,
  ltb→le, ==→eq, ==_refl, inl, inr,
}
use fpga_pqc_secure_telemetr.Result.{Result, Exec, ok, err, state, continue, ◌>>◌}
use fpga_pqc_secure_telemetr.EntropyRng.{
  HealthState, reset_health, count_repeat, count_proportion, observe_raw_bit,
}

-- The tests on a sequence of raw bits.
unfoldable pub observe_all : List ℕ → Exec HealthState (Unit {0})
observe_all [] h = (ok tt, h)
observe_all (b ∷ bs) h = (observe_raw_bit b >> observe_all bs) h

pub count_ones : List ℕ → ℕ
count_ones [] = 0
count_ones (b ∷ bs) = b % 2 + count_ones bs

passed :
    (c : Bool) (bit : ℕ) (h1 : HealthState)
    → (if c then count_proportion bit h1 else (err state, h1)).0 ≡ ok tt
    → (c ≡ true)
      × ((count_proportion bit h1).0 ≡ ok tt)
      × ((if c then count_proportion bit h1 else (err state, h1)).1 ≡ (count_proportion bit h1).1)
passed true bit h1 accepted = (refl, accepted, refl)
passed false bit h1 accepted = cc accepted

both_parts :
    (r : Result (Unit {0})) (g : Exec HealthState (Unit {0})) (h : HealthState)
    → (continue r (λ _. g) h).0 ≡ ok tt
    → (r ≡ ok tt) × ((g h).0 ≡ ok tt)
both_parts (ok a) g h accepted = (refl, accepted)
both_parts (err e) g h accepted = cc accepted

both :
    (f g : Exec HealthState (Unit {0})) (h : HealthState)
    → ((f >> g) h).0 ≡ ok tt
    → ((f h).0 ≡ ok tt) × ((g (f h).1).0 ≡ ok tt)
both f g h accepted = both_parts (f h).0 g (f h).1 accepted

-- An accepted bit has passed both tests, one after the other.
observe_parts :
    (b : ℕ) (h : HealthState)
    → (observe_raw_bit b h).0 ≡ ok tt
    → let h1 = (count_repeat (b % 2) h).1 in
      ((count_repeat (b % 2) h).0 ≡ true)
      × ((count_proportion (b % 2) h1).0 ≡ ok tt)
      × ((observe_raw_bit b h).1 ≡ (count_proportion (b % 2) h1).1)
unfolding observe_raw_bit
observe_parts b h accepted =
    passed (count_repeat (b % 2) h).0 (b % 2) (count_repeat (b % 2) h).1 accepted

repeat_next :
    (bit : ℕ) (h : HealthState)
    → h.repeat_count ≤ 64
    → h.have_last_raw_bit ≡ true
    → h.last_raw_bit ≡ bit
    → (count_repeat bit h).1.repeat_count ≡ h.repeat_count + 1
unfolding count_repeat
repeat_next bit h small have same =
    rw (have, lt→ltb h.repeat_count 65535 (omega (arith, small)), same, ==_refl bit) refl

-- A repetition that is accepted has not gone beyond the cutoff.
repeat_bound :
    (bit : ℕ) (h : HealthState)
    → h.repeat_count ≤ 64
    → h.have_last_raw_bit ≡ true
    → h.last_raw_bit ≡ bit
    → (count_repeat bit h).0 ≡ true
    → h.repeat_count + 1 ≤ 64
unfolding count_repeat
repeat_bound bit h small have same accepted = elim (Bool-cases (ltb 64 (h.repeat_count + 1))) [
  | inl over ↦
      let refused : (count_repeat bit h).0 ≡ false =
        rw (have, lt→ltb h.repeat_count 65535 (omega (arith, small)), same, ==_refl bit, over)
          refl in
      cc (accepted, refused)
  | inr within ↦ ltb→le 64 (h.repeat_count + 1) within
]

repeat_small :
    (bit : ℕ) (h : HealthState)
    → h.repeat_count ≤ 64
    → (count_repeat bit h).0 ≡ true
    → let h' = (count_repeat bit h).1 in
      (h'.have_last_raw_bit ≡ true)
      × (h'.last_raw_bit ≡ bit)
      × (1 ≤ h'.repeat_count)
      × (h'.repeat_count ≤ 64)
unfolding count_repeat
repeat_small bit h small accepted = elim (Bool-cases h.have_last_raw_bit) [
  | inl have ↦ elim (Bool-cases (bit == h.last_raw_bit)) [
    | inl equal ↦
        let same = sym (==→eq bit h.last_raw_bit equal) in
        let next = repeat_next bit h small have same in
        let bound = repeat_bound bit h small have same accepted in
        (
          rw (have, equal) refl,
          rw (have, equal) same,
          omega (arith, next),
          omega (arith, next, bound),
        )
    | inr other ↦ rw (have, other) (refl, refl, omega arith, omega arith)
  ]
  | inr fresh ↦ rw fresh (refl, refl, omega arith, omega arith)
]

abbrev SameWindow : HealthState → Bool × HealthState → Type 0
SameWindow h (accepted, h') = (h'.apt_count ≡ h.apt_count) × (h'.apt_ones ≡ h.apt_ones)

repeat_keeps : (bit : ℕ) (h : HealthState) → SameWindow h (count_repeat bit h)
unfolding count_repeat
repeat_keeps bit h =
    if-cases (SameWindow h) (not h.have_last_raw_bit) (λ _. (refl, refl))
      (λ _. if-cases (SameWindow h) (bit == h.last_raw_bit) (λ _. (refl, refl)) (λ _. (refl, refl)))

abbrev SameRun : HealthState → Result (Unit {0}) × HealthState → Type 0
SameRun h (code, h') =
    (h'.have_last_raw_bit ≡ h.have_last_raw_bit)
    × (h'.last_raw_bit ≡ h.last_raw_bit)
    × (h'.repeat_count ≡ h.repeat_count)

proportion_keeps : (bit : ℕ) (h : HealthState) → SameRun h (count_proportion bit h)
unfolding count_proportion
proportion_keeps bit h =
    if-cases (SameRun h) ((h.apt_count + 1) % 2 ^ 16 == 512)
      (λ _.
        if-cases (SameRun h)
          (ltb ((h.apt_ones + bit) % 2 ^ 16) 64 || ltb 448 ((h.apt_ones + bit) % 2 ^ 16))
          (λ _. (refl, refl, refl)) (λ _. (refl, refl, refl)))
      (λ _. (refl, refl, refl))

abbrev Counted : ℕ → HealthState → Result (Unit {0}) × HealthState → Type 0
Counted bit h (code, h') = (h'.apt_count ≡ h.apt_count + 1) × (h'.apt_ones ≡ h.apt_ones + bit)

proportion_next :
    (bit : ℕ) (h : HealthState)
    → bit < 2
    → h.apt_count + 1 < 512
    → h.apt_ones ≤ h.apt_count
    → Counted bit h (count_proportion bit h)
unfolding count_proportion
proportion_next bit h small room few =
    if-cases (Counted bit h) ((h.apt_count + 1) % 2 ^ 16 == 512)
      (λ full. omega (arith, ==→eq ((h.apt_count + 1) % 2 ^ 16) 512 full, room))
      (λ _. (omega (arith, room), omega (arith, small, room, few)))

abbrev Judged : ℕ → HealthState → Result (Unit {0}) × HealthState → Type 0
Judged bit h (code, h') = code ≡ ok tt → (64 ≤ h.apt_ones + bit) × (h.apt_ones + bit ≤ 448)

proportion_full :
    (bit : ℕ) (h : HealthState)
    → bit < 2
    → h.apt_count + 1 ≡ 512
    → h.apt_ones ≤ h.apt_count
    → Judged bit h (count_proportion bit h)
unfolding count_proportion
proportion_full bit h small full few =
    if-cases (Judged bit h) ((h.apt_count + 1) % 2 ^ 16 == 512)
      (λ _.
        if-cases (Judged bit h)
          (ltb ((h.apt_ones + bit) % 2 ^ 16) 64 || ltb 448 ((h.apt_ones + bit) % 2 ^ 16))
          (λ _ accepted. cc accepted) (λ fine _. ground arith))
      (λ other _. ground arith)

-- From any state of the tests, more than 64 equal raw bits in a row are never accepted.
stuck_from :
    (n bit : ℕ) (h : HealthState)
    → h.repeat_count ≤ 64
    → h.have_last_raw_bit ≡ true
    → h.last_raw_bit ≡ bit % 2
    → (observe_all (replicate n bit) h).0 ≡ ok tt
    → h.repeat_count + n ≤ 64
unfolding observe_all
stuck_from zero bit h small have same accepted = omega (arith, small)
stuck_from (suc n) bit h small have same accepted =
    let (first, rest) = both (observe_raw_bit bit) (observe_all (replicate n bit)) h accepted in
    let (one, _, step) = observe_parts bit h first in
    let h1 = (count_repeat (bit % 2) h).1 in
    let (have1, last1, _, small1) = repeat_small (bit % 2) h small one in
    let (have2, last2, count2) = proportion_keeps (bit % 2) h1 in
    let next = repeat_next (bit % 2) h small have same in
    let count : (observe_raw_bit bit h).1.repeat_count ≡ h.repeat_count + 1 =
      ap (λ (x : HealthState). x.repeat_count) step ∙ count2 ∙ next in
    let bound =
      stuck_from n bit (observe_raw_bit bit h).1 (omega (arith, count, count2, small1, next))
        (ap (λ (x : HealthState). x.have_last_raw_bit) step ∙ have2 ∙ have1)
        (ap (λ (x : HealthState). x.last_raw_bit) step ∙ last2 ∙ last1) rest in
    omega (arith, bound, count)

-- From any state of the health tests whose repetition count is at most 64, a run of n equal raw
-- bits that is accepted has n at most 64.
pub stuck_source :
    (n bit : ℕ) (h : HealthState)
    → h.repeat_count ≤ 64
    → (observe_all (replicate n bit) h).0 ≡ ok tt
    → n ≤ 64
unfolding observe_all
stuck_source zero bit h small accepted = omega arith
stuck_source (suc n) bit h small accepted =
    let (first, rest) = both (observe_raw_bit bit) (observe_all (replicate n bit)) h accepted in
    let (one, _, step) = observe_parts bit h first in
    let h1 = (count_repeat (bit % 2) h).1 in
    let (have1, last1, pos1, small1) = repeat_small (bit % 2) h small one in
    let (have2, last2, count2) = proportion_keeps (bit % 2) h1 in
    let count : (observe_raw_bit bit h).1.repeat_count ≡ h1.repeat_count =
      ap (λ (x : HealthState). x.repeat_count) step ∙ count2 in
    let bound =
      stuck_from n bit (observe_raw_bit bit h).1 (omega (arith, count, small1))
        (ap (λ (x : HealthState). x.have_last_raw_bit) step ∙ have2 ∙ have1)
        (ap (λ (x : HealthState). x.last_raw_bit) step ∙ last2 ∙ last1) rest in
    omega (arith, bound, count, pos1)

-- A window is judged when it is full.
window_from :
    (bs : List ℕ) (h : HealthState)
    → h.apt_count < 512
    → h.apt_count + length bs ≡ 512
    → h.apt_ones ≤ h.apt_count
    → (observe_all bs h).0 ≡ ok tt
    → (64 ≤ h.apt_ones + count_ones bs) × (h.apt_ones + count_ones bs ≤ 448)
unfolding observe_all count_ones
window_from [] h room full few accepted = omega (arith, room, full)
window_from (b ∷ []) h room full few accepted =
    let (first, _) = both (observe_raw_bit b) (observe_all []) h accepted in
    let (_, second, _) = observe_parts b h first in
    let h1 = (count_repeat (b % 2) h).1 in
    let (count1, ones1) = repeat_keeps (b % 2) h in
    let (low, high) =
      proportion_full (b % 2) h1 (omega arith) (omega (arith, count1, full))
        (omega (arith, count1, ones1, few)) second in
    omega (arith, low, high, ones1)
window_from (b ∷ c ∷ bs) h room full few accepted =
    let (first, rest) = both (observe_raw_bit b) (observe_all (c ∷ bs)) h accepted in
    let (_, _, step) = observe_parts b h first in
    let h1 = (count_repeat (b % 2) h).1 in
    let h2 = (observe_raw_bit b h).1 in
    let (count1, ones1) = repeat_keeps (b % 2) h in
    let (next, more) =
      proportion_next (b % 2) h1 (omega arith) (omega (arith, count1, full))
        (omega (arith, count1, ones1, few)) in
    let count : h2.apt_count ≡ h.apt_count + 1 =
      ap (λ (x : HealthState). x.apt_count) step ∙ next ∙ ap (λ n. n + 1) count1 in
    let ones : h2.apt_ones ≡ h.apt_ones + b % 2 =
      ap (λ (x : HealthState). x.apt_ones) step ∙ more ∙ ap (λ n. n + b % 2) ones1 in
    let (low, high) =
      window_from (c ∷ bs) h2 (omega (arith, count, full)) (omega (arith, count, full))
        (omega (arith, count, ones, few)) rest in
    (omega (arith, low, ones), omega (arith, high, ones))

-- A first window of 512 raw bits that the health tests accept, from their reset state, has at
-- least 64 and at most 448 ones.
pub biased_source :
    (bs : List ℕ)
    → length bs ≡ 512
    → (observe_all bs reset_health).0 ≡ ok tt
    → (64 ≤ count_ones bs) × (count_ones bs ≤ 448)
biased_source bs full accepted =
    let (low, high) =
      window_from bs reset_health (omega arith) (omega (arith, full)) (omega arith) accepted in
    (omega (arith, low), omega (arith, high))
