-- ===== src/Heap/Sizes.antt =====
-- fixSize of kernel/heap.c and the sizes that buddyAlloc takes for it: the least power of two.
use jokerix.Base.{
  ℕ, zero, suc, ◌+◌, ◌-◌, ◌*◌, ◌/◌, ◌^◌, ◌≤◌, ◌<◌, ◌≡◌, refl, inl, inr, arith, bit_or, true, false,
  ◌==◌, Bool-cases, ap, ◌∙◌, sym,
}
use jokerix.Base.Powers.{pow_double, pow_mono, pow_less, pow_at_most, log_of}
use jokerix.Heap.{fix_size, round_up, is_power_of_2}
use jokerix.Heap.Bits.{Top, smear, halves, is_power_of_2-power, is_power_of_2-other}

halves-log : (d a : ℕ) → 2 ^ d ≤ a → a < 2 ^ suc d → halves d a + 1 ≡ 2 ^ 1
halves-log zero a low high = omega arith
halves-log (suc d) a low high =
    halves-log d (a / 2) (omega (arith, low, pow_double d))
      (omega (arith, high, pow_double (suc d)))

pow_less_suc : (m : ℕ) → m ≤ 31 → 2 ^ m < 2 ^ 32
pow_less_suc m small = omega (arith, pow_mono m 31 small)

fix_size-Top : (m n : ℕ) → Top 1 m (n - 1) → m ≤ 31 → fix_size n ≡ 2 ^ m
unfolding fix_size
fix_size-Top m n top small =
    let a = n - 1 in
    let b = bit_or a (a / 2) in
    let c = bit_or b (b / 4) in
    let d = bit_or c (c / 2 ^ 4) in
    let e = bit_or d (d / 2 ^ 8) in
    let b4 : halves 2 b ≡ b / 4 = omega arith in
    let c16 : halves 4 c ≡ c / 2 ^ 4 = omega arith in
    let d256 : halves 8 d ≡ d / 2 ^ 8 = omega arith in
    let e_all : halves 16 e ≡ e / 2 ^ 16 = omega arith in
    let top2 : Top 2 m b = smear 1 m a top in
    let top4 : Top 4 m c = rw b4 at (smear 2 m b top2) in
    let top8 : Top 8 m d = rw c16 at (smear 4 m c top4) in
    let top16 : Top 16 m e = rw d256 at (smear 8 m d top8) in
    let top32 : Top 32 m (bit_or e (e / 2 ^ 16)) = rw e_all at (smear 16 m e top16) in
    elim top32 [
      | inl (k, s, t) ↦ absurd (omega arith)
      | inr (s, t) ↦ let short = pow_less_suc m small in rw t (omega (arith, short))
    ]

-- The function of fixSize, up to the largest power of two that it can make.
pub fix_size_up :
    (n : ℕ) → 0 < n → n ≤ 2 ^ 31 → (k : ℕ) × (fix_size n ≡ 2 ^ k) × (n ≤ 2 ^ k) × (2 ^ k < n * 2)
unfolding fix_size
fix_size_up n pos small = elim (Bool-cases (n == 1)) [
  | inl one ↦ let e : n ≡ 1 = ground arith in rw e (0, refl, omega arith, omega arith)
  | inr more ↦
      let (d, low, high) = log_of 31 (n - 1) (ground arith) (omega arith) in
      let short = pow_less d 31 (omega arith) in
      let e =
        fix_size-Top (suc d) n (inl (d, omega arith, halves-log d (n - 1) low high))
          (omega arith) in
      (suc d, e, omega arith, omega (arith, pow_double d))
]

-- A size that is a power of two is taken as it is, which is what fixSize would make of it.
pub round_up-fix_size : (n : ℕ) → 0 < n → n ≤ 2 ^ 31 → round_up n ≡ fix_size n
unfolding round_up
round_up-fix_size n pos small =
    let some_blocks : (n == 0) ≡ false = ground arith in
    let (d, low, high) = log_of 32 n pos (omega arith) in
    elim (Bool-cases (n == 2 ^ d)) [
      | inl power ↦
          let e : n ≡ 2 ^ d = ground arith in
          let (k, f, more, less) = fix_size_up n pos small in
          let up = pow_at_most d k (omega arith) in
          let down = pow_less k (suc d) (omega (arith, less, high, e, pow_double d)) in
          let same : k ≡ d = omega arith in
          let test : is_power_of_2 n ≡ true = rw e (is_power_of_2-power d) in
          rw (some_blocks, test) (e ∙ ap (λ x. 2 ^ x) (sym same) ∙ sym f)
      | inr between ↦
          let test = is_power_of_2-other d n (ground arith) high in rw (some_blocks, test)
    ]

-- For a positive size of at most 2 ^ 30, where no int overflows, fixSize is the least power of two
-- that is not less; it is at most 2 ^ 30 as well.
pub fix_size_lem :
    (n : ℕ)
    → 0 < n
    → n ≤ 2 ^ 30
    → (k : ℕ) × (fix_size n ≡ 2 ^ k) × (n ≤ 2 ^ k) × (2 ^ k < n * 2) × (k ≤ 30)
fix_size_lem n pos small =
    let (k, e, enough, less) = fix_size_up n pos (omega arith) in
    (k, e, enough, less, omega (arith, pow_less k 31 (omega arith)))
