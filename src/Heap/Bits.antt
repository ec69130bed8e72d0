-- ===== src/Heap/Bits.antt =====
-- The bit tricks of kernel/heap.c: the test for a power of two, and fixSize.
use Prim.Native.Nat.{min, digits, bit_and-bitwise, bit_or-bitwise}
use Prim.Native.Nat
use jokerix.Base.{
  ℕ, zero, suc, ◌+◌, ◌-◌, ◌*◌, ◌/◌, ◌%◌, ◌^◌, ◌≤◌, ◌<◌, ◌≡◌, ◌≢◌, refl, inl, inr, arith, bit_and,
  bit_or, true, false, ◌==◌, Bool-cases, ap, ◌⊎◌, leb, ◌∙◌, sym,
}
use jokerix.Base.Powers.{pow_pos, pow_double, pow_add, times_double}
use jokerix.Heap.{is_power_of_2}

module _ (z : ℕ → ℕ) (op : ℕ → ℕ → ℕ) where
  -- More digits than the number has make no difference.
  digits-more : (n m a b : ℕ) → a ≤ n → a ≤ m → digits z op n a b ≡ digits z op m a b
  digits-more zero zero a b p q = refl
  digits-more zero (suc m) zero b p q = refl
  digits-more zero (suc m) (suc a) b p q = absurd (omega arith)
  digits-more (suc n) zero zero b p q = refl
  digits-more (suc n) zero (suc a) b p q = absurd (omega arith)
  digits-more (suc n) (suc m) zero b p q = refl
  digits-more (suc n) (suc m) (suc a) b p q =
      omega (arith, digits-more n m (suc a / 2) (b / 2) (omega arith) (omega arith))

-- Both operations work on the lowest digit and on the rest.
pub bit_and-halves :
    (a b : ℕ) → 0 < a → bit_and a b ≡ bit_and (a / 2) (b / 2) * 2 + min (a % 2) (b % 2)
bit_and-halves zero b p = elim p [ ]
bit_and-halves (suc a) b p = omega (
  arith,
  bit_and-bitwise (suc a) b,
  bit_and-bitwise (suc a / 2) (b / 2),
  digits-more (λ b. zero) min a (suc a / 2) (suc a / 2) (b / 2) (omega arith) (omega arith),
)

pub bit_or-halves :
    (a b : ℕ) → 0 < a → bit_or a b ≡ bit_or (a / 2) (b / 2) * 2 + Nat.max (a % 2) (b % 2)
bit_or-halves zero b p = elim p [ ]
bit_or-halves (suc a) b p = omega (
  arith,
  bit_or-bitwise (suc a) b,
  bit_or-bitwise (suc a / 2) (b / 2),
  digits-more (λ b. b) Nat.max a (suc a / 2) (suc a / 2) (b / 2) (omega arith) (omega arith),
)

bit_and-same : (n a : ℕ) → a ≤ n → bit_and a a ≡ a
bit_and-same n zero le = bit_and-bitwise 0 0
bit_and-same zero (suc a) le = absurd (omega arith)
bit_and-same (suc n) (suc a) le =
    omega (
      arith,
      bit_and-halves (suc a) (suc a) (omega arith),
      bit_and-same n (suc a / 2) (omega arith),
    )

bit_and-power : (d : ℕ) → bit_and (2 ^ d) (2 ^ d - 1) ≡ 0
bit_and-power zero = refl
bit_and-power (suc d) =
    let half : 2 ^ suc d / 2 ≡ 2 ^ d = omega (arith, pow_double d) in
    let low : (2 ^ suc d - 1) / 2 ≡ 2 ^ d - 1 = omega (arith, pow_double d, pow_pos d) in
    let step = bit_and-halves (2 ^ suc d) (2 ^ suc d - 1) (pow_pos (suc d)) in
    let rest = rw (half, low) at step in omega (arith, rest, bit_and-power d, pow_double d)

bit_and-not_power : (d x : ℕ) → 2 ^ d < x → x < 2 ^ suc d → bit_and x (x - 1) ≢ 0
bit_and-not_power zero x low high = absurd (omega arith)
bit_and-not_power (suc d) x low high = elim (Bool-cases (x % 2 == 0)) [
  | inl even ↦
      let twice : x % 2 ≡ 0 = ground arith in
      let half : (x - 1) / 2 ≡ x / 2 - 1 = omega (arith, twice) in
      let step = rw half at (bit_and-halves x (x - 1) (omega arith)) in
      let rest = bit_and-not_power d (x / 2) (omega (arith, twice)) (omega (arith, twice)) in
      λ e. rest (omega (arith, step, e))
  | inr odd ↦
      let half : (x - 1) / 2 ≡ x / 2 = ground arith in
      let step = rw half at (bit_and-halves x (x - 1) (omega arith)) in
      let same = bit_and-same (x / 2) (x / 2) (omega arith) in
      λ e. omega (arith, step, same, e, low, pow_pos d)
]

pub is_power_of_2-power : (d : ℕ) → is_power_of_2 (2 ^ d) ≡ true
is_power_of_2-power d = let e = bit_and-power d in ground arith

pub is_power_of_2-other : (d x : ℕ) → 2 ^ d < x → x < 2 ^ suc d → is_power_of_2 x ≡ false
is_power_of_2-other d x low high = let e = bit_and-not_power d x low high in ground arith

-- `k` halvings of a number.
abbrev pub halves : ℕ → ℕ → ℕ
halves zero n = n
halves (suc k) n = halves k (n / 2)

halves_add : (a b n : ℕ) → halves a (halves b n) ≡ halves (a + b) n
halves_add a zero n = let e : a + 0 ≡ a = omega arith in rw e
halves_add a (suc b) n =
    let e : a + suc b ≡ suc (a + b) = omega arith in rw e (halves_add a b (n / 2))

pub zero-bit_or : (b : ℕ) → bit_or 0 b ≡ b
zero-bit_or b = bit_or-bitwise 0 b

pub bit_or-half : (a b : ℕ) → bit_or a b / 2 ≡ bit_or (a / 2) (b / 2)
bit_or-half zero b = omega (arith, zero-bit_or b, zero-bit_or (b / 2))
bit_or-half (suc a) b = omega (arith, bit_or-halves (suc a) b (omega arith))

halves-bit_or : (c a b : ℕ) → halves c (bit_or a b) ≡ bit_or (halves c a) (halves c b)
halves-bit_or zero a b = refl
halves-bit_or (suc c) a b = rw (bit_or-half a b) (halves-bit_or c (a / 2) (b / 2))

pub bit_or-zero : (n a : ℕ) → a ≤ n → bit_or a 0 ≡ a
bit_or-zero n zero le = zero-bit_or 0
bit_or-zero zero (suc a) le = absurd (omega arith)
bit_or-zero (suc n) (suc a) le =
    omega (arith, bit_or-halves (suc a) 0 (omega arith), bit_or-zero n (suc a / 2) (omega arith))

pub bit_or-odd : (a b : ℕ) → b % 2 ≡ 1 → bit_or a b % 2 ≡ 1
bit_or-odd zero b odd = omega (arith, zero-bit_or b, odd)
bit_or-odd (suc a) b odd = ground (arith, bit_or-halves (suc a) b (omega arith), odd)

-- The lowest `s` digits all set.
bit_or-ones : (s x q : ℕ) → halves s x ≡ q → bit_or x (2 ^ s - 1) + 1 ≡ (q + 1) * 2 ^ s
bit_or-ones zero x q e = omega (arith, bit_or-zero x x (omega arith))
bit_or-ones (suc s) x q e =
    let low : (2 ^ suc s - 1) / 2 ≡ 2 ^ s - 1 = omega (arith, pow_double s, pow_pos s) in
    let odd : (2 ^ suc s - 1) % 2 ≡ 1 = omega (arith, pow_double s, pow_pos s) in
    let rest = bit_or-ones s (x / 2) q e in
    let half = rw low at (bit_or-half x (2 ^ suc s - 1)) in
    let last = bit_or-odd x (2 ^ suc s - 1) odd in
    let product = times_double (q + 1) s in
    let product' : (q + 1) * 2 * 2 ^ s ≡ (q + 1) * 2 ^ s * 2 = grind arith in
    omega (arith, half, last, rest, product, product')

-- Of the `m` digits of `a` the `s` highest are set, or all are.
abbrev pub Top : ℕ → ℕ → ℕ → Type 0
Top s m a = ((c : ℕ) × (s + c ≡ m) × (halves c a + 1 ≡ 2 ^ s)) ⊎ ((m ≤ s) × (a + 1 ≡ 2 ^ m))

halves-ones : (c s a : ℕ) → a + 1 ≡ 2 ^ (s + c) → halves c a + 1 ≡ 2 ^ s
halves-ones zero s a e = let z : s + 0 ≡ s = omega arith in rw z at e
halves-ones (suc c) s a e =
    let more : s + suc c ≡ suc (s + c) = omega arith in
    let e' = rw more at e in halves-ones c s (a / 2) (omega (arith, e', pow_double (s + c)))

halves-zero : (d : ℕ) → halves d 0 ≡ 0
halves-zero zero = refl
halves-zero (suc d) = halves-zero d

-- One smear of fixSize sets twice as many.
pub smear : (s m a : ℕ) → Top s m a → Top (s + s) m (bit_or a (halves s a))
smear s m a (inr (short, all)) =
    let none_left = halves-ones m 0 a (let z : 0 + m ≡ m = omega arith in rw z all) in
    let gone : halves m a ≡ 0 = omega (arith, none_left) in
    let far : s - m + m ≡ s = omega arith in
    let low : halves s a ≡ 0 =
      rw (far, gone) at (sym (halves_add (s - m) m a)) ∙ halves-zero (s - m) in
    inr (omega arith, rw low (ap (λ x. x + 1) (bit_or-zero a a (omega arith)) ∙ all))
smear s m a (inl (c, e, top)) = elim (Bool-cases (leb s c)) [
  | inl far ↦
      let d = c - s in
      let q : halves c a ≡ 2 ^ s - 1 = omega (arith, top) in
      let up : s + d ≡ c = ground arith in
      let down : d + s ≡ c = ground arith in
      let x_top : halves s (halves d a) ≡ 2 ^ s - 1 =
        halves_add s d a ∙ ap (λ k. halves k a) up ∙ q in
      let y : halves d (halves s a) ≡ 2 ^ s - 1 =
        halves_add d s a ∙ ap (λ k. halves k a) down ∙ q in
      let both = bit_or-ones s (halves d a) (2 ^ s - 1) x_top in
      let whole : (2 ^ s - 1 + 1) * 2 ^ s ≡ 2 ^ (s + s) =
        ap (λ k. k * 2 ^ s) {x = 2 ^ s - 1 + 1} {y = 2 ^ s} (omega (arith, pow_pos s))
        ∙ sym (pow_add s s) in
      inl (d, ground arith, rw (halves-bit_or d a (halves s a), y) (both ∙ whole))
  | inr near ↦
      let d = s - c in
      let long : c + d ≡ s = ground arith in
      let back : d + c ≡ s = ground arith in
      let top' : halves c a + 1 ≡ 2 ^ (c + d) = top ∙ ap (λ k. 2 ^ k) (sym long) in
      let ones = halves-ones d c (halves c a) top' in
      let rest : halves s a ≡ 2 ^ c - 1 =
        ap (λ k. halves k a) (sym back) ∙ sym (halves_add d c a) ∙ omega (arith, ones) in
      let all = bit_or-ones c a (halves c a) refl in
      let whole : (halves c a + 1) * 2 ^ c ≡ 2 ^ m =
        ap (λ k. k * 2 ^ c) top ∙ sym (pow_add s c) ∙ ap (λ k. 2 ^ k) e in
      inr (ground arith, rw rest (all ∙ whole))
]
