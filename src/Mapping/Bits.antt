-- ===== src/Mapping/Bits.antt =====
-- The masks and shifts of kernel/mapping.c.
use Prim.Native.Nat.{min, max, bit_and-bitwise}
use jokerix.Base.{
  ℕ, zero, suc, ◌+◌, ◌-◌, ◌*◌, ◌/◌, ◌%◌, ◌^◌, ◌≤◌, ◌<◌, ◌≡◌, refl, ◌∙◌, arith, bit_and, bit_or,
}
use jokerix.Base.Powers.{pow_pos, times_double}
use jokerix.Heap.Bits.{
  bit_and-halves, bit_or-half, bit_or-zero, zero-bit_or, bit_or-halves, bit_or-odd,
}
use jokerix.Mapping.{get_vpn_levels, pde_mask, valid}

bit_and-step : (a b : ℕ) → bit_and a b ≡ bit_and (a / 2) (b / 2) * 2 + min (a % 2) (b % 2)
bit_and-step zero b = omega (arith, bit_and-bitwise 0 b, bit_and-bitwise 0 (b / 2))
bit_and-step (suc a) b = bit_and-halves (suc a) b (omega arith)

bit_and-zero : (n a : ℕ) → a ≤ n → bit_and a 0 ≡ 0
bit_and-zero n zero le = refl
bit_and-zero zero (suc a) le = absurd (omega arith)
bit_and-zero (suc n) (suc a) le =
    omega (arith, bit_and-step (suc a) 0, bit_and-zero n (suc a / 2) (omega arith))

next_power : (n k : ℕ) → n * 2 ^ suc k ≡ n * 2 ^ k * 2
next_power n k = times_double n k ∙ grind arith

-- A mask of ones takes the low digits,
bit_and-ones : (k q r : ℕ) → r < 2 ^ k → bit_and (q * 2 ^ k + r) (2 ^ k - 1) ≡ r
bit_and-ones zero q r small = omega (arith, bit_and-zero (q * 1 + r) (q * 1 + r) (omega arith))
bit_and-ones (suc k) q r small =
    let product : q * 2 ^ suc k ≡ q * 2 ^ k * 2 = next_power q k in
    let half : (q * 2 ^ suc k + r) / 2 ≡ q * 2 ^ k + r / 2 = omega (arith, product) in
    let last : (q * 2 ^ suc k + r) % 2 ≡ r % 2 = omega (arith, product) in
    let low : (2 ^ suc k - 1) / 2 ≡ 2 ^ k - 1 = omega (arith, pow_pos k) in
    let odd : (2 ^ suc k - 1) % 2 ≡ 1 = omega (arith, pow_pos k) in
    let step = rw (half, last, low, odd) at (bit_and-step (q * 2 ^ suc k + r) (2 ^ suc k - 1)) in
    omega (arith, step, bit_and-ones k q (r / 2) (omega (arith, small)))

-- and the low digits of a mask that ends in zeros are lost.
bit_and-shift :
    (k q r n : ℕ) → r < 2 ^ k → bit_and (q * 2 ^ k + r) (n * 2 ^ k) ≡ bit_and q n * 2 ^ k
bit_and-shift zero q r n small =
    let a : q * 1 + r ≡ q = omega arith in
    let b : n * 1 ≡ n = omega arith in rw (a, b) (omega arith)
bit_and-shift (suc k) q r n small =
    let product : q * 2 ^ suc k ≡ q * 2 ^ k * 2 = next_power q k in
    let mask : n * 2 ^ suc k ≡ n * 2 ^ k * 2 = next_power n k in
    let goal = next_power (bit_and q n) k in
    let half : (q * 2 ^ suc k + r) / 2 ≡ q * 2 ^ k + r / 2 = omega (arith, product) in
    let low : (n * 2 ^ suc k) / 2 ≡ n * 2 ^ k = omega (arith, mask) in
    let even : (n * 2 ^ suc k) % 2 ≡ 0 = omega (arith, mask) in
    let step = rw (half, low, even) at (bit_and-step (q * 2 ^ suc k + r) (n * 2 ^ suc k)) in
    omega (arith, step, goal, bit_and-shift k q (r / 2) n (omega (arith, small)))

nine_ones : (n : ℕ) → bit_and n 0x1ff ≡ n % 512
nine_ones n =
    let parts : n / 512 * 2 ^ 9 + n % 512 ≡ n = omega arith in
    let e = bit_and-ones 9 (n / 512) (n % 512) (omega arith) in rw parts at e

-- The indices of a page in the tables are the three groups of nine digits.
pub get_vpn_levels_lem :
    (vpn : ℕ)
    → get_vpn_levels vpn
      ≡ record { root = vpn / 2 ^ 18 % 512; middle = vpn / 2 ^ 9 % 512; last = vpn % 512 }
unfolding get_vpn_levels
get_vpn_levels_lem vpn = rw (nine_ones (vpn / 2 ^ 18), nine_ones (vpn / 2 ^ 9), nine_ones vpn) refl

-- The address of the table that an entry names.
pub pde_mask_lem : (e : ℕ) → (bit_and e pde_mask * 2 ^ 2) % 2 ^ 64 ≡ e / 2 ^ 10 % 2 ^ 44 * 4096
pde_mask_lem e =
    let parts : e / 2 ^ 10 * 2 ^ 10 + e % 2 ^ 10 ≡ e = omega arith in
    let high : e / 2 ^ 10 / 2 ^ 44 * 2 ^ 44 + e / 2 ^ 10 % 2 ^ 44 ≡ e / 2 ^ 10 = omega arith in
    let masked =
      rw parts at (bit_and-shift 10 (e / 2 ^ 10) (e % 2 ^ 10) (2 ^ 44 - 1) (omega arith)) in
    let number =
      rw high at (bit_and-ones 44 (e / 2 ^ 10 / 2 ^ 44) (e / 2 ^ 10 % 2 ^ 44) (omega arith)) in
    omega (arith, masked, number)

-- The entry for a table.
pub table_entry : (n : ℕ) → bit_or (n * 2 ^ 10) 1 ≡ n * 2 ^ 10 + 1
table_entry n = omega (
  arith,
  bit_or-half (n * 2 ^ 10) 1,
  bit_or-zero (n * 2 ^ 10 / 2) (n * 2 ^ 10 / 2) (omega arith),
  bit_or-odd (n * 2 ^ 10) 1 refl,
)

bit_or-step : (a b : ℕ) → bit_or a b ≡ bit_or (a / 2) (b / 2) * 2 + max (a % 2) (b % 2)
bit_or-step zero b = omega (arith, zero-bit_or b, zero-bit_or (b / 2))
bit_or-step (suc a) b = bit_or-halves (suc a) b (omega arith)

-- Digits are added where there are zeros.
bit_or-low : (k q r : ℕ) → r < 2 ^ k → bit_or (q * 2 ^ k) r ≡ q * 2 ^ k + r
bit_or-low zero q r small =
    let none : r ≡ 0 = omega arith in
    rw none (omega (arith, bit_or-zero (q * 1) (q * 1) (omega arith)))
bit_or-low (suc k) q r small =
    let product = next_power q k in
    let half : (q * 2 ^ suc k) / 2 ≡ q * 2 ^ k = omega (arith, product) in
    let even : (q * 2 ^ suc k) % 2 ≡ 0 = omega (arith, product) in
    let step = rw (half, even) at (bit_or-step (q * 2 ^ suc k) r) in
    omega (arith, step, product, bit_or-low k q (r / 2) (omega (arith, small)))

-- The entry for a page has its number, and its flags with V.
pub page_entry :
    (n flags : ℕ)
    → flags < 2 ^ 10
    → let e = bit_or (bit_or ((n * 2 ^ 10) % 2 ^ 64) flags) valid in
      (e / 2 ^ 10 % 2 ^ 44 ≡ n % 2 ^ 44) × (e % 2 ^ 10 ≡ flags / 2 * 2 + 1) × (e < 2 ^ 64)
page_entry n flags small =
    let whole : (n * 2 ^ 10) % 2 ^ 64 ≡ n % 2 ^ 54 * 2 ^ 10 = omega arith in
    let x = n % 2 ^ 54 * 2 ^ 10 + flags in
    let e : bit_or (bit_or ((n * 2 ^ 10) % 2 ^ 64) flags) valid ≡ x / 2 * 2 + 1 =
      rw (whole, bit_or-low 10 (n % 2 ^ 54) flags small)
        (omega (
          arith,
          bit_or-half x 1,
          bit_or-zero (x / 2) (x / 2) (omega arith),
          bit_or-odd x 1 refl,
        )) in
    rw e (omega (arith, small), omega (arith, small), omega (arith, small))
