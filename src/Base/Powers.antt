-- ===== src/Base/Powers.antt =====
-- Powers of two.
use Prim.Native.Nat.{ℕ, zero, suc, ◌+◌, ◌*◌, ◌/◌, ◌^◌, ◌≤◌, ◌<◌}
use mathlib.Core.Path.{◌≡◌}
use mathlib.Core.Logic.{inl, inr}
use native.Mathlib.Omega.{arith}
use jokerix.Base.Tests.{leb, Bool-cases}

pub pow_pos : (k : ℕ) → 0 < 2 ^ k
pow_pos zero = omega arith
pow_pos (suc k) = omega (arith, pow_pos k)

pub pow_double : (k : ℕ) → 2 ^ suc k ≡ 2 ^ k * 2
pow_double k = omega arith

pub pow_mono : (k h : ℕ) → k ≤ h → 2 ^ k ≤ 2 ^ h
pow_mono zero h le = pow_pos h
pow_mono (suc k) zero le = absurd (omega arith)
pow_mono (suc k) (suc h) le = omega (arith, pow_mono k h (omega arith))

pub pow_less : (k h : ℕ) → 2 ^ k < 2 ^ h → k < h
pow_less zero zero lt = absurd (omega arith)
pow_less zero (suc h) lt = omega arith
pow_less (suc k) zero lt = absurd (omega (arith, pow_pos k))
pow_less (suc k) (suc h) lt = omega (arith, pow_less k h (omega arith))

pub pow_at_most : (k h : ℕ) → 2 ^ k ≤ 2 ^ h → k ≤ h
pow_at_most zero h le = omega arith
pow_at_most (suc k) zero le = absurd (omega (arith, pow_pos k))
pow_at_most (suc k) (suc h) le = omega (arith, pow_at_most k h (omega arith))

pub times_double : (n k : ℕ) → n * 2 ^ suc k ≡ n * 2 * 2 ^ k
times_double n k = grind arith

pub times_next : (n k : ℕ) → (n + 1) * 2 ^ k ≡ n * 2 ^ k + 2 ^ k
times_next n k = grind arith

pub pow_add : (a b : ℕ) → 2 ^ (a + b) ≡ 2 ^ a * 2 ^ b
pow_add zero b = let e : 0 + b ≡ b = omega arith in rw e (omega arith)
pow_add (suc a) b =
    let e : suc a + b ≡ suc (a + b) = omega arith in rw e (grind (arith, pow_add a b))

-- Every positive number lies between two powers.
pub log_of : (fuel a : ℕ) → 0 < a → a < 2 ^ fuel → (d : ℕ) × (2 ^ d ≤ a) × (a < 2 ^ suc d)
log_of zero a pos small = absurd (omega arith)
log_of (suc fuel) a pos small = elim (Bool-cases (leb 2 a)) [
  | inl more ↦
      let (d, low, high) = log_of fuel (a / 2) (ground arith) (omega (arith, small)) in
      (suc d, omega arith, omega arith)
  | inr one ↦ (0, omega arith, ground arith)
]
