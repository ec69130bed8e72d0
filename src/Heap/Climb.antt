-- ===== src/Heap/Climb.antt =====
-- The first loop of buddyFree of kernel/heap.c: the way up to the used block.
use jokerix.Base.{
  ℕ, zero, suc, ◌+◌, ◌-◌, ◌*◌, ◌^◌, ◌≤◌, ◌<◌, ◌≡◌, ◌≢◌, ◌⊎◌, inl, inr, refl, arith, ap, ◌∙◌, sym,
  false, some, ltb, ◌==◌, Bool-cases,
}
use jokerix.Base.Run.{ok}
use jokerix.Base.Powers.{pow_pos, pow_double, times_double, times_next}
use jokerix.Heap.{left_leaf, right_leaf, parent, find_taken}
use jokerix.Heap.Block.{Kept, Full-root, Full-Kept}

-- `i` is the parent of `c`.
abbrev pub Child : ℕ → ℕ → Type 0
Child i c = (c ≡ left_leaf i) ⊎ (c ≡ right_leaf i)

find_taken-fuel :
    (a b : ℕ) (f : ℕ → ℕ) (i n : ℕ) → i < a → i < b → find_taken a f i n ≡ find_taken b f i n
unfolding find_taken
find_taken-fuel zero b f i n p q = elim p [ ]
find_taken-fuel (suc a) zero f i n p q = elim q [ ]
find_taken-fuel (suc a) (suc b) f i n p q = elim (Bool-cases (i == 0)) [
  | inl root ↦ rw root
  | inr inner ↦ rw (inner, find_taken-fuel a b f (parent i) (n * 2) (ground arith) (ground arith))
]

find_taken-Child :
    (fuel : ℕ) (f : ℕ → ℕ) (i c n : ℕ)
    → Child i c
    → f c ≢ 0
    → c < fuel
    → find_taken fuel f c n ≡ find_taken fuel f i (n * 2)
unfolding find_taken
find_taken-Child zero f i c n child busy p = elim p [ ]
find_taken-Child (suc fuel) f i c n child busy p =
    let inner : (c == 0) ≡ false = ground arith in
    let up : parent c ≡ i = ground arith in
    let more : (f c == 0) ≡ false = ground arith in
    rw (inner, up, more) (find_taken-fuel fuel (suc fuel) f i (n * 2) (ground arith) (ground arith))

pub find_taken-stop :
    (fuel : ℕ) (f : ℕ → ℕ) (i n : ℕ) → f i ≡ 0 → i < fuel → find_taken fuel f i n ≡ ok (some (i, n))
unfolding find_taken
find_taken-stop zero f i n e p = elim p [ ]
find_taken-stop (suc fuel) f i n e p = rw e

-- The node of the smallest block at `offset` in the block of height `h` at `i`.
abbrev pub leaf : ℕ → ℕ → ℕ → ℕ
leaf h i offset = (i + 1) * 2 ^ h + offset - 1

pub leaf-left : (h i offset : ℕ) → leaf (suc h) i offset ≡ leaf h (left_leaf i) offset
leaf-left h i offset = omega (arith, times_double (i + 1) h)

pub leaf-right :
    (h i offset offset' : ℕ)
    → offset' ≡ 2 ^ h + offset
    → leaf (suc h) i offset' ≡ leaf h (right_leaf i) offset
leaf-right h i offset offset' e = omega (arith, times_double (i + 1) h, times_next ((i + 1) * 2) h)

pub leaf-le : (h i offset : ℕ) → i ≤ leaf h i offset
leaf-le zero i offset = omega arith
leaf-le (suc h) i offset = omega (arith, leaf-left h i offset, leaf-le h (left_leaf i) offset)

-- In a block that is free, or used as a whole, the way up leads to its node.
pub find_taken-Kept :
    (h i offset fuel : ℕ) (f : ℕ → ℕ)
    → Kept h f i
    → offset < 2 ^ h
    → leaf h i offset < fuel
    → find_taken fuel f (leaf h i offset) 1 ≡ find_taken fuel f i (2 ^ h)
find_taken-Kept zero i offset fuel f v p q = let at : leaf 0 i offset ≡ i = omega arith in rw at
find_taken-Kept (suc h) i offset fuel f v p q = elim (Bool-cases (ltb offset (2 ^ h))) [
  | inl low ↦
      let at = leaf-left h i offset in
      let root = Full-root h f (left_leaf i) v.0 in
      rw at (
        find_taken-Kept h (left_leaf i) offset fuel f
          (Full-Kept h f f (left_leaf i) (λ j lt. refl) v.0) (ground arith) (omega (arith, at))
        ∙ find_taken-Child fuel f i (left_leaf i) (2 ^ h) (inl refl)
            (omega (arith, root, pow_pos h)) (omega (arith, at, leaf-le h (left_leaf i) offset))
        ∙ ap (λ n. find_taken fuel f i n) (sym (pow_double h)))
  | inr high ↦
      let rest : offset ≡ 2 ^ h + (offset - 2 ^ h) = ground arith in
      let at = leaf-right h i (offset - 2 ^ h) offset rest in
      let root = Full-root h f (right_leaf i) v.1 in
      rw at (
        find_taken-Kept h (right_leaf i) (offset - 2 ^ h) fuel f
          (Full-Kept h f f (right_leaf i) (λ j lt. refl) v.1) (omega (arith, rest, pow_double h))
          (omega (arith, at))
        ∙ find_taken-Child fuel f i (right_leaf i) (2 ^ h) (inr refl)
            (omega (arith, root, pow_pos h))
            (omega (arith, at, leaf-le h (right_leaf i) (offset - 2 ^ h)))
        ∙ ap (λ n. find_taken fuel f i n) (sym (pow_double h)))
]
