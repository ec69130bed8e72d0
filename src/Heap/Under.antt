-- ===== src/Heap/Under.antt =====
-- The nodes below a node of the buddy tree of kernel/heap.c.
use jokerix.Base.{
  ℕ, zero, suc, ◌+◌, ◌/◌, ◌≤◌, ◌<◌, ◌≡◌, inl, inr, refl, arith, Bool-cases, ltb, ◌==◌, ap,
}
use jokerix.Heap.{left_leaf, right_leaf}

-- `k` steps towards the root, of a node counted from 1.
abbrev pub above : ℕ → ℕ → ℕ
above zero n = n
above (suc k) n = above k n / 2

-- `j` is `i` or a node below it.
abbrev pub Under : ℕ → ℕ → Type 0
Under i j = (k : ℕ) × (above k (j + 1) ≡ i + 1)

pub Under-refl : (i : ℕ) → Under i i
Under-refl i = (0, refl)

pub Under-left : (i j : ℕ) → Under (left_leaf i) j → Under i j
Under-left i j (k, e) = (suc k, omega arith)

pub Under-right : (i j : ℕ) → Under (right_leaf i) j → Under i j
Under-right i j (k, e) = (suc k, omega arith)

above-le : (k n : ℕ) → above k n ≤ n
above-le zero n = omega arith
above-le (suc k) n = omega (arith, above-le k n)

pub Under-le : (i j : ℕ) → Under i j → i ≤ j
Under-le i j (k, e) = omega (arith, above-le k (j + 1))

-- More steps lead at least to half of the node.
above-less : (k k' n : ℕ) → k < k' → above k' n ≤ above k n / 2
above-less k zero n lt = absurd (omega arith)
above-less k (suc k') n lt = elim (Bool-cases (k == k')) [
  | inl last ↦ let same : k ≡ k' = ground arith in rw same (omega arith)
  | inr more ↦ omega (arith, above-less k k' n (ground arith))
]

-- No node is below both children.
pub Under-apart : (i j : ℕ) → Under (left_leaf i) j → Under (right_leaf i) j → ⊥
Under-apart i j (k, e) (k', e') = elim (Bool-cases (ltb k k')) [
  | inl less ↦ omega (arith, above-less k k' (j + 1) (ground arith), e, e')
  | inr not_less ↦ elim (Bool-cases (k == k')) [
    | inl same ↦
        let at : k ≡ k' = ground arith in omega (arith, ap (λ x. above x (j + 1)) at, e, e')
    | inr more ↦ omega (arith, above-less k' k (j + 1) (ground arith), e, e')
  ]
]
