-- ===== src/Frame/Tree.antt =====
-- The segment tree of kernel/memory.c: its invariant, and the two walks over it.
use jokerix.Base.{
  ℕ, zero, suc, ◌+◌, ◌*◌, ◌/◌, ◌≤◌, ◌<◌, ◌≡◌, refl, ap, ◌≢◌, ◌⊎◌, inl, inr, bit_and, ltb, ◌==◌,
  if◌then◌else◌, update, arith, Bool-cases, lt→ltb,
}
use jokerix.Base.Run.{Returns, returns, Returns-bind, Returns-map}
use jokerix.Frame.{Sta, both, descend, ascend, mark}

-- On bits `&` is the product.
pub bit_and-bits : (a b : ℕ) → a ≤ 1 → b ≤ 1 → bit_and a b ≡ a * b
bit_and-bits zero zero p q = refl
bit_and-bits zero (suc zero) p q = refl
bit_and-bits (suc zero) zero p q = refl
bit_and-bits (suc zero) (suc zero) p q = refl
bit_and-bits (suc (suc a)) b p q = absurd (omega arith)
bit_and-bits a (suc (suc b)) p q = absurd (omega arith)

-- Every inner node but `hole` is the conjunction of its children.
pub record IsBuilt (size hole : ℕ) (node : ℕ → ℕ) : Type 0 where
  pub bits : (i : ℕ) → 0 < i → i < size * 2 → node i ≤ 1
  pub inner : (i : ℕ) → 0 < i → i < size → i ≢ hole → node i ≡ node (i * 2) * node (i * 2 + 1)

-- One write on the way up moves the hole to the parent.
mend-IsBuilt :
    (size p : ℕ) (node : ℕ → ℕ)
    → 0 < p
    → p < size
    → IsBuilt size p node
    → IsBuilt size (p / 2) (update node p (both node p))
mend-IsBuilt size p node pos h b = record {
  bits = λ i q r. ground (arith, product, b.bits i, b.bits (p * 2), b.bits (p * 2 + 1), small);
  inner = λ i q r ne. ground (arith, product, b.inner i);
}
  where
    product : both node p ≡ node (p * 2) * node (p * 2 + 1)
    product =
        bit_and-bits _ _ (b.bits (p * 2) (omega arith) (omega arith))
          (b.bits (p * 2 + 1) (omega arith) (omega arith))

    small : both node p ≤ 1
    small = grind (arith, product, b.bits (p * 2), b.bits (p * 2 + 1))

-- The walk to the root mends the one node that is out of date, and writes no leaf.
pub ascend_mends :
    (fuel size p : ℕ) (node : ℕ → ℕ)
    → p < fuel
    → p < size
    → IsBuilt size p node
    → Returns
        (λ after. IsBuilt size 0 after × ((i : ℕ) → size ≤ i → after i ≡ node i))
        (ascend fuel node p)
unfolding ascend
ascend_mends zero size p node f h b = absurd (omega arith)
ascend_mends (suc fuel) size zero node f h b = returns (b, λ i g. refl)
ascend_mends (suc fuel) size (suc p) node f h b = rw (lt→ltb 0 (suc p) (omega arith)) (
    Returns-map
      (ascend_mends fuel size (suc p / 2) _ (omega arith) (omega arith)
        (mend-IsBuilt size (suc p) node (omega arith) h b))
      λ after r. (r.0, λ i g. ground (arith, r.1 i)))

-- A write to a leaf `p` and the walk to the root change no other leaf and mend the tree.
pub mark_lem :
    (v : ℕ) (s : Sta) (p : ℕ)
    → v ≤ 1
    → s.first_single ≤ p
    → p < s.first_single * 2
    → IsBuilt s.first_single 0 s.node
    → Returns
        (λ s'.
          IsBuilt s.first_single 0 s'.node
          × (s'.first_single ≡ s.first_single)
          × (s'.length ≡ s.length)
          × (s'.start_ppn ≡ s.start_ppn)
          × ((i : ℕ) → s.first_single ≤ i → s'.node i ≡ update s.node p v i))
        (mark v s p)
unfolding mark
mark_lem v s p small low high b =
    Returns-bind (ascend_mends (p + 1) s.first_single (p / 2) _ (omega arith) (omega arith) start)
      λ node r. returns (r.0, refl, refl, refl, λ i g. r.1 i g)
  where
    start : IsBuilt s.first_single (p / 2) (update s.node p v)
    start = record {
      bits = λ i q r. ground (arith, b.bits i);
      inner = λ i q r ne. ground (arith, b.inner i);
    }

-- Where the root is not full, the walk down ends at a free leaf.
pub descend_finds :
    (fuel size p : ℕ) (node : ℕ → ℕ)
    → IsBuilt size 0 node
    → 0 < p
    → p < size * 2
    → 0 < fuel
    → size < p + fuel
    → node p ≡ 0
    → Returns (λ q. (size ≤ q) × (q < size * 2) × (node q ≡ 0)) (descend fuel size node p)
unfolding descend
descend_finds zero size p node b pos high f0 f e = elim f0 [ ]
descend_finds (suc fuel) size p node b pos high f0 f e = elim (Bool-cases (ltb p size)) [
  | inl inside ↦ rw inside (
      descend_finds fuel size (if node (p * 2) == 0 then p * 2 else p * 2 + 1) node b (ground arith)
        (ground arith) (ground arith) (ground arith) (ground (arith, b.inner p, b.bits (p * 2))))
  | inr leaf ↦ rw leaf (returns (ground arith, high, e))
]

halves : (p : ℕ) → (p ≡ p / 2 * 2) ⊎ (p ≡ p / 2 * 2 + 1)
halves p = omega arith

parent-free :
    (size p : ℕ) (node : ℕ → ℕ)
    → IsBuilt size 0 node
    → 1 < p
    → p < size * 2
    → node p ≡ 0
    → node (p / 2) ≡ 0
parent-free size p node b big high e =
    let up = b.inner (p / 2) (omega arith) (omega arith) (omega arith) in
    elim (halves p) [
      | inl even ↦
          let left : node (p / 2 * 2) ≡ 0 = rw (← even) e in
          omega (arith, up, ap (λ (t : ℕ). t * node (p / 2 * 2 + 1)) left)
      | inr odd ↦
          let right : node (p / 2 * 2 + 1) ≡ 0 = rw (← odd) e in
          omega (arith, up, ap (λ (t : ℕ). node (p / 2 * 2) * t) right)
    ]

-- A free leaf keeps every node above it free, the root too.
pub root-free :
    (fuel size p : ℕ) (node : ℕ → ℕ)
    → p < fuel
    → IsBuilt size 0 node
    → 0 < p
    → p < size * 2
    → node p ≡ 0
    → node 1 ≡ 0
root-free zero size p node f b pos high e = absurd (omega arith)
root-free (suc fuel) size zero node f b pos high e = absurd (omega arith)
root-free (suc fuel) size (suc zero) node f b pos high e = e
root-free (suc fuel) size (suc (suc p)) node f b pos high e =
    root-free fuel size (suc (suc p) / 2) node (omega arith) b (omega arith) (omega arith)
      (parent-free size (suc (suc p)) node b (omega arith) high e)
