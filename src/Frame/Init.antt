-- ===== src/Frame/Init.antt =====
-- newAllocator of kernel/memory.c: the tree that it builds, and the pages that are free in it.
use native.Mathlib.Nat.{pow-suc}
use jokerix.Base.{
  ℕ, zero, suc, ◌+◌, ◌-◌, ◌*◌, ◌^◌, ◌≤◌, ◌<◌, ◌≡◌, refl, inl, inr, false, ◌&&◌, ltb, leb,
  if◌then◌else◌, update, arith, Bool-cases, ltb-false, ap, ◌↔◌, ◌%◌,
}
use jokerix.Base.Run.{Returns, returns, Returns-bind}
use jokerix.Base.Words.{add64, sub64}
use jokerix.Frame.{node_count, both, tree_size, fill, build, new_allocator}
use jokerix.Frame.Tree.{IsBuilt, bit_and-bits}
use jokerix.Frame.Pages.{IsValid, IsManaged, IsFree}

pow_pos : (k : ℕ) → 0 < 2 ^ k
pow_pos zero = omega arith
pow_pos (suc k) = omega (arith, pow-suc 2 k, pow_pos k)

-- The loop stops at the least power of two that is no less than the bound.
tree_size-le :
    (k fuel bound size : ℕ)
    → k < fuel
    → bound ≤ 0x8000
    → 0 < size
    → size < bound * 2
    → size * 2 ^ k ≡ 0x8000
    → Returns (λ r. (bound ≤ r) × (r < bound * 2) × (r ≤ 0x8000)) (tree_size fuel bound size)
unfolding tree_size
tree_size-le k zero bound size f small pos tight e = elim f [ ]
tree_size-le zero (suc fuel) bound size f small pos tight e =
    rw (ltb-false size bound (omega arith)) (returns (omega arith))
tree_size-le (suc k) (suc fuel) bound size f small pos tight e =
    elim (Bool-cases (ltb size bound)) [
      | inl less ↦
          let wrap : (size * 2) % 2 ^ 64 ≡ size * 2 = ground arith in
          rw (less, wrap)
            (tree_size-le k fuel bound (size * 2) (omega arith) small (omega arith) (ground arith)
              (omega (arith, e, ap (λ (t : ℕ). size * t) (pow-suc 2 k))))
      | inr enough ↦
          let once : size * 1 ≤ size * 2 ^ suc k = grind (arith, pow_pos (suc k)) in
          rw enough (returns (ground arith, tight, omega arith))
    ]

pub fill_lem :
    (count first v : ℕ) (node : ℕ → ℕ) (j : ℕ)
    → fill count first v node j ≡ (if leb first j && ltb j (first + count) then v else node j)
unfolding fill
fill_lem zero first v node j = ground arith
fill_lem (suc count) first v node j =
    ground (arith, fill_lem count (first + 1) v (update node first v) j)

-- The loop from `n` down to 1 sets the inner nodes from their children, and keeps the leaves.
build_lem :
    (n size : ℕ) (node : ℕ → ℕ)
    → n < size
    → ((i : ℕ) → 0 < i → i < size * 2 → node i ≤ 1)
    → ((i : ℕ) → n < i → i < size → node i ≡ node (i * 2) * node (i * 2 + 1))
    → IsBuilt size 0 (build n node) × ((i : ℕ) → size ≤ i → build n node i ≡ node i)
unfolding build
build_lem zero size node h bits inner =
    (record { bits = bits; inner = λ i p q ne. inner i p q }, λ i p. refl)
build_lem (suc n) size node h bits inner =
    let product : both node (suc n) ≡ node (suc n * 2) * node (suc n * 2 + 1) =
      bit_and-bits _ _ (bits (suc n * 2) (omega arith) (omega arith))
        (bits (suc n * 2 + 1) (omega arith) (omega arith)) in
    let small : both node (suc n) ≤ 1 =
      grind (arith, product, bits (suc n * 2), bits (suc n * 2 + 1)) in
    let ih =
      build_lem n size (update node (suc n) (both node (suc n))) (omega arith)
        (λ i p q. ground (arith, bits i, small)) (λ i p q. ground (arith, inner i, product)) in
    (ih.0, λ i p. ground (arith, ih.1 i))

-- The nodes before the inner ones are built: 0 for the managed leaves, 1 for all else.
abbrev blank : ℕ → ℕ → (ℕ → ℕ) → ℕ → ℕ
blank length size old = fill (length - 1) (size + 1) 0 (fill (size * 2 - 1) 1 1 old)

module _ (length size : ℕ) (old : ℕ → ℕ) (wide : length + 2 ≤ size) where
  blank_lem :
      (j : ℕ)
      → 0 < j
      → j < size * 2
      → blank length size old j ≡ (if leb (size + 1) j && ltb j (size + length) then 0 else 1)
  blank_lem j p q = ground (
    arith,
    fill_lem (length - 1) (size + 1) 0 (fill (size * 2 - 1) 1 1 old) j,
    fill_lem (size * 2 - 1) 1 1 old j,
  )

  blank-IsBuilt :
      IsBuilt size 0 (build (size - 1) (blank length size old))
      × ((i : ℕ) → size ≤ i → build (size - 1) (blank length size old) i ≡ blank length size old i)
  blank-IsBuilt =
      build_lem (size - 1) size (blank length size old) (omega arith)
        (λ i p q. ground (arith, blank_lem i)) (λ i p q. absurd (omega arith))

  initial-IsValid :
      (start : ℕ)
      → size ≤ 0x8000
      → 0 < length
      → start < 2 ^ 51
      → IsValid (record {
        node = build (size - 1) (blank length size old);
        first_single = size;
        length = length;
        start_ppn = start;
      })
  initial-IsValid start small pos below =
      let (built, leaves) = blank-IsBuilt in
      record {
        built = built;
        room = omega arith;
        wide = omega arith;
        low_pad = ground (arith, leaves size, blank_lem size);
        high_pad = λ i p q. ground (arith, leaves (size + i), blank_lem (size + i));
        fits = omega arith;
      }

-- For a range of pages that fits the array, every page from `start` up to `end - 2` is free; the
-- last page of the range is not managed.
pub new_allocator_frees :
    (old : ℕ → ℕ) (start end : ℕ)
    → 0 < start
    → start < end
    → end ≤ start + 0x7ffe
    → end < 2 ^ 51
    → Returns
        (λ s.
          IsValid s
          × ((q : ℕ) → IsManaged s q ↔ ((start ≤ q) × (q + 1 < end)))
          × ((q : ℕ) → IsManaged s q → IsFree s q))
        (new_allocator old start end)
unfolding new_allocator
new_allocator_frees old start end pos below room small =
    let length : sub64 end start ≡ end - start = omega arith in
    let bound : add64 (end - start) 2 ≡ end - start + 2 = omega arith in
    rw (length, bound)
      (Returns-bind
        (tree_size-le 15 65 (end - start + 2) 1 (omega arith) (omega arith) (omega arith)
          (omega arith) refl)
        λ size r.
          let fits : ltb node_count (size * 2) ≡ false = ground arith in
          let before : sub64 start 1 ≡ start - 1 = omega arith in
          let leaves = (blank-IsBuilt (end - start) size old r.0).1 in
          rw (fits, before)
            (returns (
              initial-IsValid (end - start) size old r.0 (start - 1) r.2 (omega arith)
                  (omega arith),
              λ q. (λ m. omega arith, λ m. omega arith),
              λ q m. ground (
                arith,
                leaves (q - (start - 1) + size),
                blank_lem (end - start) size old r.0 (q - (start - 1) + size),
              ),
            )))
