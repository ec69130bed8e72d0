-- ===== src/Heap/Laws.antt =====
-- kernel/heap.c: bounds of what is asked for, and the end of the loops of buddyFree.
use jokerix.Base.{
  ℕ, zero, suc, ◌+◌, ◌*◌, ◌≤◌, ◌<◌, ◌≡◌, ◌-◌, ◌∙◌, refl, inl, inr, false, Option, none, some, arith,
  ◌==◌, Bool-cases, update, leb,
}
use jokerix.Base.Run.{ok, Returns, returns, Returns-bind, Returns-map, ◌>>=◌}
use jokerix.Heap.{BuddyTree, min_block_size, parent, find_taken, merge, buddy_free, block_count}

-- For a positive size, the blocks that kalloc asks for hold more than the size, and at most one
-- block more.
pub block_count_lem :
    (size : ℕ)
    → 0 < size
    → (size < block_count size * min_block_size)
      × (block_count size * min_block_size ≤ size + min_block_size)
unfolding block_count
block_count_lem size pos =
    let some_bytes : (size == 0) ≡ false = ground arith in rw some_bytes (omega arith)

-- What the first loop of buddyFree comes to: a node that was taken, not below the first one.
abbrev Found : (ℕ → ℕ) → ℕ → Option (ℕ × ℕ) → Type 0
Found longest start none = Unit {0}
Found longest start (some (index, node_size)) = (index ≤ start) × (longest index ≡ 0)

Found-weaken :
    (longest : ℕ → ℕ) (a b : ℕ) (o : Option (ℕ × ℕ)) → a ≤ b → Found longest a o → Found longest b o
Found-weaken longest a b none h f = tt
Found-weaken longest a b (some (index, node_size)) h f = (omega arith, f.1)

find_taken-Found :
    (fuel : ℕ) (longest : ℕ → ℕ) (index node_size : ℕ)
    → index < fuel
    → Returns (Found longest index) (find_taken fuel longest index node_size)
unfolding find_taken
find_taken-Found zero longest index node_size f = elim f [ ]
find_taken-Found (suc fuel) longest index node_size f = elim (Bool-cases (longest index == 0)) [
  | inl taken ↦ rw taken (returns (omega arith, ground arith))
  | inr free ↦ elim (Bool-cases (index == 0)) [
    | inl root ↦ rw (free, root) (returns tt)
    | inr inner ↦
        rw (free, inner)
          (Returns-map (find_taken-Found fuel longest (parent index) (node_size * 2) (ground arith))
            λ o r. Found-weaken longest (parent index) index o (omega arith) r)
  ]
]

merge_ends :
    (fuel : ℕ) (longest : ℕ → ℕ) (index node_size : ℕ)
    → index < fuel
    → Returns
        (λ after. (j : ℕ) → index ≤ j → after j ≡ longest j)
        (merge fuel longest index node_size)
unfolding merge
merge_ends zero longest index node_size f = elim f [ ]
merge_ends (suc fuel) longest index node_size f = elim (Bool-cases (index == 0)) [
  | inl root ↦ rw root (returns (λ j h. refl))
  | inr inner ↦ rw inner (
      Returns-map (merge_ends fuel _ (parent index) (node_size * 2) (ground arith))
        λ after r j h. r j (ground arith) ∙ ground arith)
]

-- buddyFree comes to its end for every offset of a block of the tree, whatever the nodes hold. It
-- changes no node behind the leaf of the offset and keeps the number of blocks.
pub buddy_free_ends :
    (tree : BuddyTree) (offset : ℕ)
    → offset < tree.size
    → Returns
        (λ freed.
          (freed.size ≡ tree.size)
          × ((j : ℕ) → offset + tree.size - 1 < j → freed.longest j ≡ tree.longest j))
        (buddy_free tree offset)
unfolding buddy_free
buddy_free_ends tree offset inside =
    let start = offset + tree.size - 1 in
    let a_node : leb (tree.size * 2 - 1) start ≡ false = ground arith in
    rw a_node (
      Returns-bind (find_taken-Found (start + 1) tree.longest start 1 (omega arith))
        λ taken found. finish taken found)
  where
    finish :
        (taken : Option (ℕ × ℕ))
        → Found tree.longest (offset + tree.size - 1) taken
        → Returns
            (λ (freed : BuddyTree).
              (freed.size ≡ tree.size)
              × ((j : ℕ) → offset + tree.size - 1 < j → freed.longest j ≡ tree.longest j))
            (elim taken [
              | none ↦ ok tree
              | some (index, node_size) ↦
                  merge (index + 1) (update tree.longest index node_size) index node_size
                  >>= λ longest. ok (record tree { longest = longest })
            ])
    finish none f = returns (refl, λ j h. refl)
    finish (some (index, node_size)) f =
        Returns-bind
          (merge_ends (index + 1) (update tree.longest index node_size) index node_size
            (omega arith))
          λ longest r. returns (refl, λ j h. r j (omega arith) ∙ ground arith)
