-- ===== src/Heap/Init.antt =====
-- buddyInit of kernel/heap.c: the whole heap is one free block.
use jokerix.Base.{
  ℕ, zero, suc, ◌+◌, ◌-◌, ◌*◌, ◌/◌, ◌^◌, ◌≤◌, ◌<◌, ◌≡◌, ◌≢◌, refl, inl, inr, arith, true, ◌==◌,
  Bool-cases, ◌∙◌, update, false, ltb,
}
use jokerix.Base.Powers.{pow_pos, pow_double, pow_mono, pow_less}
use jokerix.Heap.{
  BuddyTree, left_leaf, right_leaf, is_power_of_2, init_nodes, init_tree, buddy_init,
}
use jokerix.Base.Run.{Returns, returns}
use jokerix.Heap.Bits.{is_power_of_2-power, is_power_of_2-other}
use jokerix.Heap.Block.{free, Full}
use jokerix.Heap.Buddy.{IsTree}

-- The nodes that are still to be visited leave those before them.
init_nodes-before : (n i s : ℕ) (f : ℕ → ℕ) (j : ℕ) → j < i → init_nodes n i s f j ≡ f j
unfolding init_nodes
init_nodes-before zero i s f j lt = refl
init_nodes-before (suc n) i s f j lt =
    init_nodes-before n (i + 1) _ (update f i _) j (omega arith) ∙ ground arith

-- There is one level for a node.
level_unique : (a b n : ℕ) → 2 ^ a ≤ n → n < 2 ^ suc a → 2 ^ b ≤ n → n < 2 ^ suc b → a ≡ b
level_unique a b n p q r t =
    let up = pow_less a (suc b) (omega arith) in
    let down = pow_less b (suc a) (omega arith) in omega arith

init_nodes-level :
    (n i d e : ℕ) (f : ℕ → ℕ) (j : ℕ)
    → i + 1 ≡ 2 ^ d
    → init_nodes (suc n) i (2 ^ suc e) f j ≡ init_nodes n (i + 1) (2 ^ e) (update f i (2 ^ e)) j
unfolding init_nodes
init_nodes-level n i d e f j level =
    let test : is_power_of_2 (i + 1) ≡ true = rw level (is_power_of_2-power d) in
    let half : 2 ^ suc e / 2 ≡ 2 ^ e = omega arith in rw (test, half)

init_nodes-between :
    (n i d s : ℕ) (f : ℕ → ℕ) (j : ℕ)
    → 2 ^ d < i + 1
    → i + 1 < 2 ^ suc d
    → init_nodes (suc n) i s f j ≡ init_nodes n (i + 1) s (update f i s) j
unfolding init_nodes
init_nodes-between n i d s f j low high = rw (is_power_of_2-other d (i + 1) low high)

-- A node that does not begin a level is on the level before.
inner_level : (d i : ℕ) → i < 2 ^ d → i + 1 ≢ 2 ^ d → (d ≡ suc (d - 1)) × (2 ^ d ≡ 2 ^ (d - 1) * 2)
inner_level zero i low ne = absurd (ne (omega arith))
inner_level (suc d) i low ne =
    let less : suc d - 1 ≡ d = omega arith in rw less (refl, pow_double d)

-- Before node `i` the size is that of the level with 2 ^ `d` nodes behind the last one visited; in
-- a tree with 2 ^ `h` leaves the node `j` gets 2 ^ (`h` - `c`) where it is on the level with
-- 2 ^ `c` nodes.
init_nodes_lem :
    (n i d e h : ℕ) (f : ℕ → ℕ) (j c : ℕ)
    → d + e ≡ suc h
    → i < 2 ^ d
    → 2 ^ d ≤ i * 2 + 1
    → i ≤ j
    → j < i + n
    → 2 ^ c ≤ j + 1
    → j + 1 < 2 ^ suc c
    → c ≤ h
    → init_nodes n i (2 ^ e) f j ≡ 2 ^ (h - c)
unfolding init_nodes
init_nodes_lem zero i d e h f j c sum low high from to p q deep = absurd (omega arith)
init_nodes_lem (suc n) i d e h f j c sum low high from to p q deep =
    elim (Bool-cases (i + 1 == 2 ^ d)) [
      | inl full ↦
          let level : i + 1 ≡ 2 ^ d = ground arith in
          let below = pow_less d (suc h) (omega (arith, pow_mono (suc c) (suc h) (omega arith))) in
          let more : e ≡ suc (h - d) = omega arith in
          rw more (
            init_nodes-level n i d (h - d) f j level ∙ elim (Bool-cases (j == i)) [
              | inl here ↦
                  let at : j ≡ i = ground arith in
                  let same =
                    level_unique c d (j + 1) p q (omega arith) (omega (arith, pow_pos d)) in
                  init_nodes-before n (i + 1) (2 ^ (h - d)) (update f i (2 ^ (h - d))) j
                    (omega arith)
                  ∙ ground arith
              | inr later ↦
                  init_nodes_lem n (i + 1) (suc d) (h - d) h (update f i (2 ^ (h - d))) j c
                    (omega arith) (omega (arith, pow_pos d)) (omega arith) (ground arith)
                    (omega arith) p q deep
            ])
      | inr inner ↦
          let (above, wide) = inner_level d i low (ground arith) in
          init_nodes-between n i (d - 1) (2 ^ e) f j (ground arith)
            (ground (arith, pow_double (d - 1)))
          ∙ elim (Bool-cases (j == i)) [
            | inl here ↦
                let at : j ≡ i = ground arith in
                let same =
                  level_unique c (d - 1) (j + 1) p q (ground arith)
                    (ground (arith, pow_double (d - 1))) in
                init_nodes-before n (i + 1) (2 ^ e) (update f i (2 ^ e)) j (omega arith)
                ∙ ground arith
            | inr later ↦
                init_nodes_lem n (i + 1) d e h (update f i (2 ^ e)) j c sum (ground arith)
                  (omega arith) (ground arith) (omega arith) p q deep
          ]
    ]

-- Nodes that have the sizes of their levels are a free block.
levels-Full :
    (h : ℕ) (f : ℕ → ℕ)
    → ((j c : ℕ) → 2 ^ c ≤ j + 1 → j + 1 < 2 ^ suc c → c ≤ h → f j ≡ 2 ^ (h - c))
    → (k d i : ℕ) → d + k ≡ h
    → 2 ^ d ≤ i + 1
    → i + 1 < 2 ^ suc d
    → Full k f i
levels-Full h f at zero d i sum low high =
    let last : h - d ≡ 0 = omega arith in rw last at (at i d low high (omega arith))
levels-Full h f at (suc k) d i sum low high =
    let next : h - d ≡ suc k = omega arith in
    (
      rw next at (at i d low high (omega arith)),
      levels-Full h f at k (suc d) (left_leaf i) (omega arith) (omega arith) (omega arith),
      levels-Full h f at k (suc d) (right_leaf i) (omega arith) (omega arith) (omega arith),
    )

-- The tree that buddyInit makes is one free block.
pub init_tree-IsTree : (tree : BuddyTree) (h : ℕ) → h < 31 → IsTree (init_tree (2 ^ h) tree) h free
unfolding init_tree
init_tree-IsTree tree h small = record {
  size = refl;
  shows =
      let f = init_nodes (2 ^ h * 2 - 1) 0 (2 ^ h * 2) tree.longest in
      levels-Full h f
        (λ j c low high deep.
          let size =
            init_nodes_lem (2 ^ h * 2 - 1) 0 0 (suc h) h tree.longest j c (omega arith)
              (omega arith) (omega arith) (omega arith)
              (omega (arith, pow_mono (suc c) (suc h) (omega arith))) low high deep in
          rw (pow_double h) at size)
        h 0 0 (omega arith) (omega arith) (omega arith);
  small = small;
}

-- buddyInit with a power of two below 2 ^ 30 whose nodes the array holds ends, and makes the whole
-- heap one free block.
pub buddy_init-IsTree :
    (node_num : ℕ) (tree : BuddyTree) (h : ℕ)
    → h < 30
    → 2 ^ h * 2 - 1 ≤ node_num
    → Returns (λ tree'. IsTree tree' h free) (buddy_init node_num (2 ^ h) tree)
unfolding buddy_init
buddy_init-IsTree node_num tree h small fits =
    let inside : ltb node_num (2 ^ h * 2 - 1) ≡ false = ground arith in
    rw inside (returns (init_tree-IsTree tree h (omega arith)))
