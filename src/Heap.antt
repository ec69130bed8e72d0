-- ===== src/Heap.antt =====
-- kernel/heap.c: the buddy system over an array of nodes. The sizes are positive ints that the code
-- keeps below 2 ^ 31; a size that is not positive is 0 here. An index outside the nodes is a fault.
pub mod Laws
pub mod Under
pub mod Block
pub mod Alloc
pub mod Climb
pub mod Live
pub mod Bits
pub mod Sizes
pub mod Release
pub mod Buddy
pub mod Init
pub mod Kalloc
pub mod Room
pub mod Shape
pub mod Interface
use jokerix.Base.{
  ℕ, zero, suc, ◌+◌, ◌-◌, ◌*◌, ◌/◌, ◌%◌, ◌^◌, bit_and, bit_or, Bool, true, false, ◌||◌, Option,
  none, some, ltb, leb, ◌==◌, if◌then◌else◌, update,
}
use jokerix.Base.Run.{Run, ok, panic, fault, out_of_fuel, ◌>>=◌}
use jokerix.Frame.{fill}

abbrev pub kernel_heap_size : ℕ
kernel_heap_size = 0x800000

abbrev pub min_block_size : ℕ
min_block_size = 0x40

abbrev pub heap_block_num : ℕ
heap_block_num = 0x20000

abbrev pub buddy_node_num : ℕ
buddy_node_num = 0x3ffff

abbrev pub left_leaf : ℕ → ℕ
left_leaf index = index * 2 + 1

abbrev pub right_leaf : ℕ → ℕ
right_leaf index = index * 2 + 2

-- Of a node that is not the root.
abbrev pub parent : ℕ → ℕ
parent index = (index + 1) / 2 - 1

-- Of a positive number.
abbrev pub is_power_of_2 : ℕ → Bool
is_power_of_2 x = bit_and x (x - 1) == 0

abbrev pub max : ℕ → ℕ → ℕ
max a b = if ltb b a then a else b

-- `buddyTree`
pub record BuddyTree : Type 0 where
  pub size : ℕ
  pub longest : ℕ → ℕ

-- Of a positive size; the result is a word of 32 bits. For a size above 2 ^ 30 it is 2 ^ 31, where
-- n + 1 overflows the int of this file (in user/malloc.c it is a uint32); kalloc, whose size is an
-- int, asks for at most 2 ^ 25 smallest blocks.
unfoldable pub fix_size : ℕ → ℕ
fix_size size =
    let a = size - 1 in
    let b = bit_or a (a / 2) in
    let c = bit_or b (b / 4) in
    let d = bit_or c (c / 2 ^ 4) in
    let e = bit_or d (d / 2 ^ 8) in (bit_or e (e / 2 ^ 16) + 1) % 2 ^ 32

-- The loop of buddyInit, with `n` nodes left from `i` on.
unfoldable pub init_nodes : ℕ → ℕ → ℕ → (ℕ → ℕ) → ℕ → ℕ
init_nodes zero i node_size longest = longest
init_nodes (suc n) i node_size longest =
    let here = if is_power_of_2 (i + 1) then node_size / 2 else node_size in
    init_nodes n (i + 1) here (update longest i here)

unfoldable pub init_tree : ℕ → BuddyTree → BuddyTree
init_tree size tree = record {
  size = size;
  longest = init_nodes (size * 2 - 1) 0 (size * 2) tree.longest;
}

-- buddyInit of a positive size below 2 ^ 30, where the array `longest` has `node_num` nodes.
unfoldable pub buddy_init : (node_num : ℕ) → ℕ → BuddyTree → Run BuddyTree
buddy_init node_num size tree =
    if ltb node_num (size * 2 - 1) then fault else ok (init_tree size tree)

unfoldable pub init_heap : BuddyTree → Run BuddyTree
init_heap tree = buddy_init buddy_node_num heap_block_num tree

-- The child that has room with less to spare.
unfoldable pub choose : (ℕ → ℕ) → ℕ → ℕ → ℕ
choose longest size index =
    let left = longest (left_leaf index) in
    let right = longest (right_leaf index) in
    if leb left right
    then (if leb size left then left_leaf index else right_leaf index)
    else (if leb size right then right_leaf index else left_leaf index)

-- `for(nodeSize = …; nodeSize != size; nodeSize /= 2)`
unfoldable pub find_node : ℕ → (ℕ → ℕ) → ℕ → ℕ → ℕ → Run (ℕ × ℕ)
find_node zero longest size node_size index = out_of_fuel
find_node (suc fuel) longest size node_size index =
    let below = find_node fuel longest size (node_size / 2) (choose longest size index) in
    if node_size == size then ok (index, node_size) else below

-- `while(index)` of buddyAlloc.
unfoldable pub raise : ℕ → (ℕ → ℕ) → ℕ → Run (ℕ → ℕ)
raise zero longest index = out_of_fuel
raise (suc fuel) longest index =
    let up = parent index in
    let most = max (longest (left_leaf up)) (longest (right_leaf up)) in
    let above = raise fuel (update longest up most) up in if index == 0 then ok longest else above

-- The number of blocks that buddyAlloc takes for a size.
unfoldable pub round_up : ℕ → ℕ
round_up size = if size == 0 then 1 else if is_power_of_2 size then size else fix_size size

-- `none` is the source's -1. An int is halved to 0 in 31 rounds.
unfoldable pub buddy_alloc : BuddyTree → ℕ → Run (Option ℕ × BuddyTree)
buddy_alloc tree size =
    let fixed = round_up size in
    let take = do
      (index, node_size) ← find_node 32 tree.longest fixed tree.size 0
      longest ← raise (index + 1) (update tree.longest index 0) index
      ok (some ((index + 1) * node_size - tree.size), record tree { longest = longest })
    in if ltb (tree.longest 0) fixed then ok (none, tree) else take

-- The first loop of buddyFree: the node that was taken and its size, or `none` from the root.
unfoldable pub find_taken : ℕ → (ℕ → ℕ) → ℕ → ℕ → Run (Option (ℕ × ℕ))
find_taken zero longest index node_size = out_of_fuel
find_taken (suc fuel) longest index node_size =
    let above = find_taken fuel longest (parent index) (node_size * 2) in
    if longest index == 0
    then ok (some (index, node_size))
    else if index == 0
    then ok none
    else above

-- `while(index)` of buddyFree.
unfoldable pub merge : ℕ → (ℕ → ℕ) → ℕ → ℕ → Run (ℕ → ℕ)
merge zero longest index node_size = out_of_fuel
merge (suc fuel) longest index node_size =
    let up = parent index in
    let left = longest (left_leaf up) in
    let right = longest (right_leaf up) in
    let whole = if left + right == node_size * 2 then node_size * 2 else max left right in
    let above = merge fuel (update longest up whole) up (node_size * 2) in
    if index == 0 then ok longest else above

-- The first index is that of the offset's leaf. Without blocks it is -1, and behind the last block
-- it is not among the size * 2 - 1 nodes that `longest` holds.
unfoldable pub buddy_free : BuddyTree → ℕ → Run BuddyTree
buddy_free tree offset =
    let start = offset + tree.size - 1 in
    let release = do
      taken ← find_taken (start + 1) tree.longest start 1
      elim taken [
        | none ↦ ok tree
        | some (index, node_size) ↦ do
          longest ← merge (index + 1) (update tree.longest index node_size) index node_size
          ok (record tree { longest = longest })
      ]
    in if leb (tree.size * 2 - 1) start then fault else release

-- The number of blocks that kalloc asks for, with the `&&` of the source.
unfoldable pub block_count : ℕ → ℕ
block_count size = if size == 0 then size / min_block_size else size / min_block_size + 1

-- The tree and the memory; `base` is the address of HEAP.
pub record Heap : Type 0 where
  pub tree : BuddyTree
  pub bytes : ℕ → ℕ

unfoldable pub kalloc : (base : ℕ) → ℕ → Heap → Run (ℕ × Heap)
kalloc base size h =
    let n = block_count size in
    let take = do
      (block, tree) ← buddy_alloc h.tree n
      elim block [
        | none ↦ panic
        | some block ↦
            let begin = base + block * min_block_size in
            ok (
              begin,
              record { tree = tree; bytes = fill (fix_size n * min_block_size) begin 0 h.bytes },
            )
      ]
    in if size == 0 then ok (0, h) else take

unfoldable pub kfree : (base : ℕ) → ℕ → Heap → Run Heap
kfree base ptr h =
    let free = do
      tree ← buddy_free h.tree ((ptr - base) / min_block_size)
      ok (record h { tree = tree })
    in if ltb ptr base || ltb (base + kernel_heap_size - min_block_size) ptr then ok h else free
