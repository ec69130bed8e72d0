-- ===== src/UserHeap.antt =====
-- user/malloc.c: malloc and free over the same buddy system as the kernel's.
pub mod Laws
use jokerix.Base.{
  ℕ, ◌+◌, ◌-◌, ◌*◌, ◌/◌, ◌≤◌, ◌<◌, ◌||◌, Option, none, some, arith, ltb, ◌==◌, if◌then◌else◌,
}
use jokerix.Base.Run.{Run, ok, panic, ◌>>=◌}
use jokerix.Frame.{fill}
use jokerix.Heap.{BuddyTree, Heap, buddy_init, buddy_alloc, buddy_free, fix_size}

abbrev pub user_heap_size : ℕ
user_heap_size = 0x1000

abbrev pub user_block_size : ℕ
user_block_size = 0x20

abbrev pub user_heap_block_num : ℕ
user_heap_block_num = 0x80

abbrev pub user_buddy_node_num : ℕ
user_buddy_node_num = 0xff

-- The buddy system of this file has the text of kernel/heap.c, with uint32 for int.
abbrev pub user_fix_size : ℕ → ℕ
user_fix_size size = fix_size size

abbrev pub user_buddy_init : ℕ → BuddyTree → Run BuddyTree
user_buddy_init size tree = buddy_init user_buddy_node_num size tree

abbrev pub user_buddy_alloc : BuddyTree → ℕ → Run (Option ℕ × BuddyTree)
user_buddy_alloc tree size = buddy_alloc tree size

abbrev pub user_buddy_free : BuddyTree → ℕ → Run BuddyTree
user_buddy_free tree offset = buddy_free tree offset

unfoldable pub user_init_heap : BuddyTree → Run BuddyTree
user_init_heap tree = user_buddy_init user_heap_block_num tree

-- Of a positive size.
unfoldable pub user_block_count : ℕ → ℕ
user_block_count size = (size - 1) / user_block_size + 1

unfoldable pub malloc : (base : ℕ) → ℕ → Heap → Run (ℕ × Heap)
malloc base size h =
    let n = user_block_count size in
    let take = do
      (block, tree) ← user_buddy_alloc h.tree n
      elim block [
        | none ↦ panic
        | some block ↦
            let begin = base + block * user_block_size in
            ok (
              begin,
              record {
                tree = tree;
                bytes = fill (user_fix_size n * user_block_size) begin 0 h.bytes;
              },
            )
      ]
    in if size == 0 then ok (0, h) else take

unfoldable pub free : (base : ℕ) → ℕ → Heap → Run Heap
free base ptr h =
    let give = do
      tree ← user_buddy_free h.tree ((ptr - base) / user_block_size)
      ok (record h { tree = tree })
    in if ltb ptr base || ltb (base + user_heap_size - user_block_size) ptr then ok h else give
