-- ===== src/UserHeap/Laws.antt =====
-- What malloc of user/malloc.c gives a program, by the theorems on the buddy system.
use jokerix.Base.{ℕ, ◌+◌, ◌-◌, ◌*◌, ◌/◌, ◌^◌, ◌≤◌, ◌<◌, ◌≡◌, ◌∙◌, arith, false, ◌||◌, ltb, ◌==◌}
use jokerix.Base.Run.{Returns, returns, Returns-bind, ◌>>=◌}
use jokerix.Base.Powers.{pow_pos, pow_mono}
use jokerix.Heap.{BuddyTree, Heap, fix_size, round_up}
use jokerix.Heap.Block.{Block, free, HasRoom}
use jokerix.Heap.Live.{Taken-bound, Taken-Released}
use jokerix.Heap.Sizes.{fix_size_up, round_up-fix_size}
use jokerix.Heap.Buddy.{IsTree, buddy_alloc_takes, buddy_free_releases}
use jokerix.Heap.Init.{buddy_init-IsTree}
use jokerix.Heap.Kalloc.{Given, Taken-Given}
use jokerix.UserHeap.{
  user_buddy_node_num, user_heap_size, user_block_size, user_block_count, user_init_heap, malloc,
}
use jokerix.UserHeap

-- The blocks that malloc asks for hold the size, and less than one block more than it.
user_block_count_lem :
    (size : ℕ)
    → 0 < size
    → (size ≤ user_block_count size * user_block_size)
      × (user_block_count size * user_block_size < size + user_block_size)
unfolding user_block_count
user_block_count_lem size pos = omega arith

-- A program's heap is one free block of 2 ^ 7 smallest blocks at the start.
pub user_init_heap-IsTree :
    (tree : BuddyTree) → Returns (λ tree'. IsTree tree' 7 free) (user_init_heap tree)
unfolding user_init_heap
user_init_heap-IsTree tree =
    buddy_init-IsTree user_buddy_node_num tree 7 (omega arith) (omega arith)

module _ (base height k size : ℕ) (t : Block) (h : Heap) (w : IsTree h.tree height t)
    (some_bytes : 0 < size) (small : user_block_count size ≤ 2 ^ 31)
    (blocks : fix_size (user_block_count size) ≡ 2 ^ k) where
  some_blocks : 0 < user_block_count size
  some_blocks = omega (arith, user_block_count_lem size some_bytes)

  rounded : round_up (user_block_count size) ≡ 2 ^ k
  rounded = round_up-fix_size (user_block_count size) some_blocks small ∙ blocks

  holds_size : size ≤ 2 ^ k * user_block_size
  holds_size =
      let (d, e, enough, less) = fix_size_up (user_block_count size) some_blocks small in
      omega (arith, user_block_count_lem size some_bytes)

  -- For a positive size of at most 2 ^ 31 smallest blocks, fixSize makes 2 ^ `k` of their number:
  -- while a free block of 2 ^ `k` is left, malloc returns one that holds the size, was free and lies
  -- apart from every block in use; these stay in use, its bytes are cleared, and no other byte
  -- changes.
  pub malloc_gives :
      HasRoom height k t
      → Returns (λ (p, h'). Given user_block_size base height k size t h p h') (malloc base size h)
  unfolding malloc
  malloc_gives room =
      let positive : (size == 0) ≡ false = ground arith in
      rw positive (
        Returns-bind (buddy_alloc_takes h.tree height k (user_block_count size) t w rounded room)
          λ (got, tree) (offset, t', e, taken, w').
            rw (e, blocks)
              (returns (
                Taken-Given user_block_size base height k size t h offset t' tree holds_size taken
                  w')))

  -- In a heap of at most 2 ^ 7 smallest blocks, free of what malloc returned gives the blocks that
  -- there were.
  free-malloc :
      height ≤ 7
      → HasRoom height k t
      → Returns
          (λ h'. IsTree h'.tree height t)
          (malloc base size h >>= λ (p, h'). UserHeap.free base p h')
  unfolding UserHeap.free
  free-malloc shallow room = Returns-bind (malloc_gives room) λ (p, h') g.
      let in_heap : g.offset < 2 ^ 7 =
        omega (arith, Taken-bound g.taken, pow_pos k, pow_mono height 7 shallow) in
      let inside : (ltb p base || ltb (base + user_heap_size - user_block_size) p) ≡ false =
        ground (arith, g.at) in
      let number : (p - base) / user_block_size ≡ g.offset = omega (arith, g.at) in
      rw (inside, number)
        (Returns-bind
          (buddy_free_releases h'.tree height g.offset g.block t g.tree
            (Taken-Released h.tree.longest 0 g.taken w.shows))
          λ tree w'. returns w')
