-- ===== src/Tests/Blocks.antt =====
-- The theorems on the heaps at a heap of four blocks.
use jokerix.Base.{ℕ, ◌*◌, ◌^◌, ◌≤◌, ◌<◌, ◌≡◌, refl, ltb, ◌==◌, if◌then◌else◌, arith}
use jokerix.Base.Run.{panic, Returns, ◌>>=◌}
use jokerix.Heap.{
  BuddyTree, Heap, min_block_size, fix_size, round_up, init_tree, buddy_node_num, buddy_init,
  buddy_alloc, buddy_free, block_count, kalloc, kfree,
}
use jokerix.Heap.Block.{free, used, Released, HasRoom}
use jokerix.Heap.Sizes.{fix_size_lem}
use jokerix.Heap.Buddy.{IsTree, Allocated, buddy_alloc_takes, buddy_free_releases}
use jokerix.Heap.Init.{init_tree-IsTree, buddy_init-IsTree}
use jokerix.Heap.Kalloc.{Given, kalloc_gives, kalloc_panics, kfree-kalloc}
use jokerix.UserHeap.{user_block_size, user_block_count, malloc}
use jokerix.UserHeap.Laws.{malloc_gives}

abbrev raw : BuddyTree
raw = record { size = 0; longest = λ i. 9 }

abbrev four : BuddyTree
four = init_tree 4 raw

buddy_init-IsTree_example :
    Returns (λ tree'. IsTree tree' 17 free) (buddy_init buddy_node_num (2 ^ 17) raw)
buddy_init-IsTree_example = buddy_init-IsTree buddy_node_num raw 17 (omega arith) (omega arith)

four-IsTree : IsTree four 2 free
four-IsTree = init_tree-IsTree raw 2 (omega arith)

two_blocks : round_up 2 ≡ 2 ^ 1
unfolding round_up
two_blocks = refl

buddy_alloc_takes_example : Returns (Allocated 2 1 free) (buddy_alloc four 2)
buddy_alloc_takes_example =
    buddy_alloc_takes four 2 1 2 free four-IsTree two_blocks (HasRoom.here (omega arith))

-- The four blocks in use.
abbrev full : BuddyTree
full = record { size = 4; longest = λ i. if i == 0 then 0 else if ltb i 3 then 2 else 1 }

full-IsTree : IsTree full 2 used
full-IsTree = record {
  size = refl;
  shows = (refl, ((refl, refl, refl), (refl, refl, refl)));
  small = omega arith;
}

buddy_free_releases_example : Returns (λ tree'. IsTree tree' 2 free) (buddy_free full 3)
buddy_free_releases_example =
    buddy_free_releases full 2 3 used free full-IsTree (Released.here (omega arith))

fix_size_lem_example : (k : ℕ) × (fix_size 5 ≡ 2 ^ k) × (5 ≤ 2 ^ k) × (2 ^ k < 5 * 2) × (k ≤ 30)
fix_size_lem_example = fix_size_lem 5 (omega arith) (omega arith)

abbrev heap : Heap
heap = record { tree = four; bytes = λ a. 7 }

hundred_small : block_count 100 ≤ 2 ^ 31
unfolding block_count
hundred_small = omega arith

hundred_blocks : fix_size (block_count 100) ≡ 2 ^ 1
unfolding fix_size block_count
hundred_blocks = refl

kalloc_gives_example :
    Returns (λ (p, h'). Given min_block_size 4096 2 1 100 free heap p h') (kalloc 4096 100 heap)
kalloc_gives_example =
    kalloc_gives 4096 2 1 100 free heap four-IsTree (omega arith) hundred_small hundred_blocks
      (HasRoom.here (omega arith))

kfree-kalloc_example :
    Returns (λ h'. IsTree h'.tree 2 free) (kalloc 4096 100 heap >>= λ (p, h'). kfree 4096 p h')
kfree-kalloc_example =
    kfree-kalloc 4096 2 1 100 free heap four-IsTree (omega arith) hundred_small hundred_blocks
      (omega arith) (HasRoom.here (omega arith))

large_small : block_count 300 ≤ 2 ^ 31
unfolding block_count
large_small = omega arith

large_blocks : fix_size (block_count 300) ≡ 2 ^ 3
unfolding fix_size block_count
large_blocks = refl

no_room : HasRoom 2 3 free → ⊥
no_room (HasRoom.here le) = omega arith

kalloc_panics_example : kalloc 4096 300 heap ≡ panic
kalloc_panics_example =
    kalloc_panics 4096 2 3 300 free heap four-IsTree (omega arith) large_small large_blocks no_room

sixty_small : user_block_count 60 ≤ 2 ^ 31
unfolding user_block_count
sixty_small = omega arith

sixty_blocks : fix_size (user_block_count 60) ≡ 2 ^ 1
unfolding fix_size user_block_count
sixty_blocks = refl

malloc_gives_example :
    Returns (λ (p, h'). Given user_block_size 4096 2 1 60 free heap p h') (malloc 4096 60 heap)
malloc_gives_example =
    malloc_gives 4096 2 1 60 free heap four-IsTree (omega arith) sixty_small sixty_blocks
      (HasRoom.here (omega arith))
