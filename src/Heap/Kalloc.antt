-- ===== src/Heap/Kalloc.antt =====
-- kalloc and kfree of kernel/heap.c over the blocks of the buddy system: what a client of the heap
-- gets.
use jokerix.Base.{
  ℕ, ◌+◌, ◌-◌, ◌*◌, ◌/◌, ◌^◌, ◌≤◌, ◌<◌, ◌≡◌, refl, arith, false, ◌||◌, ltb, ◌==◌, ◌∙◌,
}
use jokerix.Base.Run.{panic, Returns, returns, Returns-bind, ◌>>=◌}
use jokerix.Base.Powers.{pow_pos, pow_mono}
use jokerix.Frame.{fill}
use jokerix.Frame.Init.{fill_lem}
use jokerix.Heap.{
  BuddyTree, Heap, min_block_size, kernel_heap_size, fix_size, round_up, block_count, kalloc, kfree,
}
use jokerix.Heap.Block.{Block, Taken, Live, HasRoom}
use jokerix.Heap.Live.{Disjoint, Taken-bound, Taken-Disjoint, Taken-keeps, Taken-Released}
use jokerix.Heap.Laws.{block_count_lem}
use jokerix.Heap.Sizes.{fix_size_up, round_up-fix_size}
use jokerix.Heap.Buddy.{IsTree, buddy_alloc_takes, buddy_alloc-none, buddy_free_releases}

-- What an allocation with smallest blocks of `unit` bytes returns for a size: the address of a block
-- of 2 ^ `k` smallest blocks that holds the
-- size, was free and is used now and meets no block in use, with its bytes cleared and no other byte
-- changed.
pub record Given (unit base height k size : ℕ) (t : Block) (before : Heap) (p : ℕ) (after : Heap)
    : Type 0 where
  pub offset : ℕ
  pub block : Block
  pub at : p ≡ base + offset * unit
  pub fits : size ≤ 2 ^ k * unit
  pub taken : Taken height k offset t block
  pub tree : IsTree after.tree height block
  pub apart : {k' o : ℕ} → Live height k' o t → Disjoint offset (2 ^ k) o (2 ^ k')
  pub still : {k' o : ℕ} → Live height k' o t → Live height k' o block
  pub cleared : (i : ℕ) → i < 2 ^ k * unit → after.bytes (p + i) ≡ 0
  pub kept : (a : ℕ) → (p ≤ a → a < p + 2 ^ k * unit → ⊥) → after.bytes a ≡ before.bytes a

-- A block that was taken from the tree and cleared is given.
pub Taken-Given :
    (unit base height k size : ℕ) (t : Block) (before : Heap) (offset : ℕ) (t' : Block)
    (tree : BuddyTree)
    → size ≤ 2 ^ k * unit
    → Taken height k offset t t'
    → IsTree tree height t'
    → Given unit base height k size t before
        (base + offset * unit)
        (record { tree = tree; bytes = fill (2 ^ k * unit) (base + offset * unit) 0 before.bytes })
Taken-Given unit base height k size t before offset t' tree fits taken w =
    let p = base + offset * unit in
    let at = fill_lem (2 ^ k * unit) p 0 before.bytes in
    record {
      offset = offset;
      block = t';
      at = refl;
      fits = fits;
      taken = taken;
      tree = w;
      apart = λ live. Taken-Disjoint taken live;
      still = λ live. Taken-keeps taken live;
      cleared = λ i lt. ground (arith, at (p + i));
      kept = λ a out. ground (arith, at a);
    }

module _ (base height k size : ℕ) (t : Block) (h : Heap) (w : IsTree h.tree height t)
    (some_bytes : 0 < size) (small : block_count size ≤ 2 ^ 31)
    (blocks : fix_size (block_count size) ≡ 2 ^ k) where
  some_blocks : 0 < block_count size
  some_blocks = omega (arith, block_count_lem size some_bytes)

  rounded : round_up (block_count size) ≡ 2 ^ k
  rounded = round_up-fix_size (block_count size) some_blocks small ∙ blocks

  holds_size : size ≤ 2 ^ k * min_block_size
  holds_size =
      let (d, e, enough, less) = fix_size_up (block_count size) some_blocks small in
      omega (arith, block_count_lem size some_bytes)

  -- For a positive size of at most 2 ^ 31 smallest blocks, fixSize makes 2 ^ `k` of their number:
  -- while a free block of 2 ^ `k` is left, kalloc returns one that holds the size, was free and lies
  -- apart from every block in use; these stay in use, its bytes are cleared, and no other byte
  -- changes.
  pub kalloc_gives :
      HasRoom height k t
      → Returns (λ (p, h'). Given min_block_size base height k size t h p h') (kalloc base size h)
  unfolding kalloc
  kalloc_gives room =
      let positive : (size == 0) ≡ false = ground arith in
      rw positive (
        Returns-bind (buddy_alloc_takes h.tree height k (block_count size) t w rounded room)
          λ (got, tree) (offset, t', e, taken, w').
            rw (e, blocks)
              (returns (
                Taken-Given min_block_size base height k size t h offset t' tree holds_size taken
                  w')))

  -- For a positive size of at most 2 ^ 31 smallest blocks, kalloc panics if no free block is left
  -- that holds their number, rounded up to a power of two.
  pub kalloc_panics : (HasRoom height k t → ⊥) → kalloc base size h ≡ panic
  unfolding kalloc
  kalloc_panics full =
      let positive : (size == 0) ≡ false = ground arith in
      let stop = buddy_alloc-none h.tree height k (block_count size) t w rounded full in
      rw (positive, stop)

  -- In a heap of at most 2 ^ 17 smallest blocks with a free block for a positive size, kfree of what
  -- kalloc returned gives the blocks that there were.
  pub kfree-kalloc :
      height ≤ 17
      → HasRoom height k t
      → Returns (λ h'. IsTree h'.tree height t) (kalloc base size h >>= λ (p, h'). kfree base p h')
  unfolding kfree
  kfree-kalloc shallow room = Returns-bind (kalloc_gives room) λ (p, h') g.
      let in_heap : g.offset < 2 ^ 17 =
        omega (arith, Taken-bound g.taken, pow_pos k, pow_mono height 17 shallow) in
      let inside : (ltb p base || ltb (base + kernel_heap_size - min_block_size) p) ≡ false =
        ground (arith, g.at) in
      let number : (p - base) / min_block_size ≡ g.offset = omega (arith, g.at) in
      rw (inside, number)
        (Returns-bind
          (buddy_free_releases h'.tree height g.offset g.block t g.tree
            (Taken-Released h.tree.longest 0 g.taken w.shows))
          λ tree w'. returns w')
