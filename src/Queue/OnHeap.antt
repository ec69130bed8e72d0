-- ===== src/Queue/OnHeap.antt =====
-- kernel/queue.c on the heap of kernel/heap.c: while the heap has a free block, a queue grows.
use jokerix.Base.{ℕ, ◌^◌, ◌≤◌, ◌<◌, ◌≡◌, refl, [], ◌∷◌, ◌++◌, arith}
use jokerix.Base.Run.{ok, Returns, Returns-map, Returns-inv}
use jokerix.Heap.{Heap, fix_size, block_count, kalloc}
use jokerix.Heap.Block.{Block, HasRoom}
use jokerix.Heap.Buddy.{IsTree}
use jokerix.Heap.Room.{HasRoom-half, Taken-HasRoom}
use jokerix.Heap.Kalloc.{kalloc_gives}
use jokerix.Heap.Interface.{kernel_heap}
use jokerix.Queue.{Queue, Store, node_bytes, push_back}
use jokerix.Queue.Laws
use jokerix.Queue.Laws.{Cells, push_back-append}

node_small : block_count node_bytes ≤ 2 ^ 31
unfolding block_count
node_small = omega arith

node_block : fix_size (block_count node_bytes) ≡ 2 ^ 0
unfolding fix_size block_count
node_block = refl

-- While any block is free, kalloc has memory for a node.
pub node-kalloc :
    (base height : ℕ) (positive : 0 < base) (shallow : height ≤ 17)
    (s : Store (kernel_heap base height positive shallow)) (t : Block)
    → IsTree s.heap.tree height t
    → HasRoom height 0 t
    → (n : ℕ) × (heap : Heap) × (kalloc base node_bytes s.heap ≡ ok (n, heap))
node-kalloc base height positive shallow s t w room =
    let ((n, heap), e, g) =
      Returns-inv (
        kalloc_gives base height 0 node_bytes t s.heap w (omega arith) node_small node_block
          room) in
    (n, heap, e)

-- While a block of twice the smallest size is free, kalloc has memory for a node and for another.
pub node-kalloc-kalloc :
    (base height : ℕ) (positive : 0 < base) (shallow : height ≤ 17)
    (s : Store (kernel_heap base height positive shallow)) (t : Block)
    → IsTree s.heap.tree height t
    → HasRoom height 1 t
    → (n m : ℕ) × (heap heap' : Heap) × (kalloc base node_bytes s.heap ≡ ok (n, heap))
      × (kalloc base node_bytes heap ≡ ok (m, heap'))
node-kalloc-kalloc base height positive shallow s t w room =
    let ((n, heap), e, g) = Returns-inv (
      kalloc_gives base height 0 node_bytes t s.heap w (omega arith) node_small node_block
        (HasRoom-half room)) in
    let ((m, heap'), e', _) = Returns-inv (
      kalloc_gives base height 0 node_bytes g.block heap g.tree (omega arith) node_small node_block
        (Taken-HasRoom g.taken room)) in
    (n, m, heap, heap', e, e')

-- On the kernel's heap, while any block is free, pushBack puts the item behind all others.
pub push_back-room :
    (base height : ℕ) (positive : 0 < base) (shallow : height ≤ 17)
    (s : Store (kernel_heap base height positive shallow)) (q : Queue) (cs : Cells) (x : ℕ)
    (t : Block)
    → Laws.IsQueue (kernel_heap base height positive shallow) s q cs
    → IsTree s.heap.tree height t
    → HasRoom height 0 t
    → Returns
        (λ (q', s').
          (n : ℕ) × Laws.IsQueue
            (kernel_heap base height positive shallow)
            s'
            q'
            (cs ++ (n, x) ∷ []))
        (push_back (kernel_heap base height positive shallow) q x s)
push_back-room base height positive shallow s q cs x t h w room =
    let (n, heap, e) = node-kalloc base height positive shallow s t w room in
    Returns-map (push_back-append (kernel_heap base height positive shallow) s q cs x n heap h e)
      λ (q', s') holds. (n, holds)

module _ (base height : ℕ) (positive : 0 < base) (shallow : height ≤ 17) where
  AllLive-bytes :
      (h : Heap) (bytes : ℕ → ℕ) (cs : Cells)
      → Laws.AllLive (kernel_heap base height positive shallow) h cs
      → Laws.AllLive (kernel_heap base height positive shallow) (record h { bytes = bytes }) cs
  AllLive-bytes h bytes [] live = tt
  AllLive-bytes h bytes ((p, v) ∷ cs) live = (
    record {
      block = live.0.block;
      k = live.0.k;
      offset = live.0.offset;
      tree = live.0.tree;
      live = live.0.live;
      at = live.0.at;
    },
    AllLive-bytes h bytes cs live.1,
  )

  -- A queue does not depend on the bytes of the memory.
  pub IsQueue-bytes :
      (s : Store (kernel_heap base height positive shallow)) (q : Queue) (cs : Cells)
      (bytes : ℕ → ℕ)
      → Laws.IsQueue (kernel_heap base height positive shallow) s q cs
      → Laws.IsQueue
          (kernel_heap base height positive shallow)
          (record s { heap = record s.heap { bytes = bytes } })
          q
          cs
  IsQueue-bytes s q [] bytes h = record { valid = h.valid; holds = h.holds }
  IsQueue-bytes s q ((p, v) ∷ cs) bytes h = record {
    valid = h.valid;
    holds = (h.holds.0, h.holds.1, AllLive-bytes s.heap bytes ((p, v) ∷ cs) h.holds.2);
  }
