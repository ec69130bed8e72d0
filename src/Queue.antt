-- ===== src/Queue.antt =====
-- kernel/queue.c: a queue as a singly linked list of nodes on the kernel's heap.
pub mod Laws
pub mod OnHeap
pub mod Apart
use jokerix.Base.{ℕ, Bool, true, false, ◌&&◌, ◌==◌, if◌then◌else◌, update}
use jokerix.Base.Run.{Run, ok, ◌>>=◌}
use jokerix.KernelHeap.{KernelHeap}

pub record Node : Type 0 where
  pub item : ℕ
  pub next : ℕ

-- `Queue`, two pointers.
pub record Queue : Type 0 where
  pub head : ℕ
  pub tail : ℕ

-- sizeof(Node)
abbrev pub node_bytes : ℕ
node_bytes = 16

unfoldable pub is_empty : Queue → Bool
is_empty q = (q.head == q.tail) && (q.head == 0)

-- The heap's own state, and the nodes that the pointers lead to.
pub record Store (k : KernelHeap) : Type 0 where
  pub heap : k.State
  pub nodes : ℕ → Node

module _ (k : KernelHeap) where
  -- kalloc clears the block that it returns, which is how the new node's `next` is set.
  unfoldable pub push_back : Queue → ℕ → Store k → Run (Queue × Store k)
  push_back q item s = do
    (n, heap) ← k.kalloc node_bytes s.heap
    let cleared = update s.nodes n (record { item = 0; next = 0 })
    let filled = update cleared n (record (cleared n) { item = item })
    let linked = update filled q.tail (record (filled q.tail) { next = n })
    if is_empty q
        then ok (record { head = n; tail = n }, record { heap = heap; nodes = filled })
        else ok (record q { tail = n }, record { heap = heap; nodes = linked })

  -- The queue is taken not to be empty.
  unfoldable pub pop_front : Queue → Store k → Run (ℕ × Queue × Store k)
  pop_front q s = do
    let n = q.head
    let rest : Queue =
        if q.head == q.tail
        then record { head = 0; tail = 0 }
        else record q { head = (s.nodes q.head).next }
    heap ← k.kfree n s.heap
    ok ((s.nodes n).item, rest, record s { heap = heap })
