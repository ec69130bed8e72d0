-- ===== src/Create/Laws.antt =====
-- What a new thread of kernel/thread.c starts with: a stack of its own, and its context on top.
use jokerix.Base.{
  ℕ, bit_and, bit_or, ◌==◌, if◌then◌else◌, ◌+◌, ◌*◌, ◌^◌, ◌≤◌, ◌<◌, ◌≡◌, ◌⊎◌, ◌∙◌, refl, inl, inr,
  arith,
}
use jokerix.Base.Run.{Returns, returns, Returns-bind}
use jokerix.Base.Words.{add64}
use jokerix.Heap.{Heap, min_block_size, fix_size, block_count}
use jokerix.Heap.Block.{Block, Taken, HasRoom}
use jokerix.Heap.Live.{Taken-bound}
use jokerix.Heap.Buddy.{IsTree}
use jokerix.Heap.Kalloc.{Given, kalloc_gives}
use jokerix.Context.{
  Machine, ThreadContext, context_size, kernel_context, new_kernel_thread_context,
}
use jokerix.Context.Laws.{LaidOut, push_context_to_stack-read}
use jokerix.Pool.{Thread}
use jokerix.Create.{
  Platform, Kernel, kernel_stack_size, kalloc, new_kernel_stack, new_kernel_thread,
}

-- A thread with a stack in a block of its own and a context on top of it.
pub record Started (p : Platform) (height : ℕ) (t : Block) (k : Kernel) (c : ℕ → ThreadContext)
    (thread : Thread) (k' : Kernel) : Type 0 where
  pub offset : ℕ
  pub block : Block
  pub stack : thread.kstack ≡ p.heap + offset * min_block_size
  pub taken : Taken height 14 offset t block
  pub tree : IsTree k'.tree height block
  pub top : thread.context_addr + context_size ≡ thread.kstack + kernel_stack_size
  pub context : LaidOut k'.memory.bytes thread.context_addr (c (thread.kstack + kernel_stack_size))
  pub kept :
      (a : ℕ)
      → (a < thread.kstack) ⊎ (thread.kstack + 2 ^ 14 * min_block_size ≤ a)
      → k'.memory.bytes a ≡ k.memory.bytes a
  pub frames : k'.memory.sta ≡ k.memory.sta

-- kalloc makes 2 ^ 14 smallest blocks, twice the stack, of the size of a kernel stack.
stack_blocks : fix_size (block_count kernel_stack_size) ≡ 2 ^ 14
unfolding fix_size block_count
stack_blocks = refl

stack_small : block_count kernel_stack_size ≤ 2 ^ 31
unfolding block_count
stack_small = omega arith

-- What both see of the memory.
abbrev as_heap : Kernel → Heap
as_heap k = record { tree = k.tree; bytes = k.memory.bytes }

new_kernel_stack-Given :
    (p : Platform) (height : ℕ) (t : Block) (k : Kernel)
    → IsTree k.tree height t
    → HasRoom height 14 t
    → Returns
        (λ (stack, k').
          Given min_block_size p.heap height 14 kernel_stack_size t (as_heap k) stack (as_heap k')
          × (k'.memory.sta ≡ k.memory.sta))
        (new_kernel_stack p k)
unfolding new_kernel_stack kalloc
new_kernel_stack-Given p height t k w room =
    Returns-bind
      (kalloc_gives p.heap height 14 kernel_stack_size t (as_heap k) w (omega arith) stack_small
        stack_blocks room)
      λ (ptr, h) g. returns (g, refl)

-- A kernel thread that has not run: switchContext returns to __restore under the kernel's satp, and
-- the end of the interrupt goes on at the entry point in supervisor mode, with the interrupts enabled
-- from then on (SPP and SPIE set, SIE clear) and the stack pointer at the top of the stack. The other
-- registers are what the code leaves uninitialised.
abbrev pub fresh_context : Machine → ℕ → ℕ → ThreadContext
fresh_context mach entry top = record {
  ra = mach.restore;
  satp = mach.satp;
  s = mach.raw.s;
  ic = record {
    x = λ i. if 2 == i then top else mach.raw.ic.x i;
    sstatus = bit_and (bit_or (bit_or mach.sstatus 0x100) 0x20) 0xfffffffffffffffd;
    sepc = entry;
  };
}

-- While the heap has a free block of 1 MiB, and ends below 2 ^ 64, newKernelThread returns a thread
-- whose stack is a block that was free, with the context of a thread that has not run and starts at
-- the entry point on top of the stack: its fields that fit into registers are read at their places.
-- Outside of the block no byte changes.
pub new_kernel_thread_lem :
    (p : Platform) (entry height : ℕ) (t : Block) (k : Kernel)
    → IsTree k.tree height t
    → HasRoom height 14 t
    → p.heap + 2 ^ height * min_block_size < 2 ^ 64
    → Returns
        (λ (thread, k'). Started p height t k (fresh_context p.machine entry) thread k')
        (new_kernel_thread p entry k)
unfolding new_kernel_thread new_kernel_thread_context kernel_context
new_kernel_thread_lem p entry height t k w room high =
    Returns-bind (new_kernel_stack-Given p height t k w room) λ (stack, k') (g, frames).
      let bound = Taken-bound g.taken in
      let whole : add64 stack kernel_stack_size ≡ stack + kernel_stack_size = omega (arith, g.at) in
      let pushed =
        push_context_to_stack-read
          (kernel_context p.machine entry (stack + kernel_stack_size) p.machine.satp)
          (stack + kernel_stack_size) k'.memory.bytes (omega arith) (omega (arith, g.at)) in
      rw whole (
        returns (record {
          offset = g.offset;
          block = g.block;
          stack = g.at;
          taken = g.taken;
          tree = g.tree;
          top = pushed.0;
          context = pushed.1;
          kept = λ a out.
              pushed.2 a (elim out [
                | inl below ↦ inl (omega (arith, pushed.0))
                | inr beyond ↦ inr (omega arith)
              ])
              ∙ g.kept a (λ q r. elim out [ inl below ↦ omega arith | inr beyond ↦ omega arith ]);
          frames = frames;
        }))
