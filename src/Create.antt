-- ===== src/Create.antt =====
-- The creation of threads: kernel/thread.c, and executeCPU of kernel/processor.c, which starts a
-- program of the file system. A new thread gets a stack on the kernel's heap; the heap, the frames
-- and the page tables lie in one memory.
pub mod Laws
use jokerix.Base.{
  ℕ, zero, suc, ◌+◌, ◌-◌, ◌/◌, ◌^◌, Bool, true, false, bit_or, leb, ◌==◌, if◌then◌else◌, Option,
  none, some, List, [], ◌∷◌,
}
use jokerix.Base.Run.{Run, ok, panic, fault, ◌>>=◌}
use jokerix.Base.Words.{add64}
use jokerix.Frame.Memory.{Memory, alloc_frame}
use jokerix.Mapping.{
  Mapping, Segment, valid, user, readable, writable, load_entry, store_entry, find_entry, start_vpn,
  end_vpn,
}
use jokerix.Mapping.Kernel.{Layout, satp_of}
use jokerix.Heap
use jokerix.Heap.{BuddyTree}
use jokerix.Elf.{header_at, new_user_mapping}
use jokerix.Context.{Machine, new_kernel_thread_context, new_user_thread_context}
use jokerix.Scheduler.{scheduler_init}
use jokerix.Pool.{Thread, ThreadPool}
use jokerix.Processor.{Processor, init_cpu, add_to_cpu}
use jokerix.Fs.{Image, int_size, inode_at, lookup, readall}

abbrev pub kernel_stack_size : ℕ
kernel_stack_size = 0x80000

abbrev pub user_stack_size : ℕ
user_stack_size = 0x80000

abbrev pub user_stack_offset : ℕ
user_stack_offset = 0xffffffff00000000

-- The machine that the definitions run on: the address of HEAP, the linker's addresses, and what a
-- context is made of.
pub record Platform : Type 0 where
  pub heap : ℕ
  pub layout : Layout
  pub machine : Machine

-- The heap's tree, and the frames with the memory that both use.
pub record Kernel : Type 0 where
  pub tree : BuddyTree
  pub memory : Memory

unfoldable pub kalloc : Platform → ℕ → Kernel → Run (ℕ × Kernel)
kalloc p size k = do
  (ptr, h) ← Heap.kalloc p.heap size (record { tree = k.tree; bytes = k.memory.bytes })
  ok (ptr, record { tree = h.tree; memory = record k.memory { bytes = h.bytes } })

unfoldable pub kfree : Platform → ℕ → Kernel → Run Kernel
kfree p ptr k = do
  h ← Heap.kfree p.heap ptr (record { tree = k.tree; bytes = k.memory.bytes })
  ok (record { tree = h.tree; memory = record k.memory { bytes = h.bytes } })

unfoldable pub new_kernel_stack : Platform → Kernel → Run (ℕ × Kernel)
new_kernel_stack p k = kalloc p kernel_stack_size k

-- `Thread t = {contextAddr, stackBottom}`: the fields that are not named are 0.
unfoldable pub new_kernel_thread : Platform → ℕ → Kernel → Run (Thread × Kernel)
new_kernel_thread p entry k = do
  (stack_bottom, k') ← new_kernel_stack p k
  let stack_top = add64 stack_bottom kernel_stack_size
  let (context_addr, bytes) =
      new_kernel_thread_context p.machine entry stack_top p.machine.satp k'.memory.bytes
  ok (
    record { context_addr = context_addr; kstack = stack_bottom; satp = 0; wait = some 0 },
    record k' { memory = record k'.memory { bytes = bytes } },
  )

-- The loop of mapFramedSegment, with `n` pages left.
unfoldable pub map_pages : ℕ → ℕ → Mapping → ℕ → Memory → Run Memory
map_pages zero vpn self flags m = ok m
map_pages (suc n) vpn self flags m = do
  (entry, m') ← find_entry self vpn m
  let rest = do
    (paddr, m'') ← alloc_frame m'
    map_pages n (vpn + 1) self flags
        (store_entry m'' entry (bit_or (bit_or (paddr / 2 ^ 2) flags) valid))
  if load_entry m' entry == 0 then rest else panic

unfoldable pub map_framed_segment : Mapping → Segment → Memory → Run Memory
map_framed_segment self segment m =
    map_pages (end_vpn segment - start_vpn segment) (start_vpn segment) self segment.flags m

-- The stack of a user thread, in its own address space.
abbrev pub user_stack : Segment
user_stack = record {
  start_vaddr = user_stack_offset;
  end_vaddr = user_stack_offset + user_stack_size;
  flags = bit_or (bit_or (bit_or 1 user) readable) writable;
}

-- `data` is the address of the program file. `wait` is not named in the initializer, so it is 0.
unfoldable pub new_user_thread : Platform → ℕ → Kernel → Run (Thread × Kernel)
new_user_thread p data_addr k = do
  (self, m) ← new_user_mapping p.layout data_addr k.memory
  m' ← map_framed_segment self user_stack m
  (kstack, k') ← new_kernel_stack p (record k { memory = m' })
  let entry = (header_at k'.memory data_addr).entry
  let (context, bytes) =
      new_user_thread_context p.machine entry (user_stack_offset + user_stack_size)
        (add64 kstack kernel_stack_size) (satp_of self) k'.memory.bytes
  ok (
    record { context_addr = context; kstack = kstack; satp = satp_of self; wait = some 0 },
    record k' { memory = record k'.memory { bytes = bytes } },
  )

unfoldable pub new_boot_thread : Thread
new_boot_thread = record { context_addr = 0; kstack = 0; satp = 0; wait = none }

-- The file of an inode, read to a buffer that is given back when the thread is made. kalloc takes the
-- size as an int, and answers a negative one like 0.
unfoldable pub load_program : Platform → Image → ℕ → Kernel → Run (Thread × Kernel)
load_program p image inode k = do
  (buf, k1) ← kalloc p (int_size (inode_at image inode).size) k
  bytes ← readall image inode buf k1.memory.bytes
  (t, k2) ← new_user_thread p buf (record k1 { memory = record k1.memory { bytes = bytes } })
  k3 ← kfree p buf k2
  ok (t, k3)

-- executeCPU; `host_tid` is the thread that waits for the end of the new one. The first result is
-- whether the command was found; `fuel` is lookup's.
unfoldable pub execute_cpu :
    Platform → Image → ℕ → List ℕ → Option ℕ → Kernel → Processor → Run (Bool × Kernel × Processor)
execute_cpu p image fuel path host_tid k cpu = do
  res ← lookup fuel image none path
  elim res [
    | none ↦ ok (false, k, cpu)
    | some inode ↦ do
      (t, k') ← load_program p image inode k
      cpu' ← add_to_cpu (record t { wait = host_tid }) cpu
      ok (true, k', cpu')
  ]

-- `"/bin/sh"`
abbrev pub shell_path : List ℕ
shell_path = b'/' ∷ b'b' ∷ b'i' ∷ b'n' ∷ b'/' ∷ b's' ∷ b'h' ∷ []

-- initThread; `idle_main` is the address of idleMain. The size of a file that is not found is read
-- from address 0.
unfoldable pub init_thread :
    Platform → Image → (idle_main : ℕ) → ThreadPool → Kernel → Processor → Run (Kernel × Processor)
init_thread p image idle_main pool k cpu = do
  let pool = record pool { scheduler = scheduler_init pool.scheduler }
  (idle, k1) ← new_kernel_thread p idle_main k
  let cpu1 = init_cpu idle pool cpu
  hello_inode ← lookup 4 image none shell_path
  elim hello_inode [
    | none ↦ fault
    | some inode ↦ do
      (t, k2) ← load_program p image inode k1
      cpu2 ← add_to_cpu t cpu1
      ok (k2, cpu2)
  ]
