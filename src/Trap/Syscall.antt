-- ===== src/Trap/Syscall.antt =====
-- kernel/syscall.c: the system calls of a program.
use jokerix.Base.{
  ℕ, zero, suc, ◌+◌, ◌%◌, ◌^◌, ◌<◌, ◌≤◌, arith, some, List, [], ◌∷◌, ◌++◌, ◌==◌, if◌then◌else◌,
  update,
}
use jokerix.Base.Run.{Run, ok, panic, out_of_fuel, ◌>>=◌}
use jokerix.Base.Words.{add64}
use jokerix.Frame.{Sta}
use jokerix.Heap.Interface.{kernel_heap}
use jokerix.KernelHeap.{KernelHeap}
use jokerix.Queue.{Store}
use jokerix.Stdin.{Stdin, got, waits, pop_char}
use jokerix.Context.{InterruptContext}
use jokerix.Processor.{Processor, exit_from_cpu, yield_cpu}
use jokerix.Create.{Platform, Kernel, execute_cpu}
use jokerix.Fs.{Image}

abbrev pub sys_read_id : ℕ
sys_read_id = 63

abbrev pub sys_write_id : ℕ
sys_write_id = 64

abbrev pub sys_exit_id : ℕ
sys_exit_id = 93

abbrev pub sys_exec_id : ℕ
sys_exec_id = 221

-- What the calls depend on besides the state: the platform, the image of the files, the fuel for a
-- path, and the machine's translation of an address of the current process to the one by which the
-- kernel's bytes hold it.
pub record Setting : Type 0 where
  pub platform : Platform
  pub some_heap : 0 < platform.heap
  pub image : Image
  pub path_fuel : ℕ
  pub user_addr : (satp va : ℕ) → ℕ

pub heap_height : 17 ≤ 17
heap_height = omega arith

-- The heap with its 2 ^ 17 smallest blocks.
abbrev pub heap_of : Setting → KernelHeap
heap_of e = kernel_heap e.platform.heap 17 e.some_heap heap_height

-- What a handler finds: the time, the char at the console, and the address at which a switch saves
-- the context.
pub record Event : Type 0 where
  pub time : ℕ
  pub char : ℕ
  pub context_addr : ℕ

-- The state of the kernel. The nodes of the queues are in `store.nodes` and not in its bytes.
pub record System (e : Setting) : Type 0 where
  pub store : Store (heap_of e)
  pub sta : Sta
  pub cpu : Processor
  pub stdin : Stdin
  pub console : List ℕ
  pub timer : ℕ

-- `"Command not found!\n"`, which executeCPU writes.
abbrev pub not_found : List ℕ
not_found =
    b'C' ∷ b'o' ∷ b'm' ∷ b'm' ∷ b'a' ∷ b'n' ∷ b'd' ∷ b' ' ∷ b'n' ∷ b'o' ∷ b't' ∷ b' ' ∷ b'f' ∷ b'o'
    ∷ b'u' ∷ b'n' ∷ b'd' ∷ b'!' ∷ b'\n' ∷ []

-- How far a call has come: it returned, or the processor was handed over while it waits for a char
-- for an address, or once a program has been started, or for good.
pub data Progress : Type 0 where
  returned : ℕ → Progress
  reading : ℕ → Progress
  started ended : Progress

-- A string of the current process, up to its zero.
unfoldable pub user_string : ℕ → (ℕ → ℕ) → (ℕ → ℕ) → ℕ → Run (List ℕ)
user_string zero addr bytes va = out_of_fuel
user_string (suc fuel) addr bytes va =
    let rest = do cs ← user_string fuel addr bytes (va + 1); ok (bytes (addr va) ∷ cs)
    in if bytes (addr va) == 0 then ok [] else rest

module _ (e : Setting) where
  abbrev pub kernel_of : System e → Kernel
  kernel_of s = record {
    tree = s.store.heap.tree;
    memory = record { sta = s.sta; bytes = s.store.heap.bytes };
  }

  abbrev pub with_kernel : Kernel → System e → System e
  with_kernel k s = record s {
    store = record s.store { heap = record { tree = k.tree; bytes = k.memory.bytes } };
    sta = k.memory.sta;
  }

  -- The user's addresses under the tables of the current thread.
  abbrev pub current_addr : System e → ℕ → ℕ
  current_addr s va = e.user_addr s.cpu.current.thread.satp va

  -- consolePutchar
  abbrev pub console_putchar : ℕ → System e → System e
  console_putchar c s = record s { console = s.console ++ (c % 2 ^ 8) ∷ [] }

  -- sysRead with one round of popChar's loop; `fd` and `len` are not used.
  unfoldable pub sys_read : ℕ → ℕ → System e → Run (Progress × System e)
  sys_read context base s = do
    (round, stdin, cpu, store) ← pop_char (heap_of e) context s.stdin s.cpu s.store
    let s' = record s { stdin = stdin; cpu = cpu; store = store }
    elim round [
      | got c ↦
          let bytes = update store.heap.bytes (current_addr s base) c in
          ok (
            returned 1,
            record s' { store = record store { heap = record store.heap { bytes = bytes } } },
          )
      | waits ↦ ok (reading base, s')
    ]

  unfoldable pub sys_exec : ℕ → ℕ → System e → Run (Progress × System e)
  sys_exec context path s = do
    name ← user_string e.path_fuel (current_addr s) s.store.heap.bytes path
    (found, k, cpu) ←
        execute_cpu e.platform e.image e.path_fuel name (some s.cpu.current.tid) (kernel_of s) s.cpu
    let s' = with_kernel k (record s { cpu = cpu })
    ok (
        if found
        then (started, record s' { cpu = yield_cpu context cpu })
        else (returned 0, record s' { console = s'.console ++ not_found }))

  -- `x` holds the arguments in the registers from 10 on. A switch saves the context at `context`.
  unfoldable pub syscall : ℕ → ℕ → (ℕ → ℕ) → System e → Run (Progress × System e)
  syscall context id x s =
      let exit = do cpu ← exit_from_cpu context s.cpu; ok (ended, record s { cpu = cpu })
      in if id == sys_write_id
        then ok (returned 0, console_putchar (x 10) s)
        else if id == sys_exit_id
        then exit
        else if id == sys_read_id
        then sys_read context (x 11) s
        else if id == sys_exec_id
        then sys_exec context (x 10) s
        else panic

  -- What a call that has returned leaves in the register of the result.
  abbrev pub finish : Progress → InterruptContext → InterruptContext
  finish (returned ret) context = record context { x = update context.x 10 ret }
  finish _ context = context

  unfoldable pub handle_syscall :
      ℕ → InterruptContext → System e → Run (Progress × InterruptContext × System e)
  handle_syscall saved context s = do
    let context = record context { sepc = add64 context.sepc 4 }
    (progress, s') ← syscall saved (context.x 17) context.x s
    ok (progress, finish progress context, s')

  -- What follows when a thread whose call has come so far has the processor again: one more round of
  -- popChar's loop, or the end of sysExec.
  unfoldable pub resume :
      ℕ → Progress → InterruptContext → System e → Run (Progress × InterruptContext × System e)
  resume saved (reading base) context s = do
    (progress, s') ← sys_read saved base s
    ok (progress, finish progress context, s')
  resume saved started context s = ok (returned 0, finish (returned 0) context, s)
  resume saved progress context s = ok (progress, context, s)
