-- ===== src/Boot.antt =====
-- kernel/main.c and the initialisations that it calls: initMemory of kernel/memory.c, initInterrupt of
-- kernel/interrupt.c, initTimer of kernel/timer.c and runCPU of kernel/processor.c. What initFs keeps
-- is read from the image by kernel/fs.c's model (Fs), which has no state of it.
use jokerix.Base.{ℕ, ◌+◌, ◌^◌, bit_or, List, [], ◌∷◌}
use jokerix.Base.Run.{Run, ok, ◌>>=◌}
use jokerix.Frame.Memory.{kernel_map_offset, init_frame_allocator}
use jokerix.Heap.{init_heap}
use jokerix.Context.{sstatus_sie}
use jokerix.Mapping.Kernel.{map_kernel}
use jokerix.Pool.{ThreadPool}
use jokerix.Processor.{Processor}
use jokerix.Create.{Platform, Kernel, init_thread}
use jokerix.Fs.{Image}
use jokerix.Trap.{set_timerout}

abbrev pub sie_seie : ℕ
sie_seie = 2 ^ 9

abbrev pub sie_stie : ℕ
sie_stie = 2 ^ 5

abbrev pub sstatus_sum : ℕ
sstatus_sum = 2 ^ 18

abbrev pub mode_direct : ℕ
mode_direct = 0

-- The control registers, and the time of the next interrupt.
pub record Registers : Type 0 where
  pub stvec : ℕ
  pub sie : ℕ
  pub sstatus : ℕ
  pub satp : ℕ
  pub timer : ℕ

-- A write to a register of a device: address and value.
abbrev pub Write : Type 0
Write = ℕ × ℕ

unfoldable pub init_external_interrupt : List Write
init_external_interrupt =
    (0x0c002080 + kernel_map_offset, 2 ^ 0xa)
    ∷ (0x0c000028 + kernel_map_offset, 7)
    ∷ (0x0c201000 + kernel_map_offset, 0)
    ∷ []

unfoldable pub init_serial_interrupt : List Write
init_serial_interrupt =
    (0x10000004 + kernel_map_offset, 0x0b) ∷ (0x10000001 + kernel_map_offset, 0x01) ∷ []

-- `entry` is the address of __interrupt. The writes to the devices are those of
-- init_external_interrupt and init_serial_interrupt.
unfoldable pub init_interrupt : (entry : ℕ) → Registers → Registers
init_interrupt entry r = record r { stvec = bit_or entry mode_direct; sie = bit_or r.sie sie_seie }

unfoldable pub init_timer : (time : ℕ) → Registers → Registers
init_timer time r = record r { sie = sie_stie; sstatus = sstatus_sie; timer = set_timerout time }

-- The frames, the heap, and the address space of the kernel; `old` is what the tree of the frames
-- holds before.
unfoldable pub init_memory :
    Platform → (old : ℕ → ℕ) → Registers → Kernel → Run (Registers × Kernel)
init_memory p old r k = do
  sta ← init_frame_allocator old p.layout.kernel_end
  (satp, memory) ← map_kernel p.layout (record { sta = sta; bytes = k.memory.bytes })
  tree ← init_heap k.tree
  ok (
    record r { sstatus = bit_or r.sstatus sstatus_sum; satp = satp },
    record { tree = tree; memory = memory },
  )

-- What main passes on to its parts: the addresses of __interrupt and of idleMain, the image, and
-- the time at initTimer.
pub record BootSetting : Type 0 where
  pub platform : Platform
  pub interrupt_entry : ℕ
  pub idle_main : ℕ
  pub image : Image
  pub time : ℕ

-- main up to runCPU. The threads take sstatus and satp from the registers.
unfoldable pub boot :
    BootSetting
    → (old : ℕ → ℕ) → ThreadPool
    → Registers
    → Kernel
    → Processor
    → Run (Registers × Kernel × Processor)
boot b old pool r k cpu = do
  (r1, k1) ← init_memory b.platform old r k
  let r2 = init_interrupt b.interrupt_entry r1
  let machine = record b.platform.machine { sstatus = r2.sstatus; satp = r2.satp }
  (k2, cpu') ← init_thread (record b.platform { machine = machine }) b.image b.idle_main pool k1 cpu
  ok (init_timer b.time r2, k2, cpu')
