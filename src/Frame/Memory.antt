-- ===== src/Frame/Memory.antt =====
-- kernel/memory.c: allocFrame and deallocFrame, which hand out cleared pages by their physical
-- address, and initFrameAllocator. Memory is a byte for each kernel virtual address.
pub mod Laws
use jokerix.Base.{ℕ, ◌+◌, ◌-◌, ◌*◌, ◌/◌, ◌%◌, ◌^◌}
use jokerix.Base.Run.{Run, ok, ◌>>=◌}
use jokerix.Base.Words.{add64, sub64}
use jokerix.Frame.{Sta, fill, new_allocator, alloc, dealloc}

abbrev pub page_size : ℕ
page_size = 4096

abbrev pub kernel_map_offset : ℕ
kernel_map_offset = 0xffffffff00000000

abbrev pub kernel_begin_paddr : ℕ
kernel_begin_paddr = 0x80200000

abbrev pub kernel_begin_vaddr : ℕ
kernel_begin_vaddr = 0xffffffff80200000

abbrev pub memory_end_paddr : ℕ
memory_end_paddr = 0x88000000

-- The allocator's tree and the memory behind the kernel's linear mapping.
pub record Memory : Type 0 where
  pub sta : Sta
  pub bytes : ℕ → ℕ

-- accessVaViaPa of kernel/mapping.c.
abbrev pub access_va_via_pa : ℕ → ℕ
access_va_via_pa pa = add64 pa kernel_map_offset

-- The page is a multiple of 4096 and so is its virtual address, which therefore does not wrap
-- within the page.
unfoldable pub alloc_frame : Memory → Run (ℕ × Memory)
alloc_frame m = do
  (ppn, sta) ← alloc m.sta
  let start = (ppn * 2 ^ 12) % 2 ^ 64
  let bytes = fill page_size (access_va_via_pa start) 0 m.bytes
  ok (start, record { sta = sta; bytes = bytes })

unfoldable pub dealloc_frame : Memory → ℕ → Run Memory
dealloc_frame m start_addr = do
  sta ← dealloc m.sta (start_addr / 2 ^ 12)
  ok (record m { sta = sta })

-- `kernel_end` is the address of the linker's symbol.
unfoldable pub init_frame_allocator : (ℕ → ℕ) → (kernel_end : ℕ) → Run Sta
init_frame_allocator old kernel_end =
    new_allocator old
      (add64 (add64 (sub64 kernel_end kernel_begin_vaddr) kernel_begin_paddr / 2 ^ 12) 1)
      (memory_end_paddr / 2 ^ 12)
