-- ===== src/Mapping/Kernel.antt =====
-- kernel/mapping.c: the address space that every process shares with the kernel, the areas of the
-- devices, and the word that switches to it.
use jokerix.Base.{ℕ, ◌+◌, ◌*◌, ◌^◌, bit_or}
use jokerix.Base.Run.{Run, ok, ◌>>=◌}
use jokerix.Base.Words.{add64}
use jokerix.Frame.Memory.{Memory, memory_end_paddr, kernel_map_offset}
use jokerix.Mapping.{
  Mapping, Segment, valid, readable, writable, executable, new_mapping, map_linear_segment,
}

-- The addresses that the linker gives to the kernel's sections.
pub record Layout : Type 0 where
  pub text_start : ℕ
  pub rodata_start : ℕ
  pub data_start : ℕ
  pub bss_start : ℕ
  pub kernel_end : ℕ

-- `r-x`
abbrev pub read_execute : ℕ
read_execute = bit_or (bit_or valid readable) executable

-- `r--`
abbrev pub read_only : ℕ
read_only = bit_or valid readable

-- `rw-`
abbrev pub read_write : ℕ
read_write = bit_or (bit_or valid readable) writable

unfoldable pub new_kernel_mapping : Layout → Memory → Run (Mapping × Memory)
new_kernel_mapping layout m = do
  (self, m0) ← new_mapping m
  m1 ←
      map_linear_segment self
        (record {
          start_vaddr = layout.text_start;
          end_vaddr = layout.rodata_start;
          flags = read_execute;
        })
        m0
  m2 ←
      map_linear_segment self
        (record {
          start_vaddr = layout.rodata_start;
          end_vaddr = layout.data_start;
          flags = read_only;
        })
        m1
  m3 ←
      map_linear_segment self
        (record {
          start_vaddr = layout.data_start;
          end_vaddr = layout.bss_start;
          flags = read_write;
        })
        m2
  m4 ←
      map_linear_segment self
        (record {
          start_vaddr = layout.bss_start;
          end_vaddr = layout.kernel_end;
          flags = read_write;
        })
        m3
  m5 ←
      map_linear_segment self
        (record {
          start_vaddr = layout.kernel_end;
          end_vaddr = add64 memory_end_paddr kernel_map_offset;
          flags = read_write;
        })
        m4
  ok (self, m5)

-- A page of a device, by its physical address.
abbrev pub device_page : ℕ → Segment
device_page pa = record {
  start_vaddr = add64 pa kernel_map_offset;
  end_vaddr = add64 (pa + 0x1000) kernel_map_offset;
  flags = read_write;
}

-- Three pages of the interrupt controller and one of the serial port.
unfoldable pub map_ext_interrupt_area : Mapping → Memory → Run Memory
map_ext_interrupt_area self m = do
  m1 ← map_linear_segment self (device_page 0x0c000000) m
  m2 ← map_linear_segment self (device_page 0x0c002000) m1
  m3 ← map_linear_segment self (device_page 0x0c201000) m2
  map_linear_segment self (device_page 0x10000000) m3

-- What activateMapping writes to satp: mode 8, three levels of tables.
unfoldable pub satp_of : Mapping → ℕ
satp_of self = bit_or self.root_ppn (8 * 2 ^ 60)

-- mapKernel: the value of satp, and the memory.
unfoldable pub map_kernel : Layout → Memory → Run (ℕ × Memory)
map_kernel layout m = do
  (self, m1) ← new_kernel_mapping layout m
  m2 ← map_ext_interrupt_area self m1
  ok (satp_of self, m2)
