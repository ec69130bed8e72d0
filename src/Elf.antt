-- ===== src/Elf.antt =====
-- kernel/elf.c: the segments of a program file are mapped into the address space of a new process.
-- The file stands in memory at an address; its fields have the offsets of kernel/elf.h.
pub mod Laws
use jokerix.Base.{ℕ, zero, suc, ◌+◌, ◌*◌, ◌%◌, ◌^◌, bit_and, bit_or, leb, ◌==◌, if◌then◌else◌}
use jokerix.Base.Run.{Run, ok, panic, out_of_fuel, ◌>>=◌}
use jokerix.Base.Words.{add64}
use jokerix.Frame.Memory.{Memory}
use jokerix.Mapping.{
  Mapping, Segment, valid, user, executable, writable, readable, load_entry, map_framed_and_copy,
}
use jokerix.Base.Bytes.{load_bytes}
use jokerix.Mapping.Kernel.{Layout, new_kernel_mapping}

abbrev pub elf_magic : ℕ
elf_magic = 0x464c457f

abbrev pub elf_prog_load : ℕ
elf_prog_load = 1

-- The flags of a program header: 1 to execute, 2 to write, 4 to read.
unfoldable pub convert_elf_flags : ℕ → ℕ
convert_elf_flags flags =
    let a = bit_or valid user in
    let b = if bit_and flags 1 == 0 then a else bit_or a executable in
    let c = if bit_and flags 2 == 0 then b else bit_or b writable in
    if bit_and flags 4 == 0 then c else bit_or c readable

-- The fields of `ElfHeader` that the code reads.
pub record ElfHeader : Type 0 where
  pub magic : ℕ
  pub entry : ℕ
  pub phoff : ℕ
  pub phnum : ℕ

unfoldable pub header_at : Memory → ℕ → ElfHeader
header_at m elf = record {
  magic = load_bytes 4 m.bytes elf;
  entry = load_entry m (elf + 24);
  phoff = load_entry m (elf + 32);
  phnum = load_bytes 2 m.bytes (elf + 56) % 2 ^ 16;
}

-- The fields of `ProgHeader` that the code reads.
pub record ProgHeader : Type 0 where
  pub type : ℕ
  pub flags : ℕ
  pub off : ℕ
  pub vaddr : ℕ
  pub filesz : ℕ
  pub memsz : ℕ

-- sizeof(ProgHeader)
abbrev pub prog_header_size : ℕ
prog_header_size = 56

unfoldable pub prog_header_at : Memory → ℕ → ProgHeader
prog_header_at m a = record {
  type = load_bytes 4 m.bytes a;
  flags = load_bytes 4 m.bytes (a + 4);
  off = load_entry m (a + 8);
  vaddr = load_entry m (a + 16);
  filesz = load_entry m (a + 32);
  memsz = load_entry m (a + 40);
}

-- One round of the loop of newUserMapping, for the program header at `offset`.
unfoldable pub map_prog : Mapping → ℕ → ℕ → Memory → Run Memory
map_prog self elf offset m =
    let p = prog_header_at m offset in
    let segment : Segment = record {
      start_vaddr = p.vaddr;
      end_vaddr = add64 p.vaddr p.memsz;
      flags = convert_elf_flags p.flags;
    } in
    if p.type == elf_prog_load
    then map_framed_and_copy self segment (add64 elf p.off) p.filesz m
    else ok m

-- The loop of newUserMapping. The number of headers has 16 bits.
unfoldable pub map_progs : ℕ → ℕ → ℕ → Mapping → ℕ → Memory → Run Memory
map_progs zero i offset self elf m = out_of_fuel
map_progs (suc fuel) i offset self elf m =
    let rest = do
      m' ← map_prog self elf offset m
      map_progs fuel (i + 1) (add64 offset prog_header_size) self elf m'
    in if leb (header_at m elf).phnum i then ok m else rest

unfoldable pub new_user_mapping : Layout → ℕ → Memory → Run (Mapping × Memory)
new_user_mapping layout elf m = do
  (self, m') ← new_kernel_mapping layout m
  let header = header_at m' elf
  let walk = do m'' ← map_progs (2 ^ 16) 0 (add64 elf header.phoff) self elf m'; ok (self, m'')
  if header.magic == elf_magic then walk else panic
