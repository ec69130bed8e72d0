-- ===== src/Mapping.antt =====
-- kernel/mapping.c: the page tables of three levels, in the memory behind the linear mapping. An
-- entry that is not aligned or lies outside the memory is not told apart.
pub mod Kernel
pub mod Bits
pub mod Table
pub mod NewTable
pub mod Walk
pub mod Page
use jokerix.Base.{
  ℕ, zero, suc, ◌+◌, ◌-◌, ◌*◌, ◌/◌, ◌%◌, ◌^◌, bit_and, bit_or, leb, ◌==◌, if◌then◌else◌, update,
}
use jokerix.Base.Run.{Run, ok, panic, ◌>>=◌}
use jokerix.Base.Words.{add64, sub64}
use jokerix.Base.Bytes.{load_bytes, store_bytes}
use jokerix.Frame.{fill}
use jokerix.Frame.Memory.{Memory, page_size, access_va_via_pa, alloc_frame}

abbrev pub kernel_page_offset : ℕ
kernel_page_offset = 0xffffffff00000

abbrev pub pde_mask : ℕ
pde_mask = 0x003ffffffffffc00

abbrev pub valid : ℕ
valid = 1

abbrev pub readable : ℕ
readable = 2

abbrev pub writable : ℕ
writable = 4

abbrev pub executable : ℕ
executable = 8

abbrev pub user : ℕ
user = 16

pub record Segment : Type 0 where
  pub start_vaddr : ℕ
  pub end_vaddr : ℕ
  pub flags : ℕ

pub record Mapping : Type 0 where
  pub root_ppn : ℕ

pub record VpnLevels : Type 0 where
  pub root : ℕ
  pub middle : ℕ
  pub last : ℕ

unfoldable pub get_vpn_levels : ℕ → VpnLevels
get_vpn_levels vpn = record {
  root = bit_and (vpn / 2 ^ 18) 0x1ff;
  middle = bit_and (vpn / 2 ^ 9) 0x1ff;
  last = bit_and vpn 0x1ff;
}

abbrev pub load_entry : Memory → ℕ → ℕ
load_entry m a = load_bytes 8 m.bytes a

abbrev pub store_entry : Memory → ℕ → ℕ → Memory
store_entry m a v = record m { bytes = store_bytes 8 m.bytes a v }

unfoldable pub new_mapping : Memory → Run (Mapping × Memory)
new_mapping m = do
  (root_paddr, m') ← alloc_frame m
  ok (record { root_ppn = root_paddr / 2 ^ 12 }, m')

-- `&(table->entries[i])` for the table at a physical address.
abbrev pub entry_addr : ℕ → ℕ → ℕ
entry_addr table i = add64 (access_va_via_pa table) (i * 8)

-- `if(*entry == 0)`: a new table for the entry.
unfoldable pub fill_entry : ℕ → Memory → Run Memory
fill_entry entry m =
    let new = do
      (paddr, m') ← alloc_frame m
      ok (store_entry m' entry (bit_or ((paddr / 2 ^ 12 * 2 ^ 10) % 2 ^ 64) valid))
    in if load_entry m entry == 0 then new else ok m

-- One round of the loop of findEntry, for the index in the next table.
unfoldable pub next_entry : ℕ → ℕ → Memory → Run (ℕ × Memory)
next_entry entry level m = do
  m' ← fill_entry entry m
  ok (entry_addr ((bit_and (load_entry m' entry) pde_mask * 2 ^ 2) % 2 ^ 64) level, m')

-- findEntry: the address of the entry.
unfoldable pub find_entry : Mapping → ℕ → Memory → Run (ℕ × Memory)
find_entry self vpn m = do
  let levels = get_vpn_levels vpn
  let top = entry_addr ((self.root_ppn * 2 ^ 12) % 2 ^ 64) levels.root
  (next, m') ← next_entry top levels.middle m
  next_entry next levels.last m'

abbrev pub start_vpn : Segment → ℕ
start_vpn segment = segment.start_vaddr / page_size

abbrev pub end_vpn : Segment → ℕ
end_vpn segment = sub64 segment.end_vaddr 1 / page_size + 1

-- The loop of mapLinearSegment, with `n` pages left.
unfoldable pub map_linear_pages : ℕ → ℕ → Mapping → ℕ → Memory → Run Memory
map_linear_pages zero vpn self flags m = ok m
map_linear_pages (suc n) vpn self flags m = do
  (entry, m') ← find_entry self vpn m
  let value = bit_or (bit_or ((sub64 vpn kernel_page_offset * 2 ^ 10) % 2 ^ 64) flags) valid
  let rest = map_linear_pages n (vpn + 1) self flags (store_entry m' entry value)
  if load_entry m' entry == 0 then rest else panic

unfoldable pub map_linear_segment : Mapping → Segment → Memory → Run Memory
map_linear_segment self segment m =
    map_linear_pages (end_vpn segment - start_vpn segment) (start_vpn segment) self segment.flags m

-- `for(i = 0; i < n; i ++) dst[i] = src[i]`
unfoldable pub copy_bytes : ℕ → ℕ → ℕ → (ℕ → ℕ) → ℕ → ℕ
copy_bytes zero src dst bytes = bytes
copy_bytes (suc n) src dst bytes = copy_bytes n (src + 1) (dst + 1) (update bytes dst (bytes src))

-- The copy of one page, of which `l` bytes are left.
unfoldable pub copy_page : ℕ → ℕ → ℕ → (ℕ → ℕ) → ℕ → ℕ
copy_page l src dst bytes =
    if leb page_size l
    then copy_bytes page_size src dst bytes
    else fill (page_size - l) (dst + l) 0 (copy_bytes l src dst bytes)

-- The loop of mapFramedAndCopy, with `n` pages and `l` bytes left; the data stands at `s`.
unfoldable pub map_framed_pages : ℕ → ℕ → Mapping → ℕ → ℕ → ℕ → Memory → Run Memory
map_framed_pages zero vpn self flags s l m = ok m
map_framed_pages (suc n) vpn self flags s l m = do
  (entry, m') ← find_entry self vpn m
  let rest = do
    (paddr, m'') ← alloc_frame m'
    let mapped = store_entry m'' entry (bit_or (bit_or (paddr / 2 ^ 2) flags) valid)
    let filled = copy_page l s (access_va_via_pa paddr) mapped.bytes
    map_framed_pages n (vpn + 1) self flags (s + page_size) (l - page_size)
        (record mapped { bytes = filled })
  if load_entry m' entry == 0 then rest else panic

unfoldable pub map_framed_and_copy : Mapping → Segment → ℕ → ℕ → Memory → Run Memory
map_framed_and_copy self segment source length m =
    map_framed_pages (end_vpn segment - start_vpn segment) (start_vpn segment) self segment.flags
      source length m
