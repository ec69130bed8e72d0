-- ===== src/Mapping/Page.antt =====
-- mapLinearSegment of kernel/mapping.c for one page: the machine's walk finds what was mapped.
use jokerix.Base.{ℕ, ◌/◌, ◌%◌, ◌^◌, ◌≡◌}
use jokerix.Frame.Memory.{Memory}
use jokerix.Mapping.Table.{entry, page_of, IsOn}

-- What the entry of a page in the third table has, where `u` is the second.
abbrev leaf_entry : Memory → ℕ → ℕ → ℕ
leaf_entry m vpn u = entry m (page_of (entry m u (vpn / 2 ^ 9 % 512))) (vpn % 512)

-- The page is not mapped: where its walk leads to an entry, this is 0.
pub record IsUnmapped (m : Memory) (root vpn : ℕ) : Type 0 where
  pub none :
      IsOn (entry m root (vpn / 2 ^ 18 % 512))
      → IsOn (entry m (page_of (entry m root (vpn / 2 ^ 18 % 512))) (vpn / 2 ^ 9 % 512))
      → leaf_entry m vpn (page_of (entry m root (vpn / 2 ^ 18 % 512))) ≡ 0
