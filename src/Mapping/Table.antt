-- ===== src/Mapping/Table.antt =====
-- The page tables of kernel/mapping.c, and one round of findEntry.
use jokerix.Base.{
  ℕ, ◌+◌, ◌*◌, ◌/◌, ◌%◌, ◌^◌, ◌≤◌, ◌<◌, ◌≡◌, ◌≢◌, refl, ◌⊎◌, inl, arith, false, ◌==◌,
}
use jokerix.Base.Run.{ok, Returns, returns}
use jokerix.Base.Bytes.{load_bytes, load_bytes-same}
use jokerix.Frame.Pages.{IsValid, IsManaged, IsFree, leaf}
use jokerix.Frame.Memory.{Memory, kernel_map_offset}
use jokerix.Mapping.{entry_addr, fill_entry, next_entry}
use jokerix.Mapping.Bits.{pde_mask_lem}

-- The address of an entry of the table in a page.
abbrev pub slot : ℕ → ℕ → ℕ
slot t i = t * 4096 + kernel_map_offset + i * 8

abbrev pub entry : Memory → ℕ → ℕ → ℕ
entry m t i = load_bytes 8 m.bytes (slot t i)

-- The page that an entry names.
abbrev pub page_of : ℕ → ℕ
page_of e = e / 2 ^ 10 % 2 ^ 44

-- For the machine an entry names a table if its bit V is set and none of R, W, X, U, G, A and D is;
-- with R or X it would be a page.
abbrev pub IsOn : ℕ → Type 0
IsOn e = e % 2 ^ 8 ≡ 1

-- A managed page below 4 GiB that is taken.
pub record IsTable (m : Memory) (t : ℕ) : Type 0 where
  pub managed : IsManaged m.sta t
  pub taken : m.sta.node (leaf m.sta t) ≡ 1

-- The allocator is valid, and its pages lie below 4 GiB.
pub record IsSound (m : Memory) : Type 0 where
  pub valid : IsValid m.sta
  pub narrow : (q : ℕ) → IsManaged m.sta q → q < 2 ^ 20

-- An entry is 0 or names a table.
abbrev pub IsEntry : Memory → ℕ → Type 0
IsEntry m e = (e ≡ 0) ⊎ (IsOn e × IsTable m (page_of e))

-- What a round of findEntry has done to the entry `i` of the table `t`.
pub record Stepped (m : Memory) (t i level at : ℕ) (m' : Memory) : Type 0 where
  pub sound : IsSound m'
  pub on : IsOn (entry m' t i)
  pub here : at ≡ slot (page_of (entry m' t i)) level
  pub table : IsTable m' (page_of (entry m' t i))
  pub tables : (q : ℕ) → IsTable m q → IsTable m' q
  pub entries : (q j : ℕ) → IsTable m q → j < 512 → entry m q j ≢ 0 → entry m' q j ≡ entry m q j
  pub fresh :
      ((entry m' t i ≡ entry m t i) × (m' ≡ m))
      ⊎ ((j : ℕ) → j < 512 → entry m' (page_of (entry m' t i)) j ≡ 0)
  pub one_left :
      (f g : ℕ)
      → IsManaged m.sta f
      → IsFree m.sta f
      → IsManaged m.sta g
      → IsFree m.sta g
      → f ≢ g
      → (h : ℕ) × IsManaged m'.sta h × IsFree m'.sta h

pub entry_addr_lem : (t i : ℕ) → t < 2 ^ 20 → i < 512 → entry_addr (t * 4096) i ≡ slot t i
entry_addr_lem t i narrow small = omega arith

-- The bytes of two entries are apart.
pub slot-apart :
    (t i q j b : ℕ)
    → (t ≢ q) ⊎ (i ≢ j)
    → i < 512
    → j < 512
    → slot q j ≤ b
    → b < slot q j + 8
    → (b < slot t i) ⊎ (slot t i + 8 ≤ b)
slot-apart t i q j b ne p r low high = ground arith

-- An entry that is there is followed.
pub next_entry-IsOn :
    (m : Memory) (t i level : ℕ)
    → IsSound m
    → level < 512
    → IsOn (entry m t i)
    → IsTable m (page_of (entry m t i))
    → next_entry (slot t i) level m ≡ ok (slot (page_of (entry m t i)) level, m)
unfolding next_entry fill_entry
next_entry-IsOn m t i level sound small on table =
    let some_entry : (entry m t i == 0) ≡ false = ground arith in
    let address =
      entry_addr_lem (page_of (entry m t i)) level (sound.narrow _ table.managed) small in
    rw (some_entry, pde_mask_lem (entry m t i), address) refl

pub next_entry-on :
    (m : Memory) (t i level : ℕ)
    → IsSound m
    → level < 512
    → IsOn (entry m t i)
    → IsTable m (page_of (entry m t i))
    → Returns (λ (at, m'). Stepped m t i level at m') (next_entry (slot t i) level m)
next_entry-on m t i level sound small on table =
    rw (next_entry-IsOn m t i level sound small on table) (
      returns (record {
        sound = sound;
        on = on;
        here = refl;
        table = table;
        tables = λ q h. h;
        entries = λ q j h lt some_entry. refl;
        fresh = inl (refl, refl);
        one_left = λ f g mf ff mg fg ne. (f, mf, ff);
      }))

pub load-zero :
    (bytes : ℕ → ℕ) (a : ℕ) → ((b : ℕ) → a ≤ b → b < a + 8 → bytes b ≡ 0) → load_bytes 8 bytes a ≡ 0
unfolding load_bytes
load-zero bytes a clear = load_bytes-same 8 (λ b. 0) bytes a clear
