-- ===== src/Tests/Tables.antt =====
-- The page tables in the pages 10 to 14 of Tests/Frame.
use jokerix.Base.{ℕ, ◌+◌, ◌/◌, ◌%◌, ◌^◌, ◌<◌, ◌≡◌, ◌≢◌, refl, inl, ◌==◌, ◌||◌, if◌then◌else◌, arith}
use jokerix.Base.Run.{Returns}
use jokerix.Base.Bytes.{load_bytes}
use jokerix.Frame.Memory.{Memory}
use jokerix.Mapping.{find_entry}
use jokerix.Mapping.Table.{slot, entry, page_of, IsTable, IsSound, load-zero}
use jokerix.Mapping.Walk.{Leads, IsPath, find_entry-Leads}
use jokerix.Tests.Frame.{six, six-IsValid}

-- An empty table in page 10.
abbrev empty : Memory
empty = record { sta = six; bytes = λ a. 0 }

empty-entry : (t i : ℕ) → entry empty t i ≡ 0
empty-entry t i = load-zero (λ a. 0) (slot t i) λ b low high. refl

empty-IsSound : IsSound empty
empty-IsSound = record { valid = six-IsValid; narrow = λ q mq. omega (arith, mq) }

empty-IsTable : IsTable empty 10
empty-IsTable = record { managed = (omega arith, omega arith); taken = refl }

empty-IsPath : (vpn : ℕ) → IsPath empty 10 vpn
empty-IsPath vpn = record {
  table = empty-IsTable;
  top = inl (empty-entry 10 (vpn / 2 ^ 18 % 512));
  middle =
      λ on. inl (empty-entry (page_of (entry empty 10 (vpn / 2 ^ 18 % 512))) (vpn / 2 ^ 9 % 512));
}

find_entry-Leads_example :
    Returns
      (λ (at, m').
        Leads m' 10 0x80200 at
        × IsSound m'
        × ((other at' : ℕ) → Leads empty 10 other at' → Leads m' 10 other at')
        × ((q j : ℕ)
            → IsTable empty q
            → j < 512
            → entry empty q j ≢ 0
            → entry m' q j ≡ entry empty q j))
      (find_entry (record { root_ppn = 10 }) 0x80200 empty)
find_entry-Leads_example =
    find_entry-Leads empty 10 0x80200 11 12 empty-IsSound (empty-IsPath 0x80200)
      (omega arith, omega arith) refl (omega arith, omega arith) refl (omega arith)

-- The tables 10, 11 and 12, each named by the first entry of the one before.
abbrev chain_node : ℕ → ℕ
chain_node i = if (i == 12) || (i == 13) || (i == 6) || (i == 3) || (i == 1) then 0 else 1

abbrev chain_byte : ℕ → ℕ
chain_byte a =
    if (a == slot 10 0) || (a == slot 11 0)
    then 1
    else if a == slot 10 0 + 1
    then 0x2c
    else if a == slot 11 0 + 1
    then 0x30
    else 0

abbrev chain : Memory
chain = record {
  sta = record { node = chain_node; first_single = 8; length = 6; start_ppn = 9 };
  bytes = chain_byte;
}

chain-IsSound : IsSound chain
chain-IsSound = record { valid = ground arith; narrow = λ q mq. omega (arith, mq) }

chain-Leads : Leads chain 10 3 (slot 12 3)
unfolding load_bytes
chain-Leads = record {
  top = refl;
  middle = refl;
  table = record { managed = (omega arith, omega arith); taken = refl };
  leaf = record { managed = (omega arith, omega arith); taken = refl };
  last = refl;
}
