-- ===== src/Mapping/NewTable.antt =====
-- A page that becomes a table of kernel/mapping.c: the round of findEntry at an entry that is 0.
use jokerix.Base.{
  bit_and, bit_or, ℕ, ◌+◌, ◌-◌, ◌*◌, ◌/◌, ◌%◌, ◌^◌, ◌≤◌, ◌<◌, ◌≡◌, ◌≢◌, sym, ap, ◌∙◌, subst, ◌⊎◌,
  inl, inr, arith, true, ◌==◌, Bool-cases,
}
use jokerix.Base.Run.{Returns, returns, Returns-inv}
use jokerix.Base.Bytes.{load_bytes, load_bytes-same, store_bytes-apart, load_bytes-store}
use jokerix.Frame.Pages.{IsManaged, IsFree, leaf}
use jokerix.Frame.Memory.{Memory, kernel_map_offset, access_va_via_pa}
use jokerix.Frame.Memory.Laws.{Framed, alloc_frame_clears}
use jokerix.Mapping.{valid, load_entry, store_entry, entry_addr, fill_entry, next_entry, pde_mask}
use jokerix.Mapping.Bits.{pde_mask_lem, table_entry}
use jokerix.Mapping.Table.{
  slot, entry, page_of, IsTable, IsSound, IsEntry, Stepped, entry_addr_lem, slot-apart, load-zero,
  next_entry-on,
}

-- A page that was free is not a table.
free-ne-table : (m : Memory) (f t : ℕ) → IsFree m.sta f → IsTable m t → t ≢ f
free-ne-table m f t free table e =
    let taken = subst (λ q. m.sta.node (leaf m.sta q) ≡ 1) e table.taken in
    omega (arith, free, taken)

-- A new page becomes the table of an entry.
module _ (m : Memory) (t i level addr : ℕ) (m1 : Memory) (sound : IsSound m) (pi : i < 512)
    (small : level < 512) (table : IsTable m t) (none : entry m t i ≡ 0)
    (g : Framed m addr m1) where
  abbrev linked : Memory
  linked = store_entry m1 (slot t i) (bit_or ((addr / 2 ^ 12 * 2 ^ 10) % 2 ^ 64) valid)

  new_narrow : addr / 4096 < 2 ^ 20
  new_narrow = sound.narrow (addr / 4096) g.managed

  new_other : (q : ℕ) → IsTable m q → q ≢ addr / 4096
  new_other q h = free-ne-table m (addr / 4096) q g.free h

  linked-entry : entry linked t i ≡ addr / 4096 * 2 ^ 10 + 1
  linked-entry =
      let word : (addr / 2 ^ 12 * 2 ^ 10) % 2 ^ 64 ≡ addr / 4096 * 2 ^ 10 =
        omega (arith, new_narrow) in
      let value = rw (sym word) at (table_entry (addr / 4096)) in
      load_bytes-store 8 m1.bytes (slot t i) _ (omega (arith, value, word, new_narrow))
      ∙ (rw word (table_entry (addr / 4096)))

  linked-page : page_of (entry linked t i) ≡ addr / 4096
  linked-page = rw linked-entry (omega (arith, new_narrow))

  linked-bytes : (b : ℕ) → (b < slot t i) ⊎ (slot t i + 8 ≤ b) → linked.bytes b ≡ m1.bytes b
  linked-bytes b out = store_bytes-apart 8 m1.bytes (slot t i) _ b out

  new_address : access_va_via_pa addr ≡ addr / 4096 * 4096 + kernel_map_offset
  new_address = omega (arith, new_narrow, g.aligned)

  linked-entries :
      (q j : ℕ) → IsTable m q → j < 512 → (t ≢ q) ⊎ (i ≢ j) → entry linked q j ≡ entry m q j
  linked-entries q j h lt ne = load_bytes-same 8 m.bytes linked.bytes (slot q j) λ b low high.
      linked-bytes b (slot-apart t i q j b ne pi lt low high)
      ∙ g.kept b (ground (arith, new_address, new_other q h))

  -- An entry that is not 0 is another one.
  other_entry : (q j : ℕ) → entry m q j ≢ 0 → (t ≢ q) ⊎ (i ≢ j)
  other_entry q j some_entry = elim (Bool-cases (t == q)) [
    | inr differ ↦ inl (ground arith)
    | inl same ↦
        let e : t ≡ q = ground arith in
        inr (λ e'. some_entry (ap (λ a. load_bytes 8 m.bytes a) (omega (arith, e, e')) ∙ none))
  ]

  linked-empty : (j : ℕ) → j < 512 → entry linked (addr / 4096) j ≡ 0
  linked-empty j lt = load-zero linked.bytes (slot (addr / 4096) j) λ b low high.
      let offset = b - (addr / 4096 * 4096 + kernel_map_offset) in
      let place : access_va_via_pa addr + offset ≡ b = omega (arith, new_address, low) in
      linked-bytes b (slot-apart t i (addr / 4096) j b (inl (new_other t table)) pi lt low high)
      ∙ ap m1.bytes (sym place)
      ∙ g.cleared offset (omega (arith, low, high, lt))

  linked-IsTable : (q : ℕ) → IsTable m q → IsTable linked q
  linked-IsTable q h = record {
    managed = omega (arith, h.managed, g.marked.start, g.marked.length);
    taken = g.marked.others q h.managed (new_other q h) ∙ h.taken;
  }

  linked-one_left :
      (f h : ℕ)
      → IsManaged m.sta f
      → IsFree m.sta f
      → IsManaged m.sta h
      → IsFree m.sta h
      → f ≢ h
      → (q : ℕ) × IsManaged linked.sta q × IsFree linked.sta q
  linked-one_left f h mf ff mh fh ne = elim (Bool-cases (f == addr / 4096)) [
    | inl same ↦ (
      h,
      omega (arith, mh, g.marked.start, g.marked.length),
      g.marked.others h mh (ground arith) ∙ fh,
    )
    | inr other ↦ (
      f,
      omega (arith, mf, g.marked.start, g.marked.length),
      g.marked.others f mf (ground arith) ∙ ff,
    )
  ]

  linked-Stepped :
      Stepped m t i level
        (entry_addr ((bit_and (load_entry linked (slot t i)) pde_mask * 2 ^ 2) % 2 ^ 64) level)
        linked
  linked-Stepped = record {
    sound = record {
      valid = g.marked.valid;
      narrow = λ q mq. sound.narrow q (omega (arith, mq, g.marked.start, g.marked.length));
    };
    on = rw linked-entry (omega arith);
    here = rw (pde_mask_lem (entry linked t i)) (
        entry_addr_lem (page_of (entry linked t i)) level (omega (arith, linked-page, new_narrow))
          small);
    table = rw linked-page (record {
      managed = omega (arith, g.managed, g.marked.start, g.marked.length);
      taken = g.marked.here;
    });
    tables = linked-IsTable;
    entries = λ q j h lt some_entry. linked-entries q j h lt (other_entry q j some_entry);
    fresh = rw linked-page (inr linked-empty);
    one_left = linked-one_left;
  }

-- A table for an entry that is 0.
next_entry-new :
    (m : Memory) (t i level f : ℕ)
    → IsSound m
    → i < 512
    → level < 512
    → IsTable m t
    → entry m t i ≡ 0
    → IsManaged m.sta f
    → IsFree m.sta f
    → Returns (λ (at, m'). Stepped m t i level at m') (next_entry (slot t i) level m)
unfolding next_entry fill_entry
next_entry-new m t i level f sound pi small table none mf ff =
    let none_yet : (entry m t i == 0) ≡ true = ground arith in
    let ((addr, m1), run, g) = Returns-inv (alloc_frame_clears m f sound.valid mf ff) in
    rw (none_yet, run) (returns (linked-Stepped m t i level addr m1 sound pi small table none g))

pub next_entry_lem :
    (m : Memory) (t i level f : ℕ)
    → IsSound m
    → i < 512
    → level < 512
    → IsTable m t
    → IsEntry m (entry m t i)
    → IsManaged m.sta f
    → IsFree m.sta f
    → Returns (λ (at, m'). Stepped m t i level at m') (next_entry (slot t i) level m)
next_entry_lem m t i level f sound pi small table (inl none) mf ff =
    next_entry-new m t i level f sound pi small table none mf ff
next_entry_lem m t i level f sound pi small table (inr (on, next)) mf ff =
    next_entry-on m t i level sound small on next
