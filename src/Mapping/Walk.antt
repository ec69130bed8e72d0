-- ===== src/Mapping/Walk.antt =====
-- findEntry of kernel/mapping.c against the walk of the machine through the page tables.
use jokerix.Base.{ℕ, ◌*◌, ◌/◌, ◌%◌, ◌^◌, ◌<◌, ◌≡◌, ◌≢◌, sym, ap, ◌∙◌, subst, inl, inr, arith}
use jokerix.Base.Run.{ok, Returns, Returns-bind, Returns-map}
use jokerix.Frame.Pages.{IsManaged, IsFree}
use jokerix.Frame.Memory.{Memory}
use jokerix.Mapping.{find_entry}
use jokerix.Mapping.Bits.{get_vpn_levels_lem}
use jokerix.Mapping.Table.{
  slot, entry, page_of, IsOn, IsTable, IsSound, IsEntry, Stepped, entry_addr_lem, next_entry-IsOn,
}
use jokerix.Mapping.NewTable.{next_entry_lem}

-- The walk of the machine for a page number: through two entries that have V and none of the other
-- flags, and so name tables, to an entry of the third table.
pub record Leads (m : Memory) (root vpn at : ℕ) : Type 0 where
  pub top : IsOn (entry m root (vpn / 2 ^ 18 % 512))
  pub middle : IsOn (entry m (page_of (entry m root (vpn / 2 ^ 18 % 512))) (vpn / 2 ^ 9 % 512))
  pub table : IsTable m (page_of (entry m root (vpn / 2 ^ 18 % 512)))
  pub leaf :
      IsTable m
        (page_of (entry m (page_of (entry m root (vpn / 2 ^ 18 % 512))) (vpn / 2 ^ 9 % 512)))
  pub last :
      at
      ≡ slot
          (page_of (entry m (page_of (entry m root (vpn / 2 ^ 18 % 512))) (vpn / 2 ^ 9 % 512)))
          (vpn % 512)

-- The tables on the way to a page, as far as there are any.
pub record IsPath (m : Memory) (root vpn : ℕ) : Type 0 where
  pub table : IsTable m root
  pub top : IsEntry m (entry m root (vpn / 2 ^ 18 % 512))
  pub middle :
      IsOn (entry m root (vpn / 2 ^ 18 % 512))
      → IsEntry m (entry m (page_of (entry m root (vpn / 2 ^ 18 % 512))) (vpn / 2 ^ 9 % 512))

-- The entry of the second table, once the first round is over.
middle-IsEntry :
    (m : Memory) (root vpn at : ℕ) (m' : Memory)
    → IsPath m root vpn
    → Stepped m root (vpn / 2 ^ 18 % 512) (vpn / 2 ^ 9 % 512) at m'
    → IsEntry m' (entry m' (page_of (entry m' root (vpn / 2 ^ 18 % 512))) (vpn / 2 ^ 9 % 512))
middle-IsEntry m root vpn at m' path s = elim s.fresh [
  | inl kept ↦
      subst
        (λ n. IsEntry n (entry n (page_of (entry n root (vpn / 2 ^ 18 % 512))) (vpn / 2 ^ 9 % 512)))
        (sym kept.1) (path.middle (subst IsOn kept.0 s.on))
  | inr empty ↦ inl (empty (vpn / 2 ^ 9 % 512) (omega arith))
]

-- Where every entry that is not 0 stays, so does the walk to any page.
pub Leads-frame :
    (m m' : Memory) (root vpn at : ℕ)
    → IsTable m root
    → ((q : ℕ) → IsTable m q → IsTable m' q)
    → ((q j : ℕ) → IsTable m q → j < 512 → entry m q j ≢ 0 → entry m' q j ≡ entry m q j)
    → Leads m root vpn at
    → Leads m' root vpn at
Leads-frame m m' root vpn at table tables kept w =
    let i = vpn / 2 ^ 18 % 512 in
    let j = vpn / 2 ^ 9 % 512 in
    let top = kept root i table (omega arith) (omega (arith, w.top)) in
    let middle =
      kept (page_of (entry m root i)) j w.table (omega arith) (omega (arith, w.middle)) in
    let way : entry m' (page_of (entry m' root i)) j ≡ entry m (page_of (entry m root i)) j =
      ap (λ e. entry m' (page_of e) j) top ∙ middle in
    record {
      top = subst IsOn (sym top) w.top;
      middle = subst IsOn (sym way) w.middle;
      table = subst (λ e. IsTable m' (page_of e)) (sym top) (tables _ w.table);
      leaf = subst (λ e. IsTable m' (page_of e)) (sym way) (tables _ w.leaf);
      last = w.last ∙ ap (λ e. slot (page_of e) (vpn % 512)) (sym way);
    }

-- The two rounds of findEntry.
pub record Rounds (m : Memory) (root vpn at : ℕ) (m2 : Memory) : Type 0 where
  pub m1 : Memory
  pub at1 : ℕ
  pub one : Stepped m root (vpn / 2 ^ 18 % 512) (vpn / 2 ^ 9 % 512) at1 m1
  pub two :
      Stepped m1
        (page_of (entry m1 root (vpn / 2 ^ 18 % 512)))
        (vpn / 2 ^ 9 % 512)
        (vpn % 512)
        at
        m2

pub find_entry-Rounds :
    (m : Memory) (root vpn f g : ℕ)
    → IsSound m
    → IsPath m root vpn
    → IsManaged m.sta f
    → IsFree m.sta f
    → IsManaged m.sta g
    → IsFree m.sta g
    → f ≢ g
    → Returns (λ (at, m'). Rounds m root vpn at m') (find_entry (record { root_ppn = root }) vpn m)
unfolding find_entry
find_entry-Rounds m root vpn f g sound path mf ff mg fg ne =
    let i = vpn / 2 ^ 18 % 512 in
    let start : (root * 2 ^ 12) % 2 ^ 64 ≡ root * 4096 =
      omega (arith, sound.narrow root path.table.managed) in
    let first = entry_addr_lem root i (sound.narrow root path.table.managed) (omega arith) in
    let j = vpn / 2 ^ 9 % 512 in
    rw (get_vpn_levels_lem vpn, start, first)
      (Returns-bind
        (next_entry_lem m root i j f sound (omega arith) (omega arith) path.table path.top mf ff)
        λ (at, m1) s.
          let u = page_of (entry m1 root i) in
          let (h, mh, fh) = s.one_left f g mf ff mg fg ne in
          let rest =
            next_entry_lem m1 u j (vpn % 512) h s.sound (omega arith) (omega arith) s.table
              (middle-IsEntry m root vpn at m1 path s) mh fh in
          rw (s.here)
            (Returns-map rest λ (at', m2) s'. record { m1 = m1; at1 = at; one = s; two = s' }))

module _ (m : Memory) (root vpn at : ℕ) (m2 : Memory) (table : IsTable m root)
    (r : Rounds m root vpn at m2) where
  pub Rounds-tables : (q : ℕ) → IsTable m q → IsTable m2 q
  Rounds-tables q h = r.two.tables q (r.one.tables q h)

  pub Rounds-kept : (q l : ℕ) → IsTable m q → l < 512 → entry m q l ≢ 0 → entry m2 q l ≡ entry m q l
  Rounds-kept q l h lt some_entry =
      let before = r.one.entries q l h lt some_entry in
      r.two.entries q l (r.one.tables q h) lt (λ e. some_entry (sym before ∙ e)) ∙ before

  -- The second round leaves the entry of the first.
  pub Rounds-top : entry m2 root (vpn / 2 ^ 18 % 512) ≡ entry r.m1 root (vpn / 2 ^ 18 % 512)
  Rounds-top =
      r.two.entries root (vpn / 2 ^ 18 % 512) (r.one.tables root table) (omega arith)
        (omega (arith, r.one.on))

  pub Rounds-Leads : Leads m2 root vpn at
  Rounds-Leads =
      let j = vpn / 2 ^ 9 % 512 in
      let same = sym Rounds-top in
      record {
        top = subst IsOn same r.one.on;
        middle = subst (λ w. IsOn (entry m2 (page_of w) j)) same r.two.on;
        table =
            subst (λ w. IsTable m2 (page_of w)) same
              (r.two.tables (page_of (entry r.m1 root (vpn / 2 ^ 18 % 512))) r.one.table);
        leaf = subst (λ w. IsTable m2 (page_of (entry m2 (page_of w) j))) same r.two.table;
        last = r.two.here ∙ ap (λ w. slot (page_of (entry m2 (page_of w) j)) (vpn % 512)) same;
      }

-- If the entries on the way to a page are 0 or name tables and two pages are free, findEntry returns
-- the address of the entry to which the machine's walk leads. For every other page the walk leads
-- where it led before, and no entry of a table that was not 0 changes.
pub find_entry-Leads :
    (m : Memory) (root vpn f g : ℕ)
    → IsSound m
    → IsPath m root vpn
    → IsManaged m.sta f
    → IsFree m.sta f
    → IsManaged m.sta g
    → IsFree m.sta g
    → f ≢ g
    → Returns
        (λ (at, m').
          Leads m' root vpn at
          × IsSound m'
          × ((other at' : ℕ) → Leads m root other at' → Leads m' root other at')
          × ((q j : ℕ) → IsTable m q → j < 512 → entry m q j ≢ 0 → entry m' q j ≡ entry m q j))
        (find_entry (record { root_ppn = root }) vpn m)
find_entry-Leads m root vpn f g sound path mf ff mg fg ne =
    Returns-map (find_entry-Rounds m root vpn f g sound path mf ff mg fg ne) λ (at, m2) r.
      let kept = Rounds-kept m root vpn at m2 path.table r in
      (
        Rounds-Leads m root vpn at m2 path.table r,
        r.two.sound,
        (λ other at' w.
            Leads-frame m m2 root other at' path.table (Rounds-tables m root vpn at m2 path.table r)
              kept w),
        kept,
      )

-- Where the walk leads to an entry, findEntry returns its address and changes nothing.
pub find_entry-again :
    (m : Memory) (root vpn at : ℕ)
    → IsSound m
    → IsTable m root
    → Leads m root vpn at
    → find_entry (record { root_ppn = root }) vpn m ≡ ok (at, m)
unfolding find_entry
find_entry-again m root vpn at sound table w =
    let i = vpn / 2 ^ 18 % 512 in
    let j = vpn / 2 ^ 9 % 512 in
    let u = page_of (entry m root i) in
    let start : (root * 2 ^ 12) % 2 ^ 64 ≡ root * 4096 =
      omega (arith, sound.narrow root table.managed) in
    let first = entry_addr_lem root i (sound.narrow root table.managed) (omega arith) in
    rw
      (
        get_vpn_levels_lem vpn,
        start,
        first,
        next_entry-IsOn m root i j sound (omega arith) w.top w.table,
        next_entry-IsOn m u j (vpn % 512) sound (omega arith) w.middle w.leaf,
      )
      (ap (λ a. ok (a, m)) (sym w.last))
