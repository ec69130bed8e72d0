-- ===== src/Mkfs/Folder.antt =====
-- A directory that mkfs/mksfs.c has packed, as kernel/fs.c reads it.
use jokerix.Base.{
  ℕ, ◌+◌, ◌^◌, ◌≤◌, ◌<◌, ◌≡◌, ◌≢◌, sym, ap, ◌∙◌, subst, inl, inr, true, false, List, ◌==◌,
  Bool-cases, update, arith,
}
use jokerix.Fs.{type_dir, inode_at}
use jokerix.Fs.Names.{entry}
use jokerix.Mkfs.{Entries, Inode, Builder, block_addr, block_num, byte_count, copy_inode_to_block}
use jokerix.Mkfs.Space.{free_count, Took}
use jokerix.Mkfs.Blocks.{number, spare, IsOpen}
use jokerix.Mkfs.Pack.{free_before, taken_ne}
use jokerix.Mkfs.Name.{IsNamed}
use jokerix.Mkfs.Inodes.{IsInode, copied-IsInode}
use jokerix.Mkfs.File.{newly}
use jokerix.Mkfs.Tree.{slots, room_for, IsDirectory, Listed, Listed-Same}
use jokerix.Mkfs.Moved.{IsKept, Moved, held}

-- The walk over the entries `es` of a directory, from its block `index` on.
pub record Walked (s : Builder) (node : Inode) (index : ℕ) (es : Entries) (num : ℕ) (s' : Builder)
    (node' : Inode) : Type 0 where
  pub moved : Moved s node index s' node'
  pub blocks : node'.blocks ≡ index + slots es
  pub open_ : IsOpen s' node' (index + slots es)
  pub listed : Listed (held s s' node') s'.image (number s'.image node') num es index
  pub room : free_count s.freemap + spare node' ≤ free_count s'.freemap + room_for es + spare node

-- What packing a directory does.
pub record Made (s : Builder) (block : ℕ) (s' : Builder) (name : List ℕ) (children : Entries)
    (num : ℕ) : Type 0 where
  pub kept : IsKept s s'
  pub directory : IsDirectory (newly s s') s'.image block num name (slots children)
  pub listed :
      Listed (newly s s') s'.image (entry s'.image (inode_at s'.image block)) block children 2
  pub room : free_count s.freemap ≤ free_count s'.freemap + room_for children + 2

-- The inode of a directory with `.` and `..` in front.
abbrev pub empty_dir : Inode → (ℕ → ℕ) → ℕ → ℕ → Inode
empty_dir raw filename block num = record raw {
  size = 0;
  type = type_dir;
  filename = filename;
  direct = update (update raw.direct 0 block) 1 num;
}

module _ (s : Builder) (block : ℕ) (s1 : Builder) (name : List ℕ) (children : Entries) (num : ℕ)
    (raw : Inode) (filename : ℕ → ℕ) (s2 : Builder) (child : Inode) (t : Took s block s1)
    (first : s.freemap 0 ≡ true) (none : raw.indirect ≡ 0)
    (w : Walked s1 (empty_dir raw filename block num) 2 children block s2 child) where
  abbrev made : Builder
  made = copy_inode_to_block block child s2

  before : (b : ℕ) → s.freemap b ≡ true → s1.freemap b ≡ true
  before b h = t.others b (taken_ne s.freemap b block h t.free) ∙ h

  now : (b : ℕ) → s1.freemap b ≡ false → s2.freemap b ≡ true → newly s made b ≡ true
  unfolding copy_inode_to_block
  now b f h = let free = free_before s.freemap s1.freemap b before f in rw (free, h)

  own : newly s made block ≡ true
  unfolding copy_inode_to_block
  own = let h = w.moved.taken block t.taken in rw (t.free, h)

  not_zero : block ≢ 0
  not_zero e = absurd (cc (first, t.free, e))

  numbers :
      12 < 2 + slots children → (newly s made child.indirect ≡ true) × (child.indirect ≢ block)
  numbers lt =
      let some : child.indirect ≢ 0 = λ e. absurd (omega (arith, w.open_.few e)) in
      elim w.moved.indirect [
        | inl e ↦ absurd (some (e ∙ none))
        | inr f ↦ (
          now child.indirect f (w.open_.many some).0,
          λ e. taken_ne s1.freemap block child.indirect t.taken f (sym e),
        )
      ]

  low : child.indirect < 2 ^ 32
  low = elim (Bool-cases (child.indirect == 0)) [
    | inl z ↦ ground arith
    | inr some ↦ ground (arith, (w.open_.many (ground arith)).1)
  ]

  pub directory-Made :
      byte_count name < 32
      → slots children ≤ 1034
      → IsNamed filename 0 name
      → num < block_num
      → ((i : ℕ) → raw.direct i < 2 ^ 32)
      → Made s block made name children num
  unfolding copy_inode_to_block
  directory-Made short high named parent narrow =
      let small : (i : ℕ) → (empty_dir raw filename block num).direct i < 2 ^ 32 =
        λ i. ground (arith, narrow i, t.low) in
      let size = w.moved.size in
      let type = w.moved.type in
      let blocks = w.blocks in
      let (inode, e_size, e_blocks, numbered, others) =
        copied-IsInode (newly s made) block (2 + slots children) name child s2 own short
          (omega arith) (subst (λ f. IsNamed f 0 name) (sym w.moved.filename) named) numbers
          (omega arith) (omega arith) (omega arith) low (w.moved.small small) in
      record {
        kept = record {
          taken = λ b h. w.moved.taken b (before b h);
          bytes = λ b o h ne lt.
              others b o (taken_ne s.freemap b block h t.free) lt
              ∙ w.moved.bytes b o (before b h) ne (λ e. ne (e ∙ none)) lt
              ∙ ap (λ m. m (block_addr b + o)) t.image;
        };
        directory = record {
          inode =
              subst (λ k. IsInode (newly s made) made.image block k name (2 + slots children)) type
                inode;
          blocks = e_blocks ∙ blocks;
          self = numbered 0 (omega arith) ∙ w.moved.before 0 (omega arith);
          up = numbered 1 (omega arith) ∙ w.moved.before 1 (omega arith);
        };
        listed =
            Listed-Same (held s1 s2 child) (newly s made) s2.image made.image
              (λ b o h lt.
                let free : s1.freemap b ≡ false = ground (arith, h) in
                others b o (λ e. absurd (cc (t.taken, free, e))) lt)
              (λ b h.
                let free : s1.freemap b ≡ false = ground (arith, h) in
                let taken : s2.freemap b ≡ true = ground (arith, h) in now b free taken)
              (entry made.image (inode_at made.image block)) (λ j p q. numbered j q) w.listed;
        room =
            let one : spare (empty_dir raw filename block num) ≤ 1 = ground arith in
            omega (arith, w.room, t.left, one);
      }
