-- ===== src/Mkfs/Inodes.antt =====
-- The inodes in the image of mkfs/mksfs.c, as kernel/fs.c reads them, and the blocks that they
-- depend on.
use jokerix.Base.{
  ℕ, ◌+◌, ◌-◌, ◌*◌, ◌^◌, ◌≤◌, ◌<◌, ◌≡◌, ◌≢◌, sym, ◌∙◌, subst, inl, inr, Bool, true, List, ltb,
  Bool-cases, arith,
}
use jokerix.Base.Bytes.{load_bytes-same}
use jokerix.Fs.{Image, block_size, load32, inode_at, get_block_addr, indirect_entry}
use jokerix.Fs.Names.{entry}
use jokerix.Mkfs.{Inode, Builder, block_addr, byte_count, copy_inode_to_block}
use jokerix.Mkfs.Blocks.{number}
use jokerix.Mkfs.Name.{IsNamed}
use jokerix.Mkfs.Laws.{load32-load_bytes, copy_inode_to_block-inode_at}

-- The blocks `keep` are the same in two images.
abbrev pub Same : (ℕ → Bool) → Image → Image → Type 0
Same keep m m' =
    (b o : ℕ) → keep b ≡ true → o < block_size → m' (block_addr b + o) ≡ m (block_addr b + o)

-- An inode of `slots` blocks: it stands in a block of `keep`, and so do its numbers.
pub record IsInode (keep : ℕ → Bool) (m : Image) (block type : ℕ) (name : List ℕ) (slots : ℕ)
    : Type 0 where
  pub own : keep block ≡ true
  pub kind : (inode_at m block).type ≡ type
  pub named : IsNamed (λ i. m ((inode_at m block).filename + i)) 0 name
  pub short : byte_count name < 32
  pub high : slots ≤ 1036
  pub numbers : 12 < slots → keep (inode_at m block).indirect ≡ true

load32-same :
    (m m' : Image) (a : ℕ) → ((b : ℕ) → a ≤ b → b < a + 4 → m' b ≡ m b) → load32 m' a ≡ load32 m a
load32-same m m' a same =
    load32-load_bytes m' a ∙ load_bytes-same 4 m m' a same ∙ sym (load32-load_bytes m a)

module _ (keep : ℕ → Bool) (m m' : Image) (block : ℕ) (same : Same keep m m')
    (own : keep block ≡ true) where
  byte-same : (a : ℕ) → block_addr block ≤ a → a < block_addr block + 4096 → m' a ≡ m a
  byte-same a low high =
      let at : block_addr block + (a - block_addr block) ≡ a = omega arith in
      subst (λ x. m' x ≡ m x) at (same block (a - block_addr block) own (omega arith))

  word-same :
      (o : ℕ) → o + 4 ≤ 4096 → load32 m' (block_addr block + o) ≡ load32 m (block_addr block + o)
  word-same o inside =
      load32-same m m' (block_addr block + o) (λ b p q. byte-same b (omega arith) (omega arith))

  -- The inode in a block of `keep` is the same in both.
  pub inode-Same :
      ((inode_at m' block).type ≡ (inode_at m block).type)
      × ((inode_at m' block).size ≡ (inode_at m block).size)
      × ((inode_at m' block).blocks ≡ (inode_at m block).blocks)
      × ((inode_at m' block).indirect ≡ (inode_at m block).indirect)
      × ((i : ℕ) → i < 12 → (inode_at m' block).direct i ≡ (inode_at m block).direct i)
  unfolding inode_at get_block_addr
  inode-Same = (
    word-same 4 (omega arith),
    load32-same m m' (block_addr block) (λ b p q. byte-same b (omega arith) (omega arith)),
    word-same 40 (omega arith),
    word-same 92 (omega arith),
    λ i lt.
        load32-same m m' (block_addr block + 44 + 4 * i)
          (λ b p q. byte-same b (omega arith) (omega arith)),
  )

  name-Same :
      (name : List ℕ)
      → byte_count name < 32
      → IsNamed (λ i. m ((inode_at m block).filename + i)) 0 name
      → IsNamed (λ i. m' ((inode_at m' block).filename + i)) 0 name
  unfolding inode_at get_block_addr
  name-Same name short named = record {
    letter = λ k lt. byte-same _ (omega arith) (omega arith) ∙ named.letter k lt;
    end = byte-same _ (omega arith) (omega arith) ∙ named.end;
  }

pub IsInode-Same :
    (keep keep' : ℕ → Bool) (m m' : Image) (block type : ℕ) (name : List ℕ) (slots : ℕ)
    → Same keep m m'
    → ((b : ℕ) → keep b ≡ true → keep' b ≡ true)
    → IsInode keep m block type name slots
    → IsInode keep' m' block type name slots
IsInode-Same keep keep' m m' block type name slots same more i =
    let (kind, size, blocks, indirect, direct) = inode-Same keep m m' block same i.own in
    record {
      own = more block i.own;
      kind = kind ∙ i.kind;
      named = name-Same keep m m' block same i.own name i.short i.named;
      short = i.short;
      high = i.high;
      numbers = λ lt. rw indirect (more _ (i.numbers lt));
    }

-- Its blocks have the same numbers.
pub entry-Same :
    (keep : ℕ → Bool) (m m' : Image) (block type : ℕ) (name : List ℕ) (slots : ℕ)
    → Same keep m m'
    → IsInode keep m block type name slots
    → (j : ℕ) → j < slots
    → entry m' (inode_at m' block) j ≡ entry m (inode_at m block) j
unfolding indirect_entry get_block_addr
entry-Same keep m m' block type name slots same i j lt =
    let (kind, size, blocks, indirect, direct) = inode-Same keep m m' block same i.own in
    elim (Bool-cases (ltb j 12)) [
      | inl near ↦ rw near (direct j (ground arith))
      | inr far ↦
          let high = i.high in
          let there = i.numbers (ground arith) in
          rw (far, indirect)
            (word-same keep m m' (inode_at m block).indirect same there (4 * (j - 12))
              (omega arith))
    ]

-- What mksfs has written to a block.
pub copied-IsInode :
    (keep : ℕ → Bool) (block slots : ℕ) (name : List ℕ) (node : Inode) (s : Builder)
    → keep block ≡ true
    → byte_count name < 32
    → slots ≤ 1036
    → IsNamed node.filename 0 name
    → (12 < slots → (keep node.indirect ≡ true) × (node.indirect ≢ block))
    → node.size < 2 ^ 32
    → node.type < 2 ^ 32
    → node.blocks < 2 ^ 32
    → node.indirect < 2 ^ 32
    → ((i : ℕ) → node.direct i < 2 ^ 32)
    → let m = (copy_inode_to_block block node s).image in
      IsInode keep m block node.type name slots
      × ((inode_at m block).size ≡ node.size)
      × ((inode_at m block).blocks ≡ node.blocks)
      × ((j : ℕ) → j < slots → entry m (inode_at m block) j ≡ number s.image node j)
      × ((b o : ℕ) → b ≢ block → o < block_size → m (block_addr b + o) ≡ s.image (block_addr b + o))
unfolding indirect_entry get_block_addr
copied-IsInode keep block slots name node s own short high named numbers size type blocks indirect
      direct =
    let m = (copy_inode_to_block block node s).image in
    let (e_size, e_type, e_blocks, e_indirect, e_direct, e_name, apart) =
      copy_inode_to_block-inode_at block node s size type blocks indirect (λ i lt. direct i) in
    let others : (b o : ℕ)
        → b ≢ block
        → o < block_size
        → m (block_addr b + o) ≡ s.image (block_addr b + o) =
      λ b o ne lt. apart (block_addr b + o) (ground arith) in
    (
      record {
        own = own;
        kind = e_type;
        named = record {
          letter = λ k lt. e_name (0 + k) (omega arith) ∙ named.letter k lt;
          end = e_name (0 + byte_count name) (omega arith) ∙ named.end;
        };
        short = short;
        high = high;
        numbers = λ lt. rw e_indirect ((numbers lt).0);
      },
      e_size,
      e_blocks,
      λ j lt. elim (Bool-cases (ltb j 12)) [
        | inl near ↦ rw near (e_direct j (ground arith))
        | inr far ↦
            let ne = (numbers (ground arith)).1 in
            let at : node.indirect * 4096 + 4 * (j - 12) ≡ node.indirect * 4096 + (j - 12) * 4 =
              omega arith in
            rw (far, e_indirect, at)
              (load32-load_bytes m (block_addr node.indirect + (j - 12) * 4)
                ∙ load_bytes-same 4 s.image m (block_addr node.indirect + (j - 12) * 4)
                    λ a p q. apart a (ground (arith, ne)))
      ],
      others,
    )
