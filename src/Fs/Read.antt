-- ===== src/Fs/Read.antt =====
-- readall of kernel/fs.c: what it leaves in the memory of its caller.
use jokerix.Base.{
  ℕ, zero, suc, ◌+◌, ◌-◌, ◌*◌, ◌/◌, ◌%◌, ◌≤◌, ◌<◌, ◌≡◌, refl, ap, ◌∙◌, ◌⊎◌, ◌≢◌, inl, inr, true,
  false, ◌&&◌, arith, ltb, leb, ◌==◌, Bool-cases, if◌then◌else◌, update,
}
use jokerix.Base.Run.{panic, Returns, returns}
use jokerix.Fs.{
  Image, Inode, inode_at, get_block_addr, copy_byte_to_buf, Reading, read_blocks, readall,
  indirect_entry, type_file, int_size, as_ints,
}
use jokerix.Fs.Names.{entry}

copy_lem :
    (n : ℕ) (m : Image) (src dst : ℕ) (buf : ℕ → ℕ) (j : ℕ)
    → copy_byte_to_buf n m src dst buf j
      ≡ (if leb dst j && ltb j (dst + n) then m (src + (j - dst)) else buf j)
unfolding copy_byte_to_buf
copy_lem zero m src dst buf j = ground arith
copy_lem (suc n) m src dst buf j = elim (Bool-cases (dst == j)) [
  | inl here ↦
      let first : m (src + (j - dst)) ≡ m src = ap m (ground arith) in
      ground (arith, copy_lem n m (src + 1) (dst + 1) (update buf dst (m src)) j, first)
  | inr away ↦ elim (Bool-cases (leb dst j)) [
    | inl behind ↦
        let next : m (src + 1 + (j - (dst + 1))) ≡ m (src + (j - dst)) = ap m (ground arith) in
        ground (arith, copy_lem n m (src + 1) (dst + 1) (update buf dst (m src)) j, next)
    | inr before ↦ ground (arith, copy_lem n m (src + 1) (dst + 1) (update buf dst (m src)) j)
  ]
]

-- Byte `k` of a file whose blocks are `block_of`.
abbrev pub file_byte : Image → (ℕ → ℕ) → ℕ → ℕ
file_byte m block_of k = m (get_block_addr (block_of (k / 4096)) + k % 4096)

-- `r` after the blocks that hold the bytes in front of `done`, of a file of `size` bytes that goes
-- to `buf`.
pub record IsRead (m : Image) (block_of : ℕ → ℕ) (size buf : ℕ) (old : ℕ → ℕ) (i : ℕ) (r : Reading)
    : Type 0 where
  left : r.left ≡ size - i * 4096
  at : r.at ≡ buf + (size - r.left)
  copied : (k : ℕ) → k < size → k < i * 4096 → r.memory (buf + k) ≡ file_byte m block_of k
  kept_behind : (k : ℕ) → size ≤ k → r.memory (buf + k) ≡ old (buf + k)
  kept_before : (j : ℕ) → j < buf → r.memory j ≡ old j

module _ (m : Image) (block_of : ℕ → ℕ) (size buf : ℕ) (old : ℕ → ℕ) where
  -- One block: `n` bytes of it.
  IsRead-one :
      (i n : ℕ) (r : Reading)
      → n ≡ (if leb 4096 r.left then 4096 else r.left)
      → IsRead m block_of size buf old i r
      → IsRead m block_of size buf old (i + 1) (record {
        left = r.left - n;
        at = r.at + n;
        memory = copy_byte_to_buf n m (get_block_addr (block_of i)) r.at r.memory;
      })
  IsRead-one i n r few h =
      let write = copy_lem n m (get_block_addr (block_of i)) r.at r.memory in
      let all : (r.left ≤ n) ⊎ (n ≡ 4096) = ground arith in
      let most : (n ≤ 4096) × (n ≤ r.left) = ground arith in
      record {
        left = omega (arith, h.left);
        at = omega (arith, h.at, h.left);
        copied = λ k p q. elim (Bool-cases (ltb k (i * 4096))) [
          | inl old_byte ↦ ground (arith, write (buf + k), h.copied k p, h.at, h.left)
          | inr new_byte ↦
              let block : k / 4096 ≡ i = ground (arith, h.left) in
              let offset : buf + k - r.at ≡ k % 4096 = ground (arith, h.at, h.left) in
              let inside : (leb r.at (buf + k) && ltb (buf + k) (r.at + n)) ≡ true =
                ground (arith, h.at, h.left) in
              rw (write (buf + k), inside, offset, block)
        ];
        kept_behind = λ k p. ground (arith, write (buf + k), h.kept_behind k p, h.at, h.left);
        kept_before = λ j p. ground (arith, write j, h.kept_before j p, h.at);
      }

  -- All the blocks of a loop.
  read_blocks_lem :
      (n i : ℕ) (r : Reading)
      → IsRead m block_of size buf old i r
      → IsRead m block_of size buf old (i + n) (read_blocks n i m block_of r)
  unfolding read_blocks
  read_blocks_lem zero i r h = let none_left : i + 0 ≡ i = omega arith in rw none_left h
  read_blocks_lem (suc n) i r h =
      let next : i + suc n ≡ i + 1 + n = omega arith in
      rw next (read_blocks_lem n (i + 1) _ (IsRead-one i _ r refl h))

-- The same file by other names for its blocks.
IsRead-same :
    (m : Image) (f g : ℕ → ℕ) (size buf : ℕ) (old : ℕ → ℕ) (i : ℕ) (r : Reading)
    → ((j : ℕ) → j < i → f j ≡ g j)
    → IsRead m f size buf old i r
    → IsRead m g size buf old i r
IsRead-same m f g size buf old i r same h = record {
  left = h.left;
  at = h.at;
  copied = λ k p q.
      h.copied k p q ∙ ap (λ b. m (get_block_addr b + k % 4096)) (same (k / 4096) (omega arith));
  kept_behind = h.kept_behind;
  kept_before = h.kept_before;
}

-- What readall promises: the bytes of the file are in the memory from `buf` on, and every byte
-- before and behind them is as it was.
pub record Holds (m : Image) (node : Inode) (buf : ℕ) (old memory : ℕ → ℕ) : Type 0 where
  pub copied : (k : ℕ) → k < node.size → memory (buf + k) ≡ file_byte m (entry m node) k
  pub behind : (k : ℕ) → node.size ≤ k → memory (buf + k) ≡ old (buf + k)
  pub before : (j : ℕ) → j < buf → memory j ≡ old j

IsRead-Holds :
    (m : Image) (node : Inode) (buf i : ℕ) (old : ℕ → ℕ) (r : Reading)
    → node.size ≤ i * 4096
    → IsRead m (entry m node) node.size buf old i r
    → Holds m node buf old r.memory
IsRead-Holds m node buf i old r enough h = record {
  copied = λ k p. h.copied k p (omega arith);
  behind = h.kept_behind;
  before = h.kept_before;
}

read_blocks-shift :
    (n i d : ℕ) (m : Image) (f : ℕ → ℕ) (r : Reading)
    → read_blocks n i m (λ j. f (j + d)) r ≡ read_blocks n (i + d) m f r
unfolding read_blocks
read_blocks-shift zero i d m f r = refl
read_blocks-shift (suc n) i d m f r =
    let next : i + 1 + d ≡ i + d + 1 = omega arith in
    rw (← next) (read_blocks-shift n (i + 1) d m f _)

read_blocks-same :
    (n i : ℕ) (m : Image) (f g : ℕ → ℕ) (r : Reading)
    → ((j : ℕ) → i ≤ j → f j ≡ g j)
    → read_blocks n i m f r ≡ read_blocks n i m g r
unfolding read_blocks
read_blocks-same zero i m f g r same = refl
read_blocks-same (suc n) i m f g r same =
    let first : f i ≡ g i = same i (omega arith) in
    rw first (read_blocks-same n (i + 1) m f g _ (λ j p. same j (omega arith)))

module _ (m : Image) (node : Inode) (buf : ℕ) (old : ℕ → ℕ) where
  abbrev start : Reading
  start = record { left = node.size; at = buf; memory = old }

  start-IsRead : (f : ℕ → ℕ) → IsRead m f node.size buf old 0 start
  start-IsRead f = record {
    left = omega arith;
    at = omega arith;
    copied = λ k p q. absurd (omega arith);
    kept_behind = λ k p. refl;
    kept_before = λ j p. refl;
  }

  direct-Holds :
      node.blocks ≤ 12
      → node.size ≤ node.blocks * 4096
      → Holds m node buf old (read_blocks node.blocks 0 m node.direct start).memory
  direct-Holds few enough = IsRead-Holds m node buf (0 + node.blocks) old _ (omega arith) (
      IsRead-same m node.direct (entry m node) node.size buf old (0 + node.blocks) _
        (λ j p. ground arith)
        (read_blocks_lem m node.direct node.size buf old node.blocks 0 start
          (start-IsRead node.direct)))

  indirect-Holds :
      12 < node.blocks
      → node.size ≤ node.blocks * 4096
      → Holds m node buf old
          (read_blocks
            (node.blocks - 12)
            0
            m
            (λ i. indirect_entry m node (i + 12))
            (read_blocks 12 0 m node.direct start)).memory
  indirect-Holds many enough =
      let front =
        IsRead-same m node.direct (entry m node) node.size buf old (0 + 12) _ (λ j p. ground arith)
          (read_blocks_lem m node.direct node.size buf old 12 0 start (start-IsRead node.direct)) in
      rw
        (
          read_blocks-shift (node.blocks - 12) 0 12 m (indirect_entry m node)
              (read_blocks 12 0 m node.direct start),
          read_blocks-same (node.blocks - 12) (0 + 12) m (indirect_entry m node) (entry m node)
              (read_blocks 12 0 m node.direct start) (λ j p. ground arith),
        )
        (IsRead-Holds m node buf (0 + 12 + (node.blocks - 12)) old _ (omega arith)
          (read_blocks_lem m (entry m node) node.size buf old (node.blocks - 12) (0 + 12) _ front))

-- A file whose blocks hold its size, both as ints, is copied whole to the buffer, and no byte before
-- the buffer or behind the file's size is changed. From 2 ^ 31 on, the int is negative and counts for
-- 0: such a size copies nothing.
pub readall_lem :
    (m : Image) (block buf : ℕ) (old : ℕ → ℕ)
    → (inode_at m block).type ≡ type_file
    → int_size (inode_at m block).size ≤ int_size (inode_at m block).blocks * 4096
    → Returns (Holds m (as_ints (inode_at m block)) buf old) (readall m block buf old)
unfolding readall
readall_lem m block buf old file enough =
    let a_file : ((inode_at m block).type == type_file) ≡ true = ground arith in
    elim (Bool-cases (leb (int_size (inode_at m block).blocks) 12)) [
      | inl few ↦
          rw (a_file, few)
            (returns (direct-Holds m (as_ints (inode_at m block)) buf old (ground arith) enough))
      | inr many ↦
          rw (a_file, many)
            (returns (indirect-Holds m (as_ints (inode_at m block)) buf old (ground arith) enough))
    ]

-- A directory is refused.
readall-dir :
    (m : Image) (block buf : ℕ) (old : ℕ → ℕ)
    → (inode_at m block).type ≢ type_file
    → readall m block buf old ≡ panic
unfolding readall
readall-dir m block buf old dir =
    let other : ((inode_at m block).type == type_file) ≡ false = ground arith in rw other
