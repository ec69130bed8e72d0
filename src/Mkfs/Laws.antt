-- ===== src/Mkfs/Laws.antt =====
-- mkfs/mksfs.c: the blocks that it hands out, and the inodes that it writes for the kernel.
use jokerix.Base.{
  ℕ, zero, suc, ◌+◌, ◌*◌, ◌^◌, ◌-◌, ◌≤◌, ◌<◌, ◌≡◌, ◌≢◌, ◌⊎◌, inl, inr, refl, ◌∙◌, arith, true,
  false, ltb, ◌==◌, Bool-cases,
}
use jokerix.Base.Run.{panic, Returns, returns, Returns-map, Returns-bind}
use jokerix.Base.Bytes.{
  load_bytes, load_bytes-same, store_words, store_words-apart, store_words-read,
}
use jokerix.Fs.{block_size, load32, inode_at, get_block_addr}
use jokerix.Mkfs.{
  Inode, Builder, block_addr, block_num, free_block_from, get_free_block, store_text, head_word,
  tail_word, copy_inode_to_block,
}

-- The first free block from `i` on, before `i` + `n`.
abbrev pub FirstFree : Builder → ℕ → ℕ → ℕ → Type 0
FirstFree s i n block =
    (i ≤ block)
    × (block < i + n)
    × (s.freemap block ≡ false)
    × ((j : ℕ) → i ≤ j → j < block → s.freemap j ≡ true)

free_block_from_lem :
    (n i : ℕ) (s : Builder) (block : ℕ)
    → i ≤ block
    → block < i + n
    → s.freemap block ≡ false
    → Returns (FirstFree s i n) (free_block_from n i s)
unfolding free_block_from
free_block_from_lem zero i s block low high open_ = absurd (omega arith)
free_block_from_lem (suc n) i s block low high open_ = elim (Bool-cases (s.freemap i)) [
  | inl taken ↦
      let later : i + 1 ≤ block = ground arith in
      rw taken (
        Returns-map (free_block_from_lem n (i + 1) s block later (omega arith) open_)
          λ b (p, q, r, t). (
            omega arith,
            omega arith,
            r,
            λ j from before. elim (Bool-cases (j == i)) [
              | inl at ↦ ground arith
              | inr behind ↦ t j (ground arith) before
            ],
          ))
  | inr here ↦ rw here (returns (omega arith, omega arith, here, λ j p q. absurd (omega arith)))
]

free_block_from-panic :
    (n i : ℕ) (s : Builder)
    → ((j : ℕ) → i ≤ j → j < i + n → s.freemap j ≡ true)
    → free_block_from n i s ≡ panic
unfolding free_block_from
free_block_from-panic zero i s full = refl
free_block_from-panic (suc n) i s full =
    rw (full i (omega arith) (omega arith))
      (free_block_from-panic n (i + 1) s λ j p q. full j (omega arith) (omega arith))

-- getFreeBlock takes the first free block and nothing else, while there is one.
pub get_free_block_takes :
    (s : Builder) (block : ℕ)
    → block < block_num
    → s.freemap block ≡ false
    → Returns
        (λ (b, s').
          FirstFree s 0 block_num b
          × (s'.freemap b ≡ true)
          × ((j : ℕ) → j ≢ b → s'.freemap j ≡ s.freemap j)
          × (s'.freenum ≡ s.freenum - 1)
          × (s'.image ≡ s.image))
        (get_free_block s)
unfolding get_free_block
get_free_block_takes s block low open_ =
    Returns-bind (free_block_from_lem block_num 0 s block (omega arith) (omega arith) open_)
      λ b first. returns (first, ground arith, λ j ne. ground arith, refl, refl)

-- A word that is stored is read by the kernel; 32-bit words.
pub load32-load_bytes : (m : ℕ → ℕ) (a : ℕ) → load32 m a ≡ load_bytes 4 m a
unfolding load32 load_bytes
load32-load_bytes m a =
    let second : a + 1 + 1 ≡ a + 2 = omega arith in
    let third : a + 2 + 1 ≡ a + 3 = omega arith in rw (second, third) (omega arith)

pub store_text-apart :
    (n : ℕ) (text : ℕ → ℕ) (a : ℕ) (image : ℕ → ℕ) (b : ℕ)
    → (b < a) ⊎ (a + n ≤ b)
    → store_text n text a image b ≡ image b
unfolding store_text
store_text-apart zero text a image b out = refl
store_text-apart (suc n) text a image b out =
    let rest = store_text-apart n text a image b (ground arith) in ground arith

store_text-read :
    (n : ℕ) (text : ℕ → ℕ) (a : ℕ) (image : ℕ → ℕ) (i : ℕ)
    → i < n
    → store_text n text a image (a + i) ≡ text i
unfolding store_text
store_text-read zero text a image i lt = absurd (omega arith)
store_text-read (suc n) text a image i lt = elim (Bool-cases (i == n)) [
  | inl last ↦ ground arith
  | inr earlier ↦ let rest = store_text-read n text a image i (ground arith) in ground arith
]

-- Where the words of an inode stand, in the block of the image that it is written to.
module _ (block : ℕ) (node : Inode) (s : Builder) where
  abbrev written : ℕ → ℕ
  unfolding copy_inode_to_block
  written = (copy_inode_to_block block node s).image

  abbrev headed : ℕ → ℕ
  headed = store_words 4 2 (head_word node) (block_addr block) s.image

  abbrev named : ℕ → ℕ
  named = store_text 32 node.filename (block_addr block + 8) headed

  head-read :
      (i at : ℕ)
      → at ≡ block_addr block + i * 4
      → i < 2
      → head_word node i < 2 ^ 32
      → load32 written at ≡ head_word node i
  unfolding copy_inode_to_block
  head-read i at e lt wide = rw e (
      load32-load_bytes written (block_addr block + i * 4)
      ∙ load_bytes-same 4 headed written (block_addr block + i * 4) (λ b p q.
        store_words-apart 4 14 (tail_word node) (block_addr block + 40) named b (inl (omega arith))
        ∙ store_text-apart 32 node.filename (block_addr block + 8) headed b (inl (omega arith)))
      ∙ store_words-read 4 2 (head_word node) (block_addr block) s.image i lt wide)

  tail-read :
      (i at : ℕ)
      → at ≡ block_addr block + 40 + i * 4
      → i < 14
      → tail_word node i < 2 ^ 32
      → load32 written at ≡ tail_word node i
  unfolding copy_inode_to_block
  tail-read i at e lt wide = rw e (
      load32-load_bytes written (block_addr block + 40 + i * 4)
      ∙ store_words-read 4 14 (tail_word node) (block_addr block + 40) named i lt wide)

  name-read : (i : ℕ) → i < 32 → written (block_addr block + 8 + i) ≡ node.filename i
  unfolding copy_inode_to_block
  name-read i lt =
      store_words-apart 4 14 (tail_word node) (block_addr block + 40) named
        (block_addr block + 8 + i) (inl (omega arith))
      ∙ store_text-read 32 node.filename (block_addr block + 8) headed i lt

  written-apart :
      (a : ℕ) → (a < block_addr block) ⊎ (block_addr block + 96 ≤ a) → written a ≡ s.image a
  unfolding copy_inode_to_block
  written-apart a out =
      store_words-apart 4 14 (tail_word node) (block_addr block + 40) named a (ground arith)
      ∙ store_text-apart 32 node.filename (block_addr block + 8) headed a (ground arith)
      ∙ store_words-apart 4 2 (head_word node) (block_addr block) s.image a (ground arith)

  -- The kernel reads the inode that mksfs writes to a block, if its fields fit into 32 bits; no
  -- byte behind the inode, or outside of the block, changes.
  pub copy_inode_to_block-inode_at :
      node.size < 2 ^ 32
      → node.type < 2 ^ 32
      → node.blocks < 2 ^ 32
      → node.indirect < 2 ^ 32
      → ((i : ℕ) → i < 12 → node.direct i < 2 ^ 32)
      → let m = (copy_inode_to_block block node s).image in
        let k = inode_at m block in
        (k.size ≡ node.size)
        × (k.type ≡ node.type)
        × (k.blocks ≡ node.blocks)
        × (k.indirect ≡ node.indirect)
        × ((i : ℕ) → i < 12 → k.direct i ≡ node.direct i)
        × ((i : ℕ) → i < 32 → m (k.filename + i) ≡ node.filename i)
        × ((a : ℕ) → (a < block * block_size) ⊎ (block * block_size + 96 ≤ a) → m a ≡ s.image a)
  unfolding inode_at get_block_addr copy_inode_to_block
  copy_inode_to_block-inode_at size type blocks indirect direct = (
    head-read 0 (block_addr block) (omega arith) (omega arith) size,
    head-read 1 (block_addr block + 4) (omega arith) (omega arith) type,
    tail-read 0 (block_addr block + 40) (omega arith) (omega arith) blocks,
    tail-read 13 (block_addr block + 92) (omega arith) (omega arith) indirect,
    λ i lt.
        let behind : (suc i == 0) ≡ false = ground arith in
        let near : ltb (suc i) 13 ≡ true = ground arith in
        let back : suc i - 1 ≡ i = omega arith in
        let word : tail_word node (suc i) ≡ node.direct i = rw (behind, near, back) in
        rw word at (
          tail-read (suc i) (block_addr block + 44 + 4 * i) (omega arith) (omega arith)
            (rw word (direct i lt))),
    λ i lt. name-read i lt,
    λ a out. written-apart a out,
  )
