-- ===== src/Mkfs/Whole.antt =====
-- main of mkfs/mksfs.c: the image that it makes of a directory, as kernel/fs.c reads it.
use jokerix.Base.{
  ℕ, ◌+◌, ◌-◌, ◌*◌, ◌^◌, ◌≤◌, ◌<◌, ◌≡◌, ◌≢◌, refl, sym, ap, ◌∙◌, subst, inl, inr, Bool, true, false,
  List, [], ◌∷◌, ltb, ◌==◌, Bool-cases, if◌then◌else◌, update, arith,
}
use jokerix.Base.Run.{Returns, returns, Returns-bind}
use jokerix.Base.Bytes.{load_bytes-same, store_words, store_words-apart, store_words-read}
use jokerix.Fs.{Image, root_inode, load32, inode_at}
use jokerix.Fs.Names.{entry}
use jokerix.Mkfs.{
  Entries, Inode, Builder, block_addr, block_num, magic_num, freemap_num, make_image, walk_root,
  copy_inode_to_block, store_text, super_word, info_text, freemap_byte,
}
use jokerix.Mkfs.Laws.{store_text-apart, load32-load_bytes}
use jokerix.Mkfs.Space.{free_count}
use jokerix.Mkfs.Blocks.{number, spare, IsOpen}
use jokerix.Mkfs.Name.{IsNamed, set_filename-IsNamed}
use jokerix.Mkfs.Inodes.{IsInode, copied-IsInode}
use jokerix.Mkfs.File.{newly}
use jokerix.Mkfs.Tree.{slots, room_for, is_fit, IsDirectory, Listed, Listed-Same}
use jokerix.Mkfs.Moved.{held}
use jokerix.Mkfs.Folder.{Walked, empty_dir}
use jokerix.Mkfs.Walk.{IsRaw}
use jokerix.Mkfs.Directory.{walk_entries-Walked}

abbrev root_name : List ℕ
root_name = b'/' ∷ []

-- The tree is in the image, under the root that the kernel finds.
pub record IsImage (m : Image) (entries : Entries) : Type 0 where
  pub keep : ℕ → Bool
  pub magic : load32 m 0 ≡ magic_num
  pub root : root_inode m ≡ 2
  pub directory : IsDirectory keep m 2 2 root_name (slots entries)
  pub listed : Listed keep m (entry m (inode_at m 2)) 2 entries 2

abbrev start : Builder
start = record {
  image = λ a. 0;
  freemap = λ i. ltb i (freemap_num + 2);
  freenum = block_num - (freemap_num + 2);
}

start-free : free_count start.freemap ≡ 253
unfolding free_count
start-free = refl

-- The root's inode before the walk.
abbrev root_dir : Inode → Inode
root_dir raw = empty_dir raw (update (update raw.filename 0 b'/') 1 0) 2 2

root_dir-named : (raw : Inode) → IsNamed (root_dir raw).filename 0 root_name
root_dir-named raw = record {
  letter = λ k lt. let only : k ≡ 0 = omega arith in rw only refl;
  end = refl;
}

-- The super block and the free map.
abbrev mapped : (ℕ → ℕ) → Builder → Builder
mapped text s = record s {
  image =
      store_text 32 (freemap_byte 8 s.freemap) (block_addr 1)
        (store_text 32 text 16 (store_words 4 4 (super_word s.freenum) 0 s.image));
}

mapped-apart :
    (text : ℕ → ℕ) (s : Builder) (a : ℕ) → 2 * 4096 ≤ a → (mapped text s).image a ≡ s.image a
mapped-apart text s a le =
    store_text-apart 32 (freemap_byte 8 s.freemap) (block_addr 1) _ a (inr (omega arith))
    ∙ store_text-apart 32 text 16 _ a (inr (omega arith))
    ∙ store_words-apart 4 4 (super_word s.freenum) 0 s.image a (inr (omega arith))

-- The words of the super block.
super-read :
    (text : ℕ → ℕ) (s : Builder) (m : Image) (i at : ℕ)
    → ((b : ℕ) → b < 4096 → m b ≡ (mapped text s).image b)
    → i < 4
    → at ≡ 0 + i * 4
    → super_word s.freenum i < 2 ^ 32
    → load32 m at ≡ super_word s.freenum i
super-read text s m i at same lt e wide = rw e (
    load32-load_bytes m (0 + i * 4)
    ∙ load_bytes-same 4 (store_words 4 4 (super_word s.freenum) 0 s.image) m (0 + i * 4) (λ b p q.
      same b (omega arith)
      ∙ store_text-apart 32 (freemap_byte 8 s.freemap) (block_addr 1) _ b (inl (omega arith))
      ∙ store_text-apart 32 text 16 _ b (inl (omega arith)))
    ∙ store_words-read 4 4 (super_word s.freenum) 0 s.image i lt wide)

-- The walk of the root.
module _ (raw : Inode) (entries : Entries) (text : ℕ → ℕ) (s : Builder) (node : Inode)
    (none : raw.indirect ≡ 0) (narrow : (i : ℕ) → raw.direct i < 2 ^ 32)
    (few : slots entries ≤ 1034) (w : Walked start (root_dir raw) 2 entries 2 s node) where
  abbrev image : Image
  image = (copy_inode_to_block 2 node (mapped text s)).image

  -- What was free at the start, and the root's inode.
  abbrev kept : ℕ → Bool
  kept b = if b == 2 then true else newly start s b

  numbers : 12 < 2 + slots entries → (kept node.indirect ≡ true) × (node.indirect ≢ 2)
  numbers lt =
      let some : node.indirect ≢ 0 = λ e. absurd (omega (arith, w.open_.few e)) in
      elim w.moved.indirect [
        | inl e ↦ absurd (some (e ∙ none))
        | inr f ↦
            let taken = (w.open_.many some).0 in
            let behind : 3 ≤ node.indirect = ground (arith, f) in
            let other : (node.indirect == 2) ≡ false = ground arith in
            (rw (other, f) taken, ground (arith, behind))
      ]

  low : node.indirect < 2 ^ 32
  low = elim (Bool-cases (node.indirect == 0)) [
    | inl z ↦ ground arith
    | inr some ↦ ground (arith, (w.open_.many (ground arith)).1)
  ]

  -- The numbers of the blocks of the root stand behind the free map.
  number-mapped :
      (j : ℕ) → j < 2 + slots entries → number (mapped text s).image node j ≡ number s.image node j
  number-mapped j lt = elim (Bool-cases (ltb j 12)) [
    | inl near ↦ rw near
    | inr far ↦
        let some : node.indirect ≢ 0 = λ e. absurd (ground (arith, w.open_.few e)) in
        let behind : 3 ≤ node.indirect = elim w.moved.indirect [
          | inl e ↦ absurd (some (e ∙ none))
          | inr f ↦ ground (arith, f)
        ] in
        rw far (
          load_bytes-same 4 s.image (mapped text s).image (block_addr node.indirect + (j - 12) * 4)
            λ a p q. mapped-apart text s a (omega arith))
  ]

  root-IsImage : IsImage image entries
  unfolding root_inode
  root-IsImage =
      let small : (i : ℕ) → (root_dir raw).direct i < 2 ^ 32 = λ i. ground (arith, narrow i) in
      let size = w.moved.size in
      let type = w.moved.type in
      let blocks = w.blocks in
      let (inode, e_size, e_blocks, numbered, others) =
        copied-IsInode kept 2 (2 + slots entries) root_name node (mapped text s) refl (omega arith)
          (omega arith)
          (subst (λ f. IsNamed f 0 root_name) (sym w.moved.filename) (root_dir-named raw)) numbers
          (omega arith) (omega arith) (omega arith) low (w.moved.small small) in
      let first : (b : ℕ) → b < 4096 → image b ≡ (mapped text s).image b =
        λ b lt. let from : 0 + b ≡ b = omega arith in rw from at (others 0 b (omega arith) lt) in
      let at : (j : ℕ)
          → j < 2 + slots entries
          → entry image (inode_at image 2) j ≡ number s.image node j =
        λ j lt. numbered j lt ∙ number-mapped j lt in
      record {
        keep = kept;
        magic = super-read text s image 0 0 first (omega arith) refl (omega arith);
        root =
            ap (λ x. x + 1) (super-read text s image 3 12 first (omega arith) refl (omega arith));
        directory = record {
          inode = subst (λ k. IsInode kept image 2 k root_name (2 + slots entries)) type inode;
          blocks = e_blocks ∙ blocks;
          self = at 0 (omega arith) ∙ w.moved.before 0 (omega arith);
          up = at 1 (omega arith) ∙ w.moved.before 1 (omega arith);
        };
        listed =
            Listed-Same (held start s node) kept s.image image
              (λ b o h lt.
                let behind : 3 ≤ b = ground (arith, h) in
                others b o (omega arith) lt ∙ mapped-apart text s (block_addr b + o) (omega arith))
              (λ b h. ground (arith, h)) (entry image (inode_at image 2)) (λ j p q. at j q)
              w.listed;
      }

-- mksfs makes an image in which the kernel finds the root, and under it each file and directory of
-- the host in its place: while names have less than 32 bytes, files have at most 1036 blocks and
-- directories 1034 entries, the inodes of the program's variables start with 0 for `indirect` and
-- words of 32 bits for `direct`, and the blocks for all of it and one more are at most 253.
pub make_image-IsImage :
    (raw : ℕ → ℕ → Inode) (raw_root : Inode) (raw_info : ℕ → ℕ) (entries : Entries)
    → IsRaw raw
    → raw_root.indirect ≡ 0
    → ((i : ℕ) → raw_root.direct i < 2 ^ 32)
    → is_fit entries ≡ true
    → slots entries ≤ 1034
    → room_for entries + 1 ≤ 253
    → Returns (λ m. IsImage m entries) (make_image raw raw_root raw_info entries)
unfolding make_image walk_root
make_image-IsImage raw raw_root raw_info entries clean none narrow fit few room =
    Returns-bind (set_filename-IsNamed info_text 0 raw_info (omega arith)) λ text named.
      let o : IsOpen start (root_dir raw_root) 2 = record {
        first = refl;
        few = λ e. omega arith;
        many = λ ne. absurd (ne none);
      } in
      let one : spare (root_dir raw_root) ≤ 1 = ground arith in
      Returns-bind
        (walk_entries-Walked raw entries 2 2 (root_dir raw_root) start clean (omega arith) fit
          (omega arith) o (omega (arith, start-free, one)))
        λ (node, s) w. returns (root-IsImage raw_root entries text s node none narrow few w)
