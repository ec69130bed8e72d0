-- ===== src/Mkfs.antt =====
-- mkfs/mksfs.c: the program that packs a directory of the host into an image for the kernel. The
-- host's files are a parameter, the entries in the order in which readdir gives them.
pub mod Laws
pub mod Bytes
pub mod Space
pub mod Blocks
pub mod Pack
pub mod Rounds
pub mod Name
pub mod Inodes
pub mod File
pub mod Tree
pub mod Moved
pub mod Folder
pub mod Fit
pub mod Walk
pub mod Directory
pub mod Whole
pub mod Find
pub mod Lookup
pub mod Paths
use jokerix.Base.{
  ℕ, zero, suc, ◌+◌, ◌-◌, ◌*◌, ◌/◌, ◌%◌, ◌^◌, Bool, true, false, ◌&&◌, List, [], ◌∷◌, ltb, leb,
  ◌==◌, if◌then◌else◌, update,
}
use jokerix.Base.Run.{Run, ok, panic, fault, out_of_fuel, ◌>>=◌}
use jokerix.Base.Bytes.{store_bytes, store_words}
use jokerix.Fs.{block_size, type_file, type_dir}

abbrev pub block_num : ℕ
block_num = 256

abbrev pub freemap_num : ℕ
freemap_num = 1

abbrev pub magic_num : ℕ
magic_num = 0x4d534653

-- What a directory of the host holds; `other` is neither a directory nor a regular file. A file is
-- the list of its bytes.
pub data Entries : Type 0 where
  none_left : Entries
  dir : (name : List ℕ) (children rest : Entries) → Entries
  file : (name contents : List ℕ) (rest : Entries) → Entries
  other : Entries → Entries

-- `Inode` of mkfs/simplefs.h.
pub record Inode : Type 0 where
  pub size : ℕ
  pub type : ℕ
  pub filename : ℕ → ℕ
  pub blocks : ℕ
  pub direct : ℕ → ℕ
  pub indirect : ℕ

-- `Image`, `freemap` and `freenum`.
pub record Builder : Type 0 where
  pub image : ℕ → ℕ
  pub freemap : ℕ → Bool
  pub freenum : ℕ

-- Counted from the start of `Image`.
abbrev pub block_addr : ℕ → ℕ
block_addr block = block * block_size

-- The loop of getFreeBlock, with `n` blocks left to look at. exit(1) ends the program.
unfoldable pub free_block_from : ℕ → ℕ → Builder → Run ℕ
free_block_from zero i s = panic
free_block_from (suc n) i s =
    let rest = free_block_from n (i + 1) s in if s.freemap i then rest else ok i

unfoldable pub get_free_block : Builder → Run (ℕ × Builder)
get_free_block s = do
  i ← free_block_from block_num 0 s
  ok (i, record s { freemap = update s.freemap i true; freenum = s.freenum - 1 })

-- Bytes from an address on.
unfoldable pub write : List ℕ → ℕ → (ℕ → ℕ) → ℕ → ℕ
write [] a image = image
write (c ∷ cs) a image = write cs (a + 1) (update image a c)

unfoldable pub store_text : ℕ → (ℕ → ℕ) → ℕ → (ℕ → ℕ) → ℕ → ℕ
store_text zero text a image = image
store_text (suc n) text a image = update (store_text n text a image) (a + n) (text n)

-- The words of an `Inode`: two in front of the name, and blocks, direct[12] and indirect behind it.
abbrev pub head_word : Inode → ℕ → ℕ
head_word node i = if i == 0 then node.size else node.type

abbrev pub tail_word : Inode → ℕ → ℕ
tail_word node i =
    if i == 0 then node.blocks else if ltb i 13 then node.direct (i - 1) else node.indirect

unfoldable pub copy_inode_to_block : ℕ → Inode → Builder → Builder
copy_inode_to_block block node s =
    let a = block_addr block in
    let head = store_words 4 2 (head_word node) a s.image in
    let named = store_text 32 node.filename (a + 8) head in
    record s { image = store_words 4 14 (tail_word node) (a + 40) named }

-- The number of the next block of an inode: in `direct`, or in the block `indirect`, which is taken
-- where the field is 0. A number that would not lie in `Image` is a fault.
unfoldable pub record_block : ℕ → ℕ → Inode → Builder → Run (Inode × Builder)
record_block index block node s =
    let near = ok (record node { direct = update node.direct index block }, s) in
    let put : Inode → Builder → Run (Inode × Builder) = λ node' s'.
      let a = block_addr node'.indirect + (index - 12) * 4 in
      if ltb (block_num * block_size) (a + 4)
      then fault
      else ok (node', record s' { image = store_bytes 4 s'.image a block }) in
    let far = do (indirect, s') ← get_free_block s; put (record node { indirect = indirect }) s'
    in if ltb index 12 then near else if node.indirect == 0 then far else put node s

unfoldable pub take_bytes : ℕ → List ℕ → List ℕ
take_bytes zero cs = []
take_bytes (suc n) [] = []
take_bytes (suc n) (c ∷ cs) = c ∷ take_bytes n cs

unfoldable pub drop_bytes : ℕ → List ℕ → List ℕ
drop_bytes zero cs = cs
drop_bytes (suc n) [] = []
drop_bytes (suc n) (c ∷ cs) = drop_bytes n cs

-- `while(l)`: a block each time. Each round copies a byte at least.
unfoldable pub write_blocks : ℕ → ℕ → List ℕ → ℕ → Inode → Builder → Run (Inode × Builder)
write_blocks zero l contents index node s = if l == 0 then ok (node, s) else out_of_fuel
write_blocks (suc fuel) l contents index node s =
    let size = if ltb block_size l then block_size else l in
    let more = do
      (ffb, s1) ← get_free_block s
      let copied = record s1 { image = write (take_bytes size contents) (block_addr ffb) s1.image }
      (node', s2) ← record_block index ffb node copied
      write_blocks fuel (l - size) (drop_bytes size contents) (index + 1) node' s2
    in if l == 0 then ok (node, s) else more

-- The name and the zero behind it. A name of 32 bytes or more is written past the field.
unfoldable pub set_filename : List ℕ → ℕ → (ℕ → ℕ) → Run (ℕ → ℕ)
set_filename [] i text = if ltb i 32 then ok (update text i 0) else fault
set_filename (c ∷ name) i text =
    let rest = set_filename name (i + 1) (update text i c) in if ltb i 32 then rest else fault

-- `.` and `..`
abbrev pub is_dots : List ℕ → Bool
is_dots (c ∷ []) = c == b'.'
is_dots (c ∷ d ∷ []) = (c == b'.') && (d == b'.')
is_dots _ = false

abbrev pub byte_count : List ℕ → ℕ
byte_count [] = 0
byte_count (c ∷ cs) = suc (byte_count cs)

-- `(size - 1) / BLOCK_SIZE + 1`, in 32 bits.
unfoldable pub blocks_of : ℕ → ℕ
blocks_of size = (size + 2 ^ 32 - 1) % 2 ^ 32 / block_size + 1

-- A regular file: its inode, written to a block of its own. `raw` is what the variable `finode`
-- holds before.
unfoldable pub write_file : Inode → List ℕ → List ℕ → Builder → Run (ℕ × Builder)
write_file raw name contents s = do
  filename ← set_filename name 0 raw.filename
  let size = byte_count contents
  let node = record raw {
    type = type_file;
    filename = filename;
    size = size;
    blocks = blocks_of size;
  }
  (block, s1) ← get_free_block s
  (node', s2) ← write_blocks size size contents 0 node s1
  ok (block, copy_inode_to_block block node' s2)

-- The loop of walk over the entries of the directory with inode `num`, of which `index` blocks are
-- recorded; then the count of blocks is set. `raw` gives what `dinode` and `finode` hold before, for
-- each entry.
unfoldable pub walk_entries :
    (raw : ℕ → ℕ → Inode) → Entries → ℕ → ℕ → Inode → Builder → Run (Inode × Builder)
walk_entries raw none_left num index node s = ok (record node { blocks = index }, s)
walk_entries raw (other rest) num index node s = walk_entries raw rest num index node s
walk_entries raw (file name contents rest) num index node s =
    let skip = walk_entries raw rest num index node s in
    let pack = do
      (block, s1) ← write_file (raw num index) name contents s
      (node', s2) ← record_block index block node s1
      walk_entries raw rest num (index + 1) node' s2
    in if is_dots name then skip else pack
walk_entries raw (dir name children rest) num index node s =
    let skip = walk_entries raw rest num index node s in
    let pack = do
      filename ← set_filename name 0 (raw num index).filename
      (block, s1) ← get_free_block s
      let own = update (update (raw num index).direct 0 block) 1 num
      let empty = record (raw num index) {
        size = 0;
        type = type_dir;
        filename = filename;
        direct = own;
      }
      (child, s2) ← walk_entries raw children block 2 empty s1
      (node', s3) ← record_block index block node (copy_inode_to_block block child s2)
      walk_entries raw rest num (index + 1) node' s3
    in if is_dots name then skip else pack

-- walk of the root directory, which is its own parent.
unfoldable pub walk_root :
    (raw : ℕ → ℕ → Inode) → Entries → ℕ → Inode → Builder → Run (Inode × Builder)
walk_root raw entries num node s =
    walk_entries raw entries num 2
      (record node { direct = update (update node.direct 0 num) 1 num }) s

-- A byte of the free map: bit `j` for block `i` * 8 + `j`, with `n` bits to go.
unfoldable pub freemap_byte : ℕ → (ℕ → Bool) → ℕ → ℕ
freemap_byte zero freemap i = 0
freemap_byte (suc j) freemap i =
    freemap_byte j freemap i + (if freemap (i * 8 + j) then 2 ^ j else 0)

-- The words of the super block in front of the text; the bytes behind the text are `info`'s.
abbrev pub super_word : ℕ → ℕ → ℕ
super_word freenum i =
    if i == 0
    then magic_num
    else if i == 1
    then block_num
    else if i == 2
    then freenum
    else freemap_num

-- `"SimpleFS By JokerDebug"`
abbrev pub info_text : List ℕ
info_text =
    b'S' ∷ b'i' ∷ b'm' ∷ b'p' ∷ b'l' ∷ b'e' ∷ b'F' ∷ b'S' ∷ b' ' ∷ b'B' ∷ b'y' ∷ b' ' ∷ b'J' ∷ b'o'
    ∷ b'k' ∷ b'e' ∷ b'r' ∷ b'D' ∷ b'e' ∷ b'b' ∷ b'u' ∷ b'g' ∷ []

-- main, up to the write to the disk. `raw_info` is what `spBlock.info` holds before, and `raw_root`
-- what `rootInode` holds.
unfoldable pub make_image :
    (raw : ℕ → ℕ → Inode) (raw_root : Inode) (raw_info : ℕ → ℕ) → Entries → Run (ℕ → ℕ)
make_image raw raw_root raw_info entries = do
  text ← set_filename info_text 0 raw_info
  let start : Builder = record {
    image = λ a. 0;
    freemap = λ i. ltb i (freemap_num + 2);
    freenum = block_num - (freemap_num + 2);
  }
  let empty = record raw_root {
    size = 0;
    type = type_dir;
    filename = update (update raw_root.filename 0 b'/') 1 0;
  }
  (root, s) ← walk_root raw entries (freemap_num + 1) empty start
  let super = store_text 32 text 16 (store_words 4 4 (super_word s.freenum) 0 s.image)
  let mapped = store_text 32 (freemap_byte 8 s.freemap) (block_addr 1) super
  ok ((copy_inode_to_block (freemap_num + 1) root (record s { image = mapped })).image)
