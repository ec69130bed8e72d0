-- ===== src/Fs.antt =====
-- kernel/fs.c and kernel/fs.h: the file system image in memory, path lookup and reading a file.
-- An address is an offset from `_fs_img_start`; an `Inode *` is the number of the block that it
-- stands in, for every such pointer of the code is a `getBlockAddr`.
-- The words of an inode become ints where the code keeps them in one.
pub mod Names
pub mod Path
pub mod Read
use jokerix.Base.{
  ℕ, zero, suc, ◌+◌, ◌-◌, ◌*◌, ◌^◌, Bool, true, false, ◌&&◌, ◌||◌, Option, none, some, List, [],
  ◌∷◌, ltb, leb, ◌==◌, if◌then◌else◌, update,
}
use jokerix.Base.Lists.{get_or}
use jokerix.Str.{chars, strcmp}
use jokerix.Base.Run.{Run, ok, panic, out_of_fuel, ◌>>=◌}

abbrev pub block_size : ℕ
block_size = 4096

abbrev pub type_file : ℕ
type_file = 0

abbrev pub type_dir : ℕ
type_dir = 1

-- The bytes of the image.
abbrev pub Image : Type 0
Image = ℕ → ℕ

unfoldable pub get_block_addr : ℕ → ℕ
get_block_addr block_num = block_num * block_size

-- A little-endian uint32.
unfoldable pub load32 : Image → ℕ → ℕ
load32 m a = m a + m (a + 1) * 2 ^ 8 + m (a + 2) * 2 ^ 16 + m (a + 3) * 2 ^ 24

-- The fields of the `Inode` in a block; `filename` is the address of its 32 bytes.
pub record Inode : Type 0 where
  pub size : ℕ
  pub type : ℕ
  pub filename : ℕ
  pub blocks : ℕ
  pub direct : ℕ → ℕ
  pub indirect : ℕ

unfoldable pub inode_at : Image → ℕ → Inode
inode_at m block =
    let a = get_block_addr block in
    record {
      size = load32 m a;
      type = load32 m (a + 4);
      filename = a + 8;
      blocks = load32 m (a + 40);
      direct = λ i. load32 m (a + 44 + 4 * i);
      indirect = load32 m (a + 92);
    }

-- A word as the int that bounds a loop or a copy: a negative one, for which nothing is done, is 0.
abbrev pub int_size : ℕ → ℕ
int_size size = if leb (2 ^ 31) size then 0 else size

-- initFs: the root's inode follows the super block and the free map.
unfoldable pub root_inode : Image → ℕ
root_inode m = load32 m 12 + 1

-- A name may be read on to the end of the image, of 256 blocks.
abbrev pub name_bound : ℕ
name_bound = 0x100000

-- `strcmp(candidate->filename, target)`, with the target in an array of its own.
unfoldable pub name_cmp : Image → ℕ → List ℕ → Run ℕ
name_cmp m candidate target = strcmp name_bound m (inode_at m candidate).filename (chars target) 0

-- The bytes up to a slash or the end, and the rest behind one slash.
unfoldable pub split_name : List ℕ → List ℕ × List ℕ
split_name [] = ([], [])
split_name (c ∷ cs) =
    let (target, rest) = split_name cs in if c == b'/' then ([], cs) else (c ∷ target, rest)

-- Entry `i - 12` of the indirect block.
unfoldable pub indirect_entry : Image → Inode → ℕ → ℕ
indirect_entry m node i = load32 m (get_block_addr node.indirect + 4 * (i - 12))

-- `for(; i < i + n; i ++)` over the entries of a directory: the first whose name is the target.
unfoldable pub scan : ℕ → ℕ → Image → (ℕ → ℕ) → List ℕ → Run (Option ℕ)
scan zero i m block_of target = ok none
scan (suc n) i m block_of target =
    let rest = scan n (i + 1) m block_of target in
    name_cmp m (block_of i) target >>= λ r. if r == 0 then ok (some (block_of i)) else rest

-- The search of lookup through the blocks of a directory.
unfoldable pub find_child : Image → Inode → List ℕ → Run (Option ℕ)
find_child m node target =
    let block_num = int_size node.blocks in
    let others = scan (block_num - 12) 12 m (indirect_entry m node) target in
    if leb block_num 12
    then scan (block_num - 2) 2 m node.direct target
    else (scan 10 2 m node.direct target >>= λ found. elim found [
      | none ↦ others
      | some child ↦ ok (some child)
    ])

-- `strcmp(name, cTarget)` for a literal.
unfoldable pub literal_cmp : List ℕ → List ℕ → Run ℕ
literal_cmp name target = strcmp name_bound (chars name) 0 (chars target) 0

abbrev pub dot : List ℕ
dot = b'.' ∷ []

abbrev pub dot_dot : List ℕ
dot_dot = b'.' ∷ b'.' ∷ []

-- What lookup does with a directory, the first name of the path and `go`, the recursive call at
-- the rest of the path.
unfoldable pub enter : Image → ℕ → List ℕ → (ℕ → Run (Option ℕ)) → Run (Option ℕ)
enter m node target go = do
  here ← literal_cmp dot target
  up ← literal_cmp dot_dot target
  if here == 0 then go node else if up == 0 then go ((inode_at m node).direct 1) else do
    found ← find_child m (inode_at m node) target
    elim found [ none ↦ ok none | some child ↦ go child ]

abbrev pub is_nil : List ℕ → Bool
is_nil [] = true
is_nil (c ∷ cs) = false

-- The root for a null node.
abbrev pub or_root : Image → Option ℕ → ℕ
or_root m none = root_inode m
or_root m (some node) = node

-- A leading slash is skipped, and the search starts at the root.
unfoldable pub strip : Image → Option ℕ → List ℕ → ℕ × List ℕ
strip m node [] = (or_root m node, [])
strip m node (c ∷ cs) = if c == b'/' then (root_inode m, cs) else (or_root m node, c ∷ cs)

-- lookup. The file name is the list of its bytes in front of the zero.
unfoldable pub lookup : ℕ → Image → Option ℕ → List ℕ → Run (Option ℕ)
lookup zero m _ filename = out_of_fuel
lookup (suc fuel) m node filename =
    let (start, path) = strip m node filename in
    let (target, rest) = split_name path in
    let deeper = enter m start target (λ child. lookup fuel m (some child) rest) in
    if is_nil path
    then ok (some start)
    else if (inode_at m start).type == type_dir
    then deeper
    else ok none

-- copyByteToBuf: `length` bytes from `src` of the image to `dst` of the memory `buf`.
unfoldable pub copy_byte_to_buf : ℕ → Image → ℕ → ℕ → (ℕ → ℕ) → ℕ → ℕ
copy_byte_to_buf zero m src dst buf = buf
copy_byte_to_buf (suc length) m src dst buf =
    copy_byte_to_buf length m (src + 1) (dst + 1) (update buf dst (m src))

-- What readall keeps between two blocks: `l`, the pointer `buf`, and the memory that it points to.
pub record Reading : Type 0 where
  pub left : ℕ
  pub at : ℕ
  pub memory : ℕ → ℕ

-- `for(; i < i + n; i ++)` of readall: a block each time, as much of it as is left of the file.
unfoldable pub read_blocks : ℕ → ℕ → Image → (ℕ → ℕ) → Reading → Reading
read_blocks zero i m block_of r = r
read_blocks (suc n) i m block_of r =
    let src = get_block_addr (block_of i) in
    let copy_size = if leb 4096 r.left then 4096 else r.left in
    read_blocks n (i + 1) m block_of (record {
      left = r.left - copy_size;
      at = r.at + copy_size;
      memory = copy_byte_to_buf copy_size m src r.at r.memory;
    })

-- `int l = node->size, b = node->blocks`
abbrev pub as_ints : Inode → Inode
as_ints node = record node { size = int_size node.size; blocks = int_size node.blocks }

-- readall, into the memory at `buf`.
unfoldable pub readall : Image → ℕ → ℕ → (ℕ → ℕ) → Run (ℕ → ℕ)
readall m block buf memory =
    let node = as_ints (inode_at m block) in
    let start : Reading = record { left = node.size; at = buf; memory = memory } in
    let front = read_blocks 12 0 m node.direct start in
    if node.type == type_file
    then ok (
        if leb node.blocks 12
        then (read_blocks node.blocks 0 m node.direct start).memory
        else (read_blocks (node.blocks - 12) 0 m (λ i. indirect_entry m node (i + 12))
            front).memory)
    else panic
