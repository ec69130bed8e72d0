-- ===== src/Mkfs/Tree.antt =====
-- The tree that mkfs/mksfs.c packs, and the same tree in an image, as kernel/fs.c reads it.
use jokerix.Base.{
  ℕ, ◌+◌, ◌≤◌, ◌<◌, ◌≡◌, refl, sym, ◌∙◌, subst, Bool, true, false, ◌&&◌, ◌||◌, List, ltb, leb,
  if◌then◌else◌, arith,
}
use jokerix.Fs.{Image, type_dir, inode_at}
use jokerix.Fs.Names.{entry}
use jokerix.Mkfs.{Entries, none_left, dir, file, other, is_dots, byte_count}
use jokerix.Mkfs.Inodes.{Same, IsInode, inode-Same, IsInode-Same, entry-Same}
use jokerix.Mkfs.File.{span, IsStored, IsStored-Same}

-- The entries that walk records.
unfoldable pub slots : Entries → ℕ
slots none_left = 0
slots (other rest) = slots rest
slots (file name contents rest) = (if is_dots name then 0 else 1) + slots rest
slots (dir name children rest) = (if is_dots name then 0 else 1) + slots rest

pub slots-other : (rest : Entries) → slots (other rest) ≡ slots rest
unfolding slots
slots-other rest = refl

pub slots-file :
    (name contents : List ℕ) (rest : Entries)
    → slots (file name contents rest) ≡ (if is_dots name then 0 else 1) + slots rest
unfolding slots
slots-file name contents rest = refl

pub slots-dir :
    (name : List ℕ) (children rest : Entries)
    → slots (dir name children rest) ≡ (if is_dots name then 0 else 1) + slots rest
unfolding slots
slots-dir name children rest = refl

-- The blocks that are enough for them: for a file its inode, its bytes and their numbers, for a
-- directory its inode, its numbers and its children.
unfoldable pub room_for : Entries → ℕ
room_for none_left = 0
room_for (other rest) = room_for rest
room_for (file name contents rest) =
    (if is_dots name then 0 else span (byte_count contents) + 2) + room_for rest
room_for (dir name children rest) =
    (if is_dots name then 0 else room_for children + 2) + room_for rest

-- The names are shorter than the field of the inode, and the numbers of the blocks of a file or
-- directory fit into the inode and one block.
unfoldable pub is_fit : Entries → Bool
is_fit none_left = true
is_fit (other rest) = is_fit rest
is_fit (file name contents rest) =
    (is_dots name || (ltb (byte_count name) 32 && leb (span (byte_count contents)) 1036))
    && is_fit rest
is_fit (dir name children rest) =
    (is_dots name || (ltb (byte_count name) 32 && leb (slots children) 1034 && is_fit children))
    && is_fit rest

-- A directory with `.` and `..` in front.
pub record IsDirectory (keep : ℕ → Bool) (m : Image) (block parent : ℕ) (name : List ℕ) (count : ℕ)
    : Type 0 where
  pub inode : IsInode keep m block type_dir name (2 + count)
  pub blocks : (inode_at m block).blocks ≡ 2 + count
  pub self : entry m (inode_at m block) 0 ≡ block
  pub up : entry m (inode_at m block) 1 ≡ parent

-- The entries of the directory in block `num` are in the image, with their numbers at `at` from `i`
-- on, each in blocks of `keep`.
pub data Listed (keep : ℕ → Bool) (m : Image) : (ℕ → ℕ) → ℕ → Entries → ℕ → Type 0 where
  listed_none : {at : ℕ → ℕ} {num i : ℕ} → Listed keep m at num none_left i
  listed_other :
      {at : ℕ → ℕ} {num i : ℕ} {rest : Entries}
      → Listed keep m at num rest i
      → Listed keep m at num (other rest) i
  skipped_file :
      {at : ℕ → ℕ} {num i : ℕ} {name contents : List ℕ} {rest : Entries}
      → is_dots name ≡ true
      → Listed keep m at num rest i
      → Listed keep m at num (file name contents rest) i
  listed_file :
      {at : ℕ → ℕ} {num i : ℕ} {name contents : List ℕ} {rest : Entries}
      → is_dots name ≡ false
      → IsStored keep m (at i) name contents
      → Listed keep m at num rest (i + 1)
      → Listed keep m at num (file name contents rest) i
  skipped_dir :
      {at : ℕ → ℕ} {num i : ℕ} {name : List ℕ} {children rest : Entries}
      → is_dots name ≡ true
      → Listed keep m at num rest i
      → Listed keep m at num (dir name children rest) i
  listed_dir :
      {at : ℕ → ℕ} {num i : ℕ} {name : List ℕ} {children rest : Entries}
      → is_dots name ≡ false
      → IsDirectory keep m (at i) num name (slots children)
      → Listed keep m (entry m (inode_at m (at i))) (at i) children 2
      → Listed keep m at num rest (i + 1)
      → Listed keep m at num (dir name children rest) i

-- What depends on blocks of `keep` stays while they do.
module _ (keep keep' : ℕ → Bool) (m m' : Image) (same : Same keep m m')
    (more : (b : ℕ) → keep b ≡ true → keep' b ≡ true) where
  pub IsDirectory-Same :
      (block parent : ℕ) (name : List ℕ) (count : ℕ)
      → IsDirectory keep m block parent name count
      → IsDirectory keep' m' block parent name count
  IsDirectory-Same block parent name count d =
      let (kind, size, blocks, indirect, direct) = inode-Same keep m m' block same d.inode.own in
      let at = entry-Same keep m m' block type_dir name (2 + count) same d.inode in
      record {
        inode = IsInode-Same keep keep' m m' block type_dir name (2 + count) same more d.inode;
        blocks = blocks ∙ d.blocks;
        self = at 0 (omega arith) ∙ d.self;
        up = at 1 (omega arith) ∙ d.up;
      }

  pub Listed-Same :
      {at : ℕ → ℕ} {num i : ℕ} {es : Entries} (at' : ℕ → ℕ)
      → ((j : ℕ) → i ≤ j → j < i + slots es → at' j ≡ at j)
      → Listed keep m at num es i
      → Listed keep' m' at' num es i
  Listed-Same at' e listed_none = listed_none
  Listed-Same at' e (listed_other {rest} l) =
      listed_other (Listed-Same at' (λ j p q. e j p (omega (arith, slots-other rest))) l)
  Listed-Same at' e (skipped_file {name} {contents} {rest} dots l) =
      let count = slots-file name contents rest in
      let count' = rw dots at count in
      skipped_file dots (Listed-Same at' (λ j p q. e j p (omega (arith, count'))) l)
  Listed-Same {i} at' e (listed_file {name} {contents} {rest} dots f l) =
      let count = slots-file name contents rest in
      let count' = rw dots at count in
      let here = e i (omega arith) (omega (arith, count')) in
      let f' = IsStored-Same keep keep' m m' _ name contents same more f in
      listed_file dots (subst (λ b. IsStored keep' m' b name contents) (sym here) f')
        (Listed-Same at' (λ j p q. e j (omega arith) (omega (arith, count'))) l)
  Listed-Same at' e (skipped_dir {name} {children} {rest} dots l) =
      let count = slots-dir name children rest in
      let count' = rw dots at count in
      skipped_dir dots (Listed-Same at' (λ j p q. e j p (omega (arith, count'))) l)
  Listed-Same {at} {num} {i} at' e (listed_dir {name} {children} {rest} dots d c l) =
      let count = slots-dir name children rest in
      let count' = rw dots at count in
      let here = e i (omega arith) (omega (arith, count')) in
      let d' = IsDirectory-Same (at i) num name (slots children) d in
      let numbers = entry-Same keep m m' (at i) type_dir name (2 + slots children) same d.inode in
      let c' = Listed-Same (entry m' (inode_at m' (at i))) (λ j p q. numbers j q) c in
      listed_dir dots (subst (λ b. IsDirectory keep' m' b num name (slots children)) (sym here) d')
        (subst (λ b. Listed keep' m' (entry m' (inode_at m' b)) b children 2) (sym here) c')
        (Listed-Same at' (λ j p q. e j (omega arith) (omega (arith, count'))) l)
