-- ===== src/Mkfs/File.antt =====
-- A file that mkfs/mksfs.c has packed, as kernel/fs.c reads it.
use jokerix.Base.{
  ℕ, ◌+◌, ◌*◌, ◌/◌, ◌%◌, ◌^◌, ◌≤◌, ◌<◌, ◌≡◌, ◌≢◌, refl, sym, ap, ◌∙◌, subst, inl, inr, Bool, true,
  false, List, ◌==◌, Bool-cases, if◌then◌else◌, arith,
}
use jokerix.Base.Run.{Returns, returns, Returns-bind, Returns-map}
use jokerix.Fs.{Image, int_size, block_size, type_file, inode_at, get_block_addr, readall}
use jokerix.Fs.Names.{entry}
use jokerix.Fs.Read.{readall_lem}
use jokerix.Mkfs.{
  Inode, Builder, block_addr, block_num, byte_count, blocks_of, write_file, copy_inode_to_block,
}
use jokerix.Mkfs.Bytes.{byte_at}
use jokerix.Mkfs.Space.{free_count, Took, get_free_block-Took}
use jokerix.Mkfs.Blocks.{spare, IsOpen}
use jokerix.Mkfs.Pack.{Packed, free_before, taken_ne}
use jokerix.Mkfs.Rounds.{write_blocks-Packed}
use jokerix.Mkfs.Name.{IsNamed, set_filename-IsNamed}
use jokerix.Mkfs.Inodes.{Same, IsInode, inode-Same, IsInode-Same, entry-Same, copied-IsInode}

-- The blocks that a file of a size takes for its bytes.
abbrev pub span : ℕ → ℕ
span size = (size + 4095) / 4096

-- A file stands in the image, with its inode in `block` and in blocks of `keep` only.
pub record IsStored (keep : ℕ → Bool) (m : Image) (block : ℕ) (name contents : List ℕ)
    : Type 0 where
  pub inode : IsInode keep m block type_file name (span (byte_count contents))
  pub size : (inode_at m block).size ≡ byte_count contents
  pub enough : byte_count contents ≤ (inode_at m block).blocks * 4096
  pub few : (inode_at m block).blocks < 2 ^ 31
  pub bytes :
      (k : ℕ)
      → k < byte_count contents
      → (keep (entry m (inode_at m block) (k / 4096)) ≡ true)
        × (m (block_addr (entry m (inode_at m block) (k / 4096)) + k % 4096) ≡ byte_at contents k)

pub IsStored-Same :
    (keep keep' : ℕ → Bool) (m m' : Image) (block : ℕ) (name contents : List ℕ)
    → Same keep m m'
    → ((b : ℕ) → keep b ≡ true → keep' b ≡ true)
    → IsStored keep m block name contents
    → IsStored keep' m' block name contents
IsStored-Same keep keep' m m' block name contents same more i =
    let (kind, size, blocks, indirect, direct) = inode-Same keep m m' block same i.inode.own in
    record {
      inode = IsInode-Same keep keep' m m' block type_file name _ same more i.inode;
      size = size ∙ i.size;
      enough = rw blocks i.enough;
      few = rw blocks i.few;
      bytes = λ k lt.
          let at =
            entry-Same keep m m' block type_file name _ same i.inode (k / 4096) (omega arith) in
          let (kept, byte) = i.bytes k lt in
          rw at (more _ kept, same _ (k % 4096) kept (omega arith) ∙ byte);
    }

-- What readall leaves in the memory of its caller: the contents at `buf`, and nothing else.
pub record Reads (contents : List ℕ) (buf : ℕ) (old memory : ℕ → ℕ) : Type 0 where
  pub copied : (k : ℕ) → k < byte_count contents → memory (buf + k) ≡ byte_at contents k
  pub behind : (k : ℕ) → byte_count contents ≤ k → memory (buf + k) ≡ old (buf + k)
  pub before : (j : ℕ) → j < buf → memory j ≡ old j

pub IsStored-readall :
    (keep : ℕ → Bool) (m : Image) (block : ℕ) (name contents : List ℕ) (buf : ℕ) (old : ℕ → ℕ)
    → IsStored keep m block name contents
    → Returns (Reads contents buf old) (readall m block buf old)
unfolding get_block_addr jokerix.Fs.indirect_entry
IsStored-readall keep m block name contents buf old i =
    let size : int_size (inode_at m block).size ≡ byte_count contents =
      ground (arith, i.size, i.inode.high) in
    let blocks : int_size (inode_at m block).blocks ≡ (inode_at m block).blocks =
      ground (arith, i.few) in
    let enough = i.enough in
    Returns-map (readall_lem m block buf old i.inode.kind (omega arith)) λ memory h. record {
      copied = λ k lt. h.copied k (omega arith) ∙ (i.bytes k lt).1;
      behind = λ k le. h.behind k (omega arith);
      before = h.before;
    }

-- The number of blocks in the inode is enough for the size.
blocks_of-enough : (size : ℕ) → size < 2 ^ 32 → size ≤ blocks_of size * 4096
unfolding blocks_of
blocks_of-enough size wide = omega arith

blocks_of-wide : (size : ℕ) → blocks_of size < 2 ^ 31
unfolding blocks_of
blocks_of-wide size = omega arith

-- The blocks that are taken from one state to another.
abbrev pub newly : Builder → Builder → ℕ → Bool
newly s s' b = if s.freemap b then false else s'.freemap b

-- What packing a file does: the blocks that were taken, apart from the first, stay as they are, and
-- the file is stored in blocks that were free.
pub record Wrote (s : Builder) (block : ℕ) (s' : Builder) (name contents : List ℕ) : Type 0 where
  pub low : block < block_num
  pub free : s.freemap block ≡ false
  pub taken : (b : ℕ) → s.freemap b ≡ true → s'.freemap b ≡ true
  pub bytes :
      (b o : ℕ)
      → s.freemap b ≡ true
      → b ≢ 0
      → o < block_size
      → s'.image (block_addr b + o) ≡ s.image (block_addr b + o)
  pub stored : IsStored (newly s s') s'.image block name contents
  pub room : free_count s.freemap ≤ free_count s'.freemap + span (byte_count contents) + 2

-- The inode of a file and its bytes, once they are packed.
Packed-Wrote :
    (s : Builder) (block : ℕ) (s1 : Builder) (name contents : List ℕ) (node : Inode) (s2 : Builder)
    (node' : Inode)
    → Took s block s1
    → s.freemap 0 ≡ true
    → byte_count name < 32
    → span (byte_count contents) ≤ 1036
    → node.type ≡ type_file
    → IsNamed node.filename 0 name
    → node.size ≡ byte_count contents
    → node.blocks ≡ blocks_of (byte_count contents)
    → node.indirect ≡ 0
    → ((i : ℕ) → node.direct i < 2 ^ 32)
    → Packed s1 node 0 contents s2 node'
    → Wrote s block (copy_inode_to_block block node' s2) name contents
unfolding copy_inode_to_block
Packed-Wrote s block s1 name contents node s2 node' t first short high type named size blocks none
      narrow p =
    let size' = p.grown.size ∙ size in
    let blocks' = p.grown.blocks ∙ blocks in
    let type' = p.grown.type ∙ type in
    let keep = newly s s2 in
    let before : (b : ℕ) → s.freemap b ≡ true → s1.freemap b ≡ true =
      λ b h. t.others b (taken_ne s.freemap b block h t.free) ∙ h in
    let now : (b : ℕ) → s1.freemap b ≡ false → s2.freemap b ≡ true → keep b ≡ true =
      λ b f h. let free = free_before s.freemap s1.freemap b before f in rw (free, h) in
    let not_zero : block ≢ 0 = λ e. absurd (cc (first, t.free, e)) in
    let apart : block ≢ node'.indirect = elim p.grown.indirect [
      | inl e ↦ λ e'. not_zero (e' ∙ e ∙ none)
      | inr f ↦ taken_ne s1.freemap block node'.indirect t.taken f
    ] in
    let far : 12 < span (byte_count contents) → node'.indirect ≢ 0 =
      λ lt e. absurd (omega (arith, p.open_.few e)) in
    let numbers : 12 < span (byte_count contents)
        → (keep node'.indirect ≡ true) × (node'.indirect ≢ block) =
      λ lt. elim p.grown.indirect [
        | inl e ↦ absurd (far lt (e ∙ none))
        | inr f ↦ (now node'.indirect f (p.open_.many (far lt)).0, λ e. apart (sym e))
      ] in
    let low : node'.indirect < 2 ^ 32 = elim (Bool-cases (node'.indirect == 0)) [
      | inl z ↦ ground arith
      | inr some ↦ ground (arith, (p.open_.many (ground arith)).1)
    ] in
    let wide = blocks_of-wide (byte_count contents) in
    let own : keep block ≡ true = let h = p.grown.taken block t.taken in rw (t.free, h) in
    let (inode, e_size, e_blocks, numbered, others) =
      copied-IsInode keep block (span (byte_count contents)) name node' s2 own short high
        (subst (λ f. IsNamed f 0 name) (sym p.grown.filename) named) numbers (omega arith)
        (omega (arith, type')) (omega (arith, blocks', wide)) low (p.grown.small narrow) in
    record {
      low = t.low;
      free = t.free;
      taken = λ b h. p.grown.taken b (before b h);
      bytes = λ b o h ne lt.
          let clear : b ≢ node.indirect = λ e. ne (e ∙ none) in
          others b o (taken_ne s.freemap b block h t.free) lt
          ∙ p.grown.bytes b o (before b h) clear lt
          ∙ ap (λ m. m (block_addr b + o)) t.image;
      stored = record {
        inode =
            subst
              (λ k.
                IsInode keep (copy_inode_to_block block node' s2).image block k name
                  (span (byte_count contents)))
              type' inode;
        size = e_size ∙ size';
        enough = rw (e_blocks, blocks') (blocks_of-enough (byte_count contents) (omega arith));
        few = rw (e_blocks, blocks') wide;
        bytes = λ k lt.
            let from : 0 + k / 4096 ≡ k / 4096 = omega arith in
            let (free, held) = rw from at (p.fresh k lt) in
            let byte = rw from at (p.copied k lt) in
            let at = numbered (k / 4096) (omega arith) in
            rw at (
              now _ free held,
              others _ (k % 4096) (λ e. absurd (cc (t.taken, free, e))) (omega arith) ∙ byte,
            );
      };
      room = let one : spare node ≤ 1 = ground arith in omega (arith, p.room, t.left, one);
    }

-- A file is packed while there is room, and may be read.
pub write_file-Wrote :
    (raw : Inode) (name contents : List ℕ) (s : Builder)
    → byte_count name < 32
    → span (byte_count contents) ≤ 1036
    → raw.indirect ≡ 0
    → ((i : ℕ) → raw.direct i < 2 ^ 32)
    → s.freemap 0 ≡ true
    → span (byte_count contents) + 2 ≤ free_count s.freemap
    → Returns (λ (block, s'). Wrote s block s' name contents) (write_file raw name contents s)
unfolding write_file
write_file-Wrote raw name contents s short high none narrow first room =
    Returns-bind (set_filename-IsNamed name 0 raw.filename (omega arith)) λ filename (named, kept).
      let node : Inode = record raw {
        type = type_file;
        filename = filename;
        size = byte_count contents;
        blocks = blocks_of (byte_count contents);
      } in
      Returns-bind (get_free_block-Took s (omega arith)) λ (block, s1) t.
        let o : IsOpen s1 node 0 = record {
          first = t.others 0 (taken_ne s.freemap 0 block first t.free) ∙ first;
          few = λ e. omega arith;
          many = λ ne. absurd (ne none);
        } in
        let one : spare node ≤ 1 = ground arith in
        Returns-bind
          (write_blocks-Packed (byte_count contents) (byte_count contents) contents 0 node s1 refl
            (omega arith) o (omega arith) (omega (arith, t.left, one)))
          λ (node', s2) p. returns (
            Packed-Wrote s block s1 name contents node s2 node' t first short high refl named refl
              refl none narrow p)
