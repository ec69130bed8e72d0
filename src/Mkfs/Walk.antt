-- ===== src/Mkfs/Walk.antt =====
-- The steps of walk of mkfs/mksfs.c, one for each kind of entry.
use jokerix.Base.{ℕ, ◌+◌, ◌^◌, ◌≤◌, ◌<◌, ◌≡◌, refl, sym, ◌∙◌, subst, inl, false, List, arith}
use jokerix.Base.Run.{Run, Returns, Returns-bind, Returns-map, ◌>>=◌}
use jokerix.Fs.{type_dir, inode_at}
use jokerix.Fs.Names.{entry}
use jokerix.Mkfs.{Entries, none_left, dir, file, is_dots, Inode, Builder, block_num, record_block}
use jokerix.Mkfs.Space.{free_count}
use jokerix.Mkfs.Blocks.{number, spare, IsOpen, Recorded, record_block-Recorded}
use jokerix.Mkfs.Inodes.{entry-Same}
use jokerix.Mkfs.File.{newly, IsStored, IsStored-Same, Wrote}
use jokerix.Mkfs.Tree.{
  slots, room_for, IsDirectory, IsDirectory-Same, Listed, listed_none, listed_file, listed_dir,
  Listed-Same,
}
use jokerix.Mkfs.Moved.{IsKept, IsKept-IsOpen, Joined, Moved-Joined, held}
use jokerix.Mkfs.Folder.{Walked, Made}

-- What the inodes of the program's variables hold before they are filled.
pub record IsRaw (raw : ℕ → ℕ → Inode) : Type 0 where
  pub none : (num i : ℕ) → (raw num i).indirect ≡ 0
  pub narrow : (num i k : ℕ) → (raw num i).direct k < 2 ^ 32

-- No entry is left.
pub none_left-Walked :
    (s : Builder) (node : Inode) (index num : ℕ)
    → IsOpen s node index
    → Walked s node index none_left num s (record node { blocks = index })
unfolding slots room_for
none_left-Walked s node index num o =
    let all : index + 0 ≡ index = omega arith in
    record {
      moved = record {
        size = refl;
        type = refl;
        filename = refl;
        small = λ h. h;
        taken = λ b h. h;
        indirect = inl refl;
        bytes = λ b k h z ne lt. refl;
        before = λ j lt. refl;
      };
      blocks = sym all;
      open_ = record { first = o.first; few = λ e. rw all (o.few e); many = o.many };
      listed = listed_none;
      room = omega arith;
    }

-- An entry that is not packed.
pub skipped-Walked :
    (s : Builder) (node : Inode) (index : ℕ) (es rest : Entries) (num : ℕ) (s' : Builder)
    (node' : Inode)
    → slots es ≡ slots rest
    → room_for es ≡ room_for rest
    → (Listed (held s s' node') s'.image (number s'.image node') num rest index
        → Listed (held s s' node') s'.image (number s'.image node') num es index)
    → Walked s node index rest num s' node'
    → Walked s node index es num s' node'
skipped-Walked s node index es rest num s' node' count room skip w = record {
  moved = w.moved;
  blocks = rw count w.blocks;
  open_ = rw count w.open_;
  listed = skip w.listed;
  room = rw room w.room;
}

-- An entry that is packed and recorded, and the rest behind it.
Joined-Walked :
    (s : Builder) (node : Inode) (index : ℕ) (es rest : Entries) (num : ℕ) (s1 : Builder)
    (block : ℕ) (s2 : Builder) (node1 : Inode) (s' : Builder) (node' : Inode)
    → IsOpen s node index
    → index ≤ 1036
    → IsKept s s1
    → Recorded s1 node index block s2 node1
    → slots es ≡ 1 + slots rest
    → free_count s.freemap + room_for rest ≤ free_count s1.freemap + room_for es
    → (Joined s node index s1 block s2 s' node'
        → Listed (held s s' node') s'.image (number s'.image node') num rest (index + 1)
        → Listed (held s s' node') s'.image (number s'.image node') num es index)
    → Walked s2 node1 (index + 1) rest num s' node'
    → Walked s node index es num s' node'
Joined-Walked s node index es rest num s1 block s2 node1 s' node' o high kept r count room list w =
    let j = Moved-Joined s node index s1 block s2 node1 s' node' o high kept r w.moved in
    let all : index + 1 + slots rest ≡ index + slots es = omega (arith, count) in
    record {
      moved = j.moved;
      blocks = w.blocks ∙ all;
      open_ = subst (IsOpen s' node') all w.open_;
      listed = list j (
          Listed-Same (held s2 s' node') (held s s' node') s'.image s'.image (λ b k h lt. refl)
            j.rest (number s'.image node') (λ i p q. refl) w.listed);
      room = omega (arith, w.room, r.room, room);
    }

-- A file in its place.
pub file-Listed :
    (s : Builder) (node : Inode) (index : ℕ) (name contents : List ℕ) (rest : Entries) (num : ℕ)
    (s1 : Builder) (block : ℕ) (s2 s' : Builder) (node' : Inode)
    → is_dots name ≡ false
    → Wrote s block s1 name contents
    → Joined s node index s1 block s2 s' node'
    → Listed (held s s' node') s'.image (number s'.image node') num rest (index + 1)
    → Listed (held s s' node') s'.image (number s'.image node') num (file name contents rest) index
file-Listed s node index name contents rest num s1 block s2 s' node' dots w j l =
    let stored =
      IsStored-Same (newly s s1) (held s s' node') s1.image s'.image block name contents j.same
        j.more w.stored in
    listed_file dots
      (subst (λ b. IsStored (held s s' node') s'.image b name contents) (sym j.here) stored) l

-- A directory in its place.
pub dir-Listed :
    (s : Builder) (node : Inode) (index : ℕ) (name : List ℕ) (children rest : Entries) (num : ℕ)
    (s1 : Builder) (block : ℕ) (s2 s' : Builder) (node' : Inode)
    → is_dots name ≡ false
    → Made s block s1 name children num
    → Joined s node index s1 block s2 s' node'
    → Listed (held s s' node') s'.image (number s'.image node') num rest (index + 1)
    → Listed (held s s' node') s'.image (number s'.image node') num (dir name children rest) index
dir-Listed s node index name children rest num s1 block s2 s' node' dots w j l =
    let keep = held s s' node' in
    let d =
      IsDirectory-Same (newly s s1) keep s1.image s'.image j.same j.more block num name
        (slots children) w.directory in
    let c =
      Listed-Same (newly s s1) keep s1.image s'.image j.same j.more
        (entry s'.image (inode_at s'.image block))
        (λ i p q.
          entry-Same (newly s s1) s1.image s'.image block type_dir name (2 + slots children) j.same
            w.directory.inode i q)
        w.listed in
    listed_dir dots
      (subst (λ b. IsDirectory keep s'.image b num name (slots children)) (sym j.here) d)
      (subst (λ b. Listed keep s'.image (entry s'.image (inode_at s'.image b)) b children 2)
        (sym j.here) c)
      l

-- An entry in blocks of its own, which is recorded, and then the rest of the entries.
pub recorded-Walked :
    (s : Builder) (node : Inode) (index : ℕ) (es rest : Entries) (num : ℕ) (s1 : Builder)
    (block : ℕ) (go : Inode → Builder → Run (Inode × Builder))
    → IsOpen s node index
    → index + slots es ≤ 1036
    → IsKept s s1
    → block < block_num
    → slots es ≡ 1 + slots rest
    → free_count s.freemap + room_for rest ≤ free_count s1.freemap + room_for es
    → room_for es + spare node ≤ free_count s.freemap
    → ((s2 s' : Builder) (node' : Inode)
        → Joined s node index s1 block s2 s' node'
        → Listed (held s s' node') s'.image (number s'.image node') num rest (index + 1)
        → Listed (held s s' node') s'.image (number s'.image node') num es index)
    → ((node1 : Inode) (s2 : Builder)
        → IsOpen s2 node1 (index + 1)
        → room_for rest + spare node1 ≤ free_count s2.freemap
        → Returns (λ (node', s'). Walked s2 node1 (index + 1) rest num s' node') (go node1 s2))
    → Returns
        (λ (node', s'). Walked s node index es num s' node')
        (record_block index block node s1 >>= λ (node1, s2). go node1 s2)
recorded-Walked s node index es rest num s1 block go o high kept low count taken room list next =
    Returns-bind
      (record_block-Recorded index block node s1 (IsKept-IsOpen s node index s1 o kept) low
        (omega arith) (omega arith))
      λ (node1, s2) r. Returns-map (next node1 s2 r.open_ (omega (arith, r.room))) λ (node', s') w.
        Joined-Walked s node index es rest num s1 block s2 node1 s' node' o (omega arith) kept r
          count taken (list s2 s' node') w
