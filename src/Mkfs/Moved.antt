-- ===== src/Mkfs/Moved.antt =====
-- What the walk of mkfs/mksfs.c changes from one entry of a directory to the next.
use jokerix.Base.{
  ℕ, ◌+◌, ◌-◌, ◌*◌, ◌^◌, ◌≤◌, ◌<◌, ◌≡◌, ◌≢◌, refl, sym, ap, ◌∙◌, subst, ◌⊎◌, inl, inr, Bool, true,
  false, ltb, ◌==◌, Bool-cases, if◌then◌else◌, arith,
}
use jokerix.Base.Bytes.{load_bytes-same}
use jokerix.Fs.{block_size}
use jokerix.Mkfs.{Inode, Builder, block_addr}
use jokerix.Mkfs.Blocks.{number, IsOpen, Grown, Recorded}
use jokerix.Mkfs.Pack.{free_before, taken_ne, IsOpen-apart}
use jokerix.Mkfs.Inodes.{Same}
use jokerix.Mkfs.File.{newly}

-- The blocks that were taken, apart from the first, stay as they are.
pub record IsKept (s s' : Builder) : Type 0 where
  pub taken : (b : ℕ) → s.freemap b ≡ true → s'.freemap b ≡ true
  pub bytes :
      (b o : ℕ)
      → s.freemap b ≡ true
      → b ≢ 0
      → o < block_size
      → s'.image (block_addr b + o) ≡ s.image (block_addr b + o)

-- So do they apart from the numbers of a directory, of which `index` stay, and its inode is filled.
pub record Moved (s : Builder) (node : Inode) (index : ℕ) (s' : Builder) (node' : Inode)
    : Type 0 where
  pub size : node'.size ≡ node.size
  pub type : node'.type ≡ node.type
  pub filename : node'.filename ≡ node.filename
  pub small : ((i : ℕ) → node.direct i < 2 ^ 32) → (i : ℕ) → node'.direct i < 2 ^ 32
  pub taken : (b : ℕ) → s.freemap b ≡ true → s'.freemap b ≡ true
  pub indirect : (node'.indirect ≡ node.indirect) ⊎ (s.freemap node'.indirect ≡ false)
  pub bytes :
      (b o : ℕ)
      → s.freemap b ≡ true
      → b ≢ 0
      → b ≢ node.indirect
      → o < block_size
      → s'.image (block_addr b + o) ≡ s.image (block_addr b + o)
  pub before : (j : ℕ) → j < index → number s'.image node' j ≡ number s.image node j

Grown-Moved :
    (s : Builder) (node : Inode) (index : ℕ) (s' : Builder) (node' : Inode)
    → Grown s node index s' node'
    → Moved s node index s' node'
Grown-Moved s node index s' node' g = record {
  size = g.size;
  type = g.type;
  filename = g.filename;
  small = g.small;
  taken = g.taken;
  indirect = g.indirect;
  bytes = λ b o h z ne lt. g.bytes b o h ne lt;
  before = g.before;
}

-- A block that is taken is none of the numbers' that the directory takes later.
taken_apart :
    (s : Builder) (node : Inode) (s' : Builder) (node' : Inode) (b : ℕ)
    → ((node'.indirect ≡ node.indirect) ⊎ (s.freemap node'.indirect ≡ false))
    → s.freemap b ≡ true
    → b ≢ node.indirect
    → b ≢ node'.indirect
taken_apart s node s' node' b (inl e) h ne = subst (λ x. b ≢ x) (sym e) ne
taken_apart s node s' node' b (inr f) h ne = taken_ne s.freemap b node'.indirect h f

Moved-trans :
    (s : Builder) (node : Inode) (i : ℕ) (s1 : Builder) (node1 : Inode) (k : ℕ) (s2 : Builder)
    (node2 : Inode)
    → i ≤ k
    → Moved s node i s1 node1
    → Moved s1 node1 k s2 node2
    → Moved s node i s2 node2
Moved-trans s node i s1 node1 k s2 node2 le a b = record {
  size = b.size ∙ a.size;
  type = b.type ∙ a.type;
  filename = b.filename ∙ a.filename;
  small = λ h. b.small (a.small h);
  taken = λ q h. b.taken q (a.taken q h);
  indirect = elim b.indirect [
    | inl e ↦ elim a.indirect [ inl e' ↦ inl (e ∙ e') | inr f ↦ inr (ap s.freemap e ∙ f) ]
    | inr f ↦ inr (free_before s.freemap s1.freemap node2.indirect a.taken f)
  ];
  bytes = λ q o h z ne lt.
      b.bytes q o (a.taken q h) z (taken_apart s node s1 node1 q a.indirect h ne) lt
      ∙ a.bytes q o h z ne lt;
  before = λ j lt. b.before j (omega arith) ∙ a.before j lt;
}

-- What stays, the numbers included, while an entry is packed.
IsKept-Moved :
    (s : Builder) (node : Inode) (index : ℕ) (s1 : Builder)
    → IsOpen s node index
    → index ≤ 1036
    → IsKept s s1
    → Moved s node index s1 node
IsKept-Moved s node index s1 o high kept = record {
  size = refl;
  type = refl;
  filename = refl;
  small = λ h. h;
  taken = kept.taken;
  indirect = inl refl;
  bytes = λ b k h z ne lt. kept.bytes b k h z lt;
  before = λ j lt. elim (Bool-cases (ltb j 12)) [
    | inl near ↦ rw near
    | inr far ↦
        let some : node.indirect ≢ 0 = λ e. absurd (ground (arith, o.few e)) in
        let there = (o.many some).0 in
        rw far (
          load_bytes-same 4 s.image s1.image (block_addr node.indirect + (j - 12) * 4) λ a p q.
            let at : block_addr node.indirect + (a - block_addr node.indirect) ≡ a = omega arith in
            subst (λ x. s1.image x ≡ s.image x) at
              (kept.bytes node.indirect (a - block_addr node.indirect) there some (ground arith)))
  ];
}

pub IsKept-IsOpen :
    (s : Builder) (node : Inode) (index : ℕ) (s1 : Builder)
    → IsOpen s node index
    → IsKept s s1
    → IsOpen s1 node index
IsKept-IsOpen s node index s1 o kept = record {
  first = kept.taken 0 o.first;
  few = o.few;
  many = λ ne. (kept.taken node.indirect (o.many ne).0, (o.many ne).1);
}

-- The blocks taken for the entries, apart from the one of the directory's own numbers.
abbrev pub held : Builder → Builder → Inode → ℕ → Bool
held s s' node' b = if b == node'.indirect then false else newly s s' b

-- An entry, in blocks taken for it, is recorded, and more entries behind it.
pub record Joined (s : Builder) (node : Inode) (index : ℕ) (s1 : Builder) (block : ℕ)
    (s2 s' : Builder) (node' : Inode) : Type 0 where
  pub moved : Moved s node index s' node'
  pub here : number s'.image node' index ≡ block
  pub same : Same (newly s s1) s1.image s'.image
  pub more : (b : ℕ) → newly s s1 b ≡ true → held s s' node' b ≡ true
  pub rest : (b : ℕ) → held s2 s' node' b ≡ true → held s s' node' b ≡ true

pub Moved-Joined :
    (s : Builder) (node : Inode) (index : ℕ) (s1 : Builder) (block : ℕ) (s2 : Builder)
    (node1 : Inode) (s' : Builder) (node' : Inode)
    → IsOpen s node index
    → index ≤ 1036
    → IsKept s s1
    → Recorded s1 node index block s2 node1
    → Moved s2 node1 (index + 1) s' node'
    → Joined s node index s1 block s2 s' node'
Moved-Joined s node index s1 block s2 node1 s' node' o high kept r m =
    let first = IsKept-Moved s node index s1 o high kept in
    let put = Grown-Moved s1 node index s2 node1 r.grown in
    let twice = Moved-trans s1 node index s2 node1 (index + 1) s' node' (omega arith) put m in
    let fresh : (b : ℕ) → newly s s1 b ≡ true → (s.freemap b ≡ false) × (s1.freemap b ≡ true) =
      λ b h. elim (Bool-cases (s.freemap b)) [
        | inl t ↦ absurd (ground (arith, t, h))
        | inr f ↦ (f, ground (arith, f, h))
      ] in
    let clear : (b : ℕ) → newly s s1 b ≡ true → b ≢ node.indirect =
      λ b h. IsOpen-apart s node index b o (fresh b h).0 in
    record {
      moved = Moved-trans s node index s1 node index s' node' (omega arith) first twice;
      here = m.before index (omega arith) ∙ r.here;
      same = λ b k h lt.
          let (f, t) = fresh b h in
          twice.bytes b k t (λ e. absurd (cc (o.first, f, e))) (clear b h) lt;
      more = λ b h.
          let (f, t) = fresh b h in
          let apart = taken_apart s1 node s' node' b twice.indirect t (clear b h) in
          let other : (b == node'.indirect) ≡ false = ground (arith, apart) in
          rw (other, f) (twice.taken b t);
      rest = λ b h.
          let other : (b == node'.indirect) ≡ false = ground (arith, h) in
          let free : s2.freemap b ≡ false = ground (arith, h) in
          let taken : s'.freemap b ≡ true = ground (arith, h) in
          let f1 = free_before s1.freemap s2.freemap b put.taken free in
          let f = free_before s.freemap s1.freemap b kept.taken f1 in rw (other, f) taken;
    }
