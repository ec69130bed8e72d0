-- ===== src/Mkfs/Pack.antt =====
-- The loop of mkfs/mksfs.c that copies a file into blocks of the image.
use jokerix.Base.{
  ℕ, ◌+◌, ◌-◌, ◌*◌, ◌/◌, ◌%◌, ◌≤◌, ◌<◌, ◌≡◌, ◌≢◌, refl, sym, ap, ◌∙◌, subst, ◌⊎◌, inl, inr, true,
  false, List, ltb, ◌==◌, Bool, Bool-cases, arith,
}
use jokerix.Fs.{block_size}
use jokerix.Mkfs.{Inode, Builder, block_addr, write, byte_count}
use jokerix.Mkfs.Bytes.{byte_at, write-apart}
use jokerix.Base.Bytes.{load_bytes-same}
use jokerix.Mkfs.Space.{free_count, Took}
use jokerix.Mkfs.Blocks.{number, spare, IsOpen, Grown}

-- `contents` stand in blocks that were free, whose numbers are recorded from `index` on.
pub record Packed (s : Builder) (node : Inode) (index : ℕ) (contents : List ℕ) (s' : Builder)
    (node' : Inode) : Type 0 where
  pub grown : Grown s node index s' node'
  pub open_ : IsOpen s' node' (index + (byte_count contents + 4095) / 4096)
  pub room :
      free_count s'.freemap + (byte_count contents + 4095) / 4096 + spare node
      ≡ free_count s.freemap + spare node'
  pub fresh :
      (k : ℕ)
      → k < byte_count contents
      → (s.freemap (number s'.image node' (index + k / 4096)) ≡ false)
        × (s'.freemap (number s'.image node' (index + k / 4096)) ≡ true)
  pub copied :
      (k : ℕ)
      → k < byte_count contents
      → s'.image (block_addr (number s'.image node' (index + k / 4096)) + k % 4096)
        ≡ byte_at contents k

-- What is free after more blocks are taken was free before.
pub free_before :
    (f g : ℕ → Bool) (q : ℕ) → ((b : ℕ) → f b ≡ true → g b ≡ true) → g q ≡ false → f q ≡ false
free_before f g q keeps free = elim (Bool-cases (f q)) [
  | inl taken ↦ absurd (cc (keeps q taken, free))
  | inr before ↦ before
]

-- A block that is taken is not one that was free.
pub taken_ne : (f : ℕ → Bool) (a b : ℕ) → f a ≡ true → f b ≡ false → a ≢ b
taken_ne f a b taken free e = absurd (cc (taken, free, e))

-- Two steps.
pub Grown-trans :
    (s : Builder) (node : Inode) (i : ℕ) (s1 : Builder) (node1 : Inode) (k : ℕ) (s2 : Builder)
    (node2 : Inode)
    → i ≤ k
    → Grown s node i s1 node1
    → Grown s1 node1 k s2 node2
    → Grown s node i s2 node2
Grown-trans s node i s1 node1 k s2 node2 le a b =
    let own : (q : ℕ) → s.freemap q ≡ true → q ≢ node.indirect → q ≢ node1.indirect = λ q h ne.
      elim a.indirect [
        | inl e ↦ subst (λ x. q ≢ x) (sym e) ne
        | inr f ↦ taken_ne s.freemap q node1.indirect h f
      ] in
    record {
      size = b.size ∙ a.size;
      type = b.type ∙ a.type;
      blocks = b.blocks ∙ a.blocks;
      filename = b.filename ∙ a.filename;
      small = λ h. b.small (a.small h);
      taken = λ q h. b.taken q (a.taken q h);
      indirect = elim b.indirect [
        | inl e ↦ elim a.indirect [ inl e' ↦ inl (e ∙ e') | inr f ↦ inr (ap s.freemap e ∙ f) ]
        | inr f ↦ inr (free_before s.freemap s1.freemap node2.indirect a.taken f)
      ];
      bytes = λ q o h ne lt. b.bytes q o (a.taken q h) (own q h ne) lt ∙ a.bytes q o h ne lt;
      before = λ j lt. b.before j (omega arith) ∙ a.before j lt;
    }

-- The inode needs no block that is free for its own numbers.
pub IsOpen-apart :
    (s : Builder) (node : Inode) (index b : ℕ)
    → IsOpen s node index
    → s.freemap b ≡ false
    → b ≢ node.indirect
IsOpen-apart s node index b o free e = elim (Bool-cases (node.indirect == 0)) [
  | inl none ↦ let zero_ : b ≡ 0 = ground arith in absurd (cc (o.first, free, zero_))
  | inr some ↦
      let there : node.indirect ≢ 0 = ground arith in absurd (cc ((o.many there).0, free, e))
]

-- A block of the file that is written to the block that was taken for it.
abbrev pub copied_to : ℕ → List ℕ → Builder → Builder
copied_to b cs s = record s { image = write cs (block_addr b) s.image }

pub copied_to-Grown :
    (s : Builder) (b : ℕ) (s1 : Builder) (node : Inode) (index : ℕ) (cs : List ℕ)
    → Took s b s1
    → IsOpen s node index
    → index ≤ 1036
    → byte_count cs ≤ block_size
    → Grown s node index (copied_to b cs s1) node
copied_to-Grown s b s1 node index cs t o high short =
    let apart : (a : ℕ)
        → (a < block_addr b) ⊎ (block_addr b + block_size ≤ a)
        → (copied_to b cs s1).image a ≡ s.image a =
      λ a out. write-apart cs (block_addr b) s1.image a (ground arith) ∙ ap (λ m. m a) t.image in
    record {
      size = refl;
      type = refl;
      blocks = refl;
      filename = refl;
      small = λ h. h;
      taken = λ q h. t.others q (taken_ne s.freemap q b h t.free) ∙ h;
      indirect = inl refl;
      bytes = λ q k h ne lt.
          let other = taken_ne s.freemap q b h t.free in
          apart (block_addr q + k) (ground (arith, other));
      before = λ j lt. elim (Bool-cases (ltb j 12)) [
        | inl near ↦ rw near
        | inr far ↦
            let ne : b ≢ node.indirect = IsOpen-apart s node index b o t.free in
            rw far (
              load_bytes-same 4 s.image (copied_to b cs s1).image
                (block_addr node.indirect + (j - 12) * 4) λ a p q. apart a (ground (arith, ne)))
      ];
    }

pub copied_to-IsOpen :
    (s : Builder) (b : ℕ) (s1 : Builder) (node : Inode) (index : ℕ) (cs : List ℕ)
    → Took s b s1
    → IsOpen s node index
    → IsOpen (copied_to b cs s1) node index
copied_to-IsOpen s b s1 node index cs t o =
    let keeps : (q : ℕ) → s.freemap q ≡ true → s1.freemap q ≡ true =
      λ q h. t.others q (taken_ne s.freemap q b h t.free) ∙ h in
    record {
      first = keeps 0 o.first;
      few = o.few;
      many = λ ne. (keeps node.indirect (o.many ne).0, (o.many ne).1);
    }
