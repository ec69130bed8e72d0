-- ===== src/Mkfs/Rounds.antt =====
-- The rounds of the loop of mkfs/mksfs.c that copies a file into the image, a block each.
use jokerix.Base.{
  ℕ, zero, suc, ◌+◌, ◌-◌, ◌/◌, ◌%◌, ◌≤◌, ◌<◌, ◌≡◌, ◌≢◌, refl, sym, ap, ◌∙◌, subst, ◌⊎◌, inl, inr,
  true, false, List, ltb, ◌==◌, Bool-cases, if◌then◌else◌, arith,
}
use jokerix.Base.Run.{Returns, returns, Returns-bind, Returns-map}
use jokerix.Fs.{block_size}
use jokerix.Mkfs.{
  Inode, Builder, block_addr, block_num, take_bytes, drop_bytes, byte_count, write_blocks,
}
use jokerix.Mkfs.Bytes.{
  byte_at, write_at, byte_count-take_bytes, byte_at-take_bytes, byte_count-drop_bytes,
  byte_at-drop_bytes,
}
use jokerix.Mkfs.Space.{free_count, Took, get_free_block-Took}
use jokerix.Mkfs.Blocks.{number, spare, IsOpen, Grown, Recorded, record_block-Recorded}
use jokerix.Mkfs.Pack.{
  Packed, free_before, taken_ne, Grown-trans, IsOpen-apart, copied_to, copied_to-Grown,
  copied_to-IsOpen,
}

-- The first `size` bytes stand in block `b`, which was free and is now block `index` of the file.
record Started (s : Builder) (node : Inode) (index : ℕ) (contents : List ℕ) (size b : ℕ)
    (s1 : Builder) (node1 : Inode) : Type 0 where
  pub grown : Grown s node index s1 node1
  pub here : number s1.image node1 index ≡ b
  pub free : s.freemap b ≡ false
  pub low : b < block_num
  pub taken : s1.freemap b ≡ true
  pub room : free_count s1.freemap + 1 + spare node ≡ free_count s.freemap + spare node1
  pub apart : b ≢ node1.indirect
  pub bytes : (k : ℕ) → k < size → s1.image (block_addr b + k) ≡ byte_at contents k

-- A round makes it so.
Recorded-Started :
    (s : Builder) (b : ℕ) (s1 : Builder) (node : Inode) (index : ℕ) (contents : List ℕ) (size : ℕ)
    (s2 : Builder) (node' : Inode)
    → Took s b s1
    → IsOpen s node index
    → index < 1036
    → size ≤ block_size
    → size ≤ byte_count contents
    → Recorded (copied_to b (take_bytes size contents) s1) node index b s2 node'
    → Started s node index contents size b s2 node'
Recorded-Started s b s1 node index contents size s2 node' t o high short le r =
    let cs = take_bytes size contents in
    let count : byte_count cs ≡ size = byte_count-take_bytes size contents le in
    let ne : b ≢ node.indirect = IsOpen-apart s node index b o t.free in
    let first = copied_to-Grown s b s1 node index cs t o (omega arith) (omega (arith, count)) in
    record {
      grown =
          Grown-trans s node index (copied_to b cs s1) node index s2 node' (omega arith) first
            r.grown;
      here = r.here;
      free = t.free;
      low = t.low;
      taken = r.grown.taken b t.taken;
      room = omega (arith, t.left, r.room);
      apart = elim r.grown.indirect [
        | inl e ↦ subst (λ x. b ≢ x) (sym e) ne
        | inr f ↦ taken_ne s1.freemap b node'.indirect t.taken f
      ];
      bytes = λ k lt.
          r.grown.bytes b k t.taken ne (omega arith)
          ∙ write_at cs (block_addr b) s1.image k (omega (arith, count))
          ∙ byte_at-take_bytes size contents k lt;
    }

-- The rest of the rounds put the rest of the bytes behind it.
Started-Packed :
    (s : Builder) (node : Inode) (index : ℕ) (contents : List ℕ) (size b : ℕ) (s1 : Builder)
    (node1 : Inode) (s' : Builder) (node' : Inode)
    → 0 < size
    → size ≤ byte_count contents
    → size ≤ block_size
    → ((size ≡ block_size) ⊎ (size ≡ byte_count contents))
    → Started s node index contents size b s1 node1
    → Packed s1 node1 (index + 1) (drop_bytes size contents) s' node'
    → Packed s node index contents s' node'
Started-Packed s node index contents size b s1 node1 s' node' least le short full a r =
    let at : (k : ℕ) → k < size → number s'.image node' (index + k / 4096) ≡ b = λ k lt.
      let e : index + k / 4096 ≡ index = omega arith in
      rw e (r.grown.before index (omega arith) ∙ a.here) in
    let count : byte_count (drop_bytes size contents) ≡ byte_count contents - size =
      byte_count-drop_bytes size contents in
    let blocks : (byte_count (drop_bytes size contents) + 4095) / 4096 + 1
        ≡ (byte_count contents + 4095) / 4096 =
      ground (arith, count, full) in
    let last : index + 1 + (byte_count (drop_bytes size contents) + 4095) / 4096
        ≡ index + (byte_count contents + 4095) / 4096 =
      omega (arith, blocks) in
    record {
      grown = Grown-trans s node index s1 node1 (index + 1) s' node' (omega arith) a.grown r.grown;
      open_ = subst (IsOpen s' node') last r.open_;
      room = omega (arith, a.room, r.room, blocks);
      fresh = λ k lt. elim (Bool-cases (ltb k size)) [
        | inl here ↦ rw (at k (ground arith)) (a.free, r.grown.taken b a.taken)
        | inr behind ↦
            let whole : size ≡ 4096 = elim full [ inl e ↦ e | inr e ↦ absurd (ground arith) ] in
            let past : size ≤ k = ground arith in
            let e : index + k / 4096 ≡ index + 1 + (k - size) / 4096 = omega arith in
            let (f, l) = r.fresh (k - size) (omega (arith, count)) in
            rw e (free_before s.freemap s1.freemap _ a.grown.taken f, l)
      ];
      copied = λ k lt. elim (Bool-cases (ltb k size)) [
        | inl here ↦
            let m : k % 4096 ≡ k = ground arith in
            rw (at k (ground arith), m)
              (r.grown.bytes b k a.taken a.apart (ground arith) ∙ a.bytes k (ground arith))
        | inr behind ↦
            let whole : size ≡ 4096 = elim full [ inl e ↦ e | inr e ↦ absurd (ground arith) ] in
            let past : size ≤ k = ground arith in
            let e : index + k / 4096 ≡ index + 1 + (k - size) / 4096 = omega arith in
            let m : k % 4096 ≡ (k - size) % 4096 = omega arith in
            let all : size + (k - size) ≡ k = ground arith in
            rw (e, m)
              (r.copied (k - size) (omega (arith, count))
                ∙ byte_at-drop_bytes size contents (k - size)
                ∙ ap (byte_at contents) all)
      ];
    }

Grown-refl : (s : Builder) (node : Inode) (index : ℕ) → Grown s node index s node
Grown-refl s node index = record {
  size = refl;
  type = refl;
  blocks = refl;
  filename = refl;
  small = λ h. h;
  taken = λ b h. h;
  indirect = inl refl;
  bytes = λ b k h ne lt. refl;
  before = λ j lt. refl;
}

-- With nothing left there is nothing to do.
nothing_left-Packed :
    (s : Builder) (node : Inode) (index : ℕ) (contents : List ℕ)
    → byte_count contents ≡ 0
    → IsOpen s node index
    → Packed s node index contents s node
nothing_left-Packed s node index contents none o = record {
  grown = Grown-refl s node index;
  open_ = subst (IsOpen s node) (omega (arith, none)) o;
  room = omega (arith, none);
  fresh = λ k lt. absurd (omega (arith, none, lt));
  copied = λ k lt. absurd (omega (arith, none, lt));
}

-- The loop ends, with the file in the image: with room for the blocks and for their numbers, for a
-- file of up to 1036 blocks.
pub write_blocks-Packed :
    (fuel l : ℕ) (contents : List ℕ) (index : ℕ) (node : Inode) (s : Builder)
    → l ≡ byte_count contents
    → l ≤ fuel
    → IsOpen s node index
    → index + (l + 4095) / 4096 ≤ 1036
    → (l + 4095) / 4096 + spare node ≤ free_count s.freemap
    → Returns
        (λ (node', s'). Packed s node index contents s' node')
        (write_blocks fuel l contents index node s)
unfolding write_blocks
write_blocks-Packed zero l contents index node s count enough o high room =
    let none : l ≡ 0 = omega arith in
    let done : (l == 0) ≡ true = ground arith in
    rw done (returns (nothing_left-Packed s node index contents (omega arith) o))
write_blocks-Packed (suc fuel) l contents index node s count enough o high room =
    elim (Bool-cases (l == 0)) [
      | inl done ↦
          let none : l ≡ 0 = ground arith in
          rw done (returns (nothing_left-Packed s node index contents (omega arith) o))
      | inr more ↦ rw more (
          let size = if ltb block_size l then block_size else l in
          let some : l ≢ 0 = ground arith in
          let short : size ≤ block_size = ground arith in
          let le : size ≤ l = ground arith in
          let least : 0 < size = ground arith in
          let full : (size ≡ block_size) ⊎ (size ≡ byte_count contents) = ground arith in
          let fewer : (l - size + 4095) / 4096 + 1 ≡ (l + 4095) / 4096 = ground arith in
          Returns-bind (get_free_block-Took s (omega arith)) λ (ffb, s1) t.
            let cs = take_bytes size contents in
            let o1 = copied_to-IsOpen s ffb s1 node index cs t o in
            Returns-bind
              (record_block-Recorded index ffb node (copied_to ffb cs s1) o1 t.low (omega arith)
                (omega (arith, t.left)))
              λ (node', s2) r.
                Returns-map
                  (write_blocks-Packed fuel (l - size) (drop_bytes size contents) (index + 1) node'
                    s2 (omega (arith, byte_count-drop_bytes size contents)) (omega arith) r.open_
                    (omega arith) (omega (arith, t.left, r.room)))
                  λ (node'', s') rest.
                    Started-Packed s node index contents size ffb s2 node' s' node'' least
                      (omega arith) short full
                      (Recorded-Started s ffb s1 node index contents size s2 node' t o (omega arith)
                        short (omega arith) r)
                      rest)
    ]
