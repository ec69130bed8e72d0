-- ===== src/Mkfs/Blocks.antt =====
-- The numbers of the blocks of a file in its inode, which mkfs/mksfs.c records one by one.
use jokerix.Base.{
  ℕ, ◌+◌, ◌-◌, ◌*◌, ◌^◌, ◌≤◌, ◌<◌, ◌≡◌, ◌≢◌, refl, sym, ap, ◌∙◌, subst, ◌⊎◌, inl, inr, true, false,
  ltb, ◌==◌, Bool-cases, if◌then◌else◌, arith,
}
use jokerix.Base.Run.{Returns, returns, Returns-bind}
use jokerix.Base.Bytes.{
  load_bytes, store_bytes, load_bytes-same, store_bytes-apart, load_bytes-store,
}
use jokerix.Fs.{block_size}
use jokerix.Mkfs.{Inode, Builder, block_addr, block_num, record_block}
use jokerix.Mkfs.Space.{free_count, get_free_block-Took}

-- Block `j` of a file: the number is in the inode, or in its indirect block.
abbrev pub number : (ℕ → ℕ) → Inode → ℕ → ℕ
number image node j =
    if ltb j 12 then node.direct j else load_bytes 4 image (block_addr node.indirect + (j - 12) * 4)

-- The block that the inode still needs for the numbers.
abbrev pub spare : Inode → ℕ
spare node = if node.indirect == 0 then 1 else 0

-- `index` blocks are recorded: with more than 12, the indirect block is there.
pub record IsOpen (s : Builder) (node : Inode) (index : ℕ) : Type 0 where
  pub first : s.freemap 0 ≡ true
  pub few : node.indirect ≡ 0 → index ≤ 12
  pub many : node.indirect ≢ 0 → (s.freemap node.indirect ≡ true) × (node.indirect < block_num)

-- What recording blocks leaves.
pub record Grown (s : Builder) (node : Inode) (index : ℕ) (s' : Builder) (node' : Inode)
    : Type 0 where
  pub size : node'.size ≡ node.size
  pub type : node'.type ≡ node.type
  pub blocks : node'.blocks ≡ node.blocks
  pub filename : node'.filename ≡ node.filename
  pub small : ((i : ℕ) → node.direct i < 2 ^ 32) → (i : ℕ) → node'.direct i < 2 ^ 32
  pub taken : (b : ℕ) → s.freemap b ≡ true → s'.freemap b ≡ true
  pub indirect : (node'.indirect ≡ node.indirect) ⊎ (s.freemap node'.indirect ≡ false)
  pub bytes :
      (b o : ℕ)
      → s.freemap b ≡ true
      → b ≢ node.indirect
      → o < block_size
      → s'.image (block_addr b + o) ≡ s.image (block_addr b + o)
  pub before : (j : ℕ) → j < index → number s'.image node' j ≡ number s.image node j

-- One number.
pub record Recorded (s : Builder) (node : Inode) (index block : ℕ) (s' : Builder) (node' : Inode)
    : Type 0 where
  pub grown : Grown s node index s' node'
  pub here : number s'.image node' index ≡ block
  pub open_ : IsOpen s' node' (index + 1)
  pub room : free_count s'.freemap + spare node ≡ free_count s.freemap + spare node'

-- One of the first 12,
record_block-near :
    (index block : ℕ) (node : Inode) (s : Builder)
    → IsOpen s node index
    → block < block_num
    → index < 12
    → Returns
        (λ (node', s'). Recorded s node index block s' node')
        (record_block index block node s)
unfolding record_block
record_block-near index block node s o low near =
    let direct : ltb index 12 ≡ true = ground arith in
    rw direct (
      returns (record {
        grown = record {
          size = refl;
          type = refl;
          blocks = refl;
          filename = refl;
          small = λ h i. ground (arith, h i);
          taken = λ b t. t;
          indirect = inl refl;
          bytes = λ b o' t ne lt. refl;
          before = λ j lt. ground arith;
        };
        here = ground arith;
        open_ = record { first = o.first; few = λ e. omega arith; many = o.many };
        room = refl;
      }))

-- What is stored in the indirect block.
abbrev put : ℕ → ℕ → Inode → Builder → Builder
put index block node s = record s {
  image = store_bytes 4 s.image (block_addr node.indirect + (index - 12) * 4) block;
}

put-before :
    (s : Builder) (node : Inode) (index block j : ℕ)
    → j < index
    → number (put index block node s).image node j ≡ number s.image node j
put-before s node index block j lt = elim (Bool-cases (ltb j 12)) [
  | inl near ↦ rw near
  | inr far ↦ rw far (
      load_bytes-same 4 s.image (put index block node s).image
        (block_addr node.indirect + (j - 12) * 4)
        λ b low high.
          store_bytes-apart 4 s.image (block_addr node.indirect + (index - 12) * 4) block b
            (inl (ground arith)))
]

put-Recorded :
    (s : Builder) (node : Inode) (index block : ℕ)
    → IsOpen s node index
    → node.indirect ≢ 0
    → block < block_num
    → 12 ≤ index
    → index < 1036
    → Recorded s node index block (put index block node s) node
put-Recorded s node index block o some low far high =
    let there : ltb index 12 ≡ false = ground arith in
    record {
      grown = record {
        size = refl;
        type = refl;
        blocks = refl;
        filename = refl;
        small = λ h. h;
        taken = λ b t. t;
        indirect = inl refl;
        bytes = λ b k t ne lt.
            store_bytes-apart 4 s.image (block_addr node.indirect + (index - 12) * 4) block
              (block_addr b + k) (ground arith);
        before = put-before s node index block;
      };
      here = rw there (
          load_bytes-store 4 s.image (block_addr node.indirect + (index - 12) * 4) block
            (omega arith));
      open_ = record { first = o.first; few = λ e. absurd (some e); many = o.many };
      room = refl;
    }

-- one behind them in the indirect block that is there,
record_block-far :
    (index block : ℕ) (node : Inode) (s : Builder)
    → IsOpen s node index
    → node.indirect ≢ 0
    → block < block_num
    → 12 ≤ index
    → index < 1036
    → Returns
        (λ (node', s'). Recorded s node index block s' node')
        (record_block index block node s)
unfolding record_block
record_block-far index block node s o some low far high =
    let direct : ltb index 12 ≡ false = ground arith in
    let there : (node.indirect == 0) ≡ false = ground arith in
    let inside : ltb (block_num * block_size) (block_addr node.indirect + (index - 12) * 4 + 4)
        ≡ false =
      ground (arith, (o.many some).1) in
    rw (direct, there, inside) (returns (put-Recorded s node index block o some low far high))

-- and the first behind them, which takes a block for the numbers.
record_block-first :
    (block : ℕ) (node : Inode) (s : Builder)
    → IsOpen s node 12
    → node.indirect ≡ 0
    → block < block_num
    → 0 < free_count s.freemap
    → Returns (λ (node', s'). Recorded s node 12 block s' node') (record_block 12 block node s)
unfolding record_block
record_block-first block node s o none low some =
    let there : (node.indirect == 0) ≡ true = ground arith in
    rw there (
      Returns-bind (get_free_block-Took s some) λ (b, s1) t.
        let inside : ltb (block_num * block_size) (block_addr b + (12 - 12) * 4 + 4) ≡ false =
          ground (arith, t.low) in
        let taken_ne : (q : ℕ) → s.freemap q ≡ true → q ≢ b = λ q h e. absurd (cc (h, t.free, e)) in
        let own = record node { indirect = b } in
        let keeps : (q : ℕ) → s.freemap q ≡ true → s1.freemap q ≡ true =
          λ q h. t.others q (taken_ne q h) ∙ h in
        let o1 : IsOpen s1 own 12 = record {
          first = keeps 0 o.first;
          few = λ e. omega arith;
          many = λ ne. (t.taken, t.low);
        } in
        let not_zero : b ≢ 0 = λ e. taken_ne 0 o.first (sym e) in
        let one : spare node ≡ 1 = ground arith in
        let covered : spare own ≡ 0 = ground (arith, not_zero) in
        let r = put-Recorded s1 own 12 block o1 not_zero low (omega arith) (omega arith) in
        rw inside (
          returns (record {
            grown = record {
              size = refl;
              type = refl;
              blocks = refl;
              filename = refl;
              small = λ h. h;
              taken = keeps;
              indirect = inr t.free;
              bytes = λ q k h ne lt.
                  r.grown.bytes q k (keeps q h) (taken_ne q h) lt
                  ∙ ap (λ m. m (block_addr q + k)) t.image;
              before = λ j lt. ground arith;
            };
            here = r.here;
            open_ = r.open_;
            room = omega (arith, t.left, one, covered);
          })))

-- Where there is room for the numbers, one more is recorded.
pub record_block-Recorded :
    (index block : ℕ) (node : Inode) (s : Builder)
    → IsOpen s node index
    → block < block_num
    → index < 1036
    → spare node ≤ free_count s.freemap
    → Returns
        (λ (node', s'). Recorded s node index block s' node')
        (record_block index block node s)
record_block-Recorded index block node s o low high room = elim (Bool-cases (ltb index 12)) [
  | inl near ↦ record_block-near index block node s o low (ground arith)
  | inr far ↦ elim (Bool-cases (node.indirect == 0)) [
    | inl none ↦
        let zero_yet : node.indirect ≡ 0 = ground arith in
        let last : index ≡ 12 = ground (arith, o.few zero_yet) in
        let some : 0 < free_count s.freemap = ground arith in
        rw last (record_block-first block node s (subst (IsOpen s node) last o) zero_yet low some)
    | inr there ↦ record_block-far index block node s o (ground arith) low (ground arith) high
  ]
]
