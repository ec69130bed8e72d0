-- ===== src/Heap/Interface.antt =====
-- kernel/heap.c fills the interface by which the queues see the heap.
use jokerix.Base.{
  ℕ, ◌+◌, ◌-◌, ◌*◌, ◌/◌, ◌^◌, ◌≤◌, ◌<◌, ◌≡◌, ◌≢◌, ◌⊎◌, inl, inr, sym, ap, ◌∙◌, subst, arith, false,
  ◌||◌, ltb, Bool-cases,
}
use jokerix.Base.Run.{
  Run, ok, panic, fault, out_of_fuel, Returns, returns, Returns-bind, Returns-inv,
}
use jokerix.Base.Powers.{pow_pos, pow_mono}
use jokerix.KernelHeap.{KernelHeap}
use jokerix.Heap.{Heap, min_block_size, kernel_heap_size, fix_size, block_count, kalloc, kfree}
use jokerix.Heap.Block.{Block, Live}
use jokerix.Heap.Shape.{IsTree-unique}
use jokerix.Heap.Live.{
  Disjoint, Live-bound, Taken-Live, Live-Disjoint, Live-Released, Released-keeps,
}
use jokerix.Heap.Laws.{block_count_lem}
use jokerix.Heap.Sizes.{fix_size_up}
use jokerix.Heap.Buddy.{IsTree, Shows-HasRoom, HasRoom-Shows, buddy_free_releases}
use jokerix.Heap.Kalloc.{Given, kalloc_gives, kalloc_panics}

ok-inj {u} : {X : Type u} {x y : X} → ok x ≡ ok y → x ≡ y
ok-inj {x = x} e = ap (λ r. elim r [ ok a ↦ a | panic ↦ x | fault ↦ x | out_of_fuel ↦ x ]) e

-- A call that returned has what holds of the values that it returns.
Returns-at {u v} :
    {X : Type u} {Good : X → Type v} {call : Run X} {x : X}
    → Returns Good call
    → call ≡ ok x
    → Good x
Returns-at {Good = Good} g e =
    let (y, same, good) = Returns-inv g in subst Good (ok-inj (sym same ∙ e)) good

panic-ne-ok {u} : {X : Type u} {x : X} → panic ≡ ok x → ⊥
panic-ne-ok e = cc

module _ (base height : ℕ) where
  -- The heap stands for some blocks.
  abbrev pub IsHeap : Heap → Type 0
  IsHeap s = (t : Block) × IsTree s.tree height t

  -- The pointer is the address of a block in use.
  pub record Used (s : Heap) (p : ℕ) : Type 0 where
    pub block : Block
    pub k : ℕ
    pub offset : ℕ
    pub tree : IsTree s.tree height block
    pub live : Live height k offset block
    pub at : p ≡ base + offset * min_block_size

  -- Two pointers to blocks in use are the same or their blocks lie apart.
  apart-offsets :
      (o k o' k' p q : ℕ)
      → p ≡ base + o * min_block_size
      → q ≡ base + o' * min_block_size
      → Disjoint o (2 ^ k) o' (2 ^ k')
      → q ≢ p
  apart-offsets o k o' k' p q e e' (inl h) same = omega (arith, pow_pos k)
  apart-offsets o k o' k' p q e e' (inr h) same = omega (arith, pow_pos k')

  -- A pointer to another block lies in front of a block or behind it.
  beside :
      (o k o' k' p q : ℕ)
      → p ≡ base + o * min_block_size
      → q ≡ base + o' * min_block_size
      → q ≢ p
      → (o ≡ o') ⊎ Disjoint o (2 ^ k) o' (2 ^ k')
      → (o < o') ⊎ (o' + 2 ^ k' ≤ o)
  beside o k o' k' p q e e' ne (inl same) = absurd (ne (omega arith))
  beside o k o' k' p q e e' ne (inr (inl h)) = inl (omega (arith, pow_pos k))
  beside o k o' k' p q e e' ne (inr (inr h)) = inr h

  Live-in :
      (s : Heap) (q : ℕ) (t : Block) (u : Used s q)
      → IsTree s.tree height t
      → Live height u.k u.offset t
  Live-in s q t u w =
      subst (λ b. Live height u.k u.offset b) (IsTree-unique s.tree height u.block t u.tree w)
        u.live

  module _ (positive : 0 < base) where
    -- A block that kalloc gives is the client's, and what was in use still is.
    Given-Used :
        (n p k : ℕ) (s s' : Heap) (t : Block)
        → IsTree s.tree height t
        → Given min_block_size base height k n t s p s'
        → (p ≢ 0) × IsHeap s' × Used s' p × ((q : ℕ) → Used s q → (q ≢ p) × Used s' q)
    Given-Used n p k s s' t w g = (
      λ e. omega (arith, g.at),
      (g.block, g.tree),
      record {
        block = g.block;
        k = k;
        offset = g.offset;
        tree = g.tree;
        live = Taken-Live g.taken;
        at = g.at;
      },
      λ q u.
          let live = Live-in s q t u w in
          (
            apart-offsets g.offset k u.offset u.k p q g.at u.at (g.apart live),
            record {
              block = g.block;
              k = u.k;
              offset = u.offset;
              tree = g.tree;
              live = g.still live;
              at = u.at;
            },
          ),
    )

    kalloc-Used :
        (n p k : ℕ) (s s' : Heap) (t : Block)
        → 0 < n
        → block_count n ≤ 2 ^ 31
        → fix_size (block_count n) ≡ 2 ^ k
        → IsTree s.tree height t
        → kalloc base n s ≡ ok (p, s')
        → (p ≢ 0) × IsHeap s' × Used s' p × ((q : ℕ) → Used s q → (q ≢ p) × Used s' q)
    kalloc-Used n p k s s' t some_bytes small blocks w e =
        elim (Bool-cases (ltb (s.tree.longest 0) (2 ^ k))) [
          | inl full ↦ absurd (
              panic-ne-ok (
                sym (
                  kalloc_panics base height k n t s w some_bytes small blocks λ room.
                    let enough = HasRoom-Shows 0 s.tree.longest room w.shows in ground arith)
                ∙ e))
          | inr fits ↦
              let room = Shows-HasRoom height k 0 s.tree.longest t w.shows (ground arith) in
              Given-Used n p k s s' t w
                (Returns-at (kalloc_gives base height k n t s w some_bytes small blocks room) e)
        ]

    pub gives :
        (n p : ℕ) (s s' : Heap)
        → 0 < n
        → n < 2 ^ 31
        → IsHeap s
        → kalloc base n s ≡ ok (p, s')
        → (p ≢ 0) × IsHeap s' × Used s' p × ((q : ℕ) → Used s q → (q ≢ p) × Used s' q)
    gives n p s s' some_bytes int (t, w) e =
        let count = block_count_lem n some_bytes in
        let small : block_count n ≤ 2 ^ 31 = omega (arith, count) in
        let (k, blocks, enough, less) = fix_size_up (block_count n) (omega (arith, count)) small in
        kalloc-Used n p k s s' t some_bytes small blocks w e

    pub frees :
        (p : ℕ) (s : Heap)
        → height ≤ 17
        → IsHeap s
        → Used s p
        → Returns (λ s'. IsHeap s' × ((q : ℕ) → q ≢ p → Used s q → Used s' q)) (kfree base p s)
    unfolding kfree
    frees p s shallow (t, w) u =
        let live = Live-in s p t u w in
        let bound : u.offset < 2 ^ 17 =
          omega (arith, Live-bound live, pow_pos u.k, pow_mono height 17 shallow) in
        let inside : (ltb p base || ltb (base + kernel_heap_size - min_block_size) p) ≡ false =
          ground (arith, u.at) in
        let number : (p - base) / min_block_size ≡ u.offset = omega (arith, u.at) in
        let (t', released) =
          Live-Released u.offset live (omega arith) (omega (arith, pow_pos u.k)) in
        rw (inside, number)
          (Returns-bind (buddy_free_releases s.tree height u.offset t t' w released) λ tree w'.
            returns (
              (t', w'),
              λ q ne v.
                  let live' = Live-in s q t v w in
                  record {
                    block = t';
                    k = v.k;
                    offset = v.offset;
                    tree = w';
                    live = Released-keeps released live' (
                        beside u.offset u.k v.offset v.k p q u.at v.at ne
                          (Live-Disjoint live live'));
                    at = v.at;
                  },
            ))

-- The buddy system at an address, with 2 ^ `height` smallest blocks at most 2 ^ 17, as a heap.
abbrev pub kernel_heap : (base height : ℕ) → 0 < base → height ≤ 17 → KernelHeap
kernel_heap base height positive shallow = record {
  State = Heap;
  kalloc = kalloc base;
  kfree = kfree base;
  Valid = IsHeap base height;
  Live = Used base height;
  kalloc_gives = gives base height positive;
  kfree_gives = λ p s valid live. frees base height positive p s shallow valid live;
}
