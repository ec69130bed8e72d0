-- ===== src/Heap/Buddy.antt =====
-- buddyAlloc and buddyFree of kernel/heap.c as operations on the blocks that the tree stands for.
use jokerix.Base.{
  ℕ, zero, suc, ◌+◌, ◌-◌, ◌*◌, ◌^◌, ◌≤◌, ◌<◌, ◌≡◌, refl, inl, inr, arith, true, false, Option, none,
  some, ltb, leb, Bool-cases,
}
use jokerix.Base.Run.{ok, Returns, returns, Returns-bind, ◌>>=◌}
use jokerix.Base.Powers.{pow_pos, pow_mono, pow_at_most}
use jokerix.Heap.{BuddyTree, left_leaf, right_leaf, round_up, buddy_alloc, buddy_free, raise, merge}
use jokerix.Heap.Block.{Block, free, used, split, Taken, Released, HasRoom, Shows, Full-root}
use jokerix.Heap.Alloc.{place}
use jokerix.Heap.Climb.{leaf}
use jokerix.Heap.Release.{release}
use jokerix.Heap.Live.{Taken-Released, Released-bound}

-- The tree of 2 ^ `h` smallest blocks stands for the block.
pub record IsTree (tree : BuddyTree) (h : ℕ) (t : Block) : Type 0 where
  pub size : tree.size ≡ 2 ^ h
  pub shows : Shows h tree.longest 0 t
  pub small : h < 31

-- Where a node shows a size, there is a free block of it,
pub Shows-HasRoom :
    (h k i : ℕ) (f : ℕ → ℕ) (t : Block) → Shows h f i t → 2 ^ k ≤ f i → HasRoom h k t
Shows-HasRoom h k i f free v p =
    HasRoom.here (pow_at_most k h (omega (arith, p, Full-root h f i v)))
Shows-HasRoom h k i f used v p = absurd (omega (arith, p, v.0, pow_pos k))
Shows-HasRoom zero k i f (split l r) v p = elim v [ ]
Shows-HasRoom (suc h) k i f (split l r) v p = elim (Bool-cases (ltb (f (left_leaf i)) (2 ^ k))) [
  | inl small ↦ HasRoom.in_right (Shows-HasRoom h k (right_leaf i) f r v.3 (ground (arith, p, v.0)))
  | inr fits ↦ HasRoom.in_left (Shows-HasRoom h k (left_leaf i) f l v.2 (ground arith))
]

-- and the other way round.
pub HasRoom-Shows :
    {h k : ℕ} {t : Block} (i : ℕ) (f : ℕ → ℕ) → HasRoom h k t → Shows h f i t → 2 ^ k ≤ f i
HasRoom-Shows {h = h} {k = k} i f (HasRoom.here le) v =
    omega (arith, Full-root h f i v, pow_mono k h le)
HasRoom-Shows {h = suc h} {k = k} i f (HasRoom.in_left room) v =
    ground (arith, v.0, HasRoom-Shows (left_leaf i) f room v.2)
HasRoom-Shows {h = suc h} {k = k} i f (HasRoom.in_right room) v =
    ground (arith, v.0, HasRoom-Shows (right_leaf i) f room v.3)

raise-root : (fuel : ℕ) (f : ℕ → ℕ) → 0 < fuel → raise fuel f 0 ≡ ok f
unfolding raise
raise-root zero f p = elim p [ ]
raise-root (suc fuel) f p = refl

merge-root : (fuel n : ℕ) (f : ℕ → ℕ) → 0 < fuel → merge fuel f 0 n ≡ ok f
unfolding merge
merge-root zero n f p = elim p [ ]
merge-root (suc fuel) n f p = refl

-- What buddyAlloc returns where it takes a block of height `k`.
abbrev pub Allocated : ℕ → ℕ → Block → Option ℕ × BuddyTree → Type 0
Allocated h k t (got, tree) =
    (offset : ℕ) × (t' : Block) × (got ≡ some offset) × Taken h k offset t t' × IsTree tree h t'

-- If a free block holds the size, rounded up to a power of two, buddyAlloc takes one block of this
-- size that was free, returns its offset, and leaves all other blocks.
pub buddy_alloc_takes :
    (tree : BuddyTree) (h k n : ℕ) (t : Block)
    → IsTree tree h t
    → round_up n ≡ 2 ^ k
    → HasRoom h k t
    → Returns (Allocated h k t) (buddy_alloc tree n)
unfolding buddy_alloc
buddy_alloc_takes tree h k n t w up room =
    let enough = HasRoom-Shows 0 tree.longest room w.shows in
    let p = place h k 0 tree.longest t w.shows enough in
    let fits : ltb (tree.longest 0) (2 ^ k) ≡ false = ground arith in
    let found = p.found 32 (omega (arith, w.small)) in
    let offset : (p.index + 1) * 2 ^ k - 2 ^ h ≡ p.offset = omega (arith, p.at) in
    rw
      (
        up,
        fits,
        w.size,
        found,
        p.raised (p.index + 1) (omega arith),
        raise-root (p.index + 1) p.after (omega arith),
        offset,
      )
      (returns (
        p.offset,
        p.block,
        refl,
        p.taken,
        record { size = refl; shows = p.shows; small = w.small },
      ))

-- If no free block holds the size, buddyAlloc returns -1 and changes nothing.
pub buddy_alloc-none :
    (tree : BuddyTree) (h k n : ℕ) (t : Block)
    → IsTree tree h t
    → round_up n ≡ 2 ^ k
    → (HasRoom h k t → ⊥)
    → buddy_alloc tree n ≡ ok (none, tree)
unfolding buddy_alloc
buddy_alloc-none tree h k n t w up full =
    let over : ltb (tree.longest 0) (2 ^ k) ≡ true =
      elim (Bool-cases (ltb (tree.longest 0) (2 ^ k))) [
        | inl less ↦ less
        | inr fits ↦ absurd (full (Shows-HasRoom h k 0 tree.longest t w.shows (ground arith)))
      ] in
    rw (up, over)

-- buddyFree of an offset in a used block makes this block free again, joined with the free blocks
-- beside it, and leaves all other blocks.
pub buddy_free_releases :
    (tree : BuddyTree) (h offset : ℕ) (t t' : Block)
    → IsTree tree h t
    → Released h offset t t'
    → Returns (λ tree'. IsTree tree' h t') (buddy_free tree offset)
unfolding buddy_free
buddy_free_releases tree h offset t t' w d =
    let p = release 0 tree.longest d w.shows in
    let start : offset + tree.size - 1 ≡ leaf h 0 offset = omega (arith, w.size) in
    let a_node : leb (tree.size * 2 - 1) (leaf h 0 offset) ≡ false =
      ground (arith, w.size, Released-bound d) in
    rw
      (
        start,
        a_node,
        p.found (leaf h 0 offset + 1) (omega arith),
        p.merged (p.index + 1) (omega arith),
        merge-root (p.index + 1) (2 ^ h) p.after (omega arith),
      )
      (returns (record { size = w.size; shows = p.shows; small = w.small }))

-- Freeing what was just allocated gives the blocks that there were.
buddy_free-alloc :
    (tree : BuddyTree) (h k n : ℕ) (t : Block)
    → IsTree tree h t
    → round_up n ≡ 2 ^ k
    → HasRoom h k t
    → Returns
        (λ tree'. IsTree tree' h t)
        (buddy_alloc tree n >>= λ (got, tree'). elim got [
          | none ↦ ok tree'
          | some offset ↦ buddy_free tree' offset
        ])
buddy_free-alloc tree h k n t w up room =
    Returns-bind (buddy_alloc_takes tree h k n t w up room)
      λ (got, tree') (offset, t', e, taken, w').
        rw e
          (buddy_free_releases tree' h offset t' t w' (Taken-Released tree.longest 0 taken w.shows))
