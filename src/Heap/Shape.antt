-- ===== src/Heap/Shape.antt =====
-- The buddy tree of kernel/heap.c stands for one block only.
use jokerix.Base.{ℕ, zero, suc, ◌^◌, ◌≡◌, sym, ◌∙◌, arith, false, ◌&&◌, ◌==◌, if◌then◌else◌}
use jokerix.Base.Powers.{pow_pos}
use jokerix.Heap.{BuddyTree, left_leaf, right_leaf}
use jokerix.Heap.Block.{Block, free, used, split, Shows, Full-root}
use jokerix.Heap.Buddy.{IsTree}

-- The block that the nodes from `i` down stand for.
abbrev shape : ℕ → (ℕ → ℕ) → ℕ → Block
shape zero f i = if f i == 0 then used else free
shape (suc h) f i =
    let halves = split (shape h f (left_leaf i)) (shape h f (right_leaf i)) in
    if f i == 2 ^ suc h
    then free
    else if (f i == 0) && (f (left_leaf i) == 2 ^ h)
    then used
    else halves

Shows-shape : (h : ℕ) (f : ℕ → ℕ) (i : ℕ) (t : Block) → Shows h f i t → shape h f i ≡ t
Shows-shape zero f i free v = ground arith
Shows-shape zero f i used v = ground arith
Shows-shape zero f i (split l r) v = elim v [ ]
Shows-shape (suc h) f i free v = ground arith
Shows-shape (suc h) f i used v =
    let root = Full-root h f (left_leaf i) v.1.0 in
    ground (arith, v.0, root, pow_pos (suc h), pow_pos h)
Shows-shape (suc h) f i (split l r) v =
    let part : (f i == 2 ^ suc h) ≡ false = ground (arith, v.0, v.1) in
    let busy : ((f i == 0) && (f (left_leaf i) == 2 ^ h)) ≡ false =
      ground (arith, v.0, pow_pos h) in
    rw (part, busy, Shows-shape h f (left_leaf i) l v.2, Shows-shape h f (right_leaf i) r v.3)

-- A tree stands for one block.
pub IsTree-unique :
    (tree : BuddyTree) (h : ℕ) (t t' : Block) → IsTree tree h t → IsTree tree h t' → t ≡ t'
IsTree-unique tree h t t' w w' =
    sym (Shows-shape h tree.longest 0 t w.shows) ∙ Shows-shape h tree.longest 0 t' w'.shows
