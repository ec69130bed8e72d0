-- ===== src/Heap/Block.antt =====
-- What the nodes of the buddy tree of kernel/heap.c stand for: a block is free, or used, or split
-- into two halves. A block of height `h` has 2 ^ h of the heap's smallest blocks.
use jokerix.Base.{ℕ, zero, suc, ◌+◌, ◌^◌, ◌≤◌, ◌<◌, ◌≡◌, refl, arith, ◌∙◌}
use jokerix.Base.Powers.{pow_pos, pow_double}
use jokerix.Heap.{left_leaf, right_leaf, max}
use jokerix.Heap.Under.{Under, Under-refl, Under-left, Under-right, Under-le}

pub data Block : Type 0 where
  free used : Block
  split : Block → Block → Block

-- Two free halves are a free block.
abbrev pub join : Block → Block → Block
join free free = free
join free r = split free r
join l r = split l r

-- The halves of a block that is not used.
pub data Halves : Block → Block → Block → Type 0 where
  whole : Halves free free free
  two : {l r : Block} → Halves (split l r) l r

-- `t'` is `t` with the free block of height `k` at `offset` used.
pub data Taken : ℕ → ℕ → ℕ → Block → Block → Type 0 where
  here : {h k offset : ℕ} → k ≡ h → offset ≡ 0 → Taken h k offset free used
  in_left :
      {h k offset : ℕ} {t l r l' : Block}
      → Halves t l r
      → Taken h k offset l l'
      → Taken (suc h) k offset t (split l' r)
  in_right :
      {h k offset offset' : ℕ} {t l r r' : Block}
      → Halves t l r
      → offset' ≡ 2 ^ h + offset
      → Taken h k offset r r'
      → Taken (suc h) k offset' t (split l r')

-- `t'` is `t` with the used block that `offset` lies in free again.
pub data Released : ℕ → ℕ → Block → Block → Type 0 where
  here : {h offset : ℕ} → offset < 2 ^ h → Released h offset used free
  in_left :
      {h offset : ℕ} {l r l' : Block}
      → Released h offset l l'
      → Released (suc h) offset (split l r) (join l' r)
  in_right :
      {h offset offset' : ℕ} {l r r' : Block}
      → offset' ≡ 2 ^ h + offset
      → Released h offset r r'
      → Released (suc h) offset' (split l r) (join l r')

-- The used blocks: height and offset.
pub data Live : ℕ → ℕ → ℕ → Block → Type 0 where
  here : {h k offset : ℕ} → k ≡ h → offset ≡ 0 → Live h k offset used
  in_left : {h k offset : ℕ} {l r : Block} → Live h k offset l → Live (suc h) k offset (split l r)
  in_right :
      {h k offset offset' : ℕ} {l r : Block}
      → offset' ≡ 2 ^ h + offset
      → Live h k offset r
      → Live (suc h) k offset' (split l r)

-- A block of height `h` has a free block of height `k` in it.
pub data HasRoom : ℕ → ℕ → Block → Type 0 where
  here : {h k : ℕ} → k ≤ h → HasRoom h k free
  in_left : {h k : ℕ} {l r : Block} → HasRoom h k l → HasRoom (suc h) k (split l r)
  in_right : {h k : ℕ} {l r : Block} → HasRoom h k r → HasRoom (suc h) k (split l r)

-- Every node of a free block has the size of its own block.
abbrev pub Full : ℕ → (ℕ → ℕ) → ℕ → Type 0
Full zero f i = f i ≡ 1
Full (suc h) f i = (f i ≡ 2 ^ suc h) × Full h f (left_leaf i) × Full h f (right_leaf i)

-- The nodes below one that is used are as they were when it was free.
abbrev pub Kept : ℕ → (ℕ → ℕ) → ℕ → Type 0
Kept zero f i = Unit {0}
Kept (suc h) f i = Full h f (left_leaf i) × Full h f (right_leaf i)

-- The nodes from `i` down stand for the block.
abbrev pub Shows : ℕ → (ℕ → ℕ) → ℕ → Block → Type 0
Shows h f i free = Full h f i
Shows h f i used = (f i ≡ 0) × Kept h f i
Shows zero f i (split l r) = ⊥
Shows (suc h) f i (split l r) =
    (f i ≡ max (f (left_leaf i)) (f (right_leaf i)))
    × (f (left_leaf i) + f (right_leaf i) < 2 ^ suc h)
    × Shows h f (left_leaf i) l
    × Shows h f (right_leaf i) r

pub Full-root : (h : ℕ) (f : ℕ → ℕ) (i : ℕ) → Full h f i → f i ≡ 2 ^ h
Full-root zero f i v = v
Full-root (suc h) f i v = v.0

pub Full-frame :
    (h : ℕ) (f g : ℕ → ℕ) (i : ℕ) → ((j : ℕ) → Under i j → g j ≡ f j) → Full h f i → Full h g i
Full-frame zero f g i same v = same i (Under-refl i) ∙ v
Full-frame (suc h) f g i same v = (
  same i (Under-refl i) ∙ v.0,
  Full-frame h f g (left_leaf i) (λ j u. same j (Under-left i j u)) v.1,
  Full-frame h f g (right_leaf i) (λ j u. same j (Under-right i j u)) v.2,
)

-- A change at the root of a free block leaves what is below it.
pub Full-Kept :
    (h : ℕ) (f g : ℕ → ℕ) (i : ℕ) → ((j : ℕ) → i < j → g j ≡ f j) → Full h f i → Kept h g i
Full-Kept zero f g i same v = tt
Full-Kept (suc h) f g i same v = (
  Full-frame h f g (left_leaf i) (λ j u. same j (omega (arith, Under-le (left_leaf i) j u))) v.1,
  Full-frame h f g (right_leaf i) (λ j u. same j (omega (arith, Under-le (right_leaf i) j u))) v.2,
)

pub Shows-frame :
    (h : ℕ) (f g : ℕ → ℕ) (i : ℕ) (t : Block)
    → ((j : ℕ) → Under i j → g j ≡ f j)
    → Shows h f i t
    → Shows h g i t
Shows-frame h f g i free same v = Full-frame h f g i same v
Shows-frame zero f g i used same v = (same i (Under-refl i) ∙ v.0, tt)
Shows-frame (suc h) f g i used same v = (
  same i (Under-refl i) ∙ v.0,
  (
    Full-frame h f g (left_leaf i) (λ j u. same j (Under-left i j u)) v.1.0,
    Full-frame h f g (right_leaf i) (λ j u. same j (Under-right i j u)) v.1.1,
  ),
)
Shows-frame zero f g i (split l r) same v = elim v [ ]
Shows-frame (suc h) f g i (split l r) same v =
    let at = same i (Under-refl i) in
    let left = same (left_leaf i) (Under-left i (left_leaf i) (Under-refl (left_leaf i))) in
    let right = same (right_leaf i) (Under-right i (right_leaf i) (Under-refl (right_leaf i))) in
    (
      rw (at, left, right) v.0,
      omega (arith, left, right, v.1),
      Shows-frame h f g (left_leaf i) l (λ j u. same j (Under-left i j u)) v.2,
      Shows-frame h f g (right_leaf i) r (λ j u. same j (Under-right i j u)) v.3,
    )

-- A node's number is at most the size of its block,
pub Shows-le : (h : ℕ) (f : ℕ → ℕ) (i : ℕ) (t : Block) → Shows h f i t → f i ≤ 2 ^ h
Shows-le h f i free v = omega (arith, Full-root h f i v)
Shows-le h f i used v = omega (arith, v.0)
Shows-le zero f i (split l r) v = elim v [ ]
Shows-le (suc h) f i (split l r) v =
    let left = Shows-le h f (left_leaf i) l v.2 in
    let right = Shows-le h f (right_leaf i) r v.3 in ground (arith, v.0, left, right, pow_double h)

-- and is at most half of it where the block is split.
pub split-le :
    (h : ℕ) (f : ℕ → ℕ) (i : ℕ) (l r : Block) → Shows (suc h) f i (split l r) → f i ≤ 2 ^ h
split-le h f i l r v =
    let left = Shows-le h f (left_leaf i) l v.2 in
    let right = Shows-le h f (right_leaf i) r v.3 in ground (arith, v.0, left, right)

-- A node that shows its whole size stands for a free block.
pub Shows-whole : (h : ℕ) (f : ℕ → ℕ) (i : ℕ) (t : Block) → Shows h f i t → f i ≡ 2 ^ h → t ≡ free
Shows-whole h f i free v e = refl
Shows-whole h f i used v e = absurd (omega (arith, pow_pos h, v.0, e))
Shows-whole zero f i (split l r) v e = elim v [ ]
Shows-whole (suc h) f i (split l r) v e =
    absurd (omega (arith, split-le h f i l r v, e, pow_double h, pow_pos h))
