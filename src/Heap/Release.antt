-- ===== src/Heap/Release.antt =====
-- buddyFree of kernel/heap.c on blocks: the used block is free again, and is joined with the free
-- blocks beside it up to the root.
use jokerix.Base.{
  ℕ, zero, suc, ◌+◌, ◌*◌, ◌^◌, ◌<◌, ◌≡◌, inl, inr, refl, arith, ap, ◌∙◌, sym, false, some, ◌==◌,
  if◌then◌else◌, update, Bool-cases,
}
use jokerix.Base.Run.{ok}
use jokerix.Base.Powers.{pow_double}
use jokerix.Heap.{left_leaf, right_leaf, parent, max, find_taken, merge}
use jokerix.Heap.Under.{Under, Under-refl, Under-left, Under-right, Under-le, Under-apart}
use jokerix.Heap.Block.{
  Block, free, used, split, join, Released, Full, Kept, Shows, Full-root, Full-frame, Shows-frame,
  Shows-le, Shows-whole,
}
use jokerix.Heap.Alloc.{outside}
use jokerix.Heap.Climb.{
  Child, leaf, leaf-left, leaf-right, leaf-le, find_taken-Kept, find_taken-stop,
}

merge-fuel : (a b : ℕ) (f : ℕ → ℕ) (i n : ℕ) → i < a → i < b → merge a f i n ≡ merge b f i n
unfolding merge
merge-fuel zero b f i n p q = elim p [ ]
merge-fuel (suc a) zero f i n p q = elim q [ ]
merge-fuel (suc a) (suc b) f i n p q = elim (Bool-cases (i == 0)) [
  | inl root ↦ rw root
  | inr inner ↦ rw inner (merge-fuel a b _ (parent i) (n * 2) (ground arith) (ground arith))
]

Kept-Full :
    (h : ℕ) (f g : ℕ → ℕ) (i : ℕ)
    → ((j : ℕ) → i < j → g j ≡ f j)
    → g i ≡ 2 ^ h
    → Kept h f i
    → Full h g i
Kept-Full zero f g i same root v = root
Kept-Full (suc h) f g i same root v = (
  root,
  Full-frame h f g (left_leaf i) (λ j u. same j (omega (arith, Under-le (left_leaf i) j u))) v.0,
  Full-frame h f g (right_leaf i) (λ j u. same j (omega (arith, Under-le (right_leaf i) j u))) v.1,
)

-- What the node of a block becomes when one of its halves of `n` blocks is free again.
abbrev merged_size : (ℕ → ℕ) → ℕ → ℕ → ℕ
merged_size f i n =
    if f (left_leaf i) + f (right_leaf i) == n * 2
    then n * 2
    else max (f (left_leaf i)) (f (right_leaf i))

merge-Child :
    (fuel : ℕ) (f : ℕ → ℕ) (i c n : ℕ)
    → Child i c
    → c < fuel
    → merge fuel f c n ≡ merge fuel (update f i (merged_size f i n)) i (n * 2)
unfolding merge
merge-Child zero f i c n child p = elim p [ ]
merge-Child (suc fuel) f i c n child p =
    let inner : (c == 0) ≡ false = ground arith in
    let up : parent c ≡ i = ground arith in
    rw (inner, up) (merge-fuel fuel (suc fuel) _ i (n * 2) (ground arith) (ground arith))

Shows-part : (h : ℕ) (f : ℕ → ℕ) (i : ℕ) (t : Block) → Shows h f i t → (t ≡ free → ⊥) → f i < 2 ^ h
Shows-part h f i t v part = elim (Bool-cases (f i == 2 ^ h)) [
  | inl all ↦ absurd (part (Shows-whole h f i t v (ground arith)))
  | inr less ↦ ground (arith, Shows-le h f i t v)
]

-- The node of a block shows its halves joined.
join-Shows :
    (h : ℕ) (f : ℕ → ℕ) (i : ℕ) (l r : Block)
    → f i ≡ merged_size f i (2 ^ h)
    → Shows h f (left_leaf i) l
    → Shows h f (right_leaf i) r
    → Shows (suc h) f i (join l r)
join-Shows h f i free free at v w =
    let left = Full-root h f (left_leaf i) v in
    let right = Full-root h f (right_leaf i) w in
    (ground (arith, at, left, right, pow_double h), v, w)
join-Shows h f i free used at v w =
    let less = Shows-part h f (right_leaf i) used w (λ e. cc) in
    let most = Shows-le h f (left_leaf i) free v in
    (ground (arith, at, less, most), omega (arith, less, most, pow_double h), v, w)
join-Shows h f i free (split a b) at v w =
    let less = Shows-part h f (right_leaf i) (split a b) w (λ e. cc) in
    let most = Shows-le h f (left_leaf i) free v in
    (ground (arith, at, less, most), omega (arith, less, most, pow_double h), v, w)
join-Shows h f i used r at v w =
    let less = Shows-part h f (left_leaf i) used v (λ e. cc) in
    let most = Shows-le h f (right_leaf i) r w in
    (ground (arith, at, less, most), omega (arith, less, most, pow_double h), v, w)
join-Shows h f i (split a b) r at v w =
    let less = Shows-part h f (left_leaf i) (split a b) v (λ e. cc) in
    let most = Shows-le h f (right_leaf i) r w in
    (ground (arith, at, less, most), omega (arith, less, most, pow_double h), v, w)

-- What the loops of buddyFree do in the block at `i`: the node that they find from the leaf of the
-- offset, and what the nodes show after the way up to `i`.
pub record Freed (h i offset : ℕ) (f : ℕ → ℕ) (block : Block) : Type 0 where
  pub index : ℕ
  pub height : ℕ
  pub after : ℕ → ℕ
  pub found :
      (fuel : ℕ)
      → leaf h i offset < fuel
      → find_taken fuel f (leaf h i offset) 1 ≡ ok (some (index, 2 ^ height))
  pub under : Under i index
  pub merged :
      (fuel : ℕ)
      → index < fuel
      → merge fuel (update f index (2 ^ height)) index (2 ^ height) ≡ merge fuel after i (2 ^ h)
  pub shows : Shows h after i block
  pub kept : (j : ℕ) → (Under i j → ⊥) → after j ≡ f j

Freed-used :
    (h i offset : ℕ) (f : ℕ → ℕ) → Shows h f i used → offset < 2 ^ h → Freed h i offset f free
Freed-used h i offset f v low = record {
  index = i;
  height = h;
  after = update f i (2 ^ h);
  found = λ fuel lt.
      find_taken-Kept h i offset fuel f v.1 low lt
      ∙ find_taken-stop fuel f i (2 ^ h) v.0 (omega (arith, leaf-le h i offset));
  under = Under-refl i;
  merged = λ fuel lt. refl;
  shows = Kept-Full h f (update f i (2 ^ h)) i (λ j lt. ground arith) (ground arith) v.1;
  kept = λ j out. let away = outside i j out in ground arith;
}

module _ (h i offset : ℕ) (f : ℕ → ℕ) (l r : Block) (shows_l : Shows h f (left_leaf i) l)
    (shows_r : Shows h f (right_leaf i) r) where
  Freed-left :
      (l' : Block) → Freed h (left_leaf i) offset f l' → Freed (suc h) i offset f (join l' r)
  Freed-left l' p =
      let apart : (j : ℕ) → Under (right_leaf i) j → p.after j ≡ f j =
        λ j u. p.kept j (λ v. Under-apart i j v u) in
      let g = update p.after i (merged_size p.after i (2 ^ h)) in
      let down = leaf-left h i offset in
      record {
        index = p.index;
        height = p.height;
        after = g;
        found = λ fuel lt. rw down (p.found fuel (omega (arith, down)));
        under = Under-left i p.index p.under;
        merged = λ fuel lt.
            p.merged fuel lt
            ∙ merge-Child fuel p.after i (left_leaf i) (2 ^ h) (inl refl)
                (omega (arith, Under-le (left_leaf i) p.index p.under))
            ∙ ap (λ n. merge fuel g i n) (sym (pow_double h));
        shows =
            join-Shows h g i l' r (ground arith)
              (Shows-frame h p.after g (left_leaf i) l'
                (λ j u. ground (arith, Under-le (left_leaf i) j u)) p.shows)
              (Shows-frame h f g (right_leaf i) r
                (λ j u. ground (arith, Under-le (right_leaf i) j u, apart j u)) shows_r);
        kept = λ j out.
            let away = outside i j out in
            let same = p.kept j (λ u. out (Under-left i j u)) in ground arith;
      }

  Freed-right :
      (r' : Block) (offset' : ℕ)
      → offset' ≡ 2 ^ h + offset
      → Freed h (right_leaf i) offset f r'
      → Freed (suc h) i offset' f (join l r')
  Freed-right r' offset' e p =
      let apart : (j : ℕ) → Under (left_leaf i) j → p.after j ≡ f j =
        λ j u. p.kept j (λ v. Under-apart i j u v) in
      let g = update p.after i (merged_size p.after i (2 ^ h)) in
      let down = leaf-right h i offset offset' e in
      record {
        index = p.index;
        height = p.height;
        after = g;
        found = λ fuel lt. rw down (p.found fuel (omega (arith, down)));
        under = Under-right i p.index p.under;
        merged = λ fuel lt.
            p.merged fuel lt
            ∙ merge-Child fuel p.after i (right_leaf i) (2 ^ h) (inr refl)
                (omega (arith, Under-le (right_leaf i) p.index p.under))
            ∙ ap (λ n. merge fuel g i n) (sym (pow_double h));
        shows =
            join-Shows h g i l r' (ground arith)
              (Shows-frame h f g (left_leaf i) l
                (λ j u. ground (arith, Under-le (left_leaf i) j u, apart j u)) shows_l)
              (Shows-frame h p.after g (right_leaf i) r'
                (λ j u. ground (arith, Under-le (right_leaf i) j u)) p.shows);
        kept = λ j out.
            let away = outside i j out in
            let same = p.kept j (λ u. out (Under-right i j u)) in ground arith;
      }

-- From the leaf of an offset in a used block, the loops of buddyFree release the block.
pub release :
    {h offset : ℕ} {t t' : Block} (i : ℕ) (f : ℕ → ℕ)
    → Released h offset t t'
    → Shows h f i t
    → Freed h i offset f t'
release {h = h} {offset = offset} i f (Released.here low) v = Freed-used h i offset f v low
release {h = suc h} {offset = offset} i f (Released.in_left {l = l} {r = r} {l' = l'} rest) v =
    Freed-left h i offset f l r v.2 v.3 l' (release (left_leaf i) f rest v.2)
release {h = suc h} {offset = offset'} i f
      (Released.in_right {offset = offset} {l = l} {r = r} {r' = r'} e rest) v =
    Freed-right h i offset f l r v.2 v.3 r' offset' e (release (right_leaf i) f rest v.3)
