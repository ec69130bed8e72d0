-- ===== src/Heap/Alloc.antt =====
-- buddyAlloc of kernel/heap.c on blocks: the way down to a free block and the way back up.
use jokerix.Base.{
  ℕ, zero, suc, ◌+◌, ◌*◌, ◌/◌, ◌^◌, ◌≤◌, ◌<◌, ◌≡◌, ◌≢◌, ◌⊎◌, inl, inr, refl, arith, ◌∙◌, sym, subst,
  true, false, leb, ◌==◌, update, Bool-cases,
}
use jokerix.Base.Run.{ok}
use jokerix.Base.Powers.{pow_pos, pow_double, pow_mono, pow_at_most, times_double, times_next}
use jokerix.Heap.{left_leaf, right_leaf, parent, max, choose, find_node, raise}
use jokerix.Heap.Under.{Under, Under-refl, Under-left, Under-right, Under-le, Under-apart}
use jokerix.Heap.Block.{
  Block, free, used, split, Halves, Taken, Full, Shows, Full-root, Full-Kept, Shows-frame, Shows-le,
  split-le,
}

-- More fuel than the node's index makes no difference.
raise-fuel : (a b : ℕ) (f : ℕ → ℕ) (i : ℕ) → i < a → i < b → raise a f i ≡ raise b f i
unfolding raise
raise-fuel zero b f i p q = elim p [ ]
raise-fuel (suc a) zero f i p q = elim q [ ]
raise-fuel (suc a) (suc b) f i p q = elim (Bool-cases (i == 0)) [
  | inl root ↦ rw root
  | inr inner ↦ rw inner (raise-fuel a b _ (parent i) (ground arith) (ground arith))
]

-- One round of the way up, from a child of `i`.
raise-child :
    (fuel : ℕ) (f : ℕ → ℕ) (i c : ℕ)
    → (c ≡ left_leaf i) ⊎ (c ≡ right_leaf i)
    → c < fuel
    → raise fuel f c ≡ raise fuel (update f i (max (f (left_leaf i)) (f (right_leaf i)))) i
unfolding raise
raise-child zero f i c child p = elim p [ ]
raise-child (suc fuel) f i c child p =
    let inner : (c == 0) ≡ false = ground arith in
    let up : parent c ≡ i = ground arith in
    rw (inner, up) (raise-fuel fuel (suc fuel) _ i (ground arith) (ground arith))

-- What the loops of buddyAlloc do in the block at `i`: the node that the way down leads to, the
-- offset of its block from that at `i`, and what the nodes show after the way up to `i`.
pub record Placed (h k i : ℕ) (f : ℕ → ℕ) (t : Block) : Type 0 where
  pub index : ℕ
  pub offset : ℕ
  pub block : Block
  pub after : ℕ → ℕ
  pub found : (fuel : ℕ) → h < fuel → find_node fuel f (2 ^ k) (2 ^ h) i ≡ ok (index, 2 ^ k)
  pub at : (index + 1) * 2 ^ k ≡ (i + 1) * 2 ^ h + offset
  pub taken : Taken h k offset t block
  pub under : Under i index
  pub raised : (fuel : ℕ) → index < fuel → raise fuel (update f index 0) index ≡ raise fuel after i
  pub shows : Shows h after i block
  pub less : after i < 2 ^ h
  pub kept : (j : ℕ) → (Under i j → ⊥) → after j ≡ f j

pub outside : (i j : ℕ) → (Under i j → ⊥) → i ≢ j
outside i j out e = out (subst (λ x. Under i x) e (Under-refl i))

-- The way down enters the child that `choose` returns.
find-child :
    (fuel h k i c index : ℕ) (f : ℕ → ℕ)
    → k ≤ h
    → choose f (2 ^ k) i ≡ c
    → ((fuel : ℕ) → h < fuel → find_node fuel f (2 ^ k) (2 ^ h) c ≡ ok (index, 2 ^ k))
    → suc h < fuel
    → find_node fuel f (2 ^ k) (2 ^ suc h) i ≡ ok (index, 2 ^ k)
unfolding find_node
find-child zero h k i c index f le to found p = elim p [ ]
find-child (suc fuel) h k i c index f le to found p =
    let large : (2 ^ suc h == 2 ^ k) ≡ false =
      ground (arith, pow_mono k h le, pow_double h, pow_pos h) in
    let half : 2 ^ suc h / 2 ≡ 2 ^ h = omega (arith, pow_double h) in
    rw (large, half, to) (found fuel (omega arith))

-- A free block of the height that is wanted is taken itself.
place_here : (h i : ℕ) (f : ℕ → ℕ) → Full h f i → Placed h h i f free
unfolding find_node
place_here h i f v = record {
  index = i;
  offset = 0;
  block = used;
  after = update f i 0;
  found = λ fuel p. stop fuel p;
  at = omega arith;
  taken = Taken.here refl refl;
  under = Under-refl i;
  raised = λ fuel p. refl;
  shows = (ground arith, Full-Kept h f (update f i 0) i (λ j lt. ground arith) v);
  less = ground (arith, pow_pos h);
  kept = λ j out. let away = outside i j out in ground arith;
}
  where
    stop : (fuel : ℕ) → h < fuel → find_node fuel f (2 ^ h) (2 ^ h) i ≡ ok (i, 2 ^ h)
    stop zero p = elim p [ ]
    stop (suc fuel) p = let same : (2 ^ h == 2 ^ h) ≡ true = ground arith in rw same

module _ (h k i : ℕ) (f : ℕ → ℕ) (t l r : Block) (halves : Halves t l r) (le : k ≤ h)
    (shows_l : Shows h f (left_leaf i) l) (shows_r : Shows h f (right_leaf i) r) where
  place_left :
      choose f (2 ^ k) i ≡ left_leaf i → Placed h k (left_leaf i) f l → Placed (suc h) k i f t
  place_left to p =
      let apart : (j : ℕ) → Under (right_leaf i) j → p.after j ≡ f j =
        λ j u. p.kept j (λ v. Under-apart i j v u) in
      let right = apart (right_leaf i) (Under-refl (right_leaf i)) in
      let most = Shows-le h f (right_leaf i) r shows_r in
      let g = update p.after i (max (p.after (left_leaf i)) (p.after (right_leaf i))) in
      record {
        index = p.index;
        offset = p.offset;
        block = split p.block r;
        after = g;
        found = λ fuel lt. find-child fuel h k i (left_leaf i) p.index f le to p.found lt;
        at = omega (arith, p.at, times_double (i + 1) h);
        taken = Taken.in_left halves p.taken;
        under = Under-left i p.index p.under;
        raised = λ fuel lt.
            p.raised fuel lt
            ∙ raise-child fuel p.after i (left_leaf i) (inl refl)
                (omega (arith, Under-le (left_leaf i) p.index p.under));
        shows = (
          ground arith,
          ground (arith, right, most, p.less, pow_double h),
          Shows-frame h p.after g (left_leaf i) p.block
              (λ j u. ground (arith, Under-le (left_leaf i) j u)) p.shows,
          Shows-frame h f g (right_leaf i) r
              (λ j u. ground (arith, Under-le (right_leaf i) j u, apart j u)) shows_r,
        );
        less = ground (arith, right, most, p.less, pow_double h);
        kept = λ j out.
            let away = outside i j out in
            let same = p.kept j (λ u. out (Under-left i j u)) in ground arith;
      }

  place_right :
      choose f (2 ^ k) i ≡ right_leaf i → Placed h k (right_leaf i) f r → Placed (suc h) k i f t
  place_right to p =
      let apart : (j : ℕ) → Under (left_leaf i) j → p.after j ≡ f j =
        λ j u. p.kept j (λ v. Under-apart i j u v) in
      let left = apart (left_leaf i) (Under-refl (left_leaf i)) in
      let most = Shows-le h f (left_leaf i) l shows_l in
      let g = update p.after i (max (p.after (left_leaf i)) (p.after (right_leaf i))) in
      record {
        index = p.index;
        offset = 2 ^ h + p.offset;
        block = split l p.block;
        after = g;
        found = λ fuel lt. find-child fuel h k i (right_leaf i) p.index f le to p.found lt;
        at = omega (arith, p.at, times_double (i + 1) h, times_next ((i + 1) * 2) h);
        taken = Taken.in_right halves refl p.taken;
        under = Under-right i p.index p.under;
        raised = λ fuel lt.
            p.raised fuel lt
            ∙ raise-child fuel p.after i (right_leaf i) (inr refl)
                (omega (arith, Under-le (right_leaf i) p.index p.under));
        shows = (
          ground arith,
          ground (arith, left, most, p.less, pow_double h),
          Shows-frame h f g (left_leaf i) l
              (λ j u. ground (arith, Under-le (left_leaf i) j u, apart j u)) shows_l,
          Shows-frame h p.after g (right_leaf i) p.block
              (λ j u. ground (arith, Under-le (right_leaf i) j u)) p.shows,
        );
        less = ground (arith, left, most, p.less, pow_double h);
        kept = λ j out.
            let away = outside i j out in
            let same = p.kept j (λ u. out (Under-right i j u)) in ground arith;
      }

-- `choose` enters a child that has the size that is wanted, if one has.
choose_lem :
    (f : ℕ → ℕ) (size i : ℕ)
    → size ≤ max (f (left_leaf i)) (f (right_leaf i))
    → ((choose f size i ≡ left_leaf i) × (size ≤ f (left_leaf i)))
      ⊎ ((choose f size i ≡ right_leaf i) × (size ≤ f (right_leaf i)))
unfolding choose
choose_lem f size i room = elim (Bool-cases (leb (f (left_leaf i)) (f (right_leaf i)))) [
  | inl small ↦ elim (Bool-cases (leb size (f (left_leaf i)))) [
    | inl fits ↦ inl (rw (small, fits), ground arith)
    | inr over ↦ inr (rw (small, over), ground arith)
  ]
  | inr large ↦ elim (Bool-cases (leb size (f (right_leaf i)))) [
    | inl fits ↦ inr (rw (large, fits), ground arith)
    | inr over ↦ inl (rw (large, over), ground arith)
  ]
]

-- Where a node shows the size that is wanted, a free block of it is found, taken and accounted for
-- up to the node.
pub place : (h k i : ℕ) (f : ℕ → ℕ) (t : Block) → Shows h f i t → 2 ^ k ≤ f i → Placed h k i f t
unfolding choose
place zero k i f free v room =
    let flat : k ≡ 0 = omega (arith, pow_at_most k 0 (omega (arith, v))) in
    subst (λ (x : ℕ). Placed 0 x i f free) (sym flat) (place_here 0 i f v)
place (suc h) k i f free v room = elim (Bool-cases (k == suc h)) [
  | inl same ↦
      let at : k ≡ suc h = ground arith in
      subst (λ (x : ℕ). Placed (suc h) x i f free) (sym at) (place_here (suc h) i f v)
  | inr differ ↦
      let most = pow_at_most k (suc h) (omega (arith, v.0, room)) in
      let le : k ≤ h = ground arith in
      let left = Full-root h f (left_leaf i) v.1 in
      let right = Full-root h f (right_leaf i) v.2 in
      let to : choose f (2 ^ k) i ≡ left_leaf i = ground (arith, left, right, pow_mono k h le) in
      place_left h k i f free free free Halves.whole le v.1 v.2 to
        (place h k (left_leaf i) f free v.1 (omega (arith, left, pow_mono k h le)))
]
place h k i f used v room = absurd (omega (arith, v.0, pow_pos k))
place zero k i f (split l r) v room = elim v [ ]
place (suc h) k i f (split l r) v room =
    let le = pow_at_most k h (omega (arith, room, split-le h f i l r v)) in
    elim (choose_lem f (2 ^ k) i (omega (arith, v.0, room))) [
      | inl (to, fits) ↦
          place_left h k i f (split l r) l r Halves.two le v.2 v.3 to
            (place h k (left_leaf i) f l v.2 fits)
      | inr (to, fits) ↦
          place_right h k i f (split l r) l r Halves.two le v.2 v.3 to
            (place h k (right_leaf i) f r v.3 fits)
    ]
