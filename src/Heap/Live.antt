-- ===== src/Heap/Live.antt =====
-- The used blocks of the buddy system: taking one leaves the others, and so does releasing one.
use jokerix.Base.{ℕ, suc, ◌+◌, ◌-◌, ◌^◌, ◌≤◌, ◌<◌, ◌≡◌, ◌⊎◌, inl, inr, refl, arith, subst, sym, ap}
use jokerix.Base.Powers.{pow_pos, pow_double}
use jokerix.Heap.{left_leaf, right_leaf}
use jokerix.Heap.Block.{
  Block, free, used, split, join, Halves, Taken, Released, Live, Shows, Full-root,
}

-- The smallest blocks from `o` to `o + n` and those from `p` to `p + m` have none in common.
abbrev pub Disjoint : ℕ → ℕ → ℕ → ℕ → Type 0
Disjoint o n p m = (o + n ≤ p) ⊎ (p + m ≤ o)

Disjoint-shift : (s o n p m : ℕ) → Disjoint o n p m → Disjoint (s + o) n (s + p) m
Disjoint-shift s o n p m (inl h) = inl (omega arith)
Disjoint-shift s o n p m (inr h) = inr (omega arith)

pub Live-bound : {h k o : ℕ} {t : Block} → Live h k o t → o + 2 ^ k ≤ 2 ^ h
Live-bound {h = h} {k = k} (Live.here e z) = rw e (omega arith)
Live-bound {h = suc h} (Live.in_left live) = omega (arith, Live-bound live, pow_double h)
Live-bound {h = suc h} (Live.in_right e live) = omega (arith, Live-bound live, pow_double h)

pub Taken-bound : {h k o : ℕ} {t t' : Block} → Taken h k o t t' → o + 2 ^ k ≤ 2 ^ h
Taken-bound {h = h} {k = k} (Taken.here e z) = rw e (omega arith)
Taken-bound {h = suc h} (Taken.in_left halves d) = omega (arith, Taken-bound d, pow_double h)
Taken-bound {h = suc h} (Taken.in_right halves e d) = omega (arith, Taken-bound d, pow_double h)

pub Taken-Live : {h k o : ℕ} {t t' : Block} → Taken h k o t t' → Live h k o t'
Taken-Live (Taken.here e z) = Live.here e z
Taken-Live (Taken.in_left halves d) = Live.in_left (Taken-Live d)
Taken-Live (Taken.in_right halves e d) = Live.in_right e (Taken-Live d)

-- A used block and one that is taken have no smallest block in common.
pub Taken-Disjoint :
    {h k o k' o' : ℕ} {t t' : Block}
    → Taken h k o t t'
    → Live h k' o' t
    → Disjoint o (2 ^ k) o' (2 ^ k')
Taken-Disjoint (Taken.here e z) live = elim live [ ]
Taken-Disjoint (Taken.in_left Halves.whole d) live = elim live [ ]
Taken-Disjoint (Taken.in_right Halves.whole e d) live = elim live [ ]
Taken-Disjoint (Taken.in_left Halves.two d) (Live.in_left live) = Taken-Disjoint d live
Taken-Disjoint (Taken.in_left Halves.two d) (Live.in_right e live) =
    inl (omega (arith, Taken-bound d))
Taken-Disjoint (Taken.in_right Halves.two e d) (Live.in_left live) =
    inr (omega (arith, Live-bound live))
Taken-Disjoint {h = suc h} {k = k} {k' = k'} (Taken.in_right {offset = o} Halves.two e d)
      (Live.in_right {offset = o'} e' live) =
    rw (e, e') (Disjoint-shift (2 ^ h) o (2 ^ k) o' (2 ^ k') (Taken-Disjoint d live))

pub Taken-keeps :
    {h k o k' o' : ℕ} {t t' : Block} → Taken h k o t t' → Live h k' o' t → Live h k' o' t'
Taken-keeps (Taken.here e z) live = elim live [ ]
Taken-keeps (Taken.in_left Halves.whole d) live = elim live [ ]
Taken-keeps (Taken.in_right Halves.whole e d) live = elim live [ ]
Taken-keeps (Taken.in_left Halves.two d) (Live.in_left live) = Live.in_left (Taken-keeps d live)
Taken-keeps (Taken.in_left Halves.two d) (Live.in_right e live) = Live.in_right e live
Taken-keeps (Taken.in_right Halves.two e d) (Live.in_left live) = Live.in_left live
Taken-keeps (Taken.in_right Halves.two e d) (Live.in_right e' live) =
    Live.in_right e' (Taken-keeps d live)

Disjoint-sym : (o n p m : ℕ) → Disjoint o n p m → Disjoint p m o n
Disjoint-sym o n p m (inl h) = inr h
Disjoint-sym o n p m (inr h) = inl h

-- Two used blocks are the same, or have no smallest block in common.
pub Live-Disjoint :
    {h k o k' o' : ℕ} {t : Block}
    → Live h k o t
    → Live h k' o' t
    → (o ≡ o') ⊎ Disjoint o (2 ^ k) o' (2 ^ k')
Live-Disjoint (Live.here e z) (Live.here e' z') = inl (omega arith)
Live-Disjoint (Live.in_left live) (Live.in_left live') = Live-Disjoint live live'
Live-Disjoint (Live.in_left live) (Live.in_right e live') =
    inr (inl (omega (arith, Live-bound live)))
Live-Disjoint (Live.in_right e live) (Live.in_left live') =
    inr (inr (omega (arith, Live-bound live')))
Live-Disjoint {h = suc h} {k = k} {k' = k'} (Live.in_right {offset = o} e live)
      (Live.in_right {offset = o'} e' live') =
    elim (Live-Disjoint live live') [
      | inl same ↦ inl (omega arith)
      | inr apart ↦ inr (rw (e, e') (Disjoint-shift (2 ^ h) o (2 ^ k) o' (2 ^ k') apart))
    ]

pub Released-bound : {h o : ℕ} {t t' : Block} → Released h o t t' → o < 2 ^ h
Released-bound (Released.here low) = low
Released-bound {h = suc h} (Released.in_left d) = omega (arith, Released-bound d, pow_double h)
Released-bound {h = suc h} (Released.in_right e d) = omega (arith, Released-bound d, pow_double h)

-- A used block can be released by any offset in it.
pub Live-Released :
    {h k o : ℕ} {t : Block} (x : ℕ)
    → Live h k o t
    → o ≤ x
    → x < o + 2 ^ k
    → (t' : Block) × Released h x t t'
Live-Released {h = h} {k = k} x (Live.here e z) low high =
    (free, Released.here (rw (sym e) (omega arith)))
Live-Released x (Live.in_left live) low high =
    let (t', d) = Live-Released x live low high in (_, Released.in_left d)
Live-Released {h = suc h} x (Live.in_right {offset = o} e live) low high =
    let (t', d) = Live-Released (x - 2 ^ h) live (omega arith) (omega arith) in
    (_, Released.in_right (omega arith) d)

join-in_left : {h k o : ℕ} (l r : Block) → Live h k o l → Live (suc h) k o (join l r)
join-in_left free r live = elim live [ ]
join-in_left used r live = Live.in_left live
join-in_left (split a b) r live = Live.in_left live

join-in_right :
    {h k o o' : ℕ} (l r : Block) → o' ≡ 2 ^ h + o → Live h k o r → Live (suc h) k o' (join l r)
join-in_right free free e live = elim live [ ]
join-in_right free used e live = Live.in_right e live
join-in_right free (split a b) e live = Live.in_right e live
join-in_right used r e live = Live.in_right e live
join-in_right (split a b) r e live = Live.in_right e live

closer :
    (s x o n x' o' : ℕ)
    → x' ≡ s + x
    → o' ≡ s + o
    → (x' < o') ⊎ (o' + n ≤ x')
    → (x < o) ⊎ (o + n ≤ x)
closer s x o n x' o' e e' (inl p) = inl (omega arith)
closer s x o n x' o' e e' (inr p) = inr (omega arith)

-- A used block that the offset does not lie in stays used.
pub Released-keeps :
    {h x k o : ℕ} {t t' : Block}
    → Released h x t t'
    → Live h k o t
    → (x < o) ⊎ (o + 2 ^ k ≤ x)
    → Live h k o t'
Released-keeps {h = h} {k = k} (Released.here low) (Live.here e z) (inl out) = absurd (omega arith)
Released-keeps {h = h} {k = k} (Released.here low) (Live.here e z) (inr out) =
    absurd (omega (arith, ap (λ n. 2 ^ n) e))
Released-keeps (Released.in_left {r = r} {l' = l'} d) (Live.in_left live) out =
    join-in_left l' r (Released-keeps d live out)
Released-keeps (Released.in_left {r = r} {l' = l'} d) (Live.in_right e live) out =
    join-in_right l' r e live
Released-keeps (Released.in_right {l = l} {r' = r'} e d) (Live.in_left live) out =
    join-in_left l r' live
Released-keeps {h = suc h} {k = k}
      (Released.in_right {offset = x} {offset' = x'} {l = l} {r' = r'} e d)
      (Live.in_right {offset = o} {offset' = o'} e' live) out =
    join-in_right l r' e' (Released-keeps d live (closer (2 ^ h) x o (2 ^ k) x' o' e e' out))

-- The halves of a split block are not both free.
join-split :
    (h : ℕ) (f : ℕ → ℕ) (i : ℕ) (l r : Block) → Shows (suc h) f i (split l r) → join l r ≡ split l r
join-split h f i free free v = absurd (
    omega
      (arith, v.1, Full-root h f (left_leaf i) v.2, Full-root h f (right_leaf i) v.3, pow_double h))
join-split h f i free used v = refl
join-split h f i free (split a b) v = refl
join-split h f i used r v = refl
join-split h f i (split a b) r v = refl

-- Releasing the block that was taken gives the blocks that there were.
pub Taken-Released :
    {h k o : ℕ} {t t' : Block} (f : ℕ → ℕ) (i : ℕ)
    → Taken h k o t t'
    → Shows h f i t
    → Released h o t' t
Taken-Released {h = h} f i (Taken.here e z) v = Released.here (omega (arith, pow_pos h))
Taken-Released f i (Taken.in_left Halves.whole d) v =
    Released.in_left (Taken-Released f (left_leaf i) d v.1)
Taken-Released f i (Taken.in_right Halves.whole e d) v =
    Released.in_right e (Taken-Released f (right_leaf i) d v.2)
Taken-Released {h = suc h} {o = o} f i (Taken.in_left {l = l} {r = r} {l' = l'} Halves.two d) v =
    subst (λ t. Released (suc h) o (split l' r) t) (join-split h f i l r v)
      (Released.in_left (Taken-Released f (left_leaf i) d v.2))
Taken-Released {h = suc h} {o = o} f i (Taken.in_right {l = l} {r = r} {r' = r'} Halves.two e d) v =
    subst (λ t. Released (suc h) o (split l r') t) (join-split h f i l r v)
      (Released.in_right e (Taken-Released f (right_leaf i) d v.3))
