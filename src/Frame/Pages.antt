-- ===== src/Frame/Pages.antt =====
-- What the allocator of kernel/memory.c promises: the invariant of `sta`, the pages that it
-- manages, and alloc and dealloc as operations on the set of the free ones.
use jokerix.Base.{
  ℕ, ◌+◌, ◌-◌, ◌*◌, ◌^◌, ◌≤◌, ◌<◌, ◌≡◌, ◌≢◌, inl, inr, false, ltb, leb, ◌==◌, arith, Bool-cases, ap,
  sym, ◌∙◌,
}
use jokerix.Base.Run.{ok, panic, Returns, returns, Returns-inv, Returns-bind, Returns-map, ◌>>=◌}
use jokerix.Base.Words.{add64, sub64}
use jokerix.Frame.{Sta, node_count, mark, alloc, dealloc}
use jokerix.Frame.Tree.{IsBuilt, mark_lem, descend_finds, root-free}

-- The leaf of the page `ppn`.
abbrev pub leaf : Sta → ℕ → ℕ
leaf s ppn = ppn - s.start_ppn + s.first_single

-- The pages that have a leaf of their own; leaf 0 and the leaves from `length` on are padding.
abbrev pub IsManaged : Sta → ℕ → Type 0
IsManaged s ppn = (s.start_ppn < ppn) × (ppn < s.start_ppn + s.length)

abbrev pub IsFree : Sta → ℕ → Type 0
IsFree s ppn = s.node (leaf s ppn) ≡ 0

pub record IsValid (s : Sta) : Type 0 where
  pub built : IsBuilt s.first_single 0 s.node
  pub room : s.first_single * 2 ≤ node_count
  pub wide : s.length < s.first_single
  pub low_pad : s.node s.first_single ≡ 1
  pub high_pad : (i : ℕ) → s.length ≤ i → i < s.first_single → s.node (s.first_single + i) ≡ 1
  pub fits : s.start_ppn + s.first_single < 2 ^ 52

-- `s'` manages the pages of `s`, and the page `ppn` alone has changed, to `v`.
pub record Marked (s : Sta) (ppn v : ℕ) (s' : Sta) : Type 0 where
  pub valid : IsValid s'
  pub start : s'.start_ppn ≡ s.start_ppn
  pub length : s'.length ≡ s.length
  pub here : s'.node (leaf s' ppn) ≡ v
  pub others : (q : ℕ) → IsManaged s q → q ≢ ppn → s'.node (leaf s' q) ≡ s.node (leaf s q)

module _ (v : ℕ) (s : Sta) (ppn : ℕ) (small : v ≤ 1) (w : IsValid s) (m : IsManaged s ppn) where
  -- A write to the leaf of a managed page.
  mark-Marked : Returns (Marked s ppn v) (mark v s (leaf s ppn))
  mark-Marked =
      Returns-map (mark_lem v s (leaf s ppn) small (omega arith) (omega (arith, w.wide)) w.built)
        λ s' r. record {
          valid = record {
            built = rw (r.1) r.0;
            room = omega (arith, r.1, w.room);
            wide = omega (arith, r.1, r.2, w.wide);
            low_pad = rw (r.1) (ground (arith, r.4 s.first_single, w.low_pad));
            high_pad = λ i p q.
                rw (r.1) (ground (arith, r.1, r.2, r.4 (s.first_single + i), w.high_pad i));
            fits = omega (arith, r.1, r.3, w.fits);
          };
          start = r.3;
          length = r.2;
          here = rw (r.1, r.3) (ground (arith, r.4 (leaf s ppn)));
          others = λ q mq ne. rw (r.1, r.3) (ground (arith, r.4 (leaf s q)));
        }

module _ (s : Sta) (w : IsValid s) where
  -- A free leaf that the walk can end at is that of a managed page.
  leaf-managed :
      (p : ℕ)
      → s.first_single ≤ p
      → p < s.first_single * 2
      → s.node p ≡ 0
      → (s.first_single < p) × (p < s.first_single + s.length)
  leaf-managed p low high e = elim (Bool-cases (ltb (p - s.first_single) s.length)) [
    | inl inside ↦ elim (Bool-cases (p == s.first_single)) [
      | inl first ↦ absurd (ground (arith, w.low_pad))
      | inr later ↦ ground arith
    ]
    | inr beyond ↦ absurd (ground (arith, w.high_pad (p - s.first_single), shift))
  ]
    where
      shift : s.node (s.first_single + (p - s.first_single)) ≡ s.node p
      shift = ap s.node (omega arith)

  -- In a valid tree with some managed page free, `alloc` returns a managed page that was free,
  -- marks it alone and keeps the tree valid.
  pub alloc_takes :
      (f : ℕ)
      → IsManaged s f
      → IsFree s f
      → Returns (λ (q, s'). IsManaged s q × IsFree s q × Marked s q 1 s') (alloc s)
  unfolding alloc
  alloc_takes f mf e =
      let root =
        root-free (leaf s f + 1) s.first_single (leaf s f) s.node (omega arith) w.built
          (omega arith) (omega (arith, w.wide)) e in
      rw root (
        Returns-bind
          (descend_finds (s.first_single + 1) s.first_single 1 s.node w.built (omega arith)
            (omega (arith, w.wide)) (omega arith) (omega arith) root)
          λ p r.
            let ppn = add64 (sub64 p s.first_single) s.start_ppn in
            let inside = leaf-managed p r.0 r.1 r.2 in
            let same : leaf s ppn ≡ p = omega (arith, inside, w.room, w.fits) in
            let m : IsManaged s ppn = omega (arith, inside, w.room, w.fits) in
            Returns-bind (rw same at (mark-Marked 1 s ppn (omega arith) w m))
              λ s' k. returns (m, rw same r.2, k))

  -- In a valid tree where every managed page is taken, `alloc` panics.
  pub alloc-depleted : ((q : ℕ) → IsManaged s q → s.node (leaf s q) ≡ 1) → alloc s ≡ panic
  unfolding alloc
  alloc-depleted taken = elim (Bool-cases (s.node 1 == 1)) [
    | inl full ↦ rw full
    | inr spare ↦
        let root : s.node 1 ≡ 0 = ground (arith, w.built.bits 1, w.wide) in
        let (p, _, r) = Returns-inv (
          descend_finds (s.first_single + 1) s.first_single 1 s.node w.built (omega arith)
            (omega (arith, w.wide)) (omega arith) (omega arith) root) in
        let inside = leaf-managed p r.0 r.1 r.2 in
        let ppn = p - s.first_single + s.start_ppn in
        let same : leaf s ppn ≡ p = omega (arith, inside) in
        absurd (omega (arith, rw same at (taken ppn (omega (arith, inside))), r.2))
  ]

  -- In a valid tree a managed page that is taken and given back is free again, and no other page
  -- changes.
  pub dealloc_frees :
      (q : ℕ) → IsManaged s q → s.node (leaf s q) ≡ 1 → Returns (Marked s q 0) (dealloc s q)
  unfolding dealloc
  dealloc_frees q m taken =
      let same : add64 (sub64 q s.start_ppn) s.first_single ≡ leaf s q =
        omega (arith, w.room, w.fits, w.wide) in
      let inside : leb node_count (leaf s q) ≡ false = ground (arith, w.room, w.wide) in
      rw (same, inside, taken) (mark-Marked 0 s q (omega arith) w m)

  -- A free page stays as it is.
  dealloc-free : (q : ℕ) → IsManaged s q → IsFree s q → dealloc s q ≡ ok s
  unfolding dealloc
  dealloc-free q m free =
      let same : add64 (sub64 q s.start_ppn) s.first_single ≡ leaf s q =
        omega (arith, w.room, w.fits, w.wide) in
      let inside : leb node_count (leaf s q) ≡ false = ground (arith, w.room, w.wide) in
      rw (same, inside, free)

-- In a valid tree with some managed page free, giving back the page that `alloc` returned leaves
-- a valid tree with the same free pages.
pub dealloc-alloc :
    (s : Sta) (f : ℕ)
    → IsValid s
    → IsManaged s f
    → IsFree s f
    → Returns
        (λ s''. IsValid s'' × ((q : ℕ) → IsManaged s q → s''.node (leaf s'' q) ≡ s.node (leaf s q)))
        (alloc s >>= λ (q, s'). dealloc s' q)
dealloc-alloc s f w mf e = Returns-bind (alloc_takes s w f mf e) λ (p, s') (mp, fp, k).
    let mp' : IsManaged s' p = omega (arith, k.start, k.length, mp) in
    Returns-map (dealloc_frees s' k.valid p mp' k.here) λ s'' k'. (
      k'.valid,
      λ q mq. elim (Bool-cases (q == p)) [
        | inl at ↦ let at' : q ≡ p = ground arith in rw at' (k'.here ∙ sym fp)
        | inr away ↦
            k'.others q (omega (arith, k.start, k.length, mq)) (ground arith)
            ∙ k.others q mq (ground arith)
      ],
    )
