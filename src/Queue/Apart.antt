-- ===== src/Queue/Apart.antt =====
-- Two queues of kernel/queue.c on one heap do not disturb each other.
use jokerix.Base.{
  ℕ, Bool-cases, inl, inr, ◌≡◌, refl, sym, subst, ◌∙◌, ap, ◌≢◌, false, [], ◌∷◌, ◌++◌, arith, update,
}
use jokerix.Base.Run.{ok, Returns, returns, Returns-bind, Returns-map, Returns-and}
use jokerix.KernelHeap.{KernelHeap}
use jokerix.Queue.{Node, Queue, node_bytes, is_empty, Store, push_back, pop_front}
use jokerix.Queue.Laws.{
  Cells, Off, Links, AllLive, Holds, IsQueue, Live-Off, AllLive-Off, push_back-append,
  pop_front-cons,
}

-- No node of the one is a node of the other.
abbrev pub AllOff : Cells → Cells → Type 0
AllOff [] ds = Unit {0}
AllOff ((p, v) ∷ cs) ds = Off p ds × AllOff cs ds

AllOff-nil : (cs : Cells) → AllOff cs []
AllOff-nil [] = tt
AllOff-nil ((p, v) ∷ cs) = (tt, AllOff-nil cs)

AllOff-cons : (p v : ℕ) (cs ds : Cells) → Off p cs → AllOff cs ds → AllOff cs ((p, v) ∷ ds)
AllOff-cons p v [] ds out apart = tt
AllOff-cons p v ((q, w) ∷ cs) ds out apart =
    (((λ e. out.0 (sym e)), apart.0), AllOff-cons p v cs ds out.1 apart.1)

AllOff-sym : (cs ds : Cells) → AllOff cs ds → AllOff ds cs
AllOff-sym [] ds apart = AllOff-nil ds
AllOff-sym ((p, v) ∷ cs) ds apart = AllOff-cons p v ds cs apart.0 (AllOff-sym cs ds apart.1)

AllOff-append : (cs ds : Cells) (n x : ℕ) → AllOff cs ds → Off n ds → AllOff (cs ++ (n, x) ∷ []) ds
AllOff-append [] ds n x apart out = (out, tt)
AllOff-append ((p, v) ∷ cs) ds n x apart out = (apart.0, AllOff-append cs ds n x apart.1 out)

-- The last node of a queue is on no node of the other.
tail-Off :
    (nodes : ℕ → Node) (p v : ℕ) (cs ds : Cells) (tail : ℕ)
    → Links nodes p v cs tail
    → AllOff ((p, v) ∷ cs) ds
    → Off tail ds
tail-Off nodes p v [] ds tail l apart = subst (λ a. Off a ds) (sym l.2) apart.0
tail-Off nodes p v ((q, w) ∷ cs) ds tail l apart = tail-Off nodes q w cs ds tail l.4 apart.1

-- A change of a node that is not the queue's.
Links-frame :
    (nodes nodes' : ℕ → Node) (a p v : ℕ) (cs : Cells) (tail : ℕ)
    → Off a ((p, v) ∷ cs)
    → ((j : ℕ) → j ≢ a → nodes' j ≡ nodes j)
    → Links nodes p v cs tail
    → Links nodes' p v cs tail
Links-frame nodes nodes' a p v [] tail out same l =
    let kept = same p (λ e. out.0 (sym e)) in (l.0, ap (λ (n : Node). n.item) kept ∙ l.1, l.2)
Links-frame nodes nodes' a p v ((q, w) ∷ cs) tail out same l =
    let kept = same p (λ e. out.0 (sym e)) in
    (
      l.0,
      ap (λ (n : Node). n.item) kept ∙ l.1,
      ap (λ (n : Node). n.next) kept ∙ l.2,
      l.3,
      Links-frame nodes nodes' a q w cs tail out.1 same l.4,
    )

module _ (k : KernelHeap) where
  Holds-frame :
      (s : Store k) (r : Queue) (ds : Cells) (nodes' : ℕ → Node) (a : ℕ)
      → Off a ds
      → ((j : ℕ) → j ≢ a → nodes' j ≡ s.nodes j)
      → Holds k s r ds
      → Holds k (record s { nodes = nodes' }) r ds
  Holds-frame s r [] nodes' a out same h = h
  Holds-frame s r ((p, v) ∷ ds) nodes' a out same h =
      (h.0, Links-frame s.nodes nodes' a p v ds r.tail out same h.1, h.2)

  Holds-heap :
      (s : Store k) (r : Queue) (ds : Cells) (heap : k.State)
      → AllLive k heap ds
      → Holds k s r ds
      → Holds k (record s { heap = heap }) r ds
  Holds-heap s r [] heap live h = h
  Holds-heap s r ((p, v) ∷ ds) heap live h = (h.0, h.1, live)

  Holds-AllLive : (s : Store k) (r : Queue) (ds : Cells) → Holds k s r ds → AllLive k s.heap ds
  Holds-AllLive s r [] h = tt
  Holds-AllLive s r (d ∷ ds) h = h.2

  -- Two queues with their cells, which have no node in common.
  pub record Both (s : Store k) (q : Queue) (cs : Cells) (r : Queue) (ds : Cells) : Type 0 where
    pub one : IsQueue k s q cs
    pub other : IsQueue k s r ds
    pub apart : AllOff cs ds

  pub Both-sym :
      {s : Store k} {q : Queue} {cs : Cells} {r : Queue} {ds : Cells}
      → Both s q cs r ds
      → Both s r ds q cs
  Both-sym {cs = cs} {ds = ds} b = record {
    one = b.other;
    other = b.one;
    apart = AllOff-sym cs ds b.apart;
  }

  last_out :
      (s : Store k) (q : Queue) (cs ds : Cells)
      → Holds k s q cs
      → AllOff cs ds
      → is_empty q ≡ false
      → Off q.tail ds
  unfolding is_empty
  last_out s q [] ds h apart busy = ground (arith, h, busy)
  last_out s q ((p, v) ∷ cs) ds h apart busy = tail-Off s.nodes p v cs ds q.tail h.1 apart

  module _ (s : Store k) (q : Queue) (r : Queue) (ds : Cells) where
    push_back-other :
        (cs : Cells) (x n : ℕ) (heap : k.State)
        → Both s q cs r ds
        → k.kalloc node_bytes s.heap ≡ ok (n, heap)
        → Returns (λ (q', s'). Off n ds × Holds k s' r ds × (s'.heap ≡ heap)) (push_back k q x s)
    unfolding push_back
    push_back-other cs x n heap b e =
        let (some_address, valid, live, all) =
          k.kalloc_gives node_bytes n s.heap heap (omega arith) (omega arith) b.one.valid e in
        let (out, kept) = Live-Off k s.heap n ds heap all (Holds-AllLive s r ds b.other.holds) in
        let cleared = update s.nodes n (record { item = 0; next = 0 }) in
        let filled = update cleared n (record (cleared n) { item = x }) in
        let first =
          Holds-heap (record s { nodes = filled }) r ds heap kept
            (Holds-frame s r ds filled n out (λ j ne. ground arith) b.other.holds) in
        elim (Bool-cases (is_empty q)) [
          | inl none_yet ↦ rw (e, none_yet) (returns (out, first, refl))
          | inr busy ↦
              let last = last_out s q cs ds b.one.holds b.apart busy in
              rw (e, busy)
                (returns (
                  out,
                  Holds-frame (record { heap = heap; nodes = filled }) r ds _ q.tail last
                      (λ j ne. ground arith) first,
                  refl,
                ))
        ]

    -- While another queue on the same heap shares no node with this one, pushBack puts the item behind
    -- all others in the node that kalloc returned, leaves the other queue as it is, and they still share
    -- no node; the heap is the one that kalloc left.
    pub push_back-Both :
        (cs : Cells) (x n : ℕ) (heap : k.State)
        → Both s q cs r ds
        → k.kalloc node_bytes s.heap ≡ ok (n, heap)
        → Returns
            (λ (q', s'). Both s' q' (cs ++ (n, x) ∷ []) r ds × (s'.heap ≡ heap))
            (push_back k q x s)
    push_back-Both cs x n heap b e =
        Returns-map
          (Returns-and (push_back-append k s q cs x n heap b.one e)
            (push_back-other cs x n heap b e))
          λ (q', s') (grown, more). (
            record {
              one = grown;
              other = record { valid = grown.valid; holds = more.1 };
              apart = AllOff-append cs ds n x b.apart more.0;
            },
            more.2,
          )

    pop_front-other :
        (p v : ℕ) (cs : Cells)
        → Both s q ((p, v) ∷ cs) r ds
        → Returns (λ (item, q', s'). Holds k s' r ds) (pop_front k q s)
    unfolding pop_front
    pop_front-other p v cs b =
        let h = b.one.holds in
        let live : k.Live s.heap q.head = rw (h.0) h.2.0 in
        let out : Off q.head ds = subst (λ a. Off a ds) (sym h.0) b.apart.0 in
        Returns-bind (k.kfree_gives q.head s.heap b.one.valid live) λ heap (valid, kept). returns (
          Holds-heap s r ds heap
            (AllLive-Off k s.heap heap q.head ds kept out (Holds-AllLive s r ds b.other.holds))
            b.other.holds)

    -- While another queue on the same heap shares no node with this one, which is not empty, popFront
    -- returns the first item, leaves the other queue as it is, and they still share no node.
    pub pop_front-Both :
        (p v : ℕ) (cs : Cells)
        → Both s q ((p, v) ∷ cs) r ds
        → Returns (λ (item, q', s'). (item ≡ v) × Both s' q' cs r ds) (pop_front k q s)
    pop_front-Both p v cs b =
        Returns-map (Returns-and (pop_front-cons k s q p v cs b.one) (pop_front-other p v cs b))
          λ (item, q', s') (first, same). (
            first.0,
            record {
              one = first.1;
              other = record { valid = first.1.valid; holds = same };
              apart = b.apart.1;
            },
          )

  pub Both-heap :
      {s : Store k} {q : Queue} {cs : Cells} {r : Queue} {ds : Cells} (heap : k.State)
      → heap ≡ s.heap
      → Both s q cs r ds
      → Both (record s { heap = heap }) q cs r ds
  Both-heap {s} {q} {cs} {r} {ds} heap e b =
      subst (λ h. Both (record s { heap = h }) q cs r ds) (sym e) b
